-- ===== src/Stream/Trace/Frames/Survivors.antt =====
-- What walkCallFrames of internal/stream/internal.go collects: the value-moving frames that no revert
-- on the way to them rolled back, each under its path.
use mathlib.Core.Path.{subst}
use evm_tools.Base.{
  ℕ, zero, suc, ◌+◌, ◌≡◌, inl, inr, ◌↔◌, sym, arith, true, Bool-cases, some, Option-cases, List, [],
  ◌∷◌, ◌++◌, append_assoc, map, Text, to_lower, ℤ, pos,
}
use evm_tools.Rpc.Types.{CallFrame, CallFrames, frame, no_frames, more_frames}
use evm_tools.Stream.Trace.Frames.{
  InternalTransfer, is_create, is_value_moving_call, is_positive, own_transfer, frame_value,
  is_empty, walk_frame, walk_call_frames,
}
use evm_tools.Stream.Trace.Frames.Collected.{Among, Found, Found-join, append-Among, join_some}

-- A frame that was not reverted.
abbrev pub IsLive : CallFrame → Type 0
IsLive (frame type from to value error calls) = is_empty error ≡ true

-- The frame `g` is reached in `fs` by the index `i` and then the indices `p`, and neither it nor a
-- frame on the way was reverted.
pub data Survives : CallFrames → ℕ → List ℕ → CallFrame → Type 0 where
  here : (f : CallFrame) (fs : CallFrames) → IsLive f → Survives (more_frames f fs) 0 [] f
  below :
      (type from to value error : Text) (calls fs : CallFrames) (j : ℕ) (p : List ℕ) (g : CallFrame)
      → is_empty error ≡ true
      → Survives calls j p g
      → Survives (more_frames (frame type from to value error calls) fs) 0 (j ∷ p) g
  later :
      (f : CallFrame) (fs : CallFrames) (i : ℕ) (p : List ℕ) (g : CallFrame)
      → Survives fs i p g
      → Survives (more_frames f fs) (suc i) p g

-- The record of a frame that moves value.
abbrev pub IsTransfer : Text → List ℤ → CallFrame → InternalTransfer → Type 0
IsTransfer tx path (frame type from to value error calls) t =
    (v : ℤ) × (is_value_moving_call type ≡ true)
    × (frame_value value ≡ some v)
    × (is_positive v ≡ true)
    × (t ≡ record {
      tx_hash = tx;
      trace_address = path;
      from_address = from;
      to_address = to;
      value_wei = v;
      call_type = to_lower type;
      contract_creation = is_create type;
    })

own-Found :
    (tx : Text) (path : List ℤ) (type from to value error : Text) (calls : CallFrames)
    (t : InternalTransfer)
    → Found t (own_transfer tx path type from to (frame_value value))
    → IsTransfer tx path (frame type from to value error calls) t
unfolding own_transfer
own-Found tx path type from to value error calls t h =
    elim (Bool-cases (is_value_moving_call type)) [
      | inr still ↦ elim (Option-cases (frame_value value)) [
        | inl bad ↦ absurd (cc (rw (bad, still) at h))
        | inr (v, good) ↦ absurd (cc (rw (good, still) at h))
      ]
      | inl moves ↦ elim (Option-cases (frame_value value)) [
        | inl bad ↦ absurd (cc (rw (bad, moves) at h))
        | inr (v, good) ↦ elim (Bool-cases (is_positive v)) [
          | inr zero_value ↦ absurd (cc (rw (good, moves, zero_value) at h))
          | inl positive ↦ elim (rw (good, moves, positive) at h) [
            | inl e ↦ (v, moves, good, positive, e)
            | inr none_left ↦ absurd (cc none_left)
          ]
        ]
      ]
    ]

own_sound :
    (tx : Text) (path : List ℤ) (type from to value error : Text) (calls : CallFrames)
    (t : InternalTransfer) (xs : List InternalTransfer)
    → own_transfer tx path type from to (frame_value value) ≡ some xs
    → IsTransfer tx path (frame type from to value error calls) t
    → Among t xs
unfolding own_transfer
own_sound tx path type from to value error calls t xs h (v, moves, good, positive, e) =
    let own : some _ ≡ some xs = rw (good, moves, positive) at h in
    subst (λ o. Found t o) own (inl e)

-- The path of a frame below another one, in one piece.
path_below :
    (prefix : List ℤ) (i : ℕ) (rest : List ℤ)
    → (prefix ++ pos i ∷ []) ++ rest ≡ prefix ++ pos i ∷ rest
path_below prefix i rest = append_assoc prefix (pos i ∷ []) rest

-- A transfer of a frame that is reached from the frames of index `i` on.
abbrev pub IsSurvivor : Text → List ℤ → ℕ → CallFrames → InternalTransfer → Type 0
IsSurvivor tx prefix i fs t =
    (j : ℕ) × (p : List ℕ) × (g : CallFrame) × Survives fs j p g
    × IsTransfer tx (prefix ++ pos (i + j) ∷ map (λ k. pos k) p) g t

plus_zero : (i : ℕ) → i + zero ≡ i
plus_zero i = omega arith

plus_suc : (i j : ℕ) → suc i + j ≡ i + suc j
plus_suc i j = omega arith

zero_plus : (j : ℕ) → zero + j ≡ j
zero_plus j = omega arith

walk_sound :
    (tx : Text) (prefix : List ℤ) (i : ℕ) (fs : CallFrames) (t : InternalTransfer)
    → Found t (walk_call_frames tx prefix i fs)
    → IsSurvivor tx prefix i fs t
unfolding walk_call_frames
walk_sound tx prefix i no_frames t h = absurd (cc h)
walk_sound tx prefix i (more_frames (frame type from to value error calls) fs) t h =
    let path = prefix ++ pos i ∷ [] in
    elim (Found-join t (walk_frame tx path (frame type from to value error calls))
      (walk_call_frames tx prefix (suc i) fs) h) [
        | inr rest ↦
            let (j, p, g, survives, moved) = walk_sound tx prefix (suc i) fs t rest in
            (suc j, p, g, later _ fs j p g survives, rw (plus_suc i j) at moved)
        | inl own ↦ elim (Bool-cases (is_empty error)) [
          | inr reverted ↦ absurd (cc (rw reverted at own))
          | inl live ↦
              elim (Found-join t (own_transfer tx path type from to (frame_value value))
                (walk_call_frames tx path 0 calls) (rw live at own)) [
                  | inl self ↦ (
                    0,
                    [],
                    frame type from to value error calls,
                    here _ fs live,
                    rw (plus_zero i) (own-Found tx path type from to value error calls t self),
                  )
                  | inr inner ↦
                      let (j, p, g, survives, moved) = walk_sound tx path 0 calls t inner in
                      (
                        0,
                        j ∷ p,
                        g,
                        below type from to value error calls fs j p g live survives,
                        rw (plus_zero i) (
                            rw (zero_plus j, path_below prefix i (pos j ∷ map (λ k. pos k) p)) at
                              moved),
                      )
                ]
        ]
      ]

walk_complete :
    (tx : Text) (prefix : List ℤ) (i : ℕ) (fs : CallFrames) (j : ℕ) (p : List ℕ) (g : CallFrame)
    (t : InternalTransfer) (out : List InternalTransfer)
    → Survives fs j p g
    → IsTransfer tx (prefix ++ pos (i + j) ∷ map (λ k. pos k) p) g t
    → walk_call_frames tx prefix i fs ≡ some out
    → Among t out
unfolding walk_call_frames
walk_complete tx prefix i _ _ _ _ t out (here (frame type from to value error calls) fs live) moved
      ran =
    let path = prefix ++ pos i ∷ [] in
    let (xs, ys, own, _, e) =
      join_some (walk_frame tx path (frame type from to value error calls))
        (walk_call_frames tx prefix (suc i) fs) out ran in
    let (ts, us, self, _, e') =
      join_some (own_transfer tx path type from to (frame_value value))
        (walk_call_frames tx path 0 calls) xs (rw live at own) in
    let found =
      own_sound tx path type from to value error calls t ts self (rw (plus_zero i) at moved) in
    rw (sym e) (append-Among t xs ys (inl (rw (sym e') (append-Among t ts us (inl found)))))
walk_complete tx prefix i _ _ _ _ t out
      (below type from to value error calls fs j p g live survives) moved ran =
    let path = prefix ++ pos i ∷ [] in
    let (xs, ys, own, _, e) =
      join_some (walk_frame tx path (frame type from to value error calls))
        (walk_call_frames tx prefix (suc i) fs) out ran in
    let (ts, us, _, inner, e') =
      join_some (own_transfer tx path type from to (frame_value value))
        (walk_call_frames tx path 0 calls) xs (rw live at own) in
    let found =
      walk_complete tx path 0 calls j p g t us survives
        (rw (zero_plus j, path_below prefix i (pos j ∷ map (λ k. pos k) p))
          (rw (plus_zero i) at moved))
        inner in
    rw (sym e) (append-Among t xs ys (inl (rw (sym e') (append-Among t ts us (inr found)))))
walk_complete tx prefix i _ _ _ _ t out (later f fs j p g survives) moved ran =
    let path = prefix ++ pos i ∷ [] in
    let (xs, ys, _, rest, e) =
      join_some (walk_frame tx path f) (walk_call_frames tx prefix (suc i) fs) out ran in
    let found =
      walk_complete tx prefix (suc i) fs j p g t ys survives (rw (plus_suc i j) moved) rest in
    rw (sym e) (append-Among t xs ys (inr found))

-- A walk of the calls of a transaction that returns without an error has collected a transfer exactly
-- if it is the record of a value-moving frame with a positive value, under the indices that lead to
-- the frame, where neither the frame nor any frame above it was reverted.
pub walk_call_frames_iff :
    (tx : Text) (fs : CallFrames) (out : List InternalTransfer) (t : InternalTransfer)
    → walk_call_frames tx [] 0 fs ≡ some out
    → Among t out ↔ (
        (j : ℕ) × (p : List ℕ) × (g : CallFrame) × Survives fs j p g
        × IsTransfer tx (pos j ∷ map (λ k. pos k) p) g t)
walk_call_frames_iff tx fs out t ran = (
  λ h.
      let (j, p, g, survives, moved) = walk_sound tx [] 0 fs t (rw ran h) in
      (j, p, g, survives, rw (zero_plus j) at moved),
  λ h.
      let (j, p, g, survives, moved) = h in
      walk_complete tx [] 0 fs j p g t out survives (rw (zero_plus j) moved) ran,
)
