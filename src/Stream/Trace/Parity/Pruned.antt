-- ===== src/Stream/Trace/Parity/Pruned.antt =====
-- Which parity traces parseParityTraces of internal/stream/internal.go keeps.
use evm_tools.Base.{
  ℕ, suc, ◌≡◌, ◌⊎◌, inl, inr, ◌↔◌, refl, ap, arith, Bool, true, false, ◌&&◌, ◌||◌, Bool-cases, some,
  List, [], ◌∷◌, ◌++◌, ltb, length, ℤ, pos, negsuc,
}
use evm_tools.Rpc.Types.{ParityTrace}
use evm_tools.Stream.Trace.Frames.{is_empty}
use evm_tools.Stream.Trace.Parity.{
  int_eq, agrees, has_errored_ancestor, errored_paths, no_path, pruned, parity_loop,
  parse_parity_traces,
}

-- Some trace of a list has a property.
abbrev pub Some : (ParityTrace → Type 0) → List ParityTrace → Type 0
Some P [] = true ≡ false
Some P (t ∷ ts) = P t ⊎ Some P ts

-- A trace that failed and stands for a whole transaction.
abbrev pub IsRevertedRoot : ParityTrace → Type 0
IsRevertedRoot t = (is_empty t.error ≡ false) × (no_path t.trace_address ≡ true)

or_left : (b c : Bool) → b ≡ true → (b || c) ≡ true
or_left true c e = refl
or_left false c e = absurd (cc e)

or_right : (b c : Bool) → c ≡ true → (b || c) ≡ true
or_right true c e = refl
or_right false c e = e

root_prefix :
    (e path : List ℤ)
    → no_path e ≡ true
    → no_path path ≡ false
    → (ltb (length e) (length path) && agrees e path) ≡ true
root_prefix [] [] root inner = absurd (cc inner)
root_prefix [] (x ∷ path) root inner = ground arith
root_prefix (y ∷ e) path root inner = absurd (cc root)

root_above :
    (ts : List ParityTrace) (path : List ℤ)
    → no_path path ≡ false
    → Some IsRevertedRoot ts
    → has_errored_ancestor path (errored_paths ts) ≡ true
unfolding has_errored_ancestor errored_paths
root_above [] path inner h = absurd (cc h)
root_above (t ∷ ts) path inner (inl (failed, at_root)) =
    rw failed (or_left _ _ (root_prefix t.trace_address path at_root inner))
root_above (t ∷ ts) path inner (inr h) = elim (Bool-cases (is_empty t.error)) [
  | inl fine ↦ rw fine (root_above ts path inner h)
  | inr failed ↦ rw failed (or_right _ _ (root_above ts path inner h))
]

all_pruned :
    (ts : List ParityTrace) (t : ParityTrace)
    → Some IsRevertedRoot ts
    → pruned (errored_paths ts) t ≡ true
unfolding pruned
all_pruned ts t h = elim (Bool-cases (no_path t.trace_address)) [
  | inl root ↦ or_left _ _ root
  | inr inner ↦ elim (Bool-cases (is_empty t.error)) [
    | inl fine ↦ rw fine (or_right _ _ (root_above ts t.trace_address inner h))
    | inr failed ↦ rw failed (or_right _ _ refl)
  ]
]

loop_pruned :
    (errored : List (List ℤ)) (ts : List ParityTrace)
    → ((t : ParityTrace) → pruned errored t ≡ true)
    → parity_loop errored ts ≡ some []
unfolding parity_loop
loop_pruned errored [] h = refl
loop_pruned errored (t ∷ ts) h = rw (h t) (loop_pruned errored ts h)

-- If the top-level trace of any transaction of a block failed, parseParityTraces reports no transfer
-- for the whole block, whatever the traces of the other transactions are.
pub parse_parity_traces_reverted :
    (ts : List ParityTrace) → Some IsRevertedRoot ts → parse_parity_traces ts ≡ some []
unfolding parse_parity_traces
parse_parity_traces_reverted ts h = loop_pruned (errored_paths ts) ts (λ t. all_pruned ts t h)

-- A path goes through another one and beyond it.
abbrev pub IsBelow : List ℤ → List ℤ → Type 0
IsBelow path e = (x : ℤ) × (rest : List ℤ) × (path ≡ e ++ x ∷ rest)

int_eq_sound : (x y : ℤ) → int_eq x y ≡ true → x ≡ y
int_eq_sound (pos m) (pos n) h = ap (λ k. pos k) (ground arith)
int_eq_sound (negsuc m) (negsuc n) h = ap (λ k. negsuc k) (ground arith)
int_eq_sound (pos m) (negsuc n) h = absurd (cc h)
int_eq_sound (negsuc m) (pos n) h = absurd (cc h)

int_eq_refl : (x : ℤ) → int_eq x x ≡ true
int_eq_refl (pos n) = ground arith
int_eq_refl (negsuc n) = ground arith

ltb-suc : (m n : ℕ) → ltb (suc m) (suc n) ≡ ltb m n
ltb-suc m n = ground arith

and_right : (b c : Bool) → (b && c) ≡ true → c ≡ true
and_right true c h = h
and_right false c h = absurd (cc h)

prefix_sound :
    (e path : List ℤ) → (ltb (length e) (length path) && agrees e path) ≡ true → IsBelow path e
prefix_sound [] [] h = absurd (ground arith)
prefix_sound [] (x ∷ path) h = (x, path, refl)
prefix_sound (y ∷ e) [] h = absurd (ground arith)
prefix_sound (y ∷ e) (x ∷ path) h = elim (Bool-cases (int_eq y x)) [
  | inl same ↦
      let (z, rest, below) =
        prefix_sound e path (rw (ltb-suc (length e) (length path), same) at h) in
      (z, rest, cc (int_eq_sound y x same, below))
  | inr other ↦
      let tail : agrees (y ∷ e) (x ∷ path) ≡ true =
        and_right (ltb (length (y ∷ e)) (length (x ∷ path))) _ h in
      absurd (cc (rw other at tail))
]

prefix_complete :
    (e : List ℤ) (x : ℤ) (rest : List ℤ)
    → (ltb (length e) (length (e ++ x ∷ rest)) && agrees e (e ++ x ∷ rest)) ≡ true
prefix_complete [] x rest = ground arith
prefix_complete (y ∷ e) x rest =
    rw (ltb-suc (length e) (length (e ++ x ∷ rest)), int_eq_refl y) (prefix_complete e x rest)

-- Some path of a list has another one below it.
abbrev pub SomeAbove : List ℤ → List (List ℤ) → Type 0
SomeAbove path [] = true ≡ false
SomeAbove path (e ∷ errored) = IsBelow path e ⊎ SomeAbove path errored

-- hasErroredAncestor holds exactly if a failed path is a strict prefix of the path.
pub has_errored_ancestor_iff :
    (path : List ℤ) (errored : List (List ℤ))
    → (has_errored_ancestor path errored ≡ true) ↔ SomeAbove path errored
unfolding has_errored_ancestor
has_errored_ancestor_iff path [] = (λ h. cc h, λ h. cc h)
has_errored_ancestor_iff path (e ∷ errored) =
    let ih = has_errored_ancestor_iff path errored in
    (
      λ h. elim (Bool-cases (ltb (length e) (length path) && agrees e path)) [
        | inl first ↦ inl (prefix_sound e path first)
        | inr later ↦ inr (ih.0 (rw later at h))
      ],
      λ h. elim h [
        | inl (x, rest, below) ↦
            or_left (ltb (length e) (length path) && agrees e path) _
              (rw below (prefix_complete e x rest))
        | inr later ↦ or_right _ _ (ih.1 later)
      ],
    )
