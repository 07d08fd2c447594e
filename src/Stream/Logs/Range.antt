-- ===== src/Stream/Logs/Range.antt =====
-- What processLogs emits on a range: the logs of its blocks, each once and in order.
use evm_tools.Base.{
  ℕ, zero, suc, ◌+◌, ◌-◌, ◌≤◌, ◌<◌, ◌≡◌, ◌⊎◌, inl, inr, refl, sym, ap, ◌∙◌, arith, true, Bool-cases,
  List, [], ◌∷◌, ◌++◌, append_assoc,
}
use evm_tools.Base.Exec.{Outcome, done, failed, panicked, ◌>>◌, continue}
use evm_tools.Rpc.Errors.{RpcError}
use evm_tools.Rpc.Types.{Log, got, refused, Answer-cases}
use evm_tools.Stream.State.{Stream, Act, Fault, rpc}
use evm_tools.Stream.Logs.{for_each, LogSource, splits, middle, on_answer, process_logs}

-- The logs of `n` blocks from `lo` on.
abbrev pub block_range : (ℕ → List Log) → ℕ → ℕ → List Log
block_range blocks lo zero = []
block_range blocks lo (suc n) = blocks lo ++ block_range blocks (suc lo) n

zero_plus : (m : ℕ) → zero + m ≡ m
zero_plus m = omega arith

plus_zero : (m : ℕ) → m + zero ≡ m
plus_zero m = omega arith

suc_plus : (n m : ℕ) → suc n + m ≡ suc (n + m)
suc_plus n m = omega arith

plus_suc : (n m : ℕ) → n + suc m ≡ suc n + m
plus_suc n m = omega arith

block_range-append :
    (blocks : ℕ → List Log) (lo n m : ℕ)
    → block_range blocks lo (n + m) ≡ block_range blocks lo n ++ block_range blocks (lo + n) m
block_range-append blocks lo zero m = rw (zero_plus m, plus_zero lo) refl
block_range-append blocks lo (suc n) m =
    let rest = block_range blocks (suc lo + n) m in
    rw (suc_plus n m, plus_suc lo n)
      (ap (λ l. blocks lo ++ l) (block_range-append blocks (suc lo) n m)
        ∙ sym (append_assoc (blocks lo) (block_range blocks (suc lo) n) rest))

-- Two programs that agree after a success agree after any outcome.
after_outcome :
    (r : Outcome Fault (Unit {0}) × Stream) (m n : Act (Unit {0}))
    → ((s : Stream) → m s ≡ n s)
    → continue r.0 (λ _. m) r.1 ≡ continue r.0 (λ _. n) r.1
after_outcome (done a, s) m n h = h s
after_outcome (failed e, s) m n h = refl
after_outcome (panicked, s) m n h = refl

then_assoc :
    (r : Outcome Fault (Unit {0}) × Stream) (m n : Act (Unit {0}))
    → continue r.0 (λ _. m >> n) r.1
      ≡ continue (continue r.0 (λ _. m) r.1).0 (λ _. n) (continue r.0 (λ _. m) r.1).1
then_assoc (done a, s) m n = refl
then_assoc (failed e, s) m n = refl
then_assoc (panicked, s) m n = refl

module _ {A : Type 0} (f : A → Act (Unit {0})) where
  for_each-append :
      (xs ys : List A) (s : Stream) → for_each f (xs ++ ys) s ≡ (for_each f xs >> for_each f ys) s
  unfolding for_each
  for_each-append [] ys s = refl
  for_each-append (x ∷ xs) ys s =
      after_outcome (f x s) (for_each f (xs ++ ys)) (for_each f xs >> for_each f ys)
        (for_each-append xs ys)
      ∙ then_assoc (f x s) (for_each f xs) (for_each f ys)

-- The sizes of the two halves of a range that is split.
module _ (lo hi : ℕ) (wide : lo < hi) where
  left_low : lo ≤ middle lo hi
  left_low = omega arith

  right_low : middle lo hi + 1 ≤ hi
  right_low = omega arith

  halves_size : suc hi - lo ≡ (suc (middle lo hi) - lo) + (suc hi - (middle lo hi + 1))
  halves_size = omega arith

  right_start : lo + (suc (middle lo hi) - lo) ≡ middle lo hi + 1
  right_start = omega arith

module _ (emit : Log → Act (Unit {0})) (blocks : ℕ → List Log) where
  -- The records of a range, as one loop over the logs of its blocks.
  abbrev pub emit_blocks : ℕ → ℕ → Act (Unit {0})
  emit_blocks lo hi = for_each emit (block_range blocks lo (suc hi - lo))

  emit_blocks-halves :
      (lo hi : ℕ) (s : Stream)
      → lo < hi
      → emit_blocks lo hi s ≡ (emit_blocks lo (middle lo hi) >> emit_blocks (middle lo hi + 1) hi) s
  emit_blocks-halves lo hi s wide =
      let n = suc (middle lo hi) - lo in
      let m = suc hi - (middle lo hi + 1) in
      rw (halves_size lo hi wide, block_range-append blocks lo n m, right_start lo hi wide)
        (for_each-append emit (block_range blocks lo n) (block_range blocks (middle lo hi + 1) m) s)

splits-wide :
    (source : LogSource) (lo hi : ℕ) (e : RpcError) → splits source lo hi e ≡ true → lo < hi
unfolding splits
splits-wide source lo hi e h = ground arith

-- If every answered query holds the logs of its blocks in order, and every query that is refused is
-- one that processLogs splits, then processLogs does on any range what emitting the logs of its
-- blocks one after another does: the same records in the same order, and the same error if the
-- output fails. As much fuel as the range has blocks is enough.
pub process_logs_complete :
    (emit : Log → Act (Unit {0})) (blocks : ℕ → List Log) (source : LogSource)
    → ((lo hi : ℕ)
        → lo ≤ hi
        → (source.get_logs lo hi ≡ got (block_range blocks lo (suc hi - lo)))
          ⊎ ((e : RpcError) × (source.get_logs lo hi ≡ refused e) × (splits source lo hi e ≡ true)))
    → (fuel lo hi : ℕ) → lo ≤ hi
    → hi - lo < fuel
    → (s : Stream) → process_logs emit source fuel lo hi s ≡ emit_blocks emit blocks lo hi s
unfolding process_logs on_answer
process_logs_complete emit blocks source provider zero lo hi le enough s = absurd (omega arith)
process_logs_complete emit blocks source provider (suc fuel) lo hi le enough s =
    elim (provider lo hi le) [
      | inl e ↦ rw e refl
      | inr (e, asked, split) ↦
          let wide = splits-wide source lo hi e split in
          let ih = process_logs_complete emit blocks source provider fuel in
          let left = ih lo (middle lo hi) (left_low lo hi wide) (omega arith) s in
          let right = ih (middle lo hi + 1) hi (right_low lo hi wide) (omega arith) in
          rw (asked, split, left)
            (after_outcome (emit_blocks emit blocks lo (middle lo hi) s)
                (process_logs emit source fuel (middle lo hi + 1) hi)
                (emit_blocks emit blocks (middle lo hi + 1) hi) right
              ∙ sym (emit_blocks-halves emit blocks lo hi s wide))
    ]

done_first :
    (r : Outcome Fault (Unit {0}) × Stream) (m : Act (Unit {0})) (s' : Stream)
    → continue r.0 (λ _. m) r.1 ≡ (done tt, s')
    → (r ≡ (done tt, r.1)) × (m r.1 ≡ (done tt, s'))
done_first (done a, s) m s' h = (refl, h)
done_first (failed e, s) m s' h = absurd (cc h)
done_first (panicked, s) m s' h = absurd (cc h)

-- If every answered query holds the logs of its blocks in order, then whenever processLogs returns
-- without an error, however the refusals fell, it has emitted exactly the logs of the blocks of its
-- range, each once and in order.
pub process_logs_lossless :
    (emit : Log → Act (Unit {0})) (blocks : ℕ → List Log) (source : LogSource)
    → ((lo hi : ℕ) (logs : List Log)
        → lo ≤ hi
        → source.get_logs lo hi ≡ got logs
        → logs ≡ block_range blocks lo (suc hi - lo))
    → (fuel lo hi : ℕ) → lo ≤ hi
    → (s s' : Stream) → process_logs emit source fuel lo hi s ≡ (done tt, s')
    → emit_blocks emit blocks lo hi s ≡ (done tt, s')
unfolding process_logs on_answer
process_logs_lossless emit blocks source honest zero lo hi le s s' ran = absurd (cc ran)
process_logs_lossless emit blocks source honest (suc fuel) lo hi le s s' ran =
    let left = process_logs emit source fuel lo (middle lo hi) in
    let right = process_logs emit source fuel (middle lo hi + 1) hi in
    elim (Answer-cases (source.get_logs lo hi)) [
      | inl (logs, asked) ↦
          let answered : for_each emit logs s ≡ (done tt, s') = rw asked at ran in
          rw (honest lo hi logs le asked) at answered
      | inr (e, asked) ↦ elim (Bool-cases (splits source lo hi e)) [
        | inr whole ↦
            let stopped : (failed (rpc e), s) ≡ (done tt, s') = rw (asked, whole) at ran in
            absurd (cc stopped)
        | inl split ↦
            let wide = splits-wide source lo hi e split in
            let both : (left >> right) s ≡ (done tt, s') = rw (asked, split) at ran in
            let (l, r) = done_first (left s) right s' both in
            let ih = process_logs_lossless emit blocks source honest fuel in
            let first = ih lo (middle lo hi) (left_low lo hi wide) s (left s).1 l in
            let second = ih (middle lo hi + 1) hi (right_low lo hi wide) (left s).1 s' r in
            rw (emit_blocks-halves emit blocks lo hi s wide, first) second
      ]
    ]

-- More fuel changes nothing once there is as much as the range has blocks, whatever the node answers:
-- processLogs ends.
pub process_logs_fuel :
    (emit : Log → Act (Unit {0})) (source : LogSource) (fuel lo hi : ℕ)
    → lo ≤ hi
    → hi - lo < fuel
    → (s : Stream)
    → process_logs emit source (suc fuel) lo hi s ≡ process_logs emit source fuel lo hi s
unfolding process_logs on_answer
process_logs_fuel emit source zero lo hi le enough s = absurd (omega arith)
process_logs_fuel emit source (suc fuel) lo hi le enough s =
    elim (Answer-cases (source.get_logs lo hi)) [
      | inl (logs, asked) ↦ rw asked refl
      | inr (e, asked) ↦ elim (Bool-cases (splits source lo hi e)) [
        | inr whole ↦ rw (asked, whole) refl
        | inl split ↦
            let wide = splits-wide source lo hi e split in
            let ih = process_logs_fuel emit source fuel in
            let left = ih lo (middle lo hi) (left_low lo hi wide) (omega arith) s in
            let right = ih (middle lo hi + 1) hi (right_low lo hi wide) (omega arith) in
            rw (asked, split)
              (ap
                  (λ r.
                    continue r.0 (λ _. process_logs emit source (suc fuel) (middle lo hi + 1) hi)
                      r.1)
                  left
                ∙ after_outcome (process_logs emit source fuel lo (middle lo hi) s)
                    (process_logs emit source (suc fuel) (middle lo hi + 1) hi)
                    (process_logs emit source fuel (middle lo hi + 1) hi) right)
      ]
    ]
