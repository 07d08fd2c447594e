-- ===== src/Stream/Poll/Chunks.antt =====
-- The chunks of a poll of pollOnce.
use evm_tools.Base.{
  ℕ, zero, suc, ◌+◌, ◌-◌, ◌%◌, ◌^◌, ◌≤◌, ◌<◌, ◌≡◌, ◌⊎◌, inl, inr, refl, arith, Bool-cases, none,
  some, leb,
}
use evm_tools.Base.Exec.{Outcome, done, failed, panicked}
use evm_tools.Stream.State.{Stream, Act, Fault}
use evm_tools.Stream.Poll.{Progress, after_chunk, chunk_end, poll_chunks}

-- The chunks from `lo` up to and without `hi` were processed one after another, each without an
-- error, none wider than `size`, and took the stream from `s` to `s'`.
pub data Scanned (process : ℕ → ℕ → Act (Unit {0})) (size : ℕ)
    : ℕ → ℕ → Stream → Stream → Type 0 where
  no_chunk : (n : ℕ) (s : Stream) → Scanned process size n n s s
  next_chunk :
      (lo last stop : ℕ) (s t u : Stream)
      → lo ≤ last
      → last < lo + size
      → process lo last s ≡ (done tt, t)
      → Scanned process size (last + 1) stop t u
      → Scanned process size lo stop s u

module _ (process : ℕ → ℕ → Act (Unit {0})) (size head : ℕ) where
  -- Every chunk up to the head was processed.
  abbrev pub IsWhole : ℕ → Stream → Outcome Fault Progress × Stream → Type 0
  IsWhole cur s r =
      (u : Stream) × (r ≡ (done (head + 1, none), u)) × Scanned process size cur (head + 1) s u

  -- The chunks below `c` were processed, and the one that begins at `c` gave an error.
  abbrev pub IsBroken : ℕ → Stream → Outcome Fault Progress × Stream → Type 0
  IsBroken cur s r =
      (c : ℕ) × (e : Fault) × (t u : Stream) × (cur ≤ c)
      × (c ≤ head)
      × Scanned process size cur c s t
      × (process c (chunk_end size head c) t ≡ (failed e, u))
      × (r ≡ (done (c, some e), u))

  -- A chunk panicked.
  abbrev pub IsCrash : ℕ → Outcome Fault Progress × Stream → Type 0
  IsCrash cur r =
      (c : ℕ) × (t u : Stream) × (cur ≤ c)
      × (c ≤ head)
      × (process c (chunk_end size head c) t ≡ (panicked, u))
      × (r ≡ (panicked, u))

  abbrev pub IsPolled : ℕ → Stream → Outcome Fault Progress × Stream → Type 0
  IsPolled cur s r = IsWhole cur s r ⊎ (IsBroken cur s r ⊎ IsCrash cur r)

  module _ (some_size : 0 < size) (small : head + size < 2 ^ 64) where
    chunk_end_low : (cur : ℕ) → cur ≤ head → cur ≤ chunk_end size head cur
    unfolding chunk_end
    chunk_end_low cur le = ground arith

    chunk_end_head : (cur : ℕ) → cur ≤ head → chunk_end size head cur ≤ head
    unfolding chunk_end
    chunk_end_head cur le = ground arith

    chunk_end_size : (cur : ℕ) → cur ≤ head → chunk_end size head cur < cur + size
    unfolding chunk_end
    chunk_end_size cur le = ground arith

    next_start :
        (cur : ℕ)
        → cur ≤ head
        → (chunk_end size head cur + 1) % 2 ^ 64 ≡ chunk_end size head cur + 1
    next_start cur le = let top = chunk_end_head cur le in omega arith

    -- What a poll comes to, put behind a chunk that went well.
    behind :
        (cur : ℕ) (s t : Stream) (r : Outcome Fault Progress × Stream)
        → cur ≤ head
        → process cur (chunk_end size head cur) s ≡ (done tt, t)
        → IsPolled (chunk_end size head cur + 1) t r
        → IsPolled cur s r
    behind cur s t r le ran (inl (u, e, scan)) =
        inl (u, e, next_chunk cur _ _ s t u (chunk_end_low cur le) (chunk_end_size cur le) ran scan)
    behind cur s t r le ran (inr (inl (c, f, t', u, lo, hi, scan, broke, e))) =
        let low = chunk_end_low cur le in
        let scanned = next_chunk cur _ _ s t t' low (chunk_end_size cur le) ran scan in
        inr (inl (c, f, t', u, omega arith, hi, scanned, broke, e))
    behind cur s t r le ran (inr (inr (c, t', u, lo, hi, broke, e))) =
        let low = chunk_end_low cur le in inr (inr (c, t', u, omega arith, hi, broke, e))

    -- A first chunk decides, or leaves it to the rest.
    first :
        (cur : ℕ) (s : Stream) (rest : Act Progress) (p : Outcome Fault (Unit {0}) × Stream)
        → cur ≤ head
        → process cur (chunk_end size head cur) s ≡ p
        → ((t : Stream) → IsPolled (chunk_end size head cur + 1) t (rest t))
        → IsPolled cur s (after_chunk cur rest p)
    unfolding after_chunk
    first cur s rest (done u, t) le ran ih = behind cur s t (rest t) le ran (ih t)
    first cur s rest (failed e, t) le ran ih =
        inr (inl (cur, e, s, t, omega arith, le, no_chunk cur s, ran, refl))
    first cur s rest (panicked, t) le ran ih = inr (inr (cur, s, t, omega arith, le, ran, refl))

    poll_chunks_from :
        (fuel cur : ℕ) (s : Stream)
        → cur ≤ head + 1
        → head + 1 - cur < fuel
        → IsPolled cur s (poll_chunks process size head fuel cur s)
    unfolding poll_chunks
    poll_chunks_from zero cur s le enough = absurd (omega arith)
    poll_chunks_from (suc fuel) cur s le enough = elim (Bool-cases (leb cur head)) [
      | inr past ↦
          let at_end : head + 1 ≡ cur = ground arith in
          rw (past, at_end) (inl (s, refl, no_chunk cur s))
      | inl more ↦
          let below : cur ≤ head = ground arith in
          let top = chunk_end_head cur below in
          let low = chunk_end_low cur below in
          rw (more, next_start cur below)
            (first cur s (poll_chunks process size head fuel (chunk_end size head cur + 1))
              (process cur (chunk_end size head cur) s) below refl
              (λ t.
                poll_chunks_from fuel (chunk_end size head cur + 1) t (omega arith) (omega arith)))
    ]

-- The loop of pollOnce goes through the blocks from `cur` to the head in chunks that follow one another
-- without a gap, none wider than LogChunkBlocks, whatever the processing of a chunk does. It ends
-- behind the head with every chunk processed, or with the error of a chunk and that chunk's first
-- block, all before it processed, or in the panic of a chunk. The head and a chunk fit in uint64, and
-- the fuel that pollOnce is modelled with is enough.
pub poll_chunks_lem :
    (process : ℕ → ℕ → Act (Unit {0})) (size head cur : ℕ) (s : Stream)
    → 0 < size
    → head + size < 2 ^ 64
    → cur ≤ head
    → IsPolled process size head cur s
        (poll_chunks process size head (suc (suc (head - cur))) cur s)
poll_chunks_lem process size head cur s some_size small le =
    poll_chunks_from process size head some_size small (suc (suc (head - cur))) cur s (omega arith)
      (omega arith)
