-- ===== src/Stream/Poll/Scan.antt =====
-- What a poll of pollOnce that returns without an error has done.
use evm_tools.Base.{
  ℕ, suc, ◌+◌, ◌-◌, ◌^◌, ◌≤◌, ◌<◌, ◌≡◌, ◌∙◌, refl, ◌==◌, ◌&&◌, leb, if◌then◌else◌, Option, [], Text,
  text_eq, inl, inr, sym, ap, arith, Bool, false, none, some, ltb,
}
use evm_tools.Base.Exec.{Outcome, done, panicked}
use evm_tools.Rpc.Types.{Block, got}
use evm_tools.Stream.Reorg.Tracker.{ReorgTracker, record_hash, recorded}
use evm_tools.Stream.Reorg.Tracker.Laws.{recorded-record_hash}
use evm_tools.Stream.State.{Stream, Fault, Emitter}
use evm_tools.Stream.Reorg.Handle.{handle_reorg_if_any}
use evm_tools.Stream.Poll.{
  PollSource, Progress, process_range, poll_chunks, recorded_head, after_poll, after_check,
  scan_to_head, seen_head, poll_once,
}
use evm_tools.Stream.Poll.Chunks.{Scanned, IsPolled, poll_chunks_lem}

-- The hash that the head's height has in the tracker behind a poll: the header's, and what was there
-- where the header could not be read, has an empty hash, or no tracker is kept.
abbrev pub head_hash : Option Block → Option ReorgTracker → ℕ → Option Text
head_hash none t head = recorded t head
head_hash (some b) none head = none
head_hash (some b) (some r) head = if text_eq b.hash [] then recorded (some r) head else some b.hash

-- The chunks from `n` up to the head were processed, none wider than LogChunkBlocks and none with an
-- error, and the tracker has the hash of the head, where its header was read.
abbrev pub IsScan : ℕ → Emitter → PollSource → ℕ → ℕ → Stream → ℕ → Stream → Type 0
IsScan max_elements out source head n s next s' =
    (next ≡ head + 1)
    × ((u : Stream) × Scanned (process_range max_elements out source) s.log_chunk_blocks n
          (head + 1) s u
        × (s' ≡ recorded_head source.view.head_block head u)
        × (recorded s'.reorg head ≡ head_hash source.view.head_block u.reorg head))

recorded-recorded_head :
    (o : Option Block) (head : ℕ) (u : Stream)
    → recorded (recorded_head o head u).reorg head ≡ head_hash o u.reorg head
unfolding record_hash recorded
recorded-recorded_head none head u = refl
recorded-recorded_head (some b) head u = by_tracker u.reorg
  where
    by_tracker :
        (t : Option ReorgTracker)
        → recorded (record_hash t head b.hash head) head ≡ head_hash (some b) t head
    by_tracker none = refl
    by_tracker (some r) =
        recorded-record_hash r head head head b.hash
        ∙ at_head (text_eq b.hash []) (recorded (some r) head)
      where
        at_head :
            (empty : Bool) (old : Option Text)
            → (if empty
                then old
                else if leb r.depth head && ltb head (head - r.depth)
                then none
                else if head == head
                then some b.hash
                else old)
              ≡ (if empty then old else some b.hash)
        at_head empty old = ground arith

module _ (max_elements : ℕ) (out : Emitter) (source : PollSource) (head : ℕ) where
  whole-IsScan :
      (n : ℕ) (s : Stream) (next : ℕ) (s' : Stream) (p : Outcome Fault Progress × Stream)
      → IsPolled (process_range max_elements out source) s.log_chunk_blocks head n s p
      → after_poll source.view.head_block head p ≡ (done (next, none), s')
      → IsScan max_elements out source head n s next s'
  unfolding after_poll
  whole-IsScan n s next s' p (inl (u, e, scan)) h =
      let ran : (done (head + 1, none), recorded_head source.view.head_block head u)
          ≡ (done (next, none), s') =
        rw e at h in
      let kept : s' ≡ recorded_head source.view.head_block head u = sym (ap (λ r. r.1) ran) in
      (
        cc ran,
        (
          u,
          scan,
          kept,
          ap (λ (t : Stream). recorded t.reorg head) kept
              ∙ recorded-recorded_head source.view.head_block head u,
        ),
      )
  whole-IsScan n s next s' p (inr (inl (c, f, t, u, lo, hi, scan, broke, e))) h =
      let ran : (done (c, some f), u) ≡ (done (next, none), s') = rw e at h in absurd (cc ran)
  whole-IsScan n s next s' p (inr (inr (c, t, u, lo, hi, broke, e))) h =
      let ran : (panicked, u) ≡ (done (next, none), s') = rw e at h in absurd (cc ran)

  scan_to_head-IsScan :
      (n : ℕ) (s : Stream) (next : ℕ) (s' : Stream)
      → 0 < s.log_chunk_blocks
      → head + s.log_chunk_blocks < 2 ^ 64
      → n ≤ head
      → scan_to_head max_elements out source head n s ≡ (done (next, none), s')
      → IsScan max_elements out source head n s next s'
  unfolding scan_to_head
  scan_to_head-IsScan n s next s' some_size small le h =
      let process = process_range max_elements out source in
      let p = poll_chunks process s.log_chunk_blocks head (suc (suc (head - n))) n s in
      let behind : ltb head n ≡ false = ground arith in
      whole-IsScan n s next s' p
        (poll_chunks_lem process s.log_chunk_blocks head n s some_size small le) (rw behind at h)

-- A poll that returns without an error, after a reorg check that goes on from the block `n` not above
-- the head, has processed the blocks from `n` to the head in order and without a gap, chunk after
-- chunk, and returns the height after it; where the poll has read the header of the head, its hash is not
-- empty and a tracker is kept, the tracker has that hash for the head, and else what it had before. A
-- chunk is not empty, and the head and a chunk fit in uint64.
pub poll_once-IsScan :
    (max_elements : ℕ) (out : Emitter) (source : PollSource) (next head n : ℕ) (flag : Bool)
    (s s1 : Stream) (next' : ℕ) (s' : Stream)
    → source.head ≡ got head
    → handle_reorg_if_any out source.view next head (seen_head source head s) ≡ (done (n, flag), s1)
    → n ≤ head
    → 0 < s1.log_chunk_blocks
    → head + s1.log_chunk_blocks < 2 ^ 64
    → poll_once max_elements out source next s ≡ (done (next', none), s')
    → IsScan max_elements out source head n s1 next' s'
unfolding poll_once after_check scan_to_head process_range
poll_once-IsScan max_elements out source next head n flag s s1 next' s' at_head checked le some_size
      small polled =
    let scanned : scan_to_head max_elements out source head n s1 ≡ (done (next', none), s') =
      rw (at_head, checked) at polled in
    scan_to_head-IsScan max_elements out source head n s1 next' s' some_size small le scanned
