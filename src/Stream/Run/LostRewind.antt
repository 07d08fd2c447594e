-- ===== src/Stream/Run/LostRewind.antt =====
-- What becomes of a rewind when the rest of its poll fails (Run and pollOnce of
-- internal/stream/stream.go, handleReorgIfAny of internal/stream/reorg.go).
use evm_tools.Base.{
  ℕ, suc, ◌+◌, ◌-◌, ◌≤◌, ◌<◌, ◌≡◌, inl, inr, refl, sym, ◌∙◌, ap, arith, true, false, none, some,
  ltb, ◌==◌, Bool-cases, Option-cases,
}
use evm_tools.Base.Exec.{Outcome, done, failed, panicked}
use evm_tools.Rpc.Types.{got}
use evm_tools.Stream.State.{Stream, Fault, Emitter}
use evm_tools.Stream.Reorg.Tracker.{recorded}
use evm_tools.Stream.Reorg.Handle.{View, frontier_of, check_frontier, handle_reorg_if_any}
use evm_tools.Stream.Reorg.Handle.Detect.{rewound-Covered}
use evm_tools.Stream.Poll.{
  PollSource, Progress, process_range, poll_chunks, after_poll, after_check, scan_to_head,
  seen_head, poll_once,
}
use evm_tools.Stream.Poll.Keeps.Range.{process_range-Keeps, poll_chunks-Keeps}
use evm_tools.Stream.Run.{
  Runner, Round, goes_on, apply_pending_reload, is_terminal, poll_failed, after_round, run_round,
}

after_poll_keeps :
    (head : ℕ) (p : Outcome Fault Progress × Stream) (c : ℕ) (e : Fault) (s : Stream)
    (source : PollSource)
    → after_poll source.view.head_block head p ≡ (done (c, some e), s)
    → s.reorg ≡ p.1.reorg
unfolding after_poll
after_poll_keeps head (done (cur, none), t) c e s source h = absurd (cc h)
after_poll_keeps head (done (cur, some f), t) c e s source h = sym (ap (λ p. p.1.reorg) h)
after_poll_keeps head (failed f, t) c e s source h = absurd (cc h)
after_poll_keeps head (panicked, t) c e s source h = absurd (cc h)

-- A scan that ends in an error leaves the tracker as it found it.
scan_keeps :
    (max_elements : ℕ) (out : Emitter) (source : PollSource) (head next : ℕ) (s s' : Stream) (c : ℕ)
    (e : Fault)
    → scan_to_head max_elements out source head next s ≡ (done (c, some e), s')
    → s'.reorg ≡ s.reorg
unfolding scan_to_head
scan_keeps max_elements out source head next s s' c e h = elim (Bool-cases (ltb head next)) [
  | inl ahead ↦
      let idle : (done (next, none), s) ≡ (done (c, some e), s') = rw ahead at h in absurd (cc idle)
  | inr behind ↦
      let process = process_range max_elements out source in
      let p = poll_chunks process s.log_chunk_blocks head (suc (suc (head - next))) next s in
      let broke : after_poll source.view.head_block head p ≡ (done (c, some e), s') =
        rw behind at h in
      after_poll_keeps head p c e s' source broke
      ∙ poll_chunks-Keeps process (process_range-Keeps max_elements out source) s.log_chunk_blocks
          head (suc (suc (head - next))) next s
]

frontier_here : (next head : ℕ) → next ≤ head + 1 → frontier_of next head ≡ next - 1
unfolding frontier_of
frontier_here next head le = ground arith

-- A frontier with no hash is taken for canonical.
untracked_kept :
    (out : Emitter) (view : View) (next head : ℕ) (s : Stream)
    → next ≤ head + 1
    → recorded s.reorg (next - 1) ≡ none
    → handle_reorg_if_any out view next head s ≡ (done (next, false), s)
unfolding handle_reorg_if_any check_frontier
untracked_kept out view next head s le missing = elim (Option-cases s.reorg) [
  | inl off ↦ rw off refl
  | inr (r, tracker) ↦ elim (Bool-cases (next == 0)) [
    | inl start ↦ rw (tracker, start) refl
    | inr started ↦
        let no_hash : recorded (some r) (next - 1) ≡ none = rw tracker at missing in
        rw (tracker, started, frontier_here next head le, no_hash) refl
  ]
]

poll_rewound :
    (max_elements : ℕ) (out : Emitter) (source : PollSource) (next n head c : ℕ) (e : Fault)
    (s s1 s2 : Stream)
    → source.head ≡ got head
    → handle_reorg_if_any out source.view next head (seen_head source head s) ≡ (done (n, true), s1)
    → poll_once max_elements out source next s ≡ (done (c, some e), s2)
    → s2.reorg ≡ s1.reorg
unfolding poll_once after_check scan_to_head process_range
poll_rewound max_elements out source next n head c e s s1 s2 at_head rewinds polled =
    let scanned : scan_to_head max_elements out source head n s1 ≡ (done (c, some e), s2) =
      rw (at_head, rewinds) at polled in
    scan_keeps max_elements out source head n s1 s2 c e scanned

-- A round whose poll rewinds to the height `n` below its next block, and then fails with an error that
-- is retried, goes on with the next block it had before. Nothing is tracked at the frontier any more,
-- so the reorg check of a later poll whose head has not fallen below it, made with the same next block
-- and tracker, finds nothing to rewind: it sends no record and goes on from the old next block. The
-- heights from `n` to the old frontier, which the marker declared orphaned, are not read again.
pub rewind_lost :
    (max_elements : ℕ) (out : Emitter) (round : Round) (r : Runner) (n head c : ℕ) (e : Fault)
    (s1 s2 : Stream) (later : View) (later_head : ℕ) (t : Stream)
    → round.poll.head ≡ got head
    → handle_reorg_if_any out round.poll.view r.next_block head
        (seen_head round.poll head (apply_pending_reload round.reload r.stream))
      ≡ (done (n, true), s1)
    → n < r.next_block
    → poll_once max_elements out round.poll r.next_block
        (apply_pending_reload round.reload r.stream)
      ≡ (done (c, some e), s2)
    → is_terminal e ≡ false
    → round.ended_in_poll ≡ false
    → round.ended_in_sleep ≡ false
    → r.next_block ≤ later_head + 1
    → t.reorg ≡ s2.reorg
    → ((run_round max_elements out round r).0 ≡ goes_on)
      × ((run_round max_elements out round r).1.next_block ≡ r.next_block)
      × ((run_round max_elements out round r).1.stream ≡ s2)
      × (handle_reorg_if_any out later r.next_block later_head t ≡ (done (r.next_block, false), t))
unfolding run_round after_round poll_failed
rewind_lost max_elements out round r n head c e s1 s2 later later_head t at_head rewinds back polled
      retried live awake reaches same =
    let s = apply_pending_reload round.reload r.stream in
    let covered =
      rewound-Covered out round.poll.view (seen_head round.poll head s) r.next_block head n s1
        rewinds in
    let kept =
      poll_rewound max_elements out round.poll r.next_block n head c e s s1 s2 at_head rewinds
        polled in
    let forgotten : recorded t.reorg (r.next_block - 1) ≡ none =
      rw (same, kept) (covered.forgotten (r.next_block - 1) (omega arith)) in
    (
      rw (polled, live, retried, awake) refl,
      rw (polled, live, retried, awake) refl,
      rw (polled, live, retried, awake) refl,
      untracked_kept out later r.next_block later_head t reaches forgotten,
    )
