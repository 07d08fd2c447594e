-- ===== src/Stream/Reorg/Handle/Laws.antt =====
-- What handleReorgIfAny of internal/stream/reorg.go does on each of its outcomes.
use mathlib.Core.Path.{subst}
use evm_tools.Base.{
  ap, ℕ, ◌+◌, ◌≡◌, ◌≢◌, inl, inr, arith, Bool, true, false, none, some, [], ◌∷◌, ◌++◌, Text, ltb,
  ◌==◌, Bool-cases, Option-cases, if◌then◌else◌, equal_fold,
}
use evm_tools.Base.Exec.{done}
use evm_tools.Record.Envelope.{ReorgData}
use evm_tools.Rpc.Types.{Answer-cases, got}
use evm_tools.Stream.State.{Stream, Emitter, emit_record}
use evm_tools.Stream.Reorg.Tracker.{ReorgTracker, recorded}
use evm_tools.Stream.Reorg.Tracker.Laws.{recorded-forget_above}
use evm_tools.Stream.Reorg.Walk.{resolve_fork}
use evm_tools.Stream.Reorg.Fork.{IsFork, resolve_fork-IsFork}
use evm_tools.Stream.Reorg.Handle.{
  View, frontier_hash, reorg_envelope, emit_reorg, rewind, frontier_of, check_frontier,
  handle_reorg_if_any,
}

module _ (out : Emitter) (view : View) where
  -- What rewinding from a state has done, up to the next block.
  pub record Rewound (r : ReorgTracker) (frontier : ℕ) (recorded_hash : Text) (s s' : Stream)
      (next' : ℕ) : Type 0 where
    pub marker : ReorgData
    pub is_fork : IsFork r view.walk (view.tip frontier) frontier recorded_hash marker
    pub next_exact : next' ≡ marker.fork_block + 1
    pub sent_marker : s'.sent ≡ s.sent ++ reorg_envelope s marker ∷ []
    pub forgotten :
        (j : ℕ)
        → recorded s'.reorg j ≡ (if ltb marker.fork_block j then none else recorded s.reorg j)

  rewind_lem :
      (r : ReorgTracker) (frontier : ℕ) (recorded_hash : Text) (s : Stream) (next' : ℕ)
      (flag : Bool)
      → (rewind out view r frontier recorded_hash s).0 ≡ done (next', flag)
      → (flag ≡ true)
        × Rewound r frontier recorded_hash s (rewind out view r frontier recorded_hash s).1 next'
  unfolding rewind emit_reorg emit_record
  rewind_lem r frontier recorded_hash s next' flag h =
      elim (Answer-cases (resolve_fork r (view.tip frontier) view.walk frontier recorded_hash)) [
        | inr (e, lost) ↦ ground arith
        | inl (d, found) ↦ elim (Option-cases (out s.attempts)) [
          | inr (e, broken) ↦ ground arith
          | inl taken ↦ (
            ground arith,
            record {
              marker = d;
              is_fork =
                  resolve_fork-IsFork r view.walk (view.tip frontier) frontier recorded_hash d
                    found;
              next_exact = ground arith;
              sent_marker = ground arith;
              forgotten = λ j. ground (arith, recorded-forget_above s.reorg d.fork_block j);
            },
          )
        ]
      ]

  -- The frontier is tracked with a hash, and the node has another there.
  pub record Orphaned (s : Stream) (next head : ℕ) (r : ReorgTracker) (recorded_hash : Text)
      : Type 0 where
    pub tracker : s.reorg ≡ some r
    pub started : next ≢ 0
    pub tracked : recorded (some r) (frontier_of next head) ≡ some recorded_hash
    pub node_hash : Text
    pub answered :
        frontier_hash view.head_block head
          (frontier_of next head)
          (view.check (frontier_of next head))
        ≡ got node_hash
    pub differs : equal_fold node_hash recorded_hash ≡ false

  -- No rewind was due: nothing is tracked at the frontier, or the node has the same hash there.
  pub data Canonical (s : Stream) (next head : ℕ) : Type 0 where
    disabled : s.reorg ≡ none → Canonical s next head
    at_start : next ≡ 0 → Canonical s next head
    untracked : recorded s.reorg (frontier_of next head) ≡ none → Canonical s next head
    same :
        (recorded_hash node_hash : Text)
        → recorded s.reorg (frontier_of next head) ≡ some recorded_hash
        → frontier_hash view.head_block head
            (frontier_of next head)
            (view.check (frontier_of next head))
          ≡ got node_hash
        → equal_fold node_hash recorded_hash ≡ true
        → Canonical s next head

  -- What a call that returns `n` and `flag` in the state `s'` has done.
  pub data Handled (s : Stream) (next head n : ℕ) (flag : Bool) (s' : Stream) : Type 0 where
    kept : flag ≡ false → n ≡ next → s' ≡ s → Canonical s next head → Handled s next head n flag s'
    rewound :
        flag ≡ true
        → (r : ReorgTracker) (recorded_hash : Text) → Orphaned s next head r recorded_hash
        → Rewound r (frontier_of next head) recorded_hash s s' n
        → Handled s next head n flag s'

  module _ (s : Stream) (next head : ℕ) (r : ReorgTracker) (n : ℕ) (flag : Bool) (s' : Stream) where
    rewound_tracked :
        (recorded_hash : Text)
        → Orphaned s next head r recorded_hash
        → rewind out view r (frontier_of next head) recorded_hash s ≡ (done (n, flag), s')
        → Handled s next head n flag s'
    rewound_tracked recorded_hash orphaned h =
        let (up, result) =
          rewind_lem r (frontier_of next head) recorded_hash s n flag (ap (λ p. p.0) h) in
        rewound up r recorded_hash orphaned (
          subst (λ t. Rewound r (frontier_of next head) recorded_hash s t n) (ap (λ p. p.1) h)
            result)

    handled_tracked :
        s.reorg ≡ some r
        → next ≢ 0
        → check_frontier out view r next head
            (frontier_of next head)
            (recorded (some r) (frontier_of next head))
            s
          ≡ (done (n, flag), s')
        → Handled s next head n flag s'
    unfolding check_frontier
    handled_tracked tracker started h =
        let frontier = frontier_of next head in
        elim (Option-cases (recorded (some r) frontier)) [
          | inl missing ↦
              kept (ground arith) (ground arith) (ground arith) (untracked (rw (tracker, missing)))
          | inr (recorded_hash, tracked) ↦
              elim (Answer-cases
                (frontier_hash view.head_block head frontier (view.check frontier))) [
                  | inr (e, lost) ↦ ground arith
                  | inl (node_hash, answered) ↦
                      elim (Bool-cases (equal_fold node_hash recorded_hash)) [
                        | inl agrees ↦
                            kept (ground arith) (ground arith) (ground arith)
                              (same recorded_hash node_hash (rw (tracker, tracked)) answered agrees)
                        | inr differs ↦
                            rewound_tracked recorded_hash
                              (record {
                                tracker = tracker;
                                started = started;
                                tracked = tracked;
                                node_hash = node_hash;
                                answered = answered;
                                differs = differs;
                              })
                              (ground arith)
                      ]
                ]
        ]

  -- A call that returns without an error either found the frontier untracked or canonical, and then
  -- changed nothing, or found that the node has another block at the frontier: then it sent one
  -- marker for the fork of resolveFork, forgot exactly the hashes above the fork, and returned the
  -- height after the fork.
  pub handle_reorg_if_any_lem :
      (s : Stream) (next head n : ℕ) (flag : Bool) (s' : Stream)
      → handle_reorg_if_any out view next head s ≡ (done (n, flag), s')
      → Handled s next head n flag s'
  unfolding handle_reorg_if_any
  handle_reorg_if_any_lem s next head n flag s' h = elim (Option-cases s.reorg) [
    | inl off ↦ kept (ground arith) (ground arith) (ground arith) (disabled off)
    | inr (r, tracker) ↦ elim (Bool-cases (next == 0)) [
      | inl start ↦ kept (ground arith) (ground arith) (ground arith) (at_start (ground arith))
      | inr started ↦ handled_tracked s next head r n flag s' tracker (ground arith) (ground arith)
    ]
  ]
