-- ===== src/Stream/Reorg/Handle/Detect.antt =====
-- Which heights the marker of handleReorgIfAny of internal/stream/reorg.go covers.
use evm_tools.Base.{ℕ, ◌-◌, ◌≤◌, ◌≡◌, arith, true, none, [], ◌∷◌, ◌++◌, min}
use evm_tools.Base.Exec.{done}
use evm_tools.Record.Envelope.{ReorgData}
use evm_tools.Stream.State.{Stream, Emitter}
use evm_tools.Stream.Reorg.Tracker.{recorded}
use evm_tools.Stream.Reorg.Handle.{View, reorg_envelope, frontier_of, handle_reorg_if_any}
use evm_tools.Stream.Reorg.Handle.Laws.{Handled, kept, rewound, handle_reorg_if_any_lem}

frontier_of-eq-min : (next head : ℕ) → frontier_of next head ≡ min (next - 1) head
unfolding frontier_of
frontier_of-eq-min next head = ground arith

module _ (out : Emitter) (view : View) where
  -- The marker that a call has sent, with the heights that it covers.
  pub record Covered (s s' : Stream) (next head n : ℕ) : Type 0 where
    pub marker : ReorgData
    pub sent_marker : s'.sent ≡ s.sent ++ reorg_envelope s marker ∷ []
    pub covers : (marker.from_block ≡ n) × (marker.to_block ≡ min (next - 1) head)
    pub back : n ≤ next
    pub forgotten : (j : ℕ) → n ≤ j → recorded s'.reorg j ≡ none

  -- A rewind never moves the next block forward. Its marker covers the heights from the new next
  -- block to the lower one of the last processed height and the head, and no hash from the new next
  -- block on is kept. So where the head fell below the last processed height, the heights between
  -- are in no marker, and no later call compares a hash at them.
  pub rewound-Covered :
      (s : Stream) (next head n : ℕ) (s' : Stream)
      → handle_reorg_if_any out view next head s ≡ (done (n, true), s')
      → Covered s s' next head n
  rewound-Covered s next head n s' h =
      from_handled (handle_reorg_if_any_lem out view s next head n true s' h)
    where
      from_handled : Handled out view s next head n true s' → Covered s s' next head n
      from_handled (kept e _ _ _) = cc
      from_handled (rewound up r recorded_hash o w) =
          let fork = w.is_fork in
          record {
            marker = w.marker;
            sent_marker = w.sent_marker;
            covers = (omega arith, omega (arith, frontier_of-eq-min next head));
            back = omega (arith, frontier_of-eq-min next head, o.started);
            forgotten = λ j le. ground (arith, w.forgotten j);
          }
