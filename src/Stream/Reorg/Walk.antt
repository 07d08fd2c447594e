-- ===== src/Stream/Reorg/Walk.antt =====
-- resolveFork and canonicalHashAt of internal/stream/reorg.go.
use evm_tools.Base.{
  ℕ, zero, suc, ◌+◌, ◌-◌, Bool, true, false, Option, none, some, List, [], Text, ltb, if◌then◌else◌,
  equal_fold,
}
use evm_tools.Record.Envelope.{ReorgData}
use evm_tools.Rpc.Types.{Block, Answer, got, refused}
use evm_tools.Stream.Reorg.Tracker.{lookup, ReorgTracker}

-- canonicalHashAt, of the node's answer for the height.
unfoldable pub canonical_hash : Answer Block → Text
canonical_hash (got b) = b.hash
canonical_hash (refused e) = []

-- `for n := orphanTip; n > floor;`: the highest tracked height below `floor + rounds`, and not below
-- the floor, whose hash is the node's. The node is asked once for each height that is tracked.
unfoldable pub walk : List (ℕ × Text) → (ℕ → Answer Block) → ℕ → ℕ → Answer (Option ℕ)
walk hashes node floor zero = got none
walk hashes node floor (suc rounds) =
    let n = floor + rounds in
    let below = walk hashes node floor rounds in
    elim (lookup n hashes) [
      | none ↦ below
      | some recorded ↦ elim (node n) [
        | refused e ↦ refused e
        | got b ↦ if equal_fold b.hash recorded then got (some n) else below
      ]
    ]

unfoldable pub fork_floor : ReorgTracker → ℕ → ℕ
fork_floor r tip = if ltb r.depth tip then tip - r.depth else 0

abbrev fork_data : ℕ → ℕ → Text → Text → Bool → ReorgData
fork_data fork tip old_hash new_hash exceeded = record {
  fork_block = fork;
  from_block = fork + 1;
  to_block = tip;
  depth = tip - fork;
  old_hash = old_hash;
  new_hash = new_hash;
  depth_exceeded = exceeded;
}

-- The marker, from the height at which the walk stopped.
unfoldable pub fork_verdict : ReorgTracker → Answer Block → ℕ → Text → Option ℕ → ReorgData
fork_verdict r at_tip tip tip_hash none =
    fork_data (fork_floor r tip) tip tip_hash (canonical_hash at_tip) true
fork_verdict r at_tip tip tip_hash (some n) = fork_data n tip tip_hash (canonical_hash at_tip) false

-- resolveFork: `at_tip` is the answer to canonicalHashAt, `node` the answers of the walk.
unfoldable pub resolve_fork :
    ReorgTracker → Answer Block → (ℕ → Answer Block) → ℕ → Text → Answer ReorgData
resolve_fork r at_tip node tip tip_hash =
    let floor = fork_floor r tip in
    elim (walk r.hashes node floor (tip - floor)) [
      | refused e ↦ refused e
      | got stop ↦ got (fork_verdict r at_tip tip tip_hash stop)
    ]
