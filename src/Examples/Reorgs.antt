-- ===== src/Examples/Reorgs.antt =====
-- The theorems on reorgs, on a node with another block at height 5.
use evm_tools.Base.{
  ℕ, ◌≡◌, refl, arith, Bool, true, false, none, some, [], codes, text_eq, equal_fold, to_lower,
  lower_byte,
}
use evm_tools.Base.Exec.{Outcome, done}
use evm_tools.Record.Envelope.{ReorgData}
use evm_tools.Rpc.Types.{got}
use evm_tools.Stream.State.{Stream, Fault, emit_record}
use evm_tools.Stream.Reorg.Tracker.{ReorgTracker, lookup, recorded}
use evm_tools.Stream.Reorg.Tracker.Laws.{IsWindow}
use evm_tools.Stream.Reorg.Walk.{walk, fork_floor, fork_verdict, resolve_fork, canonical_hash}
use evm_tools.Stream.Reorg.Fork.{IsFork, resolve_fork-IsFork}
use evm_tools.Stream.Reorg.Handle.{
  View, frontier_hash, emit_reorg, rewind, frontier_of, check_frontier, handle_reorg_if_any,
}
use evm_tools.Stream.Reorg.Handle.Laws.{Handled, Orphaned, handle_reorg_if_any_lem}
use evm_tools.Stream.Reorg.Handle.Detect.{Covered, rewound-Covered}
use evm_tools.Examples.Data.{tracker, stream, takes_all, forked_node}

abbrev view : View
view = record { head_block = none; check = forked_node; tip = forked_node; walk = forked_node }

abbrev marker : ReorgData
marker = record {
  fork_block = 4;
  from_block = 5;
  to_block = 5;
  depth = 1;
  old_hash = codes "0xa5";
  new_hash = codes "0xc5";
  depth_exceeded = false;
}

fork_found : resolve_fork tracker (forked_node 5) forked_node 5 (codes "0xa5") ≡ got marker
unfolding resolve_fork walk fork_floor fork_verdict canonical_hash lookup equal_fold text_eq
    to_lower lower_byte
fork_found = refl

resolve_fork-IsFork_example : IsFork tracker forked_node (forked_node 5) 5 (codes "0xa5") marker
resolve_fork-IsFork_example =
    resolve_fork-IsFork tracker forked_node (forked_node 5) 5 (codes "0xa5") marker fork_found

abbrev handled : Outcome Fault (ℕ × Bool) × Stream
handled = handle_reorg_if_any takes_all view 6 6 stream

rewound_to_5 : handle_reorg_if_any takes_all view 6 6 stream ≡ (done (5, true), handled.1)
unfolding handle_reorg_if_any check_frontier frontier_of frontier_hash rewind emit_reorg emit_record
    resolve_fork walk fork_floor fork_verdict canonical_hash recorded lookup equal_fold text_eq
    to_lower lower_byte
rewound_to_5 = refl

handle_reorg_if_any_lem_example : Handled takes_all view stream 6 6 5 true handled.1
handle_reorg_if_any_lem_example =
    handle_reorg_if_any_lem takes_all view stream 6 6 5 true handled.1 rewound_to_5

rewound-Covered_example : Covered takes_all view stream handled.1 6 6 5
rewound-Covered_example = rewound-Covered takes_all view stream 6 6 5 handled.1 rewound_to_5

orphaned : Orphaned takes_all view stream 6 6 tracker (codes "0xa5")
unfolding frontier_of frontier_hash recorded lookup equal_fold text_eq to_lower lower_byte
orphaned = record {
  tracker = refl;
  started = ground arith;
  tracked = refl;
  node_hash = codes "0xc5";
  answered = refl;
  differs = refl;
}

abbrev fresh : ReorgTracker
fresh = record { depth = 10; hashes = [] }

fresh-IsWindow : IsWindow (some fresh) 10 5
unfolding recorded lookup
fresh-IsWindow = record { bounded = λ j h e. absurd (cc e) }

hash_given : text_eq (codes "0xa6") [] ≡ false
unfolding text_eq
hash_given = refl
