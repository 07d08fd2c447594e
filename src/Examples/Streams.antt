-- ===== src/Examples/Streams.antt =====
-- The theorems on log queries, polls and runs, on concrete inputs.
use evm_tools.Base.{
  some, ℕ, suc, ◌+◌, ◌-◌, ◌≤◌, ◌≡◌, ◌↔◌, ◌⊎◌, inl, inr, refl, arith, ltb, ◌==◌, true, false,
  Bool-cases, none, List, [], ◌∷◌, codes, if◌then◌else◌, pos,
}
use evm_tools.Base.Exec.{done}
use evm_tools.Rpc.Errors.{RpcError, server_error, is_log_range_cap_error}
use evm_tools.Rpc.Types.{Log, got, refused}
use evm_tools.Stream.State.{Stream, Act}
use evm_tools.Stream.Logs.{LogSource, splits, process_logs, on_answer, for_each}
use evm_tools.Stream.Logs.Range.{
  block_range, emit_blocks, process_logs_complete, process_logs_lossless,
}
use evm_tools.Stream.Poll.{PollSource, poll_chunks}
use evm_tools.Stream.Poll.Chunks.{IsPolled, poll_chunks_lem}
use evm_tools.Stream.Native.Detect.{fetched}
use evm_tools.Stream.Run.{Cursor, Runner, Round, run_rounds}
use evm_tools.Stream.Run.Resume.{IsResumable, run_rounds-IsResumable}
use evm_tools.Stream.Run.Start.{
  cursor, is_foreign, validate_from_block, resolve_start, start_at, validate_from_block_iff,
}
use evm_tools.Examples.Data.{stream, takes_all, lost, count_log, forked_node}

abbrev a_log : Log
a_log = record {
  address = codes "0xaa";
  topics = codes "0x01" ∷ [];
  log_data = [];
  block_number = codes "0x1";
  block_hash = codes "0xb1";
  tx_hash = codes "0xab";
  log_index = codes "0x0";
  removed = false;
}

-- Block 1 has two logs, the others none.
abbrev logs_of : ℕ → List Log
logs_of n = if n == 1 then a_log ∷ a_log ∷ [] else []

abbrev too_wide : RpcError
too_wide = server_error (codes "block range is too wide")

-- A node that answers for single blocks only.
abbrev narrow : LogSource
narrow = record {
  get_logs =
      λ lo hi. if ltb lo hi then refused too_wide else got (block_range logs_of lo (suc hi - lo));
  cancelled = λ lo hi. false;
}

too_wide-splits : (lo hi : ℕ) → ltb lo hi ≡ true → splits narrow lo hi too_wide ≡ true
unfolding splits is_log_range_cap_error
too_wide-splits lo hi wide = rw wide refl

narrow-provider :
    (lo hi : ℕ)
    → lo ≤ hi
    → (narrow.get_logs lo hi ≡ got (block_range logs_of lo (suc hi - lo)))
      ⊎ ((e : RpcError) × (narrow.get_logs lo hi ≡ refused e) × (splits narrow lo hi e ≡ true))
narrow-provider lo hi le = elim (Bool-cases (ltb lo hi)) [
  | inl wide ↦ inr (too_wide, rw wide refl, too_wide-splits lo hi wide)
  | inr one ↦ inl (rw one refl)
]

process_logs_complete_example :
    process_logs count_log narrow 4 0 3 stream ≡ emit_blocks count_log logs_of 0 3 stream
process_logs_complete_example =
    process_logs_complete count_log logs_of narrow narrow-provider 4 0 3 (ground arith)
      (ground arith) stream

narrow-honest :
    (lo hi : ℕ) (logs : List Log)
    → lo ≤ hi
    → narrow.get_logs lo hi ≡ got logs
    → logs ≡ block_range logs_of lo (suc hi - lo)
narrow-honest lo hi logs le asked = elim (Bool-cases (ltb lo hi)) [
  | inl wide ↦ absurd (cc (rw wide at asked))
  | inr one ↦
      let e : got (block_range logs_of lo (suc hi - lo)) ≡ got logs = rw one at asked in cc e
]

abbrev after_two : Stream
after_two = record stream { attempts = 2 }

two_counted : process_logs count_log narrow 2 0 1 stream ≡ (done tt, after_two)
unfolding process_logs on_answer for_each splits is_log_range_cap_error
two_counted = refl

process_logs_lossless_example : emit_blocks count_log logs_of 0 1 stream ≡ (done tt, after_two)
process_logs_lossless_example =
    process_logs_lossless count_log logs_of narrow narrow-honest 2 0 1 (ground arith) stream
      after_two two_counted

abbrev count_range : ℕ → ℕ → Act (Unit {0})
count_range lo hi s = (done tt, record s { attempts = s.attempts + 1 })

poll_chunks_lem_example :
    IsPolled count_range 2 5 3 stream (poll_chunks count_range 2 5 (suc (suc (5 - 3))) 3 stream)
poll_chunks_lem_example =
    poll_chunks_lem count_range 2 5 3 stream (ground arith) (ground arith) (ground arith)

validate_from_block_iff_example :
    (validate_from_block (codes " Latest ") ≡ true)
    ↔ ((n : ℕ) × (resolve_start (pos 1) none (codes " Latest ") (got 7) ≡ start_at n))
validate_from_block_iff_example = validate_from_block_iff (pos 1) (codes " Latest ") 7

abbrev saved_at_6 : Cursor
saved_at_6 = record { chain_id = pos 1; last_block = 6 }

abbrev pub source : PollSource
source = record {
  head = got 6;
  view = record { head_block = none; check = forked_node; tip = forked_node; walk = forked_node };
  finalized = refused lost;
  finalized_cancelled = false;
  logs = narrow;
  blocks = record {
    full_block = λ n. refused lost;
    receipt = λ t. fetched (refused lost);
    first_error = λ e es. e;
    traces = λ n. record {
      by_block = λ k. refused lost;
      parity = λ k. refused lost;
      by_tx = λ k t. refused lost;
      ended = λ k m. false;
    };
    rfc3339 = λ n. [];
  };
}

abbrev pub round : Round
round = record {
  reload = none;
  poll = source;
  ended_in_poll = false;
  ended_in_sleep = false;
  ended_in_wait = false;
  checkpoint = true;
  save_works = true;
}

abbrev pub runner : Runner
runner = record { stream = stream; next_block = 6; last_saved = 6; failures = 0; saved = none }

-- A file with a cursor of the chain.
abbrev saved_at_5 : Cursor
saved_at_5 = record { chain_id = pos 1; last_block = 5 }

own_cursor : is_foreign saved_at_5 (pos 1) ≡ false
unfolding is_foreign
own_cursor = refl

starts_at_6 :
    resolve_start (pos 1) (some (cursor saved_at_5)) (codes "latest") (refused lost) ≡ start_at 6
unfolding resolve_start is_foreign
starts_at_6 = refl

abbrev resumed : Runner
resumed = record runner { saved = some saved_at_5 }

run_rounds-IsResumable_example :
    IsResumable 6 (run_rounds 1000 takes_all (round ∷ round ∷ []) resumed).1
run_rounds-IsResumable_example =
    run_rounds-IsResumable 1000 takes_all (pos 1) (some (cursor saved_at_5)) (codes "latest")
      (refused lost) 6 (round ∷ round ∷ []) resumed starts_at_6 (own_cursor, ground arith)
      (refl, refl, refl) ((refl, refl), ((refl, refl), tt))
