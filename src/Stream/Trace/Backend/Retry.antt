-- ===== src/Stream/Trace/Backend/Retry.antt =====
-- The retries of traceBlockInternal.
use evm_tools.Base.{
  ℕ, zero, suc, ◌+◌, ◌-◌, ◌≤◌, ◌<◌, ◌≡◌, ◌⊎◌, inl, inr, refl, arith, Bool, true, false, ◌&&◌,
  Bool-cases, Option, none, some, List, [], ◌∷◌, leb,
}
use evm_tools.Base.Exec.{Outcome, done, failed, panicked, ◌>=>◌}
use evm_tools.Rpc.Types.{Transaction, Answer, got, refused}
use evm_tools.Stream.State.{
  Stream, Fault, cancelled, parsed, answer, TraceBackend, backend_unknown, backend_disabled,
  backend_block, backend_parity, backend_per_tx,
}
use evm_tools.Stream.Trace.Frames.{InternalTransfer, join_both}
use evm_tools.Stream.Trace.Backend.{
  TraceSource, after_fetch, during_sleep, block_level_traces, parity_traces, per_tx_traces,
  fetch_traces, select_backend, probe, unsupported, is_selected, trace_pass, trace_attempts,
  trace_block_internal, fetch_by, after_probe, max_trace_attempts,
}

-- What traceBlockInternal may come to: the transfers, or the context's error.
abbrev pub IsSettled : Outcome Fault (List InternalTransfer) → Type 0
IsSettled r = ((ts : List InternalTransfer) × (r ≡ done ts)) ⊎ (r ≡ failed cancelled)

-- What a fetch may come to: it returns, and where it fails from no backend none is selected.
abbrev NoPanic : Outcome Fault (List InternalTransfer) → Type 0
NoPanic r = ((ts : List InternalTransfer) × (r ≡ done ts)) ⊎ ((e : Fault) × (r ≡ failed e))

parsed-NoPanic : (o : Option (List InternalTransfer)) → NoPanic (parsed o)
parsed-NoPanic none = inr (_, refl)
parsed-NoPanic (some ts) = inl (ts, refl)

answer-NoPanic :
    {A : Type 0} (a : Answer A) (f : A → Outcome Fault (List InternalTransfer))
    → ((x : A) → NoPanic (f x))
    → NoPanic (answer a >=> f)
answer-NoPanic (got x) f h = h x
answer-NoPanic (refused e) f h = inr (_, refl)

then-NoPanic :
    (r : Outcome Fault (List InternalTransfer))
    (f : List InternalTransfer → Outcome Fault (List InternalTransfer))
    → NoPanic r
    → ((x : List InternalTransfer) → NoPanic (f x))
    → NoPanic (r >=> f)
then-NoPanic (done x) f h g = g x
then-NoPanic (failed e) f h g = inr (e, refl)
then-NoPanic panicked f (inl h) g = absurd (cc h.1)
then-NoPanic panicked f (inr h) g = absurd (cc h.1)

block_level-NoPanic : (source : TraceSource) (k : ℕ) → NoPanic (block_level_traces source k)
unfolding block_level_traces
block_level-NoPanic source k = answer-NoPanic (source.by_block k) _ (λ ts. parsed-NoPanic _)

parity-NoPanic : (source : TraceSource) (k : ℕ) → NoPanic (parity_traces source k)
unfolding parity_traces
parity-NoPanic source k = answer-NoPanic (source.parity k) _ (λ ts. parsed-NoPanic _)

per_tx-NoPanic :
    (source : TraceSource) (k : ℕ) (txs : List Transaction) → NoPanic (per_tx_traces source k txs)
unfolding per_tx_traces
per_tx-NoPanic source k [] = inl ([], refl)
per_tx-NoPanic source k (tx ∷ txs) = answer-NoPanic (source.by_tx k tx.hash) _ (λ root.
    then-NoPanic _ _ (parsed-NoPanic _) (λ here.
      then-NoPanic _ _ (per_tx-NoPanic source k txs)
        (λ rest. parsed-NoPanic (join_both (some here) (some rest)))))

-- What a fetch leaves: a failed one from no selected backend selects none.
abbrev IsFetched : Bool → Outcome Fault (List InternalTransfer) × Stream → Type 0
IsFetched selected r =
    ((ts : List InternalTransfer) × (r.0 ≡ done ts))
    ⊎ ((e : Fault) × (r.0 ≡ failed e) × (is_selected r.1.trace_backend ≡ selected))

probe-IsFetched :
    (source : TraceSource) (k : ℕ) (backend : TraceBackend)
    (r : Outcome Fault (List InternalTransfer))
    (next : Stream → Outcome Fault (List InternalTransfer) × Stream) (s : Stream)
    → NoPanic r
    → is_selected s.trace_backend ≡ false
    → IsFetched false (next s)
    → IsFetched false (probe source k backend r next s)
unfolding probe
probe-IsFetched source k backend (done ts) next s h off g = inl (ts, refl)
probe-IsFetched source k backend panicked next s (inl h) off g = absurd (cc h.1)
probe-IsFetched source k backend panicked next s (inr h) off g = absurd (cc h.1)
probe-IsFetched source k backend (failed e) next s h off g =
    elim (Bool-cases (source.ended k (after_probe backend))) [
      | inl over ↦ rw over (inr (cancelled, refl, off))
      | inr on ↦ elim (Bool-cases (unsupported e)) [
        | inl gap ↦ rw (on, gap) g
        | inr transient ↦ rw (on, transient) (inr (e, refl, off))
      ]
    ]

select-IsFetched :
    (source : TraceSource) (k : ℕ) (txs : List Transaction) (s : Stream)
    → is_selected s.trace_backend ≡ false
    → IsFetched false (select_backend source k txs s)
unfolding select_backend
select-IsFetched source k [] s off =
    probe-IsFetched source k backend_block _ _ s (block_level-NoPanic source k) off
      (probe-IsFetched source k backend_parity _ _ s (parity-NoPanic source k) off (inl ([], refl)))
select-IsFetched source k (tx ∷ txs) s off =
    probe-IsFetched source k backend_block _ _ s (block_level-NoPanic source k) off (
      probe-IsFetched source k backend_parity _ _ s (parity-NoPanic source k) off (
        probe-IsFetched source k backend_per_tx _ _ s (per_tx-NoPanic source k (tx ∷ txs)) off
          (inl ([], refl))))

direct-IsFetched :
    (r : Outcome Fault (List InternalTransfer)) (s : Stream) (selected : Bool)
    → NoPanic r
    → is_selected s.trace_backend ≡ selected
    → IsFetched selected (r, s)
direct-IsFetched r s selected (inl h) on = inl h
direct-IsFetched r s selected (inr (e, h)) on = inr (e, h, on)

fetch-IsFetched :
    (source : TraceSource) (k : ℕ) (txs : List Transaction) (s : Stream) (b : TraceBackend)
    → s.trace_backend ≡ b
    → IsFetched (is_selected b) (fetch_by source k txs b s)
fetch-IsFetched source k txs s backend_block e =
    direct-IsFetched _ s true (block_level-NoPanic source k) (rw e refl)
fetch-IsFetched source k txs s backend_parity e =
    direct-IsFetched _ s true (parity-NoPanic source k) (rw e refl)
fetch-IsFetched source k txs s backend_per_tx e =
    direct-IsFetched _ s true (per_tx-NoPanic source k txs) (rw e refl)
fetch-IsFetched source k txs s backend_unknown e = select-IsFetched source k txs s (rw e refl)
fetch-IsFetched source k txs s backend_disabled e = select-IsFetched source k txs s (rw e refl)

-- One pass settles if what follows it does: after a new selection, or below the last attempt.
pass-IsSettled :
    (source : TraceSource) (k : ℕ) (again : Stream → Outcome Fault (List InternalTransfer) × Stream)
    (r : Outcome Fault (List InternalTransfer)) (s : Stream) (selected : Bool)
    → IsFetched selected (r, s)
    → ((s' : Stream)
        → selected ≡ true
        → is_selected s'.trace_backend ≡ false
        → IsSettled (again s').0)
    → ((s' : Stream)
        → is_selected s'.trace_backend ≡ selected
        → k < max_trace_attempts
        → IsSettled (again s').0)
    → IsSettled (trace_pass source k again r s).0
unfolding trace_pass
pass-IsSettled source k again (done ts) s selected h reselect retry = inl (ts, refl)
pass-IsSettled source k again panicked s selected (inl h) reselect retry = absurd (cc h.1)
pass-IsSettled source k again panicked s selected (inr h) reselect retry = absurd (cc h.1)
pass-IsSettled source k again (failed e) s selected (inl h) reselect retry = absurd (cc h.1)
pass-IsSettled source k again (failed e) s selected (inr (e', _, on)) reselect retry =
    elim (Bool-cases (source.ended k after_fetch)) [
      | inl over ↦ rw over (inr refl)
      | inr live ↦ elim (Bool-cases (selected && unsupported e)) [
        | inl gap ↦
            rw (live, on, gap)
              (reselect (record s { trace_backend = backend_unknown }) (ground arith) refl)
        | inr stays ↦ elim (Bool-cases (leb max_trace_attempts k)) [
          | inl last ↦ rw (live, on, stays, last) (inl ([], refl))
          | inr below ↦ elim (Bool-cases (source.ended k during_sleep)) [
            | inl over ↦ rw (live, on, stays, below, over) (inr refl)
            | inr asleep ↦ rw (live, on, stays, below, asleep) (retry s on (ground arith))
          ]
        ]
      ]
    ]

-- How many passes a selected backend may cost on top.
abbrev pub extra : Bool → ℕ
extra true = 1
extra false = 0

-- The passes that attempt k may still need.
abbrev passes_left : Bool → ℕ → ℕ
passes_left selected k = extra selected + suc (max_trace_attempts - k)

attempts-IsSettled :
    (fuel : ℕ) (source : TraceSource) (k : ℕ) (txs : List Transaction) (s : Stream)
    (selected : Bool)
    → is_selected s.trace_backend ≡ selected
    → passes_left selected k ≤ fuel
    → IsSettled (trace_attempts fuel source k txs s).0
unfolding trace_attempts fetch_traces
attempts-IsSettled zero source k txs s selected on enough = absurd (omega arith)
attempts-IsSettled (suc fuel) source k txs s selected on enough =
    let r = fetch_by source k txs s.trace_backend s in
    pass-IsSettled source k (trace_attempts fuel source (suc k) txs) r.0 r.1 selected
      (rw on at (fetch-IsFetched source k txs s s.trace_backend refl))
      (λ s' e off.
        let more : passes_left true k ≤ suc fuel = rw e at enough in
        attempts-IsSettled fuel source (suc k) txs s' false off (omega arith))
      (λ s' off below. attempts-IsSettled fuel source (suc k) txs s' selected off (omega arith))

-- traceBlockInternal always ends, within five passes, and never with an error of the node: it gives
-- transfers, or the context's error. So a node without traces cannot hold up the stream.
pub trace_block_internal-IsSettled :
    (source : TraceSource) (txs : List Transaction) (s : Stream)
    → IsSettled (trace_block_internal source txs s).0
unfolding trace_block_internal
trace_block_internal-IsSettled source txs s =
    attempts-IsSettled 5 source 1 txs s (is_selected s.trace_backend) refl (ground arith)
