-- ===== src/Stream/Native/Detect/Laws.antt =====
-- Which transfers detectNativeTransfers of internal/stream/native.go reports.
use mathlib.Core.Path.{subst}
use evm_tools.Base.{
  ◌≡◌, ◌⊎◌, inl, inr, refl, sym, ◌∙◌, Bool, true, false, Bool-cases, Option, none, some,
  Option-cases, List, [], ◌∷◌, Text, if◌then◌else◌, ℤ,
}
use evm_tools.Base.Exec.{done}
use evm_tools.Rpc.Errors.{RpcError}
use evm_tools.Rpc.Types.{Transaction, value_big, Receipt, succeeded, got, refused}
use evm_tools.Stream.State.{NativeFilter}
use evm_tools.Stream.Trace.Frames.{is_empty}
use evm_tools.Stream.Native.Detect.{
  Fetch, unfetched, fetched, matches, NativeTransfer, is_zero, candidate, candidates, is_success,
  gated, refusals, gate, gate_found, detect_native_transfers,
}

Fetch-cases :
    (x : Fetch)
    → (x ≡ unfetched)
      ⊎ (((r : Option Receipt) × (x ≡ fetched (got r)))
          ⊎ ((e : RpcError) × (x ≡ fetched (refused e))))
Fetch-cases unfetched = inl refl
Fetch-cases (fetched (got r)) = inr (inl (r, refl))
Fetch-cases (fetched (refused e)) = inr (inr (e, refl))

if_true {ℓ} : {A : Type ℓ} (b : Bool) (x y : A) → b ≡ true → (if b then x else y) ≡ x
if_true true x y e = refl
if_true false x y e = absurd (cc e)

module _ (receipt : Text → Fetch) (f : NativeFilter) where
  -- A transaction moves no value past the filter.
  abbrev pub Ignored : Transaction → Type 0
  Ignored tx =
      (v : ℤ) × (value_big tx ≡ some v)
      × ((is_zero v ≡ true) ⊎ (matches f tx.from_address tx.to_address ≡ false))

  -- It does, and this is what has become of its receipt.
  abbrev pub Qualifies : Transaction → ℤ → Fetch → Type 0
  Qualifies tx v r =
      (value_big tx ≡ some v)
      × (is_zero v ≡ false)
      × (matches f tx.from_address tx.to_address ≡ true)
      × (receipt tx.hash ≡ r)

  -- The transfers of the transactions of a block, in order: one for each that qualifies and has a
  -- receipt of success, none for any other: one that moves nothing past the filter, one whose receipt the
  -- node has and that has not succeeded or that it has not yet, and one whose receipt was not fetched.
  pub data Reported : List Transaction → List NativeTransfer → Type 0 where
    no_more : Reported [] []
    ignored :
        (tx : Transaction) (txs : List Transaction) (ts : List NativeTransfer)
        → Ignored tx
        → Reported txs ts
        → Reported (tx ∷ txs) ts
    reverted :
        (tx : Transaction) (v : ℤ) (r : Option Receipt) (txs : List Transaction)
        (ts : List NativeTransfer)
        → Qualifies tx v (fetched (got r))
        → is_success (fetched (got r)) ≡ false
        → Reported txs ts
        → Reported (tx ∷ txs) ts
    cut_short :
        (tx : Transaction) (v : ℤ) (txs : List Transaction) (ts : List NativeTransfer)
        → Qualifies tx v unfetched
        → Reported txs ts
        → Reported (tx ∷ txs) ts
    moved :
        (tx : Transaction) (v : ℤ) (r : Receipt) (txs : List Transaction) (ts : List NativeTransfer)
        → Qualifies tx v (fetched (got (some r)))
        → succeeded r ≡ true
        → Reported txs ts
        → Reported
            (tx ∷ txs)
            (record { tx = tx; value_wei = v; contract_creation = is_empty tx.to_address } ∷ ts)

  nothing_gated : Reported [] (gated receipt [])
  unfolding gated
  nothing_gated = no_more

  -- A qualifying transaction, in front of the rest.
  front :
      (tx : Transaction) (v : ℤ) (txs : List Transaction) (rest : List NativeTransfer)
      → value_big tx ≡ some v
      → is_zero v ≡ false
      → matches f tx.from_address tx.to_address ≡ true
      → refusals receipt
          (record { tx = tx; value_wei = v; contract_creation = is_empty tx.to_address } ∷ rest)
        ≡ []
      → (refusals receipt rest ≡ [] → Reported txs (gated receipt rest))
      → Reported (tx ∷ txs) (
          gated receipt
            (record { tx = tx; value_wei = v; contract_creation = is_empty tx.to_address } ∷ rest))
  unfolding gated refusals
  front tx v txs rest good some_value in_list answered ih = elim (Fetch-cases (receipt tx.hash)) [
    | inl ended ↦ rw ended (
        cut_short tx v txs (gated receipt rest) (good, some_value, in_list, ended)
          (ih (rw ended at answered)))
    | inr (inr (e, lost)) ↦ absurd (cc (rw lost at answered))
    | inr (inl (none, asked)) ↦ rw asked (
        reverted tx v none txs (gated receipt rest) (good, some_value, in_list, asked) refl
          (ih (rw asked at answered)))
    | inr (inl (some r, asked)) ↦ elim (Bool-cases (succeeded r)) [
      | inr bad ↦
          rw (asked, bad)
            (reverted tx v (some r) txs (gated receipt rest) (good, some_value, in_list, asked) bad
              (ih (rw asked at answered)))
      | inl ok ↦
          rw (asked, ok)
            (moved tx v r txs (gated receipt rest) (good, some_value, in_list, asked) ok
              (ih (rw asked at answered)))
    ]
  ]

  reported :
      (txs : List Transaction) (cands : List NativeTransfer)
      → candidates f txs ≡ some cands
      → refusals receipt cands ≡ []
      → Reported txs (gated receipt cands)
  unfolding candidates candidate
  reported [] cands found answered =
      let e : [] ≡ cands = cc found in subst (λ c. Reported [] (gated receipt c)) e nothing_gated
  reported (tx ∷ txs) cands found answered = elim (Option-cases (value_big tx)) [
    | inl bad ↦ absurd (cc (rw bad at found))
    | inr (v, good) ↦ elim (Option-cases (candidates f txs)) [
      | inl bad ↦ absurd (cc (rw (good, bad) at found))
      | inr (rest, behind) ↦ elim (Bool-cases (is_zero v)) [
        | inl nothing ↦
            let e : rest ≡ cands = cc (rw (good, behind, nothing) at found) in
            ignored tx txs (gated receipt cands) (v, good, inl nothing)
              (reported txs cands (rw e at behind) answered)
        | inr some_value ↦ elim (Bool-cases (matches f tx.from_address tx.to_address)) [
          | inr out_of_list ↦
              let e : rest ≡ cands = cc (rw (good, behind, some_value, out_of_list) at found) in
              ignored tx txs (gated receipt cands) (v, good, inr out_of_list)
                (reported txs cands (rw e at behind) answered)
          | inl in_list ↦
              let e : record { tx = tx; value_wei = v; contract_creation = is_empty tx.to_address }
                    ∷ rest
                  ≡ cands =
                cc (rw (good, behind, some_value, in_list) at found) in
              subst (λ c. Reported (tx ∷ txs) (gated receipt c)) e
                (front tx v txs rest good some_value in_list (rw (sym e) at answered)
                  (reported txs rest behind))
        ]
      ]
    ]
  ]

  -- detectNativeTransfers, where it returns without an error on a filter that is enabled, reports, in
  -- the order of the block, exactly the transactions that move a value that is not zero, pass the
  -- allowlist and have a receipt of success. Of every other transaction it says why: it moves nothing past
  -- the allowlist, the node has answered that it has no receipt or one that is not of success, or its
  -- receipt was not asked for since the context was at its end. An error of the node for a receipt
  -- is always an error of the call.
  pub detect_native_transfers_lem :
      (first : RpcError → List RpcError → RpcError) (txs : List Transaction)
      (ts : List NativeTransfer)
      → f.enabled ≡ true
      → detect_native_transfers first receipt f txs ≡ done ts
      → Reported txs ts
  unfolding detect_native_transfers gate
  detect_native_transfers_lem first txs ts on h =
      let found = candidates f txs in
      from_found found refl
        (sym (if_true f.enabled (gate_found first receipt found) (done []) on) ∙ h)
    where
      from_cands :
          (cands : List NativeTransfer) (es : List RpcError)
          → candidates f txs ≡ some cands
          → refusals receipt cands ≡ es
          → gate first receipt cands es ≡ done ts
          → Reported txs ts
      from_cands cands [] found answered ran =
          let e : gated receipt cands ≡ ts = cc ran in
          subst (λ l. Reported txs l) e (reported txs cands found answered)
      from_cands cands (x ∷ es) found answered ran = absurd (cc ran)

      from_found :
          (o : Option (List NativeTransfer))
          → candidates f txs ≡ o
          → gate_found first receipt o ≡ done ts
          → Reported txs ts
      from_found none found ran = absurd (cc ran)
      from_found (some cands) found ran = from_cands cands (refusals receipt cands) found refl ran
