-- ===== src/Stream/Native/Detect.antt =====
-- NativeFilter and detectNativeTransfers of internal/stream/native.go.
pub mod Laws
use evm_tools.Base.{
  ℕ, zero, suc, Bool, true, false, ◌||◌, Option, none, some, List, [], ◌∷◌, Text, if◌then◌else◌,
  text_eq, to_lower, ℤ, pos, negsuc,
}
use evm_tools.Base.Exec.{Outcome, done, failed, panicked}
use evm_tools.Rpc.Errors.{RpcError}
use evm_tools.Rpc.Types.{Transaction, value_big, Receipt, succeeded, Answer, got, refused}
use evm_tools.Stream.State.{NativeFilter, Fault, rpc, malformed}
use evm_tools.Stream.Trace.Frames.{is_empty}

-- A set of texts, as toLowerSet builds it.
unfoldable pub in_set : List Text → Text → Bool
in_set [] a = false
in_set (x ∷ xs) a = text_eq (to_lower x) a || in_set xs a

abbrev pub listed : Option (List Text) → Text → Bool
listed none a = false
listed (some xs) a = in_set xs a

abbrev pub no_list : Option (List Text) → Bool
no_list none = true
no_list (some xs) = false

-- NativeFilter.matches
unfoldable pub matches : NativeFilter → Text → Text → Bool
matches f from to =
    if (if no_list f.from then no_list f.to else false)
    then true
    else listed f.from (to_lower from) || listed f.to (to_lower to)

pub record NativeTransfer : Type 0 where
  pub tx : Transaction
  pub value_wei : ℤ
  pub contract_creation : Bool

-- big.Int.Sign() == 0
abbrev pub is_zero : ℤ → Bool
is_zero (pos zero) = true
is_zero (pos (suc n)) = false
is_zero (negsuc n) = false

-- A transaction of the first pass, given the candidates behind it.
unfoldable pub candidate :
    NativeFilter
    → Transaction
    → Option ℤ
    → Option (List NativeTransfer)
    → Option (List NativeTransfer)
candidate f tx none rest = none
candidate f tx (some v) none = none
candidate f tx (some v) (some ts) = some (
    if is_zero v
    then ts
    else if matches f tx.from_address tx.to_address
    then record { tx = tx; value_wei = v; contract_creation = is_empty tx.to_address } ∷ ts
    else ts)

-- The first pass: none where a value does not parse.
unfoldable pub candidates : NativeFilter → List Transaction → Option (List NativeTransfer)
candidates f [] = some []
candidates f (tx ∷ txs) = candidate f tx (value_big tx) (candidates f txs)

-- What the goroutine of one candidate comes to: it has found the context at its end, the caller's or the
-- one that an error of another receipt has cancelled, and asked for nothing; or the node's answer.
pub data Fetch : Type 0 where
  unfetched : Fetch
  fetched : Answer (Option Receipt) → Fetch

abbrev pub is_success : Fetch → Bool
is_success unfetched = false
is_success (fetched (refused e)) = false
is_success (fetched (got none)) = false
is_success (fetched (got (some r))) = succeeded r

-- The candidates whose receipt was fetched and says that they succeeded.
unfoldable pub gated : (Text → Fetch) → List NativeTransfer → List NativeTransfer
gated receipt [] = []
gated receipt (t ∷ ts) =
    if is_success (receipt t.tx.hash) then t ∷ gated receipt ts else gated receipt ts

abbrev refusal : Fetch → List RpcError → List RpcError
refusal unfetched es = es
refusal (fetched (got r)) es = es
refusal (fetched (refused e)) es = e ∷ es

-- The errors of the receipts.
unfoldable pub refusals : (Text → Fetch) → List NativeTransfer → List RpcError
refusals receipt [] = []
refusals receipt (t ∷ ts) = refusal (receipt t.tx.hash) (refusals receipt ts)

-- The second pass fetches the receipts concurrently: which error is recorded first is `first`'s
-- choice among them.
unfoldable pub gate :
    (RpcError → List RpcError → RpcError)
    → (Text → Fetch)
    → List NativeTransfer
    → List RpcError
    → Outcome Fault (List NativeTransfer)
gate first receipt ts [] = done (gated receipt ts)
gate first receipt ts (e ∷ es) = failed (rpc (first e es))

abbrev pub gate_found :
    (RpcError → List RpcError → RpcError)
    → (Text → Fetch)
    → Option (List NativeTransfer)
    → Outcome Fault (List NativeTransfer)
gate_found first receipt none = failed malformed
gate_found first receipt (some ts) = gate first receipt ts (refusals receipt ts)

-- detectNativeTransfers
unfoldable pub detect_native_transfers :
    (RpcError → List RpcError → RpcError)
    → (Text → Fetch)
    → NativeFilter
    → List Transaction
    → Outcome Fault (List NativeTransfer)
detect_native_transfers first receipt f txs =
    if f.enabled then gate_found first receipt (candidates f txs) else done []
