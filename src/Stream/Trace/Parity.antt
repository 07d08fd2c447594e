-- ===== src/Stream/Trace/Parity.antt =====
-- parseParityTraces, parityToInternal, hasErroredAncestor and parseHexValue of
-- internal/stream/internal.go.
pub mod Pruned
use evm_tools.Base.{
  Bool, true, false, ◌&&◌, ◌||◌, ◌==◌, Option, none, some, List, [], ◌∷◌, Text, codes,
  if◌then◌else◌, text_eq, ℤ, pos, negsuc, length, ltb,
}
use evm_tools.Rpc.Types.{ParityTrace}
use evm_tools.Stream.Trace.Frames.{InternalTransfer, is_positive, is_empty, frame_value, join_both}

abbrev pub int_eq : ℤ → ℤ → Bool
int_eq (pos m) (pos n) = m == n
int_eq (negsuc m) (negsuc n) = m == n
int_eq x y = false

-- Whether e is a prefix of path.
abbrev pub agrees : List ℤ → List ℤ → Bool
agrees [] path = true
agrees (x ∷ e) [] = false
agrees (x ∷ e) (y ∷ path) = if int_eq x y then agrees e path else false

unfoldable pub has_errored_ancestor : List ℤ → List (List ℤ) → Bool
has_errored_ancestor path [] = false
has_errored_ancestor path (e ∷ errored) =
    (ltb (length e) (length path) && agrees e path) || has_errored_ancestor path errored

-- parseHexValue reads as CallFrame.ValueBig does.
abbrev pub parse_hex_value : Text → Option ℤ
parse_hex_value s = frame_value s

abbrev kept : InternalTransfer → Option (List InternalTransfer)
kept t = some (if is_positive t.value_wei then t ∷ [] else [])

abbrev valued : Option ℤ → (ℤ → InternalTransfer) → Option (List InternalTransfer)
valued none make = none
valued (some v) make = kept (make v)

abbrev created : Option Text → Text
created none = []
created (some a) = a

-- parityToInternal: none is its error, the empty list its `false`.
unfoldable pub parity_to_internal : ParityTrace → Option (List InternalTransfer)
parity_to_internal t =
    let a = t.action in
    let moved : Text → Text → Text → Bool → ℤ → InternalTransfer = λ from to call_type creation v.
      record {
        tx_hash = t.tx_hash;
        trace_address = t.trace_address;
        from_address = from;
        to_address = to;
        value_wei = v;
        call_type = call_type;
        contract_creation = creation;
      } in
    if text_eq t.type (codes "call")
    then if text_eq a.call_type (codes "call")
      then valued (parse_hex_value a.value) (moved a.from_address a.to_address (codes "call") false)
      else some []
    else if text_eq t.type (codes "create")
    then valued (parse_hex_value a.value)
        (moved a.from_address (created t.result) (codes "create") true)
    else if text_eq t.type (codes "suicide")
    then valued (parse_hex_value a.balance)
        (moved a.address a.refund_address (codes "selfdestruct") false)
    else some []

-- The addresses of the traces that failed.
unfoldable pub errored_paths : List ParityTrace → List (List ℤ)
errored_paths [] = []
errored_paths (t ∷ ts) =
    if is_empty t.error then errored_paths ts else t.trace_address ∷ errored_paths ts

abbrev pub no_path : List ℤ → Bool
no_path [] = true
no_path (x ∷ xs) = false

-- Whether the loop goes past a trace.
unfoldable pub pruned : List (List ℤ) → ParityTrace → Bool
pruned errored t =
    no_path t.trace_address
    || (if is_empty t.error then has_errored_ancestor t.trace_address errored else true)

unfoldable pub parity_loop : List (List ℤ) → List ParityTrace → Option (List InternalTransfer)
parity_loop errored [] = some []
parity_loop errored (t ∷ ts) =
    let rest = parity_loop errored ts in
    if pruned errored t then rest else join_both (parity_to_internal t) rest

-- parseParityTraces
unfoldable pub parse_parity_traces : List ParityTrace → Option (List InternalTransfer)
parse_parity_traces ts = parity_loop (errored_paths ts) ts
