-- ===== src/Stream/Trace/Frames.antt =====
-- walkCallFrames and its tests on frame types (internal/stream/internal.go), and CallFrame.ValueBig.
pub mod Collected
pub mod Survivors
use evm_tools.Base.{
  ℕ, zero, suc, ◌+◌, Bool, true, false, ◌||◌, Option, none, some, List, [], ◌∷◌, ◌++◌, Text, codes,
  if◌then◌else◌, text_eq, to_lower, ℤ, pos, negsuc,
}
use evm_tools.Rpc.Hex.{hex_big}
use evm_tools.Rpc.Types.{CallFrame, CallFrames, frame, no_frames, more_frames}

pub record InternalTransfer : Type 0 where
  pub tx_hash : Text
  pub trace_address : List ℤ
  pub from_address : Text
  pub to_address : Text
  pub value_wei : ℤ
  pub call_type : Text
  pub contract_creation : Bool

-- strings.ToUpper of a text is one of these exactly if its lower-case form is the lower-case name.
unfoldable pub is_create : Text → Bool
is_create t = text_eq (to_lower t) (codes "create") || text_eq (to_lower t) (codes "create2")

unfoldable pub is_value_moving_call : Text → Bool
is_value_moving_call t =
    text_eq (to_lower t) (codes "call")
    || is_create t
    || text_eq (to_lower t) (codes "selfdestruct")
    || text_eq (to_lower t) (codes "suicide")

-- big.Int.Sign() > 0
abbrev pub is_positive : ℤ → Bool
is_positive (pos zero) = false
is_positive (pos (suc n)) = true
is_positive (negsuc n) = false

-- What a frame that was not reverted adds for itself.
unfoldable pub own_transfer :
    Text → List ℤ → Text → Text → Text → Option ℤ → Option (List InternalTransfer)
own_transfer tx path type from to none = if is_value_moving_call type then none else some []
own_transfer tx path type from to (some v) = some (
    if is_value_moving_call type
    then if is_positive v
      then record {
        tx_hash = tx;
        trace_address = path;
        from_address = from;
        to_address = to;
        value_wei = v;
        call_type = to_lower type;
        contract_creation = is_create type;
      }
        ∷ []
      else []
    else [])

-- CallFrame.ValueBig: an absent value is zero.
unfoldable pub frame_value : Text → Option ℤ
frame_value s =
    if text_eq s []
    then some (pos 0)
    else if text_eq s (codes "0x")
    then some (pos 0)
    else hex_big s

-- The error of any part is the error of the whole.
abbrev pub join_both : {A : Type 0} → Option (List A) → Option (List A) → Option (List A)
join_both none y = none
join_both (some xs) none = none
join_both (some xs) (some ys) = some (xs ++ ys)

abbrev pub is_empty : Text → Bool
is_empty [] = true
is_empty (c ∷ cs) = false

-- walkCallFrames on the frames from index i on: what it appends to `out`, none for its error.
unfoldable mutual
  pub walk_frame : Text → List ℤ → CallFrame → Option (List InternalTransfer)
  walk_frame tx path (frame type from to value error calls) =
      let below = walk_call_frames tx path 0 calls in
      if is_empty error
      then join_both (own_transfer tx path type from to (frame_value value)) below
      else some []

  pub walk_call_frames : Text → List ℤ → ℕ → CallFrames → Option (List InternalTransfer)
  walk_call_frames tx prefix i no_frames = some []
  walk_call_frames tx prefix i (more_frames f fs) =
      join_both (walk_frame tx (prefix ++ pos i ∷ []) f) (walk_call_frames tx prefix (suc i) fs)
