-- ===== src/Rpc/Errors.antt =====
-- The errors of internal/rpc/rpc.go and trace.go as values, and what the program reads off them.
use evm_tools.Base.{
  ℕ, Bool, true, false, ◌||◌, List, [], ◌∷◌, Text, codes, ◌==◌, to_lower, contains_any,
  if◌then◌else◌,
}

-- ErrorType.
pub data ErrorType : Type 0 where
  timeout connection rpc_error decode unknown : ErrorType

-- An error of an RPC call: what an errors.As of the source finds in its chain, and its message.
pub data RpcError : Type 0 where
  -- context.DeadlineExceeded
  deadline : Text → RpcError
  -- *decodeError
  bad_response : Text → RpcError
  -- *rpcError
  server_error : Text → RpcError
  -- net.Error or *net.OpError, with its Timeout()
  network : Bool → Text → RpcError
  -- *HTTPError, with its Status
  http : ℕ → Text → RpcError
  -- any other error, such as a block that was not found or a body past the cap
  plain : Text → RpcError

-- Error(): the whole message.
abbrev pub message : RpcError → Text
message (deadline m) = m
message (bad_response m) = m
message (server_error m) = m
message (network t m) = m
message (http s m) = m
message (plain m) = m

-- Classify.
unfoldable pub classify : RpcError → ErrorType
classify (deadline m) = timeout
classify (bad_response m) = decode
classify (server_error m) = rpc_error
classify (network t m) = if t then timeout else connection
classify (http s m) = unknown
classify (plain m) = unknown

abbrev missing_method : List Text
missing_method =
    codes "-32601"
    ∷ codes "method not found"
    ∷ codes "does not exist"
    ∷ codes "method not enabled"
    ∷ codes "unsupported method"
    ∷ []

abbrev is_rpc_error : ErrorType → Bool
is_rpc_error rpc_error = true
is_rpc_error _ = false

-- IsMethodUnsupported.
unfoldable pub is_method_unsupported : RpcError → Bool
unfolding classify to_lower contains_any
is_method_unsupported (http s m) = s == 401 || s == 403 || s == 404 || s == 405 || s == 501
is_method_unsupported e =
    if is_rpc_error (classify e) then contains_any (to_lower (message e)) missing_method else false

abbrev range_cap : List Text
range_cap =
    codes "more than 10000 results"
    ∷ codes "query returned more than"
    ∷ codes "response size exceeded"
    ∷ codes "log response size"
    ∷ codes "block range"
    ∷ codes "range too large"
    ∷ codes "range is too large"
    ∷ codes "too wide"
    ∷ codes "query timeout exceeded"
    ∷ codes "exceeds the limit"
    ∷ []

-- isLogRangeCapError of internal/stream/stream.go, on an error.
unfoldable pub is_log_range_cap_error : RpcError → Bool
unfolding to_lower contains_any
is_log_range_cap_error e = contains_any (to_lower (message e)) range_cap
