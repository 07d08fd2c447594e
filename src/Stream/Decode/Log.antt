-- ===== src/Stream/Decode/Log.antt =====
-- decodeLog and paramName of internal/stream/decode.go.
use evm_tools.Base.{ℕ, suc, List, [], ◌∷◌, ◌++◌, Text, codes, if◌then◌else◌, text_eq, decimal}
use evm_tools.Base.Exec.{done, failed, ◌>=>◌}
use evm_tools.Rpc.Types.{Log}
use evm_tools.Stream.State.{AbiInput, EventAbi}
use evm_tools.Stream.Decode.Hex.{undecodable, Decoded, hex_to_bytes}
use evm_tools.Stream.Decode.Word.{decode_topic}
use evm_tools.Stream.Decode.Data.{decode_data}

abbrev pub Params : Type 0
Params = List (Text × Text)

-- params[name] = val
unfoldable pub set_param : Text → Text → Params → Params
set_param k v [] = (k, v) ∷ []
set_param k v ((j, w) ∷ m) = if text_eq j k then (k, v) ∷ m else (j, w) ∷ set_param k v m

-- paramName
unfoldable pub param_name : Text → ℕ → Text
param_name name i = if text_eq name [] then codes "arg" ++ decimal i else name

-- The first loop: indexed parameters are decoded from the topics that are left, the others are put
-- aside with their names.
unfoldable pub scan_inputs :
    ℕ → List AbiInput → List Text → Params → Decoded (Params × List AbiInput × List Text)
scan_inputs i [] topics params = done (params, [], [])
scan_inputs i (p ∷ inputs) topics params =
    let name = param_name p.name i in
    let skipped =
      scan_inputs (suc i) inputs topics params >=> λ r. done (r.0, p ∷ r.1, name ∷ r.2) in
    let indexed : Decoded (Params × List AbiInput × List Text) = elim topics [
      | [] ↦ failed undecodable
      | topic ∷ rest ↦ decode_topic p.type topic >=> λ v.
          scan_inputs (suc i) inputs rest (set_param name v params)
    ] in
    if p.indexed then indexed else skipped

-- The last loop.
unfoldable pub set_params : List Text → List Text → Params → Params
set_params (name ∷ names) (v ∷ vs) params = set_params names vs (set_param name v params)
set_params _ _ params = params

abbrev pub tail_of : List Text → List Text
tail_of [] = []
tail_of (t ∷ ts) = ts

-- decodeLog: topics[0] is the event's signature. No data is decoded where every parameter is indexed.
unfoldable pub decode_log : ℕ → EventAbi → Log → Decoded Params
decode_log max_elements ev l = hex_to_bytes l.log_data >=> λ bytes.
    scan_inputs 0 ev.inputs (tail_of l.topics) [] >=> λ r.
    decode_data max_elements bytes 0 r.1 >=> λ vals. done (set_params r.2 vals r.0)
