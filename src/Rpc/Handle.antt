-- ===== src/Rpc/Handle.antt =====
-- `sc_rpc::handle` and `respond`, and `sc_rpc_call` (src/sc_rpc.cpp lines 14 to 23 and 116 to 174,
-- include/soulcloud.hpp lines 36 to 55).
pub mod Errors
pub mod Body
pub mod Respond
use esp_soulcloud_client.Prelude.{
  ℕ, zero, suc, ◌+◌, List, [], ◌∷◌, ◌++◌, Bool, true, false, not, Option, none, some, Bytes, codes,
  length, take, get_elem?, ltb, leb, ◌==◌, if◌then◌else◌,
}
use esp_soulcloud_client.Esp.{EspErr}
use esp_soulcloud_client.Json.Decimal.{decimal}
use esp_soulcloud_client.Json.Reader.{Reader, parse}
use esp_soulcloud_client.Json.Token.{Tokeniser}
use esp_soulcloud_client.Json.Writer.{
  Writer, Op, create, reset, begin_object, end_object, add_bool, add_str, is_ok, text,
}
use esp_soulcloud_client.Json.Writer
use esp_soulcloud_client.Mqtt.Publish.{Client, Sender, PublishProps, publish, publish_topic}
use esp_soulcloud_client.Rpc.Methods.{MethodEntry, find_method}
use esp_soulcloud_client.Rpc.Slots.{Slot}

-- What a handler does with its `sc_rpc_call`: the calls on `result`, what it formats for `fail`, where
-- it fails, and what it returns.
pub record Handled : Type 0 where
  pub ops : List Op
  pub failure : Option Bytes
  pub ret : EspErr

abbrev pub Handler : Type 0
Handler = Bytes → Reader → Handled

-- `error_msg` of 96 bytes behind `fail`; empty where the handler does not fail.
unfoldable pub error_msg : Option Bytes → Bytes
error_msg none = []
error_msg (some message) =
    let cut = take 95 message in if length cut == 0 then codes "failed" else cut

abbrev pub is_ok_code : EspErr → Bool
is_ok_code EspErr.esp_ok = true
is_ok_code _ = false

-- The configuration, and what is called outside the repository.
pub record Setup : Type 0 where
  pub payload_max : ℕ
  pub result_max : ℕ
  pub jsmn : Tokeniser
  pub err_name : EspErr → Bytes

-- `error` has 112 bytes.
abbrev pub cut_error : Bytes → Bytes
cut_error message = take 111 message

-- The error of a request that was run, with the writer behind it.
unfoldable pub call_error : Setup → Handled → Writer → Bytes
call_error setup h out =
    if not (length (error_msg h.failure) == 0)
    then cut_error (error_msg h.failure)
    else if not (is_ok_code h.ret)
    then cut_error (setup.err_name h.ret)
    else if not (is_ok out)
    then cut_error (codes "result larger than " ++ (decimal setup.result_max ++ codes " bytes"))
    else []

-- The answer in the writer, where the method runs.
unfoldable pub run_method : Writer → Handled → Writer
run_method out h =
    let w =
      begin_object (add_bool (begin_object out none) (some (codes "ok")) true)
        (some (codes "result")) in
    end_object (end_object (Writer.run w h.ops))

-- The parameters of a request. An empty payload means none.
abbrev pub params_json : Slot → Bytes
params_json slot = if ltb 0 slot.payload_len then take slot.payload_len slot.payload else codes "{}"

unfoldable pub run_entry :
    Setup → Writer → Slot → MethodEntry Handler → EspErr × Reader → Writer × Bytes
run_entry setup out slot entry (EspErr.esp_ok, params) =
    let h = entry.handler slot.method params in
    let out' = run_method out h in (out', call_error setup h out')
run_entry setup out slot entry (_, params) = (out, cut_error (codes "params must be a JSON object"))

-- The writer and the error, before the error is looked at.
unfoldable pub handle_request :
    Setup → List (Option (MethodEntry Handler)) → Writer → Slot → Writer × Bytes
handle_request setup methods out slot =
    if slot.too_large
    then (
      out,
      cut_error (codes "request larger than " ++ (decimal setup.payload_max ++ codes " bytes")),
    )
    else elim (find_method Handler slot.method methods) [
      | none ↦ (out, cut_error (codes "unknown method " ++ slot.method))
      | some entry ↦ run_entry setup out slot entry (parse setup.jsmn 32 (params_json slot))
    ]

unfoldable pub write_error : Writer → Bytes → Writer
write_error w error = end_object (
    add_str (add_bool (begin_object (reset w) none) (some (codes "ok")) false)
      (some (codes "error")) (some error))

-- The body that `handle` hands to `respond`, over the buffer `resp_buf`.
unfoldable pub handle : Setup → List (Option (MethodEntry Handler)) → Bytes → Slot → Bytes
handle setup methods resp_buf slot =
    let (out, error) =
      handle_request setup methods (create (some resp_buf) setup.result_max) slot in
    if length error == 0 then text out else text (write_error out error)

abbrev is_invalid_arg : EspErr → Bool
is_invalid_arg EspErr.invalid_arg = true
is_invalid_arg _ = false

module _ (api : Client) where
  abbrev pub answer_props : Slot → PublishProps
  answer_props slot = record {
    content_type = codes "application/json";
    correlation = slot.correlation;
    response_topic = none;
  }

  -- The first try of `respond`, on the topic that the platform named.
  unfoldable pub to_response_topic : Sender api → Slot → Bytes → EspErr × Sender api
  to_response_topic s slot body =
      if length slot.response_topic == 0
      then (EspErr.invalid_arg, s)
      else publish_topic api s (record { topic = slot.response_topic; body = body; qos = 1 })
          (some (answer_props slot))

  unfoldable pub respond : Sender api → Slot → Bytes → EspErr × Sender api
  respond s slot body =
      let first = to_response_topic s slot body in
      if is_invalid_arg first.0
      then publish api first.1 (codes "res") body 1 (some (answer_props slot))
      else first
