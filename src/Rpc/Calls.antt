-- ===== src/Rpc/Calls.antt =====
-- `sc_rpc::call`, a call to the platform (src/sc_rpc.cpp lines 198 to 256). What the esp-mqtt task hands to
-- `deliver_response` while the call waits is the list of those fragments.
pub mod Answered
use esp_soulcloud_client.Prelude.{
  ℕ, zero, suc, ◌+◌, ◌%◌, ◌^◌, List, [], ◌∷◌, ◌++◌, Bool, true, false, not, Option, none, some,
  Bytes, codes, length, take, map, ◌==◌, if◌then◌else◌,
}
use esp_soulcloud_client.Esp.{EspErr}
use esp_soulcloud_client.Json.Decimal.{decimal}
use esp_soulcloud_client.Json.Reader.{Reader, parse, find, get_bool}
use esp_soulcloud_client.Json.Token.{Tokeniser}
use esp_soulcloud_client.Mqtt.Publish.{Client, Sender, PublishProps, publish}
use esp_soulcloud_client.Rpc.Answer.{Call, deliver_response}

-- The arguments of `deliver_response`.
pub record Fragment : Type 0 where
  pub correlation : Bytes
  pub bytes : Bytes
  pub offset : ℕ
  pub total : ℕ

unfoldable pub deliver : Call → List Fragment → Call
deliver c [] = c
deliver c (f ∷ fs) = deliver (deliver_response c f.correlation f.bytes f.offset f.total) fs

-- Dotted method names travel as topic levels, in 64 bytes.
abbrev dot_to_slash : ℕ → ℕ
dot_to_slash c = if c == b'.' then b'/' else c

abbrev pub call_topic : Bytes → Bytes
call_topic method = map dot_to_slash (take 63 (codes "req/" ++ method))

abbrev pub answer_topic : Bytes → Bytes
answer_topic down_prefix = take 47 (down_prefix ++ codes "res")

-- `++call_counter` of 32 bits, and the correlation with it.
abbrev pub next_counter : ℕ → ℕ
next_counter counter = (counter + 1) % 2 ^ 32

abbrev pub correlation_of : ℕ → Bytes
correlation_of counter = take 15 (codes "c" ++ decimal counter)

abbrev pub opened : Call → Bytes → Call
opened c correlation = record c {
  correlation = correlation;
  len = 0;
  overflow = false;
  done = false;
}

-- What the caller's `doc` and `result_tok` hold.
pub record Result : Type 0 where
  pub doc : Reader
  pub token : Option ℕ

-- The answer in the document, where it is one.
unfoldable pub accept : Result → EspErr × Reader → EspErr × Result
accept r (EspErr.esp_ok, doc) = elim (get_bool doc (some 0) (codes "ok")) [
  | some true ↦ (EspErr.esp_ok, record { doc = doc; token = find doc (some 0) (codes "result") })
  | _ ↦ (EspErr.esp_fail, record r { doc = doc })
]
accept r (ret, doc) = (ret, record r { doc = doc })

-- Behind the wait, with the call's state.
unfoldable pub read_answer : Tokeniser → ℕ → Result → EspErr → Call → EspErr × Result
read_answer jsmn max_tokens r EspErr.esp_ok c =
    if c.overflow
    then (EspErr.invalid_size, r)
    else accept r (parse jsmn max_tokens (take c.len c.buf))
read_answer jsmn max_tokens r ret c = (ret, r)

module _ (api : Client) where
  -- The state of `sc_rpc` that a call uses.
  pub record Caller : Type 0 where
    pub sender : Sender api
    pub call : Call
    pub counter : ℕ
    pub down_prefix : Bytes

  abbrev pub call_props : Caller → Bytes → PublishProps
  call_props s correlation = record {
    content_type = codes "application/json";
    correlation = correlation;
    response_topic = some (answer_topic s.down_prefix);
  }

  -- What the wait gives, and the state of the call behind it.
  unfoldable pub wait : Call → List Fragment → EspErr × Call
  wait c fs =
      let c' = deliver c fs in
      if c'.done then (EspErr.esp_ok, record c' { done = false }) else (EspErr.timeout, c')

  -- Where the message could not be handed over, nothing is waited for.
  abbrev pub wait_if_sent : EspErr → Call → List Fragment → EspErr × Call
  wait_if_sent EspErr.esp_ok c fs = wait c fs
  wait_if_sent ret c fs = (ret, c)

  -- `call`, into a document of `max_tokens`.
  unfoldable pub call :
      Tokeniser → ℕ → Caller → Bytes → Bytes → Result → List Fragment → (EspErr × Result) × Caller
  call jsmn max_tokens s method params r fs =
      let counter = next_counter s.counter in
      let correlation = correlation_of counter in
      let sent =
        publish api s.sender (call_topic method) params 1 (some (call_props s correlation)) in
      let waited = wait_if_sent sent.0 (opened s.call correlation) fs in
      (
        read_answer jsmn max_tokens r waited.0 waited.1,
        record s {
          sender = sent.1;
          counter = counter;
          call = record (waited.1) { correlation = [] };
        },
      )
