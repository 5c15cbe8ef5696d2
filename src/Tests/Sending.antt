-- ===== src/Tests/Sending.antt =====
-- A concrete client of esp-mqtt that is always connected, and a call through it.
use esp_soulcloud_client.Prelude.{
  ℕ, ◌≡◌, ◌≢◌, ◌+◌, refl, inl, List, [], ◌∷◌, ◌++◌, true, false, none, some, Bytes, codes, take,
  drop, replicate, equal, pos, arith,
}
use esp_soulcloud_client.Esp.{EspErr}
use esp_soulcloud_client.Client.Calls.{no_result, check_for_update}
use esp_soulcloud_client.Client.Calls.Started.{Started, check_for_update-Started}
use esp_soulcloud_client.Json.Reader.{parse}
use esp_soulcloud_client.Json.Token.{Tokeniser, parsed}
use esp_soulcloud_client.Mqtt.Events.{
  Connection, Happening, MqttEvent, IsPaired, happen, happen-IsPaired,
}
use esp_soulcloud_client.Mqtt.Publish.{Client, Sender, publish, publish_topic, hand_over}
use esp_soulcloud_client.Mqtt.Publish.Below.{
  AllBelow, Publication, publish_all, publish_all-AllBelow,
}
use esp_soulcloud_client.Ota.Control.{Control}
use esp_soulcloud_client.Codec.Decode.{no_params}
use esp_soulcloud_client.Rpc.Answer.{Call}
use esp_soulcloud_client.Rpc.Answer.Laws.{joined}
use esp_soulcloud_client.Rpc.Calls.{
  Caller, Fragment, accept, call, call_topic, call_props, correlation_of, next_counter,
}
use esp_soulcloud_client.Rpc.Calls.Answered.{message, call-answer}
use esp_soulcloud_client.Rpc.Handle.{respond}
use esp_soulcloud_client.Rpc.Handle.Respond.{AnswersOnce, respond-AnswersOnce}
use esp_soulcloud_client.Rpc.Queue.{list_queues}
use esp_soulcloud_client.Rpc.Slots.{Slot, empty_slot, init}
use esp_soulcloud_client.Json.Decimal.{decimal}
use esp_soulcloud_client.Tests.Documents.{answer_json, answer_tokens}

-- The world is the next message id.
abbrev client : Client
client = record {
  World = ℕ;
  connected = λ w. (true, w);
  lock = λ w. (true, w);
  give = λ w. w;
  set_property = λ w props. (EspErr.esp_ok, w);
  send = λ w topic body qos. (pos w, w + 1);
}

abbrev sender : Sender client
sender = record { world = 1; prefix = codes "d/x/up/"; outbox = [] }

abbrev publications : List (Publication client)
publications =
    Publication.below (codes "evt/boot") (codes "{}") 1 none
    ∷ Publication.to_topic (record { topic = codes "d/y/up/res"; body = codes "{}"; qos = 1 }) none
    ∷ []

publish_all-AllBelow_example :
    AllBelow client (codes "d/x/up/") (publish_all client sender publications).outbox
publish_all-AllBelow_example =
    publish_all-AllBelow client publications sender (codes "d/x/up/") refl tt

abbrev slot : Slot
slot = record (empty_slot 4) { method = codes "ping"; response_topic = codes "d/x/up/res/7" }

respond-AnswersOnce_example :
    AnswersOnce client sender slot (codes "{}") (respond client sender slot (codes "{}"))
respond-AnswersOnce_example = respond-AnswersOnce client sender slot (codes "{}") (omega arith)

abbrev idle_call : Call
idle_call = record {
  buf = replicate 1024 0;
  correlation = [];
  len = 0;
  overflow = false;
  done = false;
}

abbrev caller : Caller client
caller = record { sender = sender; call = idle_call; counter = 6; down_prefix = codes "d/x/down/" }

abbrev jsmn : Tokeniser
jsmn json max_tokens = parsed answer_tokens

caller_sends :
    (publish client sender
      (call_topic (codes "ota.check"))
      (codes "{}")
      1
      (some (call_props client caller (correlation_of (next_counter 6))))).0
    ≡ EspErr.esp_ok
unfolding publish publish_topic hand_over equal decimal
caller_sends = refl

abbrev halves : List Bytes
halves = take 20 answer_json ∷ drop 20 answer_json ∷ []

stale : codes "c6" ≢ correlation_of (next_counter 6)
unfolding decimal
stale e = absurd (ground (arith, e))

abbrev late : List Fragment
late = record { correlation = codes "c6"; bytes = codes "{}"; offset = 0; total = 2 } ∷ []

call-answer_example :
    let called =
      call client jsmn 24 caller
        (codes "ota.check")
        (codes "{}")
        no_result
        (late ++ message (correlation_of (next_counter 6)) 36 0 halves) in
    (called.0 ≡ accept no_result (parse jsmn 24 (joined halves))) × (called.1.call.correlation ≡ [])
call-answer_example =
    call-answer client jsmn 24 caller (codes "ota.check") (codes "{}") no_result late
      (take 20 answer_json) (drop 20 answer_json ∷ []) refl caller_sends (stale, tt) (omega arith)

abbrev control : Control
control = record { running = false; cancel_requested = false; params = no_params }

check_for_update-Started_example :
    Started control
      (call client jsmn 24 caller
        (codes "ota.check")
        (codes "{}")
        no_result
        (message (codes "c7") 36 0 (answer_json ∷ []))).0.1.doc
      (check_for_update client jsmn caller control true
        (message (codes "c7") 36 0 (answer_json ∷ []))).0
check_for_update-Started_example =
    check_for_update-Started client jsmn caller control true
      (message (codes "c7") 36 0 (answer_json ∷ []))

abbrev connection : Connection list_queues 4
connection = record {
  receiver = record {
    down_topic = codes "d/x/down/";
    rx_slot = none;
    rx_response = false;
    rx_correlation = [];
    pool = init list_queues 2 4;
    call = idle_call;
  };
  is_connected = false;
  cb_calls = [];
  disconnects = 0;
}

abbrev happenings : List (Happening list_queues 4)
happenings =
    Happening.event (MqttEvent.connected true)
    ∷ Happening.stopped
    ∷ Happening.event MqttEvent.disconnected
    ∷ []

happen-IsPaired_example : IsPaired list_queues 4 (happen list_queues 4 connection happenings)
happen-IsPaired_example = happen-IsPaired list_queues 4 happenings connection (tt, inl refl)
