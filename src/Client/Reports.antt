-- ===== src/Client/Reports.antt =====
-- What the client publishes on its own: `sc_status::report` (src/sc_status.cpp lines 24 to 50) and
-- `sc_client::publish_event` (src/sc_client.cpp lines 250 to 261).
pub mod Sent
use esp_soulcloud_client.Prelude.{
  ℕ, ◌+◌, List, [], ◌∷◌, ◌++◌, Bool, true, false, Option, none, some, Bytes, codes, take,
  if◌then◌else◌,
}
use esp_soulcloud_client.Esp.{EspErr}
use esp_soulcloud_client.Codec.{StatusMsg, encode_status}
use esp_soulcloud_client.Json.Writer.{Writer}
use esp_soulcloud_client.Mqtt.Publish.{Client, Sender, PublishProps, publish}

abbrev pub json_props : PublishProps
json_props = record {
  content_type = codes "application/json";
  correlation = [];
  response_topic = none;
}

abbrev pub report_qos : Bool → ℕ
report_qos birth = if birth then 1 else 0

abbrev pub event_topic : Bytes → Bytes
event_topic name = take 47 (codes "evt/" ++ name)

module _ (api : Client) where
  -- What the encoder gave is published.
  abbrev pub publish_encoded : Sender api → ℕ → EspErr × Option Bytes → EspErr × Sender api
  publish_encoded s qos (EspErr.esp_ok, some body) =
      publish api s (codes "status") body qos (some json_props)
  publish_encoded s qos (ret, body) = (ret, s)

  -- `report`, over the buffer `buf` of 640 bytes; `msg` is what the chip and the firmware say, with
  -- `birth` as its member.
  unfoldable pub report :
      Sender api → StatusMsg → Option (Writer → Writer) → Bytes → EspErr × Sender api
  report s msg extra buf =
      publish_encoded s (report_qos msg.birth) (encode_status msg extra buf 640)

  unfoldable pub publish_event : Sender api → Bytes → Bytes → EspErr × Sender api
  publish_event s name json = publish api s (event_topic name) json 1 (some json_props)
