-- ===== src/Lib.antt =====
-- The Soul Cloud client for ESP32: a device connects to the platform over MQTT 5, answers requests,
-- calls the platform, updates its firmware and forwards logs. This library models the parts below and
-- states what they promise to each other.
--
-- The program and the files here:
-- - include/sc_json.hpp, src/sc_json.cpp: the JSON writer over a caller's buffer, and the reader over a
--   token array. Json/Writer has one function per operation of `sc_json_writer`, on a record of its
--   members; Json/Page is the specification, a page without end and without a buffer, which Json/Shows
--   relates to the writer step by step. Json/Value has JSON values, their compact text and the calls that
--   write them. Json/Token, Json/Unescape, Json/Strtoll and Json/Reader model `sc_json_reader`: -1 is
--   `none`, and the loops run for the rounds that are left. The tokeniser, external/jsmn, is a parameter;
--   Json/Reader/Tree says which token arrays stand for which values.
-- - src/sc_rpc.cpp: Rpc/Slots has the request slots and the operations on them, over the FreeRTOS queues of
--   the interface Rpc/Queue. Rpc/Protocol has the two tasks, esp-mqtt's and the request task, as a step
--   relation: each call that one of them makes on the shared queues is a step, and the steps interleave in
--   any order. Rpc/Answer has the one outstanding call and `deliver_response`, Rpc/Calls `call` itself, with
--   the fragments that arrive during its wait as a list. Rpc/Methods has the method table, Rpc/Handle
--   `handle` and `respond`; a handler is a function to the calls that it makes on the result, the text of
--   `fail`, and its return code.
-- - src/sc_mqtt.cpp: Mqtt/Data has `handle_data` and `start_request` on a record of the members that the
--   esp-mqtt task works on; Mqtt/Data/Fragments and Mqtt/Data/Requests follow a message through its events.
--   Mqtt/Publish has `publish` and `publish_topic` over the interface `Client` of esp-mqtt and the mutex,
--   and records the messages that were handed over. Mqtt/Events has `event_handler` and `stop`.
-- - src/sc_ota.cpp: Ota has `run`, `download` and `download_from`, on the interface `Platform` of what they
--   call: the HTTP client, the OTA partition, the hash, the clock and the cancel flag. A state records the
--   bytes that `esp_ota_write` took and those that `psa_hash_update` took. Ota/Control has `start` and
--   `cancel`.
-- - src/sc_shell.cpp: Shell has the command table and the choice of a command; Shell/Output has
--   `sc_shell_out`, declared in include/soulcloud.hpp.
-- - src/sc_codec.cpp, src/sc_messages.hpp: Codec has the encoders of the messages that the client sends, and
--   Codec/Decode the decoders, which fill `char` arrays of their sizes; Codec/Decode/Refill is about an
--   array that is filled twice.
-- - src/sc_log_uplink.cpp: Logs has the on9log sink, the text hook, `upload_bin` and `upload_text`, over the
--   interface `Rings` of the ring buffers. A batch that is handed to `publish` is recorded with its bytes, and
--   again as lost where that call fails; what each call returns is an argument.
-- - src/sc_credentials.cpp: Credentials has `load`, `save`, `erase` and `enroll`, over the interface `Platform`
--   of NVS, the heap and the HTTP client.
-- - src/sc_client.cpp, src/sc_status.cpp: Client has the rounds of `run_task` and `on_connected`, and the calls
--   that they make in order; Client/Calls has `sync_time` and `check_for_update`, Client/Methods the methods
--   of the client, their handlers' effects and `register_builtin_methods`, and Client/Reports `report` and `publish_event`.
--
-- The MQTT receiver fills the request slots and hands answers to the call; `handle` runs the method of a slot
-- and writes its answer with the JSON writer, and `respond` publishes it. `check_for_update` starts an update
-- with what the codec decodes from the answer to a call. The enrollment decodes its answer and saves it, for
-- the next start to load. `save` takes and `load` gives the same record of arrays that the decoder fills.
--
-- Conventions. A byte string is a list of native numbers; a C string is the bytes before its NUL; a pointer
-- that may be null is an option. Error codes are the data type of Esp. `memcpy` and stores change a list
-- that keeps its length. Sizes and offsets are native numbers: the buffers, payloads and images are far
-- below 2^31, where no operation of the code wraps; the word count of the shell is a `uint8_t` and wraps.
--
-- Fuel. The inner loop of `download_from` has one round more than the image has bytes, and each round that
-- goes on reads a byte. The outer loop of `download` has five rounds for each byte and six more: a round
-- makes progress or is one of five failures in a row. The loops of the reader have as many rounds as there
-- are tokens or bytes left. The digits of a number are fewer than one more than its value.
--
-- The loop that reads the answer to an enrollment has as many rounds as the buffer has room for bytes.
--
-- Not modelled: `sc_client::init`, the shell command of `register_builtin_methods`, and the members of
-- `sc_client` that only pass a call on; `sc_log_uplink::init` and its task's loop; the DROPPED packet and the
-- time packet of on9log, which are arguments; what `sc_mqtt::init` configures; out-of-memory exits of the
-- `init` functions and of `download`; `esp_ota_abort`; a failing `psa_hash_update` or `psa_hash_finish`, whose
-- results the code does not look at, so that the hash is taken to be of every chunk; and the built-in shell
-- commands, which print what ESP-IDF says. The answer to an earlier call that sets the event bit of the next
-- one is not among the fragments of Rpc/Calls.
pub mod Prelude
pub mod Esp
pub mod Json
pub mod Rpc
pub mod Mqtt
pub mod Ota
pub mod Shell
pub mod Codec
pub mod Logs
pub mod Credentials
pub mod Client
pub mod Tests
