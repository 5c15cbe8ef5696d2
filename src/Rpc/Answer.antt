-- ===== src/Rpc/Answer.antt =====
-- The one call to the platform that may wait for an answer: the state that `call_lock` guards, and
-- `deliver_response`, which the esp-mqtt task runs (sc_rpc.cpp lines 182 to 206).
pub mod Laws
use esp_soulcloud_client.Prelude.{
  ℕ, ◌+◌, [], Bool, true, false, ◌&&◌, not, Bytes, length, copy_at, equal, ltb, leb, ◌==◌,
  if◌then◌else◌,
}

-- `done` is the event bit that `call` waits for; an empty correlation means that no call waits.
pub record Call : Type 0 where
  pub buf : Bytes
  pub correlation : Bytes
  pub len : ℕ
  pub overflow : Bool
  pub done : Bool

abbrev pub call_buf_size : ℕ
call_buf_size = 1024

unfoldable pub is_ours : Call → Bytes → Bool
is_ours c correlation = not (length c.correlation == 0) && equal correlation c.correlation

-- The fragment `bytes` at `offset` of an answer of `total` bytes.
unfoldable pub deliver_response : Call → Bytes → Bytes → ℕ → ℕ → Call
unfolding is_ours
deliver_response c correlation bytes offset total =
    if is_ours c correlation
    then (let c' =
          if ltb (offset + length bytes) call_buf_size
          then record c { buf = copy_at c.buf offset bytes; len = offset + length bytes }
          else record c { overflow = true } in
        if leb total (offset + length bytes) then record c' { done = true } else c')
    else c
