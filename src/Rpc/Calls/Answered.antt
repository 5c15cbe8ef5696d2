-- ===== src/Rpc/Calls/Answered.antt =====
-- What a call gives back.
use esp_soulcloud_client.Prelude.{
  ℕ, ◌+◌, ◌<◌, List, [], ◌∷◌, ◌++◌, ◌≡◌, ◌≢◌, refl, ap, ◌∙◌, inl, inr, Bool, true, false, not, ◌&&◌,
  some, Bytes, length, take, ◌==◌, if◌then◌else◌, equal, equal_iff, arith,
}
use esp_soulcloud_client.Esp.{EspErr}
use esp_soulcloud_client.Json.Reader.{parse}
use esp_soulcloud_client.Json.Token.{Tokeniser}
use esp_soulcloud_client.Mqtt.Publish.{Client, publish}
use esp_soulcloud_client.Rpc.Answer.{Call, call_buf_size, is_ours, deliver_response}
use esp_soulcloud_client.Rpc.Answer.Laws.{
  total_of, joined, deliver_all, deliver_all-answer, deliver_response_other,
}
use esp_soulcloud_client.Rpc.Calls.{
  Fragment, deliver, Caller, Result, accept, read_answer, opened, correlation_of, next_counter,
  call_topic, call_props, wait, wait_if_sent, call,
}

-- The fragments of one message of `total` bytes, from `offset` on.
abbrev pub message : Bytes → ℕ → ℕ → List Bytes → List Fragment
message correlation total offset [] = []
message correlation total offset (f ∷ fs) =
    record { correlation = correlation; bytes = f; offset = offset; total = total }
    ∷ message correlation total (offset + length f) fs

-- Fragments of other messages.
abbrev pub Others : Bytes → List Fragment → Type 0
Others correlation [] = Unit
Others correlation (f ∷ fs) = (f.correlation ≢ correlation) × Others correlation fs

deliver-message :
    (fs : List Bytes) (c : Call) (correlation : Bytes) (total offset : ℕ)
    → deliver c (message correlation total offset fs) ≡ deliver_all c correlation total offset fs
unfolding deliver deliver_all
deliver-message [] c correlation total offset = refl
deliver-message (f ∷ fs) c correlation total offset =
    deliver-message fs (deliver_response c correlation f offset total) correlation total
      (offset + length f)

deliver-Others :
    (os rest : List Fragment) (c : Call)
    → Others c.correlation os
    → deliver c (os ++ rest) ≡ deliver c rest
unfolding deliver
deliver-Others [] rest c h = refl
deliver-Others (o ∷ os) rest c (differs, h) =
    ap (λ d. deliver d (os ++ rest))
      (deliver_response_other c o.correlation o.bytes o.offset o.total (inl differs))
    ∙ deliver-Others os rest c h

-- While no call waits, nothing that is delivered changes anything.
deliver_idle : (fs : List Fragment) (c : Call) → c.correlation ≡ [] → deliver c fs ≡ c
unfolding deliver
deliver_idle [] c h = refl
deliver_idle (f ∷ fs) c h =
    ap (λ d. deliver d fs) (deliver_response_other c f.correlation f.bytes f.offset f.total (inr h))
    ∙ deliver_idle fs c h

opened-is_ours :
    (c : Call) (counter : ℕ)
    → is_ours (opened c (correlation_of counter)) (correlation_of counter) ≡ true
unfolding is_ours
opened-is_ours c counter =
    let same = (equal_iff (correlation_of counter) (correlation_of counter)).1 refl in
    let named : not (length (correlation_of counter) == 0) ≡ true = ground arith in
    ap (λ b. b && equal (correlation_of counter) (correlation_of counter)) named ∙ same

if_true : {A : Type 0} (b : Bool) (x y : A) → b ≡ true → (if b then x else y) ≡ x
if_true true x y h = refl
if_true false x y h = absurd (ground (arith, h))

if_false : {A : Type 0} (b : Bool) (x y : A) → b ≡ false → (if b then x else y) ≡ y
if_false false x y h = refl
if_false true x y h = absurd (ground (arith, h))

read_answer_whole :
    (jsmn : Tokeniser) (max_tokens : ℕ) (r : Result) (c : Call) (text : Bytes)
    → c.overflow ≡ false
    → take c.len c.buf ≡ text
    → read_answer jsmn max_tokens r EspErr.esp_ok c ≡ accept r (parse jsmn max_tokens text)
unfolding read_answer
read_answer_whole jsmn max_tokens r c text over e =
    if_false c.overflow (EspErr.invalid_size, r)
      (accept r (parse jsmn max_tokens (take c.len c.buf))) over
    ∙ ap (λ t. accept r (parse jsmn max_tokens t)) e

module _ (api : Client) where
  wait_done :
      (ret : EspErr) (c d : Call) (fs : List Fragment)
      → ret ≡ EspErr.esp_ok
      → deliver c fs ≡ d
      → d.done ≡ true
      → wait_if_sent api ret c fs ≡ (EspErr.esp_ok, record d { done = false })
  unfolding wait
  wait_done EspErr.esp_ok c d fs sent e done =
      ap (λ x. if x.done then (EspErr.esp_ok, record x { done = false }) else (EspErr.timeout, x)) e
      ∙ if_true d.done (EspErr.esp_ok, record d { done = false }) (EspErr.timeout, d) done
  wait_done _ c d fs sent e done = absurd (ground (arith, sent))

  -- Over a buffer of 1024 bytes: where the message is handed over, the answer to this call arrives whole, in fragments of any sizes
  -- with less than 1024 bytes together, behind any fragments of other messages: the call gives what the
  -- parsed answer says, and afterwards waits for nothing.
  pub call-answer :
      (jsmn : Tokeniser) (max_tokens : ℕ) (s : Caller api) (method params : Bytes) (r : Result)
      (os : List Fragment) (f : Bytes) (fs : List Bytes)
      → length s.call.buf ≡ call_buf_size
      → (publish api s.sender
          (call_topic method)
          params
          1
          (some (call_props api s (correlation_of (next_counter s.counter))))).0
        ≡ EspErr.esp_ok
      → Others (correlation_of (next_counter s.counter)) os
      → total_of (f ∷ fs) < call_buf_size
      → (let answer =
            message (correlation_of (next_counter s.counter)) (total_of (f ∷ fs)) 0 (f ∷ fs) in
          let called = call api jsmn max_tokens s method params r (os ++ answer) in
          (called.0 ≡ accept r (parse jsmn max_tokens (joined (f ∷ fs))))
          × (called.1.call.correlation ≡ []))
  unfolding call
  call-answer jsmn max_tokens s method params r os f fs size sent others fits =
      let correlation = correlation_of (next_counter s.counter) in
      let total = total_of (f ∷ fs) in
      let c = opened s.call correlation in
      let d = deliver_all c correlation total 0 (f ∷ fs) in
      let e : deliver c (os ++ message correlation total 0 (f ∷ fs)) ≡ d =
        deliver-Others os (message correlation total 0 (f ∷ fs)) c others
        ∙ deliver-message (f ∷ fs) c correlation total 0 in
      let all =
        deliver_all-answer c correlation f fs (opened-is_ours s.call (next_counter s.counter)) size
          refl fits in
      let ret =
        (publish api s.sender (call_topic method) params 1
          (some (call_props api s correlation))).0 in
      let w = wait_done ret c d (os ++ message correlation total 0 (f ∷ fs)) sent e all.3 in
      (
        ap (λ x. read_answer jsmn max_tokens r x.0 x.1) w
            ∙ read_answer_whole jsmn max_tokens r (record d { done = false }) (joined (f ∷ fs))
                all.2 (ap (λ n. take n d.buf) all.1 ∙ all.0),
        refl,
      )

  -- After a call, whatever came of it: nothing that is delivered later changes its buffer, its length or
  -- its marks.
  pub call-deliver :
      (jsmn : Tokeniser) (max_tokens : ℕ) (s : Caller api) (method params : Bytes) (r : Result)
      (fs later : List Fragment)
      → (let after = (call api jsmn max_tokens s method params r fs).1.call in
          deliver after later ≡ after)
  unfolding call
  call-deliver jsmn max_tokens s method params r fs later = deliver_idle later _ refl
