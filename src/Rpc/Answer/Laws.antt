-- ===== src/Rpc/Answer/Laws.antt =====
-- The answer to a call, put together from its fragments.
use esp_soulcloud_client.Prelude.{
  ℕ, ◌+◌, ◌≤◌, ◌<◌, List, [], ◌∷◌, ◌++◌, ◌≡◌, refl, sym, ap, ◌∙◌, subst, Bool, true, false, not,
  ◌&&◌, Bytes, length, take, copy_at, equal, ltb, leb, ◌==◌, if◌then◌else◌, length-append,
  append-nil, append_assoc, ◌≢◌, ◌⊎◌, inl, inr, equal_iff, Bool-cases, arith,
}
use esp_soulcloud_client.Prelude.Memory.{take-copy_at, length-copy_at}
use esp_soulcloud_client.Rpc.Answer.{Call, call_buf_size, is_ours, deliver_response}

abbrev pub joined : List Bytes → Bytes
joined [] = []
joined (f ∷ fs) = f ++ joined fs

abbrev pub total_of : List Bytes → ℕ
total_of [] = 0
total_of (f ∷ fs) = length f + total_of fs

length-joined : (fs : List Bytes) → length (joined fs) ≡ total_of fs
length-joined [] = refl
length-joined (f ∷ fs) = length-append f (joined fs) ∙ ap (λ k. length f + k) (length-joined fs)

-- The fragments of one message of `total` bytes in turn, from `offset` on.
unfoldable pub deliver_all : Call → Bytes → ℕ → ℕ → List Bytes → Call
deliver_all c correlation total offset [] = c
deliver_all c correlation total offset (f ∷ fs) =
    deliver_all (deliver_response c correlation f offset total) correlation total
      (offset + length f) fs

-- The call holds `bytes` of its answer.
record Has (c : Call) (bytes : Bytes) : Type 0 where
  size : length c.buf ≡ call_buf_size
  len_is : c.len ≡ length bytes
  bytes_are : take (length bytes) c.buf ≡ bytes

copied-Has :
    (c : Call) (f bytes : Bytes) (offset : ℕ) (done : Bool)
    → Has c bytes
    → offset ≡ length bytes
    → offset + length f < call_buf_size
    → Has
        (record c { buf = copy_at c.buf offset f; len = offset + length f; done = done })
        (bytes ++ f)
copied-Has c f bytes offset done h e lt =
    let n = length-append bytes f in
    record {
      size = length-copy_at f c.buf offset ∙ h.size;
      len_is = omega (arith, n);
      bytes_are =
          take-copy_at f c.buf offset (length (bytes ++ f)) (omega (arith, n))
            (omega (arith, n, h.size))
          ∙ ap (λ k. take k c.buf ++ f) e
          ∙ ap (λ t. t ++ f) h.bytes_are;
    }

deliver_response_fit :
    (c : Call) (correlation f bytes : Bytes) (offset total : ℕ)
    → is_ours c correlation ≡ true
    → Has c bytes
    → offset ≡ length bytes
    → offset + length f < call_buf_size
    → let d = deliver_response c correlation f offset total in
      Has d (bytes ++ f)
      × (d.overflow ≡ c.overflow)
      × (d.correlation ≡ c.correlation)
      × (d.done ≡ (if leb total (offset + length f) then true else c.done))
unfolding deliver_response
deliver_response_fit c correlation f bytes offset total ours h e lt =
    let fits : ltb (offset + length f) call_buf_size ≡ true = ground arith in
    elim (Bool-cases (leb total (offset + length f))) [
      | inl last ↦ rw (ours, fits, last) (copied-Has c f bytes offset true h e lt, refl, refl, refl)
      | inr more ↦
          rw (ours, fits, more) (copied-Has c f bytes offset c.done h e lt, refl, refl, refl)
    ]

deliver_response-correlation :
    (c : Call) (correlation f : Bytes) (offset total : ℕ)
    → (deliver_response c correlation f offset total).correlation ≡ c.correlation
unfolding deliver_response
deliver_response-correlation c correlation f offset total = ground arith

deliver_response-ours :
    (c : Call) (correlation f : Bytes) (offset total : ℕ)
    → is_ours (deliver_response c correlation f offset total) correlation ≡ is_ours c correlation
unfolding is_ours
deliver_response-ours c correlation f offset total =
    rw (deliver_response-correlation c correlation f offset total) refl

deliver_response_last :
    (c : Call) (correlation f : Bytes) (offset total : ℕ)
    → is_ours c correlation ≡ true
    → offset + length f ≡ total
    → call_buf_size ≤ total
    → let d = deliver_response c correlation f offset total in (d.overflow ≡ true) × (d.done ≡ true)
unfolding deliver_response
deliver_response_last c correlation f offset total ours e le =
    let over : ltb (offset + length f) call_buf_size ≡ false = ground arith in
    let last : leb total (offset + length f) ≡ true = ground arith in
    rw (ours, over, last) (refl, refl)

-- Behind the bytes that are there, the other fragments of an answer that fits are put in their
-- places, nothing overflows, and the caller is woken.
deliver_all-Has :
    (f : Bytes) (fs : List Bytes) (c : Call) (correlation bytes : Bytes) (offset total : ℕ)
    → is_ours c correlation ≡ true
    → Has c bytes
    → offset ≡ length bytes
    → total ≡ offset + (length f + total_of fs)
    → total < call_buf_size
    → let d = deliver_all c correlation total offset (f ∷ fs) in
      Has d (bytes ++ (f ++ joined fs)) × (d.overflow ≡ c.overflow) × (d.done ≡ true)
unfolding deliver_all
deliver_all-Has f [] c correlation bytes offset total ours h e t lt =
    let fit = deliver_response_fit c correlation f bytes offset total ours h e (omega arith) in
    let last : leb total (offset + length f) ≡ true = ground arith in
    rw (append-nil f) (fit.0, fit.1, fit.3 ∙ rw last refl)
deliver_all-Has f (g ∷ fs) c correlation bytes offset total ours h e t lt =
    let fit = deliver_response_fit c correlation f bytes offset total ours h e (omega arith) in
    let d = deliver_response c correlation f offset total in
    let n = length-append bytes f in
    let rest =
      deliver_all-Has g fs d correlation (bytes ++ f) (offset + length f) total
        (deliver_response-ours c correlation f offset total ∙ ours) fit.0 (omega (arith, n))
        (omega arith) lt in
    (
      subst (λ x. Has (deliver_all d correlation total (offset + length f) (g ∷ fs)) x)
          (append_assoc bytes f (g ++ joined fs)) rest.0,
      rest.1 ∙ fit.1,
      rest.2,
    )

-- However an answer that waits for us is cut into fragments: where it is below the size of the
-- call's buffer, the buffer starts with it, its length is recorded, no overflow is marked and the
-- call is woken.
pub deliver_all-answer :
    (c : Call) (correlation f : Bytes) (fs : List Bytes)
    → is_ours c correlation ≡ true
    → length c.buf ≡ call_buf_size
    → c.len ≡ 0
    → total_of (f ∷ fs) < call_buf_size
    → let d = deliver_all c correlation (total_of (f ∷ fs)) 0 (f ∷ fs) in
      (take (total_of (f ∷ fs)) d.buf ≡ joined (f ∷ fs))
      × (d.len ≡ total_of (f ∷ fs))
      × (d.overflow ≡ c.overflow)
      × (d.done ≡ true)
deliver_all-answer c correlation f fs ours size none_yet lt =
    let start : Has c [] = record { size = size; len_is = none_yet; bytes_are = refl } in
    let all =
      deliver_all-Has f fs c correlation [] 0 (total_of (f ∷ fs)) ours start refl (omega arith)
        lt in
    let n = length-joined (f ∷ fs) in
    (
      ap (λ k. take k (deliver_all c correlation (total_of (f ∷ fs)) 0 (f ∷ fs)).buf) (sym n)
          ∙ all.0.bytes_are,
      all.0.len_is ∙ n,
      all.1,
      all.2,
    )

deliver_all-overflow :
    (f : Bytes) (fs : List Bytes) (c : Call) (correlation : Bytes) (offset total : ℕ)
    → is_ours c correlation ≡ true
    → total ≡ offset + (length f + total_of fs)
    → call_buf_size ≤ total
    → let d = deliver_all c correlation total offset (f ∷ fs) in
      (d.overflow ≡ true) × (d.done ≡ true)
unfolding deliver_all
deliver_all-overflow f [] c correlation offset total ours t le =
    deliver_response_last c correlation f offset total ours (omega arith) le
deliver_all-overflow f (g ∷ fs) c correlation offset total ours t le =
    deliver_all-overflow g fs (deliver_response c correlation f offset total) correlation
      (offset + length f) total (deliver_response-ours c correlation f offset total ∙ ours)
      (omega arith) le

-- However an answer of at least the size of the call's buffer is cut into fragments, the call is
-- woken with the overflow marked.
pub deliver_all-too_large :
    (c : Call) (correlation f : Bytes) (fs : List Bytes)
    → is_ours c correlation ≡ true
    → call_buf_size ≤ total_of (f ∷ fs)
    → let d = deliver_all c correlation (total_of (f ∷ fs)) 0 (f ∷ fs) in
      (d.overflow ≡ true) × (d.done ≡ true)
deliver_all-too_large c correlation f fs ours le =
    deliver_all-overflow f fs c correlation 0 (total_of (f ∷ fs)) ours (omega arith) le

and_false : (b : Bool) → b && false ≡ false
and_false true = refl
and_false false = refl

is_ours_other :
    (c : Call) (correlation : Bytes)
    → (correlation ≢ c.correlation) ⊎ (c.correlation ≡ [])
    → is_ours c correlation ≡ false
unfolding is_ours
is_ours_other c correlation (inl differs) = elim (Bool-cases (equal correlation c.correlation)) [
  | inl same ↦ absurd (differs ((equal_iff correlation c.correlation).0 same))
  | inr apart ↦ rw apart (and_false (not (length c.correlation == 0)))
]
is_ours_other c correlation (inr idle) = rw idle refl

pub deliver_response_other :
    (c : Call) (correlation f : Bytes) (offset total : ℕ)
    → (correlation ≢ c.correlation) ⊎ (c.correlation ≡ [])
    → deliver_response c correlation f offset total ≡ c
unfolding deliver_response
deliver_response_other c correlation f offset total other =
    rw (is_ours_other c correlation other) refl

-- A message whose correlation is not the one the call waits for changes nothing, nor does any
-- message while no call waits.
pub deliver_all-other :
    (fs : List Bytes) (c : Call) (correlation : Bytes) (offset total : ℕ)
    → (correlation ≢ c.correlation) ⊎ (c.correlation ≡ [])
    → deliver_all c correlation total offset fs ≡ c
unfolding deliver_all
deliver_all-other [] c correlation offset total other = refl
deliver_all-other (f ∷ fs) c correlation offset total other =
    rw (deliver_response_other c correlation f offset total other)
      (deliver_all-other fs c correlation (offset + length f) total other)
