-- ===== src/Rpc/Handle/Errors.antt =====
-- The two answers of `handle` as JSON values, and the error texts with their sizes.
use esp_soulcloud_client.Prelude.{
  ℕ, ◌+◌, ◌*◌, ◌≤◌, ◌<◌, [], ◌∷◌, ◌++◌, ◌≡◌, ◌⊎◌, inl, inr, true, false, not, Bytes, codes, length,
  ◌==◌, if_cases, length-append, length-take_le, arith,
}
use esp_soulcloud_client.Esp.{EspErr}
use esp_soulcloud_client.Json.Decimal.{decimal}
use esp_soulcloud_client.Rpc.Methods.{}
use esp_soulcloud_client.Json.Page.{escape, escape_byte}
use esp_soulcloud_client.Json.Shows.Null.{}
use esp_soulcloud_client.Json.Value.{Value, Fields, end, field, bool, str, obj, print}
use esp_soulcloud_client.Json.Writer.{Writer, is_ok}
use esp_soulcloud_client.Rpc.Handle.{Handled, Setup, error_msg, is_ok_code, call_error, cut_error}

-- The two answers.
abbrev pub result_value : Fields → Value
result_value fields = obj (field (codes "ok") (bool true) (field (codes "result") (obj fields) end))

abbrev pub error_value : Bytes → Value
error_value error = obj (field (codes "ok") (bool false) (field (codes "error") (str error) end))

length-escape_byte : (c : ℕ) → length (escape_byte c) ≤ 6
unfolding escape_byte
length-escape_byte c = ground arith

length-escape : (s : Bytes) → length (escape s) ≤ 6 * length s
unfolding escape
length-escape [] = omega arith
length-escape (c ∷ s) =
    let n = length-append (escape_byte c) (escape s) in
    let one = length-escape_byte c in let rest = length-escape s in omega (arith, n, one, rest)

pub length-error_value :
    (error : Bytes) → length (print (error_value error)) ≤ 23 + 6 * length error
unfolding print escape escape_byte
length-error_value error =
    let e = length-escape error in
    let n = length-append (escape error) (b'"' ∷ []) in
    let m = length-append (escape error ++ b'"' ∷ []) [] in
    let k = length-append ((escape error ++ b'"' ∷ []) ++ []) (b'}' ∷ []) in
    omega (arith, e, n, m, k)

pub cut_error-range :
    (message : Bytes)
    → 0 < length message
    → (0 < length (cut_error message)) × (length (cut_error message) ≤ 111)
cut_error-range [] h = absurd (omega (arith, h))
cut_error-range (x ∷ xs) h = let n = length-take_le 110 xs in (omega arith, omega (arith, n))

-- An error that fits its buffer, and that is empty only where the writer is fine.
abbrev pub CallError : Writer → Bytes → Type 0
CallError out error = (length error ≤ 111) × ((0 < length error) ⊎ (is_ok out ≡ true))

cut_error-CallError :
    (out : Writer) (message : Bytes) → 0 < length message → CallError out (cut_error message)
cut_error-CallError out message h = let r = cut_error-range message h in (r.1, inl r.0)

error_msg_some : (m : Bytes) → not (length m == 0) ≡ true → 0 < length m
error_msg_some m h = ground (arith, h)

pub call_error-range :
    (setup : Setup) (h : Handled) (out : Writer)
    → ((e : EspErr) → 0 < length (setup.err_name e))
    → CallError out (call_error setup h out)
unfolding call_error
call_error-range setup h out named =
    if_cases (CallError out) (not (length (error_msg h.failure) == 0))
      (λ failed.
        cut_error-CallError out (error_msg h.failure) (error_msg_some (error_msg h.failure) failed))
      (λ _.
        if_cases (CallError out) (not (is_ok_code h.ret))
          (λ _. cut_error-CallError out (setup.err_name h.ret) (named h.ret))
          (λ _.
            if_cases (CallError out) (not (is_ok out))
              (λ _.
                cut_error-CallError out
                  (codes "result larger than " ++ (decimal setup.result_max ++ codes " bytes"))
                  (omega arith))
              (λ written. (omega arith, inr (ground (arith, written))))))
