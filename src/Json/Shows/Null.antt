-- ===== src/Json/Shows/Null.antt =====
-- No call makes the writer's buffer pointer null, or changes the size that it was created with.
use esp_soulcloud_client.Prelude.{
  ℕ, ◌/◌, ◌%◌, take, ltb, leb, ◌==◌, List, [], ◌∷◌, ◌≡◌, refl, ◌∙◌, Bool, true, false, Option, none,
  some, Bytes, codes, length, if◌then◌else◌, arith,
}
use esp_soulcloud_client.Json.Decimal.{hex_digit, decimal, signed_decimal}
use esp_soulcloud_client.Json.Writer.{
  Writer, Op, max_depth, reset, create, put_char, put, put_escaped_byte, put_escaped_bytes,
  put_escaped, begin_item, put_key, begin_value, begin_container, end_container, begin_object,
  end_object, begin_array, end_array, add_null, add_str_len, add_str, add_fmt, add_int, add_uint,
  add_bool, put_hex_bytes, add_hex, apply, run, begins_object, begins_array, ends_object,
  ends_array, adds_str, adds_fmt, adds_int, adds_uint, adds_bool, adds_null, adds_hex,
}

abbrev Kept : Writer → Writer → Type 0
Kept w w' = w'.is_null ≡ w.is_null

either {ℓ} : {A : Type ℓ} (P : A → Type 0) (b : Bool) {x y : A} → P x → P y → P (if b then x else y)
either P true h k = h
either P false h k = k

put_char-Kept : (w : Writer) (c : ℕ) → Kept w (put_char w c)
unfolding put_char
put_char-Kept w c = ground arith

put-Kept : (w : Writer) (s : Bytes) → Kept w (put w s)
unfolding put
put-Kept w s = ground arith

put_escaped_byte-Kept : (w : Writer) (c : ℕ) → Kept w (put_escaped_byte w c)
unfolding put_escaped_byte
put_escaped_byte-Kept w c = either (Kept w) (c == b'"') (put-Kept w (b'\\' ∷ b'"' ∷ [])) (
    either (Kept w) (c == b'\\') (put-Kept w (b'\\' ∷ b'\\' ∷ [])) (
      either (Kept w) (c == b'\n') (put-Kept w (b'\\' ∷ b'n' ∷ [])) (
        either (Kept w) (c == b'\r') (put-Kept w (b'\\' ∷ b'r' ∷ [])) (
          either (Kept w) (c == b'\t') (put-Kept w (b'\\' ∷ b't' ∷ [])) (
            either (Kept w) (ltb c 0x20)
              (put-Kept w
                (b'\\' ∷ b'u' ∷ b'0' ∷ b'0' ∷ hex_digit (c / 16) ∷ hex_digit (c % 16) ∷ []))
              (put_char-Kept w c))))))

put_escaped_bytes-Kept : (s : Bytes) (w : Writer) → Kept w (put_escaped_bytes w s)
unfolding put_escaped_bytes
put_escaped_bytes-Kept [] w = refl
put_escaped_bytes-Kept (c ∷ s) w =
    either (Kept w) w.overflow refl
      (put_escaped_bytes-Kept s (put_escaped_byte w c) ∙ put_escaped_byte-Kept w c)

put_escaped-Kept : (w : Writer) (s : Bytes) → Kept w (put_escaped w s)
unfolding put_escaped
put_escaped-Kept w s =
    put_char-Kept (put_escaped_bytes (put_char w b'"') s) b'"'
    ∙ put_escaped_bytes-Kept s (put_char w b'"')
    ∙ put_char-Kept w b'"'

begin_item-Kept : (w : Writer) → Kept w (begin_item w)
unfolding begin_item
begin_item-Kept w =
    either (Kept w) (ltb 0 w.depth)
      (either (Kept w) (w.has_items w.depth) (put_char-Kept w b',') refl) refl

put_key-Kept : (w : Writer) (key : Option Bytes) → Kept w (put_key w key)
unfolding put_key
put_key-Kept w none = refl
put_key-Kept w (some key) = put_char-Kept (put_escaped w key) b':' ∙ put_escaped-Kept w key

begin_value-Kept : (w : Writer) (key : Option Bytes) → Kept w (begin_value w key)
unfolding begin_value
begin_value-Kept w key = put_key-Kept (begin_item w) key ∙ begin_item-Kept w

begin_container-Kept :
    (bracket : ℕ) (w : Writer) (key : Option Bytes) → Kept w (begin_container bracket w key)
unfolding begin_container
begin_container-Kept bracket w key =
    let k = put_char-Kept (begin_value w key) bracket ∙ begin_value-Kept w key in
    either (Kept w) (leb max_depth (put_char (begin_value w key) bracket).depth) k k

end_container-Kept : (bracket : ℕ) (w : Writer) → Kept w (end_container bracket w)
unfolding end_container
end_container-Kept bracket w =
    let k = put_char-Kept w bracket in either (Kept w) (ltb 0 (put_char w bracket).depth) k k

add_str_len-Kept :
    (w : Writer) (key : Option Bytes) (value : Bytes) → Kept w (add_str_len w key value)
unfolding add_str_len
add_str_len-Kept w key value = put_escaped-Kept (begin_value w key) value ∙ begin_value-Kept w key

add_null-Kept : (w : Writer) (key : Option Bytes) → Kept w (add_null w key)
unfolding add_null
add_null-Kept w key = put-Kept (begin_value w key) (codes "null") ∙ begin_value-Kept w key

put_hex_bytes-Kept : (bytes : Bytes) (w : Writer) → Kept w (put_hex_bytes w bytes)
unfolding put_hex_bytes
put_hex_bytes-Kept [] w = refl
put_hex_bytes-Kept (c ∷ cs) w =
    let one = put_char w (hex_digit (c / 16)) in
    let two = put_char one (hex_digit (c % 16)) in
    either (Kept w) w.overflow refl (
      put_hex_bytes-Kept cs two
      ∙ put_char-Kept one (hex_digit (c % 16))
      ∙ put_char-Kept w (hex_digit (c / 16)))

apply-Kept : (w : Writer) (op : Op) → Kept w (apply w op)
unfolding apply begin_object begin_array end_object end_array add_str add_fmt add_int add_uint
    add_bool add_hex
apply-Kept w (begins_object key) = begin_container-Kept b'{' w key
apply-Kept w (begins_array key) = begin_container-Kept b'[' w key
apply-Kept w ends_object = end_container-Kept b'}' w
apply-Kept w ends_array = end_container-Kept b']' w
apply-Kept w (adds_str key none) = add_null-Kept w key
apply-Kept w (adds_str key (some value)) = add_str_len-Kept w key value
apply-Kept w (adds_fmt key none) = refl
apply-Kept w (adds_fmt key (some t)) =
    add_str_len-Kept w key (if ltb (length t) 128 then t else take 127 t)
apply-Kept w (adds_int key value) =
    put-Kept (begin_value w key) (signed_decimal value) ∙ begin_value-Kept w key
apply-Kept w (adds_uint key value) =
    put-Kept (begin_value w key) (decimal value) ∙ begin_value-Kept w key
apply-Kept w (adds_bool key true) =
    put-Kept (begin_value w key) (codes "true") ∙ begin_value-Kept w key
apply-Kept w (adds_bool key false) =
    put-Kept (begin_value w key) (codes "false") ∙ begin_value-Kept w key
apply-Kept w (adds_null key) = add_null-Kept w key
apply-Kept w (adds_hex key bytes) =
    put_char-Kept (put_hex_bytes (put_char (begin_value w key) b'"') bytes) b'"'
    ∙ put_hex_bytes-Kept bytes (put_char (begin_value w key) b'"')
    ∙ put_char-Kept (begin_value w key) b'"'
    ∙ begin_value-Kept w key

pub run-is_null : (ops : List Op) (w : Writer) → (run w ops).is_null ≡ w.is_null
unfolding run
run-is_null [] w = refl
run-is_null (op ∷ ops) w = run-is_null ops (apply w op) ∙ apply-Kept w op

-- `reset` after any chain of calls is as good as a new writer over the buffer.
pub reset-run :
    (ops : List Op) (w : Writer)
    → w.is_null ≡ false
    → reset (run w ops) ≡ create (some (run w ops).buf) (run w ops).cap
unfolding reset create
reset-run ops w h = let k = run-is_null ops w ∙ h in ground (arith, k)
