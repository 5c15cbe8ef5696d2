-- ===== src/Json/Reader/Scalars.antt =====
-- The values that the reader gives back: strings and whole numbers that the writer wrote, and what
-- `str_at` leaves of the caller's buffer.
use esp_soulcloud_client.Prelude.{
  ℕ, ◌≤◌, ◌<◌, ℤ, ◌≡◌, ap, ◌∙◌, inl, inr, true, false, not, ◌||◌, Option, some, Bytes, length, take,
  set, get_or, ltb, if◌then◌else◌, Bool-cases, arith,
}
use esp_soulcloud_client.Prelude.Memory.{take-set_ge, get_or-set_self}
use esp_soulcloud_client.Json.Decimal.{signed_decimal}
use esp_soulcloud_client.Json.Numbers.{
  IsInt64, strtoll-signed_decimal, c_string-signed_decimal, length-signed_decimal,
  signed_decimal-ne-nil, int64_of-IsInt64,
}
use esp_soulcloud_client.Json.Page.{escape}
use esp_soulcloud_client.Json.Reader.{Reader, token_at, read_text, str_at, read_int, int_at}
use esp_soulcloud_client.Json.RoundTrip.{
  unescape-escape, unescape-escape_long, written, written-out,
}
use esp_soulcloud_client.Json.Token.{Token, string, primitive, slice, is_string_type}
use esp_soulcloud_client.Json.Unescape.{Sink}

abbrev start_of : Bytes → Sink
start_of out = record { out = out; out_len = 0 }

str_at_string :
    (r : Reader) (t : Token) (cap : ℕ) (out : Bytes)
    → t.type ≡ string
    → 0 < cap
    → (if not (is_string_type t.type) || ltb cap 1
        then (false, out)
        else read_text (slice r.json t.start t.stop) cap out)
      ≡ read_text (slice r.json t.start t.stop) cap out
str_at_string r t size out k h = ground arith

str_at-read_text :
    (r : Reader) (tok : Option ℕ) (t : Token) (cap : ℕ) (out : Bytes)
    → token_at r tok ≡ some t
    → t.type ≡ string
    → 0 < cap
    → str_at r tok cap out ≡ read_text (slice r.json t.start t.stop) cap out
unfolding str_at
str_at-read_text r tok t size out e k h = rw (e, str_at) (str_at_string r t size out k h)

read_text-written :
    (str : Bytes) (cap : ℕ) (out : Bytes)
    → length str < cap
    → read_text (escape str) cap out
      ≡ (true, set (written (start_of out) str).out (written (start_of out) str).out_len 0)
unfolding read_text
read_text-written str size out h =
    let u =
      unescape-escape str (length (escape str)) size (start_of out) (omega arith) (omega arith) in
    rw (u, read_text)

read_text-long :
    (str : Bytes) (cap : ℕ) (out : Bytes)
    → 0 < cap
    → cap ≤ length str
    → (read_text (escape str) cap out).0 ≡ false
unfolding read_text
read_text-long str size out some_room h =
    let u =
      unescape-escape_long str (length (escape str)) size (start_of out) (omega arith) some_room
        (omega arith) in
    ground arith

str_at-escape_lem :
    (r : Reader) (tok : Option ℕ) (t : Token) (str : Bytes) (cap : ℕ) (out : Bytes)
    → token_at r tok ≡ some t
    → t.type ≡ string
    → slice r.json t.start t.stop ≡ escape str
    → length out ≡ cap
    → 0 < cap
    → ((str_at r tok cap out).0 ≡ ltb (length str) cap)
      × (length str < cap
          → (take (length str) (str_at r tok cap out).1 ≡ str)
            × (get_or (str_at r tok cap out).1 (length str) 1 ≡ 0))
str_at-escape_lem r tok t str size out e k s h some_room =
    rw (str_at-read_text r tok t size out e k some_room, s)
      (ltb_cases, λ lt. rw (read_text-written str size out lt) (contents lt))
  where
    contents :
        length str < size
        → (take
              (length str)
              (set (written (start_of out) str).out (written (start_of out) str).out_len 0)
            ≡ str)
          × (get_or
                (set (written (start_of out) str).out (written (start_of out) str).out_len 0)
                (length str)
                1
              ≡ 0)
    contents lt =
        let w = written-out str (start_of out) (length str) (omega arith) (omega arith) in
        rw (w.1) (
          take-set_ge (length str) (length str) 0 (written (start_of out) str).out (omega arith)
              ∙ w.0,
          get_or-set_self (written (start_of out) str).out (length str) 0 1 (omega (arith, w.2)),
        )

    ltb_cases : (read_text (escape str) size out).0 ≡ ltb (length str) size
    ltb_cases = elim (Bool-cases (ltb (length str) size)) [
      | inl lt ↦ rw lt (ap (λ p. p.0) (read_text-written str size out (ground arith)))
      | inr ge ↦ rw ge (read_text-long str size out some_room (ground arith))
    ]

read_int-signed_decimal : (z : ℤ) → IsInt64 z → read_int (signed_decimal z) ≡ some z
unfolding read_int
read_int-signed_decimal z h =
    let c = c_string-signed_decimal z in
    let n = strtoll-signed_decimal z in
    let l = length-signed_decimal z h in
    let p = signed_decimal-ne-nil z in rw (c, n, read_int) (ground (arith, int64_of-IsInt64 z))

-- For a buffer of `cap` bytes and a string token whose text is what `put_escaped` writes for `str`,
-- where `str` and a NUL fit the buffer: `str_at` succeeds, and the buffer starts with `str` and a NUL.
pub str_at-escape :
    (r : Reader) (tok : Option ℕ) (t : Token) (str : Bytes) (cap : ℕ) (out : Bytes)
    → token_at r tok ≡ some t
    → t.type ≡ string
    → slice r.json t.start t.stop ≡ escape str
    → length out ≡ cap
    → length str < cap
    → ((str_at r tok cap out).0 ≡ true)
      × (take (length str) (str_at r tok cap out).1 ≡ str)
      × (get_or (str_at r tok cap out).1 (length str) 1 ≡ 0)
str_at-escape r tok t str size out e k s h fits =
    let all = str_at-escape_lem r tok t str size out e k s h (omega arith) in
    let shown = all.1 fits in
    let less : ltb (length str) size ≡ true = ground arith in (all.0 ∙ less, shown.0, shown.1)

-- For a buffer of `cap` bytes, one at least, and a string token whose text is what `put_escaped` writes
-- for `str`, where `str` and a NUL do not fit the buffer: `str_at` fails.
pub str_at-escape_long :
    (r : Reader) (tok : Option ℕ) (t : Token) (str : Bytes) (cap : ℕ) (out : Bytes)
    → token_at r tok ≡ some t
    → t.type ≡ string
    → slice r.json t.start t.stop ≡ escape str
    → length out ≡ cap
    → 0 < cap
    → cap ≤ length str
    → (str_at r tok cap out).0 ≡ false
str_at-escape_long r tok t str size out e k s h some_room long =
    let less : ltb (length str) size ≡ false = ground arith in
    (str_at-escape_lem r tok t str size out e k s h some_room).0 ∙ less

-- For a primitive token whose text is what `add_int` writes for an `int64_t`: `int_at` gives the
-- number back.
pub int_at-signed_decimal :
    (r : Reader) (tok : Option ℕ) (t : Token) (z : ℤ)
    → token_at r tok ≡ some t
    → t.type ≡ primitive
    → slice r.json t.start t.stop ≡ signed_decimal z
    → IsInt64 z
    → int_at r tok ≡ some z
unfolding int_at
int_at-signed_decimal r tok t z e k s h = rw (e, int_at, k, s) (read_int-signed_decimal z h)
