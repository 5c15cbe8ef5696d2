-- ===== src/Json/Value.antt =====
-- JSON values, their compact text, and the calls of `sc_json_writer` that write them.
use Prim.Native.Nat.{max}
use esp_soulcloud_client.Prelude.{
  ℕ, ◌+◌, ℤ, [], ◌∷◌, ◌++◌, List, Bool, true, false, Option, none, some, Bytes, codes,
  if◌then◌else◌,
}
use esp_soulcloud_client.Json.Decimal.{decimal, signed_decimal}
use esp_soulcloud_client.Json.Page.{quoted, hex_text, bool_text}
use esp_soulcloud_client.Json.Writer.{
  Op, begins_object, begins_array, ends_object, ends_array, adds_str, adds_int, adds_uint,
  adds_bool, adds_null, adds_hex,
}

mutual
  pub data Value : Type 0 where
    null : Value
    bool : Bool → Value
    int : ℤ → Value
    uint : ℕ → Value
    str : Bytes → Value
    hex : Bytes → Value
    arr : Items → Value
    obj : Fields → Value

  pub data Items : Type 0 where
    nil : Items
    cons : Value → Items → Items

  pub data Fields : Type 0 where
    end : Fields
    field : Bytes → Value → Fields → Fields

abbrev pub comma : Bool → Bytes
comma first = if first then [] else b',' ∷ []

-- The compact text. The flag is false behind an earlier item of the same container.
unfoldable mutual
  pub print : Value → Bytes
  print null = codes "null"
  print (bool b) = bool_text b
  print (int n) = signed_decimal n
  print (uint n) = decimal n
  print (str s) = quoted s
  print (hex bytes) = b'"' ∷ (hex_text bytes ++ b'"' ∷ [])
  print (arr xs) = b'[' ∷ (print_items true xs ++ b']' ∷ [])
  print (obj fs) = b'{' ∷ (print_fields true fs ++ b'}' ∷ [])

  pub print_items : Bool → Items → Bytes
  print_items first nil = []
  print_items first (cons x xs) = comma first ++ (print x ++ print_items false xs)

  pub print_fields : Bool → Fields → Bytes
  print_fields first end = []
  print_fields first (field k x fs) =
      comma first ++ ((quoted k ++ b':' ∷ []) ++ (print x ++ print_fields false fs))

-- The calls that write a value, under a key or as an element.
unfoldable mutual
  pub ops_of : Option Bytes → Value → List Op
  ops_of key null = adds_null key ∷ []
  ops_of key (bool b) = adds_bool key b ∷ []
  ops_of key (int n) = adds_int key n ∷ []
  ops_of key (uint n) = adds_uint key n ∷ []
  ops_of key (str s) = adds_str key (some s) ∷ []
  ops_of key (hex bytes) = adds_hex key bytes ∷ []
  ops_of key (arr xs) = begins_array key ∷ (ops_of_items xs ++ ends_array ∷ [])
  ops_of key (obj fs) = begins_object key ∷ (ops_of_fields fs ++ ends_object ∷ [])

  pub ops_of_items : Items → List Op
  ops_of_items nil = []
  ops_of_items (cons x xs) = ops_of none x ++ ops_of_items xs

  pub ops_of_fields : Fields → List Op
  ops_of_fields end = []
  ops_of_fields (field k x fs) = ops_of (some k) x ++ ops_of_fields fs

-- How deep the value nests containers.
unfoldable mutual
  pub height : Value → ℕ
  height (arr xs) = height_items xs + 1
  height (obj fs) = height_fields fs + 1
  height null = 0
  height (bool b) = 0
  height (int n) = 0
  height (uint n) = 0
  height (str s) = 0
  height (hex bytes) = 0

  pub height_items : Items → ℕ
  height_items nil = 0
  height_items (cons x xs) = max (height x) (height_items xs)

  pub height_fields : Fields → ℕ
  height_fields end = 0
  height_fields (field k x fs) = max (height x) (height_fields fs)
