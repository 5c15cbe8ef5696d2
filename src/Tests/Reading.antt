-- ===== src/Tests/Reading.antt =====
-- Concrete documents that the reader reads.
use esp_soulcloud_client.Prelude.{
  ◌+◌, negsuc, [], ◌∷◌, ◌++◌, List, ◌≡◌, refl, true, false, none, some, codes, replicate, take,
  drop, get_or, ltb, if◌then◌else◌, arith,
}
use esp_soulcloud_client.Json.Decimal.{signed_decimal}
use esp_soulcloud_client.Json.Page.{escape, escape_byte}
use esp_soulcloud_client.Json.Reader.{Reader, skip, find, str_at, int_at}
use esp_soulcloud_client.Json.Reader.Find.{Member, members_forest, lookup, Points, find-lookup}
use esp_soulcloud_client.Json.Reader.Scalars.{
  str_at-escape, str_at-escape_long, int_at-signed_decimal,
}
use esp_soulcloud_client.Json.Reader.Tree.{Node, node, leaf, tree, flatten, width, skip-flatten}
use esp_soulcloud_client.Json.Token.{Token, object, string, primitive, slice}

-- The tokens of {"a":"x\"y","n":-5}.
abbrev doc : Reader
doc = record {
  json = codes "{\"a\":\"x\\\"y\",\"n\":-5}";
  tokens =
      record { type = object; start = 0; stop = 19; size = 2 }
      ∷ record { type = string; start = 2; stop = 3; size = 1 }
      ∷ record { type = string; start = 6; stop = 10; size = 0 }
      ∷ record { type = string; start = 13; stop = 14; size = 1 }
      ∷ record { type = primitive; start = 16; stop = 18; size = 0 }
      ∷ [];
}

abbrev text_token : Token
text_token = record { type = string; start = 6; stop = 10; size = 0 }

abbrev number_token : Token
number_token = record { type = primitive; start = 16; stop = 18; size = 0 }

text_slice : slice doc.json 6 10 ≡ escape (codes "x\"y")
unfolding escape escape_byte
text_slice = refl

number_slice : slice doc.json 16 18 ≡ signed_decimal (negsuc 4)
unfolding signed_decimal
number_slice = refl

str_at-escape_example :
    ((str_at doc (some 2) 4 (replicate 4 9)).0 ≡ true)
    × (take 3 (str_at doc (some 2) 4 (replicate 4 9)).1 ≡ codes "x\"y")
    × (get_or (str_at doc (some 2) 4 (replicate 4 9)).1 3 1 ≡ 0)
str_at-escape_example =
    str_at-escape doc (some 2) text_token (codes "x\"y") 4 (replicate 4 9) refl refl text_slice refl
      (omega arith)

str_at-escape_long_example : (str_at doc (some 2) 3 (replicate 3 9)).0 ≡ false
str_at-escape_long_example =
    str_at-escape_long doc (some 2) text_token (codes "x\"y") 3 (replicate 3 9) refl refl text_slice
      refl (omega arith) (omega arith)

int_at-signed_decimal_example : int_at doc (some 4) ≡ some (negsuc 4)
int_at-signed_decimal_example =
    int_at-signed_decimal doc (some 4) number_token (negsuc 4) refl refl number_slice (omega arith)

abbrev text_node : Node
text_node = node string 6 10 leaf

abbrev number_node : Node
number_node = node primitive 16 18 leaf

abbrev members : List Member
members =
    record { key_start = 2; key_stop = 3; value = text_node }
    ∷ record { key_start = 13; key_stop = 14; value = number_node }
    ∷ []

doc_tree : doc.tokens ≡ flatten (node object 0 19 (members_forest members)) ++ []
unfolding flatten
doc_tree = refl

skip-flatten_example : skip doc (some 1) ≡ (
    if ltb (1 + width (node string 2 3 (tree text_node leaf))) 5
    then some (1 + width (node string 2 3 (tree text_node leaf)))
    else none)
unfolding flatten
skip-flatten_example =
    skip-flatten doc (node string 2 3 (tree text_node leaf)) (drop 3 doc.tokens) 1 refl

find-lookup_example :
    Points doc (find doc (some 0) (codes "n")) (lookup doc.json (codes "n") members)
find-lookup_example = find-lookup doc 0 0 19 members (codes "n") [] doc_tree
