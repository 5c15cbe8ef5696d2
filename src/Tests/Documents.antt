-- ===== src/Tests/Documents.antt =====
-- Documents of the platform, with their tokens.
use esp_soulcloud_client.Prelude.{ℕ, List, [], ◌∷◌, Bytes, codes}
use esp_soulcloud_client.Json.Reader.{Reader}
use esp_soulcloud_client.Json.Token.{Token, TokenType, object, string, primitive}

abbrev token : TokenType → ℕ → ℕ → ℕ → Token
token type start stop size = record { type = type; start = start; stop = stop; size = size }

abbrev pub response_json : Bytes
response_json = codes "{\"deviceId\":\"d1\",\"mqtt\":{\"password\":\"p\",\"url\":\"u\"}}"

abbrev pub response_tokens : List Token
response_tokens =
    token object 0 51 2
    ∷ token string 2 10 1
    ∷ token string 13 15 0
    ∷ token string 18 22 1
    ∷ token object 24 50 2
    ∷ token string 26 34 1
    ∷ token string 37 38 0
    ∷ token string 41 44 1
    ∷ token string 47 48 0
    ∷ []

abbrev pub response_doc : Reader
response_doc = record { tokens = response_tokens; json = response_json }

abbrev pub update_json : Bytes
update_json =
    codes
      "{\"url\":\"u\",\"sha256\":\"0123456789abcdef0123456789abcdef0123456789abcdef0123456789abcdef\",\"size\":5,\"taskId\":\"t\"}"

abbrev pub update_tokens : List Token
update_tokens =
    token object 0 109 4
    ∷ token string 2 5 1
    ∷ token string 8 9 0
    ∷ token string 12 18 1
    ∷ token string 21 85 0
    ∷ token string 88 92 1
    ∷ token primitive 94 95 0
    ∷ token string 97 103 1
    ∷ token string 106 107 0
    ∷ []

abbrev pub update_doc : Reader
update_doc = record { tokens = update_tokens; json = update_json }

abbrev pub levels_json : Bytes
levels_json = codes "{\"level\":\"info\",\"tags\":{\"wifi\":\"warn\"}}"

abbrev pub levels_tokens : List Token
levels_tokens =
    token object 0 39 2
    ∷ token string 2 7 1
    ∷ token string 10 14 0
    ∷ token string 17 21 1
    ∷ token object 23 38 1
    ∷ token string 25 29 1
    ∷ token string 32 36 0
    ∷ []

abbrev pub levels_doc : Reader
levels_doc = record { tokens = levels_tokens; json = levels_json }

abbrev pub answer_json : Bytes
answer_json = codes "{\"ok\":true,\"result\":{\"update\":null}}"

abbrev pub answer_tokens : List Token
answer_tokens =
    token object 0 36 2
    ∷ token string 2 4 1
    ∷ token primitive 6 10 0
    ∷ token string 12 18 1
    ∷ token object 20 35 1
    ∷ token string 22 28 1
    ∷ token primitive 30 34 0
    ∷ []

abbrev pub answer_doc : Reader
answer_doc = record { tokens = answer_tokens; json = answer_json }
