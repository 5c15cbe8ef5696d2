-- ===== src/Prelude/Memory.antt =====
-- Buffers written by `memcpy` and by single stores: what a prefix of the memory holds afterwards.
use Prim.Native.Nat.{ℕ, zero, suc, ◌+◌, ◌≤◌, ◌<◌}
use mathlib.Core.Path.{◌≡◌, refl, ap, ◌∙◌, sym}
use mathlib.Core.List.{[], ◌∷◌, ◌++◌, append-nil, append_assoc}
use native.Mathlib.Omega.{arith}
use esp_soulcloud_client.Prelude.Lists.{Bytes, length, take, set, get_or, copy_at, length-set}

pub take-set_ge : (n i v : ℕ) (xs : Bytes) → n ≤ i → take n (set xs i v) ≡ take n xs
take-set_ge zero i v xs h = refl
take-set_ge (suc n) i v [] h = refl
take-set_ge (suc n) zero v (x ∷ xs) h = absurd (omega arith)
take-set_ge (suc n) (suc i) v (x ∷ xs) h = ap (◌∷◌ x) (take-set_ge n i v xs (omega arith))

pub take-suc-set :
    (n v : ℕ) (xs : Bytes) → n < length xs → take (suc n) (set xs n v) ≡ take n xs ++ v ∷ []
take-suc-set n v [] h = absurd (omega arith)
take-suc-set zero v (x ∷ xs) h = refl
take-suc-set (suc n) v (x ∷ xs) h = ap (◌∷◌ x) (take-suc-set n v xs (omega arith))

pub get_or-set_self : (xs : Bytes) (i v d : ℕ) → i < length xs → get_or (set xs i v) i d ≡ v
get_or-set_self [] i v d h = absurd (omega arith)
get_or-set_self (x ∷ xs) zero v d h = refl
get_or-set_self (x ∷ xs) (suc i) v d h = get_or-set_self xs i v d (omega arith)

pub length-copy_at : (s buf : Bytes) (n : ℕ) → length (copy_at buf n s) ≡ length buf
length-copy_at [] buf n = refl
length-copy_at (c ∷ s) buf n = length-copy_at s (set buf n c) (suc n) ∙ length-set buf n c

pub take-copy_at :
    (s buf : Bytes) (n m : ℕ)
    → n + length s ≡ m
    → m ≤ length buf
    → take m (copy_at buf n s) ≡ take n buf ++ s
take-copy_at [] buf n m e h = let e' : m ≡ n = omega arith in rw e' (sym (append-nil (take n buf)))
take-copy_at (c ∷ s) buf n m e h =
    take-copy_at s (set buf n c) (suc n) m (omega arith) (omega (arith, length-set buf n c))
    ∙ rw (take-suc-set n c buf (omega arith)) (append_assoc (take n buf) (c ∷ []) s)

-- `memcpy` of a string and its NUL behind a text that ends at `n`.
pub take-set-copy_at :
    (s buf : Bytes) (n m : ℕ)
    → n + length s ≡ m
    → m < length buf
    → take m (set (copy_at buf n s) m 0) ≡ take n buf ++ s
take-set-copy_at s buf n m e h =
    take-set_ge m m 0 (copy_at buf n s) (omega arith) ∙ take-copy_at s buf n m e (omega arith)
