-- ===== src/Base64/Standard.antt =====
-- The standard encoding, RFC 4648, with its own alphabet, against `ks_b64_encode` of
-- src/ks_base64.c.
use libks.Base.{
  ℕ, zero, suc, ◌+◌, ◌-◌, ◌*◌, ◌/◌, ◌%◌, ◌^◌, ◌≡◌, ◌<◌, refl, ap, ap₂, ◌∙◌, List, [], ◌∷◌, ◌++◌,
  arith, length, map, ltb, ◌==◌, if◌then◌else◌,
}
use libks.Base64.{nth, table, char_of, padding, encode}
use libks.Base64.Encode.{AreBytes, b64, encode-eq-b64}

-- The letters, the small letters, the digits, `+` and `/`.
unfoldable pub digit : ℕ → ℕ
digit i =
    if ltb i 26
    then 65 + i
    else (if ltb i 52
        then 97 + (i - 26)
        else (if ltb i 62 then 48 + (i - 52) else (if i == 62 then 43 else 47)))

unfoldable pub standard : List ℕ → List ℕ
unfolding digit
standard [] = []
standard (x ∷ []) = digit (x / 4) ∷ digit (x % 4 * 16) ∷ 61 ∷ 61 ∷ []
standard (x ∷ y ∷ []) = digit (x / 4) ∷ digit (x % 4 * 16 + y / 16) ∷ digit (y % 16 * 4) ∷ 61 ∷ []
standard (x ∷ y ∷ z ∷ xs) =
    digit (x / 4)
    ∷ digit (x % 4 * 16 + y / 16)
    ∷ digit (y % 16 * 4 + z / 64)
    ∷ digit (z % 64)
    ∷ standard xs

-- `n` numbers from `k` on.
abbrev numbers : ℕ → ℕ → List ℕ
numbers k zero = []
numbers k (suc n) = k ∷ numbers (k + 1) n

nth-numbers : (f : ℕ → ℕ) (k n i : ℕ) → i < n → nth (map f (numbers k n)) i ≡ f (k + i)
unfolding nth
nth-numbers f k zero i h = absurd (omega arith)
nth-numbers f k (suc n) zero h = ap f (omega arith)
nth-numbers f k (suc n) (suc i) h = nth-numbers f (k + 1) n i (omega arith) ∙ ap f (omega arith)

table-digits : table ≡ map digit (numbers 0 64)
unfolding digit
table-digits = refl

char_of-eq-digit : (i : ℕ) → i < 64 → char_of i ≡ digit i
unfolding char_of
char_of-eq-digit i h =
    ap (λ t. nth t i) table-digits ∙ nth-numbers digit 0 64 i h ∙ ap digit (omega arith)

b64-eq-standard : (xs : List ℕ) → AreBytes xs → b64 xs ≡ standard xs
unfolding b64 standard
b64-eq-standard [] ok = refl
b64-eq-standard (x ∷ []) ok =
    ap₂ (λ a b. a ∷ b ∷ padding ∷ padding ∷ []) (char_of-eq-digit (x / 4) (omega (arith, ok.0)))
      (char_of-eq-digit (x % 4 * 16) (omega arith))
b64-eq-standard (x ∷ y ∷ []) ok =
    ap₂ (λ a r. a ∷ r) (char_of-eq-digit (x / 4) (omega (arith, ok.0)))
      (ap₂ (λ b c. b ∷ c ∷ padding ∷ [])
        (char_of-eq-digit (x % 4 * 16 + y / 16) (omega (arith, ok.1.0)))
        (char_of-eq-digit (y % 16 * 4) (omega arith)))
b64-eq-standard (x ∷ y ∷ z ∷ xs) ok =
    ap₂ (λ r s. r ++ s)
      (ap₂ (λ r s. r ++ s)
        (ap₂ (λ a b. a ∷ b ∷ []) (char_of-eq-digit (x / 4) (omega (arith, ok.0)))
          (char_of-eq-digit (x % 4 * 16 + y / 16) (omega (arith, ok.1.0))))
        (ap₂ (λ c d. c ∷ d ∷ []) (char_of-eq-digit (y % 16 * 4 + z / 64) (omega (arith, ok.1.1.0)))
          (char_of-eq-digit (z % 64) (omega arith))))
      (b64-eq-standard xs ok.1.1.1)

-- Where `olen` is less than 2 ^ 31 and at least two more than the length of the standard encoding of
-- the bytes, `ks_b64_encode` writes that encoding and a NUL.
pub encode-eq-standard :
    (xs : List ℕ) (olen : ℕ)
    → AreBytes xs
    → olen < 2 ^ 31
    → length (standard xs) + 1 < olen
    → encode xs olen ≡ standard xs ++ 0 ∷ []
encode-eq-standard xs olen ok small room =
    let e = b64-eq-standard xs ok in
    encode-eq-b64 xs olen ok small (omega (arith, ap length e, room)) ∙ ap (λ t. t ++ 0 ∷ []) e
