-- ===== src/Strings/Scanner.antt =====
-- A reader of two hexadecimal digits, which can stand for `sscanf` in `ks_url_decode`.
use libks.Base.{
  ℕ, ◌+◌, ◌-◌, ◌*◌, ◌≡◌, ◌<◌, ap, Bool, true, false, ◌&&◌, Option, none, some, List, [], ◌∷◌, refl,
  ap₂, arith, leb, ◌==◌, ==_iff, if◌then◌else◌, passes_under, passes_under_at,
}
use libks.Strings.Url.{Scanf, hex_digit}

abbrev hex_value : ℕ → Option ℕ
hex_value c =
    if leb b'0' c && leb c b'9'
    then some (c - b'0')
    else if leb b'A' c && leb c b'F'
    then some (c - b'A' + 10)
    else none

both : Option ℕ → Option ℕ → Option ℕ
both (some h) (some l) = some (16 * h + l)
both (some h) none = some h
both none l = none

scan_two : List ℕ → Option ℕ
unfolding both
scan_two [] = none
scan_two (c ∷ []) = hex_value c
scan_two (c ∷ d ∷ s) = both (hex_value c) (hex_value d)

is_some : Option ℕ → ℕ → Bool
is_some (some v) n = v == n
is_some none n = false

is_some-some : (o : Option ℕ) (n : ℕ) → is_some o n ≡ true → o ≡ some n
unfolding is_some
is_some-some (some v) n h = ap some ((==_iff v n).0 h)
is_some-some none n h = ground (arith, h)

all_read : passes_under (λ n. is_some (hex_value (hex_digit n)) n) 16 ≡ true
unfolding passes_under is_some
all_read = refl

value-hex_digit : (n : ℕ) → n < 16 → hex_value (hex_digit n) ≡ some n
value-hex_digit n h =
    is_some-some (hex_value (hex_digit n)) n
      (passes_under_at (λ n. is_some (hex_value (hex_digit n)) n) 16 n h all_read)

pub two_digits : Scanf
unfolding scan_two both
two_digits = record {
  scan_hex = scan_two;
  scan_digits =
      λ h l s under_h under_l. ap₂ both (value-hex_digit h under_h) (value-hex_digit l under_l);
}
