-- ===== src/Strings/Url.antt =====
-- `ks_url_encode` and `ks_url_decode` of src/ks_string.c. What `sscanf` reads as `%2x` is a parameter.
use libks.Base.{
  ℕ, ◌+◌, ◌*◌, ◌/◌, ◌%◌, ◌^◌, ◌≡◌, ◌<◌, refl, sym, ap, ◌∙◌, inl, inr, Bool, true, false, Bool-cases,
  ◌||◌, Option, none, some, List, [], ◌∷◌, ◌++◌, append_assoc, append-nil, arith, length,
  length-append, get_or, ltb, leb, ◌==◌, if◌then◌else◌, Run, done, fault, codes, sub_size,
}
use libks.Strings.Separate.{has_char}

abbrev pub urlunsafe : List ℕ
urlunsafe = codes "\r\n \"#%&+:;<=>?@[\\]^`{|}"

abbrev pub percent : ℕ
percent = b'%'

-- The characters that are written as three. A `char` is signed, so those from 128 on are below a space.
unfoldable pub is_unsafe : ℕ → Bool
unfolding has_char
is_unsafe c = ltb c b' ' || ltb b'~' c || has_char c urlunsafe

abbrev pub hex_digit : ℕ → ℕ
hex_digit n = get_or (codes "0123456789ABCDEF") n 0

-- The loop of `ks_url_encode`, with `len` less one. The index `*p >> 4` is negative where the
-- character is.
pub encode_chars : List ℕ → ℕ → List ℕ → Run (List ℕ)
unfolding is_unsafe
encode_chars [] len out = done out
encode_chars (c ∷ s) len out = elim (leb len (length out)) [
  | true ↦ done out
  | false ↦ elim (is_unsafe c) [
    | true ↦ elim (leb len (length out + 3)) [
      | true ↦ done out
      | false ↦ elim (leb 128 c) [
        | true ↦ fault
        | false ↦ encode_chars s len (out ++ percent ∷ hex_digit (c / 16) ∷ hex_digit (c % 16) ∷ [])
      ]
    ]
    | false ↦ encode_chars s len (out ++ c ∷ [])
  ]
]

-- `ks_url_encode`: the string in the buffer. The NUL stands behind it.
unfoldable pub url_encode : List ℕ → ℕ → Run (List ℕ)
unfolding encode_chars
url_encode s len = encode_chars s (sub_size len 1) []

-- A number of two hexadecimal digits, read by `sscanf`.
pub record Scanf : Type 0 where
  pub scan_hex : List ℕ → Option ℕ
  pub scan_digits :
      (h l : ℕ) (s : List ℕ)
      → h < 16
      → l < 16
      → scan_hex (hex_digit h ∷ hex_digit l ∷ s) ≡ some (16 * h + l)

-- `ks_url_decode`. A number goes into a `char`.
unfoldable pub url_decode : Scanf → List ℕ → List ℕ
url_decode f [] = []
url_decode f (c ∷ []) = c ∷ []
url_decode f (c ∷ a ∷ []) = c ∷ a ∷ []
url_decode f (c ∷ a ∷ b ∷ s) = elim (if c == percent then f.scan_hex (a ∷ b ∷ s) else none) [
  | some v ↦ v % 256 ∷ url_decode f s
  | none ↦ c ∷ url_decode f (a ∷ b ∷ s)
]

-- What one character is written as.
abbrev pub written : Bool → ℕ → List ℕ
written true c = percent ∷ hex_digit (c / 16) ∷ hex_digit (c % 16) ∷ []
written false c = c ∷ []

unfoldable pub encoded : List ℕ → List ℕ
encoded [] = []
encoded (c ∷ s) = written (is_unsafe c) c ++ encoded s

-- Characters of seven bits.
abbrev pub AreAscii : List ℕ → Type 0
AreAscii [] = Unit {0}
AreAscii (c ∷ s) = (c < 128) × AreAscii s

encode_chars_lem :
    (s : List ℕ) (len : ℕ) (out : List ℕ)
    → AreAscii s
    → length out + 3 * length s < len
    → encode_chars s len out ≡ done (out ++ encoded s)
unfolding encode_chars encoded
encode_chars_lem [] len out h room = ap done (sym (append-nil out))
encode_chars_lem (c ∷ s) len out h room =
    let more : leb len (length out) ≡ false = ground arith in
    let more3 : leb len (length out + 3) ≡ false = ground arith in
    let ascii : leb 128 c ≡ false = ground (arith, h.0) in
    elim (Bool-cases (is_unsafe c)) [
      | inl e ↦
          let w = percent ∷ hex_digit (c / 16) ∷ hex_digit (c % 16) ∷ [] in
          rw (more, encode_chars, e, more3, ascii)
            (encode_chars_lem s len (out ++ w) (h.1) (omega (arith, length-append out w))
              ∙ ap done (append_assoc out w (encoded s)))
      | inr e ↦
          rw (more, encode_chars, e)
            (encode_chars_lem s len (out ++ c ∷ []) (h.1)
                (omega (arith, length-append out (c ∷ [])))
              ∙ ap done (append_assoc out (c ∷ []) (encoded s)))
    ]

percent_unsafe : (c : ℕ) → is_unsafe c ≡ false → (c == percent) ≡ false
unfolding is_unsafe has_char
percent_unsafe c e = ground arith

module _ (f : Scanf) where
  pub decode_safe :
      (c : ℕ) (t : List ℕ) → (c == percent) ≡ false → url_decode f (c ∷ t) ≡ c ∷ url_decode f t
  unfolding url_decode
  decode_safe c [] e = refl
  decode_safe c (a ∷ []) e = refl
  decode_safe c (a ∷ b ∷ t) e = rw (e, url_decode) refl

  decode_hex :
      (c : ℕ) (t : List ℕ)
      → c < 128
      → url_decode f (percent ∷ hex_digit (c / 16) ∷ hex_digit (c % 16) ∷ t) ≡ c ∷ url_decode f t
  unfolding url_decode
  decode_hex c t h =
      let e : (16 * (c / 16) + c % 16) % 256 ≡ c = omega arith in
      rw (f.scan_digits (c / 16) (c % 16) t (omega arith) (omega arith), url_decode)
        (ap (λ x. x ∷ url_decode f t) e)

  decode_one :
      (b : Bool) (c : ℕ) (s t : List ℕ)
      → c < 128
      → is_unsafe c ≡ b
      → url_decode f ((written b c ++ s) ++ t) ≡ c ∷ url_decode f (s ++ t)
  decode_one true c s t h e = decode_hex c (s ++ t) h
  decode_one false c s t h e = decode_safe c (s ++ t) (percent_unsafe c e)

  pub decode-encoded :
      (s t : List ℕ) → AreAscii s → url_decode f (encoded s ++ t) ≡ s ++ url_decode f t
  unfolding encoded url_decode
  decode-encoded [] t h = refl
  decode-encoded (c ∷ s) t h =
      decode_one (is_unsafe c) c (encoded s) t (h.0) refl
      ∙ ap (λ x. c ∷ x) (decode-encoded s t (h.1))

  -- A string of seven-bit characters that `ks_url_encode` wrote is read back by `ks_url_decode`, where
  -- the buffer has room for three bytes for each character and two more.
  pub url_decode-url_encode :
      (s : List ℕ) (len : ℕ)
      → AreAscii s
      → 3 * length s + 1 < len
      → len < 2 ^ 64
      → (e : List ℕ) × (url_encode s len ≡ done e) × (url_decode f e ≡ s)
  unfolding url_encode url_decode
  url_decode-url_encode s len h room small = (
    encoded s,
    encode_chars_lem s (sub_size len 1) [] h (omega arith),
    ap (url_decode f) (sym (append-nil (encoded s))) ∙ decode-encoded s [] h ∙ append-nil s,
  )
