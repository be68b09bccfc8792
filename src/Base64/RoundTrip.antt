-- ===== src/Base64/RoundTrip.antt =====
-- Decoding what was encoded.
use libks.Base.{
  ℕ, suc, ◌+◌, ◌-◌, ◌*◌, ◌/◌, ◌%◌, ◌^◌, ◌≤◌, ◌<◌, ◌≡◌, refl, sym, ap, ◌∙◌, Bool, true, false, none,
  some, List, [], ◌∷◌, ◌++◌, append_assoc, append-nil, arith, length, length-append, leb, ◌==◌,
  ◌&&◌, not, if◌then◌else◌, done, passes_under, passes_under_at,
}
use libks.Base64.{char_of, padding, value_of, emit_byte, decode_loop, encode, decode}
use libks.Base64.Encode.{AreBytes, b64, encode-eq-b64}

-- A character of the table is no NUL, is ASCII and has its index as value.
is_good : ℕ → Bool
is_good i =
    not (char_of i == 0)
    && not (leb 128 (char_of i))
    && elim (value_of (char_of i)) [ none ↦ false | some c ↦ c == i ]

all_good : passes_under is_good 64 ≡ true
unfolding passes_under is_good char_of value_of
all_good = refl

char_of-good :
    (i : ℕ)
    → i < 64
    → ((char_of i == 0) ≡ false) × (leb 128 (char_of i) ≡ false) × (value_of (char_of i) ≡ some i)
unfolding is_good
char_of-good i h = ground (arith, passes_under_at is_good 64 i h all_good)

module _ (olen : ℕ) where
  decode_char :
      (i : ℕ) (xs : List ℕ) (b l : ℕ) (out : List ℕ)
      → i < 64
      → decode_loop olen (char_of i ∷ xs) b l out ≡ (
          let b' = (b * 2 ^ 6 + i) % 2 ^ 32 in
          let (full, l', out') = emit_byte (l + 6) olen b' (l + 6) out in
          if full then done out' else decode_loop olen xs b' l' out')
  unfolding decode_loop
  decode_char i xs b l out h = let (a, c, e) = char_of-good i h in rw (a, c, e)

  decode_padding :
      (xs : List ℕ) (b l : ℕ) (out : List ℕ)
      → decode_loop olen (padding ∷ xs) b l out ≡ decode_loop olen xs b l out
  unfolding decode_loop value_of
  decode_padding xs b l out = refl

  decode_end : (xs : List ℕ) (b l : ℕ) (out : List ℕ) → decode_loop olen (0 ∷ xs) b l out ≡ done out
  unfolding decode_loop
  decode_end xs b l out = refl

  decode0 :
      (i : ℕ) (xs : List ℕ) (b : ℕ) (out : List ℕ)
      → i < 64
      → decode_loop olen (char_of i ∷ xs) b 0 out
        ≡ decode_loop olen xs ((b * 64 + i) % 2 ^ 32) 6 out
  decode0 i xs b out h = decode_char i xs b 0 out h ∙ (unfold emit_byte in refl)

module _ (olen : ℕ) (small : olen < 2 ^ 64) where
  emit_byte_one :
      (f b l : ℕ) (out : List ℕ)
      → 8 ≤ l
      → l < 16
      → length out + 3 < olen
      → emit_byte (suc (suc f)) olen b l out ≡ (false, l - 8, out ++ (b / 2 ^ (l - 8) % 256) ∷ [])
  unfolding emit_byte
  emit_byte_one f b l out lo hi h = ground (arith, length-append out ((b / 2 ^ (l - 8) % 256) ∷ []))

  decode6 :
      (i k : ℕ) (xs : List ℕ) (b : ℕ) (out : List ℕ)
      → i < 64
      → length out + 3 < olen
      → b % 64 * 4 + i / 16 ≡ k
      → decode_loop olen (char_of i ∷ xs) b 6 out
        ≡ decode_loop olen xs ((b * 64 + i) % 2 ^ 32) 4 (out ++ k ∷ [])
  decode6 i k xs b out h room q =
      let b' = (b * 64 + i) % 2 ^ 32 in
      let e : b' / 16 % 256 ≡ k = omega arith in
      decode_char olen i xs b 6 out h
      ∙ (rw (emit_byte_one 10 b' 12 out (omega arith) (omega arith) room)
          (ap (λ u. decode_loop olen xs b' 4 (out ++ u ∷ [])) e))

  decode4 :
      (i k : ℕ) (xs : List ℕ) (b : ℕ) (out : List ℕ)
      → i < 64
      → length out + 3 < olen
      → b % 16 * 16 + i / 4 ≡ k
      → decode_loop olen (char_of i ∷ xs) b 4 out
        ≡ decode_loop olen xs ((b * 64 + i) % 2 ^ 32) 2 (out ++ k ∷ [])
  decode4 i k xs b out h room q =
      let b' = (b * 64 + i) % 2 ^ 32 in
      let e : b' / 4 % 256 ≡ k = omega arith in
      decode_char olen i xs b 4 out h
      ∙ (rw (emit_byte_one 8 b' 10 out (omega arith) (omega arith) room)
          (ap (λ u. decode_loop olen xs b' 2 (out ++ u ∷ [])) e))

  decode2 :
      (i k : ℕ) (xs : List ℕ) (b : ℕ) (out : List ℕ)
      → i < 64
      → length out + 3 < olen
      → b % 4 * 64 + i ≡ k
      → decode_loop olen (char_of i ∷ xs) b 2 out
        ≡ decode_loop olen xs ((b * 64 + i) % 2 ^ 32) 0 (out ++ k ∷ [])
  decode2 i k xs b out h room q =
      let b' = (b * 64 + i) % 2 ^ 32 in
      let e : b' / 1 % 256 ≡ k = omega arith in
      decode_char olen i xs b 2 out h
      ∙ (rw (emit_byte_one 6 b' 8 out (omega arith) (omega arith) room)
          (ap (λ u. decode_loop olen xs b' 0 (out ++ u ∷ [])) e))

  length-snoc : (out : List ℕ) (c : ℕ) → length (out ++ c ∷ []) ≡ length out + 1
  length-snoc out c = length-append out (c ∷ [])

  -- The four characters of three bytes, from an empty register.
  four :
      (x y z b : ℕ) (xs out : List ℕ)
      → x < 256
      → y < 256
      → z < 256
      → length out + 5 < olen
      → (b' : ℕ) × (decode_loop olen
            (char_of (x / 4)
              ∷ char_of (x % 4 * 16 + y / 16)
              ∷ char_of (y % 16 * 4 + z / 64)
              ∷ char_of (z % 64)
              ∷ xs)
            b
            0
            out
          ≡ decode_loop olen xs b' 0 (out ++ x ∷ y ∷ z ∷ []))
  four x y z b xs out hx hy hz h =
      let i1 = x / 4 in
      let i2 = x % 4 * 16 + y / 16 in
      let i3 = y % 16 * 4 + z / 64 in
      let i4 = z % 64 in
      let b1 = (b * 64 + i1) % 2 ^ 32 in
      let b2 = (b1 * 64 + i2) % 2 ^ 32 in
      let b3 = (b2 * 64 + i3) % 2 ^ 32 in
      let out1 = out ++ x ∷ [] in
      let out2 = out1 ++ y ∷ [] in
      let n1 = length-snoc out x in
      let n2 = length-snoc out1 y in
      (
        (b3 * 64 + i4) % 2 ^ 32,
        decode0 olen i1 (char_of i2 ∷ char_of i3 ∷ char_of i4 ∷ xs) b out (omega arith)
            ∙ decode6 i2 x (char_of i3 ∷ char_of i4 ∷ xs) b1 out (omega arith) (omega arith)
                (omega arith)
            ∙ decode4 i3 y (char_of i4 ∷ xs) b2 out1 (omega arith) (omega arith) (omega arith)
            ∙ decode2 i4 z xs b3 out2 (omega arith) (omega arith) (omega arith)
            ∙ ap (decode_loop olen xs ((b3 * 64 + i4) % 2 ^ 32) 0) (simp append_assoc),
      )

  decode_one :
      (x b : ℕ) (rest out : List ℕ)
      → x < 256
      → length out + 3 < olen
      → decode_loop olen (b64 (x ∷ []) ++ 0 ∷ rest) b 0 out ≡ done (out ++ x ∷ [])
  unfolding b64
  decode_one x b rest out hx h =
      let b1 = (b * 64 + x / 4) % 2 ^ 32 in
      decode0 olen (x / 4) _ b out (omega arith)
      ∙ decode6 (x % 4 * 16) x _ b1 out (omega arith) (omega arith) (omega arith)
      ∙ decode_padding olen _ _ _ _
      ∙ decode_padding olen _ _ _ _
      ∙ decode_end olen rest _ _ _

  decode_two :
      (x y b : ℕ) (rest out : List ℕ)
      → x < 256
      → y < 256
      → length out + 4 < olen
      → decode_loop olen (b64 (x ∷ y ∷ []) ++ 0 ∷ rest) b 0 out ≡ done (out ++ x ∷ y ∷ [])
  unfolding b64
  decode_two x y b rest out hx hy h =
      let i2 = x % 4 * 16 + y / 16 in
      let b1 = (b * 64 + x / 4) % 2 ^ 32 in
      let b2 = (b1 * 64 + i2) % 2 ^ 32 in
      let out1 = out ++ x ∷ [] in
      let n1 = length-snoc out x in
      decode0 olen (x / 4) _ b out (omega arith)
      ∙ decode6 i2 x _ b1 out (omega arith) (omega arith) (omega arith)
      ∙ decode4 (y % 16 * 4) y _ b2 out1 (omega arith) (omega arith) (omega arith)
      ∙ decode_padding olen _ _ _ _
      ∙ decode_end olen rest _ _ _
      ∙ ap done (append_assoc out _ _)

  decode_loop-b64 :
      (xs : List ℕ) (b : ℕ) (rest out : List ℕ)
      → AreBytes xs
      → length out + length xs + 2 < olen
      → decode_loop olen (b64 xs ++ 0 ∷ rest) b 0 out ≡ done (out ++ xs)
  unfolding b64
  decode_loop-b64 [] b rest out ok h = decode_end olen rest b 0 out ∙ ap done (sym (append-nil out))
  decode_loop-b64 (x ∷ []) b rest out ok h = decode_one x b rest out ok.0 (omega arith)
  decode_loop-b64 (x ∷ y ∷ []) b rest out ok h = decode_two x y b rest out ok.0 ok.1.0 (omega arith)
  decode_loop-b64 (x ∷ y ∷ z ∷ xs) b rest out ok h =
      let three = x ∷ y ∷ z ∷ [] in
      let (b', e) = four x y z b (b64 xs ++ 0 ∷ rest) out ok.0 ok.1.0 ok.1.1.0 (omega arith) in
      let rec =
        decode_loop-b64 xs b' rest (out ++ three) ok.1.1.1
          (omega (arith, length-append out three)) in
      e ∙ rec ∙ ap done (append_assoc out three xs)

decode_done :
    (xs : List ℕ) (olen : ℕ) {out : List ℕ}
    → decode_loop olen xs 0 0 [] ≡ done out
    → decode xs olen ≡ done (out ++ 0 ∷ [])
unfolding decode
decode_done xs olen e = ground arith

-- What `ks_b64_encode` writes of bytes is decoded by `ks_b64_decode` to the same bytes and a NUL,
-- whatever stands behind, where the first output has fewer than 2 ^ 31 bytes and at least two more
-- than the encoding, and the second has fewer than 2 ^ 64 and at least three more than the bytes.
pub decode-encode :
    (xs rest : List ℕ) (olen olen' : ℕ)
    → AreBytes xs
    → olen < 2 ^ 31
    → length (b64 xs) + 1 < olen
    → olen' < 2 ^ 64
    → length xs + 2 < olen'
    → decode (encode xs olen ++ rest) olen' ≡ done (xs ++ 0 ∷ [])
decode-encode xs rest olen olen' ok small h small' h' =
    rw (encode-eq-b64 xs olen ok small h, append_assoc (b64 xs) (0 ∷ []) rest)
      (decode_done (b64 xs ++ 0 ∷ rest) olen'
        (decode_loop-b64 olen' small' xs 0 rest [] ok (omega arith)))
