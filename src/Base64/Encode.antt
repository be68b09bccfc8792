-- ===== src/Base64/Encode.antt =====
-- The encoder against the base 64 of RFC 4648, three bytes to four characters.
use libks.Base.{
  ℕ, suc, ◌+◌, ◌-◌, ◌*◌, ◌/◌, ◌%◌, ◌^◌, ◌≤◌, ◌<◌, ◌≡◌, refl, sym, ap, ap₂, ◌∙◌, false, List, [],
  ◌∷◌, ◌++◌, append_assoc, append-nil, arith, length, length-append,
}
use libks.Base64.{char_of, padding, is_full, emit, pad, finish, encode_loop, encode}

abbrev pub AreBytes : List ℕ → Type 0
AreBytes [] = Unit {0}
AreBytes (x ∷ xs) = (x < 256) × AreBytes xs

-- The encoding by groups of three bytes.
unfoldable pub b64 : List ℕ → List ℕ
b64 [] = []
b64 (x ∷ []) = char_of (x / 4) ∷ char_of (x % 4 * 16) ∷ padding ∷ padding ∷ []
b64 (x ∷ y ∷ []) =
    char_of (x / 4) ∷ char_of (x % 4 * 16 + y / 16) ∷ char_of (y % 16 * 4) ∷ padding ∷ []
b64 (x ∷ y ∷ z ∷ xs) =
    char_of (x / 4)
    ∷ char_of (x % 4 * 16 + y / 16)
    ∷ char_of (y % 16 * 4 + z / 64)
    ∷ char_of (z % 64)
    ∷ b64 xs

is_full-roomy : (olen n : ℕ) → olen < 2 ^ 31 → n + 1 < olen → is_full olen n ≡ false
unfolding is_full
is_full-roomy olen n small h = ground arith

length-snoc : (out : List ℕ) (c : ℕ) → length (out ++ c ∷ []) ≡ length out + 1
length-snoc out c = length-append out (c ∷ [])

not_full :
    (olen : ℕ) (out : List ℕ) (c : ℕ)
    → olen < 2 ^ 31
    → length out + 2 < olen
    → is_full olen (length (out ++ c ∷ [])) ≡ false
not_full olen out c small h = is_full-roomy olen _ small (omega (arith, length-snoc out c))

module _ (olen : ℕ) (small : olen < 2 ^ 31) where
  emit_one :
      (f b l : ℕ) (out : List ℕ)
      → 6 ≤ l
      → l < 12
      → length out + 2 < olen
      → emit (suc (suc f)) olen b l out ≡ (false, l - 6, out ++ char_of (b / 2 ^ (l - 6) % 64) ∷ [])
  unfolding emit
  emit_one f b l out lo hi h =
      ground (arith, not_full olen out (char_of (b / 2 ^ (l - 6) % 64)) small h)

  step0 :
      (x b : ℕ) (xs out : List ℕ)
      → x < 256
      → length out + 2 < olen
      → encode_loop olen (x ∷ xs) b 0 out
        ≡ encode_loop olen xs ((b * 256 + x) % 2 ^ 32) 2 (out ++ char_of (x / 4) ∷ [])
  unfolding encode_loop
  step0 x b xs out hx h =
      let b' = (b * 256 + x) % 2 ^ 32 in
      let e : b' / 4 % 64 ≡ x / 4 = omega arith in
      rw (emit_one 6 b' 8 out (omega arith) (omega arith) h)
        (ap (λ k. encode_loop olen xs b' 2 (out ++ char_of k ∷ [])) e)

  step2 :
      (x b k : ℕ) (xs out : List ℕ)
      → x < 256
      → length out + 2 < olen
      → b % 4 * 16 + x / 16 ≡ k
      → encode_loop olen (x ∷ xs) b 2 out
        ≡ encode_loop olen xs ((b * 256 + x) % 2 ^ 32) 4 (out ++ char_of k ∷ [])
  unfolding encode_loop
  step2 x b k xs out hx h q =
      let b' = (b * 256 + x) % 2 ^ 32 in
      let e : b' / 16 % 64 ≡ k = omega arith in
      rw (emit_one 8 b' 10 out (omega arith) (omega arith) h)
        (ap (λ u. encode_loop olen xs b' 4 (out ++ char_of u ∷ [])) e)

  emit_two :
      (f b : ℕ) (out : List ℕ)
      → length out + 3 < olen
      → emit (suc (suc (suc f))) olen b 12 out
        ≡ (false, 0, (out ++ char_of (b / 64 % 64) ∷ []) ++ char_of (b / 1 % 64) ∷ [])
  unfolding emit
  emit_two f b out h =
      let out' = out ++ char_of (b / 64 % 64) ∷ [] in
      rw (not_full olen out (char_of (b / 64 % 64)) small (omega arith)) (
        emit_one f b 6 out' (omega arith) (omega arith)
          (omega (arith, length-snoc out (char_of (b / 64 % 64)))))

  step4 :
      (x b k : ℕ) (xs out : List ℕ)
      → x < 256
      → length out + 3 < olen
      → b % 16 * 4 + x / 64 ≡ k
      → encode_loop olen (x ∷ xs) b 4 out
        ≡ encode_loop olen xs
            ((b * 256 + x) % 2 ^ 32)
            0
            ((out ++ char_of k ∷ []) ++ char_of (x % 64) ∷ [])
  unfolding encode_loop
  step4 x b k xs out hx h q =
      let b' = (b * 256 + x) % 2 ^ 32 in
      let e : b' / 64 % 64 ≡ k = omega arith in
      let e' : b' / 1 % 64 ≡ x % 64 = omega arith in
      rw (emit_two 9 b' out h)
        (ap₂ (λ u w. encode_loop olen xs b' 0 ((out ++ char_of u ∷ []) ++ char_of w ∷ [])) e e')

  -- Three bytes from an empty register.
  three :
      (x y z b : ℕ) (xs out : List ℕ)
      → x < 256
      → y < 256
      → z < 256
      → length out + 5 < olen
      → (b' : ℕ) × (encode_loop olen (x ∷ y ∷ z ∷ xs) b 0 out
          ≡ encode_loop olen xs b' 0 (
              out
              ++ char_of (x / 4)
                ∷ char_of (x % 4 * 16 + y / 16)
                ∷ char_of (y % 16 * 4 + z / 64)
                ∷ char_of (z % 64)
                ∷ []))
  three x y z b xs out hx hy hz h =
      let b1 = (b * 256 + x) % 2 ^ 32 in
      let b2 = (b1 * 256 + y) % 2 ^ 32 in
      let out1 = out ++ char_of (x / 4) ∷ [] in
      let k2 = x % 4 * 16 + y / 16 in
      let out2 = out1 ++ char_of k2 ∷ [] in
      let n1 = length-snoc out (char_of (x / 4)) in
      let n2 = length-snoc out1 (char_of k2) in
      let k3 = y % 16 * 4 + z / 64 in
      (
        (b2 * 256 + z) % 2 ^ 32,
        step0 x b (y ∷ z ∷ xs) out hx (omega arith)
            ∙ step2 y b1 k2 (z ∷ xs) out1 hy (omega arith) (omega arith)
            ∙ step4 z b2 k3 xs out2 hz (omega arith) (omega arith)
            ∙ ap (encode_loop olen xs ((b2 * 256 + z) % 2 ^ 32) 0) (simp append_assoc),
      )

  -- The last two bytes, or the last one, and the padding.
  finish2 :
      (b k : ℕ) (out : List ℕ)
      → length out + 3 < olen
      → b % 4 * 16 ≡ k
      → finish olen b 2 out ≡ out ++ char_of k ∷ padding ∷ padding ∷ []
  unfolding finish pad
  finish2 b k out h q =
      let e : b % 16 * 16 % 64 ≡ k = omega arith in
      let out1 = out ++ char_of k ∷ [] in
      let n1 = length-snoc out (char_of k) in
      rw
        (
          e,
          not_full olen out (char_of k) small (omega arith),
          not_full olen out1 padding small (omega arith),
        )
        (simp append_assoc)

  finish4 :
      (b k : ℕ) (out : List ℕ)
      → length out + 2 < olen
      → b % 16 * 4 ≡ k
      → finish olen b 4 out ≡ out ++ char_of k ∷ padding ∷ []
  unfolding finish pad
  finish4 b k out h q =
      let e : b % 16 * 4 % 64 ≡ k = omega arith in
      rw (e, not_full olen out (char_of k) small h) (simp append_assoc)

  loop_end : (b l : ℕ) (out : List ℕ) → encode_loop olen [] b l out ≡ finish olen b l out
  unfolding encode_loop
  loop_end b l out = refl

  last_one :
      (x b : ℕ) (out : List ℕ)
      → x < 256
      → length out + 5 < olen
      → encode_loop olen (x ∷ []) b 0 out
        ≡ out ++ char_of (x / 4) ∷ char_of (x % 4 * 16) ∷ padding ∷ padding ∷ []
  last_one x b out hx h =
      let b1 = (b * 256 + x) % 2 ^ 32 in
      let out1 = out ++ char_of (x / 4) ∷ [] in
      let n1 = length-snoc out (char_of (x / 4)) in
      step0 x b [] out hx (omega arith)
      ∙ loop_end b1 2 out1
      ∙ finish2 b1 (x % 4 * 16) out1 (omega arith) (omega arith)
      ∙ append_assoc out _ _

  last_two :
      (x y b : ℕ) (out : List ℕ)
      → x < 256
      → y < 256
      → length out + 5 < olen
      → encode_loop olen (x ∷ y ∷ []) b 0 out
        ≡ out
          ++ char_of (x / 4) ∷ char_of (x % 4 * 16 + y / 16) ∷ char_of (y % 16 * 4) ∷ padding ∷ []
  last_two x y b out hx hy h =
      let b1 = (b * 256 + x) % 2 ^ 32 in
      let b2 = (b1 * 256 + y) % 2 ^ 32 in
      let k = x % 4 * 16 + y / 16 in
      let out1 = out ++ char_of (x / 4) ∷ [] in
      let out2 = out1 ++ char_of k ∷ [] in
      let n1 = length-snoc out (char_of (x / 4)) in
      let n2 = length-snoc out1 (char_of k) in
      step0 x b (y ∷ []) out hx (omega arith)
      ∙ step2 y b1 k [] out1 hy (omega arith) (omega arith)
      ∙ loop_end b2 4 out2
      ∙ finish4 b2 (y % 16 * 4) out2 (omega arith) (omega arith)
      ∙ append_assoc out1 _ _
      ∙ append_assoc out _ _

  encode_loop-eq-b64 :
      (xs : List ℕ) (b : ℕ) (out : List ℕ)
      → AreBytes xs
      → length out + length (b64 xs) + 1 < olen
      → encode_loop olen xs b 0 out ≡ out ++ b64 xs
  unfolding b64
  encode_loop-eq-b64 [] b out ok h = unfold encode_loop finish in sym (append-nil out)
  encode_loop-eq-b64 (x ∷ []) b out ok h = last_one x b out ok.0 (omega arith)
  encode_loop-eq-b64 (x ∷ y ∷ []) b out ok h = last_two x y b out ok.0 ok.1.0 (omega arith)
  encode_loop-eq-b64 (x ∷ y ∷ z ∷ xs) b out ok h =
      let four =
        char_of (x / 4)
        ∷ char_of (x % 4 * 16 + y / 16)
        ∷ char_of (y % 16 * 4 + z / 64)
        ∷ char_of (z % 64)
        ∷ [] in
      let (b', e) = three x y z b xs out ok.0 ok.1.0 ok.1.1.0 (omega arith) in
      e
      ∙ encode_loop-eq-b64 xs b' (out ++ four) ok.1.1.1 (omega (arith, length-append out four))
      ∙ append_assoc out four (b64 xs)

-- `ks_b64_encode` writes the encoding by groups of three bytes and a NUL.
pub encode-eq-b64 :
    (xs : List ℕ) (olen : ℕ)
    → AreBytes xs
    → olen < 2 ^ 31
    → length (b64 xs) + 1 < olen
    → encode xs olen ≡ b64 xs ++ 0 ∷ []
unfolding encode
encode-eq-b64 xs olen ok small h =
    ap (λ t. t ++ 0 ∷ []) (encode_loop-eq-b64 olen small xs 0 [] ok (omega arith))
