-- ===== src/Base64/Bounds.antt =====
-- How far the encoder writes when the output is short.
use libks.Base.{
  ℕ, zero, suc, ◌+◌, ◌-◌, ◌*◌, ◌/◌, ◌%◌, ◌^◌, ◌≤◌, ◌<◌, ◌≡◌, refl, false, List, [], ◌∷◌, ◌++◌,
  arith, length, length-append,
}
use libks.Base64.{char_of, padding, is_full, emit, pad, finish, encode_loop, encode}

module _ (olen : ℕ) (small : olen < 2 ^ 31) (room : 2 ≤ olen) where
  not_full-lt : (n : ℕ) → is_full olen n ≡ false → n + 1 < olen
  unfolding is_full
  not_full-lt n h = ground arith

  emit-length :
      (f b l : ℕ) (out : List ℕ)
      → length out + 1 < olen
      → let (full, l', out') = emit f olen b l out in
        (length out' < olen) × (full ≡ false → length out' + 1 < olen)
  unfolding emit
  emit-length zero b l out h = (omega arith, λ _. h)
  emit-length (suc f) b l out h =
      let c = char_of (b / 2 ^ (l - 6) % 64) in
      ground (
        arith,
        length-append out (c ∷ []),
        not_full-lt (length (out ++ c ∷ [])),
        emit-length f b (l - 6) (out ++ c ∷ []),
      )

  pad-length : (f l : ℕ) (out : List ℕ) → length out < olen → length (pad f olen l out) < olen
  unfolding pad
  pad-length zero l out h = h
  pad-length (suc f) l out h = ground (
    arith,
    length-append out (padding ∷ []),
    not_full-lt (length out),
    pad-length f (l + 2) (out ++ padding ∷ []),
  )

  finish-length :
      (b l : ℕ) (out : List ℕ) → length out + 1 < olen → length (finish olen b l out) < olen
  unfolding finish
  finish-length b l out h =
      let c = char_of (b % 16 * 2 ^ (6 - l) % 64) in
      ground (arith, length-append out (c ∷ []), pad-length 6 l (out ++ c ∷ []))

  encode_loop-length :
      (xs : List ℕ) (b l : ℕ) (out : List ℕ)
      → length out + 1 < olen
      → length (encode_loop olen xs b l out) < olen
  unfolding encode_loop
  encode_loop-length [] b l out h = finish-length b l out h
  encode_loop-length (x ∷ xs) b l out h =
      let b' = (b * 2 ^ 8 + x) % 2 ^ 32 in
      let r = emit (l + 8) olen b' (l + 8) out in
      ground (arith, emit-length (l + 8) b' (l + 8) out h, encode_loop-length xs b' r.1 r.2)

-- `ks_b64_encode` writes no more than `olen` bytes, the NUL included, whatever the input, where
-- `olen` is at least 2 and less than 2 ^ 31.
pub encode_bounded :
    (xs : List ℕ) (olen : ℕ) → olen < 2 ^ 31 → 2 ≤ olen → length (encode xs olen) ≤ olen
unfolding encode
encode_bounded xs olen small room = omega (
  arith,
  encode_loop-length olen small room xs 0 0 [] (omega arith),
  length-append (encode_loop olen xs 0 0 []) (0 ∷ []),
)

-- With room for one byte only, a non-empty input makes `ks_b64_encode` write two.
pub encode_past_one : (x : ℕ) (xs : List ℕ) → length (encode (x ∷ xs) 1) ≡ 2
unfolding encode encode_loop emit is_full
encode_past_one x xs = refl
