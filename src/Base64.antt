-- ===== src/Base64.antt =====
-- src/ks_base64.c: base 64 with its two shift registers, and the output bounded by `olen`.
-- The counter `y` of the encoder, which has no effect, is left out.
pub mod Encode
pub mod Standard
pub mod RoundTrip
pub mod Bounds
mod Tests
use libks.Base.{
  ℕ, zero, suc, ◌+◌, ◌-◌, ◌*◌, ◌/◌, ◌%◌, ◌^◌, ◌≡◌, Bool, true, false, ◌||◌, Option, none, some,
  List, [], ◌∷◌, ◌++◌, length, ltb, leb, ◌==◌, if◌then◌else◌, Run, done, fault, codes, sub_size,
}

-- `ks_b64_table`
abbrev pub table : List ℕ
table = codes "ABCDEFGHIJKLMNOPQRSTUVWXYZabcdefghijklmnopqrstuvwxyz0123456789+/"

abbrev pub padding : ℕ
padding = 61

pub nth : List ℕ → ℕ → ℕ
nth [] i = 0
nth (x ∷ xs) zero = x
nth (x ∷ xs) (suc i) = nth xs i

pub char_of : ℕ → ℕ
unfolding nth
char_of i = nth table i

-- `bytes >= (int)olen - 1`; the conversion keeps 32 bits with a sign.
pub is_full : ℕ → ℕ → Bool
is_full olen bytes = let w = olen % 2 ^ 32 in leb (2 ^ 31) w || leb w (bytes + 1)

-- `while (l >= 6)`: whether the output is full, the bits left, and the output.
pub emit : ℕ → ℕ → ℕ → ℕ → List ℕ → Bool × ℕ × List ℕ
emit zero olen b l out = (false, l, out)
emit (suc f) olen b l out =
    let out' = out ++ char_of (b / 2 ^ (l - 6) % 64) ∷ [] in
    let rest = emit f olen b (l - 6) out' in
    if leb 6 l
    then (if is_full olen (length out') then (true, l - 6, out') else rest)
    else (false, l, out)

-- The loop that pads, from `l` bits on.
pub pad : ℕ → ℕ → ℕ → List ℕ → List ℕ
pad zero olen l out = out
pad (suc f) olen l out =
    let rest = pad f olen (l + 2) (out ++ padding ∷ []) in
    if ltb l 6 then (if is_full olen (length out) then out else rest) else out

pub finish : ℕ → ℕ → ℕ → List ℕ → List ℕ
finish olen b l out =
    if ltb 0 l then pad 6 olen l (out ++ char_of (b % 16 * 2 ^ (6 - l) % 64) ∷ []) else out

pub encode_loop : ℕ → List ℕ → ℕ → ℕ → List ℕ → List ℕ
encode_loop olen [] b l out = finish olen b l out
encode_loop olen (x ∷ xs) b l out =
    let b' = (b * 2 ^ 8 + x) % 2 ^ 32 in
    let (full, l', out') = emit (l + 8) olen b' (l + 8) out in
    let rest = encode_loop olen xs b' l' out' in if full then out' else rest

-- What `ks_b64_encode` writes at `out`, with the final NUL.
pub encode : List ℕ → ℕ → List ℕ
unfolding encode_loop emit finish pad is_full char_of
encode xs olen = encode_loop olen xs 0 0 [] ++ 0 ∷ []

pub index_of : List ℕ → ℕ → ℕ → Option ℕ
index_of [] i x = none
index_of (y ∷ ys) i x = if y == x then some i else index_of ys (i + 1) x

-- `l64`, with `none` for -1.
pub value_of : ℕ → Option ℕ
unfolding index_of
value_of x = index_of table 0 x

-- `while (l >= 8)`. The `int` `b` is its bit pattern; the conversion to `char` keeps 8 bits.
pub emit_byte : ℕ → ℕ → ℕ → ℕ → List ℕ → Bool × ℕ × List ℕ
emit_byte zero olen b l out = (false, l, out)
emit_byte (suc f) olen b l out =
    let out' = out ++ (b / 2 ^ (l - 8) % 256) ∷ [] in
    let rest = emit_byte f olen b (l - 8) out' in
    if leb 8 l
    then (if leb (sub_size olen 2) (length out') then (true, l - 8, out') else rest)
    else (false, l, out)

-- A byte above 127 is a negative `char`, and indexes before the table. An input with no NUL runs
-- off its end.
pub decode_loop : ℕ → List ℕ → ℕ → ℕ → List ℕ → Run (List ℕ)
decode_loop olen [] b l out = fault
decode_loop olen (x ∷ xs) b l out =
    if x == 0
    then done out
    else (if leb 128 x then fault else elim (value_of x) [
      | none ↦ decode_loop olen xs b l out
      | some c ↦
          let b' = (b * 2 ^ 6 + c) % 2 ^ 32 in
          let (full, l', out') = emit_byte (l + 6) olen b' (l + 6) out in
          let rest = decode_loop olen xs b' l' out' in if full then done out' else rest
    ])

-- What `ks_b64_decode` writes at `out`, with the final NUL; it returns the length of that.
pub decode : List ℕ → ℕ → Run (List ℕ)
unfolding decode_loop emit_byte value_of
decode xs olen = elim (decode_loop olen xs 0 0 []) [ done out ↦ done (out ++ 0 ∷ []) | r ↦ r ]
