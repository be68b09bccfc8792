-- ===== src/Buffer/Write.antt =====
-- `ks_buffer_write` on a valid buffer whose limit leaves room: the bytes are appended, or the
-- allocation failed and nothing is lost.
use libks.Base.{
  ℕ, ◌+◌, ◌^◌, ◌≤◌, ◌<◌, ◌≡◌, refl, sym, ◌∙◌, ap, ◌⊎◌, inl, inr, true, false, Bool-cases,
  Option-cases, none, some, List, [], ◌∷◌, ◌++◌, arith, length, take, slice, overwrite,
  length-slice, length-overwrite, slice-overwrite, take-take, append-nil, ltb, Run, done,
  load_inside, store_inside, sub_size,
}
use mathlib.Core.Path.{subst}
use libks.Alloc.{Alloc}
use libks.Buffer.{
  Buffer, contents, wants_compact, compact, new_size, grow, append, grow_append, write_to, write,
}
use libks.Buffer.Valid.{IsValid}

-- The limit allows for `n` more bytes; a limit of 0 is none.
abbrev pub HasRoom : Buffer → ℕ → Type 0
HasRoom b n = (b.max_len ≡ 0) ⊎ (b.used + n ≤ b.max_len)

-- The sizes are in order, whatever block the buffer still names.
pub record IsSound (d : List ℕ) (b : Buffer) : Type 0 where
  pub sized : length d ≡ b.datalen
  pub inside : b.head + b.used ≤ b.actually_used
  pub bounded : b.actually_used ≤ b.datalen
  pub small : b.datalen < 2 ^ 63

-- `d1` and `b1` hold the bytes of `d` and `b`, and `n` more fit behind them, or there are none
-- before them.
record Compacted (n : ℕ) (d : List ℕ) (b : Buffer) (d1 : List ℕ) (b1 : Buffer) : Type 0 where
  pub sound : IsSound d1 b1
  pub kept : slice d1 b1.head b1.used ≡ slice d b.head b.used
  pub same_used : b1.used ≡ b.used
  same_datalen : b1.datalen ≡ b.datalen
  same_request : new_size b1 n ≡ new_size b n
  packed : (b1.actually_used + n ≤ b1.datalen) ⊎ ((b1.head ≡ 0) × (b1.actually_used ≡ b1.used))

wants_compact_iff :
    {d : List ℕ} {b : Buffer} (n : ℕ)
    → IsSound d b
    → HasRoom b n
    → n < 2 ^ 63
    → wants_compact b n ≡ ltb b.datalen (b.actually_used + n)
unfolding wants_compact
wants_compact_iff n s (inl r) h = ground arith
wants_compact_iff n s (inr r) h = ground arith

moved : List ℕ → Buffer → List ℕ
moved d b = overwrite d 0 (slice d b.head b.used)

packed : Buffer → Buffer
packed b = record b { head = 0; actually_used = b.used }

compact_move :
    {d : List ℕ} {b : Buffer} (n : ℕ)
    → IsSound d b
    → wants_compact b n ≡ true
    → compact d b n ≡ done (moved d b, packed b)
unfolding compact moved packed
compact_move {d} {b} n s w = rw (
  w,
  load_inside d b.head b.used (omega arith),
  store_inside d 0 (slice d b.head b.used)
      (omega (arith, length-slice d b.head b.used (omega arith))),
)

moved-Compacted :
    {d : List ℕ} {b : Buffer} (n : ℕ) → IsSound d b → Compacted n d b (moved d b) (packed b)
unfolding moved packed new_size
moved-Compacted {d} {b} n s =
    let old = slice d b.head b.used in
    let e : length old ≡ b.used = length-slice d b.head b.used (omega arith) in
    record {
      sound = record {
        sized = length-overwrite d 0 old ∙ s.sized;
        inside = omega arith;
        bounded = omega arith;
        small = s.small;
      };
      kept = slice-overwrite d 0 0 0 old b.used (omega arith) (omega arith) (omega arith);
      same_used = refl;
      same_datalen = refl;
      same_request = refl;
      packed = inr (refl, refl);
    }

pub compact_stay :
    (d : List ℕ) (b : Buffer) (n : ℕ) → wants_compact b n ≡ false → compact d b n ≡ done (d, b)
unfolding compact
compact_stay d b n w = rw w

compact_lem :
    {d : List ℕ} {b : Buffer} (n : ℕ)
    → IsSound d b
    → HasRoom b n
    → n < 2 ^ 63
    → (d1 : List ℕ) × (b1 : Buffer) × (compact d b n ≡ done (d1, b1)) × Compacted n d b d1 b1
compact_lem {d} {b} n s r h = elim (Bool-cases (wants_compact b n)) [
  | inl w ↦ (moved d b, packed b, compact_move n s w, moved-Compacted n s)
  | inr w ↦ (
    d,
    b,
    compact_stay d b n w,
    record {
      sound = s;
      kept = refl;
      same_used = refl;
      same_datalen = refl;
      same_request = refl;
      packed = inl (ground (arith, wants_compact_iff n s r h));
    },
  )
]

-- What the end of `ks_buffer_write` needs: `n` bytes fit behind those in use.
pub record Grown (n : ℕ) (d : List ℕ) (b : Buffer) (d2 : List ℕ) (b2 : Buffer) : Type 0 where
  pub sound : IsSound d2 b2
  pub kept : slice d2 b2.head b2.used ≡ slice d b.head b.used
  pub same_used : b2.used ≡ b.used
  pub fits : b2.actually_used + n ≤ b2.datalen

new_size-bounds :
    {d : List ℕ} {b : Buffer} (n : ℕ) → IsSound d b → n < 2 ^ 63 → b.datalen + n ≤ new_size b n
unfolding new_size
new_size-bounds n s h = ground arith

module _ (c : Alloc) where
  pub grow_stay :
      (d : List ℕ) (b : Buffer) (n : ℕ)
      → ltb (sub_size b.datalen b.used) n ≡ false
      → grow c d b n ≡ (some d, b)
  unfolding grow
  grow_stay d b n w = rw w

  grow_fail :
      (d : List ℕ) (b : Buffer) (n : ℕ)
      → ltb (sub_size b.datalen b.used) n ≡ true
      → c.realloc d (new_size b n) ≡ none
      → grow c d b n ≡ (none, record b { head = 0 })
  unfolding grow
  grow_fail d b n w e = rw (w, e)

  pub grow_done :
      (d : List ℕ) (b : Buffer) (n : ℕ) {d' : List ℕ}
      → ltb (sub_size b.datalen b.used) n ≡ true
      → c.realloc d (new_size b n) ≡ some d'
      → grow c d b n ≡ (some d', record b { head = 0; datalen = new_size b n })
  unfolding grow
  grow_done d b n w e = rw (w, e)

  take-realloc :
      {d : List ℕ} {b : Buffer} (n : ℕ) {d' : List ℕ}
      → IsSound d b
      → n < 2 ^ 63
      → c.realloc d (new_size b n) ≡ some d'
      → take b.used d' ≡ take b.used d
  take-realloc {d} {b} n {d'} s h e =
      sym (take-take d' b.used (length d) (omega arith))
      ∙ ap (take b.used)
          (c.realloc_keeps d (new_size b n) d' e (omega (arith, new_size-bounds n s h)))

  pub realloc-Grown :
      {d : List ℕ} {b : Buffer} (n : ℕ) {d' : List ℕ}
      → IsSound d b
      → n < 2 ^ 63
      → b.head ≡ 0
      → c.realloc d (new_size b n) ≡ some d'
      → Grown n d b d' (record b { head = 0; datalen = new_size b n })
  realloc-Grown {d} {b} n {d'} s h e0 e =
      let size = c.realloc_size d (new_size b n) d' e in
      let lim = c.realloc_small d (new_size b n) d' e in
      let enough = new_size-bounds n s h in
      record {
        sound = record { sized = size; inside = omega arith; bounded = omega arith; small = lim };
        kept = rw e0 (take-realloc n s h e);
        same_used = refl;
        fits = omega arith;
      }

  -- After the compaction: either `realloc` failed and `head` is 0, as it was, or there is space.
  grow_lem :
      {d0 d : List ℕ} {b0 b : Buffer} (n : ℕ)
      → n < 2 ^ 63
      → Compacted n d0 b0 d b
      → ((grow c d b n ≡ (none, record b { head = 0 }))
          × (b.head ≡ 0)
          × (b.datalen < b.used + n)
          × (c.realloc d (new_size b n) ≡ none))
        ⊎ ((d2 : List ℕ) × (b2 : Buffer) × (grow c d b n ≡ (some d2, b2)) × Grown n d b d2 b2)
  grow_lem {d} {b} n h k = elim (Bool-cases (ltb (sub_size b.datalen b.used) n)) [
    | inr w ↦ inr (
      d,
      b,
      grow_stay d b n w,
      record { sound = k.sound; kept = refl; same_used = refl; fits = ground arith },
    )
    | inl w ↦
        let p : (b.head ≡ 0) × (b.actually_used ≡ b.used) = ground arith in
        let short : b.datalen < b.used + n = ground (arith, w, k.sound) in
        elim (Option-cases (c.realloc d (new_size b n))) [
          | inl e ↦ inl (grow_fail d b n w e, p.0, short, e)
          | inr (d', e) ↦ inr (d', _, grow_done d b n w e, realloc-Grown n k.sound h p.0 e)
        ]
  ]

-- The buffer after the bytes `src` were put at the end.
pub extend : List ℕ → Buffer → List ℕ → Buffer
extend d b src = record b {
  block = some (overwrite d (b.head + b.used) src);
  used = b.used + length src;
  actually_used = b.actually_used + length src;
}

pub append-eq-extend :
    {d0 d : List ℕ} {b0 b : Buffer} (src : List ℕ)
    → Grown (length src) d0 b0 d b
    → append d b src ≡ done (b.used + length src, extend d b src)
unfolding append extend
append-eq-extend {d} {b} src g = ground (arith, store_inside d (b.head + b.used) src)

extend-IsValid :
    {d0 d : List ℕ} {b0 b : Buffer} (src : List ℕ)
    → Grown (length src) d0 b0 d b
    → IsValid (overwrite d (b.head + b.used) src) (extend d b src)
unfolding extend
extend-IsValid {d} {b} src g = record {
  holds = refl;
  sized = length-overwrite d (b.head + b.used) src ∙ g.sound.sized;
  inside = ground arith;
  bounded = ground arith;
  small = ground arith;
}

pub contents-extend :
    {d0 d : List ℕ} {b0 b : Buffer} (src : List ℕ)
    → Grown (length src) d0 b0 d b
    → contents (extend d b src) ≡ slice d0 b0.head b0.used ++ src
unfolding extend
contents-extend {d} {b} src g =
    slice-overwrite d b.head b.used _ src _ (ground arith) refl refl ∙ ap (λ t. t ++ src) g.kept

take-of_head : (d : List ℕ) (h u : ℕ) {xs : List ℕ} → h ≡ 0 → slice d h u ≡ xs → take u d ≡ xs
take-of_head d h u {xs} e p = subst (λ k. slice d k u ≡ xs) e p

contents-holds : {d : List ℕ} {b : Buffer} → IsValid d b → contents b ≡ slice d b.head b.used
contents-holds v = rw v.holds

pub IsValid-IsSound : {d : List ℕ} {b : Buffer} → IsValid d b → IsSound d b
IsValid-IsSound v = record {
  sized = v.sized;
  inside = v.inside;
  bounded = v.bounded;
  small = v.small;
}

module _ (c : Alloc) where
  -- The buffer holds the same bytes; those of `src` did not fit its block, and `realloc` gave none
  -- when this block was to grow for them.
  abbrev pub Refused : Buffer → List ℕ → ℕ × Buffer → Type 0
  Refused b src (w, b') =
      (w ≡ 0)
      × (contents b' ≡ contents b)
      × (b.datalen < b.used + length src)
      × ((d : List ℕ) × (b'.block ≡ some d) × (c.realloc d (new_size b (length src)) ≡ none))

  abbrev pub Appended : Buffer → List ℕ → ℕ × Buffer → Type 0
  Appended b src (w, b') = (w ≡ b.used + length src) × (contents b' ≡ contents b ++ src)

  abbrev Outcome : List ℕ → Buffer → List ℕ → Run (ℕ × Buffer) → Type 0
  Outcome d b src m =
      (d' : List ℕ) × (r : ℕ × Buffer) × (m ≡ done r)
      × IsValid d' r.1
      × (Appended b src r ⊎ Refused b src r)

  grow_append_fail :
      (d : List ℕ) (b : Buffer) (src : List ℕ) {b' : Buffer}
      → grow c d b (length src) ≡ (none, b')
      → grow_append c d b src ≡ done (0, record b' { block = some d })
  unfolding grow_append
  grow_append_fail d b src e = ground arith

  pub grow_append_done :
      (d : List ℕ) (b : Buffer) (src : List ℕ) {d' : List ℕ} {b' : Buffer}
      → grow c d b (length src) ≡ (some d', b')
      → grow_append c d b src ≡ append d' b' src
  unfolding grow_append
  grow_append_done d b src e = ground arith

  grow_append-Outcome :
      {d0 d : List ℕ} {b0 b : Buffer} (src : List ℕ)
      → IsValid d0 b0
      → length src < 2 ^ 63
      → Compacted (length src) d0 b0 d b
      → Outcome d0 b0 src (grow_append c d b src)
  grow_append-Outcome {d0} {d} {b0} {b} src v h k = elim (grow_lem c (length src) h k) [
    | inl (e, start, short, failed) ↦ (
      d,
      (0, record b { head = 0; block = some d }),
      grow_append_fail d b src e,
      record {
        holds = refl;
        sized = k.sound.sized;
        inside = ground arith;
        bounded = k.sound.bounded;
        small = k.sound.small;
      },
      inr (
        refl,
        take-of_head d b.head b.used start k.kept ∙ sym (contents-holds v),
        omega (arith, short, k.same_used, k.same_datalen),
        (d, refl, ap (c.realloc d) (sym k.same_request) ∙ failed),
      ),
    )
    | inr (d', b', e, g) ↦ (
      overwrite d' (b'.head + b'.used) src,
      (b'.used + length src, extend d' b' src),
      grow_append_done d b src e ∙ append-eq-extend src g,
      extend-IsValid src g,
      inl (
        ap (λ n. n + length src) (g.same_used ∙ k.same_used),
        contents-extend src g ∙ ap (λ t. t ++ src) (k.kept ∙ sym (contents-holds v)),
      ),
    )
  ]

  write_to-Outcome :
      {d : List ℕ} {b : Buffer} (src : List ℕ)
      → IsValid d b
      → HasRoom b (length src)
      → length src < 2 ^ 63
      → Outcome d b src (write_to c d b src)
  unfolding write_to
  write_to-Outcome src v room h =
      let (d1, b1, e, k) = compact_lem (length src) (IsValid-IsSound v) room h in
      rw e (grow_append-Outcome src v h k)

  write_null : {d : List ℕ} {b : Buffer} → b.block ≡ some d → write c b [] ≡ done (b.used, b)
  unfolding write
  write_null e = ground arith

  pub write-some :
      {d : List ℕ} (b : Buffer) (x : ℕ) (src : List ℕ)
      → b.block ≡ some d
      → write c b (x ∷ src) ≡ write_to c d b (x ∷ src)
  unfolding write
  write-some b x src e = ground arith

  -- On a valid buffer whose limit leaves room, `ks_buffer_write` of fewer than 2 ^ 63 bytes does not
  -- fault, and leaves the buffer valid. Either the bytes stand behind those that were there and the
  -- new count is returned, or they do not fit the block of the buffer and `realloc` gave none for
  -- this block and the size that it was to grow to: then 0 is returned and the contents are as
  -- before.
  pub write_lem :
      {d : List ℕ} {b : Buffer} (src : List ℕ)
      → IsValid d b
      → HasRoom b (length src)
      → length src < 2 ^ 63
      → (d' : List ℕ) × (r : ℕ × Buffer) × (write c b src ≡ done r)
        × IsValid d' r.1
        × (Appended b src r ⊎ Refused b src r)
  write_lem {d} {b} [] v room h =
      (d, (b.used, b), write_null v.holds, v, inl (omega arith, sym (append-nil (contents b))))
  write_lem {d} {b} (x ∷ src) v room h =
      rw (write-some b x src v.holds) (write_to-Outcome (x ∷ src) v room h)
