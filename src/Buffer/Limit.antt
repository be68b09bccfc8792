-- ===== src/Buffer/Limit.antt =====
-- `ks_buffer_write` past the limit of a buffer: what the code does where `max_len` leaves no room.
use libks.Base.{
  ℕ, ◌+◌, ◌^◌, ◌≤◌, ◌<◌, ◌≡◌, refl, false, ◌≢◌, List, ◌∷◌, ◌++◌, arith, length, take, done, fault,
  some, store_outside,
}
use libks.Alloc.{Alloc}
use libks.Buffer.{Buffer, contents, wants_compact, new_size, append, write_to, write}
use libks.Buffer.Valid.{IsValid}
use libks.Buffer.Write.{
  compact_stay, grow_stay, grow_done, grow_append_done, write-some, realloc-Grown, append-eq-extend,
  contents-extend, extend, IsSound, Grown,
}

-- The limit is set and `n` more bytes pass it.
abbrev pub IsOver : Buffer → ℕ → Type 0
IsOver b n = (b.max_len ≢ 0) × (b.max_len < b.used + n)

module _ {d : List ℕ} {b : Buffer} (n : ℕ) (v : IsValid d b) (over : IsOver b n)
    (h : n < 2 ^ 63) where
  over-stay : wants_compact b n ≡ false
  unfolding wants_compact
  over-stay = ground arith

rewound : (d : List ℕ) (b : Buffer) → IsValid d b → IsSound d (record b { head = 0 })
rewound d b v = record {
  sized = v.sized;
  inside = omega arith;
  bounded = v.bounded;
  small = v.small;
}

module _ (c : Alloc) where
  -- Over the limit, where the new bytes would fit the block only after the move that the limit
  -- forbids, `ks_buffer_write` writes past the end of the block.
  pub write_overrun :
      {d : List ℕ} {b : Buffer} (x : ℕ) (src : List ℕ)
      → IsValid d b
      → IsOver b (length (x ∷ src))
      → length (x ∷ src) < 2 ^ 63
      → b.used + length (x ∷ src) ≤ b.datalen
      → b.datalen < b.head + b.used + length (x ∷ src)
      → write c b (x ∷ src) ≡ fault
  unfolding write_to append
  write_overrun {d} {b} x src v over h fits past =
      let n = length (x ∷ src) in
      rw
        (
          write-some c b x src v.holds,
          compact_stay d b n (over-stay n v over h),
          grow_append_done c d b (x ∷ src) (grow_stay c d b n (ground arith)),
        )
        (ground (arith, store_outside d (b.head + b.used) (x ∷ src)))

  -- Over the limit, where the block has no space for the bytes in use and the new ones and `realloc`
  -- grants the new size, the block grows all the same and the unread bytes become those at the start
  -- of the block, whatever was read before: the limit does not hold, and the contents change.
  pub write_shift :
      {d : List ℕ} {b : Buffer} (x : ℕ) (src : List ℕ) {d' : List ℕ}
      → IsValid d b
      → IsOver b (length (x ∷ src))
      → length (x ∷ src) < 2 ^ 63
      → b.datalen < b.used + length (x ∷ src)
      → c.realloc d (new_size b (length (x ∷ src))) ≡ some d'
      → (b' : Buffer) × (write c b (x ∷ src) ≡ done (b.used + length (x ∷ src), b'))
        × (contents b' ≡ take b.used d ++ x ∷ src)
  unfolding write_to new_size
  write_shift {d} {b} x src {d'} v over h big got =
      let n = length (x ∷ src) in
      let b0 : Buffer = record b { head = 0 } in
      let g : Grown n d b0 d' (record b0 { datalen = new_size b n }) =
        realloc-Grown c n (rewound d b v) h refl got in
      (
        extend d' (record b0 { datalen = new_size b n }) (x ∷ src),
        rw
            (
              write-some c b x src v.holds,
              compact_stay d b n (over-stay n v over h),
              grow_append_done c d b (x ∷ src) (grow_done c d b n (ground arith) got),
            )
            (append-eq-extend (x ∷ src) g),
        contents-extend (x ∷ src) g,
      )
