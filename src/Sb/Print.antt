-- ===== src/Sb/Print.antt =====
-- What `ks_sb_printf` adds to a string builder of src/ks_sb.c.
use libks.Base.{
  ℕ, ◌-◌, ◌^◌, ◌%◌, ◌≡◌, ◌<◌, refl, List, [], ◌∷◌, ◌++◌, arith, length, length-append, store_inside,
  sub_size,
}
use libks.Sb.Memory.{Blocks, Printer}
use libks.Sb.{
  Status, success, fail, Sb, print_buf_size, accommodate, write_printed, print_then, printf,
}
use libks.Sb.Outcome.{Holds, OrAborts, returns, OrAborts-bind, Roomy, most_for}
use libks.Sb.Append.{accommodate_lem, write-Holds}

-- What was printed with at least 351 bytes of room stands behind the text.
abbrev pub Printed : Printer → List ℕ → Status × Sb → Type 0
Printed p text (ret, r) =
    (ret ≡ success) × ((n : ℕ) × (print_buf_size < n) × Holds r (text ++ p.vsnprintfv n))

module _ (c : Blocks) (p : Printer) where
  printed :
      (used most : ℕ) (text : List ℕ) (r : Status × Sb)
      → used ≡ length text
      → most < 2 ^ 31
      → Roomy text print_buf_size most r
      → OrAborts c most (Printed p text) (print_then c used p r)
  unfolding print_then write_printed
  printed used most text (fail, r) e small (ret, h, room, below) = absurd (ground (arith, ret))
  printed used most text (success, r) e small (ret, h, room, below) =
      let n = r.size - length text in
      let is_n : sub_size r.size used % 2 ^ 32 ≡ n =
        omega (arith, e, h.counted, h.within, below, small) in
      let str = p.vsnprintfv n in
      let fits =
        p.vsnprintfv_fits n (omega (arith, h.counted, room)) (omega (arith, below, small)) in
      let at : sub_size r.used 1 ≡ length text = omega (arith, h.counted, h.within, h.small) in
      rw
        (
          print_then,
          write_printed,
          h.has_data,
          is_n,
          at,
          store_inside (h.block) (length text) (str ++ 0 ∷ [])
              (omega (arith, fits, length-append str (0 ∷ []), h.counted, h.sized, room)),
        )
        (returns (success, _)
          (
            refl,
            (
              n,
              omega (arith, h.counted, room),
              write-Holds c r text str h (omega (arith, fits, h.counted, room)),
            ),
          ))

  -- On a string builder of less than 2 ^ 31 bytes less 700, `ks_sb_printf` adds what the printing call
  -- writes into some room of more than 350 bytes behind the text, and a NUL; or the program ended since
  -- the pool had no block for it.
  pub printf_lem :
      (s : Sb) (text : List ℕ)
      → Holds s text
      → most_for s.size print_buf_size < 2 ^ 31
      → OrAborts c (most_for s.size print_buf_size) (Printed p text) (printf c s p)
  unfolding printf
  printf_lem s text h small =
      OrAborts-bind c (most_for s.size print_buf_size) (most_for s.size print_buf_size)
        (Roomy text print_buf_size (most_for s.size print_buf_size)) (Printed p text)
        (accommodate c s print_buf_size) (print_then c (sub_size s.used 1) p) (omega arith)
        (accommodate_lem c s text print_buf_size h (omega arith))
        (λ r q.
          printed (sub_size s.used 1) (most_for s.size print_buf_size) text r
            (omega (arith, h.counted, h.within, h.small)) small q)
