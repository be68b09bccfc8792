-- ===== src/Sb/Tests.antt =====
-- The theorems about string builders at concrete strings.
use libks.Base.{
  ℕ, ◌-◌, ◌^◌, ◌≡◌, ◌≤◌, refl, sym, ap, ◌∙◌, Bool, true, false, ◌&&◌, Option, none, some, List, [],
  ◌∷◌, ◌++◌, arith, length, take, length-append, length-take, take-take, take-append, replicate,
  length-replicate, ltb, ◌>>=◌, codes,
}
use libks.Sb.Memory.{Blocks, Printer}
use libks.Sb.{Sb, create, sb_length, printf}
use libks.Sb.Outcome.{Holds, OrAborts, most_for}
use libks.Sb.Build.{Strings, text_of, most_of, append_all, first_size, built_lem}
use libks.Sb.Print.{Printed, printf_lem}

abbrev some_if : Bool → List ℕ → Option (List ℕ)
some_if true d = some d
some_if false d = none

abbrev value_or : List ℕ → Option (List ℕ) → List ℕ
value_or d none = d
value_or d (some e) = e

some_if-some : (b : Bool) (d e : List ℕ) → some_if b d ≡ some e → (b ≡ true) × (e ≡ d)
some_if-some true d e h = (refl, ap (value_or e) (sym h))
some_if-some false d e h = absurd (ground (arith, h))

abbrev zeros_behind : List ℕ → ℕ → List ℕ
zeros_behind o n = take n (o ++ replicate n 0)

length-zeros_behind : (o : List ℕ) (n : ℕ) → length (zeros_behind o n) ≡ n
length-zeros_behind o n = omega (
  arith,
  length-take n (o ++ replicate n 0),
  length-append o (replicate n 0),
  length-replicate {A = ℕ} n 0,
)

take-zeros_behind : (o : List ℕ) (n : ℕ) → length o ≤ n → take (length o) (zeros_behind o n) ≡ o
take-zeros_behind o n h =
    take-take (o ++ replicate n 0) (length o) n h ∙ take-append o (replicate n 0) (length o) refl

-- A pool of a mebibyte.
abbrev pool : Blocks
pool = record {
  alloc = λ n. some_if (ltb 0 n && ltb n (2 ^ 20)) (replicate n 0);
  resize = λ o n. some_if (ltb n (2 ^ 20)) (zeros_behind o n);
  alloc_zeros = λ n d e. (some_if-some _ (replicate n 0) d e).1;
  alloc_small = λ n d e.
      let b = (some_if-some (ltb 0 n && ltb n (2 ^ 20)) (replicate n 0) d e).0 in
      (ground (arith, b), ground (arith, b));
  resize_size = λ o n d e.
      ap length ((some_if-some (ltb n (2 ^ 20)) (zeros_behind o n) d e).1)
      ∙ length-zeros_behind o n;
  resize_small = λ o n d e.
      let b = (some_if-some (ltb n (2 ^ 20)) (zeros_behind o n) d e).0 in ground (arith, b);
  resize_keeps = λ o n d e h.
      ap (take (length o)) ((some_if-some (ltb n (2 ^ 20)) (zeros_behind o n) d e).1)
      ∙ take-zeros_behind o n h;
}

-- A builder of four bytes, which grows twice.
abbrev two_strings : Strings
two_strings = some (codes "hello, ") ∷ none ∷ some (codes "world") ∷ []

built_lem_example :
    OrAborts pool
      (most_of (first_size pool 4) two_strings)
      (λ s.
        Holds s (text_of two_strings)
        × (s.size ≤ most_of (first_size pool 4) two_strings)
        × (sb_length s ≡ length (text_of two_strings)))
      (do s ← create pool 4; append_all pool two_strings s)
built_lem_example = built_lem pool 4 two_strings (omega arith, (omega arith, tt))

abbrev digits : Printer
digits = record {
  vsnprintfv = λ n. take (n - 1) (codes "2024");
  vsnprintfv_fits = λ n h small. omega (arith, length-take (n - 1) (codes "2024"), h);
}

abbrev empty : Sb
empty = record { data_of = some (0 ∷ 0 ∷ []); size = 2; used = 1 }

empty-Holds : Holds empty []
empty-Holds = record {
  block = 0 ∷ 0 ∷ [];
  has_data = refl;
  sized = refl;
  small = omega arith;
  counted = refl;
  within = omega arith;
  kept = refl;
}

printf_lem_example : OrAborts pool (most_for 2 350) (Printed digits []) (printf pool empty digits)
printf_lem_example = printf_lem pool digits empty [] empty-Holds (omega arith)
