-- ===== src/Sb/Build.antt =====
-- A string builder of src/ks_sb.c from its creation on.
use libks.Base.{
  ℕ, zero, suc, ◌*◌, ◌^◌, ◌≡◌, ◌≤◌, ◌<◌, refl, sym, ap, ◌∙◌, inl, inr, Option-cases, Option, none,
  some, List, [], ◌∷◌, ◌++◌, append_assoc, append-nil, arith, length, take, replicate,
  length-replicate, ◌==◌, if◌then◌else◌, Run, done, abort, fault, ◌>>=◌,
}
use mathlib.Core.Path.{subst}
use libks.Sb.Memory.{Blocks}
use libks.Sb.{Sb, print_buf_size, create, sb_append, sb_length}
use libks.Sb.Outcome.{Holds, OrAborts, aborts, returns, OrAborts-bind, Grown, most_for}
use libks.Sb.Append.{append_lem}

abbrev pub Strings : Type 0
Strings = List (Option (List ℕ))

-- The strings in a row, less the NULL pointers.
pub text_of : Strings → List ℕ
text_of [] = []
text_of (none ∷ ss) = text_of ss
text_of (some s ∷ ss) = s ++ text_of ss

abbrev pub AreShort : Strings → Type 0
AreShort [] = Unit {0}
AreShort (none ∷ ss) = AreShort ss
AreShort (some s ∷ ss) = (length s < 2 ^ 62) × AreShort ss

-- The most bytes that a builder of `size` bytes takes for some strings.
pub most_of : ℕ → Strings → ℕ
most_of size [] = size
most_of size (none ∷ ss) = most_of size ss
most_of size (some s ∷ ss) = most_of (most_for size (length s)) ss

module _ (c : Blocks) where
  -- Strings are appended one by one.
  pub append_all : Strings → Sb → Run Sb
  unfolding sb_append
  append_all [] s = done s
  append_all (str ∷ strs) s = do (ret, r) ← sb_append c s str; append_all strs r

  -- What a builder of so many bytes has become.
  abbrev pub Built : List ℕ → ℕ → Sb → Type 0
  Built text most s = Holds s text × (s.size ≤ most)

  most_of-le : (m n : ℕ) (ss : Strings) → m ≤ n → m ≤ most_of n ss
  unfolding most_of
  most_of-le m n [] h = h
  most_of-le m n (none ∷ ss) h = most_of-le m n ss h
  most_of-le m n (some s ∷ ss) h = most_of-le m (most_for n (length s)) ss (omega (arith, h))

  append_all_lem :
      (strs : Strings) (s : Sb) (text : List ℕ) (size : ℕ)
      → AreShort strs
      → Holds s text
      → s.size ≤ size
      → OrAborts c
          (most_of size strs)
          (Built (text ++ text_of strs) (most_of size strs))
          (append_all strs s)
  unfolding append_all text_of most_of sb_append
  append_all_lem [] s text size short h below =
      returns s (subst (Holds s) (sym (append-nil text)) h, below)
  append_all_lem (none ∷ strs) s text size short h below =
      append_all_lem strs s text size short h below
  append_all_lem (some str ∷ strs) s text size short h below =
      let most = most_of (most_for size (length str)) strs in
      OrAborts-bind c (most_for s.size (length str)) most
        (Grown (text ++ str) (most_for s.size (length str)))
        (Built (text ++ (str ++ text_of strs)) most) (sb_append c s (some str))
        (λ p. append_all strs p.1)
        (most_of-le (most_for s.size (length str)) (most_for size (length str)) strs
          (omega (arith, below)))
        (append_lem c s text str h (short.0))
        (λ p g.
          subst (λ t. OrAborts c most (Built t most) (append_all strs p.1))
            (append_assoc text str (text_of strs))
            (append_all_lem strs (p.1) (text ++ str) (most_for size (length str)) (short.1) (g.1)
              (omega (arith, g.2, below))))

  take_zeros : (n : ℕ) → 0 < n → take {A = ℕ} 1 (replicate n 0) ≡ 0 ∷ []
  take_zeros zero h = absurd (omega (arith, h))
  take_zeros (suc n) h = refl

  abbrev pub first_size : ℕ → ℕ
  first_size preallocated = if preallocated == 0 then print_buf_size * 2 else preallocated

  first_positive : (preallocated : ℕ) → 0 < first_size preallocated
  first_positive preallocated = ground arith

  create_lem :
      (preallocated : ℕ)
      → OrAborts c
          (first_size preallocated)
          (Built [] (first_size preallocated))
          (create c preallocated)
  unfolding create
  create_lem preallocated =
      let n = first_size preallocated in
      elim (Option-cases (c.alloc n)) [
        | inl lacks ↦
            rw (create, lacks)
              (aborts (record {
                wanted = n;
                positive = first_positive preallocated;
                limited = omega arith;
                refused = inl lacks;
              }))
        | inr (d, given) ↦
            let zeros = c.alloc_zeros n d given in
            let law = c.alloc_small n d given in
            rw (create, given)
              (returns (record { data_of = some d; size = n; used = 1 })
                (
                  record {
                    block = d;
                    has_data = refl;
                    sized = ap length zeros ∙ length-replicate n 0;
                    small = law.1;
                    counted = refl;
                    within = omega (arith, law.0);
                    kept = ap (take 1) zeros ∙ take_zeros n (law.0);
                  },
                  omega arith,
                ))
      ]

  -- A string builder that is created and to which strings of fewer than 2 ^ 62 bytes are appended ends
  -- with the strings in a row and a NUL behind them, whatever its size was at first, in no more than
  -- `most_of` bytes, and `ks_sb_length` is their length; or the program ended since the pool had no
  -- block of so many bytes or fewer.
  pub built_lem :
      (preallocated : ℕ) (strs : Strings)
      → AreShort strs
      → OrAborts c
          (most_of (first_size preallocated) strs)
          (λ s.
            Holds s (text_of strs)
            × (s.size ≤ most_of (first_size preallocated) strs)
            × (sb_length s ≡ length (text_of strs)))
          (do s ← create c preallocated; append_all strs s)
  built_lem preallocated strs short =
      let n = first_size preallocated in
      let most = most_of n strs in
      OrAborts-bind c n most (Built [] n) _ (create c preallocated) (append_all strs)
        (most_of-le n n strs (omega arith)) (create_lem preallocated)
        (λ s b. counted most (append_all strs s) (append_all_lem strs s [] n short (b.0) (b.1)))
    where
      counted :
          {text : List ℕ} (most : ℕ) (r : Run Sb)
          → OrAborts c most (Built text most) r
          → OrAborts c most (λ s. Holds s text × (s.size ≤ most) × (sb_length s ≡ length text)) r
      counted most abort (aborts d) = aborts d
      counted most (done s) (returns t (h, b)) =
          returns t (h, b, omega (arith, h.counted, h.small, h.within))
      counted most fault q = elim q [ ]
