-- ===== src/Sb/Outcome.antt =====
-- What a string builder of src/ks_sb.c holds, and how its calls end.
use libks.Base.{
  ℕ, ◌+◌, ◌^◌, ◌≡◌, ◌≤◌, ◌<◌, ◌⊎◌, none, some, List, [], ◌∷◌, ◌++◌, arith, length, take, Run, done,
  abort, fault, ◌>>=◌,
}
use libks.Sb.Memory.{Blocks}
use libks.Sb.{Status, success, Sb, print_buf_size}

-- A text and a NUL stand at the front of the block.
pub record Holds (s : Sb) (text : List ℕ) : Type 0 where
  pub block : List ℕ
  pub has_data : s.data_of ≡ some block
  pub sized : length block ≡ s.size
  pub small : s.size < 2 ^ 63
  pub counted : s.used ≡ length text + 1
  pub within : s.used ≤ s.size
  pub kept : take s.used block ≡ text ++ 0 ∷ []

-- The pool had no block of some size, `most` bytes or fewer.
pub record Denied (c : Blocks) (most : ℕ) : Type 0 where
  pub wanted : ℕ
  pub positive : 0 < wanted
  pub limited : wanted ≤ most
  pub refused :
      (c.alloc wanted ≡ none) ⊎ ((o : List ℕ) × (length o ≤ wanted) × (c.resize o wanted ≡ none))

pub more-Denied : (c : Blocks) (n m : ℕ) → n ≤ m → Denied c n → Denied c m
more-Denied c n m h d = record {
  wanted = d.wanted;
  positive = d.positive;
  limited = omega (arith, h, d.limited);
  refused = d.refused;
}

-- The program ended for want of a block of `most` bytes or fewer, or `Q` holds of what is returned.
pub data OrAborts {ℓ} {A : Type ℓ} (c : Blocks) (most : ℕ) (Q : A → Type 0) : Run A → Type ℓ where
  aborts : Denied c most → OrAborts c most Q abort
  returns : (a : A) → Q a → OrAborts c most Q (done a)

pub OrAborts-bind {ℓ κ} :
    {A : Type ℓ} {B : Type κ} (c : Blocks) (n m : ℕ) (Q : A → Type 0) (R : B → Type 0) (r : Run A)
    (f : A → Run B)
    → n ≤ m
    → OrAborts c n Q r
    → ((a : A) → Q a → OrAborts c m R (f a))
    → OrAborts c m R (r >>= f)
OrAborts-bind c n m Q R abort f h (aborts d) g = aborts (more-Denied c n m h d)
OrAborts-bind c n m Q R (done a) f h (returns b q) g = g a q
OrAborts-bind c n m Q R fault f h q g = elim q [ ]

-- The text is as before, and there is room for so many bytes more.
abbrev pub Roomy : List ℕ → ℕ → ℕ → Status × Sb → Type 0
Roomy text len most (ret, r) =
    (ret ≡ success) × Holds r text × (r.used + len ≤ r.size) × (r.size ≤ most)

-- The text is there, in no more than so many bytes.
abbrev pub Grown : List ℕ → ℕ → Status × Sb → Type 0
Grown text most (ret, r) = (ret ≡ success) × Holds r text × (r.size ≤ most)

abbrev pub most_for : ℕ → ℕ → ℕ
most_for size len = size + len + print_buf_size
