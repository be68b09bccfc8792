-- ===== src/Pool/Links.antt =====
-- The list of allocations in memory, and what an update of one block does to it.
use libks.Base.{
  Lacks, ◌⊎◌, inl, inr, ℕ, ◌≡◌, ◌≢◌, refl, sym, ap, ◌∙◌, Option, some, List, [], ◌∷◌, ◌++◌, arith,
  done,
}
use libks.Pool.{Block, Memory, put, deref}

-- The allocations in their order: each block at its address, its links left open.
abbrev pub Blocks : Type 0
Blocks = List (ℕ × Block)

abbrev pub linked : Block → Option ℕ → Option ℕ → Block
linked b p n = record b { prev = p; next = n }

-- The first address, or what is behind; the last address, or what is before.
abbrev pub start : Blocks → Option ℕ → Option ℕ
start [] n = n
start ((a, b) ∷ xs) n = some a

abbrev pub finish : Option ℕ → Blocks → Option ℕ
finish p [] = p
finish p ((a, b) ∷ xs) = finish (some a) xs

-- In memory the blocks are linked both ways, between `p` and `n`.
abbrev pub Chain : Memory → Option ℕ → Blocks → Option ℕ → Type 0
Chain m p [] n = Unit {0}
Chain m p ((a, b) ∷ xs) n = (m a ≡ some (linked b p (start xs n))) × Chain m (some a) xs n

abbrev pub addrs : Blocks → List ℕ
addrs [] = []
addrs ((a, b) ∷ xs) = a ∷ addrs xs

pub addrs-append : (xs ys : Blocks) → addrs (xs ++ ys) ≡ addrs xs ++ addrs ys
addrs-append [] ys = refl
addrs-append ((a, b) ∷ xs) ys = ap (λ l. a ∷ l) (addrs-append xs ys)

pub deref_at : (m : Memory) (a : ℕ) {b : Block} → m a ≡ some b → deref m a ≡ done b
unfolding deref
deref_at m a h = rw (deref, h)

pub put_self : (m : Memory) (a : ℕ) (b : Option Block) → put m a b a ≡ b
put_self m a b = ground arith

pub put_other : (m : Memory) (a x : ℕ) (b : Option Block) → x ≢ a → put m a b x ≡ m x
put_other m a x b h = ground arith

pub Chain-put :
    (m : Memory) (x : ℕ) (v : Option Block) (p : Option ℕ) (xs : Blocks) (n : Option ℕ)
    → Lacks (addrs xs) x
    → Chain m p xs n
    → Chain (put m x v) p xs n
Chain-put m x v p [] n l c = tt
Chain-put m x v p ((a, b) ∷ xs) n l c =
    (put_other m x a v l.0 ∙ c.0, Chain-put m x v (some a) xs n l.1 c.1)

pub start-append : (xs ys : Blocks) (n : Option ℕ) → start (xs ++ ys) n ≡ start xs (start ys n)
start-append [] ys n = refl
start-append ((a, b) ∷ xs) ys n = refl

pub finish-append : (p : Option ℕ) (xs ys : Blocks) → finish p (xs ++ ys) ≡ finish (finish p xs) ys
finish-append p [] ys = refl
finish-append p ((a, b) ∷ xs) ys = finish-append (some a) xs ys

pub Chain-append :
    (m : Memory) (p : Option ℕ) (xs ys : Blocks) (n : Option ℕ)
    → Chain m p xs (start ys n)
    → Chain m (finish p xs) ys n
    → Chain m p (xs ++ ys) n
Chain-append m p [] ys n c d = d
Chain-append m p ((a, b) ∷ xs) ys n c d = (
  c.0 ∙ ap (λ x. some (linked b p x)) (sym (start-append xs ys n)),
  Chain-append m (some a) xs ys n c.1 d,
)

pub Chain-split :
    (m : Memory) (p : Option ℕ) (xs ys : Blocks) (n : Option ℕ)
    → Chain m p (xs ++ ys) n
    → Chain m p xs (start ys n) × Chain m (finish p xs) ys n
Chain-split m p [] ys n c = (tt, c)
Chain-split m p ((a, b) ∷ xs) ys n c =
    let (d, e) = Chain-split m (some a) xs ys n c.1 in
    ((c.0 ∙ ap (λ x. some (linked b p x)) (start-append xs ys n), d), e)

-- The first block told of what is before it.
pub Chain-reprev :
    (m : Memory) (p p' : Option ℕ) (a : ℕ) (b : Block) (xs : Blocks) (n : Option ℕ)
    → Lacks (addrs xs) a
    → Chain m p ((a, b) ∷ xs) n
    → Chain (put m a (some (linked b p' (start xs n)))) p' ((a, b) ∷ xs) n
Chain-reprev m p p' a b xs n l c = (
  put_self m a (some (linked b p' (start xs n))),
  Chain-put m a (some (linked b p' (start xs n))) (some a) xs n l c.1,
)

-- The last block told of what is behind it.
pub Chain-renext :
    (m : Memory) (p : Option ℕ) (zs : Blocks) (q : ℕ) (b : Block) (n n' : Option ℕ)
    → Lacks (addrs zs) q
    → Chain m p (zs ++ (q, b) ∷ []) n
    → Chain (put m q (some (linked b (finish p zs) n'))) p (zs ++ (q, b) ∷ []) n'
Chain-renext m p zs q b n n' l c =
    let (d, e) = Chain-split m p zs ((q, b) ∷ []) n c in
    let v = some (linked b (finish p zs) n') in
    Chain-append (put m q v) p zs ((q, b) ∷ []) n' (Chain-put m q v p zs (some q) l d)
      (put_self m q v, tt)

-- A list is empty or has a last member.
pub snoc-cases :
    (xs : Blocks) → (xs ≡ []) ⊎ ((zs : Blocks) × (q : ℕ) × (b : Block) × (xs ≡ zs ++ (q, b) ∷ []))
snoc-cases [] = inl refl
snoc-cases ((a, b) ∷ xs) = elim (snoc-cases xs) [
  | inl e ↦ inr ([], a, b, ap (λ l. (a, b) ∷ l) e)
  | inr (zs, q, d, e) ↦ inr ((a, b) ∷ zs, q, d, ap (λ l. (a, b) ∷ l) e)
]
