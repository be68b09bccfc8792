-- ===== src/Pool/Holds.antt =====
-- A pool that is in order, and the block that `malloc` gave put at its front.
use mathlib.Core.Path.{subst}
use libks.Base.{
  Lacks, ℕ, ◌+◌, ◌^◌, ◌≡◌, ◌<◌, ◌≢◌, refl, sym, ◌∙◌, true, Option, none, some, [], ◌∷◌, ◌++◌,
  length, done, drop,
}
use libks.Pool.{
  Block, Memory, Pool, success, put, link_first, has_magic, fence_of, check_pool, checked,
}
use libks.Pool.Links.{
  Blocks, linked, start, finish, Chain, addrs, deref_at, put_self, put_other, Chain-put,
  Chain-split, Chain-reprev,
}
use libks.Pool.Unlink.{Listed, relisted}

-- The words and the fence of a block are as they were written, and someone refers to it.
pub record IsGood (b : Block) : Type 0 where
  pub words : has_magic b ≡ true
  pub fenced : fence_of (drop b.size b.bytes) ≡ success
  pub sized : length b.bytes ≡ b.size + 2
  pub used : 0 < b.refs

abbrev pub AllGood : Blocks → Type 0
AllGood [] = Unit {0}
AllGood ((a, b) ∷ xs) = IsGood b × AllGood xs

abbrev pub total : Blocks → ℕ
total [] = 0
total ((a, b) ∷ xs) = b.size + total xs

-- The pool's list is `xs`, the links of its blocks left open, and each block is good.
pub record Holds (p : Pool) (xs : Blocks) : Type 0 where
  pub listed : Listed p xs
  pub sane : check_pool p ≡ success
  pub good : AllGood xs
  pub counted : p.alloc_c ≡ length xs
  pub small : length xs < 2 ^ 64

pub linked-IsGood : (b : Block) (p n : Option ℕ) → IsGood b → IsGood (linked b p n)
unfolding has_magic
linked-IsGood b p n g = record {
  words = g.words;
  fenced = g.fenced;
  sized = g.sized;
  used = g.used;
}

pub AllGood-append : (xs ys : Blocks) → AllGood xs → AllGood ys → AllGood (xs ++ ys)
AllGood-append [] ys g h = h
AllGood-append ((a, b) ∷ xs) ys g h = (g.0, AllGood-append xs ys (g.1) h)

pub AllGood-split : (xs ys : Blocks) → AllGood (xs ++ ys) → AllGood xs × AllGood ys
AllGood-split [] ys h = (tt, h)
AllGood-split ((a, b) ∷ xs) ys h = let (g, k) = AllGood-split xs ys (h.1) in ((h.0, g), k)

pub checked_at :
    (m : Memory) (a : ℕ) {b : Block} → m a ≡ some b → has_magic b ≡ true → checked m a ≡ done b
unfolding checked
checked_at m a h g = rw (deref_at m a h, g)

-- Where a block of a pool is, and that it is as it was written.
pub Holds-at :
    (p : Pool) (xs : Blocks) (a : ℕ) (b : Block) (ys : Blocks)
    → Holds p (xs ++ (a, b) ∷ ys)
    → (p.mem a ≡ some (linked b (finish none xs) (start ys none))) × IsGood b
Holds-at p xs a b ys h = (
  (Chain-split p.mem none xs ((a, b) ∷ ys) none (h.listed.chain)).1.0,
  (AllGood-split xs ((a, b) ∷ ys) (h.good)).1.0,
)

pub checked-Holds :
    (p : Pool) (xs : Blocks) (a : ℕ) (b : Block) (ys : Blocks)
    → Holds p (xs ++ (a, b) ∷ ys)
    → checked p.mem a ≡ done (linked b (finish none xs) (start ys none))
checked-Holds p xs a b ys h =
    let (e, g) = Holds-at p xs a b ys h in
    checked_at p.mem a e ((linked-IsGood b (finish none xs) (start ys none) g).words)

-- An address that is not in use is not in the list.
pub unused-Lacks :
    (m : Memory) (p : Option ℕ) (xs : Blocks) (n : Option ℕ) (a : ℕ)
    → Chain m p xs n
    → m a ≡ none
    → Lacks (addrs xs) a
unused-Lacks m p [] n a c u = tt
unused-Lacks m p ((x, b) ∷ xs) n a c u = (
  (λ e. some_ne_none (sym (subst (λ y. m y ≡ some (linked b p (start xs n))) e c.0) ∙ u)),
  unused-Lacks m (some x) xs n a c.1 u,
)
  where
    some_ne_none : some (linked b p (start xs n)) ≢ none
    some_ne_none e = cc e

finish-some : (f : ℕ) (ws : Blocks) → (z : ℕ) × (finish (some f) ws ≡ some z)
finish-some f [] = (f, refl)
finish-some f ((a, b) ∷ ws) = finish-some a ws

pub record Fronted (p : Pool) (a : ℕ) (b : Block) (xs : Blocks) : Type 0 where
  pub mem : Memory
  pub result : link_first p a (linked b none p.first) ≡ done (relisted p mem ((a, b) ∷ xs))
  pub chain : Chain mem none ((a, b) ∷ xs) none
  pub others : (x : ℕ) → Lacks (a ∷ addrs xs) x → mem x ≡ p.mem x

pub link_first-Fronted :
    (p : Pool) (a : ℕ) (b : Block) (xs : Blocks) → Listed p xs → p.mem a ≡ none → Fronted p a b xs
unfolding link_first
link_first-Fronted p a b [] l u =
    let w : Option Block = some (linked b none none) in
    record {
      mem = put p.mem a w;
      result = rw (l.first_at, l.last_at) refl;
      chain = (put_self p.mem a w, tt);
      others = λ x h. put_other p.mem a x w (λ e. h.0 (sym e));
    }
link_first-Fronted p a b ((f, fb) ∷ ws) l u =
    let w : Option Block = some (linked b none (some f)) in
    let m = put p.mem a w in
    let v : Option Block = some (linked fb (some a) (start ws none)) in
    let lacks = unused-Lacks p.mem none ((f, fb) ∷ ws) none a (l.chain) u in
    let at_f : m f ≡ some (linked fb none (start ws none)) =
      put_other p.mem a f w (lacks.0) ∙ l.chain.0 in
    let (z, e) = finish-some f ws in
    record {
      mem = put m f v;
      result = rw (l.first_at, l.last_at, e, deref_at m f at_f);
      chain = (
        put_other m f a v (λ q. lacks.0 (sym q)) ∙ put_self p.mem a w,
        Chain-reprev m none (some a) f fb ws none (l.distinct.0)
            (Chain-put p.mem a w none ((f, fb) ∷ ws) none lacks (l.chain)),
      );
      others =
          λ x h. put_other m f x v (λ q. h.1.0 (sym q)) ∙ put_other p.mem a x w (λ q. h.0 (sym q));
    }
