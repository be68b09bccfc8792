-- ===== src/Pool/Unlink.antt =====
-- Taking one allocation out of the list, at its front, its end or between two others.
use mathlib.Core.Path.{subst}
use libks.Base.{
  Lacks, Lacks-join, length, Distinct, Lacks-append, Distinct-middle, ℕ, ◌≡◌, ◌≢◌, refl, sym, ap,
  ap₂, ◌∙◌, inl, inr, Option, none, some, [], ◌∷◌, ◌++◌, arith, append-nil, append_assoc, done,
}
use libks.Pool.{Block, Memory, Pool, put, unlink}
use libks.Pool.Links.{
  Blocks, linked, start, finish, Chain, addrs, addrs-append, deref_at, put_self, put_other,
  Chain-put, finish-append, Chain-append, Chain-split, Chain-reprev, Chain-renext, snoc-cases,
}

start_snoc :
    (zs : Blocks) (q : ℕ) (b : Block) (ys : Blocks)
    → start ((zs ++ (q, b) ∷ []) ++ ys) none ≡ start (zs ++ (q, b) ∷ []) none
start_snoc [] q b ys = refl
start_snoc ((a, c) ∷ zs) q b ys = refl

pub start_any :
    (zs : Blocks) (q : ℕ) (b : Block) (n n' : Option ℕ)
    → start (zs ++ (q, b) ∷ []) n ≡ start (zs ++ (q, b) ∷ []) n'
start_any [] q b n n' = refl
start_any ((a, c) ∷ zs) q b n n' = refl

pub finish_snoc :
    (p : Option ℕ) (zs : Blocks) (q : ℕ) (b : Block) → finish p (zs ++ (q, b) ∷ []) ≡ some q
finish_snoc p [] q b = refl
finish_snoc p ((a, c) ∷ zs) q b = finish_snoc (some a) zs q b

-- The list is in the pool's memory and the pool knows its ends.
pub record Listed (p : Pool) (xs : Blocks) : Type 0 where
  pub chain : Chain p.mem none xs none
  pub first_at : p.first ≡ start xs none
  pub last_at : p.last ≡ finish none xs
  pub distinct : Distinct (addrs xs)

-- The pool `p` with the memory `m` and the list `zs` in it.
abbrev pub relisted : Pool → Memory → Blocks → Pool
relisted p m zs = record p { mem = m; first = start zs none; last = finish none zs }

-- What is left once the block at `a` was taken out.
pub record Unlinked (p : Pool) (xs : Blocks) (a : ℕ) (b : Block) (ys : Blocks) : Type 0 where
  pub mem : Memory
  pub result :
      unlink p a (linked b (finish none xs) (start ys none)) ≡ done (relisted p mem (xs ++ ys))
  pub chain : Chain mem none (xs ++ ys) none
  pub gone : mem a ≡ none
  pub others : (x : ℕ) → Lacks (addrs (xs ++ (a, b) ∷ ys)) x → mem x ≡ p.mem x

-- The addresses around the block are others.
pub apart :
    (xs : Blocks) (a : ℕ) (b : Block) (ys : Blocks)
    → Distinct (addrs (xs ++ (a, b) ∷ ys))
    → Lacks (addrs xs) a × Lacks (addrs ys) a × Distinct (addrs xs ++ addrs ys)
apart xs a b ys d =
    let (l, e) =
      Distinct-middle (addrs xs) (addrs ys) a (subst Distinct (addrs-append xs ((a, b) ∷ ys)) d) in
    let (l1, l2) = Lacks-append (addrs xs) (addrs ys) a l in (l1, l2, e)

only-Unlinked : (p : Pool) (a : ℕ) (b : Block) → Listed p ((a, b) ∷ []) → Unlinked p [] a b []
unfolding unlink
only-Unlinked p a b l = record {
  mem = put p.mem a none;
  result = refl;
  chain = tt;
  gone = put_self p.mem a none;
  others = λ x h. put_other p.mem a x none (λ e. h.0 (sym e));
}

front-Unlinked :
    (p : Pool) (a : ℕ) (b : Block) (n : ℕ) (nb : Block) (ws : Blocks)
    → Listed p ((a, b) ∷ (n, nb) ∷ ws)
    → Unlinked p [] a b ((n, nb) ∷ ws)
unfolding unlink
front-Unlinked p a b n nb ws l =
    let v : Option Block = some (linked nb none (start ws none)) in
    let m = put p.mem n v in
    let last : p.last ≡ finish none ((n, nb) ∷ ws) = l.last_at in
    record {
      mem = put m a none;
      result =
          rw (deref_at p.mem n (l.chain.1.0))
            (ap (λ x. done (record p { mem = put m a none; first = some n; last = x })) last);
      chain =
          Chain-put m a none none ((n, nb) ∷ ws) none (l.distinct.0)
            (Chain-reprev p.mem (some a) none n nb ws none (l.distinct.1.0) (l.chain.1));
      gone = put_self m a none;
      others = λ x h.
          put_other m a x none (λ e. h.0 (sym e)) ∙ put_other p.mem n x v (λ e. h.1.0 (sym e));
    }

-- The pieces of the list around the block, where a block stands before it.
module _ (p : Pool) (zs : Blocks) (q : ℕ) (qb : Block) (a : ℕ) (b : Block) (ys : Blocks)
    (l : Listed p ((zs ++ (q, qb) ∷ []) ++ (a, b) ∷ ys)) where
  abbrev before : Blocks
  before = zs ++ (q, qb) ∷ []

  around :
      Chain p.mem none (zs ++ (q, qb) ∷ []) (some a)
      × Chain p.mem (finish none (zs ++ (q, qb) ∷ [])) ((a, b) ∷ ys) none
  around = Chain-split p.mem none (zs ++ (q, qb) ∷ []) ((a, b) ∷ ys) none (l.chain)

  apart_all :
      Lacks (addrs (zs ++ (q, qb) ∷ [])) a
      × Lacks (addrs ys) a
      × Distinct (addrs (zs ++ (q, qb) ∷ []) ++ addrs ys)
  apart_all = apart (zs ++ (q, qb) ∷ []) a b ys (l.distinct)

  -- The block before is in no other place.
  apart_before : Lacks (addrs zs) q × Lacks (addrs ys) q × Distinct (addrs zs ++ addrs ys)
  apart_before =
      let d = apart_all.2 in
      let e = subst (λ x. Distinct (x ++ addrs ys)) (addrs-append zs ((q, qb) ∷ [])) d in
      let f = subst Distinct (append_assoc (addrs zs) (q ∷ []) (addrs ys)) e in
      let (u, v) = Distinct-middle (addrs zs) (addrs ys) q f in
      let (u1, u2) = Lacks-append (addrs zs) (addrs ys) q u in (u1, u2, v)

  at_before : p.mem q ≡ some (linked qb (finish none zs) (some a))
  at_before = (Chain-split p.mem none zs ((q, qb) ∷ []) (some a) (around.0)).1.0

  first_same : p.first ≡ start (zs ++ (q, qb) ∷ []) none
  first_same = l.first_at ∙ start_snoc zs q qb ((a, b) ∷ ys)

  other_before :
      (x : ℕ)
      → Lacks (addrs ((zs ++ (q, qb) ∷ []) ++ (a, b) ∷ ys)) x
      → (q ≢ x) × (a ≢ x) × Lacks (addrs ys) x
  other_before x h =
      let k =
        Lacks-append (addrs (zs ++ (q, qb) ∷ [])) (a ∷ addrs ys) x
          (subst (λ n. Lacks n x) (addrs-append (zs ++ (q, qb) ∷ []) ((a, b) ∷ ys)) h) in
      let j =
        Lacks-append (addrs zs) (q ∷ []) x
          (subst (λ n. Lacks n x) (addrs-append zs ((q, qb) ∷ [])) k.0) in
      (j.1.0, k.1.0, k.1.1)

back-Unlinked :
    (p : Pool) (zs : Blocks) (q : ℕ) (qb : Block) (a : ℕ) (b : Block)
    → Listed p ((zs ++ (q, qb) ∷ []) ++ (a, b) ∷ [])
    → Unlinked p (zs ++ (q, qb) ∷ []) a b []
unfolding unlink
back-Unlinked p zs q qb a b l =
    let xs = zs ++ (q, qb) ∷ [] in
    let v : Option Block = some (linked qb (finish none zs) none) in
    let m = put p.mem q v in
    let u = other_before p zs q qb a b [] l in
    record {
      mem = put m a none;
      result =
          rw
            (
              finish_snoc none zs q qb,
              deref_at p.mem q (at_before p zs q qb a b [] l),
              append-nil xs,
            )
            (ap₂ (λ x y. done (record p { mem = put m a none; first = x; last = y }))
              (first_same p zs q qb a b [] l) (sym (finish_snoc none zs q qb)));
      chain =
          subst (λ x. Chain (put m a none) none x none) (sym (append-nil xs))
            (Chain-put m a none none xs none ((apart_all p zs q qb a b [] l).0) (
              Chain-renext p.mem none zs q qb (some a) none ((apart_before p zs q qb a b [] l).0)
                ((around p zs q qb a b [] l).0)));
      gone = put_self m a none;
      others = λ x h.
          put_other m a x none (λ e. (u x h).1 (sym e))
          ∙ put_other p.mem q x v (λ e. (u x h).0 (sym e));
    }

middle-Unlinked :
    (p : Pool) (zs : Blocks) (q : ℕ) (qb : Block) (a : ℕ) (b : Block) (n : ℕ) (nb : Block)
    (ws : Blocks)
    → Listed p ((zs ++ (q, qb) ∷ []) ++ (a, b) ∷ (n, nb) ∷ ws)
    → Unlinked p (zs ++ (q, qb) ∷ []) a b ((n, nb) ∷ ws)
unfolding unlink
middle-Unlinked p zs q qb a b n nb ws l =
    let xs = zs ++ (q, qb) ∷ [] in
    let ys : Blocks = (n, nb) ∷ ws in
    let (c, d) = around p zs q qb a b ys l in
    let (la, lb, lc) = apart_all p zs q qb a b ys l in
    let (ka, kb, kc) = apart_before p zs q qb a b ys l in
    let v : Option Block = some (linked qb (finish none zs) (some n)) in
    let m = put p.mem q v in
    let w : Option Block = some (linked nb (some q) (start ws none)) in
    let m' = put m n w in
    let u = other_before p zs q qb a b ys l in
    let (ln, dn) = Distinct-middle (addrs xs) (addrs ws) n lc in
    let (lx, lw) = Lacks-append (addrs xs) (addrs ws) n ln in
    let at_n : m n ≡ some (linked nb (some a) (start ws none)) =
      put_other p.mem q n v (kb.0) ∙ d.1.0 in
    let before_n =
      Chain-put m n w none xs (some n) lx
        (Chain-renext p.mem none zs q qb (some a) (some n) ka c) in
    let from_n =
      Chain-reprev m (some a) (some q) n nb ws none lw
        (Chain-put p.mem q v (some a) ys none kb (d.1)) in
    record {
      mem = put m' a none;
      result =
          rw
            (
              finish_snoc none zs q qb,
              deref_at p.mem q (at_before p zs q qb a b ys l),
              deref_at m n at_n,
            )
            (ap₂ (λ x y. done (record p { mem = put m' a none; first = x; last = y }))
              (first_same p zs q qb a b ys l ∙ sym (start_snoc zs q qb ys))
              (l.last_at ∙ finish-append none xs ((a, b) ∷ ys) ∙ sym (finish-append none xs ys)));
      chain =
          Chain-put m' a none none (xs ++ ys) none
            (subst (λ x. Lacks x a) (sym (addrs-append xs ys))
              (Lacks-join (addrs xs) (addrs ys) a la lb))
            (Chain-append m' none xs ys none before_n
              (subst (λ x. Chain m' x ys none) (sym (finish_snoc none zs q qb)) from_n));
      gone = put_self m' a none;
      others = λ x h.
          put_other m' a x none (λ e. (u x h).1 (sym e))
          ∙ put_other m n x w (λ e. (u x h).2.0 (sym e))
          ∙ put_other p.mem q x v (λ e. (u x h).0 (sym e));
    }

-- Whatever the place of the block, it leaves the list, and the rest of the list is as it was.
pub unlink-Unlinked :
    (p : Pool) (xs : Blocks) (a : ℕ) (b : Block) (ys : Blocks)
    → Listed p (xs ++ (a, b) ∷ ys)
    → Unlinked p xs a b ys
unlink-Unlinked p [] a b [] l = only-Unlinked p a b l
unlink-Unlinked p [] a b ((n, nb) ∷ ws) l = front-Unlinked p a b n nb ws l
unlink-Unlinked p ((c, cb) ∷ xs) a b [] l = elim (snoc-cases ((c, cb) ∷ xs)) [
  | inl e ↦ absurd (omega (arith, ap length e))
  | inr (zs, q, qb, e) ↦
      subst (λ x. Unlinked p x a b []) (sym e)
        (back-Unlinked p zs q qb a b (subst (λ x. Listed p (x ++ (a, b) ∷ [])) e l))
]
unlink-Unlinked p ((c, cb) ∷ xs) a b ((n, nb) ∷ ws) l = elim (snoc-cases ((c, cb) ∷ xs)) [
  | inl e ↦ absurd (omega (arith, ap length e))
  | inr (zs, q, qb, e) ↦
      subst (λ x. Unlinked p x a b ((n, nb) ∷ ws)) (sym e)
        (middle-Unlinked p zs q qb a b n nb ws
          (subst (λ x. Listed p (x ++ (a, b) ∷ (n, nb) ∷ ws)) e l))
]
