-- ===== src/Pool/Resize.antt =====
-- `__ks_pool_resize_ex`, and the count of bytes that it leaves behind.
use mathlib.Core.Path.{subst}
use libks.Base.{
  Distinct-behind, Distinct-insert, Lacks-join, take-append_within, take-take, length-append,
  length-take, drop-append, Lacks, Distinct, Lacks-append, Distinct-middle, Distinct-append, lt→ltb,
  ℕ, ◌+◌, ◌-◌, ◌^◌, ◌≡◌, ◌≤◌, ◌<◌, refl, sym, ap, ◌∙◌, inl, inr, true, false, Option, none, some,
  List, [], ◌∷◌, ◌++◌, arith, length, ltb, ◌==◌, done, abort, take, sub_size,
}
use libks.Pool.{
  cleanup_on_free, Block, Memory, Pool, Malloc, success, put, has_magic, fence_of, check_pool,
  prefix_size, fence,
}
use libks.Pool.Calls.{free_ex, resize_ex, resize_block, resized, relink_prev, relink_next}
use libks.Pool.Links.{
  Blocks, linked, start, finish, Chain, addrs, deref_at, put_self, put_other, addrs-append,
  snoc-cases, Chain-put, Chain-split, Chain-append, Chain-renext, Chain-reprev, start-append,
  finish-append,
}
use libks.Pool.Unlink.{finish_snoc, start_any, apart}
use libks.Pool.Holds.{IsGood, Holds, AllGood-split, AllGood-append, checked-Holds, unused-Lacks}
use libks.Pool.Allocate.{nonzero, fitting}
use libks.Pool.Free.{calls_on_free, free_ex_lem}

-- The blocks before the one that moved, told of its new address.
record Before (p : Pool) (xs : Blocks) (d : ℕ) : Type 0 where
  mem : Memory
  result :
      relink_prev p d (finish none xs) ≡ done (record p { mem = mem; first = start xs (some d) })
  chain : Chain mem none xs (some d)
  others : (x : ℕ) → Lacks (addrs xs) x → mem x ≡ p.mem x

relink_prev-Before :
    (p : Pool) (xs : Blocks) (a d : ℕ)
    → Chain p.mem none xs (some a)
    → p.first ≡ start xs (some a)
    → Distinct (addrs xs)
    → Before p xs d
unfolding relink_prev
relink_prev-Before p xs a d c first dis = elim (snoc-cases xs) [
  | inl e ↦
      subst (λ x. Before p x d) (sym e)
        (record { mem = p.mem; result = refl; chain = tt; others = λ x h. refl })
  | inr (zs, q, qb, e) ↦
      subst (λ x. Before p x d) (sym e)
        (go zs q qb (subst (λ x. Chain p.mem none x (some a)) e c)
          (first ∙ ap (λ x. start x (some a)) e) (subst (λ x. Distinct (addrs x)) e dis))
]
  where
    go :
        (zs : Blocks) (q : ℕ) (qb : Block)
        → Chain p.mem none (zs ++ (q, qb) ∷ []) (some a)
        → p.first ≡ start (zs ++ (q, qb) ∷ []) (some a)
        → Distinct (addrs (zs ++ (q, qb) ∷ []))
        → Before p (zs ++ (q, qb) ∷ []) d
    go zs q qb c first dis =
        let v : Option Block = some (linked qb (finish none zs) (some d)) in
        let (l, k) =
          Distinct-middle (addrs zs) [] q (subst Distinct (addrs-append zs ((q, qb) ∷ [])) dis) in
        let lz = (Lacks-append (addrs zs) [] q l).0 in
        let at_q = (Chain-split p.mem none zs ((q, qb) ∷ []) (some a) c).1.0 in
        record {
          mem = put p.mem q v;
          result =
              rw (finish_snoc none zs q qb, deref_at p.mem q at_q)
                (ap (λ x. done (record p { mem = put p.mem q v; first = x }))
                  (first ∙ start_any zs q qb (some a) (some d)));
          chain = Chain-renext p.mem none zs q qb (some a) (some d) lz c;
          others = λ x h. put_other p.mem q x v (λ e.
              (Lacks-append (addrs zs) (q ∷ []) x
                  (subst (λ n. Lacks n x) (addrs-append zs ((q, qb) ∷ [])) h)).1.0
                (sym e));
        }

-- The blocks behind the one that moved, likewise.
record Behind (p : Pool) (ys : Blocks) (d : ℕ) : Type 0 where
  mem : Memory
  result :
      relink_next p d (start ys none) ≡ done (record p { mem = mem; last = finish (some d) ys })
  chain : Chain mem (some d) ys none
  others : (x : ℕ) → Lacks (addrs ys) x → mem x ≡ p.mem x

relink_next-Behind :
    (p : Pool) (ys : Blocks) (a d : ℕ)
    → Chain p.mem (some a) ys none
    → p.last ≡ finish (some a) ys
    → Distinct (addrs ys)
    → Behind p ys d
unfolding relink_next
relink_next-Behind p [] a d c last dis = record {
  mem = p.mem;
  result = refl;
  chain = tt;
  others = λ x h. refl;
}
relink_next-Behind p ((n, nb) ∷ ws) a d c last dis =
    let v : Option Block = some (linked nb (some d) (start ws none)) in
    record {
      mem = put p.mem n v;
      result =
          rw (deref_at p.mem n (c.0))
            (ap (λ x. done (record p { mem = put p.mem n v; last = x })) last);
      chain = Chain-reprev p.mem (some a) (some d) n nb ws none (dis.0) c;
      others = λ x h. put_other p.mem n x v (λ e. h.0 (sym e));
    }

-- Blocks elsewhere do not notice.
Chain-others :
    (m m' : Memory) (p : Option ℕ) (ns : List ℕ) (ys : Blocks) (n : Option ℕ)
    → Distinct (ns ++ addrs ys)
    → ((x : ℕ) → Lacks ns x → m' x ≡ m x)
    → Chain m p ys n
    → Chain m' p ys n
Chain-others m m' p ns [] n d o c = tt
Chain-others m m' p ns ((a, b) ∷ ys) n d o c =
    let (l, e) = Distinct-middle ns (addrs ys) a d in
    (o a ((Lacks-append ns (addrs ys) a l).0) ∙ c.0, Chain-others m m' (some a) ns ys n e o (c.1))

Chain-others_before :
    (m m' : Memory) (p : Option ℕ) (xs : Blocks) (ns : List ℕ) (n : Option ℕ)
    → Distinct (addrs xs ++ ns)
    → ((x : ℕ) → Lacks ns x → m' x ≡ m x)
    → Chain m p xs n
    → Chain m' p xs n
Chain-others_before m m' p [] ns n d o c = tt
Chain-others_before m m' p ((a, b) ∷ xs) ns n d o c = (
  o a ((Lacks-append (addrs xs) ns a (d.0)).1) ∙ c.0,
  Chain-others_before m m' (some a) xs ns n (d.1) o (c.1),
)

module _ (c : Malloc) (m : Memory) (a : ℕ) (b : Block) (size : ℕ) where
  body : List ℕ
  body = b.bytes ++ c.added m a (size - (b.size + 2))

  length-body : length b.bytes ≡ b.size + 2 → size ≤ length body
  unfolding body
  length-body h = omega (
    arith,
    length-append b.bytes (c.added m a (size - (b.size + 2))),
    c.length-added m a (size - (b.size + 2)),
  )

  resized-IsGood : IsGood b → IsGood (resized c m a b size)
  unfolding resized has_magic fence_of body
  resized-IsGood g =
      let l : length (take size body) ≡ size =
        length-take size body ∙ omega (arith, length-body (g.sized)) in
      record {
        words = g.words;
        fenced = ap fence_of (drop-append (take size body) fence size (sym l));
        sized = length-append (take size body) fence ∙ omega (arith, l);
        used = g.used;
      }

  -- The bytes that both sizes have are kept.
  pub resized_keeps :
      (n : ℕ)
      → length b.bytes ≡ b.size + 2
      → n ≤ size
      → n ≤ b.size
      → take n (resized c m a b size).bytes ≡ take n b.bytes
  unfolding resized body
  resized_keeps n l small small' =
      let k : length (take size body) ≡ size =
        length-take size body ∙ omega (arith, length-body l) in
      take-append_within (take size body) fence n (omega arith)
      ∙ take-take body n size small
      ∙ take-append_within b.bytes (c.added m a (size - (b.size + 2))) n (omega arith)

module _ (c : Malloc) (p : Pool) (xs : Blocks) (a : ℕ) (b : Block) (ys : Blocks)
    (h : Holds p (xs ++ (a, b) ∷ ys)) where
  -- A block that is shared cannot be resized, and the call says so by a failed assertion.
  pub resize_ex_shared : (size : ℕ) → 0 < size → 1 < b.refs → resize_ex c p a size ≡ abort
  unfolding resize_ex resize_block
  resize_ex_shared size pos many =
      let t : ltb 1 b.refs ≡ true = lt→ltb 1 b.refs many in
      rw (nonzero size pos, checked-Holds p xs a b ys h, h.sane, t) refl

  -- Where the new address is not among the others.
  new_Lacks :
      {d size : ℕ} → c.realloc p.mem a size ≡ some d → Lacks (addrs xs) d × Lacks (addrs ys) d
  new_Lacks {d} {size} e =
      let (lx, ly, k) = apart xs a b ys (h.listed.distinct) in
      let (u, v) = Chain-split p.mem none xs ((a, b) ∷ ys) none (h.listed.chain) in
      elim (c.realloc_unused p.mem a size d e) [
        | inl same ↦ (
          subst (λ x. Lacks (addrs xs) x) (sym same) lx,
          subst (λ x. Lacks (addrs ys) x) (sym same) ly,
        )
        | inr unused ↦ (
          unused-Lacks p.mem none xs (some a) d u unused,
          unused-Lacks p.mem (some a) ys none d (v.1) unused,
        )
      ]

  resize_ex_block :
      (size : ℕ)
      → 0 < size
      → resize_ex c p a size ≡ resize_block c p a (linked b (finish none xs) (start ys none)) size
  unfolding resize_ex
  resize_ex_block size pos = rw (nonzero size pos, checked-Holds p xs a b ys h, h.sane) refl

  -- What a resize that gave the address `d` leaves.
  pub record Resized (size d : ℕ) (p' : Pool) : Type 0 where
    pub holds : Holds p' (xs ++ (d, resized c p.mem a b size) ∷ ys)
    pub user : p'.user_alloc ≡ p.user_alloc

  -- The block of the last reference gets a new size at the address that `realloc` gives, and keeps
  -- its place in the list; the count of the user's bytes stays as it was.
  pub resize_ex_moves :
      (size d : ℕ)
      → b.refs ≡ 1
      → 0 < size
      → (size == b.size) ≡ false
      → size + 98 < 2 ^ 64
      → c.realloc p.mem a (prefix_size + size + 2) ≡ some d
      → (p' : Pool) × (resize_ex c p a size ≡ done (some d, p')) × Resized size d p'
  unfolding resize_block check_pool
  resize_ex_moves size d one pos other fits r =
      let (ld, kd) = new_Lacks r in
      let (lx, ly, dis) = apart xs a b ys (h.listed.distinct) in
      let (u, v) = Chain-split p.mem none xs ((a, b) ∷ ys) none (h.listed.chain) in
      let b' = resized c p.mem a b size in
      let w : Option Block = some (linked b' (finish none xs) (start ys none)) in
      let m0 = put p.mem a none in
      let p0 = record p { mem = put m0 d w } in
      let first = h.listed.first_at ∙ start-append xs ((a, b) ∷ ys) none in
      let last = h.listed.last_at ∙ finish-append none xs ((a, b) ∷ ys) in
      let s =
        relink_prev-Before p0 xs a d
          (Chain-put m0 d w none xs (some a) ld (Chain-put p.mem a none none xs (some a) lx u))
          first (Distinct-append (addrs xs) (addrs ys) dis) in
      let p1 = record p0 { mem = s.mem; first = start xs (some d) } in
      let t =
        relink_next-Behind p1 ys a d
          (Chain-others (put m0 d w) s.mem (some a) (addrs xs) ys none dis (s.others) (
            Chain-put m0 d w (some a) ys none kd
              (Chain-put p.mem a none (some a) ys none ly (v.1))))
          last (Distinct-behind (addrs xs) (addrs ys) dis) in
      let (gx, gy) = AllGood-split xs ((a, b) ∷ ys) (h.good) in
      let n = length-append xs ((a, b) ∷ ys) in
      let n' = length-append xs ((d, b') ∷ ys) in
      let single : ltb 1 b.refs ≡ false = ground arith in
      (
        record p1 { mem = t.mem; last = finish (some d) ys },
        rw (resize_ex_block size pos, single, other, fitting size fits, r, s.result, t.result) refl,
        record {
          holds = record {
            listed = record {
              chain =
                  Chain-append t.mem none xs ((d, b') ∷ ys) none
                    (Chain-others_before s.mem t.mem none xs (addrs ys) (some d) dis (t.others)
                      (s.chain))
                    (t.others d kd ∙ s.others d ld ∙ put_self m0 d w, t.chain);
              first_at = sym (start-append xs ((d, b') ∷ ys) none);
              last_at = sym (finish-append none xs ((d, b') ∷ ys));
              distinct = subst Distinct (sym (addrs-append xs ((d, b') ∷ ys))) (
                  Distinct-insert (addrs xs) (addrs ys) d (Lacks-join (addrs xs) (addrs ys) d ld kd)
                    dis);
            };
            sane = h.sane;
            good =
                AllGood-append xs ((d, b') ∷ ys) gx (resized-IsGood c p.mem a b size (gy.0), gy.1);
            counted = omega (arith, h.counted, n, n');
            small = omega (arith, h.small, n, n');
          };
          user = refl;
        },
      )

  -- A block that was resized and then freed takes its new size off the count of the user's bytes,
  -- which had its old size added: the count is wrong from there on.
  pub resize_ex-free_ex :
      (size d : ℕ)
      → b.refs ≡ 1
      → 0 < size
      → (size == b.size) ≡ false
      → size + 98 < 2 ^ 64
      → c.realloc p.mem a (prefix_size + size + 2) ≡ some d
      → (p1 : Pool) × (p2 : Pool) × (resize_ex c p a size ≡ done (some d, p1))
        × (free_ex p1 (some d)
            ≡ done (success, none, cleanup_on_free p1 d (resized c p.mem a b size), p2))
        × Holds p2 (xs ++ ys)
        × (p2.user_alloc ≡ sub_size p.user_alloc size)
  unfolding resized
  resize_ex-free_ex size d one pos other fits r =
      let (p1, e, k) = resize_ex_moves size d one pos other fits r in
      let b' = resized c p.mem a b size in
      elim (free_ex_lem p1 xs d b' ys (k.holds)) [
        | inl (many, f, k2) ↦ absurd (omega arith)
        | inr (single, (p2, f, q)) ↦ (
          p1,
          p2,
          e,
          f ∙ ap (λ es. done (success, none, es, p2)) (sym (calls_on_free p1 xs d b' ys (k.holds))),
          q.holds,
          q.user ∙ ap (λ x. sub_size x size) (k.user),
        )
      ]
