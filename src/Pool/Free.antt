-- ===== src/Pool/Free.antt =====
-- `ks_pool_free_ex` and `ks_pool_ref_ex`: the count of references, and what the last one releases.
use mathlib.Core.Path.{subst}
use libks.Base.{
  Lacks, Distinct, ℕ, ◌+◌, ◌-◌, ◌^◌, ◌≡◌, ◌<◌, refl, ap, map, drop, if◌then◌else◌, sym, ◌∙◌, ◌⊎◌,
  inl, inr, true, false, Bool-cases, Option, none, some, [], ◌∷◌, ◌++◌, arith, ltb, lt→ltb, ltb→lt,
  done, add_size, sub_size, length-append,
}
use libks.Pool.{
  Event, Action, announce, teardown, destroy, event, Block, Pool, success, refs_exist, put,
  free_mem, free_block, has_magic, check_fence, fence_of, check_pool, cleanup_on_free,
}
use libks.Pool.Calls.{free_ex, ref_ex, after_free}
use libks.Pool.Links.{
  Blocks, linked, start, finish, addrs, addrs-append, put_self, Chain-put, Chain-append,
  Chain-split, start-append, finish-append,
}
use libks.Pool.Unlink.{relisted, Unlinked, apart, unlink-Unlinked}
use libks.Pool.Holds.{IsGood, AllGood-append, AllGood-split, Holds, checked-Holds}

-- Another count of references.
abbrev pub with_refs : Block → ℕ → Block
with_refs b n = record b { refs = n }

with_refs-IsGood : (b : Block) (n : ℕ) → IsGood b → 0 < n → IsGood (with_refs b n)
unfolding has_magic
with_refs-IsGood b n g pos = record {
  words = g.words;
  fenced = g.fenced;
  sized = g.sized;
  used = pos;
}

check_fence_sound :
    (b : Block) → fence_of (drop b.size b.bytes) ≡ success → check_fence b ≡ done success
unfolding check_fence
check_fence_sound b e = rw (check_fence, e) refl

module _ (p : Pool) (xs : Blocks) (a : ℕ) (b : Block) (ys : Blocks)
    (h : Holds p (xs ++ (a, b) ∷ ys)) where
  IsGood-at : IsGood b
  IsGood-at = (AllGood-split xs ((a, b) ∷ ys) (h.good)).1.0

  -- Another content of the block, in its place.
  pub replaced : Block → Pool
  replaced b' = record p { mem = put p.mem a (some (linked b' (finish none xs) (start ys none))) }

  addrs_same : (b' : Block) → addrs (xs ++ (a, b) ∷ ys) ≡ addrs (xs ++ (a, b') ∷ ys)
  addrs_same b' = addrs-append xs ((a, b) ∷ ys) ∙ sym (addrs-append xs ((a, b') ∷ ys))

  pub replaced-Holds : (b' : Block) → IsGood b' → Holds (replaced b') (xs ++ (a, b') ∷ ys)
  unfolding replaced check_pool
  replaced-Holds b' g =
      let v : Option Block = some (linked b' (finish none xs) (start ys none)) in
      let (lx, ly, d) = apart xs a b ys (h.listed.distinct) in
      let (c, e) = Chain-split p.mem none xs ((a, b) ∷ ys) none (h.listed.chain) in
      let (gx, gy) = AllGood-split xs ((a, b) ∷ ys) (h.good) in
      let n = length-append xs ((a, b) ∷ ys) in
      let n' = length-append xs ((a, b') ∷ ys) in
      record {
        listed = record {
          chain =
              Chain-append (put p.mem a v) none xs ((a, b') ∷ ys) none
                (Chain-put p.mem a v none xs (some a) lx c)
                (put_self p.mem a v, Chain-put p.mem a v (some a) ys none ly (e.1));
          first_at =
              h.listed.first_at
              ∙ start-append xs ((a, b) ∷ ys) none
              ∙ sym (start-append xs ((a, b') ∷ ys) none);
          last_at =
              h.listed.last_at
              ∙ finish-append none xs ((a, b) ∷ ys)
              ∙ sym (finish-append none xs ((a, b') ∷ ys));
          distinct = subst Distinct (addrs_same b') (h.listed.distinct);
        };
        sane = h.sane;
        good = AllGood-append xs ((a, b') ∷ ys) gx (g, gy.1);
        counted = omega (arith, h.counted, n, n');
        small = omega (arith, h.small, n, n');
      }

  -- The pool once the block was taken out.
  pub record Freed (p' : Pool) : Type 0 where
    pub holds : Holds p' (xs ++ ys)
    pub gone : p'.mem a ≡ none
    pub user : p'.user_alloc ≡ sub_size p.user_alloc b.size
    pub others : (x : ℕ) → Lacks (addrs (xs ++ (a, b) ∷ ys)) x → p'.mem x ≡ p.mem x

  freed : Unlinked p xs a b ys → Pool
  freed r =
      let q = relisted p (r.mem) (xs ++ ys) in
      record q { alloc_c = sub_size q.alloc_c 1; user_alloc = sub_size q.user_alloc b.size }

  freed-Freed : (r : Unlinked p xs a b ys) → Freed (freed r)
  unfolding freed check_pool
  freed-Freed r =
      let (gx, gy) = AllGood-split xs ((a, b) ∷ ys) (h.good) in
      let n = length-append xs ((a, b) ∷ ys) in
      let n' = length-append xs ys in
      record {
        holds = record {
          listed = record {
            chain = r.chain;
            first_at = refl;
            last_at = refl;
            distinct =
                subst Distinct (sym (addrs-append xs ys)) ((apart xs a b ys (h.listed.distinct)).2);
          };
          sane = h.sane;
          good = AllGood-append xs ys gx (gy.1);
          counted = omega (arith, h.counted, h.small, n, n');
          small = omega (arith, h.small, n, n');
        };
        gone = r.gone;
        user = refl;
        others = r.others;
      }

  free_mem_shared :
      1 < b.refs → free_mem p a ≡ done (refs_exist, [], replaced (with_refs b (b.refs - 1)))
  unfolding free_mem replaced
  free_mem_shared many =
      let t : ltb 0 b.refs ≡ true = lt→ltb 0 b.refs (omega arith) in
      let u : ltb 0 (b.refs - 1) ≡ true = lt→ltb 0 (b.refs - 1) (omega arith) in
      rw (checked-Holds p xs a b ys h, t, u) refl

  free_mem_last :
      (r : Unlinked p xs a b ys)
      → b.refs ≡ 1
      → free_mem p a ≡ done (success, cleanup_on_free p a b, freed r)
  unfolding free_mem free_block freed cleanup_on_free
  free_mem_last r one =
      let t : ltb 0 b.refs ≡ true = lt→ltb 0 b.refs (omega arith) in
      let u : ltb 0 (b.refs - 1) ≡ false = ground arith in
      let s = check_fence_sound (linked b (finish none xs) (start ys none)) (IsGood-at.fenced) in
      rw (checked-Holds p xs a b ys h, t, u, s, r.result) refl

  -- What the callback `f` is called with.
  abbrev pub called : ℕ → Action → Event
  called f what = record {
    callback = f;
    addr = a;
    arg = b.cleanup_arg;
    action = what;
    global = false;
  }

  -- The calls of the clean-up callback of the block, none while the pool itself is cleaned up.
  pub calls_on_free : cleanup_on_free p a b ≡ (
      if p.cleaning_up then [] else (elim b.cleanup_callback [
        | none ↦ []
        | some f ↦ map (called f) (announce ∷ teardown ∷ destroy ∷ [])
      ]))
  unfolding cleanup_on_free event
  calls_on_free = refl

  -- `ks_pool_free_ex` of a block that is shared gives up one reference: the status says so, the
  -- pointer stays and nothing is called. The last reference takes the block out of the list wherever
  -- it stands, clears the pointer and calls the clean-up callback of the block, where it has one and
  -- the pool itself is not being cleaned up, three times: for the announcement, the teardown and the
  -- destruction of the block, with its address and the argument that was set. The callback leaves
  -- the pool as it is.
  pub free_ex_lem :
      ((1 < b.refs)
        × (free_ex p (some a) ≡ done (refs_exist, some a, [], replaced (with_refs b (b.refs - 1))))
        × Holds (replaced (with_refs b (b.refs - 1))) (xs ++ (a, with_refs b (b.refs - 1)) ∷ ys))
      ⊎ ((b.refs ≡ 1)
          × ((p' : Pool) × (free_ex p (some a)
                ≡ done (
                  success,
                  none,
                  (if p.cleaning_up then [] else (elim b.cleanup_callback [
                    | none ↦ []
                    | some f ↦ map (called f) (announce ∷ teardown ∷ destroy ∷ [])
                  ])),
                  p',
                ))
              × Freed p'))
  unfolding free_ex after_free
  free_ex_lem = elim (Bool-cases (ltb 1 b.refs)) [
    | inl t ↦
        let many : 1 < b.refs = ltb→lt 1 b.refs t in
        inl (
          many,
          rw (checked-Holds p xs a b ys h, h.sane, free_mem_shared many) refl,
          replaced-Holds (with_refs b (b.refs - 1))
              (with_refs-IsGood b (b.refs - 1) IsGood-at (omega arith)),
        )
    | inr t ↦
        let one : b.refs ≡ 1 = ground (arith, IsGood-at.used) in
        let r = unlink-Unlinked p xs a b ys (h.listed) in
        inr (
          one,
          (
            freed r,
            (rw (checked-Holds p xs a b ys h, h.sane, free_mem_last r one) refl)
                ∙ ap (λ es. done (success, none, es, freed r)) calls_on_free,
            freed-Freed r,
          ),
        )
  ]

  pub ref_ex_lem :
      b.refs + 1 < 2 ^ 64
      → (ref_ex p a ≡ done (a, replaced (with_refs b (b.refs + 1))))
        × Holds (replaced (with_refs b (b.refs + 1))) (xs ++ (a, with_refs b (b.refs + 1)) ∷ ys)
  unfolding ref_ex replaced
  ref_ex_lem few =
      let n : add_size b.refs 1 ≡ b.refs + 1 = omega arith in
      (
        rw (checked-Holds p xs a b ys h, h.sane, n) refl,
        replaced-Holds (with_refs b (b.refs + 1))
            (with_refs-IsGood b (b.refs + 1) IsGood-at (omega arith)),
      )

-- `ks_pool_ref_ex` and then `ks_pool_free_ex` of a block that is there call nothing, and leave the
-- pool with the blocks and the counts of references that it had.
pub free_ex-ref_ex :
    (p : Pool) (xs : Blocks) (a : ℕ) (b : Block) (ys : Blocks)
    → Holds p (xs ++ (a, b) ∷ ys)
    → b.refs + 1 < 2 ^ 64
    → (p1 : Pool) × (p2 : Pool) × (ref_ex p a ≡ done (a, p1))
      × (free_ex p1 (some a) ≡ done (refs_exist, some a, [], p2))
      × Holds p2 (xs ++ (a, b) ∷ ys)
free_ex-ref_ex p xs a b ys h few =
    let (e, h1) = ref_ex_lem p xs a b ys h few in
    let b1 = with_refs b (b.refs + 1) in
    let p1 = replaced p xs a b ys h b1 in
    elim (free_ex_lem p1 xs a b1 ys h1) [
      | inl (many, f, h2) ↦
          let n : b.refs + 1 - 1 ≡ b.refs = omega arith in
          (
            p1,
            replaced p1 xs a b1 ys h1 (with_refs b1 (b1.refs - 1)),
            e,
            f,
            subst
                (λ k.
                  Holds (replaced p1 xs a b1 ys h1 (with_refs b1 (b1.refs - 1)))
                    (xs ++ (a, with_refs b k) ∷ ys))
                n h2,
          )
      | inr (one, r) ↦ absurd (omega (arith, (IsGood-at p xs a b ys h).used))
    ]
