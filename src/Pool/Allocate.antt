-- ===== src/Pool/Allocate.antt =====
-- `__ks_pool_alloc_ex` and `__ks_pool_calloc_ex`, on every branch.
use libks.Base.{
  Lacks, ℕ, zero, suc, ◌+◌, ◌*◌, ◌%◌, ◌^◌, ◌≡◌, ◌≤◌, ◌<◌, refl, ap, ◌∙◌, ◌⊎◌, inl, inr, false,
  Option-cases, Option, none, some, List, ◌∷◌, ◌++◌, arith, length, drop, replicate, leb, ◌==◌,
  done, abort, Bool-cases, add_size, length-append, length-replicate,
}
use libks.Pool.{
  Memory, Pool, Malloc, success, alloc_mem, new_block, has_magic, check_pool, fence_of, fence,
  count_alloc, prefix_size,
}
use libks.Pool.Calls.{alloc_ex, calloc_ex}
use libks.Pool.Links.{Blocks, addrs}
use libks.Pool.Unlink.{relisted}
use libks.Pool.Holds.{IsGood, Holds, checked_at, unused-Lacks, link_first-Fronted}

drop-zeros : (n : ℕ) (xs : List ℕ) → drop n (replicate n 0 ++ xs) ≡ xs
drop-zeros zero xs = refl
drop-zeros (suc n) xs = drop-zeros n xs

pub new_block-IsGood : (size : ℕ) (n : Option ℕ) → IsGood (new_block size n)
unfolding has_magic fence_of
new_block-IsGood size n = record {
  words = refl;
  fenced = ap fence_of (drop-zeros size fence);
  sized = length-append (replicate size 0) fence ∙ omega (arith, length-replicate {A = ℕ} size 0);
  used = omega arith;
}

-- The allocation of `size` bytes at `a` in front of the list: they are zero, and the rest of the
-- memory is as it was.
pub record Allocated (p : Pool) (xs : Blocks) (size a : ℕ) (p' : Pool) : Type 0 where
  pub holds : Holds p' ((a, new_block size none) ∷ xs)
  pub unused : p.mem a ≡ none
  pub user : p'.user_alloc ≡ add_size p.user_alloc size
  pub peak : p'.user_alloc ≤ p'.max_alloc
  pub others : (x : ℕ) → Lacks (a ∷ addrs xs) x → p'.mem x ≡ p.mem x

pub nonzero : (n : ℕ) → 0 < n → (n == 0) ≡ false
nonzero n h = ground arith

pub fitting : (n : ℕ) → n + 98 < 2 ^ 64 → leb (2 ^ 64) (prefix_size + n + 2) ≡ false
fitting n h = ground arith

sane_count :
    (p : Pool) (m : Memory) (zs : Blocks) (size : ℕ)
    → check_pool p ≡ success
    → check_pool (count_alloc (relisted p m zs) size) ≡ success
unfolding check_pool count_alloc
sane_count p m zs size h = h

module _ (c : Malloc) where
  alloc_mem-none :
      (p : Pool) (size : ℕ)
      → 0 < size
      → size + 98 < 2 ^ 64
      → c.malloc p.mem (prefix_size + size + 2) ≡ none
      → alloc_mem c p size ≡ abort
  unfolding alloc_mem
  alloc_mem-none p size pos fits m = rw (nonzero size pos, fitting size fits, m) refl

  alloc_mem-zero : (p : Pool) (size : ℕ) → size ≡ 0 → alloc_mem c p size ≡ abort
  unfolding alloc_mem
  alloc_mem-zero p size z = ap (alloc_mem c p) z

  alloc_mem-some :
      (p : Pool) (xs : Blocks) (size : ℕ) {a : ℕ}
      → Holds p xs
      → 0 < size
      → length xs + 1 < 2 ^ 64
      → size + 98 < 2 ^ 64
      → c.malloc p.mem (prefix_size + size + 2) ≡ some a
      → (p' : Pool) × (alloc_mem c p size ≡ done (a, p')) × Allocated p xs size a p'
  unfolding alloc_mem count_alloc
  alloc_mem-some p xs size {a} h pos room fits m =
      let u = c.malloc_unused p.mem (prefix_size + size + 2) a m in
      let r = link_first-Fronted p a (new_block size none) xs (h.listed) u in
      let p' = count_alloc (relisted p (r.mem) ((a, new_block size none) ∷ xs)) size in
      (
        p',
        rw (nonzero size pos, fitting size fits, m, r.result) refl,
        record {
          holds = record {
            listed = record {
              chain = r.chain;
              first_at = refl;
              last_at = refl;
              distinct = (unused-Lacks p.mem none xs none a (h.listed.chain) u, h.listed.distinct);
            };
            sane = sane_count p (r.mem) ((a, new_block size none) ∷ xs) size (h.sane);
            good = (new_block-IsGood size none, h.good);
            counted = omega (arith, h.counted);
            small = omega arith;
          };
          unused = u;
          user = refl;
          peak = ground arith;
          others = r.others;
        },
      )

  -- On a pool that is in order, `__ks_pool_alloc_ex` of a size that fits gives the address of a new
  -- block of zeros at the front of the list, counted and in order, or `malloc` failed and the
  -- assertion ends the program.
  pub alloc_ex_lem :
      (p : Pool) (xs : Blocks) (size : ℕ)
      → Holds p xs
      → 0 < size
      → length xs + 1 < 2 ^ 64
      → size + 98 < 2 ^ 64
      → ((c.malloc p.mem (prefix_size + size + 2) ≡ none) × (alloc_ex c p size ≡ abort))
        ⊎ ((a : ℕ) × (p' : Pool) × (alloc_ex c p size ≡ done (a, p')) × Allocated p xs size a p')
  unfolding alloc_ex
  alloc_ex_lem p xs size h pos room fits =
      elim (Option-cases (c.malloc p.mem (prefix_size + size + 2))) [
        | inl m ↦ inl (m, rw (nonzero size pos, h.sane, alloc_mem-none p size pos fits m) refl)
        | inr (a, m) ↦
            let (p', e, al) = alloc_mem-some p xs size h pos room fits m in
            inr (
              a,
              p',
              rw (nonzero size pos, h.sane, e, checked_at p'.mem a (al.holds.listed.chain.0) refl)
                  refl,
              al,
            )
      ]

  -- `__ks_pool_calloc_ex` of some elements of some size takes the product of the two in 64 bits.
  -- Where this product, the prefix and the fence fit 64 bits, there are three outcomes: the product
  -- wrapped around to 0, which fails the assertion; `malloc` fails, and so does the assertion; or
  -- the block of zeros that it gives has the size of the product, which is less than the elements
  -- need where the product wrapped around. The pool is in order and counts fewer than 2 ^ 64 - 1
  -- blocks.
  pub calloc_ex_lem :
      (p : Pool) (xs : Blocks) (n size : ℕ)
      → Holds p xs
      → 0 < n
      → 0 < size
      → length xs + 1 < 2 ^ 64
      → n * size % 2 ^ 64 + 98 < 2 ^ 64
      → let r = n * size % 2 ^ 64 in
        ((r ≡ 0) × (calloc_ex c p n size ≡ abort))
        ⊎ (((c.malloc p.mem (prefix_size + r + 2) ≡ none) × (calloc_ex c p n size ≡ abort))
            ⊎ ((a : ℕ) × (p' : Pool) × (calloc_ex c p n size ≡ done (a, p'))
                × Allocated p xs r a p'))
  unfolding calloc_ex
  calloc_ex_lem p xs n size h pos pos' room fits =
      let r = n * size % 2 ^ 64 in
      elim (Bool-cases (r == 0)) [
        | inl t ↦
            let z : r ≡ 0 = ground (arith, t) in
            inl (z, rw (nonzero n pos, nonzero size pos', h.sane) (alloc_mem-zero p r z))
        | inr t ↦
            let left : 0 < r = ground (arith, t) in
            inr (elim (Option-cases (c.malloc p.mem (prefix_size + r + 2))) [
              | inl m ↦ inl (
                m,
                rw (nonzero n pos, nonzero size pos', h.sane, alloc_mem-none p r left fits m) refl,
              )
              | inr (a, m) ↦
                  let (p', e, al) = alloc_mem-some p xs r h left room fits m in
                  inr (a, p', rw (nonzero n pos, nonzero size pos', h.sane, e) refl, al)
            ])
      ]
