-- ===== src/Pool/Clear.antt =====
-- `ks_pool_clear`: the three passes over the list, and the release of every block.
use libks.Base.{
  Lacks, Distinct, ℕ, zero, suc, ◌≡◌, ◌≤◌, refl, sym, ap, ◌∙◌, true, Bool-cases, inl, inr, Option,
  none, some, List, [], ◌∷◌, ◌++◌, arith, length, if◌then◌else◌, done,
}
use libks.Pool.{Memory, Pool, Action, announce, teardown, destroy, Event, event, put}
use libks.Pool.Calls.{pass, cleanup_all, free_from, clear}
use libks.Pool.Links.{Blocks, start, Chain, addrs, deref_at, put_self, put_other, Chain-put}
use libks.Pool.Holds.{Holds}

-- The calls that one pass over the blocks makes.
unfoldable pub calls : Action → Blocks → List Event
calls action [] = []
calls action ((a, b) ∷ xs) = elim b.cleanup_callback [
  | none ↦ calls action xs
  | some g ↦ event g a b action true ∷ calls action xs
]

pass_lem :
    (f : ℕ) (m : Memory) (p : Option ℕ) (xs : Blocks) (action : Action)
    → Chain m p xs none
    → length xs ≤ f
    → pass f m (start xs none) action ≡ done (calls action xs)
unfolding pass calls event
pass_lem f m p [] action c enough = refl
pass_lem zero m p ((a, b) ∷ xs) action c enough = absurd (omega arith)
pass_lem (suc f) m p ((a, b) ∷ xs) action c enough =
    rw (deref_at m a (c.0), pass_lem f m (some a) xs action (c.1) (omega arith)) refl

abbrev pub AllGone : Memory → Blocks → Type 0
AllGone m [] = Unit {0}
AllGone m ((a, b) ∷ xs) = (m a ≡ none) × AllGone m xs

-- None of the blocks is left, and the rest of the memory is as it was.
pub record Cleared (m : Memory) (xs : Blocks) (m' : Memory) : Type 0 where
  pub gone : AllGone m' xs
  pub others : (x : ℕ) → Lacks (addrs xs) x → m' x ≡ m x

free_from_lem :
    (f : ℕ) (m : Memory) (p : Option ℕ) (xs : Blocks)
    → Chain m p xs none
    → Distinct (addrs xs)
    → length xs ≤ f
    → (m' : Memory) × (free_from f m (start xs none) ≡ done m') × Cleared m xs m'
unfolding free_from
free_from_lem f m p [] c d enough = (m, refl, record { gone = tt; others = λ x h. refl })
free_from_lem zero m p ((a, b) ∷ xs) c d enough = absurd (omega arith)
free_from_lem (suc f) m p ((a, b) ∷ xs) c d enough =
    let (m', e, r) =
      free_from_lem f (put m a none) (some a) xs (Chain-put m a none (some a) xs none (d.0) (c.1))
        (d.1) (omega arith) in
    (
      m',
      rw (deref_at m a (c.0), e) refl,
      record {
        gone = (r.others a (d.0) ∙ put_self m a none, r.gone);
        others = λ x h. r.others x (h.1) ∙ put_other m a x none (λ q. h.0 (sym q));
      },
    )

pass_at :
    (f : ℕ) (p : Pool) (xs : Blocks) (action : Action)
    → Holds p xs
    → length xs ≤ f
    → pass f p.mem p.first action ≡ done (calls action xs)
pass_at f p xs action h enough =
    ap (λ x. pass f p.mem x action) (h.listed.first_at)
    ∙ pass_lem f p.mem none xs action (h.listed.chain) enough

abbrev pub all_calls : Pool → Blocks → List Event
all_calls p xs =
    if p.cleaning_up then [] else calls announce xs ++ calls teardown xs ++ calls destroy xs

cleanup_all_lem :
    (f : ℕ) (p : Pool) (xs : Blocks)
    → Holds p xs
    → length xs ≤ f
    → cleanup_all f p ≡ done (all_calls p xs)
unfolding cleanup_all
cleanup_all_lem f p xs h enough = elim (Bool-cases p.cleaning_up) [
  | inl t ↦ rw t refl
  | inr t ↦
      rw
        (
          t,
          pass_at f p xs announce h enough,
          pass_at f p xs teardown h enough,
          pass_at f p xs destroy h enough,
        )
        refl
]

-- `ks_pool_clear` of a pool that is in order ends, in as many rounds as there are blocks: every
-- callback is announced to before the first is torn down, and torn down before the first is
-- destroyed; where a clean-up went on already none is called. All the blocks are freed and no other
-- memory, and the list is empty.
pub clear_lem :
    (f : ℕ) (p : Pool) (xs : Blocks)
    → Holds p xs
    → length xs ≤ f
    → (m : Memory) × (clear f p
        ≡ done
            (all_calls p xs, record p { mem = m; first = none; last = none; cleaning_up = true }))
      × Cleared p.mem xs m
unfolding clear
clear_lem f p xs h enough =
    let (m, e, r) = free_from_lem f p.mem none xs (h.listed.chain) (h.listed.distinct) enough in
    let e' = ap (free_from f p.mem) (h.listed.first_at) ∙ e in
    (m, rw (clear, h.sane, cleanup_all_lem f p xs h enough, e') refl, r)
