-- ===== src/Queue/Spec/Calls.antt =====
-- Each call that does not wait returns what the list of items gives, and keeps to it.
use libks.Base.{
  ℕ, ◌+◌, ◌^◌, ◌<◌, ◌≡◌, refl, sym, ap, ◌∙◌, ◌⊎◌, inl, inr, Bool-cases, List, [], ◌∷◌, arith,
  length,
}
use libks.Queue.{Queue, is_full, try_push, try_pop}
use libks.Queue.Spec.{Fifo, put, take_first, Holds}
use libks.Queue.Spec.Branches.{
  is_full-full, on_or_off, try_push_off, try_push_full, try_push_room, put_off, put-full, put_room,
  try_pop_off, try_pop_empty, try_pop_some, take_first_off, take_first_empty, take_first_some,
}
use libks.Queue.Spec.Refine.{do_push-Holds, do_pop-Holds}

-- `ks_q_trypush` returns the status that the bounded queue of its items gives, on every branch, and
-- then holds what that queue holds, as long as fewer than 2 ^ 64 items are there.
pub try_push_refines :
    {q : Queue} {f : Fifo} (x : ℕ)
    → Holds q f
    → length f.items + 1 < 2 ^ 64
    → let (r, q') = try_push q x in let (s, f') = put f x in (r ≡ s) × Holds q' f'
try_push_refines {q} {f} x h room = elim (on_or_off h) [
  | inr off ↦ rw (try_push_off q x off.0, put_off f x off.1) (refl, h)
  | inl on ↦ elim (Bool-cases (is_full q)) [
    | inl e ↦
        rw (try_push_full q x on.0 e, put-full f x on.1 (sym (is_full-full q f h) ∙ e)) (refl, h)
    | inr e ↦
        let (q', p, h') = do_push-Holds q f x h on.0 room in
        rw (try_push_room q x on.0 e, p, put_room f x on.1 (sym (is_full-full q f h) ∙ e))
          (refl, h')
  ]
]

pub List-cases : (xs : List ℕ) → (xs ≡ []) ⊎ ((x : ℕ) × (ys : List ℕ) × (xs ≡ x ∷ ys))
List-cases [] = inl refl
List-cases (x ∷ xs) = inr (x, xs, refl)

-- `ks_q_trypop` returns the status and the item that the bounded queue of its items gives, on every
-- branch, and then holds what that queue holds.
pub try_pop_refines :
    {q : Queue} {f : Fifo}
    → Holds q f
    → let (r, x, q') = try_pop q in let (s, y, f') = take_first f in (r ≡ s) × (x ≡ y) × Holds q' f'
try_pop_refines {q} {f} h = elim (on_or_off h) [
  | inr off ↦ rw (try_pop_off q off.0, take_first_off f off.1) (refl, refl, h)
  | inl on ↦ elim (List-cases f.items) [
    | inl e ↦
        rw (try_pop_empty q on.0 (h.counted ∙ ap length e), take_first_empty f on.1 e)
          (refl, refl, h)
    | inr (x, xs, e) ↦
        let n : length f.items ≡ length (x ∷ xs) = ap length e in
        let (q', p, h') = do_pop-Holds q f x xs h e on.0 in
        rw (try_pop_some q on.0 (omega (arith, n, h.counted)), p, take_first_some f on.1 e)
          (refl, refl, h')
  ]
]
