-- ===== src/Queue/Spec/Flush.antt =====
-- `ks_q_flush` against the queue of its items, with a flush function that leaves the queue as it is,
-- and `ks_q_trypeek`.
use libks.Base.{
  ℕ, zero, suc, ◌+◌, ◌<◌, ◌≡◌, refl, sym, ap, ◌∙◌, inl, inr, true, false, Bool-cases, some, Option,
  if◌then◌else◌, List, [], ◌∷◌, arith, length,
}
use libks.Queue.{
  Status, success, inactive, break_out, fail, Queue, try_pop, try_peek, flush_loop, flush, handed,
  flushed,
}
use mathlib.Core.Path.{subst}
use libks.Queue.Shape.{Shape}
use libks.Queue.Spec.{Fifo, first, clear, Holds}
use libks.Queue.Spec.Branches.{on_or_off, try_pop_empty, try_pop_some}
use libks.Queue.Spec.Refine.{do_pop-Holds, head-node}
use libks.Queue.Spec.Calls.{List-cases}

emptied : (q : Queue) (f : Fifo) → f.items ≡ [] → Holds q f → Holds q (record f { items = [] })
emptied q f e h = record {
  nodes = h.nodes;
  spare = h.spare;
  shape = subst (Shape q h.nodes h.spare) e h.shape;
  counted = h.counted ∙ ap length e;
  bounded = h.bounded;
  running = h.running;
  flushing = h.flushing;
  small = omega arith;
}

-- What happens while the flush function runs leaves the items, the limit and the state of a queue as
-- they are.
abbrev pub IsQuiet : (Queue → ℕ → Queue) → Type 0
IsQuiet flush_fn = (q : Queue) (f : Fifo) (x : ℕ) → Holds q f → Holds (flush_fn q x) f

module _ (flush_fn : Queue → ℕ → Queue) where
  -- The rest of a round, once `ks_q_trypop` has returned.
  abbrev went_on : ℕ → Status × ℕ × Queue → Option (List ℕ × Queue)
  went_on n t = elim t.0 [
    | success ↦ handed t.1 (flush_loop flush_fn n (flush_fn t.2 t.1))
    | _ ↦ some ([], t.2)
  ]

  flush_loop_end :
      (n : ℕ) (q : Queue)
      → try_pop q ≡ (break_out, 0, q)
      → flush_loop flush_fn (suc n) q ≡ some ([], q)
  unfolding flush_loop
  flush_loop_end n q e = ap (went_on n) e

  flush_loop_next :
      (n : ℕ) (q : Queue) {x : ℕ} {q' q2 : Queue} {xs : List ℕ}
      → try_pop q ≡ (success, x, q')
      → flush_loop flush_fn n (flush_fn q' x) ≡ some (xs, q2)
      → flush_loop flush_fn (suc n) q ≡ some (x ∷ xs, q2)
  unfolding flush_loop
  flush_loop_next n q {x} e r = ap (went_on n) e ∙ ap (handed x) r

  -- With fuel above the number of items, the loop hands them all over.
  flush_loop-all :
      (n : ℕ) (q : Queue) (f : Fifo)
      → IsQuiet flush_fn
      → Holds q f
      → q.active ≡ true
      → f.active ≡ true
      → length f.items < n
      → (q' : Queue) × (flush_loop flush_fn n q ≡ some (f.items, q'))
        × Holds q' (record f { items = [] })
  flush_loop-all zero q f quiet h on on' lt = absurd (omega arith)
  flush_loop-all (suc n) q f quiet h on on' lt = elim (List-cases f.items) [
    | inl e ↦ (
      q,
      flush_loop_end n q (try_pop_empty q on (h.counted ∙ ap length e)) ∙ (rw e),
      emptied q f e h,
    )
    | inr (x, xs, e) ↦
        let k : length f.items ≡ length (x ∷ xs) = ap length e in
        let (q1, p, h1) = do_pop-Holds q f x xs h e on in
        let h2 = quiet q1 (record f { items = xs }) x h1 in
        let (q2, r, h3) =
          flush_loop-all n (flush_fn q1 x) (record f { items = xs }) quiet h2 (h2.running ∙ on') on'
            (omega arith) in
        (q2, flush_loop_next n q (try_pop_some q on (omega arith) ∙ p) r ∙ (rw e), h3)
  ]

  flush_off : (n : ℕ) (q : Queue) → q.active ≡ false → flush flush_fn n q ≡ some (inactive, [], q)
  unfolding flush
  flush_off n q h = rw h refl

  flush_without :
      (n : ℕ) (q : Queue)
      → q.active ≡ true
      → q.flushes ≡ false
      → flush flush_fn n q ≡ some (fail, [], q)
  unfolding flush
  flush_without n q h k = rw (h, k) refl

  flush_with :
      (n : ℕ) (q : Queue) {xs : List ℕ} {q' : Queue}
      → q.active ≡ true
      → q.flushes ≡ true
      → flush_loop flush_fn n q ≡ some (xs, q')
      → flush flush_fn n q ≡ some (success, xs, q')
  unfolding flush
  flush_with n q h k e =
      let all = flushed (flush_loop flush_fn n q) in
      ap
        (λ t. if t then (if q.flushes then all else some (fail, [], q)) else some (inactive, [], q))
        h
      ∙ ap (λ t. if t then all else some (fail, [], q)) k
      ∙ ap flushed e

clear_off : (f : Fifo) → f.active ≡ false → clear f ≡ (inactive, [], f)
unfolding clear
clear_off f h = ground arith

clear_without : (f : Fifo) → f.active ≡ true → f.flushes ≡ false → clear f ≡ (fail, [], f)
unfolding clear
clear_without f h k = ground arith

clear_with :
    (f : Fifo)
    → f.active ≡ true
    → f.flushes ≡ true
    → clear f ≡ (success, f.items, record f { items = [] })
unfolding clear
clear_with f h k = ground arith

-- Where the items, the limit and the state of the queue stay as they are while the flush function
-- runs, in that neither it nor another thread changes them, `ks_q_flush` ends, in one round more than
-- there are items: with a flush function it hands over all the items, oldest first, and leaves none;
-- without one, or on a queue that was terminated, it fails and changes nothing.
pub flush_refines :
    (flush_fn : Queue → ℕ → Queue) {q : Queue} {f : Fifo}
    → IsQuiet flush_fn
    → Holds q f
    → let (s, items, f') = clear f in
      (q' : Queue) × (flush flush_fn (q.len + 1) q ≡ some (s, items, q')) × Holds q' f'
flush_refines flush_fn {q} {f} quiet h = elim (on_or_off h) [
  | inr off ↦ rw (clear_off f off.1) (q, flush_off flush_fn (q.len + 1) q off.0, h)
  | inl on ↦ elim (Bool-cases q.flushes) [
    | inr e ↦
        rw (clear_without f on.1 (sym h.flushing ∙ e))
          (q, flush_without flush_fn (q.len + 1) q on.0 e, h)
    | inl e ↦
        let (q', r, h') = flush_loop-all flush_fn (q.len + 1) q f quiet h on.0 on.1 (omega arith) in
        rw (clear_with f on.1 (sym h.flushing ∙ e))
          (q', flush_with flush_fn (q.len + 1) q on.0 e r, h')
  ]
]

peek_first :
    (q : Queue) (a x : ℕ)
    → q.active ≡ true
    → 0 < q.len
    → q.head ≡ some a
    → (q.cells a).ptr ≡ x
    → try_peek q ≡ (success, x)
unfolding try_peek
peek_first q a x on n e p = ground arith

first_some :
    (f : Fifo) {x : ℕ} {xs : List ℕ} → f.active ≡ true → f.items ≡ x ∷ xs → first f ≡ (success, x)
unfolding first
first_some f on e = ground arith

-- `ks_q_trypeek` returns what the next `ks_q_trypop` would, status and item.
pub try_peek_refines : {q : Queue} {f : Fifo} → Holds q f → try_peek q ≡ first f
unfolding first try_peek
try_peek_refines {q} {f} h = elim (on_or_off h) [
  | inr off ↦ ground (arith, off.0, off.1)
  | inl on ↦ elim (List-cases f.items) [
    | inl e ↦ ground (arith, on.0, on.1, h.counted, ap length e)
    | inr (x, xs, e) ↦
        let k : length f.items ≡ length (x ∷ xs) = ap length e in
        let s = subst (Shape q h.nodes h.spare) e h.shape in
        let (a, ms, at, s') = head-node q h.nodes h.spare x xs s in
        peek_first q a x on.0 (omega arith) at s'.used.1 ∙ sym (first_some f on.1 e)
  ]
]
