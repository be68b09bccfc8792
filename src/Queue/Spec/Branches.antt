-- ===== src/Queue/Spec/Branches.antt =====
-- The branches of the calls that do not wait, and of what they promise, as equations.
use libks.Base.{ℕ, ◌<◌, ◌≡◌, true, false, List, [], ◌∷◌, ◌++◌, arith, ◌⊎◌, Bool-cases}
use libks.Queue.{success, inactive, break_out, Queue, do_push, is_full, try_push, do_pop, try_pop}
use libks.Queue.Spec.{Fifo, full, put, take_first, Holds}

pub is_full-full : (q : Queue) (f : Fifo) → Holds q f → is_full q ≡ full f
unfolding is_full full
is_full-full q f h = rw (h.bounded, h.counted)

-- Where a call may go: the queue is off, or it is on.
pub on_or_off :
    {q : Queue} {f : Fifo}
    → Holds q f
    → ((q.active ≡ true) × (f.active ≡ true)) ⊎ ((q.active ≡ false) × (f.active ≡ false))
on_or_off {q} {f} h = ground (arith, h.running, Bool-cases q.active)

pub try_push_off : (q : Queue) (x : ℕ) → q.active ≡ false → try_push q x ≡ (inactive, q)
unfolding try_push
try_push_off q x h = ground arith

pub try_push_full :
    (q : Queue) (x : ℕ) → q.active ≡ true → is_full q ≡ true → try_push q x ≡ (break_out, q)
unfolding try_push
try_push_full q x h k = ground arith

pub try_push_room :
    (q : Queue) (x : ℕ) → q.active ≡ true → is_full q ≡ false → try_push q x ≡ do_push q x
unfolding try_push
try_push_room q x h k = ground arith

pub put_off : (f : Fifo) (x : ℕ) → f.active ≡ false → put f x ≡ (inactive, f)
unfolding put
put_off f x h = ground arith

pub put-full : (f : Fifo) (x : ℕ) → f.active ≡ true → full f ≡ true → put f x ≡ (break_out, f)
unfolding put
put-full f x h k = ground arith

pub put_room :
    (f : Fifo) (x : ℕ)
    → f.active ≡ true
    → full f ≡ false
    → put f x ≡ (success, record f { items = f.items ++ x ∷ [] })
unfolding put
put_room f x h k = ground arith

pub try_pop_off : (q : Queue) → q.active ≡ false → try_pop q ≡ (inactive, 0, q)
unfolding try_pop
try_pop_off q h = ground arith

pub try_pop_empty : (q : Queue) → q.active ≡ true → q.len ≡ 0 → try_pop q ≡ (break_out, 0, q)
unfolding try_pop
try_pop_empty q h k = ground arith

pub try_pop_some : (q : Queue) → q.active ≡ true → 0 < q.len → try_pop q ≡ do_pop q
unfolding try_pop
try_pop_some q h k = ground arith

pub take_first_off : (f : Fifo) → f.active ≡ false → take_first f ≡ (inactive, 0, f)
unfolding take_first
take_first_off f h = ground arith

pub take_first_empty :
    (f : Fifo) → f.active ≡ true → f.items ≡ [] → take_first f ≡ (break_out, 0, f)
unfolding take_first
take_first_empty f h k = ground arith

pub take_first_some :
    (f : Fifo) {x : ℕ} {xs : List ℕ}
    → f.active ≡ true
    → f.items ≡ x ∷ xs
    → take_first f ≡ (success, x, record f { items = xs })
unfolding take_first
take_first_some f h k = ground arith
