-- ===== src/Queue/Spec/Refine.antt =====
-- Each call that does not wait returns what the list of items gives, and keeps to it.
use libks.Base.{
  ℕ, ◌+◌, ◌^◌, ◌<◌, ◌≡◌, refl, ap, ◌∙◌, true, false, some, List, [], ◌∷◌, ◌++◌, arith, length,
  length-append, add_size, sub_size,
}
use mathlib.Core.Path.{subst}
use libks.Queue.{success, Queue, Cells, create, new_node, link, do_push, unlink, do_pop}
use libks.Queue.Shape.{Shape, new_node-Taken, link-Shape}
use libks.Queue.Take.{unlink-Shape}
use libks.Queue.Spec.{Fifo, Holds}

-- A new queue is empty.
pub create-Holds :
    (cells : Cells) (fresh maxlen : ℕ)
    → Holds
        (create cells fresh maxlen)
        (record { items = []; bound = maxlen; active = true; flushes = false })
unfolding create
create-Holds cells fresh maxlen = record {
  nodes = [];
  spare = [];
  shape = record { used = refl; ends = refl; free = refl; distinct = tt; known = tt };
  counted = refl;
  bounded = refl;
  running = refl;
  flushing = refl;
  small = omega arith;
}

-- `q1` has the fields of `q` that the nodes do not concern.
abbrev Same : Queue → Queue → Type 0
Same q q1 =
    (q1.len ≡ q.len) × (q1.maxlen ≡ q.maxlen) × (q1.active ≡ q.active) × (q1.flushes ≡ q.flushes)

new_node-Same : (q : Queue) → Same q (new_node q).1
unfolding new_node
new_node-Same q = ground arith

link-Same : (q : Queue) (a x : ℕ) → Same q (link q a x)
unfolding link
link-Same q a x = ground arith

unlink-Same : (q : Queue) (a : ℕ) → Same q (unlink q a).1
unfolding unlink
unlink-Same q a = ground arith

do_push_linked :
    (q : Queue) (x a : ℕ) (q1 : Queue)
    → q.active ≡ true
    → new_node q ≡ (a, q1)
    → do_push q x ≡ (success, record (link q1 a x) { len = add_size (link q1 a x).len 1 })
unfolding do_push
do_push_linked q x a q1 h e = rw (e, do_push) (rw h)

Shape-len :
    {q : Queue} {ns fs xs : List ℕ} (n : ℕ)
    → Shape q ns fs xs
    → Shape (record q { len = n }) ns fs xs
Shape-len n s = record {
  used = s.used;
  ends = s.ends;
  free = s.free;
  distinct = s.distinct;
  known = s.known;
}

abbrev pub appended : Fifo → ℕ → Fifo
appended f x = record f { items = f.items ++ x ∷ [] }

pub do_push-Holds :
    (q : Queue) (f : Fifo) (x : ℕ)
    → Holds q f
    → q.active ≡ true
    → length f.items + 1 < 2 ^ 64
    → (q' : Queue) × (do_push q x ≡ (success, q')) × Holds q' (appended f x)
do_push-Holds q f x h on room =
    let (a, q1, fs, e, t, same_head, same_tail) =
      new_node-Taken q h.nodes h.spare f.items h.shape in
    let s1 : Same q q1 = subst (λ (r : ℕ × Queue). Same q r.1) e (new_node-Same q) in
    let s2 = link-Same q1 a x in
    let q2 = link q1 a x in
    (
      record q2 { len = add_size q2.len 1 },
      do_push_linked q x a q1 on e,
      record {
        nodes = h.nodes ++ a ∷ [];
        spare = fs;
        shape = Shape-len (add_size q2.len 1) (link-Shape q1 a x h.nodes fs f.items t);
        counted = omega (arith, s1.0, s2.0, h.counted, length-append f.items (x ∷ []));
        bounded = s2.1 ∙ s1.1 ∙ h.bounded;
        running = s2.2 ∙ s1.2 ∙ h.running;
        flushing = s2.3 ∙ s1.3 ∙ h.flushing;
        small = omega (arith, length-append f.items (x ∷ []));
      },
    )

do_pop_first :
    (q : Queue) (a x : ℕ) (q1 : Queue)
    → q.active ≡ true
    → q.head ≡ some a
    → unlink q a ≡ (x, q1)
    → do_pop q ≡ (success, x, record q1 { len = sub_size q1.len 1 })
unfolding do_pop
do_pop_first q a x q1 h e u = ground arith

-- A queue with a node first.
pub head-node :
    (q : Queue) (ns fs : List ℕ) (x : ℕ) (xs : List ℕ)
    → Shape q ns fs (x ∷ xs)
    → (a : ℕ) × (ms : List ℕ) × (q.head ≡ some a) × Shape q (a ∷ ms) fs (x ∷ xs)
head-node q [] fs x xs s = absurd s.used
head-node q (a ∷ ms) fs x xs s = (a, ms, s.used.0, s)

pub do_pop-Holds :
    (q : Queue) (f : Fifo) (x : ℕ) (xs : List ℕ)
    → Holds q f
    → f.items ≡ x ∷ xs
    → q.active ≡ true
    → (q' : Queue) × (do_pop q ≡ (success, x, q')) × Holds q' (record f { items = xs })
do_pop-Holds q f x xs h e on =
    let n : length f.items ≡ length (x ∷ xs) = ap length e in
    let s = subst (Shape q h.nodes h.spare) e h.shape in
    let (a, ms, at, s') = head-node q h.nodes h.spare x xs s in
    let (q1, u, t) = unlink-Shape q a x ms h.spare xs s' in
    let s1 : Same q q1 = subst (λ (r : ℕ × Queue). Same q r.1) u (unlink-Same q a) in
    (
      record q1 { len = sub_size q1.len 1 },
      do_pop_first q a x q1 on at u,
      record {
        nodes = ms;
        spare = a ∷ h.spare;
        shape = Shape-len (sub_size q1.len 1) t;
        counted = omega (arith, s1.0, h.counted, n, h.small);
        bounded = s1.1 ∙ h.bounded;
        running = s1.2 ∙ h.running;
        flushing = s1.3 ∙ h.flushing;
        small = omega (arith, n, h.small);
      },
    )
