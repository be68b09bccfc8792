-- ===== src/Queue/Spec/Threads.antt =====
-- Threads on one bounded queue: calls in any order, some of them waiting, with wake-ups at any time.
use mathlib.Core.Path.{subst}
use libks.Base.{
  ℕ, suc, ◌+◌, ◌-◌, ◌%◌, ◌^◌, ◌≤◌, ◌<◌, ◌≡◌, ◌≢◌, refl, sym, ap, ◌∙◌, inl, inr, Bool, true, false,
  Bool-cases, ◌&&◌, Option, none, some, List, [], ◌∷◌, ◌++◌, arith, length, length-append, ◌==◌,
}
use libks.Queue.{
  Status, inactive, Queue, new_node, link, unlink, do_push, is_full, push, push_woken, do_pop, pop,
  pop_woken, term,
}
use libks.Queue.Spec.{Fifo, full, Holds}
use libks.Queue.Spec.Branches.{is_full-full}
use libks.Queue.Spec.Refine.{do_push-Holds, do_pop-Holds, appended}
use libks.Queue.Spec.Calls.{List-cases}

-- The queue, the items of the threads that wait in `ks_q_push`, and the number of those that wait in
-- `ks_q_pop_timeout`.
pub record System : Type 0 where
  pub queue : Queue
  pub pushing : List ℕ
  pub popping : ℕ

-- One call, up to its end or its wait, or the rest of one that waited.
pub data Step (s : System) : System → Type 0 where
  pushes :
      (x : ℕ) (r : Status) (q : Queue)
      → push s.queue x ≡ (some r, q)
      → Step s (record s { queue = q })
  push_waits :
      (x : ℕ) (q : Queue)
      → push s.queue x ≡ (none, q)
      → Step s (record s { queue = q; pushing = x ∷ s.pushing })
  push_wakes :
      (before after : List ℕ) (x : ℕ) (r : Status) (q : Queue)
      → s.pushing ≡ before ++ x ∷ after
      → push_woken s.queue x ≡ (r, q)
      → Step s (record s { queue = q; pushing = before ++ after })
  pops : (r : Status × ℕ) (q : Queue) → pop s.queue ≡ (some r, q) → Step s (record s { queue = q })
  pop_waits :
      (q : Queue)
      → pop s.queue ≡ (none, q)
      → Step s (record s { queue = q; popping = s.popping + 1 })
  pop_wakes :
      (n : ℕ) (timed ended : Bool) (r : Status) (x : ℕ) (q : Queue)
      → s.popping ≡ suc n
      → pop_woken timed ended s.queue ≡ (r, x, q)
      → Step s (record s { queue = q; popping = n })
  terms : Step s (record s { queue = (term s.queue).1 })

pub data Reach (s : System) : System → Type 0 where
  here : Reach s s
  next : {t u : System} → Reach s t → Step t u → Reach s u

-- The queue is a list of at most `maxlen` items, and the counts of waiting threads are right.
pub record IsSafe (s : System) : Type 0 where
  pub fifo : Fifo
  pub holds : Holds s.queue fifo
  pub limited : (0 < fifo.bound) × (fifo.bound < 2 ^ 64)
  pub within : length fifo.items ≤ fifo.bound
  pub pushers : s.queue.pushers ≡ length s.pushing % 2 ^ 32
  pub poppers : s.queue.poppers ≡ s.popping % 2 ^ 32

-- What is said of the queue alone.
abbrev Good : Queue → Type 0
Good q = (f : Fifo) × Holds q f × ((0 < f.bound) × (f.bound < 2 ^ 64)) × (length f.items ≤ f.bound)

Good-waiting : (q : Queue) (n m : ℕ) → Good q → Good (record q { pushers = n; poppers = m })
Good-waiting q n m (f, h, l, w) = (
  f,
  record {
    nodes = h.nodes;
    spare = h.spare;
    shape = record {
      used = h.shape.used;
      ends = h.shape.ends;
      free = h.shape.free;
      distinct = h.shape.distinct;
      known = h.shape.known;
    };
    counted = h.counted;
    bounded = h.bounded;
    running = h.running;
    flushing = h.flushing;
    small = h.small;
  },
  l,
  w,
)

do_push-waiting :
    (q : Queue) (x : ℕ)
    → ((do_push q x).1.pushers ≡ q.pushers) × ((do_push q x).1.poppers ≡ q.poppers)
unfolding do_push new_node link
do_push-waiting q x = ground arith

do_pop-waiting :
    (q : Queue) → ((do_pop q).2.pushers ≡ q.pushers) × ((do_pop q).2.poppers ≡ q.poppers)
unfolding do_pop unlink
do_pop-waiting q = ground arith

do_push_inactive : (q : Queue) (x : ℕ) → q.active ≡ false → do_push q x ≡ (inactive, q)
unfolding do_push
do_push_inactive q x h = ground arith

full-lt :
    (f : Fifo) → full f ≡ false → 0 < f.bound → length f.items ≤ f.bound → length f.items < f.bound
unfolding full
full-lt f h k l = ground arith

Good-do_push : (q : Queue) (x : ℕ) → Good q → is_full q ≡ false → Good (do_push q x).1
Good-do_push q x (f, h, l, w) room = elim (Bool-cases q.active) [
  | inr off ↦ rw (do_push_inactive q x off) (f, h, l, w)
  | inl on ↦
      let lt = full-lt f (sym (is_full-full q f h) ∙ room) l.0 w in
      let (q', p, h') = do_push-Holds q f x h on (omega arith) in
      rw p (appended f x, h', l, omega (arith, length-append f.items (x ∷ [])))
]

do_pop_inactive : (q : Queue) → q.active ≡ false → do_pop q ≡ (inactive, 0, q)
unfolding do_pop
do_pop_inactive q h = ground arith

Good-do_pop : (q : Queue) → Good q → q.len ≢ 0 → Good (do_pop q).2
Good-do_pop q (f, h, l, w) some_there = elim (Bool-cases q.active) [
  | inr off ↦ rw (do_pop_inactive q off) (f, h, l, w)
  | inl on ↦ elim (List-cases f.items) [
    | inl e ↦ absurd (some_there (h.counted ∙ ap length e))
    | inr (x, xs, e) ↦
        let n : length f.items ≡ length (x ∷ xs) = ap length e in
        let (q', p, h') = do_pop-Holds q f x xs h e on in
        rw p (record f { items = xs }, h', l, omega arith)
  ]
]

push_off : (q : Queue) (x : ℕ) → q.active ≡ false → push q x ≡ (some inactive, q)
unfolding push
push_off q x h = ground arith

push_full :
    (q : Queue) (x : ℕ)
    → q.active ≡ true
    → is_full q ≡ true
    → push q x ≡ (none, record q { pushers = (q.pushers + 1) % 2 ^ 32 })
unfolding push
push_full q x h k = ground arith

push_room :
    (q : Queue) (x : ℕ)
    → q.active ≡ true
    → is_full q ≡ false
    → push q x ≡ (some (do_push q x).0, (do_push q x).1)
unfolding push
push_room q x h k = ground arith

-- What the first part of `ks_q_push` leaves.
record Pushed (q : Queue) (r : Option Status) (q' : Queue) : Type 0 where
  good : Good q'
  poppers : q'.poppers ≡ q.poppers
  done : r ≢ none → q'.pushers ≡ q.pushers
  waits : r ≡ none → q'.pushers ≡ (q.pushers + 1) % 2 ^ 32

push-Pushed : (q : Queue) (x : ℕ) → Good q → Pushed q (push q x).0 (push q x).1
push-Pushed q x g = elim (Bool-cases q.active) [
  | inr off ↦
      rw (push_off q x off) (record { good = g; poppers = refl; done = λ _. refl; waits = λ e. cc })
  | inl on ↦ elim (Bool-cases (is_full q)) [
    | inl k ↦ rw (push_full q x on k) (record {
      good = Good-waiting q ((q.pushers + 1) % 2 ^ 32) q.poppers g;
      poppers = refl;
      done = λ n. absurd (n refl);
      waits = λ _. refl;
    })
    | inr k ↦ rw (push_room q x on k) (record {
      good = Good-do_push q x g k;
      poppers = (do_push-waiting q x).1;
      done = λ _. (do_push-waiting q x).0;
      waits = λ e. cc;
    })
  ]
]

-- The queue where a waiting `ks_q_push` goes on.
abbrev woken : Queue → Queue
woken q = record q { pushers = (q.pushers + 2 ^ 32 - 1) % 2 ^ 32 }

push_woken_full : (q : Queue) (x : ℕ) → is_full q ≡ true → (push_woken q x).1 ≡ woken q
unfolding push_woken
push_woken_full q x h = ground arith

push_woken_room : (q : Queue) (x : ℕ) → is_full q ≡ false → push_woken q x ≡ do_push (woken q) x
unfolding push_woken
push_woken_room q x h = ground arith

is_full-woken : (q : Queue) → is_full (woken q) ≡ is_full q
unfolding is_full
is_full-woken q = refl

abbrev Woke : Queue → Queue → Type 0
Woke q q' = Good q' × (q'.pushers ≡ (q.pushers + 2 ^ 32 - 1) % 2 ^ 32) × (q'.poppers ≡ q.poppers)

push_woken-Woke : (q : Queue) (x : ℕ) → Good q → Woke q (push_woken q x).1
push_woken-Woke q x g =
    let g' = Good-waiting q ((q.pushers + 2 ^ 32 - 1) % 2 ^ 32) q.poppers g in
    let (a, b) = do_push-waiting (woken q) x in
    elim (Bool-cases (is_full q)) [
      | inl k ↦ rw (push_woken_full q x k) (g', refl, refl)
      | inr k ↦ rw (push_woken_room q x k) (Good-do_push (woken q) x g' (is_full-woken q ∙ k), a, b)
    ]

pop_off : (q : Queue) → q.active ≡ false → pop q ≡ (some (inactive, 0), q)
unfolding pop
pop_off q h = ground arith

pop_empty :
    (q : Queue)
    → q.active ≡ true
    → q.len ≡ 0
    → pop q ≡ (none, record q { poppers = (q.poppers + 1) % 2 ^ 32 })
unfolding pop
pop_empty q h k = ground arith

pop-some :
    (q : Queue)
    → q.active ≡ true
    → (q.len == 0) ≡ false
    → pop q ≡ (some ((do_pop q).0, (do_pop q).1), (do_pop q).2)
unfolding pop
pop-some q h k = ground arith

-- What the first part of `ks_q_pop_timeout` leaves.
record Popped (q : Queue) (r : Option (Status × ℕ)) (q' : Queue) : Type 0 where
  good : Good q'
  pushers : q'.pushers ≡ q.pushers
  done : r ≢ none → q'.poppers ≡ q.poppers
  waits : r ≡ none → q'.poppers ≡ (q.poppers + 1) % 2 ^ 32

pop-Popped : (q : Queue) → Good q → Popped q (pop q).0 (pop q).1
pop-Popped q g = elim (Bool-cases q.active) [
  | inr off ↦
      rw (pop_off q off) (record { good = g; pushers = refl; done = λ _. refl; waits = λ e. cc })
  | inl on ↦ elim (Bool-cases (q.len == 0)) [
    | inl k ↦ rw (pop_empty q on (ground arith)) (record {
      good = Good-waiting q q.pushers ((q.poppers + 1) % 2 ^ 32) g;
      pushers = refl;
      done = λ n. absurd (n refl);
      waits = λ _. refl;
    })
    | inr k ↦ rw (pop-some q on k) (record {
      good = Good-do_pop q g (ground arith);
      pushers = (do_pop-waiting q).0;
      done = λ _. (do_pop-waiting q).1;
      waits = λ e. cc;
    })
  ]
]

-- The queue where a waiting `ks_q_pop_timeout` goes on.
abbrev resumed : Queue → Queue
resumed q = record q { poppers = (q.poppers + 2 ^ 32 - 1) % 2 ^ 32 }

pop_woken_gone :
    (timed ended : Bool) (q : Queue)
    → (timed && ended) ≡ true
    → (pop_woken timed ended q).2 ≡ resumed q
unfolding pop_woken
pop_woken_gone timed ended q h = ground arith

pop_woken_empty :
    (timed ended : Bool) (q : Queue) → (q.len == 0) ≡ true → (pop_woken timed ended q).2 ≡ resumed q
unfolding pop_woken
pop_woken_empty timed ended q h = ground arith

pop_woken_some :
    (timed ended : Bool) (q : Queue)
    → (timed && ended) ≡ false
    → (q.len == 0) ≡ false
    → pop_woken timed ended q ≡ do_pop (resumed q)
unfolding pop_woken
pop_woken_some timed ended q h k = ground arith

pop_woken-Good :
    (timed ended : Bool) (q : Queue)
    → Good q
    → let q' = (pop_woken timed ended q).2 in
      Good q' × (q'.pushers ≡ q.pushers) × (q'.poppers ≡ (q.poppers + 2 ^ 32 - 1) % 2 ^ 32)
pop_woken-Good timed ended q g =
    let g' = Good-waiting q q.pushers ((q.poppers + 2 ^ 32 - 1) % 2 ^ 32) g in
    let (a, b) = do_pop-waiting (resumed q) in
    elim (Bool-cases (q.len == 0)) [
      | inl k ↦ rw (pop_woken_empty timed ended q k) (g', refl, refl)
      | inr k ↦ elim (Bool-cases (timed && ended)) [
        | inl t ↦ rw (pop_woken_gone timed ended q t) (g', refl, refl)
        | inr t ↦
            rw (pop_woken_some timed ended q t k) (Good-do_pop (resumed q) g' (ground arith), a, b)
      ]
    ]

IsSafe-Good : {s : System} → IsSafe s → Good s.queue
IsSafe-Good i = (i.fifo, i.holds, i.limited, i.within)

Good-IsSafe :
    {s : System}
    → Good s.queue
    → s.queue.pushers ≡ length s.pushing % 2 ^ 32
    → s.queue.poppers ≡ s.popping % 2 ^ 32
    → IsSafe s
Good-IsSafe (f, h, l, w) a b = record {
  fifo = f;
  holds = h;
  limited = l;
  within = w;
  pushers = a;
  poppers = b;
}

term-Good : (q : Queue) → Good q → Good (term q).1
unfolding term
term-Good q (f, h, l, w) = (
  record f { active = false },
  record {
    nodes = h.nodes;
    spare = h.spare;
    shape = record {
      used = h.shape.used;
      ends = h.shape.ends;
      free = h.shape.free;
      distinct = h.shape.distinct;
      known = h.shape.known;
    };
    counted = h.counted;
    bounded = h.bounded;
    running = refl;
    flushing = h.flushing;
    small = h.small;
  },
  l,
  w,
)

term-waiting : (q : Queue) → ((term q).1.pushers ≡ q.pushers) × ((term q).1.poppers ≡ q.poppers)
unfolding term
term-waiting q = (refl, refl)

-- Every step keeps the queue safe.
Step-IsSafe : {s t : System} → Step s t → IsSafe s → IsSafe t
Step-IsSafe {s} (pushes x r q e) i =
    let p =
      subst (λ (o : Option Status × Queue). Pushed s.queue o.0 o.1) e
        (push-Pushed s.queue x (IsSafe-Good i)) in
    Good-IsSafe p.good (p.done (λ n. cc) ∙ i.pushers) (p.poppers ∙ i.poppers)
Step-IsSafe {s} (push_waits x q e) i =
    let p =
      subst (λ (o : Option Status × Queue). Pushed s.queue o.0 o.1) e
        (push-Pushed s.queue x (IsSafe-Good i)) in
    let w = p.waits refl in Good-IsSafe p.good (omega (arith, w, i.pushers)) (p.poppers ∙ i.poppers)
Step-IsSafe {s} (push_wakes before after x r q at e) i =
    let p =
      subst (λ (o : Status × Queue). Woke s.queue o.1) e
        (push_woken-Woke s.queue x (IsSafe-Good i)) in
    Good-IsSafe p.0
      (omega (
        arith,
        p.1,
        i.pushers,
        ap length at,
        length-append before (x ∷ after),
        length-append before after,
      ))
      (p.2 ∙ i.poppers)
Step-IsSafe {s} (pops r q e) i =
    let p =
      subst (λ (o : Option (Status × ℕ) × Queue). Popped s.queue o.0 o.1) e
        (pop-Popped s.queue (IsSafe-Good i)) in
    Good-IsSafe p.good (p.pushers ∙ i.pushers) (p.done (λ n. cc) ∙ i.poppers)
Step-IsSafe {s} (pop_waits q e) i =
    let p =
      subst (λ (o : Option (Status × ℕ) × Queue). Popped s.queue o.0 o.1) e
        (pop-Popped s.queue (IsSafe-Good i)) in
    let w = p.waits refl in Good-IsSafe p.good (p.pushers ∙ i.pushers) (omega (arith, w, i.poppers))
Step-IsSafe {s} (pop_wakes n timed ended r x q at e) i =
    let p =
      subst
        (λ (o : Status × ℕ × Queue).
          Good o.2
          × (o.2.pushers ≡ s.queue.pushers)
          × (o.2.poppers ≡ (s.queue.poppers + 2 ^ 32 - 1) % 2 ^ 32))
        e (pop_woken-Good timed ended s.queue (IsSafe-Good i)) in
    Good-IsSafe p.0 (p.1 ∙ i.pushers) (omega (arith, p.2, i.poppers, at))
Step-IsSafe {s} terms i =
    Good-IsSafe (term-Good s.queue (IsSafe-Good i)) ((term-waiting s.queue).0 ∙ i.pushers)
      ((term-waiting s.queue).1 ∙ i.poppers)

-- Whatever the order in which threads push, pop, wait, are woken, time out and terminate, the queue
-- stays a well-formed list of no more than `maxlen` items, where a limit is set, and its counts of
-- waiting threads are right.
pub Reach-IsSafe : {s t : System} → Reach s t → IsSafe s → IsSafe t
Reach-IsSafe here i = i
Reach-IsSafe (next r st) i = Step-IsSafe st (Reach-IsSafe r i)
