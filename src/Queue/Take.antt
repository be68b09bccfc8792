-- ===== src/Queue/Take.antt =====
-- Taking the head off the list of nodes.
use mathlib.Core.Path.{subst}
use libks.Base.{
  Lacks, Lacks-append, Distinct-insert, ℕ, ◌≡◌, refl, sym, Option, none, some, List, [], ◌∷◌, arith,
}
use libks.Queue.{Node, Cells, update, blank, Queue, unlink}
use libks.Queue.Cells.{Seg, Free, update_self, Seg-update, Free-update}
use libks.Queue.Shape.{Shape, AllBelow-insert}

-- The new head has nothing before it.
Seg-rehead :
    (c : Cells) (p p' cur : Option ℕ) (b : ℕ) (ns xs : List ℕ)
    → Lacks ns b
    → Seg c p cur (b ∷ ns) xs
    → Seg (update c b (record (c b) { prev = p' })) p' cur (b ∷ ns) xs
Seg-rehead c p p' cur b ns [] l s = absurd s
Seg-rehead c p p' cur b ns (x ∷ xs) l s =
    let v : Node = record (c b) { prev = p' } in
    subst
      (λ w. (cur ≡ some b) × (w.ptr ≡ x) × (w.prev ≡ p') × Seg (update c b v) (some b) w.next ns xs)
      (sym (update_self c b v)) (s.0, s.1, refl, Seg-update c b v (some b) (c b).next ns xs l s.3)

Free-push :
    (c : Cells) (a : ℕ) (cur : Option ℕ) (fs : List ℕ)
    → Lacks fs a
    → Free c cur fs
    → Free (update c a (record blank { next = cur })) (some a) (a ∷ fs)
Free-push c a cur fs l f =
    let v : Node = record blank { next = cur } in
    (
      refl,
      subst (λ w. Free (update c a v) w.next fs) (sym (update_self c a v))
          (Free-update c a v cur fs l f),
    )

unlink_last :
    (q : Queue) (a : ℕ)
    → (q.cells a).next ≡ none
    → unlink q a ≡ (
      (q.cells a).ptr,
      record q {
        cells = update q.cells a (record blank { next = q.empty });
        head = none;
        tail = none;
        empty = some a;
      },
    )
unfolding unlink
unlink_last q a h = ground arith

unlink_next :
    (q : Queue) (a : ℕ) {b : ℕ}
    → (q.cells a).next ≡ some b
    → unlink q a ≡ (
      (q.cells a).ptr,
      record q {
        cells =
            update
              (update q.cells b (record (q.cells b) { prev = none }))
              a
              (record blank { next = q.empty });
        head = some b;
        empty = some a;
      },
    )
unfolding unlink
unlink_next q a h = ground arith

-- The node of the first item goes to the free list, and its item is what is handed over.
pub unlink-Shape :
    (q : Queue) (a x : ℕ) (ns fs xs : List ℕ)
    → Shape q (a ∷ ns) fs (x ∷ xs)
    → (q' : Queue) × (unlink q a ≡ (x, q')) × Shape q' ns (a ∷ fs) xs
unlink-Shape q a x [] fs [] s = (
  record q {
    cells = update q.cells a (record blank { next = q.empty });
    head = none;
    tail = none;
    empty = some a;
  },
  rw (unlink_last q a s.used.3, s.used.1),
  record {
    used = refl;
    ends = refl;
    free = Free-push q.cells a q.empty fs s.distinct.0 s.free;
    distinct = s.distinct;
    known = s.known;
  },
)
unlink-Shape q a x [] fs (y ∷ xs) s = absurd s.used.3
unlink-Shape q a x (b ∷ ns) fs [] s = absurd s.used.3
unlink-Shape q a x (b ∷ ns) fs (y ∷ xs) s =
    let (la, lf) = Lacks-append (b ∷ ns) fs a s.distinct.0 in
    let v : Node = record (q.cells b) { prev = none } in
    let c = update q.cells b v in
    let (lb, lbf) = Lacks-append ns fs b s.distinct.1.0 in
    (
      record q {
        cells = update c a (record blank { next = q.empty });
        head = some b;
        empty = some a;
      },
      rw (unlink_next q a s.used.3.0, s.used.1),
      record {
        used =
            Seg-update c a (record blank { next = q.empty }) none (some b) (b ∷ ns) (y ∷ xs) la
              (Seg-rehead q.cells (some a) none (some b) b ns (y ∷ xs) lb
                (refl, s.used.3.1, s.used.3.2, s.used.3.3));
        ends = s.ends;
        free = Free-push c a q.empty fs lf (Free-update q.cells b v q.empty fs lbf s.free);
        distinct = Distinct-insert (b ∷ ns) fs a s.distinct.0 s.distinct.1;
        known = AllBelow-insert (b ∷ ns) fs a q.fresh s.known.0 s.known.1;
      },
    )
