-- ===== src/Queue/Shape.antt =====
-- The representation invariant of the queue, and what each call does to the items.
use libks.Base.{
  Lacks, Distinct, Lacks-append, Distinct-append, Distinct-middle, Distinct-insert, ℕ, ◌+◌, ◌<◌,
  ◌≡◌, refl, sym, ap, Option, none, some, List, [], ◌∷◌, ◌++◌, append_assoc, arith,
}
use libks.Queue.{Node, Cells, update, blank, Queue, new_node, link}
use libks.Queue.Cells.{
  AllBelow, Seg, Free, last_of, linked, update_self, Seg-update, Free-update, Seg-linked,
}

abbrev pub end_of : List ℕ → Option ℕ
end_of [] = none
end_of (a ∷ ns) = some (last_of a ns)

-- The nodes at `ns` hold the items `xs`, and those at `fs` are free.
pub record Shape (q : Queue) (ns fs xs : List ℕ) : Type 0 where
  pub used : Seg q.cells none q.head ns xs
  pub ends : q.tail ≡ end_of ns
  pub free : Free q.cells q.empty fs
  pub distinct : Distinct (ns ++ fs)
  pub known : AllBelow (ns ++ fs) q.fresh

AllBelow-Lacks : (ns : List ℕ) (n : ℕ) → AllBelow ns n → Lacks ns n
AllBelow-Lacks [] n h = tt
AllBelow-Lacks (a ∷ ns) n h = ((λ e. omega arith), AllBelow-Lacks ns n h.1)

AllBelow-suc : (ns : List ℕ) (n : ℕ) → AllBelow ns n → AllBelow ns (n + 1)
AllBelow-suc [] n h = tt
AllBelow-suc (a ∷ ns) n h = (omega arith, AllBelow-suc ns n h.1)

-- Moving one node between the lists.
Distinct-move : (ns fs : List ℕ) (n : ℕ) → Distinct (ns ++ n ∷ fs) → Distinct ((ns ++ n ∷ []) ++ fs)
Distinct-move ns fs n h = rw (append_assoc ns (n ∷ []) fs) h

AllBelow-move :
    (ns fs : List ℕ) (n m : ℕ) → AllBelow (ns ++ n ∷ fs) m → AllBelow ((ns ++ n ∷ []) ++ fs) m
AllBelow-move ns fs n m h = rw (append_assoc ns (n ∷ []) fs) h

pub AllBelow-insert :
    (ns fs : List ℕ) (n m : ℕ) → n < m → AllBelow (ns ++ fs) m → AllBelow (ns ++ n ∷ fs) m
AllBelow-insert [] fs n m h k = (h, k)
AllBelow-insert (a ∷ ns) fs n m h k = (k.0, AllBelow-insert ns fs n m h k.1)

pub AllBelow-middle :
    (ns fs : List ℕ) (n m : ℕ) → AllBelow (ns ++ n ∷ fs) m → (n < m) × AllBelow (ns ++ fs) m
AllBelow-middle [] fs n m k = k
AllBelow-middle (a ∷ ns) fs n m k = let (l, r) = AllBelow-middle ns fs n m k.1 in (l, (k.0, r))

-- The queue after a node was taken that is in neither list.
abbrev pub Taken : ℕ → Queue → List ℕ → List ℕ → List ℕ → Type 0
Taken a q ns fs xs = Shape q ns fs xs × Lacks (ns ++ fs) a × (a < q.fresh)

new_node_pool :
    (q : Queue)
    → q.empty ≡ none
    → new_node q ≡ (q.fresh, record q { cells = update q.cells q.fresh blank; fresh = q.fresh + 1 })
unfolding new_node
new_node_pool q e = ground arith

new_node_free :
    (q : Queue) {a : ℕ}
    → q.empty ≡ some a
    → new_node q ≡ (a, record q { cells = update q.cells a blank; empty = (q.cells a).next })
unfolding new_node
new_node_free q e = ground arith

pub new_node-Taken :
    (q : Queue) (ns fs xs : List ℕ)
    → Shape q ns fs xs
    → (a : ℕ) × (q1 : Queue) × (fs1 : List ℕ) × (new_node q ≡ (a, q1))
      × Taken a q1 ns fs1 xs
      × (q1.head ≡ q.head)
      × (q1.tail ≡ q.tail)
new_node-Taken q ns [] xs s =
    let l = AllBelow-Lacks (ns ++ []) q.fresh s.known in
    let (ln, lf) = Lacks-append ns [] q.fresh l in
    (
      q.fresh,
      record q { cells = update q.cells q.fresh blank; fresh = q.fresh + 1 },
      [],
      new_node_pool q s.free,
      (
        record {
          used = Seg-update q.cells q.fresh blank none q.head ns xs ln s.used;
          ends = s.ends;
          free = s.free;
          distinct = s.distinct;
          known = AllBelow-suc (ns ++ []) q.fresh s.known;
        },
        l,
        omega arith,
      ),
      refl,
      refl,
    )
new_node-Taken q ns (f ∷ fs) xs s =
    let (l, d) = Distinct-middle ns fs f s.distinct in
    let (ln, lf) = Lacks-append ns fs f l in
    let (lt, k) = AllBelow-middle ns fs f q.fresh s.known in
    (
      f,
      record q { cells = update q.cells f blank; empty = (q.cells f).next },
      fs,
      new_node_free q s.free.0,
      (
        record {
          used = Seg-update q.cells f blank none q.head ns xs ln s.used;
          ends = s.ends;
          free = Free-update q.cells f blank (q.cells f).next fs lf s.free.1;
          distinct = d;
          known = k;
        },
        l,
        lt,
      ),
      refl,
      refl,
    )

link_first :
    (q : Queue) (a x : ℕ)
    → q.head ≡ none
    → link q a x ≡ record q {
      cells = update q.cells a (record blank { ptr = x });
      head = some a;
      tail = some a;
    }
unfolding link
link_first q a x h = ground arith

filled : Queue → ℕ → ℕ → Cells
filled q a x = update q.cells a (record blank { ptr = x })

link_behind :
    (q : Queue) (a x : ℕ) {b t : ℕ}
    → q.head ≡ some b
    → q.tail ≡ some t
    → link q a x ≡ record q { cells = linked (filled q a x) t a x; tail = some a }
unfolding link filled
link_behind q a x h e = rw (h, e)

last_of-snoc : (a : ℕ) (ns : List ℕ) (n : ℕ) → last_of a (ns ++ n ∷ []) ≡ n
last_of-snoc a [] n = refl
last_of-snoc a (b ∷ ns) n = last_of-snoc b ns n

Free-linked :
    (c : Cells) (t n x : ℕ) (cur : Option ℕ) (fs : List ℕ)
    → Lacks fs t
    → Lacks fs n
    → Free c cur fs
    → Free (linked c t n x) cur fs
Free-linked c t n x cur fs lt ln f =
    Free-update (update c t (record (c t) { next = some n })) n
      (record { ptr = x; next = none; prev = some t }) cur fs ln
      (Free-update c t (record (c t) { next = some n }) cur fs lt f)

-- The last node is in no free list.
last-Lacks : (a : ℕ) (ns fs : List ℕ) → Distinct ((a ∷ ns) ++ fs) → Lacks fs (last_of a ns)
last-Lacks a [] fs d = d.0
last-Lacks a (b ∷ ns) fs d = last-Lacks b ns fs d.1

first-Shape :
    (q : Queue) (a x : ℕ) (fs : List ℕ)
    → Taken a q [] fs []
    → Shape (record q { cells = filled q a x; head = some a; tail = some a }) (a ∷ []) fs (x ∷ [])
unfolding filled
first-Shape q a x fs (s, l, h) = record {
  used = rw (update_self q.cells a (record blank { ptr = x })) (refl, refl, refl, refl);
  ends = refl;
  free = Free-update q.cells a (record blank { ptr = x }) q.empty fs l s.free;
  distinct = (l, s.distinct);
  known = (h, s.known);
}

behind-Shape :
    (q : Queue) (a x b : ℕ) (ns fs xs : List ℕ)
    → Taken a q (b ∷ ns) fs xs
    → Shape
        (record q { cells = linked (filled q a x) (last_of b ns) a x; tail = some a })
        (b ∷ ns ++ a ∷ [])
        fs
        (xs ++ x ∷ [])
unfolding filled
behind-Shape q a x b ns fs xs (s, l, h) =
    let v : Node = record blank { ptr = x } in
    let (ln, lf) = Lacks-append (b ∷ ns) fs a l in
    let c = update q.cells a v in
    let d : Distinct (b ∷ ns) = Distinct-append (b ∷ ns) fs s.distinct in
    record {
      used =
          Seg-linked c a x none q.head b ns xs ln d
            (Seg-update q.cells a v none q.head (b ∷ ns) xs ln s.used);
      ends = ap some (sym (last_of-snoc b ns a));
      free =
          Free-linked c (last_of b ns) a x q.empty fs (last-Lacks b ns fs s.distinct) lf
            (Free-update q.cells a v q.empty fs lf s.free);
      distinct = Distinct-move (b ∷ ns) fs a (Distinct-insert (b ∷ ns) fs a l s.distinct);
      known = AllBelow-move (b ∷ ns) fs a q.fresh (AllBelow-insert (b ∷ ns) fs a q.fresh h s.known);
    }

-- Linking the taken node puts its item at the end.
pub link-Shape :
    (q : Queue) (a x : ℕ) (ns fs xs : List ℕ)
    → Taken a q ns fs xs
    → Shape (link q a x) (ns ++ a ∷ []) fs (xs ++ x ∷ [])
unfolding filled
link-Shape q a x [] fs [] t = rw (link_first q a x t.0.used) (first-Shape q a x fs t)
link-Shape q a x [] fs (y ∷ xs) t = absurd t.0.used
link-Shape q a x (b ∷ ns) fs [] t = absurd t.0.used
link-Shape q a x (b ∷ ns) fs (y ∷ xs) t =
    rw (link_behind q a x t.0.used.0 t.0.ends) (behind-Shape q a x b ns fs (y ∷ xs) t)
