-- ===== src/Base/Unique.antt =====
-- Lists of addresses without repetition.
use Prim.Native.Nat.{ℕ}
use mathlib.Core.Path.{sym}
use mathlib.Core.Logic.{◌≢◌}
use mathlib.Core.List.{List, [], ◌∷◌, ◌++◌}

-- `Lacks ns n`: no member is `n`.
abbrev pub Lacks : List ℕ → ℕ → Type 0
Lacks [] n = Unit {0}
Lacks (a ∷ ns) n = (a ≢ n) × Lacks ns n

abbrev pub Distinct : List ℕ → Type 0
Distinct [] = Unit {0}
Distinct (a ∷ ns) = Lacks ns a × Distinct ns

pub Lacks-append : (ns fs : List ℕ) (n : ℕ) → Lacks (ns ++ fs) n → Lacks ns n × Lacks fs n
Lacks-append [] fs n h = (tt, h)
Lacks-append (a ∷ ns) fs n h = let (l, r) = Lacks-append ns fs n h.1 in ((h.0, l), r)

pub Lacks-join : (ns fs : List ℕ) (n : ℕ) → Lacks ns n → Lacks fs n → Lacks (ns ++ fs) n
Lacks-join [] fs n l r = r
Lacks-join (a ∷ ns) fs n l r = (l.0, Lacks-join ns fs n l.1 r)

pub Distinct-append : (ns fs : List ℕ) → Distinct (ns ++ fs) → Distinct ns
Distinct-append [] fs d = tt
Distinct-append (a ∷ ns) fs d = ((Lacks-append ns fs a d.0).0, Distinct-append ns fs d.1)

pub Distinct-middle :
    (ns fs : List ℕ) (n : ℕ) → Distinct (ns ++ n ∷ fs) → Lacks (ns ++ fs) n × Distinct (ns ++ fs)
Distinct-middle [] fs n h = h
Distinct-middle (a ∷ ns) fs n h =
    let (l, d) = Distinct-middle ns fs n h.1 in
    let (p, r) = Lacks-append ns (n ∷ fs) a h.0 in
    (((λ e. r.0 (sym e)), l), (Lacks-join ns fs a p r.1, d))

pub Distinct-insert :
    (ns fs : List ℕ) (n : ℕ) → Lacks (ns ++ fs) n → Distinct (ns ++ fs) → Distinct (ns ++ n ∷ fs)
Distinct-insert [] fs n l d = (l, d)
Distinct-insert (a ∷ ns) fs n l d =
    let (p, r) = Lacks-append ns fs a d.0 in
    (Lacks-join ns (n ∷ fs) a p ((λ e. l.0 (sym e)), r), Distinct-insert ns fs n l.1 d.1)

pub Distinct-behind : (ns fs : List ℕ) → Distinct (ns ++ fs) → Distinct fs
Distinct-behind [] fs d = d
Distinct-behind (a ∷ ns) fs d = Distinct-behind ns fs d.1
