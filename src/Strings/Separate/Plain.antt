-- ===== src/Strings/Separate/Plain.antt =====
-- Strings without quotes and backslashes, cut by `ks_separate_string` of src/ks_string.c.
use libks.Base.{
  ℕ, zero, suc, ◌≡◌, ◌≤◌, ◌<◌, refl, ap, inl, inr, false, Bool-cases, Option, none, some, List, [],
  ◌∷◌, ◌++◌, arith, All, All-append, All-take, length, ◌==◌, done,
}
use libks.Strings.Separate.{
  quote, escape_meta, space, marked, clean_loop, skip_spaces, ended, cleanup, find_delim,
  raw_strings, clean_all, separate_char,
}

-- A character that is neither a quote nor a backslash.
abbrev pub IsPlain : ℕ → Type 0
IsPlain c = ((c == quote) ≡ false) × ((c == escape_meta) ≡ false)

-- A property that all the characters of a plain string have, its strings have too.
module _ (P : ℕ → Type 0) where
  abbrev pub Both : ℕ → Type 0
  Both c = IsPlain c × P c

  abbrev AllBehind : Option (List ℕ) → Type 0
  AllBehind none = Unit {0}
  AllBehind (some t) = All Both t

  -- What is cut off is plain too and lacks the delimiter.
  record Cuts (delim : ℕ) (s : List ℕ) : Type 0 where
    front : List ℕ
    behind : Option (List ℕ)
    result : find_delim delim false s ≡ done (front, behind)
    front_all : All Both front
    lacks : All (λ c. (c == delim) ≡ false) front
    behind_all : AllBehind behind

  find_delim-Cuts : (delim : ℕ) (s : List ℕ) → All Both s → Cuts delim s
  unfolding find_delim
  find_delim-Cuts delim [] h = record {
    front = [];
    behind = none;
    result = refl;
    front_all = tt;
    lacks = tt;
    behind_all = tt;
  }
  find_delim-Cuts delim (c ∷ []) h =
      let q = h.0.0.0 in
      let m = h.0.0.1 in
      elim (Bool-cases (c == delim)) [
        | inl e ↦ record {
          front = [];
          behind = some [];
          result = rw (q, m, e) refl;
          front_all = tt;
          lacks = tt;
          behind_all = tt;
        }
        | inr e ↦ record {
          front = c ∷ [];
          behind = none;
          result = rw (q, m, e) refl;
          front_all = (h.0, tt);
          lacks = (e, tt);
          behind_all = tt;
        }
      ]
  find_delim-Cuts delim (c ∷ e ∷ s) h =
      let q = h.0.0.0 in
      let m = h.0.0.1 in
      elim (Bool-cases (c == delim)) [
        | inl d ↦ record {
          front = [];
          behind = some (e ∷ s);
          result = rw (m, find_delim, q, d) refl;
          front_all = tt;
          lacks = tt;
          behind_all = h.1;
        }
        | inr d ↦
            let r = find_delim-Cuts delim (e ∷ s) (h.1) in
            record {
              front = c ∷ r.front;
              behind = r.behind;
              result = rw (m, find_delim, q, d, r.result) refl;
              front_all = (h.0, r.front_all);
              lacks = (d, r.lacks);
              behind_all = r.behind_all;
            }
      ]

  -- What is copied out of a plain string are its characters.
  clean_loop-All :
      (delim : ℕ) (out : List ℕ) (end : Option ℕ) (s : List ℕ)
      → All Both out
      → All Both s
      → All Both (clean_loop delim false out end s).0
  unfolding clean_loop
  clean_loop-All delim out end [] o h = o
  clean_loop-All delim out end (c ∷ []) o h =
      let q = h.0.0.0 in rw q (All-append Both out (c ∷ []) o (h.0, tt))
  clean_loop-All delim out end (c ∷ e ∷ s) o h =
      let q = h.0.0.0 in
      let m = h.0.0.1 in
      rw (m, clean_loop, q)
        (clean_loop-All delim (out ++ c ∷ []) (marked false c out end) (e ∷ s)
          (All-append Both out (c ∷ []) o (h.0, tt)) (h.1))

  skip_spaces-All : (s : List ℕ) → All Both s → All Both (skip_spaces s)
  unfolding skip_spaces
  skip_spaces-All [] h = tt
  skip_spaces-All (c ∷ s) h = elim (Bool-cases (c == space)) [
    | inl e ↦ rw e (skip_spaces-All s (h.1))
    | inr e ↦ rw e h
  ]

  ended-All :
      (s : List ℕ) (r : List ℕ × Option ℕ) → All Both r.0 → All Both s → All Both (ended s r)
  ended-All s (out, none) o h = h
  ended-All s (out, some n) o h = All-take Both n out o

  pub cleanup-All : (delim : ℕ) (s : List ℕ) → All Both s → All Both (cleanup delim s)
  unfolding cleanup
  cleanup-All delim s h =
      let t = skip_spaces-All s h in
      ended-All (skip_spaces s) (clean_loop delim false [] none (skip_spaces s))
        (clean_loop-All delim [] none (skip_spaces s) tt t) t

  -- The strings that a plain one is cut into; they lack the delimiter where there was room for more.
  record Splits (room delim : ℕ) (s : List ℕ) : Type 0 where
    ss : List (List ℕ)
    result : raw_strings room delim s ≡ done ss
    within : length ss ≤ room
    plain : All (All Both) ss
    lacks : length ss < room → All (All (λ c. (c == delim) ≡ false)) ss

  raw_strings_more :
      (room delim c : ℕ) (s front t : List ℕ) (ss : List (List ℕ))
      → find_delim delim false (c ∷ s) ≡ done (front, some t)
      → raw_strings (suc room) delim t ≡ done ss
      → raw_strings (suc (suc room)) delim (c ∷ s) ≡ done (front ∷ ss)
  unfolding raw_strings
  raw_strings_more room delim c s front t ss e f = rw (e, f) refl

  raw_strings_last :
      (room delim c : ℕ) (s front : List ℕ)
      → find_delim delim false (c ∷ s) ≡ done (front, none)
      → raw_strings (suc (suc room)) delim (c ∷ s) ≡ done (front ∷ [])
  unfolding raw_strings
  raw_strings_last room delim c s front e = rw e refl

  Splits-behind :
      (room delim c : ℕ) (s front : List ℕ) (behind : Option (List ℕ))
      → find_delim delim false (c ∷ s) ≡ done (front, behind)
      → All Both front
      → All (λ x. (x == delim) ≡ false) front
      → AllBehind behind
      → ((t : List ℕ) → All Both t → Splits (suc room) delim t)
      → Splits (suc (suc room)) delim (c ∷ s)
  Splits-behind room delim c s front none e h l k more = record {
    ss = front ∷ [];
    result = raw_strings_last room delim c s front e;
    within = omega arith;
    plain = (h, tt);
    lacks = λ p. (l, tt);
  }
  Splits-behind room delim c s front (some t) e h l k more =
      let q = more t k in
      record {
        ss = front ∷ q.ss;
        result = raw_strings_more room delim c s front t q.ss e (q.result);
        within = omega (arith, q.within);
        plain = (h, q.plain);
        lacks = λ p. (l, q.lacks (omega arith));
      }

  raw_strings-Splits : (room delim : ℕ) (s : List ℕ) → All Both s → Splits room delim s
  unfolding raw_strings
  raw_strings-Splits zero delim s h = record {
    ss = [];
    result = refl;
    within = omega arith;
    plain = tt;
    lacks = λ p. tt;
  }
  raw_strings-Splits (suc room) delim [] h = record {
    ss = [];
    result = refl;
    within = omega arith;
    plain = tt;
    lacks = λ p. tt;
  }
  raw_strings-Splits (suc zero) delim (c ∷ s) h = record {
    ss = (c ∷ s) ∷ [];
    result = refl;
    within = omega arith;
    plain = (h, tt);
    lacks = λ p. absurd (omega arith);
  }
  raw_strings-Splits (suc (suc room)) delim (c ∷ s) h =
      let r = find_delim-Cuts delim (c ∷ s) h in
      Splits-behind room delim c s r.front r.behind (r.result) (r.front_all) (r.lacks)
        (r.behind_all) (λ t k. raw_strings-Splits (suc room) delim t k)

length-clean_all : (delim : ℕ) (ss : List (List ℕ)) → length (clean_all delim ss) ≡ length ss
unfolding clean_all
length-clean_all delim [] = refl
length-clean_all delim (s ∷ ss) = ap suc (length-clean_all delim ss)

-- A character of a plain string that is not the delimiter.
abbrev pub Within : ℕ → ℕ → Type 0
Within delim c = (c == delim) ≡ false

IsBoth-Within :
    (delim : ℕ) (s : List ℕ)
    → All (Both (λ c. Unit {0})) s
    → All (Within delim) s
    → All (Both (Within delim)) s
IsBoth-Within delim [] h l = tt
IsBoth-Within delim (c ∷ s) h l = ((h.0.0, l.0), IsBoth-Within delim s (h.1) (l.1))

plain_Within : (delim : ℕ) (s : List ℕ) → All (Both (Within delim)) s → All (Within delim) s
plain_Within delim [] h = tt
plain_Within delim (c ∷ s) h = (h.0.1, plain_Within delim s (h.1))

clean_all-Within :
    (delim : ℕ) (ss : List (List ℕ))
    → All (All (Both (λ c. Unit {0}))) ss
    → All (All (Within delim)) ss
    → All (All (Within delim)) (clean_all delim ss)
unfolding clean_all
clean_all-Within delim [] h l = tt
clean_all-Within delim (s ∷ ss) h l = (
  plain_Within delim (cleanup delim s)
      (cleanup-All (Within delim) delim s (IsBoth-Within delim s (h.0) (l.0))),
  clean_all-Within delim ss (h.1) (l.1),
)

-- The strings of a plain one: no access past its end, no more strings than there is room for, and none
-- of them has the delimiter where there was room for more.
pub record Separated (room delim : ℕ) (s : List ℕ) : Type 0 where
  pub ss : List (List ℕ)
  pub result : separate_char room delim s ≡ done ss
  pub within : length ss ≤ room
  pub lacks : length ss < room → All (All (Within delim)) ss

plain_Both : (s : List ℕ) → All IsPlain s → All (Both (λ c. Unit {0})) s
plain_Both [] h = tt
plain_Both (c ∷ s) h = ((h.0, tt), plain_Both s (h.1))

pub separate_char-Separated : (room delim : ℕ) (s : List ℕ) → All IsPlain s → Separated room delim s
unfolding separate_char
separate_char-Separated room delim s h =
    let r = raw_strings-Splits (λ c. Unit {0}) room delim s (plain_Both s h) in
    let l = length-clean_all delim r.ss in
    record {
      ss = clean_all delim r.ss;
      result = rw r.result refl;
      within = omega (arith, l, r.within);
      lacks = λ p. clean_all-Within delim r.ss (r.plain) (r.lacks (omega (arith, l)));
    }
