-- ===== src/Strings/Separate/Quoted.antt =====
-- A string in quotes, in `ks_separate_string` of src/ks_string.c: the delimiter is not looked for.
use libks.Base.{
  All, ℕ, suc, ◌≡◌, ◌<◌, refl, ap, ◌∙◌, inl, inr, true, false, Bool-cases, Option, none, some, List,
  [], ◌∷◌, ◌++◌, arith, length, length-append, take, take_all, append_assoc, ◌==◌, done,
}
use libks.Strings.Separate.{
  quote, escape_meta, space, has_char, marked, clean_loop, skip_spaces, ended, cleanup, put_front,
  find_delim, raw_strings, clean_all, separate_char,
}
use libks.Strings.Separate.Plain.{IsPlain}

abbrev pub quoted : List ℕ → List ℕ
quoted p = quote ∷ p ++ quote ∷ []

has_char_behind : (p : List ℕ) → has_char quote (p ++ quote ∷ []) ≡ true
unfolding has_char
has_char_behind [] = refl
has_char_behind (c ∷ p) = elim (Bool-cases (c == quote)) [
  | inl e ↦ rw e refl
  | inr e ↦ rw (e, has_char_behind p) refl
]

inside_step :
    (delim c e : ℕ) (s : List ℕ)
    → IsPlain c
    → find_delim delim true (c ∷ e ∷ s) ≡ put_front c (find_delim delim true (e ∷ s))
unfolding find_delim
inside_step delim c e s (q, m) = elim (Bool-cases (c == delim)) [
  | inl d ↦ rw (m, find_delim, q, d) refl
  | inr d ↦ rw (m, find_delim, q, d) refl
]

find_inside :
    (delim : ℕ) (p : List ℕ)
    → All IsPlain p
    → find_delim delim true (p ++ quote ∷ []) ≡ done (p ++ quote ∷ [], none)
unfolding find_delim
find_inside delim [] h = refl
find_inside delim (c ∷ []) h = inside_step delim c quote [] (h.0)
find_inside delim (c ∷ e ∷ p) h =
    inside_step delim c e (p ++ quote ∷ []) (h.0)
    ∙ ap (put_front c) (find_inside delim (e ∷ p) (h.1))

pub find_quoted :
    (delim c : ℕ) (p : List ℕ)
    → All IsPlain (c ∷ p)
    → find_delim delim false (quoted (c ∷ p)) ≡ done (quoted (c ∷ p), none)
unfolding find_delim
find_quoted delim c p h =
    rw (has_char_behind (c ∷ p), find_delim) (ap (put_front quote) (find_inside delim (c ∷ p) h))

marked_inside :
    (c : ℕ) (out : List ℕ) (end : Option ℕ) → marked true c out end ≡ some (length (out ++ c ∷ []))
marked_inside c out end = elim (Bool-cases (c == space)) [
  | inl e ↦ rw e (ap some (omega (arith, length-append out (c ∷ []))))
  | inr e ↦ rw e (ap some (omega (arith, length-append out (c ∷ []))))
]

clean_step :
    (delim c e : ℕ) (out : List ℕ) (end : Option ℕ) (s : List ℕ)
    → IsPlain c
    → clean_loop delim true out end (c ∷ e ∷ s)
      ≡ clean_loop delim true (out ++ c ∷ []) (some (length (out ++ c ∷ []))) (e ∷ s)
unfolding clean_loop
clean_step delim c e out end s (q, m) =
    rw (m, clean_loop, q)
      (ap (λ x. clean_loop delim true (out ++ c ∷ []) x (e ∷ s)) (marked_inside c out end))

clean_inside :
    (delim : ℕ) (p out : List ℕ) (end : Option ℕ)
    → All IsPlain p
    → 0 < length p
    → clean_loop delim true out end (p ++ quote ∷ []) ≡ (out ++ p, some (length (out ++ p)))
unfolding clean_loop
clean_inside delim [] out end h some_p = absurd (omega arith)
clean_inside delim (c ∷ []) out end h some_p = clean_step delim c quote out end [] (h.0)
clean_inside delim (c ∷ e ∷ p) out end h some_p =
    clean_step delim c e out end (p ++ quote ∷ []) (h.0)
    ∙ clean_inside delim (e ∷ p) (out ++ c ∷ []) (some (length (out ++ c ∷ []))) (h.1) (omega arith)
    ∙ ap (λ u. (u, some (length u))) (append_assoc out (c ∷ []) (e ∷ p))

clean_start :
    (delim c : ℕ) (p : List ℕ)
    → clean_loop delim false [] none (quoted (c ∷ p))
      ≡ clean_loop delim true [] (some 0) (c ∷ p ++ quote ∷ [])
unfolding clean_loop
clean_start delim c p = rw (has_char_behind (c ∷ p), clean_loop) refl

cleanup_of :
    (delim : ℕ) (s out : List ℕ) (n : ℕ)
    → clean_loop delim false [] none (skip_spaces s) ≡ (out, some n)
    → cleanup delim s ≡ take n out
unfolding cleanup
cleanup_of delim s out n e = ap (ended (skip_spaces s)) e

pub cleanup-quoted :
    (delim c : ℕ) (p : List ℕ) → All IsPlain (c ∷ p) → cleanup delim (quoted (c ∷ p)) ≡ c ∷ p
unfolding skip_spaces
cleanup-quoted delim c p h =
    cleanup_of delim (quoted (c ∷ p)) (c ∷ p) (length (c ∷ p))
      (clean_start delim c p ∙ clean_inside delim (c ∷ p) [] (some 0) h (omega arith))
    ∙ take_all (c ∷ p) (length (c ∷ p)) (omega arith)

-- A string in quotes behind a delimiter.
pub separate_char-quoted :
    (room delim c : ℕ) (p : List ℕ)
    → ((delim == quote) ≡ false)
    → ((delim == escape_meta) ≡ false)
    → All IsPlain (c ∷ p)
    → separate_char (suc (suc (suc room))) delim (delim ∷ quoted (c ∷ p)) ≡ done ([] ∷ (c ∷ p) ∷ [])
unfolding separate_char raw_strings clean_all find_delim
separate_char-quoted room delim c p q m h =
    let same : (delim == delim) ≡ true = ground arith in
    rw (m, find_delim, q, same, find_quoted delim c p h, cleanup-quoted delim c p h) refl
