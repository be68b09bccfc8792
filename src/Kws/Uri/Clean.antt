-- ===== src/Kws/Uri/Clean.antt =====
-- What `clean_uri` of src/kws.c leaves of a path: where it is plain, and where it is in quotes.
use libks.Base.{
  All, All-append, ℕ, ◌≡◌, ◌<◌, refl, ap, ◌∙◌, ◌⊎◌, inl, inr, Bool, true, false, Bool-cases, ◌||◌,
  none, some, List, [], ◌∷◌, ◌++◌, append-nil, arith, length, drop, ◌==◌, if◌then◌else◌, done,
  codes,
}
use libks.Strings.Separate.{separate_string, separate_char, separate_with}
use libks.Strings.Separate.Plain.{IsPlain, Within, separate_char-Separated}
use libks.Strings.Separate.Quoted.{quoted, separate_char-quoted}
use libks.Kws.Uri.{
  text_eq, is_empty, go_up, keep_segments, join_segments, or_root, max_segments, clean_uri,
}

-- A segment that names something below the directory it stands in.
pub record IsName (s : List ℕ) : Type 0 where
  pub some_char : is_empty s ≡ false
  pub not_here : text_eq s (codes ".") ≡ false
  pub not_up : text_eq s (codes "..") ≡ false
  pub no_slash : All (Within b'/') s

go_up-All : (ss : List (List ℕ)) → All IsName ss → All IsName (go_up ss)
unfolding go_up
go_up-All [] h = tt
go_up-All (s ∷ []) h = tt
go_up-All (s ∷ t ∷ ss) h = (h.0, go_up-All (t ∷ ss) (h.1))

or_false : (a b : Bool) → (a || b) ≡ false → (a ≡ false) × (b ≡ false)
or_false true b h = absurd (ground (arith, h))
or_false false b h = (refl, h)

keep_segments-All :
    (kept ss : List (List ℕ))
    → All IsName kept
    → All (All (Within b'/')) ss
    → All IsName (keep_segments kept ss)
unfolding keep_segments
keep_segments-All kept [] k h = k
keep_segments-All kept (s ∷ ss) k h = elim (Bool-cases (is_empty s || text_eq s (codes "."))) [
  | inl e ↦ rw (e, keep_segments) (keep_segments-All kept ss k (h.1))
  | inr e ↦ elim (Bool-cases (text_eq s (codes ".."))) [
    | inl u ↦ rw (e, u, keep_segments) (keep_segments-All (go_up kept) ss (go_up-All kept k) (h.1))
    | inr u ↦
        let (a, b) = or_false (is_empty s) (text_eq s (codes ".")) e in
        rw (e, u, keep_segments)
          (keep_segments-All (kept ++ s ∷ []) ss
            (All-append IsName kept (s ∷ []) k
              (record { some_char = a; not_here = b; not_up = u; no_slash = h.0 }, tt))
            (h.1))
  ]
]

-- A path begins with a slash, so it does not name another delimiter.
separate_path :
    (path : List ℕ)
    → separate_string max_segments b'/' (b'/' ∷ path)
      ≡ separate_char max_segments b'/' (b'/' ∷ path)
unfolding separate_string separate_with
separate_path [] = refl
separate_path (a ∷ []) = refl
separate_path (a ∷ b ∷ []) = refl
separate_path (a ∷ b ∷ c ∷ s) = refl

clean_uri_of :
    (path : List ℕ) (ss : List (List ℕ))
    → separate_char max_segments b'/' (b'/' ∷ path) ≡ done ss
    → clean_uri path
      ≡ done (
          if length ss == max_segments
          then none
          else some (or_root (join_segments (keep_segments [] (drop 1 ss)))))
unfolding clean_uri
clean_uri_of path ss e = rw (separate_path path, e) refl

All-drop_one :
    (ss : List (List ℕ)) → All (All (Within b'/')) ss → All (All (Within b'/')) (drop 1 ss)
All-drop_one [] h = tt
All-drop_one (s ∷ ss) h = h.1

-- Of a path without quotes and backslashes `clean_uri` says that it is too deep, or it leaves a slash
-- in front of each of some names, none of which is empty, `.` or `..` or has a slash: the path
-- cannot lead out of the root. Nothing past the end of the string is read.
pub clean_uri_lem :
    (path : List ℕ)
    → All IsPlain path
    → (clean_uri path ≡ done none)
      ⊎ ((names : List (List ℕ)) × (clean_uri path ≡ done (some (or_root (join_segments names))))
          × All IsName names)
clean_uri_lem path h =
    let r = separate_char-Separated max_segments b'/' (b'/' ∷ path) ((refl, refl), h) in
    let e = clean_uri_of path r.ss (r.result) in
    elim (Bool-cases (length r.ss == max_segments)) [
      | inl p ↦ inl (e ∙ rw p refl)
      | inr p ↦
          let few : length r.ss < max_segments = ground (arith, r.within) in
          inr (
            keep_segments [] (drop 1 r.ss),
            e ∙ rw p refl,
            keep_segments-All [] (drop 1 r.ss) tt (All-drop_one r.ss (r.lacks few)),
          )
    ]

keep_one :
    (s : List ℕ)
    → is_empty s ≡ false
    → text_eq s (codes ".") ≡ false
    → text_eq s (codes "..") ≡ false
    → keep_segments [] (s ∷ []) ≡ s ∷ []
unfolding keep_segments
keep_one s a b c = rw (a, b, keep_segments, c) refl

-- A path in quotes is taken for one segment: whatever stands in it, slashes and `..` among it, is left
-- as it is.
pub clean_uri-quoted :
    (c : ℕ) (p : List ℕ)
    → All IsPlain (c ∷ p)
    → text_eq (c ∷ p) (codes ".") ≡ false
    → text_eq (c ∷ p) (codes "..") ≡ false
    → clean_uri (quoted (c ∷ p)) ≡ done (some (b'/' ∷ c ∷ p))
unfolding join_segments
clean_uri-quoted c p h here up =
    clean_uri_of (quoted (c ∷ p)) ([] ∷ (c ∷ p) ∷ []) (separate_char-quoted 61 b'/' c p refl refl h)
    ∙ ap (λ ss. done (some (or_root (join_segments ss)))) (keep_one (c ∷ p) refl here up)
    ∙ ap (λ s. done (some (b'/' ∷ s))) (append-nil (c ∷ p))
