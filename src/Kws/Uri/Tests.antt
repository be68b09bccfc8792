-- ===== src/Kws/Uri/Tests.antt =====
-- The theorems about paths and queries at concrete requests.
use libks.Base.{
  All, ℕ, ◌≡◌, refl, ◌⊎◌, Bool, true, false, not, ◌&&◌, List, [], ◌∷◌, ◌++◌, arith, replicate, ltb,
  ◌==◌, done, fault, none, some, codes,
}
use libks.Strings.Separate.{quote, escape_meta}
use libks.Strings.Separate.Plain.{IsPlain}
use libks.Strings.Separate.Quoted.{quoted}
use libks.Strings.Scanner.{two_digits}
use libks.Kws.Uri.{text_eq, clean_uri, join_segments, or_root, Headers, parse_qs, parse_own_qs}
use libks.Kws.Uri.Clean.{IsName, clean_uri_lem, clean_uri-quoted}
use libks.Kws.Uri.Query.{IsText, IsPair, query, parse_qs-query, parse_own_qs-query}

abbrev all_are : (ℕ → Bool) → List ℕ → Bool
all_are test [] = true
all_are test (c ∷ s) = test c && all_are test s

abbrev is_plain : ℕ → Bool
is_plain c = not (c == quote) && not (c == escape_meta)

and_true : (a b : Bool) → (a && b) ≡ true → (a ≡ true) × (b ≡ true)
and_true true b h = (refl, h)
and_true false b h = absurd (ground (arith, h))

All-of :
    {P : ℕ → Type 0} (test : ℕ → Bool)
    → ((c : ℕ) → test c ≡ true → P c)
    → (s : List ℕ) → all_are test s ≡ true
    → All P s
All-of test holds [] h = tt
All-of test holds (c ∷ s) h =
    let (a, b) = and_true (test c) (all_are test s) h in (holds c a, All-of test holds s b)

plain : (s : List ℕ) → all_are is_plain s ≡ true → All IsPlain s
plain = All-of is_plain (λ c h. ground arith)

text : (s : List ℕ) → all_are (λ c. not (c == 0) && ltb c 128) s ≡ true → IsText s
text = All-of (λ c. not (c == 0) && ltb c 128) (λ c h. ground arith)

no_equals_in :
    (s : List ℕ) → all_are (λ c. not (c == b'=')) s ≡ true → All (λ c. (c == b'=') ≡ false) s
no_equals_in = All-of (λ c. not (c == b'=')) (λ c h. ground arith)

abbrev one_header : Headers
one_header = (codes "Host", codes "here") ∷ []

first-IsPair : IsPair (codes "a b", codes "1")
first-IsPair = record {
  name = text (codes "a b") refl;
  val = text (codes "1") refl;
  no_equals = no_equals_in (codes "a b") refl;
}

second-IsPair : IsPair (codes "c", [])
second-IsPair = record {
  name = text (codes "c") refl;
  val = tt;
  no_equals = no_equals_in (codes "c") refl;
}

-- The path `a/../b` below the root
clean_uri_lem_example :
    (clean_uri (codes "a/../b") ≡ done none)
    ⊎ ((names : List (List ℕ)) × (clean_uri (codes "a/../b")
          ≡ done (some (or_root (join_segments names))))
        × All IsName names)
clean_uri_lem_example = clean_uri_lem (codes "a/../b") (plain (codes "a/../b") refl)

-- A request for `/"../../etc/passwd"`
clean_uri-quoted_example :
    clean_uri (quoted (codes "../../etc/passwd")) ≡ done (some (b'/' ∷ codes "../../etc/passwd"))
unfolding text_eq
clean_uri-quoted_example =
    clean_uri-quoted b'.' (codes "./../etc/passwd") (plain (codes "../../etc/passwd") refl) refl
      refl

-- The query `a%20b=1&c=` of a request with one header
parse_qs-query_example :
    parse_qs two_digits one_header (query (codes "a b", codes "1") ((codes "c", []) ∷ []))
    ≡ one_header ++ (codes "a b", codes "1") ∷ (codes "c", []) ∷ []
parse_qs-query_example =
    parse_qs-query two_digits one_header (codes "a b", codes "1") ((codes "c", []) ∷ [])
      first-IsPair (second-IsPair, tt) (omega arith)

-- Two pairs where one more header fits
parse_own_qs-query_example :
    parse_own_qs two_digits
      (replicate 63 (codes "x", codes "y"))
      (query (codes "a b", codes "1") ((codes "c", []) ∷ []))
    ≡ fault
parse_own_qs-query_example =
    parse_own_qs-query two_digits (replicate 63 (codes "x", codes "y")) (codes "a b", codes "1")
      ((codes "c", []) ∷ []) first-IsPair (second-IsPair, tt) (omega arith)
