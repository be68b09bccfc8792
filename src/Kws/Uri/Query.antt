-- ===== src/Kws/Uri/Query.antt =====
-- A query that is built with `ks_url_encode`, read by `kws_parse_qs` of src/kws.c.
use libks.Base.{
  All, All-append, ℕ, zero, suc, ◌+◌, ◌-◌, ◌/◌, ◌%◌, ◌≡◌, ◌≤◌, ◌<◌, refl, sym, ap, ◌∙◌, Bool, true,
  false, not, ◌&&◌, some, List, [], ◌∷◌, ◌++◌, map, append_assoc, append-nil, arith, length,
  length-append, ltb, leb, lt→ltb, le→ltb_false, take, drop, ◌==◌, if◌then◌else◌, done, fault,
  passes_under, passes_under_at,
}
use libks.Kws.Uri.Left.{free_left_lem}
use libks.Strings.Separate.{has_char}
use libks.Strings.Url.{
  Scanf, url_decode, encoded, written, is_unsafe, hex_digit, AreAscii, decode_safe, decode-encoded,
}
use libks.Kws.Uri.{
  split_char, plus_to_space, until_nul, max_headers, Headers, add_pair, parse_pair, pieces,
  parse_pieces, free_left, parse_own_qs, parse_qs,
}

-- A character that is not `+` or `&`.
abbrev Joins : ℕ → Type 0
Joins c = ((c == b'+') ≡ false) × ((c == b'&') ≡ false)

abbrev joins : ℕ → Bool
joins c = not (c == b'+') && not (c == b'&')

joins-Joins : (c : ℕ) → joins c ≡ true → Joins c
joins-Joins c h = ground arith

hex_joins : passes_under (λ n. joins (hex_digit n)) 16 ≡ true
unfolding passes_under
hex_joins = refl

hex_digit-Joins : (n : ℕ) → n < 16 → Joins (hex_digit n)
hex_digit-Joins n h =
    joins-Joins (hex_digit n) (passes_under_at (λ n. joins (hex_digit n)) 16 n h hex_joins)

safe-Joins : (c : ℕ) → is_unsafe c ≡ false → Joins c
unfolding is_unsafe has_char
safe-Joins c e = ground arith

written-Joins : (b : Bool) (c : ℕ) → c < 128 → is_unsafe c ≡ b → All Joins (written b c)
written-Joins true c h e = (
  (refl, refl),
  (hex_digit-Joins (c / 16) (omega arith), (hex_digit-Joins (c % 16) (omega arith), tt)),
)
written-Joins false c h e = (safe-Joins c e, tt)

encoded-Joins : (s : List ℕ) → AreAscii s → All Joins (encoded s)
unfolding encoded
encoded-Joins [] h = tt
encoded-Joins (c ∷ s) h =
    All-append Joins (written (is_unsafe c) c) (encoded s)
      (written-Joins (is_unsafe c) c (h.0) refl) (encoded-Joins s (h.1))

plus_to_space_same : (s : List ℕ) → All Joins s → plus_to_space s ≡ s
unfolding plus_to_space
plus_to_space_same [] h = refl
plus_to_space_same (c ∷ s) h = let e = h.0.0 in rw e (ap (λ t. c ∷ t) (plus_to_space_same s (h.1)))

until_nul_same : (s : List ℕ) → All (λ c. (c == 0) ≡ false) s → until_nul s ≡ s
unfolding until_nul
until_nul_same [] h = refl
until_nul_same (c ∷ s) h = let e = h.0 in rw e (ap (λ t. c ∷ t) (until_nul_same s (h.1)))

split_char_at :
    (d : ℕ) (s t : List ℕ) → All (λ c. (c == d) ≡ false) s → split_char d (s ++ d ∷ t) ≡ (s, some t)
unfolding split_char
split_char_at d [] t h = let e : (d == d) ≡ true = ground arith in rw e refl
split_char_at d (c ∷ s) t h = let e = h.0 in rw (split_char_at d s t (h.1), e) refl

pieces_end : (s : List ℕ) → All Joins s → pieces s ≡ (s, [])
unfolding pieces
pieces_end [] h = refl
pieces_end (c ∷ s) h = let e = h.0.1 in rw (pieces_end s (h.1), e) refl

pieces_more :
    (s t : List ℕ) → All Joins s → pieces (s ++ b'&' ∷ t) ≡ (s, (pieces t).0 ∷ (pieces t).1)
unfolding pieces
pieces_more [] t h = refl
pieces_more (c ∷ s) t h = let e = h.0.1 in rw (pieces_more s t (h.1), e) refl

-- A name or a value: characters of seven bits, no NUL among them.
abbrev pub IsText : List ℕ → Type 0
IsText = All (λ c. ((c == 0) ≡ false) × (c < 128))

-- A pair whose name has no `=`.
pub record IsPair (p : List ℕ × List ℕ) : Type 0 where
  pub name : IsText p.0
  pub val : IsText p.1
  pub no_equals : All (λ c. (c == b'=') ≡ false) p.0

abbrev pub pair : List ℕ × List ℕ → List ℕ
pair (n, v) = encoded n ++ b'=' ∷ encoded v

text-AreAscii : (s : List ℕ) → IsText s → AreAscii s
text-AreAscii [] h = tt
text-AreAscii (c ∷ s) h = (h.0.1, text-AreAscii s (h.1))

text_nonzero : (s : List ℕ) → IsText s → All (λ c. (c == 0) ≡ false) s
text_nonzero [] h = tt
text_nonzero (c ∷ s) h = (h.0.0, text_nonzero s (h.1))

pair-Joins : (p : List ℕ × List ℕ) → IsPair p → All Joins (pair p)
pair-Joins (n, v) h =
    All-append Joins (encoded n) (b'=' ∷ encoded v) (encoded-Joins n (text-AreAscii n (h.name)))
      ((refl, refl), encoded-Joins v (text-AreAscii v (h.val)))

-- Pairs with `&` between them.
pub query : List ℕ × List ℕ → List (List ℕ × List ℕ) → List ℕ
query p [] = pair p
query p (q ∷ qs) = pair p ++ b'&' ∷ query q qs

pieces-query :
    (p : List ℕ × List ℕ) (ps : List (List ℕ × List ℕ))
    → IsPair p
    → All IsPair ps
    → pieces (query p ps) ≡ (pair p, map pair ps)
unfolding query
pieces-query p [] h hs = pieces_end (pair p) (pair-Joins p h)
pieces-query p (q ∷ qs) h hs =
    pieces_more (pair p) (query q qs) (pair-Joins p h)
    ∙ ap (λ t. (pair p, t.0 ∷ t.1)) (pieces-query q qs (hs.0) (hs.1))

module _ (f : Scanf) where
  decode-pair : (p : List ℕ × List ℕ) → IsPair p → url_decode f (pair p) ≡ p.0 ++ b'=' ∷ p.1
  unfolding url_decode
  decode-pair (n, v) h =
      decode-encoded f n (b'=' ∷ encoded v) (text-AreAscii n (h.name))
      ∙ ap (λ u. n ++ u)
          (decode_safe f b'=' (encoded v) refl
            ∙ ap (λ u. b'=' ∷ u)
                (ap (url_decode f) (sym (append-nil (encoded v)))
                  ∙ decode-encoded f v [] (text-AreAscii v (h.val))
                  ∙ append-nil v))

  parse_pair_lem :
      (headers : Headers) (p : List ℕ × List ℕ)
      → IsPair p
      → parse_pair f headers (pair p) ≡ headers ++ p ∷ []
  unfolding parse_pair add_pair
  parse_pair_lem headers (n, v) h =
      rw
        (
          plus_to_space_same (pair (n, v)) (pair-Joins (n, v) h),
          decode-pair (n, v) h,
          until_nul_same (n ++ b'=' ∷ v) (
              All-append (λ c. (c == 0) ≡ false) n (b'=' ∷ v) (text_nonzero n (h.name))
                (refl, text_nonzero v (h.val))),
          split_char_at b'=' n v (h.no_equals),
        )
        refl

  parse_pieces-map :
      (n : ℕ) (headers : Headers) (ps : List (List ℕ × List ℕ))
      → All IsPair ps
      → length headers + n ≡ max_headers
      → parse_pieces f headers (map pair ps) ≡ (headers ++ take n ps, map pair (drop n ps))
  unfolding parse_pieces
  parse_pieces-map zero headers [] h e = ap (λ t. (t, [])) (sym (append-nil headers))
  parse_pieces-map (suc n) headers [] h e = ap (λ t. (t, [])) (sym (append-nil headers))
  parse_pieces-map zero headers (p ∷ ps) h e =
      let full = le→ltb_false (length headers) max_headers (omega arith) in
      rw full (ap (λ t. (t, pair p ∷ map pair ps)) (sym (append-nil headers)))
  parse_pieces-map (suc n) headers (p ∷ ps) h e =
      let below = lt→ltb (length headers) max_headers (omega arith) in
      rw (below, parse_pair_lem headers p (h.0))
        (parse_pieces-map n (headers ++ p ∷ []) ps (h.1)
            (omega (arith, length-append headers (p ∷ [])))
          ∙ ap (λ t. (t, map pair (drop n ps))) (append_assoc headers (p ∷ []) (take n ps)))

  parse_pieces-query :
      (headers : Headers) (p : List ℕ × List ℕ) (ps : List (List ℕ × List ℕ))
      → IsPair p
      → All IsPair ps
      → length headers ≤ max_headers
      → parse_pieces f headers ((pieces (query p ps)).0 ∷ (pieces (query p ps)).1) ≡ (
        headers ++ take (max_headers - length headers) (p ∷ ps),
        map pair (drop (max_headers - length headers) (p ∷ ps)),
      )
  parse_pieces-query headers p ps h hs room =
      ap (λ t. parse_pieces f headers (t.0 ∷ t.1)) (pieces-query p ps h hs)
      ∙ parse_pieces-map (max_headers - length headers) headers (p ∷ ps) (h, hs) (omega arith)

  -- A query of `IsPair` pairs, each part of which is written as `ks_url_encode` does, is read by
  -- `kws_parse_qs` as these pairs, in their order behind the headers that were there. Those for
  -- which there is no room among the 64 headers are dropped, the first are not.
  pub parse_qs-query :
      (headers : Headers) (p : List ℕ × List ℕ) (ps : List (List ℕ × List ℕ))
      → IsPair p
      → All IsPair ps
      → length headers ≤ max_headers
      → parse_qs f headers (query p ps) ≡ headers ++ take (max_headers - length headers) (p ∷ ps)
  unfolding parse_qs
  parse_qs-query headers p ps h hs room = ap (λ t. t.0) (parse_pieces-query headers p ps h hs room)

  -- `kws_parse_qs` of the request's own query, which is a copy, where it is one of `IsPair` pairs, each
  -- part written as `ks_url_encode` does: where the pairs fit among the 64 headers, they are added in
  -- their order; where they do not and there was room for one of them, a pointer into the copy is freed
  -- in place of the copy; where there was no room at all, nothing changes.
  pub parse_own_qs-query :
      (headers : Headers) (p : List ℕ × List ℕ) (ps : List (List ℕ × List ℕ))
      → IsPair p
      → All IsPair ps
      → length headers ≤ max_headers
      → parse_own_qs f headers (query p ps) ≡ (
          if leb (length headers + length (p ∷ ps)) max_headers
          then done (headers ++ p ∷ ps)
          else if ltb (length headers) max_headers
          then fault
          else done headers)
  unfolding parse_own_qs
  parse_own_qs-query headers p ps h hs room =
      ap (free_left headers) (parse_pieces-query headers p ps h hs room)
      ∙ free_left_lem pair (max_headers - length headers) headers (p ∷ ps) (omega arith)
