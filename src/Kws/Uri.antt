-- ===== src/Kws/Uri.antt =====
-- `clean_uri` and `kws_parse_qs` of src/kws.c, which a request of HTTP goes through. A string is the
-- list of its bytes, without the NUL.
pub mod Clean
mod Left
pub mod Query
mod Tests
use libks.Base.{
  ℕ, zero, suc, ◌+◌, ◌-◌, ◌≡◌, Bool, true, false, not, ◌&&◌, ◌||◌, Option, none, some, List, [],
  ◌∷◌, ◌++◌, length, drop, ltb, ◌==◌, if◌then◌else◌, Run, done, abort, fault, ◌>>=◌, codes,
}
use libks.Strings.Separate.{separate_string}
use libks.Strings.Url.{Scanf, url_decode}

-- `strcmp`, as a test
pub text_eq : List ℕ → List ℕ → Bool
text_eq [] [] = true
text_eq [] (y ∷ ys) = false
text_eq (x ∷ xs) [] = false
text_eq (x ∷ xs) (y ∷ ys) = x == y && text_eq xs ys

abbrev pub is_empty : List ℕ → Bool
is_empty [] = true
is_empty (x ∷ xs) = false

-- `if (last > 1) last--`
pub go_up : List (List ℕ) → List (List ℕ)
go_up [] = []
go_up (s ∷ []) = []
go_up (s ∷ t ∷ ss) = s ∷ go_up (t ∷ ss)

-- The loop over the segments of a path; `kept` are those below `last`.
pub keep_segments : List (List ℕ) → List (List ℕ) → List (List ℕ)
unfolding text_eq go_up
keep_segments kept [] = kept
keep_segments kept (s ∷ ss) = elim (is_empty s || text_eq s (codes ".")) [
  | true ↦ keep_segments kept ss
  | false ↦ elim (text_eq s (codes "..")) [
    | true ↦ keep_segments (go_up kept) ss
    | false ↦ keep_segments (kept ++ s ∷ []) ss
  ]
]

-- Each segment is written behind a slash. None of them is overwritten before it is read: it stands
-- behind the ones that were kept before it and their slashes.
pub join_segments : List (List ℕ) → List ℕ
join_segments [] = []
join_segments (s ∷ ss) = b'/' ∷ s ++ join_segments ss

abbrev pub or_root : List ℕ → List ℕ
or_root [] = b'/' ∷ []
or_root (c ∷ s) = c ∷ s

abbrev pub max_segments : ℕ
max_segments = 64

-- `clean_uri` of a slash and `path`; none where it is too deep.
unfoldable pub clean_uri : List ℕ → Run (Option (List ℕ))
unfolding keep_segments join_segments
clean_uri path = do
  argv ← separate_string max_segments b'/' (b'/' ∷ path)
  done (
      if length argv == max_segments
      then none
      else some (or_root (join_segments (keep_segments [] (drop 1 argv)))))

-- What stands before the first of a character, and what behind it, if it is there: `strchr`, and the
-- NUL that is put in its place.
pub split_char : ℕ → List ℕ → List ℕ × Option (List ℕ)
split_char d [] = ([], none)
split_char d (c ∷ s) =
    let (front, behind) = split_char d s in if c == d then ([], some s) else (c ∷ front, behind)

pub plus_to_space : List ℕ → List ℕ
plus_to_space [] = []
plus_to_space (c ∷ s) = (if c == b'+' then b' ' else c) ∷ plus_to_space s

pub until_nul : List ℕ → List ℕ
until_nul [] = []
until_nul (c ∷ s) = if c == 0 then [] else c ∷ until_nul s

abbrev pub max_headers : ℕ
max_headers = 64

abbrev pub Headers : Type 0
Headers = List (List ℕ × List ℕ)

-- A name and a value, where there is a `=`.
pub add_pair : Headers → List ℕ × Option (List ℕ) → Headers
add_pair headers (name, none) = headers
add_pair headers (name, some val) = headers ++ (name, val) ∷ []

pub parse_pair : Scanf → Headers → List ℕ → Headers
unfolding split_char plus_to_space until_nul add_pair
parse_pair f headers q =
    add_pair headers (split_char b'=' (until_nul (url_decode f (plus_to_space q))))

-- The pieces of a query between the `&`.
pub pieces : List ℕ → List ℕ × List (List ℕ)
pieces [] = ([], [])
pieces (c ∷ s) = let (p, ps) = pieces s in if c == b'&' then ([], p ∷ ps) else (c ∷ p, ps)

-- The loop of `kws_parse_qs` over the pieces: the headers, and the pieces that are left over where
-- there are too many.
pub parse_pieces : Scanf → Headers → List (List ℕ) → Headers × List (List ℕ)
unfolding parse_pair
parse_pieces f headers [] = (headers, [])
parse_pieces f headers (q ∷ qs) =
    let rest = parse_pieces f (parse_pair f headers q) qs in
    if ltb (length headers) max_headers then rest else (headers, q ∷ qs)

-- What is freed behind the loop: the pointer to the pieces left over. It is not one that `strdup` gave,
-- unless no piece was read.
pub free_left : Headers → Headers × List (List ℕ) → Run Headers
free_left headers (found, []) = done found
free_left headers (found, q ∷ qs) = if ltb (length headers) max_headers then fault else done found

-- `kws_parse_qs` of the request's own query.
unfoldable pub parse_own_qs : Scanf → Headers → List ℕ → Run Headers
unfolding parse_pieces pieces free_left
parse_own_qs f headers qs =
    let (p, ps) = pieces qs in free_left headers (parse_pieces f headers (p ∷ ps))

-- `kws_parse_qs` of a query that is given.
unfoldable pub parse_qs : Scanf → Headers → List ℕ → Headers
unfolding parse_pieces pieces
parse_qs f headers qs = let (p, ps) = pieces qs in (parse_pieces f headers (p ∷ ps)).0
