-- ===== src/Strings/Separate.antt =====
-- `ks_separate_string` of src/ks_string.c and what it calls: the strings that the array points to
-- once the buffer is cut and each of them is cleaned up in its place.
pub mod Plain
pub mod Quoted
use libks.Base.{
  ℕ, zero, suc, ◌+◌, ◌-◌, ◌≡◌, Bool, true, false, not, ◌&&◌, ◌||◌, Option, none, some, List, [],
  ◌∷◌, ◌++◌, length, take, ◌==◌, if◌then◌else◌, Run, done, abort, fault, ◌>>=◌, codes,
}

abbrev pub quote : ℕ
quote = b'\''

abbrev pub escape_meta : ℕ
escape_meta = b'\\'

abbrev pub space : ℕ
space = b' '

-- `strchr`, as a test
unfoldable pub has_char : ℕ → List ℕ → Bool
has_char c [] = false
has_char c (x ∷ xs) = x == c || has_char c xs

pub unescape_char : ℕ → ℕ
unescape_char c =
    if c == b'n'
    then b'\n'
    else (if c == b'r'
        then b'\r'
        else (if c == b't' then b'\t' else (if c == b's' then space else c)))

-- What stands for a backslash and the character behind it, where it is an escape. The delimiter is 0
-- where it is a space.
pub escaped : ℕ → ℕ → Option ℕ
unfolding unescape_char
escaped delim e =
    if e == quote || e == b'"' || (not (delim == 0) && e == delim) || e == escape_meta
    then some e
    else (if unescape_char e == e then none else some (unescape_char e))

-- Whether the character at hand is a quote that opens or closes.
abbrev pub quotes : Bool → ℕ → List ℕ → Bool
quotes inside c behind = c == quote && (inside || has_char quote behind)

-- The mark `end` once a character was copied to the end of `out`.
abbrev pub marked : Bool → ℕ → List ℕ → Option ℕ → Option ℕ
marked inside c out end = if not (c == space) || inside then some (length out + 1) else end

-- The loop of `cleanup_separated_string`: what was copied, and the mark where the string is to end.
pub clean_loop : ℕ → Bool → List ℕ → Option ℕ → List ℕ → List ℕ × Option ℕ
unfolding escaped has_char
clean_loop delim inside out end [] = (out, end)
clean_loop delim inside out end (c ∷ []) =
    if quotes inside c []
    then (out, if inside then end else some (length out))
    else (out ++ c ∷ [], marked inside c out end)
clean_loop delim inside out end (c ∷ e ∷ s) =
    elim (if c == escape_meta then escaped delim e else none) [
      | some x ↦ clean_loop delim inside (out ++ x ∷ []) (some (length out + 1)) s
      | none ↦ elim (quotes inside c (e ∷ s)) [
        | true ↦
            clean_loop delim (not inside) out (if inside then end else some (length out)) (e ∷ s)
        | false ↦ clean_loop delim inside (out ++ c ∷ []) (marked inside c out end) (e ∷ s)
      ]
    ]

pub skip_spaces : List ℕ → List ℕ
skip_spaces [] = []
skip_spaces (c ∷ s) = if c == space then skip_spaces s else c ∷ s

-- `if (end) *end = '\0'`. Nothing was copied where there is no mark.
abbrev pub ended : List ℕ → List ℕ × Option ℕ → List ℕ
ended s (out, none) = s
ended s (out, some n) = take n out

-- `cleanup_separated_string`
pub cleanup : ℕ → List ℕ → List ℕ
unfolding clean_loop skip_spaces
cleanup delim s = ended (skip_spaces s) (clean_loop delim false [] none (skip_spaces s))

-- A string in front, with what stands behind its delimiter, if there was one.
abbrev pub Cut : Type 0
Cut = List ℕ × Option (List ℕ)

abbrev pub put_front : ℕ → Run Cut → Run Cut
put_front c r = do (s, rest) ← r; done (c ∷ s, rest)

-- The state FIND_DELIM of `separate_string_char_delim`. Behind a backslash the pointer moves on
-- twice: where it stands last, that is past the end of the buffer.
pub find_delim : ℕ → Bool → List ℕ → Run Cut
unfolding has_char
find_delim delim inside [] = done ([], none)
find_delim delim inside (c ∷ []) =
    if c == escape_meta
    then fault
    else (if quotes inside c []
        then done (c ∷ [], none)
        else (if c == delim && not inside then done ([], some []) else done (c ∷ [], none)))
find_delim delim inside (c ∷ e ∷ s) = elim (c == escape_meta) [
  | true ↦ put_front c (put_front e (find_delim delim inside s))
  | false ↦ elim (quotes inside c (e ∷ s)) [
    | true ↦ put_front c (find_delim delim (not inside) (e ∷ s))
    | false ↦
        if c == delim && not inside
        then done ([], some (e ∷ s))
        else put_front c (find_delim delim inside (e ∷ s))
  ]
]

-- The strings before they are cleaned up, at most as many as there is room for: the last of those is
-- not cut.
pub raw_strings : ℕ → ℕ → List ℕ → Run (List (List ℕ))
unfolding find_delim
raw_strings zero delim s = done []
raw_strings (suc room) delim [] = done []
raw_strings (suc zero) delim (c ∷ s) = done ((c ∷ s) ∷ [])
raw_strings (suc (suc room)) delim (c ∷ s) = do
  (front, behind) ← find_delim delim false (c ∷ s)
  elim behind [
    | none ↦ done (front ∷ [])
    | some t ↦ do more ← raw_strings (suc room) delim t; done (front ∷ more)
  ]

pub clean_all : ℕ → List (List ℕ) → List (List ℕ)
unfolding cleanup
clean_all delim [] = []
clean_all delim (s ∷ ss) = cleanup delim s ∷ clean_all delim ss

-- `separate_string_char_delim`
unfoldable pub separate_char : ℕ → ℕ → List ℕ → Run (List (List ℕ))
unfolding raw_strings clean_all
separate_char room delim s = do ss ← raw_strings room delim s; done (clean_all delim ss)

-- The state FIND_DELIM of `separate_string_blank_delim`.
pub find_blank : Bool → List ℕ → Run Cut
find_blank inside [] = done ([], none)
find_blank inside (c ∷ []) =
    if c == escape_meta
    then fault
    else (if c == space && not inside then done ([], some []) else done (c ∷ [], none))
find_blank inside (c ∷ e ∷ s) = elim (c == escape_meta) [
  | true ↦ put_front c (put_front e (find_blank inside s))
  | false ↦ elim (c == quote) [
    | true ↦ put_front c (find_blank (not inside) (e ∷ s))
    | false ↦
        if c == space && not inside
        then done ([], some (e ∷ s))
        else put_front c (find_blank inside (e ∷ s))
  ]
]

-- The spaces in front of a string, which stay in front of what is cut off.
pub leading : List ℕ → List ℕ
leading [] = []
leading (c ∷ s) = if c == space then c ∷ leading s else []

pub raw_blank : ℕ → List ℕ → Run (List (List ℕ))
unfolding find_blank skip_spaces leading
raw_blank zero s = done []
raw_blank (suc room) [] = done []
raw_blank (suc zero) (c ∷ s) = done ((c ∷ s) ∷ [])
raw_blank (suc (suc room)) (c ∷ s) = do
  (front, behind) ← find_blank false (skip_spaces (c ∷ s))
  elim behind [
    | none ↦ done ((leading (c ∷ s) ++ front) ∷ [])
    | some t ↦ do
      more ← raw_blank (suc room) (skip_spaces t)
      done ((leading (c ∷ s) ++ front) ∷ more)
  ]

-- `separate_string_blank_delim`
unfoldable pub separate_blank : ℕ → List ℕ → Run (List (List ℕ))
unfolding raw_blank clean_all
separate_blank room s = do ss ← raw_blank room s; done (clean_all 0 ss)

unfoldable pub separate_with : ℕ → ℕ → List ℕ → Run (List (List ℕ))
unfolding separate_blank separate_char
separate_with room delim s =
    if delim == space then separate_blank room s else separate_char room delim s

-- Behind `^^` the string itself names the delimiter, where something is behind that too.
abbrev pub named_delim : List ℕ → Option (ℕ × List ℕ)
named_delim (a ∷ b ∷ d ∷ c ∷ s) = if a == b'^' && b == b'^' then some (d, c ∷ s) else none
named_delim s = none

-- `ks_separate_string`
unfoldable pub separate_string : ℕ → ℕ → List ℕ → Run (List (List ℕ))
unfolding separate_with
separate_string room delim s = elim (named_delim s) [
  | some (d, t) ↦ separate_with room d t
  | none ↦ separate_with room delim s
]
