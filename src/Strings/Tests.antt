-- ===== src/Strings/Tests.antt =====
-- Runs of the string calls, and the theorems about them at concrete strings.
use libks.Base.{ℕ, ◌≡◌, refl, List, [], ◌∷◌, done, fault, codes, arith}
use libks.Strings.Separate.{separate_string}
use libks.Strings.Scanner.{two_digits}
use libks.Strings.Url.{url_encode, url_decode, url_decode-url_encode}

cuts_and_cleans :
    separate_string 8 b',' (codes "a, 'b,c' ,,d\\,e ")
    ≡ done (codes "a" ∷ codes "b,c" ∷ [] ∷ codes "d,e" ∷ [])
unfolding separate_string
cuts_and_cleans = refl

reads_past_end : separate_string 8 b',' (codes "a,b\\") ≡ fault
unfolding separate_string
reads_past_end = refl

-- A name with a space in it, which is written as `a%20b`.
url_decode-url_encode_example :
    (e : List ℕ) × (url_encode (codes "a b") 32 ≡ done e) × (url_decode two_digits e ≡ codes "a b")
url_decode-url_encode_example =
    url_decode-url_encode two_digits (codes "a b") 32
      (omega arith, (omega arith, (omega arith, tt))) (omega arith) (omega arith)
