-- ===== src/Base64/Tests.antt =====
-- Runs of the encoder and the decoder.
use libks.Base.{◌≡◌, refl, [], ◌∷◌, ◌++◌, done, codes, arith, length, ◌≤◌}
use libks.Base64.Encode.{b64}
use libks.Base64.Standard.{standard, encode-eq-standard}
use libks.Base64.RoundTrip.{decode-encode}
use libks.Base64.Bounds.{encode_bounded}
use libks.Base64.{encode, decode}

encode_hello : encode (codes "hello") 64 ≡ codes "aGVsbG8=" ++ 0 ∷ []
unfolding encode
encode_hello = refl

decode_hello : decode (codes "aGVsbG8=" ++ 0 ∷ []) 64 ≡ done (codes "hello" ++ 0 ∷ [])
unfolding decode
decode_hello = refl

encode_cut : encode (codes "hello") 4 ≡ codes "aGV" ++ 0 ∷ []
unfolding encode
encode_cut = refl

encode-eq-standard_example : encode (codes "hello") 64 ≡ codes "aGVsbG8=" ++ 0 ∷ []
unfolding standard
encode-eq-standard_example =
    encode-eq-standard (codes "hello") 64 (omega arith) (omega arith) (omega arith)

decode-encode_example :
    decode (encode (codes "hello") 64 ++ 7 ∷ []) 64 ≡ done (codes "hello" ++ 0 ∷ [])
unfolding b64
decode-encode_example =
    decode-encode (codes "hello") (7 ∷ []) 64 64 (omega arith) (omega arith) (omega arith)
      (omega arith) (omega arith)

encode_bounded_example : length (encode (codes "hello") 4) ≤ 4
encode_bounded_example = encode_bounded (codes "hello") 4 (omega arith) (omega arith)
