-- ===== src/Base64/Tests.antt =====
-- Runs of the codec, those of gtest/include/Base64/Base64_Test.h among them, and the theorems on it
-- at concrete inputs.
use diginext.Base.{
  ◌≡◌, ◌≢◌, ◌⊎◌, refl, ℕ, ◌+◌, ◌*◌, ◌/◌, ◌%◌, List, [], ◌∷◌, All, codes, length, arith, ok, throws,
  read, ◌>>=◌,
}
use diginext.Base64
use diginext.Base64.{IsByte}
use diginext.Base64.Reference.{reference, symbol, IsFrameChar}
use diginext.Base64.Encode.{encode-reference}
use diginext.Base64.Totality.{trailing, decode_outcome}
use diginext.Base64.RoundTrip.{decode-encode}
use diginext.Base64.Bounds.{encode_bounds}

encode_hello : Base64.encode (codes "HELLO") ≡ ok (codes "SEVMTE8=")
unfolding Base64.encode Base64.encode_bytes Base64.encode_loop Base64.encode_round
    Base64.encode_tail Base64.put_symbol Base64.encoding_table Base64.index_first
    Base64.index_second Base64.index_third Base64.index_fourth read
encode_hello = refl

decode_hello : Base64.decode (codes "SEVMTE8=") ≡ ok (codes "HELLO")
unfolding Base64.decode Base64.decode_bytes Base64.decoded_size Base64.without_padding
    Base64.decode_loop Base64.decode_round Base64.sextet_at Base64.sextet_of Base64.decoding_table
    Base64.triple_of read
decode_hello = refl

-- Not one character is of the alphabet, and the string is decoded all the same.
decode_foreign : Base64.decode (codes "!?!?") ≡ ok (4 ∷ 16 ∷ 64 ∷ [])
unfolding Base64.decode Base64.decode_bytes Base64.decoded_size Base64.without_padding
    Base64.decode_loop Base64.decode_round Base64.sextet_at Base64.sextet_of Base64.decoding_table
    Base64.triple_of read
decode_foreign = refl

encode-reference_example : Base64.encode (codes "HELLO") ≡ ok (codes "SEVMTE8=")
unfolding reference symbol Base64.encoding_table
encode-reference_example = encode-reference (codes "HELLO") (omega arith) (omega arith)

decode-encode_example : (Base64.encode (codes "HELLO") >>= Base64.decode) ≡ ok (codes "HELLO")
decode-encode_example = decode-encode (codes "HELLO") (omega arith) (omega arith) (omega arith)

decode_outcome_example :
    ((length (codes "!?!?") % 4 ≢ 0)
      × (Base64.decode (codes "!?!?") ≡ throws "Input data size is not a multiple of 4"))
    ⊎ ((r : List ℕ) × (length (codes "!?!?") % 4 ≡ 0)
        × (Base64.decode (codes "!?!?") ≡ ok r)
        × All IsByte r
        × (length r + trailing (codes "!?!?") ≡ length (codes "!?!?") / 4 * 3))
decode_outcome_example = decode_outcome (codes "!?!?") (omega arith) (omega arith)

encode_bounds_example :
    (r : List ℕ) × (Base64.encode (codes "HELLO") ≡ ok r)
    × (length r ≡ 4 * ((length (codes "HELLO") + 2) / 3))
    × All IsFrameChar r
encode_bounds_example = encode_bounds (codes "HELLO") (omega arith) (omega arith) (omega arith)
