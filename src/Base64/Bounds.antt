-- ===== src/Base64/Bounds.antt =====
-- Sizes and tables: what `Encode` writes, and a byte that `Decode` cannot look up.
use diginext.Base.{
  ℕ, suc, if_true, ◌+◌, ◌*◌, ◌/◌, ◌%◌, ◌^◌, ◌≤◌, ◌<◌, ◌≡◌, ◌≢◌, refl, ap, ◌∙◌, List, [], ◌∷◌,
  length, All, ok, undefined, read, bind_step, bind_undefined, ne→eqb, lt→ltb, ==_iff, arith,
}
use diginext.Base64.{
  IsByte, encode, sextet_of, sextet_at, decode_round, decode_loop, decode_bytes, decode,
  as_decode_error,
}
use diginext.Base64.Reference.{reference, IsFrameChar, reference-IsFrameChar}
use diginext.Base64.Encode.{encode-reference, length-reference}
use diginext.Base64.Totality.{split_last_two, decoded_size_lem}

-- On a byte string of fewer than 2 ^ 62 bytes, not exactly one, Encode returns four characters for
-- each three bytes begun, all of them ASCII and none the delimiter.
pub encode_bounds :
    (xs : List ℕ)
    → All IsByte xs
    → length xs < 2 ^ 62
    → length xs ≢ 1
    → (r : List ℕ) × (encode xs ≡ ok r) × (length r ≡ 4 * ((length xs + 2) / 3)) × All IsFrameChar r
encode_bounds xs h small many = (
  reference xs,
  rw (encode-reference xs h small, ne→eqb (length xs) 1 many) refl,
  length-reference xs,
  reference-IsFrameChar xs h,
)

-- A byte from 128 on is a negative index.
sextet_at-high : (c : ℕ) (cs : List ℕ) → 128 ≤ c → sextet_at (c ∷ cs) 0 ≡ undefined
unfolding sextet_at sextet_of read
sextet_at-high c cs h = ground (arith, h)

decode_loop-high :
    (fuel out_len c : ℕ) (cs : List ℕ)
    → 128 ≤ c
    → decode_loop (suc fuel) (c ∷ cs) out_len 0 [] ≡ undefined
unfolding decode_loop decode_round
decode_loop-high fuel out_len c cs h =
    if_true _ _ _ (lt→ltb 0 (length (c ∷ cs)) (omega arith))
    ∙ bind_undefined _ (bind_undefined _ (sextet_at-high c cs h))

-- On a string whose size is a multiple of four, fewer than 2 ^ 62, and whose first byte is 128 or
-- more, Decode is undefined.
pub decode-high :
    (c : ℕ) (cs : List ℕ)
    → 128 ≤ c
    → length (c ∷ cs) % 4 ≡ 0
    → length (c ∷ cs) < 2 ^ 62
    → decode (c ∷ cs) ≡ undefined
unfolding decode decode_bytes
decode-high c cs high four small =
    let (front, x, y, e) = split_last_two (c ∷ cs) (omega arith) in
    bind_undefined _ (
      if_true _ _ _ ((==_iff (length (c ∷ cs) % 4) 0).1 four)
      ∙ ap as_decode_error (
          bind_step _ (decoded_size_lem (c ∷ cs) front x y e (omega arith) small)
            (bind_undefined _ (decode_loop-high (length (c ∷ cs)) _ c cs high))))
