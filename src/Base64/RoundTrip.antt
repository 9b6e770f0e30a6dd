-- ===== src/Base64/RoundTrip.antt =====
-- What the encoder writes, the decoder reads back.
use diginext.Base.{
  ℕ, ◌+◌, ◌*◌, ◌/◌, ◌%◌, ◌^◌, ◌<◌, ◌≡◌, ◌≢◌, refl, ap, ◌∙◌, List, [], ◌∷◌, ◌++◌, arith, length, All,
  ok, ◌>>=◌, ne→eqb,
}
use diginext.Base64.{IsByte, padding, decoded_size, encode, decode}
use diginext.Base64.Reference.{symbol, reference, symbol-facts}
use diginext.Base64.Encode.{encode-reference, length-reference}
use diginext.Base64.Decode.{decode_list, decode_whole}
use diginext.Base64.Totality.{pad_of, decoded_size_lem}
use diginext.Base64.Groups.{decode_list-reference}

pad_of-symbol : (v : ℕ) → v < 64 → pad_of (symbol v) ≡ 0
unfolding pad_of
pad_of-symbol v h = rw (ne→eqb (symbol v) padding (symbol-facts v h).1)

pad_of-padding : pad_of padding ≡ 1
unfolding pad_of
pad_of-padding = refl

-- An encoding ends with two characters whose padding makes up for the missing bytes.
reference_end :
    (x : ℕ) (s : List ℕ)
    → All IsByte (x ∷ s)
    → (front : List ℕ) × (c : ℕ) × (d : ℕ) × (reference (x ∷ s) ≡ front ++ (c ∷ d ∷ []))
      × (length (x ∷ s) + pad_of d + pad_of c ≡ (length (x ∷ s) + 2) / 3 * 3)
unfolding reference
reference_end a [] h = (
  symbol (a / 4) ∷ symbol (a % 4 * 16) ∷ [],
  padding,
  padding,
  refl,
  omega (arith, pad_of-padding),
)
reference_end a (b ∷ []) h = (
  symbol (a / 4) ∷ symbol (a % 4 * 16 + b / 16) ∷ [],
  symbol (b % 16 * 4),
  padding,
  refl,
  omega (arith, pad_of-padding, pad_of-symbol (b % 16 * 4) (omega arith)),
)
reference_end a (b ∷ c ∷ []) h = (
  symbol (a / 4) ∷ symbol (a % 4 * 16 + b / 16) ∷ [],
  symbol (b % 16 * 4 + c / 64),
  symbol (c % 64),
  refl,
  omega (
    arith,
    pad_of-symbol (b % 16 * 4 + c / 64) (omega arith),
    pad_of-symbol (c % 64) (omega arith),
  ),
)
reference_end a (b ∷ c ∷ x ∷ s) h =
    let (front, y, z, e, n) = reference_end x s h.1.1.1 in
    (
      symbol (a / 4)
          ∷ symbol (a % 4 * 16 + b / 16)
          ∷ symbol (b % 16 * 4 + c / 64)
          ∷ symbol (c % 64)
          ∷ front,
      y,
      z,
      ap
          (λ r.
            symbol (a / 4)
            ∷ symbol (a % 4 * 16 + b / 16)
            ∷ symbol (b % 16 * 4 + c / 64)
            ∷ symbol (c % 64)
            ∷ r)
          e,
      omega (arith, n),
    )

decoded_size-reference :
    (x : ℕ) (s : List ℕ)
    → All IsByte (x ∷ s)
    → length (x ∷ s) < 2 ^ 60
    → decoded_size (reference (x ∷ s)) ≡ ok (length (x ∷ s))
decoded_size-reference x s h small =
    let (front, c, d, e, n) = reference_end x s h in
    let size = length-reference (x ∷ s) in
    decoded_size_lem (reference (x ∷ s)) front c d e (omega (arith, size)) (omega (arith, size))
    ∙ ap ok (omega (arith, size, n))

-- `Decode` reads back every byte string that `reference` encodes.
pub decode-reference : (s : List ℕ) → All IsByte s → length s < 2 ^ 60 → decode (reference s) ≡ ok s
decode-reference [] h small = unfold decode reference in refl
decode-reference (x ∷ s) h small =
    whole (reference (x ∷ s)) (length-reference (x ∷ s)) (decoded_size-reference x s h small)
      (decode_list-reference (x ∷ s) (length (x ∷ s)) [] h (omega arith))
  where
    whole :
        (r : List ℕ)
        → length r ≡ 4 * ((length (x ∷ s) + 2) / 3)
        → decoded_size r ≡ ok (length (x ∷ s))
        → decode_list (length (x ∷ s)) r [] ≡ ok (x ∷ s)
        → decode r ≡ ok (x ∷ s)
    whole [] n size run = absurd (omega arith)
    whole (y ∷ r) n size run =
        decode_whole y r ((length (x ∷ s) + 2) / 3) (length (x ∷ s)) (x ∷ s) n (omega arith) size
          run refl

-- Encoding a byte string of fewer than 2 ^ 60 bytes, not exactly one, and decoding the result gives
-- the string back.
pub decode-encode :
    (s : List ℕ) → All IsByte s → length s < 2 ^ 60 → length s ≢ 1 → (encode s >>= decode) ≡ ok s
decode-encode s h small many =
    rw (encode-reference s h (omega arith), ne→eqb (length s) 1 many) (decode-reference s h small)
