-- ===== src/Base64/Decode.antt =====
-- The decoder on any input: it walks the string four characters at a time.
use diginext.Base.{
  ℕ, zero, suc, ◌+◌, ◌-◌, ◌*◌, ◌%◌, ◌^◌, ◌<◌, ◌≡◌, refl, sym, ap, ◌∙◌, List, [], ◌∷◌, ◌++◌,
  append_assoc, arith, length, length-append, Outcome, ok, ◌>>=◌, read_behind, bind_step,
  bind_assoc, fun_ext, some, get_elem?, read, if◌then◌else◌, ◌==◌, lt→ltb, le→ltb, ==_iff,
}
use diginext.Base64.{
  padding, sextet_of, sextet_at, store_triple, triple_of, decode_round, decode_loop, decoded_size,
  decode_bytes, decode,
}

-- The six bits of one character; `=` counts as zero.
unfoldable pub char_sextet : ℕ → Outcome ℕ
char_sextet c = if c == padding then ok 0 else sextet_of c

-- The decoder as a walk over the list, four characters at a time.
unfoldable pub decode_list : ℕ → List ℕ → List ℕ → Outcome (List ℕ)
decode_list out_len (a ∷ b ∷ c ∷ d ∷ xs) out = do
  a' ← char_sextet a
  b' ← char_sextet b
  c' ← char_sextet c
  d' ← char_sextet d
  decode_list out_len xs (store_triple out_len out (triple_of a' b' c' d'))
decode_list out_len xs out = ok out

sextet_at_lem :
    (base64 front : List ℕ) (xs : List ℕ) (i k : ℕ) {c : ℕ}
    → base64 ≡ front ++ xs
    → i ≡ length front + k
    → get_elem? (xs ++ 0 ∷ []) k ≡ some c
    → sextet_at base64 i ≡ char_sextet c
unfolding sextet_at char_sextet
sextet_at_lem base64 front xs i k e h g =
    bind_step _
      (ap (λ s. read (s ++ 0 ∷ []) i) e
        ∙ ap (λ s. read s i) (append_assoc front xs (0 ∷ []))
        ∙ read_behind front (xs ++ 0 ∷ []) i k h g)
      refl

decode_loop_lem :
    (fuel : ℕ) (base64 front xs : List ℕ) (quads out_len i : ℕ) (out : List ℕ)
    → base64 ≡ front ++ xs
    → i ≡ length front
    → length xs ≡ 4 * quads
    → quads < fuel
    → length base64 < 2 ^ 62
    → decode_loop fuel base64 out_len i out ≡ decode_list out_len xs out
unfolding decode_loop decode_list decode_round
decode_loop_lem zero base64 front xs quads out_len i out e h n f small = absurd (omega arith)
decode_loop_lem (suc fuel) base64 front [] quads out_len i out e h n f small =
    rw (le→ltb i (length base64) (omega (arith, ap length e, length-append front []))) refl
decode_loop_lem (suc fuel) base64 front (a ∷ []) quads out_len i out e h n f small =
    absurd (omega arith)
decode_loop_lem (suc fuel) base64 front (a ∷ b ∷ []) quads out_len i out e h n f small =
    absurd (omega arith)
decode_loop_lem (suc fuel) base64 front (a ∷ b ∷ c ∷ []) quads out_len i out e h n f small =
    absurd (omega arith)
decode_loop_lem (suc fuel) base64 front (a ∷ b ∷ c ∷ d ∷ xs) quads out_len i out e h n f small =
    rw
      (
        lt→ltb i (length base64) (omega (arith, size)),
        sextet_at_lem base64 front (a ∷ b ∷ c ∷ d ∷ xs) i 0 e (omega arith) refl,
        sextet_at_lem base64 front (a ∷ b ∷ c ∷ d ∷ xs) (i + 1) 1 e (omega arith) refl,
        sextet_at_lem base64 front (a ∷ b ∷ c ∷ d ∷ xs) (i + 2) 2 e (omega arith) refl,
        sextet_at_lem base64 front (a ∷ b ∷ c ∷ d ∷ xs) (i + 3) 3 e (omega arith) refl,
        fun_ext (
            rest (λ out'.
              decode_loop_lem fuel base64 (front ++ (a ∷ b ∷ c ∷ d ∷ [])) xs (quads - 1) out_len
                (i + 4) out' (e ∙ sym (append_assoc front (a ∷ b ∷ c ∷ d ∷ []) xs))
                (omega (arith, length-append front (a ∷ b ∷ c ∷ d ∷ []))) (omega arith)
                (omega arith) small)),
      )
      (simp bind_assoc)
  where
    size : length base64 ≡ length front + (4 + length xs)
    size = omega (arith, ap length e, length-append front (a ∷ b ∷ c ∷ d ∷ xs))

    rest :
        ((out' : List ℕ)
          → decode_loop fuel base64 out_len (i + 4) out' ≡ decode_list out_len xs out')
        → (out' : List ℕ)
        → decode_loop fuel base64 out_len ((i + 4) % 2 ^ 64) out' ≡ decode_list out_len xs out'
    rest ih out' = ap (λ k. decode_loop fuel base64 out_len k out') (omega (arith, size)) ∙ ih out'

-- The whole of `Decode`, where its parts succeed.
pub decode_whole :
    (x : ℕ) (xs : List ℕ) (quads out_len : ℕ) (r : List ℕ)
    → length (x ∷ xs) ≡ 4 * quads
    → length (x ∷ xs) < 2 ^ 62
    → decoded_size (x ∷ xs) ≡ ok out_len
    → decode_list out_len (x ∷ xs) [] ≡ ok r
    → length r ≡ out_len
    → decode (x ∷ xs) ≡ ok r
unfolding decode decode_bytes
decode_whole x xs quads out_len r n small size run full = rw (
  (==_iff (length (x ∷ xs) % 4) 0).1 (omega arith),
  size,
  decode_loop_lem (suc (length (x ∷ xs))) (x ∷ xs) [] (x ∷ xs) quads out_len 0 [] refl refl n
      (omega arith) small,
  run,
  (==_iff (length r) out_len).1 full,
)
