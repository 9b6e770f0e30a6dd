-- ===== src/Base64/Groups.antt =====
-- The rounds of `Decode` on the encoding of some bytes.
use diginext.Base.{
  ℕ, ◌+◌, ◌*◌, ◌/◌, ◌%◌, ◌^◌, ◌≤◌, ◌<◌, ◌≡◌, refl, sym, ap, ◌∙◌, List, [], ◌∷◌, ◌++◌, append_assoc,
  append-nil, arith, length, length-append, All, ok, ne→eqb, lt→ltb, le→ltb,
}
use diginext.Base64.{IsByte, padding, shr, store, store_triple, triple_of}
use diginext.Base64.Reference.{symbol, reference, symbol-facts, sextet_of-symbol}
use diginext.Base64.Decode.{char_sextet, decode_list}

char_sextet-symbol : (v : ℕ) → v < 64 → char_sextet (symbol v) ≡ ok v
unfolding char_sextet
char_sextet-symbol v h = rw (ne→eqb (symbol v) padding (symbol-facts v h).1) (sextet_of-symbol v h)

char_sextet-padding : char_sextet padding ≡ ok 0
unfolding char_sextet
char_sextet-padding = refl

-- A store with room, and one without, behind bytes that are stored.
store_room :
    (out_len : ℕ) (out done : List ℕ) (v b : ℕ)
    → v % 2 ^ 8 ≡ b
    → length out + length done < out_len
    → store out_len (out ++ done) v ≡ out ++ (done ++ b ∷ [])
store_room out_len out done v b e h =
    rw (lt→ltb (length (out ++ done)) out_len (omega (arith, length-append out done)), e)
      (append_assoc out done (b ∷ []))

store_full :
    (out_len : ℕ) (out done : List ℕ) (v : ℕ)
    → out_len ≤ length out + length done
    → store out_len (out ++ done) v ≡ out ++ done
store_full out_len out done v h =
    rw (le→ltb (length (out ++ done)) out_len (omega (arith, length-append out done))) refl

-- The sextets of bytes `a`, `b` and `c` put them together again.
triple_value :
    (a b c : ℕ)
    → IsByte a
    → IsByte b
    → IsByte c
    → triple_of (a / 4) (a % 4 * 16 + b / 16) (b % 16 * 4 + c / 64) (c % 64)
      ≡ a * 2 ^ 16 + b * 2 ^ 8 + c
unfolding triple_of
triple_value a b c ha hb hc = omega arith

first_byte :
    (a b c : ℕ) → IsByte b → IsByte c → IsByte a → (a * 2 ^ 16 + b * 2 ^ 8 + c) / 2 ^ 16 % 2 ^ 8 ≡ a
first_byte a b c hb hc ha = omega arith

second_byte : (a b c : ℕ) → IsByte b → IsByte c → (a * 2 ^ 16 + b * 2 ^ 8 + c) / 2 ^ 8 % 2 ^ 8 ≡ b
second_byte a b c hb hc = omega arith

third_byte : (a b c : ℕ) → IsByte c → (a * 2 ^ 16 + b * 2 ^ 8 + c) / 2 ^ 0 % 2 ^ 8 ≡ c
third_byte a b c hc = omega arith

-- The stores of one triple, where three, two or one of its bytes are wanted.
module _ (out_len : ℕ) (out : List ℕ) (a b c t : ℕ) (bytes : t ≡ a * 2 ^ 16 + b * 2 ^ 8 + c)
    (ha : IsByte a) (hb : IsByte b) (hc : IsByte c) where
  stored_one : length out < out_len → store out_len out (shr t 16) ≡ out ++ a ∷ []
  stored_one h =
      rw (lt→ltb (length out) out_len h)
        (ap (λ v. out ++ v ∷ []) (ap (λ s. s / 2 ^ 16 % 2 ^ 8) bytes ∙ first_byte a b c hb hc ha))

  stored_two :
      length out + 1 < out_len → store out_len (out ++ a ∷ []) (shr t 8) ≡ out ++ (a ∷ b ∷ [])
  stored_two h =
      store_room out_len out (a ∷ []) (shr t 8) b
        (ap (λ s. s / 2 ^ 8 % 2 ^ 8) bytes ∙ second_byte a b c hb hc) (omega arith)

  stored_three :
      length out + 2 < out_len
      → store out_len (out ++ (a ∷ b ∷ [])) (shr t 0) ≡ out ++ (a ∷ b ∷ c ∷ [])
  stored_three h =
      store_room out_len out (a ∷ b ∷ []) (shr t 0) c
        (ap (λ s. s / 2 ^ 0 % 2 ^ 8) bytes ∙ third_byte a b c hc) (omega arith)

  triple_whole : length out + 3 ≤ out_len → store_triple out_len out t ≡ out ++ (a ∷ b ∷ c ∷ [])
  triple_whole h =
      ap (λ o. store out_len (store out_len o (shr t 8)) (shr t 0)) (stored_one (omega arith))
      ∙ ap (λ o. store out_len o (shr t 0)) (stored_two (omega arith))
      ∙ stored_three (omega arith)

  triple_two : out_len ≡ length out + 2 → store_triple out_len out t ≡ out ++ (a ∷ b ∷ [])
  triple_two h =
      ap (λ o. store out_len (store out_len o (shr t 8)) (shr t 0)) (stored_one (omega arith))
      ∙ ap (λ o. store out_len o (shr t 0)) (stored_two (omega arith))
      ∙ store_full out_len out (a ∷ b ∷ []) (shr t 0) (omega arith)

  triple_one : out_len ≡ length out + 1 → store_triple out_len out t ≡ out ++ a ∷ []
  triple_one h =
      ap (λ o. store out_len (store out_len o (shr t 8)) (shr t 0)) (stored_one (omega arith))
      ∙ ap (λ o. store out_len o (shr t 0))
          (store_full out_len out (a ∷ []) (shr t 8) (omega arith))
      ∙ store_full out_len out (a ∷ []) (shr t 0) (omega arith)

pub decode_list-reference :
    (s : List ℕ) (out_len : ℕ) (out : List ℕ)
    → All IsByte s
    → out_len ≡ length out + length s
    → decode_list out_len (reference s) out ≡ ok (out ++ s)
unfolding decode_list reference
decode_list-reference [] out_len out hs h = ap ok (sym (append-nil out))
decode_list-reference (a ∷ []) out_len out hs h =
    rw
      (
        char_sextet-symbol (a / 4) (omega arith),
        char_sextet-symbol (a % 4 * 16) (omega arith),
        char_sextet-padding,
      )
      (ap ok (
        triple_one out_len out a 0 0 (triple_of (a / 4) (a % 4 * 16) 0 0)
          (unfold triple_of in omega arith) hs.0 (omega arith) (omega arith) h))
decode_list-reference (a ∷ b ∷ []) out_len out hs h =
    rw
      (
        char_sextet-symbol (a / 4) (omega arith),
        char_sextet-symbol (a % 4 * 16 + b / 16) (omega arith),
        char_sextet-symbol (b % 16 * 4) (omega arith),
        char_sextet-padding,
      )
      (ap ok (
        triple_two out_len out a b 0 (triple_of (a / 4) (a % 4 * 16 + b / 16) (b % 16 * 4) 0)
          (unfold triple_of in omega arith) hs.0 hs.1.0 (omega arith) h))
decode_list-reference (a ∷ b ∷ c ∷ s) out_len out hs h =
    rw
      (
        char_sextet-symbol (a / 4) (omega arith),
        char_sextet-symbol (a % 4 * 16 + b / 16) (omega arith),
        char_sextet-symbol (b % 16 * 4 + c / 64) (omega arith),
        char_sextet-symbol (c % 64) (omega arith),
      )
      (ap (λ o. decode_list out_len (reference s) o)
          (triple_whole out_len out a b c _ (triple_value a b c hs.0 hs.1.0 hs.1.1.0) hs.0 hs.1.0
            hs.1.1.0 (omega arith))
        ∙ decode_list-reference s out_len (out ++ (a ∷ b ∷ c ∷ [])) hs.1.1.1
            (omega (arith, length-append out (a ∷ b ∷ c ∷ [])))
        ∙ ap ok (append_assoc out (a ∷ b ∷ c ∷ []) s))
