-- ===== src/Base64/Totality.antt =====
-- How `Decode` ends on every ASCII string.
use diginext.Base.{
  ℕ, ◌+◌, ◌-◌, ◌*◌, ◌/◌, ◌%◌, ◌^◌, ◌≤◌, ◌<◌, ◌≡◌, ◌≢◌, ◌⊎◌, inl, inr, refl, ap, ◌∙◌, List, [], ◌∷◌,
  ◌++◌, append_assoc, arith, length, length-append, All, All-append, ok, throws, some, get_elem?,
  read_behind, read, bind_step, Bool-cases, ne→eqb, ltb, ltb→lt, ltb→le, if◌then◌else◌, ◌==◌,
}
use Prim.Native.Nat.{min}
use native.Mathlib.Decide.{ℕ_discrete}
use diginext.Base64.{
  IsByte, padding, store, store_triple, triple_of, shr, without_padding, decoded_size, decode_bytes,
  decode, size_modulus,
}
use diginext.Base64.Reference.{sextet_of_ascii}
use diginext.Base64.Decode.{char_sextet, decode_list, decode_whole}

abbrev pub IsAscii : ℕ → Type 0
IsAscii c = c < 128

-- 1 for `=`, and 0 for any other character.
unfoldable pub pad_of : ℕ → ℕ
pad_of c = if c == padding then 1 else 0

pad_of-le : (c : ℕ) → pad_of c ≤ 1
unfolding pad_of
pad_of-le c = ground arith

-- How many of the last two characters are `=`.
pub trailing : List ℕ → ℕ
trailing [] = 0
trailing (c ∷ []) = 0
trailing (c ∷ d ∷ []) = pad_of d + pad_of c
trailing (c ∷ d ∷ x ∷ xs) = trailing (d ∷ x ∷ xs)

trailing-append :
    (front : List ℕ) (c d : ℕ) → trailing (front ++ (c ∷ d ∷ [])) ≡ pad_of d + pad_of c
unfolding trailing
trailing-append [] c d = refl
trailing-append (x ∷ []) c d = refl
trailing-append (x ∷ y ∷ []) c d = refl
trailing-append (x ∷ y ∷ z ∷ front) c d = trailing-append (y ∷ z ∷ front) c d

pub split_last_two :
    (xs : List ℕ)
    → 2 ≤ length xs
    → (front : List ℕ) × (c : ℕ) × (d : ℕ) × (xs ≡ front ++ (c ∷ d ∷ []))
split_last_two [] h = absurd (omega arith)
split_last_two (x ∷ []) h = absurd (omega arith)
split_last_two (x ∷ y ∷ []) h = ([], x, y, refl)
split_last_two (x ∷ y ∷ z ∷ xs) h =
    let (front, c, d, e) = split_last_two (y ∷ z ∷ xs) (omega arith) in
    (x ∷ front, c, d, ap (λ l. x ∷ l) e)

without_padding_lem :
    (base64 front xs : List ℕ) (back k out_len : ℕ) {c : ℕ}
    → base64 ≡ front ++ xs
    → (length base64 + size_modulus - back) % size_modulus ≡ length front + k
    → get_elem? (xs ++ 0 ∷ []) k ≡ some c
    → 1 ≤ out_len
    → out_len < 2 ^ 63
    → without_padding base64 back out_len ≡ ok (out_len - pad_of c)
unfolding without_padding pad_of
without_padding_lem base64 front xs back k out_len {c} e h g pos small =
    bind_step _
      (ap (λ s. read (s ++ 0 ∷ []) ((length base64 + size_modulus - back) % size_modulus)) e
        ∙ ap (λ s. read s ((length base64 + size_modulus - back) % size_modulus))
            (append_assoc front xs (0 ∷ []))
        ∙ read_behind front (xs ++ 0 ∷ []) _ k h g)
      (ap ok (elim (Bool-cases (c == padding)) [
        | inl p ↦ rw p (omega arith)
        | inr p ↦ rw p (omega arith)
      ]))

pub decoded_size_lem :
    (base64 front : List ℕ) (c d : ℕ)
    → base64 ≡ front ++ (c ∷ d ∷ [])
    → 4 ≤ length base64
    → length base64 < 2 ^ 62
    → decoded_size base64 ≡ ok (length base64 / 4 * 3 - pad_of d - pad_of c)
unfolding decoded_size
decoded_size_lem base64 front c d e four small =
    bind_step _
      (without_padding_lem base64 front _ 1 1 _ e (omega (arith, size)) refl (omega arith)
        (omega arith))
      (without_padding_lem base64 front _ 2 0 _ e (omega (arith, size)) refl
        (omega (arith, pad_of-le d)) (omega arith))
  where
    size : length base64 ≡ length front + 2
    size = omega (arith, ap length e, length-append front (c ∷ d ∷ []))

store_facts :
    (out_len : ℕ) (out : List ℕ) (v : ℕ)
    → All IsByte out
    → length out ≤ out_len
    → (length (store out_len out v) ≡ min out_len (length out + 1))
      × All IsByte (store out_len out v)
store_facts out_len out v bytes h = elim (Bool-cases (ltb (length out) out_len)) [
  | inl p ↦ rw p (
    omega (arith, length-append out ((v % 2 ^ 8) ∷ []), ltb→lt (length out) out_len p),
    All-append IsByte out ((v % 2 ^ 8) ∷ []) bytes (omega arith),
  )
  | inr p ↦ rw p (omega (arith, ltb→le (length out) out_len p), bytes)
]

store_triple_facts :
    (out_len : ℕ) (out : List ℕ) (t : ℕ)
    → All IsByte out
    → length out ≤ out_len
    → (length (store_triple out_len out t) ≡ min out_len (length out + 3))
      × All IsByte (store_triple out_len out t)
store_triple_facts out_len out t bytes h =
    let first = store_facts out_len out (shr t 16) bytes h in
    let out₁ = store out_len out (shr t 16) in
    let second = store_facts out_len out₁ (shr t 8) first.1 (omega (arith, first.0)) in
    let out₂ = store out_len out₁ (shr t 8) in
    let third = store_facts out_len out₂ (shr t 0) second.1 (omega (arith, second.0)) in
    (omega (arith, first.0, second.0, third.0), third.1)

char_sextet_ascii : (c : ℕ) → IsAscii c → (v : ℕ) × (char_sextet c ≡ ok v)
unfolding char_sextet
char_sextet_ascii c h = elim (Bool-cases (c == padding)) [
  | inl p ↦ (0, rw p)
  | inr p ↦ let (v, e, _) = sextet_of_ascii c h in (v, rw p e)
]

decode_list_total :
    (quads out_len : ℕ) (xs out : List ℕ)
    → All IsAscii xs
    → length xs ≡ 4 * quads
    → All IsByte out
    → length out ≤ out_len
    → (r : List ℕ) × (decode_list out_len xs out ≡ ok r)
      × (length r ≡ min out_len (length out + 3 * quads))
      × All IsByte r
unfolding decode_list
decode_list_total quads out_len [] out ha n bytes h = (out, refl, omega arith, bytes)
decode_list_total quads out_len (a ∷ []) out ha n bytes h = absurd (omega arith)
decode_list_total quads out_len (a ∷ b ∷ []) out ha n bytes h = absurd (omega arith)
decode_list_total quads out_len (a ∷ b ∷ c ∷ []) out ha n bytes h = absurd (omega arith)
decode_list_total quads out_len (a ∷ b ∷ c ∷ d ∷ xs) out ha n bytes h =
    let (va, ea) = char_sextet_ascii a ha.0 in
    let (vb, eb) = char_sextet_ascii b ha.1.0 in
    let (vc, ec) = char_sextet_ascii c ha.1.1.0 in
    let (vd, ed) = char_sextet_ascii d ha.1.1.1.0 in
    let t : ℕ = triple_of va vb vc vd in
    let stored = store_triple_facts out_len out t bytes h in
    let (r, e, size, all) =
      decode_list_total (quads - 1) out_len xs (store_triple out_len out t) ha.1.1.1.1 (omega arith)
        stored.1 (omega (arith, stored.0)) in
    (r, rw (ea, eb, ec, ed) e, omega (arith, stored.0), all)

-- A string whose size is a multiple of four, and not zero.
decode_quads :
    (x : ℕ) (xs : List ℕ)
    → All IsAscii (x ∷ xs)
    → length (x ∷ xs) < 2 ^ 62
    → length (x ∷ xs) % 4 ≡ 0
    → (r : List ℕ) × (decode (x ∷ xs) ≡ ok r)
      × All IsByte r
      × (length r + trailing (x ∷ xs) ≡ length (x ∷ xs) / 4 * 3)
decode_quads x xs ha small four =
    let s : List ℕ = x ∷ xs in
    let quads : ℕ = length s / 4 in
    let (front, c, d, e) = split_last_two s (omega arith) in
    let out_len : ℕ = length s / 4 * 3 - pad_of d - pad_of c in
    let sized = decoded_size_lem s front c d e (omega arith) small in
    let (r, run, size, bytes) =
      decode_list_total quads out_len s [] ha (omega arith) tt (omega arith) in
    let full : length r ≡ out_len = omega arith in
    (
      r,
      decode_whole x xs quads out_len r (omega arith) small sized run full,
      bytes,
      omega (arith, ap trailing e, trailing-append front c d, pad_of-le c, pad_of-le d, full),
    )

decode_odd_size :
    (x : ℕ) (xs : List ℕ)
    → length (x ∷ xs) % 4 ≢ 0
    → decode (x ∷ xs) ≡ throws "Input data size is not a multiple of 4"
unfolding decode decode_bytes
decode_odd_size x xs h = rw (ne→eqb (length (x ∷ xs) % 4) 0 h)

-- On every string of fewer than 2 ^ 62 ASCII characters `Decode` ends. If the size is no multiple
-- of four it throws the size error. Otherwise it returns bytes, three for each four characters less
-- one for each `=` among the last two, whatever the characters are.
pub decode_outcome :
    (s : List ℕ)
    → All IsAscii s
    → length s < 2 ^ 62
    → ((length s % 4 ≢ 0) × (decode s ≡ throws "Input data size is not a multiple of 4"))
      ⊎ ((r : List ℕ) × (length s % 4 ≡ 0)
          × (decode s ≡ ok r)
          × All IsByte r
          × (length r + trailing s ≡ length s / 4 * 3))
decode_outcome [] ha small =
    inr ([], omega arith, unfold decode in refl, tt, unfold trailing in refl)
decode_outcome (x ∷ xs) ha small = elim (ℕ_discrete (length (x ∷ xs) % 4) 0) [
  | yes four ↦
      let (r, e, bytes, size) = decode_quads x xs ha small four in inr (r, four, e, bytes, size)
  | no odd ↦ inl (odd, decode_odd_size x xs odd)
]
