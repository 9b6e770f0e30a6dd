-- ===== src/Base64/Encode.antt =====
-- The encoder computes the reference encoding.
use diginext.Base.{
  ℕ, zero, suc, ◌+◌, ◌-◌, ◌*◌, ◌/◌, ◌%◌, ◌^◌, ◌≤◌, ◌<◌, ◌≡◌, refl, sym, ap, ◌∙◌, List, [], ◌∷◌,
  ◌++◌, append_assoc, append-nil, arith, length, length-append, All, Outcome, ok, undefined, ◌>>=◌,
  read_behind, read_past, if◌then◌else◌, ◌==◌, false, replicate, bind_assoc, bind_undefined, lt→ltb,
  le→ltb, ne→eqb, bind_step,
}
use diginext.Base64.{IsByte, encode_round}
use diginext.Base64.{encoded_size, encode_loop, encode_tail, encode_bytes, encode}
use diginext.Base64.Reference.{reference}
use diginext.Base64.Masks.{index_first_lem, index_second_lem}
use diginext.Base64.Rounds.{
  put_symbol_lem, put_next, encode_round_lem, encode_tail_none, encode_tail_one, encode_tail_two,
}

-- The loop and the tail from `i` on, the bytes before `i` being encoded.
abbrev finish : ℕ → List ℕ → ℕ → ℕ → ℕ → List ℕ → Outcome (List ℕ)
finish fuel mem in_len room i ret =
    encode_loop fuel mem in_len room i ret >>= λ r. encode_tail mem in_len room r.0 r.1

encode_from :
    (fuel : ℕ) (mem front xs : List ℕ) (in_len room i : ℕ) (ret : List ℕ)
    → mem ≡ front ++ (xs ++ 0 ∷ [])
    → All IsByte xs
    → i ≡ length front
    → in_len ≡ i + length xs
    → 2 ≤ in_len
    → in_len < 2 ^ 62
    → length xs < fuel
    → length ret + 4 * ((length xs + 2) / 3) ≤ room
    → finish fuel mem in_len room i ret ≡ ok (ret ++ reference xs)
unfolding encode_loop reference
encode_from zero mem front xs in_len room i ret m hx e n two small f h = absurd (omega arith)
encode_from (suc fuel) mem front [] in_len room i ret m hx e n two small f h =
    rw (le→ltb i ((in_len + 2 ^ 64 - 2) % 2 ^ 64) (omega arith)) (
      ap (λ k. encode_tail mem in_len room k ret) (omega arith)
      ∙ encode_tail_none mem in_len room ret
      ∙ ap ok (sym (append-nil ret)))
encode_from (suc fuel) mem front (a ∷ []) in_len room i ret m hx e n two small f h =
    rw (le→ltb i ((in_len + 2 ^ 64 - 2) % 2 ^ 64) (omega arith), m)
      (encode_tail_one front (0 ∷ []) a in_len room i ret hx.0 e n small (omega arith))
encode_from (suc fuel) mem front (a ∷ b ∷ []) in_len room i ret m hx e n two small f h =
    rw (le→ltb i ((in_len + 2 ^ 64 - 2) % 2 ^ 64) (omega arith), m)
      (encode_tail_two front (0 ∷ []) a b in_len room i ret hx.0 hx.1.0 e n small (omega arith))
encode_from (suc fuel) mem front (a ∷ b ∷ c ∷ xs) in_len room i ret m hx e n two small f h =
    rw (lt→ltb i ((in_len + 2 ^ 64 - 2) % 2 ^ 64) (omega arith), one_round, no_wrap)
      (encode_from fuel mem (front ++ group) xs in_len room (i + 3) (ret ++ reference group)
          (m ∙ sym (append_assoc front group (xs ++ 0 ∷ []))) hx.1.1.1
          (omega (arith, length-append front group)) (omega arith) two small (omega arith)
          (omega (arith, length-append ret (reference group)))
        ∙ ap ok (append_assoc ret (reference group) (reference xs)))
  where
    group : List ℕ
    group = a ∷ b ∷ c ∷ []

    one_round : encode_round mem room i ret ≡ ok (ret ++ reference group)
    one_round =
        ap (λ mm. encode_round mm room i ret) m
        ∙ encode_round_lem front (xs ++ 0 ∷ []) a b c room i ret hx.0 hx.1.0 hx.1.1.0 e
            (omega arith)

    no_wrap : (i + 3) % 2 ^ 64 ≡ i + 3
    no_wrap = omega arith

pub length-reference : (xs : List ℕ) → length (reference xs) ≡ 4 * ((length xs + 2) / 3)
unfolding reference
length-reference [] = omega arith
length-reference (a ∷ []) = omega arith
length-reference (a ∷ b ∷ []) = omega arith
length-reference (a ∷ b ∷ c ∷ xs) = omega (arith, length-reference xs)

encode_bytes_lem :
    (xs : List ℕ)
    → All IsByte xs
    → 2 ≤ length xs
    → length xs < 2 ^ 62
    → encode_bytes (xs ++ 0 ∷ []) (length xs) ≡ ok (reference xs)
unfolding encode_bytes
encode_bytes_lem xs hx two small =
    sym (bind_assoc (encode_loop (suc (length mem)) mem (length xs) room 0 []) tail pad)
    ∙ bind_step pad
        (encode_from (suc (length mem)) mem [] xs (length xs) room 0 [] refl hx refl (omega arith)
          two small (omega (arith, length-append xs (0 ∷ []))) (omega arith))
        (ap ok (ap (λ k. reference xs ++ replicate k 0) full ∙ append-nil (reference xs)))
  where
    mem : List ℕ
    mem = xs ++ 0 ∷ []

    room : ℕ
    room = encoded_size (length xs)

    tail : ℕ × List ℕ → Outcome (List ℕ)
    tail r = encode_tail mem (length xs) room r.0 r.1

    pad : List ℕ → Outcome (List ℕ)
    pad ret = ok (ret ++ replicate (room - length ret) 0)

    full : room - length (reference xs) ≡ 0
    full = omega (arith, length-reference xs)

-- With one byte the bound `in_len - 2` wraps, and the first round reads behind the `'\0'`.
encode_single : (x : ℕ) → IsByte x → encode (x ∷ []) ≡ undefined
unfolding encode encode_bytes encode_loop encode_round
encode_single x h = bind_undefined _ (
    bind_undefined _ (
      bind_step _ (read_behind [] (x ∷ 0 ∷ []) 0 0 refl refl) (
        bind_step _ (put_symbol_lem 4 [] _ _ (index_first_lem x h) (omega arith) (omega arith)) (
          bind_step _ (read_behind [] (x ∷ 0 ∷ []) 1 1 refl refl) (
            bind_step _
              (put_next 4 [] _ _ _ (index_second_lem x 0 h (omega arith)) (omega arith)
                (omega arith))
              (bind_undefined _ (read_past (x ∷ 0 ∷ []) 2 refl)))))))

-- On a byte string of fewer than 2 ^ 62 bytes `Encode` returns its RFC 4648 encoding, unless the
-- string has exactly one byte: then the behaviour is undefined.
pub encode-reference :
    (xs : List ℕ)
    → All IsByte xs
    → length xs < 2 ^ 62
    → encode xs ≡ (if length xs == 1 then undefined else ok (reference xs))
encode-reference [] hx small = unfold encode reference in refl
encode-reference (x ∷ []) hx small = encode_single x hx.0
encode-reference (x ∷ y ∷ xs) hx small =
    unfold encode in
    (encode_bytes_lem (x ∷ y ∷ xs) hx (omega arith) small
      ∙ sym (ap (λ b. if b then undefined else ok (reference (x ∷ y ∷ xs))) many))
  where
    many : (length (x ∷ y ∷ xs) == 1) ≡ false
    many = ne→eqb (length (x ∷ y ∷ xs)) 1 (omega arith)
