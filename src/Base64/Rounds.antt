-- ===== src/Base64/Rounds.antt =====
-- One round of `Encode`, and its last one or two bytes.
use diginext.Base.{
  ℕ, ◌+◌, ◌-◌, ◌*◌, ◌%◌, ◌^◌, ◌≤◌, ◌<◌, ◌≡◌, refl, ap, ◌∙◌, List, [], ◌∷◌, ◌++◌, append_assoc,
  arith, length, length-append, ok, read, read_behind, lt→ltb, le→ltb, ==_iff, ne→eqb, bind_step,
}
use diginext.Base64.{IsByte, put, put_symbol, encode_round, padding, encoding_table}
use diginext.Base64.{encode_tail}
use diginext.Base64.Reference.{symbol, reference, read-encoding_table}
use diginext.Base64.Masks.{
  index_first_lem, index_second_lem, index_third_lem, index_fourth_lem, low_two, low_four,
}

pub put_symbol_lem :
    (cap : ℕ) (ret : List ℕ) (v index : ℕ)
    → index ≡ v
    → v < 64
    → length ret < cap
    → put_symbol cap ret index ≡ ok (ret ++ symbol v ∷ [])
unfolding put_symbol
put_symbol_lem cap ret v index e h k =
    bind_step _ (ap (read encoding_table) e ∙ read-encoding_table v h)
      (rw (lt→ltb (length ret) cap k))

-- The same behind characters that the round has written.
pub put_next :
    (room : ℕ) (ret written : List ℕ) (v index : ℕ)
    → index ≡ v
    → v < 64
    → length ret + length written < room
    → put_symbol room (ret ++ written) index ≡ ok (ret ++ (written ++ symbol v ∷ []))
put_next room ret written v index e h k =
    put_symbol_lem room (ret ++ written) v index e h (omega (arith, length-append ret written))
    ∙ ap ok (append_assoc ret written (symbol v ∷ []))

-- A round that finds three bytes and room for four characters.
pub encode_round_lem :
    (front back : List ℕ) (a b c room i : ℕ) (ret : List ℕ)
    → IsByte a
    → IsByte b
    → IsByte c
    → i ≡ length front
    → length ret + 4 ≤ room
    → encode_round (front ++ (a ∷ b ∷ c ∷ back)) room i ret ≡ ok (ret ++ reference (a ∷ b ∷ c ∷ []))
unfolding encode_round reference
encode_round_lem front back a b c room i ret ha hb hc e h =
    bind_step _ (read_behind front _ i 0 (omega arith) refl) (
      bind_step _ (put_symbol_lem room ret _ _ (index_first_lem a ha) (omega arith) (omega arith)) (
        bind_step _ (read_behind front _ (i + 1) 1 (omega arith) refl) (
          bind_step _
            (put_next room ret _ _ _ (index_second_lem a b ha hb) (omega arith) (omega arith))
            (bind_step _ (read_behind front _ (i + 2) 2 (omega arith) refl) (
              bind_step _
                (put_next room ret _ _ _ (index_third_lem b c hb hc) (omega arith) (omega arith))
                (put_next room ret _ _ _ (index_fourth_lem c hc) (omega arith) (omega arith)))))))

put-padding :
    (room : ℕ) (ret written : List ℕ)
    → length ret + length written < room
    → put room (ret ++ written) padding ≡ ok (ret ++ (written ++ padding ∷ []))
put-padding room ret written h =
    rw (lt→ltb (length (ret ++ written)) room (omega (arith, length-append ret written)))
      (ap ok (append_assoc ret written (padding ∷ [])))

-- Bytes that are left when the loop has ended.
pub encode_tail_none :
    (mem : List ℕ) (in_len room : ℕ) (ret : List ℕ)
    → encode_tail mem in_len room in_len ret ≡ ok ret
unfolding encode_tail
encode_tail_none mem in_len room ret = rw (le→ltb in_len in_len (omega arith))

pub encode_tail_one :
    (front back : List ℕ) (a in_len room i : ℕ) (ret : List ℕ)
    → IsByte a
    → i ≡ length front
    → in_len ≡ i + 1
    → in_len < 2 ^ 62
    → length ret + 4 ≤ room
    → encode_tail (front ++ a ∷ back) in_len room i ret ≡ ok (ret ++ reference (a ∷ []))
unfolding encode_tail reference
encode_tail_one front back a in_len room i ret ha e n small h =
    rw (lt→ltb i in_len (omega arith), (==_iff i ((in_len + 2 ^ 64 - 1) % 2 ^ 64)).1 (omega arith))
      (bind_step _ (read_behind front _ i 0 (omega arith) refl) (
        bind_step _ (put_symbol_lem room ret _ _ (index_first_lem a ha) (omega arith) (omega arith))
          (bind_step _
            (bind_step _
              (put_next room ret _ _ _ (ap (λ x. x * 16) (low_two a ha)) (omega arith)
                (omega arith))
              (put-padding room ret _ (omega arith)))
            (put-padding room ret _ (omega arith)))))

pub encode_tail_two :
    (front back : List ℕ) (a b in_len room i : ℕ) (ret : List ℕ)
    → IsByte a
    → IsByte b
    → i ≡ length front
    → in_len ≡ i + 2
    → in_len < 2 ^ 62
    → length ret + 4 ≤ room
    → encode_tail (front ++ (a ∷ b ∷ back)) in_len room i ret ≡ ok (ret ++ reference (a ∷ b ∷ []))
unfolding encode_tail reference
encode_tail_two front back a b in_len room i ret ha hb e n small h =
    rw (lt→ltb i in_len (omega arith), ne→eqb i ((in_len + 2 ^ 64 - 1) % 2 ^ 64) (omega arith))
      (bind_step _ (read_behind front _ i 0 (omega arith) refl) (
        bind_step _ (put_symbol_lem room ret _ _ (index_first_lem a ha) (omega arith) (omega arith))
          (bind_step _
            (bind_step _ (read_behind front _ (i + 1) 1 (omega arith) refl) (
              bind_step _
                (put_next room ret _ _ _ (index_second_lem a b ha hb) (omega arith) (omega arith))
                (put_next room ret _ _ _ (ap (λ x. x * 4) (low_four b hb)) (omega arith)
                  (omega arith))))
            (put-padding room ret _ (omega arith)))))
