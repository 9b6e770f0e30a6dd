-- ===== src/Tcp/Message/Decode.antt =====
-- `decode_message` takes a text apart as `lines` does.
use diginext.Base.{
  ℕ, zero, suc, ◌+◌, ◌%◌, ◌^◌, ◌<◌, ◌≡◌, ◌≢◌, refl, sym, ap, ap₂, ◌∙◌, inl, inr, none, some, List,
  [], ◌∷◌, ◌++◌, append_assoc, append-nil, take, drop, length, length-append, All, ok, ◌>>=◌,
  bind_assoc, bind_ok, Option-cases, ==_iff, ne→eqb, arith,
}
use native.Mathlib.Decide.{ℕ_discrete}
use diginext.Tcp.Message.{
  delimiter, join, IsFresh, Splitter, find_last, find_last_of, back, decode_token, collect,
  cut_last, decode_message,
}
use diginext.Tcp.Message.Lines.{lines, lines-fresh, lines-append, lines-line, lines_closed}

pub collect-append :
    (xs ys : List (List ℕ))
    → collect (xs ++ ys) ≡ (collect xs >>= λ a. collect ys >>= λ c. ok (a ++ c))
unfolding collect
collect-append [] ys = sym (bind_ok (collect ys))
collect-append (x ∷ xs) ys = rw (collect-append xs ys) (simp (bind_assoc, append_assoc))

-- An empty token at the end adds nothing.
collect-closed : (xs : List (List ℕ)) → collect (xs ++ [] ∷ []) ≡ collect xs
collect-closed xs =
    collect-append xs ([] ∷ []) ∙ unfold collect decode_token in simp (append-nil, bind_ok)

-- Tokens as the lines of their joined text, the last one being what is left over.
collect-join :
    (ts : List (List ℕ))
    → All IsFresh ts
    → collect ts ≡ collect ((lines (join ts)).0 ++ (lines (join ts)).1 ∷ [])
unfolding collect
collect-join [] h = unfold lines decode_token in refl
collect-join (t ∷ []) h = rw (lines-fresh t h.0)
collect-join (t ∷ u ∷ ts) h = rw (lines-line t (join (u ∷ ts)) h.0, collect-join (u ∷ ts) h.1)

-- The last delimiter, with what stands before and behind it.
none_parts :
    (x : ℕ) (xs : List ℕ) → find_last (x ∷ xs) ≡ none → (x ≢ delimiter) × (find_last xs ≡ none)
unfolding find_last
none_parts x xs e = ground arith

some_here :
    (x : ℕ) (xs : List ℕ) (i : ℕ)
    → find_last xs ≡ none
    → find_last (x ∷ xs) ≡ some i
    → (x ≡ delimiter) × (i ≡ 0)
unfolding find_last
some_here x xs i p e = ground arith

some_later :
    (x : ℕ) (xs : List ℕ) (i j : ℕ)
    → find_last xs ≡ some j
    → find_last (x ∷ xs) ≡ some i
    → i ≡ suc j
unfolding find_last
some_later x xs i j p e = ground arith

find_last-none : (s : List ℕ) → find_last s ≡ none → IsFresh s
unfolding find_last
find_last-none [] e = tt
find_last-none (x ∷ xs) e = let (other, rest) = none_parts x xs e in (other, find_last-none xs rest)

find_last-some :
    (s : List ℕ) (i : ℕ)
    → find_last s ≡ some i
    → (ys : List ℕ) × (part : List ℕ) × (s ≡ ys ++ delimiter ∷ part)
      × (length ys ≡ i)
      × IsFresh part
unfolding find_last
find_last-some [] i e = cc
find_last-some (x ∷ xs) i e = elim (Option-cases (find_last xs)) [
  | inl p ↦
      let (here, first) = some_here x xs i p e in
      ([], xs, ap (λ y. y ∷ xs) here, sym first, find_last-none xs p)
  | inr (j, p) ↦
      let (ys, part, f, n, fresh) = find_last-some xs j p in
      (x ∷ ys, part, ap (λ l. x ∷ l) f, ap suc n ∙ sym (some_later x xs i j p e), fresh)
]

back-delimiter :
    (c : ℕ) (cs : List ℕ)
    → back (c ∷ cs) ≡ delimiter
    → (ys : List ℕ) × (c ∷ cs ≡ ys ++ delimiter ∷ [])
unfolding back
back-delimiter c [] e = ([], ap (λ y. y ∷ []) e)
back-delimiter c (d ∷ cs) e = let (ys, f) = back-delimiter d cs e in (c ∷ ys, ap (λ l. c ∷ l) f)

-- Splitting a text that ends with the delimiter.
split_closed :
    (b : Splitter) (s ys : List ℕ)
    → s ≡ ys ++ delimiter ∷ []
    → collect (b.split s) ≡ collect (lines s).0
split_closed b s ys e =
    collect-join (b.split s) (b.split_fresh s)
    ∙ ap (λ t. collect ((lines t).0 ++ (lines t).1 ∷ [])) (b.split_joins s)
    ∙ ap (λ r. collect ((lines s).0 ++ r ∷ [])) (ap (λ t. (lines t).1) e ∙ lines_closed ys)
    ∙ collect-closed (lines s).0

split_empty : (b : Splitter) → collect (b.split []) ≡ collect []
split_empty b =
    collect-join (b.split []) (b.split_fresh [])
    ∙ ap (λ t. collect ((lines t).0 ++ (lines t).1 ∷ [])) (b.split_joins [])
    ∙ unfold lines collect decode_token in refl

take-length : (xs ys : List ℕ) (n : ℕ) → n ≡ length xs → take n (xs ++ ys) ≡ xs
take-length [] ys zero e = refl
take-length [] ys (suc n) e = absurd (omega arith)
take-length (x ∷ xs) ys zero e = absurd (omega arith)
take-length (x ∷ xs) ys (suc n) e = ap (λ l. x ∷ l) (take-length xs ys n (omega arith))

drop-length : (xs ys : List ℕ) (n : ℕ) → n ≡ length xs → drop n (xs ++ ys) ≡ ys
drop-length [] ys zero e = refl
drop-length [] ys (suc n) e = absurd (omega arith)
drop-length (x ∷ xs) ys zero e = absurd (omega arith)
drop-length (x ∷ xs) ys (suc n) e = drop-length xs ys n (omega arith)

cut_last-none : (s : List ℕ) → find_last s ≡ none → cut_last s ≡ ([], s)
unfolding cut_last find_last_of
cut_last-none s p = rw (p, find_last_of)

cut_last-some :
    (s ys part : List ℕ) (i : ℕ)
    → find_last s ≡ some i
    → s ≡ ys ++ delimiter ∷ part
    → length ys ≡ i
    → length s < 2 ^ 62
    → cut_last s ≡ (ys ++ delimiter ∷ [], part)
unfolding cut_last find_last_of
cut_last-some s ys part i p e n small =
    rw (p, find_last_of)
      (ap₂ (λ t d. (t, d)) (ap (take end) whole ∙ take-length (ys ++ delimiter ∷ []) part end size)
        (ap (drop end) whole ∙ drop-length (ys ++ delimiter ∷ []) part end size))
  where
    end : ℕ
    end = (i + 1) % 2 ^ 64

    whole : s ≡ (ys ++ delimiter ∷ []) ++ part
    whole = e ∙ sym (append_assoc ys (delimiter ∷ []) part)

    size : end ≡ length (ys ++ delimiter ∷ [])
    size =
        omega (
          arith,
          length-append ys (delimiter ∷ []),
          length-append ys (delimiter ∷ part),
          ap length e,
        )

-- Complete lines, and a rest with no delimiter.
lines_parts :
    (ys part : List ℕ)
    → IsFresh part
    → lines (ys ++ delimiter ∷ part) ≡ ((lines (ys ++ delimiter ∷ [])).0, part)
lines_parts ys part h =
    ap lines (sym (append_assoc ys (delimiter ∷ []) part))
    ∙ lines-append (ys ++ delimiter ∷ []) part
    ∙ rw (lines_closed ys, lines-fresh part h, append-nil)

-- The cut at the last delimiter parts the complete lines from the rest.
cut_last_lem :
    (b : Splitter) (s : List ℕ)
    → length s < 2 ^ 62
    → (collect (b.split (cut_last s).0) ≡ collect (lines s).0) × ((cut_last s).1 ≡ (lines s).1)
cut_last_lem b s small = elim (Option-cases (find_last s)) [
  | inl p ↦ rw (cut_last-none s p, lines-fresh s (find_last-none s p)) (split_empty b, refl)
  | inr (i, p) ↦
      let (ys, part, e, n, fresh) = find_last-some s i p in
      rw (cut_last-some s ys part i p e n small, ap lines e ∙ lines_parts ys part fresh)
        (split_closed b (ys ++ delimiter ∷ []) ys refl, refl)
]

-- `decode_message` on any text of fewer than 2 ^ 62 bytes: the messages of its complete lines, and
-- what is behind the last delimiter.
pub decode_message_lem :
    (b : Splitter) (message : List ℕ)
    → length message < 2 ^ 62
    → decode_message b message []
      ≡ (collect (lines message).0 >>= λ messages. ok (messages, (lines message).1))
unfolding decode_message
decode_message_lem b [] small = unfold lines collect in refl
decode_message_lem b (c ∷ cs) small = elim (ℕ_discrete (back (c ∷ cs)) delimiter) [
  | yes e ↦
      let (ys, f) = back-delimiter c cs e in
      rw ((==_iff _ _).1 e, split_closed b (c ∷ cs) ys f, ap (λ t. (lines t).1) f ∙ lines_closed ys)
  | no h ↦
      let (first, second) = cut_last_lem b (c ∷ cs) small in
      rw (ne→eqb (back (c ∷ cs)) delimiter h, first, second)
]
