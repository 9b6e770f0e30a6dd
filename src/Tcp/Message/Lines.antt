-- ===== src/Tcp/Message/Lines.antt =====
-- What `decode_message` is compared with: a text cut into lines, one character at a time.
use diginext.Base.{
  ℕ, suc, ◌≤◌, ◌≡◌, ◌≢◌, refl, List, [], ◌∷◌, ◌++◌, length, if◌then◌else◌, ◌==◌, ne→eqb, arith,
}
use native.Mathlib.Decide.{ℕ_discrete}
use diginext.Tcp.Message.{delimiter, IsFresh}

-- The complete lines of a text, without their delimiters, and what is behind the last delimiter.
unfoldable pub push_char : ℕ → List (List ℕ) → List ℕ → List (List ℕ) × List ℕ
push_char x [] rest = ([], x ∷ rest)
push_char x (l ∷ ls) rest = ((x ∷ l) ∷ ls, rest)

unfoldable pub lines : List ℕ → List (List ℕ) × List ℕ
unfolding push_char
lines [] = ([], [])
lines (x ∷ xs) = let r = lines xs in if x == delimiter then ([] ∷ r.0, r.1) else push_char x r.0 r.1

pub lines-fresh : (t : List ℕ) → IsFresh t → lines t ≡ ([], t)
unfolding lines
lines-fresh [] h = refl
lines-fresh (x ∷ xs) h = rw (ne→eqb x delimiter h.0, lines-fresh xs h.1)

pub lines-delimiter : (xs : List ℕ) → lines (delimiter ∷ xs) ≡ ([] ∷ (lines xs).0, (lines xs).1)
unfolding lines
lines-delimiter xs = refl

pub lines_other :
    (x : ℕ) (xs : List ℕ) → x ≢ delimiter → lines (x ∷ xs) ≡ push_char x (lines xs).0 (lines xs).1
unfolding lines
lines_other x xs h = rw (ne→eqb x delimiter h)

push_char-append :
    (x : ℕ) (ls : List (List ℕ)) (rest ys : List ℕ)
    → x ≢ delimiter
    → push_char x (ls ++ (lines (rest ++ ys)).0) (lines (rest ++ ys)).1 ≡ (
      (push_char x ls rest).0 ++ (lines ((push_char x ls rest).1 ++ ys)).0,
      (lines ((push_char x ls rest).1 ++ ys)).1,
    )
unfolding push_char
push_char-append x [] rest ys h = rw (lines_other x (rest ++ ys) h)
push_char-append x (l ∷ ls) rest ys h = refl

-- A text behind complete lines.
pub lines-append :
    (xs ys : List ℕ)
    → lines (xs ++ ys)
      ≡ ((lines xs).0 ++ (lines ((lines xs).1 ++ ys)).0, (lines ((lines xs).1 ++ ys)).1)
lines-append [] ys = unfold lines in refl
lines-append (x ∷ xs) ys = elim (ℕ_discrete x delimiter) [
  | yes e ↦ rw (e, lines-delimiter (xs ++ ys), lines-delimiter xs, lines-append xs ys)
  | no h ↦
      rw (lines_other x (xs ++ ys) h, lines_other x xs h, lines-append xs ys)
        (push_char-append x (lines xs).0 (lines xs).1 ys h)
]

-- A line, its delimiter, and a text.
pub lines-line :
    (t rest : List ℕ)
    → IsFresh t
    → lines (t ++ delimiter ∷ rest) ≡ (t ∷ (lines rest).0, (lines rest).1)
unfolding push_char
lines-line [] rest h = lines-delimiter rest
lines-line (x ∷ t) rest h = rw (lines_other x (t ++ delimiter ∷ rest) h.0, lines-line t rest h.1)

push_char-IsFresh :
    (x : ℕ) (ls : List (List ℕ)) (rest : List ℕ)
    → x ≢ delimiter
    → IsFresh rest
    → IsFresh (push_char x ls rest).1
unfolding push_char
push_char-IsFresh x [] rest h k = (h, k)
push_char-IsFresh x (l ∷ ls) rest h k = k

-- What is left over holds no delimiter.
pub lines_rest-IsFresh : (xs : List ℕ) → IsFresh (lines xs).1
lines_rest-IsFresh [] = unfold lines in tt
lines_rest-IsFresh (x ∷ xs) = elim (ℕ_discrete x delimiter) [
  | yes e ↦ rw (e, lines-delimiter xs) (lines_rest-IsFresh xs)
  | no h ↦
      rw (lines_other x xs h)
        (push_char-IsFresh x (lines xs).0 (lines xs).1 h (lines_rest-IsFresh xs))
]

-- A text that ends with the delimiter leaves nothing over.
pub lines_closed : (xs : List ℕ) → (lines (xs ++ delimiter ∷ [])).1 ≡ []
lines_closed xs =
    rw (lines-append xs (delimiter ∷ []), lines-line (lines xs).1 [] (lines_rest-IsFresh xs))
      (unfold lines in refl)

length-push_char :
    (x : ℕ) (ls : List (List ℕ)) (rest : List ℕ)
    → length (push_char x ls rest).1 ≤ suc (length rest)
unfolding push_char
length-push_char x [] rest = omega arith
length-push_char x (l ∷ ls) rest = omega arith

pub length-lines_rest : (xs : List ℕ) → length (lines xs).1 ≤ length xs
length-lines_rest [] = unfold lines in omega arith
length-lines_rest (x ∷ xs) = elim (ℕ_discrete x delimiter) [
  | yes e ↦ rw (e, lines-delimiter xs) (omega (arith, length-lines_rest xs))
  | no h ↦
      rw (lines_other x xs h)
        (omega (arith, length-push_char x (lines xs).0 (lines xs).1, length-lines_rest xs))
]
