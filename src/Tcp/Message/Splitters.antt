-- ===== src/Tcp/Message/Splitters.antt =====
-- A splitter of the kind that `boost::split` is: it cuts at every delimiter.
use diginext.Base.{ℕ, ◌≡◌, ◌≢◌, refl, ap, ◌∙◌, List, [], ◌∷◌, ◌++◌, All}
use native.Mathlib.Decide.{ℕ_discrete}
use diginext.Tcp.Message.{delimiter, join, IsFresh, Splitter}
use diginext.Tcp.Message.Lines.{push_char, lines, lines-delimiter, lines_other}

abbrev pub tokens : List (List ℕ) × List ℕ → List (List ℕ)
tokens r = r.0 ++ r.1 ∷ []

join-push_char :
    (x : ℕ) (ls : List (List ℕ)) (rest : List ℕ)
    → join (tokens (push_char x ls rest)) ≡ x ∷ join (tokens (ls, rest))
unfolding push_char
join-push_char x [] rest = refl
join-push_char x (l ∷ []) rest = refl
join-push_char x (l ∷ k ∷ ls) rest = refl

join_empty :
    (ls : List (List ℕ)) (rest : List ℕ)
    → join ([] ∷ tokens (ls, rest)) ≡ delimiter ∷ join (tokens (ls, rest))
join_empty [] rest = refl
join_empty (l ∷ ls) rest = refl

pub join-lines : (s : List ℕ) → join (tokens (lines s)) ≡ s
join-lines [] = unfold lines in refl
join-lines (x ∷ xs) = elim (ℕ_discrete x delimiter) [
  | yes e ↦
      rw (e, lines-delimiter xs)
        (join_empty (lines xs).0 (lines xs).1 ∙ ap (λ s. delimiter ∷ s) (join-lines xs))
  | no h ↦
      rw (lines_other x xs h)
        (join-push_char x (lines xs).0 (lines xs).1 ∙ ap (λ s. x ∷ s) (join-lines xs))
]

IsFresh-push_char :
    (x : ℕ) (ls : List (List ℕ)) (rest : List ℕ)
    → x ≢ delimiter
    → All IsFresh (tokens (ls, rest))
    → All IsFresh (tokens (push_char x ls rest))
unfolding push_char
IsFresh-push_char x [] rest h a = ((h, a.0), a.1)
IsFresh-push_char x (l ∷ ls) rest h a = ((h, a.0), a.1)

pub IsFresh-lines : (s : List ℕ) → All IsFresh (tokens (lines s))
IsFresh-lines [] = unfold lines in (tt, tt)
IsFresh-lines (x ∷ xs) = elim (ℕ_discrete x delimiter) [
  | yes e ↦ rw (e, lines-delimiter xs) (tt, IsFresh-lines xs)
  | no h ↦
      rw (lines_other x xs h) (IsFresh-push_char x (lines xs).0 (lines xs).1 h (IsFresh-lines xs))
]

abbrev pub newline_splitter : Splitter
newline_splitter = record {
  split = λ s. tokens (lines s);
  split_joins = join-lines;
  split_fresh = IsFresh-lines;
}
