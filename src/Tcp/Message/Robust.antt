-- ===== src/Tcp/Message/Robust.antt =====
-- The receiver on bytes that no `send` has written.
use diginext.Base.{
  ℕ, suc, ◌+◌, ◌≤◌, ◌<◌, ◌^◌, ◌%◌, ◌≡◌, refl, ap, ◌∙◌, inl, inr, List, [], ◌∷◌, ◌++◌, flatten,
  length, length-append, All, ok, undefined, ◌>>=◌, bind_step, bind_undefined, arith,
}
use native.Mathlib.Decide.{ℕ_discrete}
use diginext.Base64.Totality.{IsAscii, decode_outcome}
use diginext.Base64.Bounds.{decode-high}
use diginext.Tcp.Message.{Splitter, delimiter, IsFresh, decode_token, collect, read_bytes}
use diginext.Tcp.Message.Lines.{push_char, lines, lines-delimiter, lines_other, lines-line}
use diginext.Tcp.Message.Stream.{receive, receive_lem, read_bytes_lem}

-- A line of ASCII characters, of fewer than 2 ^ 62.
abbrev IsLine : List ℕ → Type 0
IsLine l = All IsAscii l × (length l < 2 ^ 62)

decode_token-IsLine : (t : List ℕ) → IsLine t → (ms : List (List ℕ)) × (decode_token t ≡ ok ms)
unfolding decode_token
decode_token-IsLine [] h = ([], refl)
decode_token-IsLine (c ∷ cs) h = elim (decode_outcome (c ∷ cs) h.0 h.1) [
  | inl (n, e) ↦ ([], rw (e, decode_token) refl)
  | inr (r, n, e, bytes, size) ↦ (r ∷ [], rw (e, decode_token) refl)
]

collect-IsLine : (ts : List (List ℕ)) → All IsLine ts → (ms : List (List ℕ)) × (collect ts ≡ ok ms)
unfolding collect
collect-IsLine [] h = ([], refl)
collect-IsLine (t ∷ ts) h =
    let (m, e) = decode_token-IsLine t h.0 in
    let (ms, f) = collect-IsLine ts h.1 in (m ++ ms, bind_step _ e (bind_step _ f refl))

-- What a text is cut into: lines and a rest with no more characters than the text.
abbrev IsCut : ℕ → List (List ℕ) × List ℕ → Type 0
IsCut n r = All (λ l. All IsAscii l × (length l ≤ n)) r.0 × All IsAscii r.1 × (length r.1 ≤ n)

longer :
    (n m : ℕ) (ls : List (List ℕ))
    → n ≤ m
    → All (λ l. All IsAscii l × (length l ≤ n)) ls
    → All (λ l. All IsAscii l × (length l ≤ m)) ls
longer n m [] h a = tt
longer n m (l ∷ ls) h a = ((a.0.0, omega (arith, a.0.1)), longer n m ls h a.1)

push_char-IsCut :
    (x n : ℕ) (ls : List (List ℕ)) (rest : List ℕ)
    → IsAscii x
    → IsCut n (ls, rest)
    → IsCut (suc n) (push_char x ls rest)
unfolding push_char
push_char-IsCut x n [] rest h c = (tt, (h, c.1), omega (arith, c.2))
push_char-IsCut x n (l ∷ ls) rest h c = (
  (((h, c.0.0.0), omega (arith, c.0.0.1)), longer n (suc n) ls (omega arith) c.0.1),
  c.1,
  omega (arith, c.2),
)

lines-IsCut : (s : List ℕ) → All IsAscii s → IsCut (length s) (lines s)
lines-IsCut [] h = unfold lines in (tt, tt, omega arith)
lines-IsCut (x ∷ xs) h =
    let ih = lines-IsCut xs h.1 in
    elim (ℕ_discrete x delimiter) [
      | yes e ↦
          rw (e, lines-delimiter xs)
            (
              (
                (tt, omega arith),
                longer (length xs) (suc (length xs)) (lines xs).0 (omega arith) ih.0,
              ),
              ih.1,
              omega (arith, ih.2),
            )
      | no n ↦
          rw (lines_other x xs n) (push_char-IsCut x (length xs) (lines xs).0 (lines xs).1 h.0 ih)
    ]

to_lines :
    (n : ℕ) (ls : List (List ℕ))
    → n < 2 ^ 62
    → All (λ l. All IsAscii l × (length l ≤ n)) ls
    → All IsLine ls
to_lines n [] h a = tt
to_lines n (l ∷ ls) h a = ((a.0.0, omega (arith, a.0.1)), to_lines n ls h a.1)

-- One read of ASCII bytes, behind an unfinished part.
pub read_bytes-IsAscii :
    (b : Splitter) (part bytes : List ℕ)
    → All IsAscii (part ++ bytes)
    → length part + length bytes < 2 ^ 62
    → (ms : List (List ℕ)) × (rest : List ℕ) × (read_bytes b part bytes ≡ ok (ms, rest))
      × All IsAscii rest
      × (length rest ≤ length part + length bytes)
read_bytes-IsAscii b part bytes h small =
    let s : List ℕ = part ++ bytes in
    let cut = lines-IsCut s h in
    let (ms, e) =
      collect-IsLine (lines s).0
        (to_lines (length s) (lines s).0 (omega (arith, length-append part bytes)) cut.0) in
    (
      ms,
      (lines s).1,
      read_bytes_lem b part bytes small ∙ bind_step _ e refl,
      cut.1,
      omega (arith, cut.2, length-append part bytes),
    )

-- Whatever ASCII bytes arrive, fewer than 2 ^ 62, and however they are cut into reads, the reader
-- gets through them with no exception and no undefined behaviour.
pub receive-IsAscii :
    (b : Splitter) (chunks : List (List ℕ))
    → All IsAscii (flatten chunks)
    → length (flatten chunks) < 2 ^ 62
    → (ms : List (List ℕ)) × (rest : List ℕ) × (receive b [] chunks ≡ ok (ms, rest))
receive-IsAscii b chunks h small =
    let s : List ℕ = flatten chunks in
    let cut = lines-IsCut s h in
    let (ms, e) = collect-IsLine (lines s).0 (to_lines (length s) (lines s).0 small cut.0) in
    (ms, (lines s).1, receive_lem b chunks [] tt (omega arith) ∙ bind_step _ e refl)

-- A line that starts with a byte from 128 on, and whose size is a multiple of four, fewer than
-- 2 ^ 61, is undefined behaviour: the receiver reads outside the decoding table.
pub read_bytes-high :
    (b : Splitter) (c : ℕ) (cs : List ℕ)
    → 128 ≤ c
    → IsFresh (c ∷ cs)
    → length (c ∷ cs) % 4 ≡ 0
    → length (c ∷ cs) < 2 ^ 61
    → read_bytes b [] ((c ∷ cs) ++ delimiter ∷ []) ≡ undefined
unfolding collect decode_token lines
read_bytes-high b c cs high fresh four small =
    read_bytes_lem b [] ((c ∷ cs) ++ delimiter ∷ [])
      (omega (arith, length-append (c ∷ cs) (delimiter ∷ [])))
    ∙ ap (λ r. collect r.0 >>= λ messages. ok (messages, r.1)) (lines-line (c ∷ cs) [] fresh)
    ∙ bind_undefined _ (bind_undefined _ token)
  where
    token : decode_token (c ∷ cs) ≡ undefined
    token = rw (decode-high c cs high four (omega arith), decode_token) refl
