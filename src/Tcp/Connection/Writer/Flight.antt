-- ===== src/Tcp/Connection/Writer/Flight.antt =====
-- Whether a write is in flight, and what is queued behind it.
use diginext.Base.{
  ℕ, suc, ◌+◌, ◌≡◌, refl, sym, ap, ◌∙◌, ◌⊎◌, inl, inr, Bool, true, false, Option, none, some, List,
  [], ◌∷◌, ◌++◌, append_assoc, append-nil, map, length, length-append, ok, arith,
}
use native.Mathlib.Nat.{add-zero}
use diginext.Tcp.Connection.{Connection, Effect, async_write_some, handle_write}
use diginext.Tcp.Connection.Writer.{
  writes_of, failed, handle_write_last, handle_write_more, with_frame, begun_write, first_of,
}

-- A started connection: no write is in flight and the buffer is empty, or one is, of the front of
-- the buffer. `n` is the number of writes in flight, `rest` what no write has been asked for.
abbrev pub Flight : Connection → ℕ → List (List ℕ) → Type 0
Flight c n rest =
    ((c.send_start ≡ some false) × (c.send_buffer ≡ []) × (n ≡ 0) × (rest ≡ []))
    ⊎ ((f : List ℕ) × (c.send_start ≡ some true) × (c.send_buffer ≡ f ∷ rest) × (n ≡ 1))

-- `frames` have been queued, and the writes of `begun` have been asked for.
abbrev pub Moved : List (List ℕ) → Connection → Connection → List (List ℕ) → Type 0
Moved frames c d begun =
    (n : ℕ) (rest : List (List ℕ))
    → Flight c n rest
    → (rest' : List (List ℕ)) × Flight d (n + length begun) rest'
      × (begun ++ rest' ≡ rest ++ frames)

pub Moved-none : (c : Connection) → Moved [] c c []
Moved-none c n rest h = (rest, rw (add-zero n) h, sym (append-nil rest))

pub Moved-more :
    (xs ys : List (List ℕ)) (c d e : Connection) (first more : List (List ℕ))
    → Moved xs c d first
    → Moved ys d e more
    → Moved (xs ++ ys) c e (first ++ more)
Moved-more xs ys c d e first more g h n rest v =
    let (rest', w, p) = g n rest v in
    let (last, x, q) = h (n + length first) rest' w in
    (
      last,
      rw count x,
      append_assoc first more last
          ∙ ap (λ l. first ++ l) q
          ∙ sym (append_assoc first rest' ys)
          ∙ ap (λ l. l ++ ys) p
          ∙ append_assoc rest xs ys,
    )
  where
    count : n + length (first ++ more) ≡ n + length first + length more
    count = omega (arith, length-append first more)

abbrev pub with_queue : List (List ℕ) → Option Bool → Connection → Connection
with_queue buffer start c = record c { send_buffer = buffer; send_start = start }

pub Moved-with_frame :
    (f : List ℕ) (c : Connection) (b : Bool)
    → c.send_start ≡ some b
    → Moved (f ∷ []) c (with_frame f c) (writes_of (begun_write b c.send_buffer f))
unfolding with_frame begun_write writes_of first_of
Moved-with_frame f c false e n rest (inl (s, q, z, r)) = (
  [],
  inr (f, refl, ap (λ l. l ++ f ∷ []) q, omega (arith, z)),
  ap (λ l. first_of l f ∷ []) q ∙ ap (λ l. l ++ f ∷ []) (sym r),
)
Moved-with_frame f c true e n rest (inl (s, q, z, r)) = absurd (ground (arith, e, s))
Moved-with_frame f c false e n rest (inr (g, s, q, o)) = absurd (ground (arith, e, s))
Moved-with_frame f c true e n rest (inr (g, s, q, o)) =
    (rest ++ f ∷ [], inr (g, refl, ap (λ l. l ++ f ∷ []) q, omega (arith, o)), refl)

-- The end of a write.
pub end_write :
    (bytes w : ℕ) (c : Connection) (rest : List (List ℕ))
    → Flight c (suc w) rest
    → (d : Connection) × (es : List Effect) × (handle_write none bytes c ≡ ok (d, es))
      × ((buffer : List (List ℕ)) × (start : Option Bool) × (d ≡ with_queue buffer start c))
      × (es ≡ map async_write_some (writes_of es))
      × ((rest' : List (List ℕ)) × Flight d (w + length (writes_of es)) rest'
          × (writes_of es ++ rest' ≡ rest))
unfolding failed
end_write bytes w c rest (inl (s, q, z, r)) = absurd (omega (arith, z))
end_write bytes w c [] (inr (f, s, q, o)) = (
  with_queue [] (some false) c,
  [],
  handle_write_last none bytes f c q,
  ([], some false, refl),
  unfold writes_of in refl,
  ([], unfold writes_of in inl (refl, refl, omega (arith, o), refl), unfold writes_of in refl),
)
end_write bytes w c (g ∷ rest) (inr (f, s, q, o)) = (
  with_queue (g ∷ rest) c.send_start c,
  async_write_some g ∷ [],
  handle_write_more none bytes f g rest c q,
  (g ∷ rest, c.send_start, refl),
  unfold writes_of in refl,
  (rest, unfold writes_of in inr (g, s, refl, omega (arith, o)), unfold writes_of in refl),
)
