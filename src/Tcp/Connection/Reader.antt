-- ===== src/Tcp/Connection/Reader.antt =====
-- The reading side of `tcp_connection`, one `handle_read` after the other.
use diginext.Base.{
  ℕ, ◌≡◌, refl, sym, ap, ◌∙◌, true, none, List, [], ◌∷◌, ◌++◌, map, length, Outcome, ok, ◌>>=◌,
  bind_assoc, bind_cong,
}
use diginext.Tcp.Message.{Splitter, read_bytes}
use diginext.Tcp.Message.Stream.{receive}
use diginext.Tcp.Connection.{
  Connection, Effect, fires, on_read_message, read_message, async_read_until, fire_all, handle_read,
}

-- The messages that reach a slot of `onReadMessage`.
pub messages_of : List Effect → List (List ℕ)
messages_of [] = []
messages_of (fires (on_read_message m) ∷ es) = m ∷ messages_of es
messages_of (e ∷ es) = messages_of es

-- Each read puts a chunk of the stream into the `streambuf` and calls `handle_read`.
unfoldable pub read_all :
    Splitter → List (List ℕ) → Connection → Outcome (List (List ℕ) × Connection)
read_all b [] c = ok ([], c)
read_all b (chunk ∷ chunks) c = do
  (c', es) ← handle_read b none (length chunk) (record c { message = c.message ++ chunk })
  (more, last) ← read_all b chunks c'
  ok (messages_of es ++ more, last)

pub messages_of-fire_all :
    (c : Connection) (ms : List (List ℕ))
    → c.slots read_message ≡ true
    → messages_of (fire_all c (map on_read_message ms) ++ async_read_until ∷ []) ≡ ms
unfolding messages_of
messages_of-fire_all c [] h = refl
messages_of-fire_all c (m ∷ ms) h = rw h (ap (λ k. m ∷ k) (messages_of-fire_all c ms h))

abbrev prepend : {B : Type 0} → List (List ℕ) → List (List ℕ) × B → Outcome (List (List ℕ) × B)
prepend ms r = ok (ms ++ r.0, r.1)

-- The connection when it has read all there is, `r.1` being unfinished.
abbrev settle : Connection → List (List ℕ) × List ℕ → Outcome (List (List ℕ) × Connection)
settle c r = ok (r.0, record c { message = []; part_message = r.1 })

-- A connection whose `onReadMessage` has a slot delivers what `receive` gives for the chunks.
pub read_all-receive :
    (b : Splitter) (chunks : List (List ℕ)) (c : Connection)
    → c.slots read_message ≡ true
    → c.message ≡ []
    → read_all b chunks c ≡ (receive b c.part_message chunks >>= settle c)
unfolding read_all receive handle_read
read_all-receive b [] c h e = ap (λ m. ok ([], record c { message = m })) e
read_all-receive b (chunk ∷ chunks) c h e = rw e (
    bind_assoc bytes _ _
    ∙ bind_cong bytes _ _ (λ x.
      later x.0 x.1
        (read_all-receive b chunks (record c { message = []; part_message = x.1 }) h refl))
    ∙ sym (bind_assoc bytes _ _))
  where
    bytes : Outcome (List (List ℕ) × List ℕ)
    bytes = read_bytes b c.part_message chunk

    later :
        (ms : List (List ℕ)) (part : List ℕ)
        → read_all b chunks (record c { message = []; part_message = part })
          ≡ (receive b part chunks >>= settle c)
        → (read_all b chunks (record c { message = []; part_message = part })
            >>= prepend (
                messages_of (
                  fire_all (record c { message = chunk }) (map on_read_message ms)
                  ++ async_read_until ∷ [])))
          ≡ ((receive b part chunks >>= prepend ms) >>= settle c)
    later ms part ih =
        rw (messages_of-fire_all (record c { message = chunk }) ms h, ih) (simp bind_assoc)
