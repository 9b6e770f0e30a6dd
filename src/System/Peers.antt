-- ===== src/System/Peers.antt =====
-- One client and the host's connection to it: what is on its way in each direction.
use diginext.Base.{
  ℕ, suc, ◌+◌, ◌<◌, ◌^◌, ◌≡◌, sym, ap, ◌∙◌, inl, inr, none, Bool, Option, List, ◌++◌, append_assoc,
  flatten, map, length, All, All-append, ok, arith,
}
use diginext.Tcp.Message.{Splitter, IsFresh, read_bytes}
use diginext.Tcp.Message.Pipe.{read_bytes-Cut}
use diginext.Tcp.Connection.{Connection, Effect, handle_write, async_write_some}
use diginext.Tcp.Connection.Writer.{writes_of}
use diginext.Tcp.Connection.Writer.Flight.{Flight, Moved, with_queue, end_write}
use diginext.Tcp.Channel.{IsText, frames_of, frames_of-append}
use diginext.Tcp.Delivery.{flatten-append}

-- One direction, from the writer `c` to a reader that has `part` unfinished: the reader's part, the
-- bytes on the way and the frames that no write has been asked for are the frames of `todo`.
pub record Side (part wire : List ℕ) (c : Connection) (writes : ℕ) (todo : List (List ℕ))
    : Type 0 where
  pub rest : List (List ℕ)
  pub flight : Flight c writes rest
  pub stream : part ++ (wire ++ flatten rest) ≡ flatten (frames_of todo)
  pub texts : All IsText todo
  pub short : length part < 2 ^ 61
  pub fresh : IsFresh part

-- More texts are queued.
pub Side-grown :
    (part wire : List ℕ) (c d : Connection) (n : ℕ) (todo more begun : List (List ℕ))
    → All IsText more
    → Moved (frames_of more) c d begun
    → Side part wire c n todo
    → Side part (wire ++ flatten begun) d (n + length begun) (todo ++ more)
Side-grown part wire c d n todo more begun h moved s =
    let (rest, flight, queued) = moved n s.rest s.flight in
    record {
      rest = rest;
      flight = flight;
      stream =
          ap (λ l. part ++ l)
            (append_assoc wire (flatten begun) (flatten rest)
              ∙ ap (λ l. wire ++ l)
                  (sym (flatten-append begun rest)
                    ∙ ap flatten queued
                    ∙ flatten-append s.rest (frames_of more))
              ∙ sym (append_assoc wire (flatten s.rest) (flatten (frames_of more))))
          ∙ sym (append_assoc part (wire ++ flatten s.rest) (flatten (frames_of more)))
          ∙ ap (λ l. l ++ flatten (frames_of more)) s.stream
          ∙ sym (flatten-append (frames_of todo) (frames_of more))
          ∙ ap flatten (sym (frames_of-append todo more));
      texts = All-append _ todo more s.texts h;
      short = s.short;
      fresh = s.fresh;
    }

-- A write ends.
pub Side-ended :
    (part wire : List ℕ) (c : Connection) (bytes w : ℕ) (todo : List (List ℕ))
    → Side part wire c (suc w) todo
    → (d : Connection) × (es : List Effect) × (handle_write none bytes c ≡ ok (d, es))
      × ((buffer : List (List ℕ)) × (start : Option Bool) × (d ≡ with_queue buffer start c))
      × (es ≡ map async_write_some (writes_of es))
      × Side part (wire ++ flatten (writes_of es)) d (w + length (writes_of es)) todo
Side-ended part wire c bytes w todo s =
    let (d, es, run, kept, asked, (rest, flight, queued)) = end_write bytes w c s.rest s.flight in
    (
      d,
      es,
      run,
      kept,
      asked,
      record {
        rest = rest;
        flight = flight;
        stream =
            ap (λ l. part ++ l)
              (append_assoc wire (flatten (writes_of es)) (flatten rest)
                ∙ ap (λ l. wire ++ l)
                    (sym (flatten-append (writes_of es) rest) ∙ ap flatten queued))
            ∙ s.stream;
        texts = s.texts;
        short = s.short;
        fresh = s.fresh;
      },
    )

-- Some of the bytes on the way are read: the texts `done` are complete then.
pub Side-read :
    (b : Splitter) (part wire chunk left : List ℕ) (c : Connection) (n : ℕ) (todo : List (List ℕ))
    → wire ≡ chunk ++ left
    → length chunk < 2 ^ 61
    → Side part wire c n todo
    → (done todo' : List (List ℕ)) × (part' : List ℕ) × (todo ≡ done ++ todo')
      × (read_bytes b part chunk ≡ ok (done, part'))
      × All IsText done
      × Side part' left c n todo'
Side-read b part wire chunk left c n todo e few s =
    let (k, run) =
      read_bytes-Cut b todo part chunk (left ++ flatten s.rest) s.texts
        (ap (λ l. part ++ l)
            (sym (append_assoc chunk left (flatten s.rest)) ∙ ap (λ l. l ++ flatten s.rest) (sym e))
          ∙ s.stream)
        (omega (arith, s.short)) in
    (
      k.done,
      k.todo,
      k.part,
      k.split,
      run,
      k.texts_done,
      record {
        rest = s.rest;
        flight = s.flight;
        stream = k.stream;
        texts = k.texts_left;
        short = k.short;
        fresh = k.fresh;
      },
    )

-- The writer changes in what does not concern its queue.
pub Side-kept :
    (part wire : List ℕ) (c d : Connection) (n : ℕ) (todo : List (List ℕ))
    → d.send_start ≡ c.send_start
    → d.send_buffer ≡ c.send_buffer
    → Side part wire c n todo
    → Side part wire d n todo
Side-kept part wire c d n todo e f s = record {
  rest = s.rest;
  flight = elim s.flight [
    | inl (x, y, z, w) ↦ inl (e ∙ x, f ∙ y, z, w)
    | inr (g, x, y, z) ↦ inr (g, e ∙ x, f ∙ y, z)
  ];
  stream = s.stream;
  texts = s.texts;
  short = s.short;
  fresh = s.fresh;
}
