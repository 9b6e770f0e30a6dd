-- ===== src/Tcp/Message/Stream.antt =====
-- What a reader delivers does not depend on how the stream is cut into reads, and it is what the
-- writer sent.
use diginext.Base.{
  ℕ, ◌+◌, ◌^◌, ◌<◌, ◌≡◌, ◌≢◌, refl, sym, ap, ◌∙◌, List, [], ◌∷◌, ◌++◌, append_assoc, append-nil,
  map, flatten, length, length-append, All, Outcome, ok, ◌>>=◌, bind_assoc, bind_ok, arith, ne→eqb,
}
use diginext.Base64.{IsByte, decode}
use diginext.Base64.Reference.{reference, IsFrameChar, reference-IsFrameChar}
use diginext.Base64.Encode.{encode-reference, length-reference}
use diginext.Base64.RoundTrip.{decode-reference}
use diginext.Tcp.Message.{
  delimiter, IsFresh, Splitter, decode_token, collect, frame, take_messages, read_bytes,
}
use diginext.Tcp.Message.Lines.{
  lines, lines-fresh, lines-append, lines-line, lines_rest-IsFresh, length-lines_rest,
}
use diginext.Tcp.Message.Decode.{collect-append, decode_message_lem}

module _ (b : Splitter) where
  -- `handle_read` on one read after the other, from a `partMessage` on: the messages in order, and
  -- the last `partMessage`.
  unfoldable pub receive : List ℕ → List (List ℕ) → Outcome (List (List ℕ) × List ℕ)
  receive part [] = ok ([], part)
  receive part (chunk ∷ chunks) = do
    (messages, part') ← read_bytes b part chunk
    (more, last) ← receive part' chunks
    ok (messages ++ more, last)

  abbrev all_lines : List ℕ → Outcome (List (List ℕ) × List ℕ)
  all_lines s = collect (lines s).0 >>= λ messages. ok (messages, (lines s).1)

  take_messages_lem : (s : List ℕ) → length s < 2 ^ 62 → take_messages b s ≡ all_lines s
  unfolding take_messages
  take_messages_lem [] h = unfold lines collect in refl
  take_messages_lem (c ∷ cs) h = decode_message_lem b (c ∷ cs) h

  pub read_bytes_lem :
      (part bytes : List ℕ)
      → length part + length bytes < 2 ^ 62
      → read_bytes b part bytes ≡ all_lines (part ++ bytes)
  unfolding read_bytes
  read_bytes_lem part bytes small =
      take_messages_lem (part ++ bytes) (omega (arith, length-append part bytes))

  pub receive_lem :
      (chunks : List (List ℕ)) (part : List ℕ)
      → IsFresh part
      → length part + length (flatten chunks) < 2 ^ 62
      → receive part chunks ≡ all_lines (part ++ flatten chunks)
  unfolding receive
  receive_lem [] part h small = rw (append-nil part, lines-fresh part h) (unfold collect in refl)
  receive_lem (chunk ∷ chunks) part h small =
      rw
        (
          read_bytes_lem part chunk (omega (arith, total)),
          bind_assoc,
          receive_lem chunks rest (lines_rest-IsFresh (part ++ chunk))
              (omega (arith, total, length-append part chunk, length-lines_rest (part ++ chunk))),
          ← append_assoc part chunk (flatten chunks),
          lines-append (part ++ chunk) (flatten chunks),
          collect-append,
        )
        (simp bind_assoc)
    where
      rest : List ℕ
      rest = (lines (part ++ chunk)).1

      total : length part + (length chunk + length (flatten chunks)) < 2 ^ 62
      total = omega (arith, length-append chunk (flatten chunks))

-- However a stream of fewer than 2 ^ 62 bytes is cut into reads, the reader delivers the messages
-- that one read of the whole stream gives, and keeps the same unfinished part.
pub receive-read_bytes :
    (b : Splitter) (chunks : List (List ℕ))
    → length (flatten chunks) < 2 ^ 62
    → receive b [] chunks ≡ read_bytes b [] (flatten chunks)
receive-read_bytes b chunks small =
    receive_lem b chunks [] tt (omega arith)
    ∙ sym (read_bytes_lem b [] (flatten chunks) (omega arith))

-- The frames of some messages, one behind the other.
unfoldable pub frames : List (List ℕ) → Outcome (List ℕ)
frames [] = ok []
frames (m ∷ ms) = do f ← frame m; rest ← frames ms; ok (f ++ rest)

pub frames-append :
    (ms ns : List (List ℕ))
    → frames (ms ++ ns) ≡ (frames ms >>= λ s. frames ns >>= λ t. ok (s ++ t))
unfolding frames
frames-append [] ns = sym (bind_ok (frames ns))
frames-append (m ∷ ms) ns = rw (frames-append ms ns) (simp (bind_assoc, append_assoc))

-- Bytes, fewer than 2 ^ 60 and not exactly one.
abbrev pub IsSendable : List ℕ → Type 0
IsSendable m = All IsByte m × (length m < 2 ^ 60) × (length m ≢ 1)

unfoldable pub non_empty : List (List ℕ) → List (List ℕ)
non_empty [] = []
non_empty ([] ∷ ms) = non_empty ms
non_empty ((c ∷ cs) ∷ ms) = (c ∷ cs) ∷ non_empty ms

pub frame-reference : (m : List ℕ) → IsSendable m → frame m ≡ ok (reference m ++ delimiter ∷ [])
unfolding frame
frame-reference m h = rw (encode-reference m h.0 (omega arith), ne→eqb (length m) 1 h.2)

abbrev pub wire : List (List ℕ) → List ℕ
wire [] = []
wire (m ∷ ms) = reference m ++ (delimiter ∷ wire ms)

pub frames-wire : (ms : List (List ℕ)) → All IsSendable ms → frames ms ≡ ok (wire ms)
unfolding frames
frames-wire [] h = refl
frames-wire (m ∷ ms) h = rw (frame-reference m h.0, frames-wire ms h.1, append_assoc)

IsFresh-frame : (s : List ℕ) → All IsFrameChar s → IsFresh s
IsFresh-frame [] h = tt
IsFresh-frame (x ∷ xs) h = (h.0.1, IsFresh-frame xs h.1)

lines-wire : (ms : List (List ℕ)) → All IsSendable ms → lines (wire ms) ≡ (map reference ms, [])
lines-wire [] h = unfold lines in refl
lines-wire (m ∷ ms) h =
    lines-line (reference m) (wire ms) (IsFresh-frame (reference m) (reference-IsFrameChar m h.0.0))
    ∙ rw (lines-wire ms h.1)

pub collect-reference :
    (ms : List (List ℕ)) → All IsSendable ms → collect (map reference ms) ≡ ok (non_empty ms)
unfolding collect non_empty
collect-reference [] h = refl
collect-reference ([] ∷ ms) h =
    rw (collect-reference ms h.1) (unfold reference decode_token in refl)
collect-reference ((c ∷ cs) ∷ ms) h = rw (collect-reference ms h.1, token (reference (c ∷ cs)) refl)
  where
    token :
        (r : List ℕ)
        → reference (c ∷ cs) ≡ r
        → decode_token (reference (c ∷ cs)) ≡ ok ((c ∷ cs) ∷ [])
    token [] e = absurd (omega (arith, ap length e, length-reference (c ∷ cs)))
    token (x ∷ xs) e = rw e (
        unfold decode_token in
        rw (ap decode (sym e) ∙ decode-reference (c ∷ cs) h.0.0 h.0.1, decode_token))

-- The reader on the frames of sendable messages, cut into reads in any way, delivers the messages
-- that are not empty, each once and in order, and keeps no unfinished part.
pub receive-frames :
    (b : Splitter) (ms chunks : List (List ℕ))
    → All IsSendable ms
    → frames ms ≡ ok (flatten chunks)
    → length (flatten chunks) < 2 ^ 62
    → receive b [] chunks ≡ ok (non_empty ms, [])
receive-frames b ms chunks h e small =
    receive_lem b chunks [] tt (omega arith)
    ∙ ap (λ s. all_lines b s) sent
    ∙ rw (lines-wire ms h, collect-reference ms h)
  where
    sent : flatten chunks ≡ wire ms
    sent = cc (frames-wire ms h)
