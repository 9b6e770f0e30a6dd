-- ===== src/Tcp/Channel.antt =====
-- What one end's messages become at the other end, as an interface: the components above TCP use a
-- `Channel`, and not the connections.
use diginext.Base.{
  ℕ, ◌^◌, ◌<◌, ◌≤◌, ◌≡◌, refl, sym, ap, ◌∙◌, String, true, false, none, some, List, [], ◌∷◌, ◌++◌,
  append_assoc, append-nil, flatten, length, All, Outcome, ok, arith,
}
use diginext.Base64.{IsByte}
use diginext.Base64.Reference.{reference}
use diginext.Tcp.Message.{Splitter, delimiter}
use diginext.Tcp.Message.Stream.{IsSendable, non_empty, frame-reference}
use diginext.Tcp.Connection.{Connection, Effect, read_message, create, start, async_read_until}
use diginext.Tcp.Connection.Writer.{
  Link, sends, ends, Reach, here, next, send_idle, handle_write_last, writes_of, failed,
}
use diginext.Tcp.Connection.Writer.Queue.{fresh_link}
use diginext.Tcp.Connection.Reader.{read_all}
use diginext.Tcp.Delivery.{read_all-delivers}

-- A started connection has been given `sent`, all its writes have ended, and another connection has
-- read the bytes in any cut and delivered `received`.
pub record Channel (b : Splitter) (sent received : List (List ℕ)) : Type 0 where
  pub uuid : String
  pub writer : Connection
  pub effects : List Effect
  pub link : Link
  pub chunks : List (List ℕ)
  pub reader : Connection
  pub settled : Connection
  pub begun : start (create uuid) ≡ ok (writer, effects)
  pub reached : Reach (fresh_link writer) link
  pub quiet : link.in_flight ≡ []
  pub given : link.messages ≡ sent
  pub stream : flatten chunks ≡ flatten link.completed
  pub small : length (flatten chunks) < 2 ^ 62
  pub has_slot : reader.slots read_message ≡ true
  pub no_bytes : reader.message ≡ []
  pub no_part : reader.part_message ≡ []
  pub arrived : read_all b chunks reader ≡ ok (received, settled)

-- A message of two bytes or more.
abbrev pub IsText : List ℕ → Type 0
IsText m = All IsByte m × (length m < 2 ^ 60) × (2 ≤ length m)

pub texts-IsSendable : (ms : List (List ℕ)) → All IsText ms → All IsSendable ms
texts-IsSendable [] h = tt
texts-IsSendable (m ∷ ms) h =
    ((h.0.0, h.0.1, λ e. absurd (omega (arith, e, h.0.2))), texts-IsSendable ms h.1)

pub non_empty-texts : (ms : List (List ℕ)) → All IsText ms → non_empty ms ≡ ms
unfolding non_empty
non_empty-texts [] h = refl
non_empty-texts ([] ∷ ms) h = absurd (omega (arith, h.0.2))
non_empty-texts ((c ∷ cs) ∷ ms) h = ap (λ l. (c ∷ cs) ∷ l) (non_empty-texts ms h.1)

-- A channel delivers the texts that were sent, each once and in order.
pub Channel-received :
    {b : Splitter} {sent received : List (List ℕ)}
    → All IsText sent
    → Channel b sent received
    → received ≡ sent
Channel-received {b} {sent} {received} h c =
    ground (arith, same) ∙ ap non_empty c.given ∙ non_empty-texts sent h
  where
    same :
        ◌≡◌ {A = Outcome (List (List ℕ) × Connection)}
          (ok (non_empty c.link.messages, record (c.reader) { message = []; part_message = [] }))
          (ok (received, c.settled))
    same =
        sym (
          read_all-delivers b c.uuid c.writer c.effects c.link c.chunks c.reader c.begun c.reached
            c.quiet (rw c.given (texts-IsSendable sent h)) c.stream c.small c.has_slot c.no_bytes
            c.no_part)
        ∙ c.arrived

-- A started connection, and its state with every write ended.
abbrev idle_writer : String → Connection
idle_writer uuid = record {
  uuid = uuid;
  is_open = false;
  message = [];
  part_message = [];
  send_buffer = [];
  send_start = some false;
  slots = λ s. false;
}

abbrev pub frame_of : List ℕ → List ℕ
frame_of m = reference m ++ delimiter ∷ []

abbrev pub frames_of : List (List ℕ) → List (List ℕ)
frames_of [] = []
frames_of (m ∷ ms) = frame_of m ∷ frames_of ms

pub frames_of-append : (xs ys : List (List ℕ)) → frames_of (xs ++ ys) ≡ frames_of xs ++ frames_of ys
frames_of-append [] ys = refl
frames_of-append (x ∷ xs) ys = ap (λ l. frame_of x ∷ l) (frames_of-append xs ys)

abbrev written_link : String → List (List ℕ) → List (List ℕ) → Link
written_link uuid ms fs = record {
  conn = idle_writer uuid;
  in_flight = [];
  completed = fs;
  messages = ms;
  queued = fs;
}

-- One message is sent, and its write ends.
one_written :
    (uuid : String) (l : Link) (ms fs : List (List ℕ)) (m : List ℕ)
    → IsSendable m
    → Reach l (written_link uuid ms fs)
    → Reach l (written_link uuid (ms ++ m ∷ []) (fs ++ frame_of m ∷ []))
unfolding writes_of failed
one_written uuid l ms fs m h r =
    next
      (next r (
        sends m (frame_of m) (frame-reference m h)
          (send_idle m (frame_of m) (idle_writer uuid) (frame-reference m h) refl refl)))
      (ends none 0 (frame_of m) [] refl (
        handle_write_last none 0 (frame_of m)
          (record (idle_writer uuid) { send_buffer = frame_of m ∷ []; send_start = some true })
          refl))

rest_written :
    (uuid : String) (l : Link) (ms fs more : List (List ℕ))
    → All IsSendable more
    → Reach l (written_link uuid ms fs)
    → Reach l (written_link uuid (ms ++ more) (fs ++ frames_of more))
rest_written uuid l ms fs [] h r = rw (append-nil ms, append-nil fs) r
rest_written uuid l ms fs (m ∷ more) h r =
    rw (← append_assoc ms (m ∷ []) more, ← append_assoc fs (frame_of m ∷ []) (frames_of more))
      (rest_written uuid l (ms ++ m ∷ []) (fs ++ frame_of m ∷ []) more h.1
        (one_written uuid l ms fs m h.0 r))

-- There is a channel for texts whose frames have fewer than 2 ^ 62 bytes together: one message is
-- written after the other, and all is read at once.
pub channel :
    (b : Splitter) (uuid : String) (ms : List (List ℕ))
    → All IsText ms
    → length (flatten (frames_of ms)) < 2 ^ 62
    → Channel b ms ms
unfolding start create
channel b uuid ms h small = record {
  uuid = uuid;
  writer = idle_writer uuid;
  effects = async_read_until ∷ [];
  link = written_link uuid ms (frames_of ms);
  chunks = flatten (frames_of ms) ∷ [];
  reader = reader;
  settled = reader;
  begun = refl;
  reached = reached;
  quiet = refl;
  given = refl;
  stream = whole;
  small = few;
  has_slot = refl;
  no_bytes = refl;
  no_part = refl;
  arrived = delivered ∙ ap (λ l. ok (l, reader)) (non_empty-texts ms h);
}
  where
    reader : Connection
    reader = record (idle_writer uuid) { slots = λ s. true }

    reached : Reach (fresh_link (idle_writer uuid)) (written_link uuid ms (frames_of ms))
    reached =
        rest_written uuid (fresh_link (idle_writer uuid)) [] [] ms (texts-IsSendable ms h) here

    whole : flatten (flatten (frames_of ms) ∷ []) ≡ flatten (frames_of ms)
    whole = append-nil (flatten (frames_of ms))

    few : length (flatten (flatten (frames_of ms) ∷ [])) < 2 ^ 62
    few = rw whole small

    delivered : read_all b (flatten (frames_of ms) ∷ []) reader ≡ ok (non_empty ms, reader)
    delivered =
        read_all-delivers b uuid (idle_writer uuid) (async_read_until ∷ [])
          (written_link uuid ms (frames_of ms)) (flatten (frames_of ms) ∷ []) reader refl reached
          refl (texts-IsSendable ms h) whole few refl refl refl
