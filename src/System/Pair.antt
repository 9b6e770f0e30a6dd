-- ===== src/System/Pair.antt =====
-- One client and the host's connection to it: what the steps of the system do to the two.
pub mod Host
pub mod Reads
use diginext.Base.{
  ℕ, suc, ◌+◌, ◌<◌, ◌^◌, ◌≡◌, refl, sym, ap, ◌∙◌, subst, inl, inr, none, true, false, List, [], ◌∷◌,
  ◌++◌, append_assoc, flatten, map, length, All, Outcome, ok, undefined, throws, out_of_fuel, arith,
}
use diginext.Tcp.Message.{Splitter, read_bytes}
use diginext.Tcp.Message.Stream.{frame-reference}
use diginext.Tcp.Connection.{
  Connection, Effect, read_message, async_write_some, send, handle_write, handle_read,
}
use diginext.Tcp.Connection.Writer.{writes_of, send_lem, with_frame, begun_write}
use diginext.Tcp.Connection.Writer.Flight.{Flight, Moved-with_frame}
use diginext.Tcp.Connection.Reader.{messages_of, messages_of-fire_all}
use diginext.Tcp.Channel.{IsText, frame_of, texts-IsSendable}
use diginext.Tcp.Server.{Server}
use diginext.Tcp.Server.Sending.{IsStarted}
use diginext.Tcp.Server.Readiness.{Ready}
use diginext.Storage.Json.{JsonLib}
use diginext.Storage.Server.{Store}
use diginext.Storage.Host.Queues.{replies_to}
use diginext.Storage.Host.Requests.{of_one}
use diginext.Storage.Host.Arrival.{read_lem}
use diginext.System.Peers.{Side, Side-grown, Side-ended, Side-read, Side-kept}

-- The client `c` and the connection `p` of the host's server `s`, with `log` handled so far.
-- `asked` are the messages on their way to the host, and `answers` the replies on their way back.
pub record Pair (lib : JsonLib) (store : Store) (log : List (ℕ × List ℕ)) (p : ℕ) (s : Server)
    (c : Connection) (up down : List ℕ) (client_writes server_writes : ℕ)
    (sent received : List (List ℕ)) : Type 0 where
  pub ready : Ready s p
  pub has_slot : c.slots read_message ≡ true
  pub no_bytes : c.message ≡ []
  pub asked : List (List ℕ)
  pub answers : List (List ℕ)
  pub asking : Side (s.objects p).part_message up c client_writes asked
  pub answering : Side c.part_message down (s.objects p) server_writes answers
  pub order : sent ≡ of_one p log ++ asked
  pub replies : replies_to lib p log store ≡ received ++ answers

pub Flight-IsStarted :
    (c : Connection) (n : ℕ) (rest : List (List ℕ)) → Flight c n rest → IsStarted c
Flight-IsStarted c n rest (inl (s, x, y, z)) = (false, s)
Flight-IsStarted c n rest (inr (f, s, x, y)) = (true, s)

module _ (lib : JsonLib) (store : Store) (log : List (ℕ × List ℕ)) (p : ℕ) (s : Server) where
  -- `send` of the client.
  pub Pair-send :
      (c : Connection) (up down : List ℕ) (m n : ℕ) (sent received : List (List ℕ)) (msg : List ℕ)
      → IsText msg
      → Pair lib store log p s c up down m n sent received
      → (d : Connection) × (es : List Effect) × (send msg c ≡ ok (d, es))
        × Pair lib store log p s d
            (up ++ flatten (writes_of es))
            down
            (m + length (writes_of es))
            n
            (sent ++ msg ∷ [])
            received
  unfolding with_frame
  Pair-send c up down m n sent received msg h k =
      let (b, e) = Flight-IsStarted c m k.asking.rest k.asking.flight in
      let sendable = texts-IsSendable (msg ∷ []) (h, tt) in
      (
        with_frame (frame_of msg) c,
        begun_write b c.send_buffer (frame_of msg),
        send_lem msg (frame_of msg) c b (frame-reference msg sendable.0) e,
        record {
          ready = k.ready;
          has_slot = k.has_slot;
          no_bytes = k.no_bytes;
          asked = k.asked ++ msg ∷ [];
          answers = k.answers;
          asking =
              Side-grown (s.objects p).part_message up c (with_frame (frame_of msg) c) m k.asked
                (msg ∷ []) (writes_of (begun_write b c.send_buffer (frame_of msg))) (h, tt)
                (Moved-with_frame (frame_of msg) c b e) k.asking;
          answering = k.answering;
          order = ap (λ l. l ++ msg ∷ []) k.order ∙ append_assoc (of_one p log) k.asked (msg ∷ []);
          replies = k.replies;
        },
      )

  -- A write of the client ends.
  pub Pair-client_ends :
      (c : Connection) (up down : List ℕ) (w n bytes : ℕ) (sent received : List (List ℕ))
      → Pair lib store log p s c up down (suc w) n sent received
      → (d : Connection) × (es : List Effect) × (handle_write none bytes c ≡ ok (d, es))
        × Pair lib store log p s d
            (up ++ flatten (writes_of es))
            down
            (w + length (writes_of es))
            n
            sent
            received
  Pair-client_ends c up down w n bytes sent received k =
      let (d, es, run, (buffer, start, same), asks, side) =
        Side-ended (s.objects p).part_message up c bytes w k.asked k.asking in
      (
        d,
        es,
        run,
        record {
          ready = k.ready;
          has_slot = ap (λ e. e.slots read_message) same ∙ k.has_slot;
          no_bytes = ap (λ e. e.message) same ∙ k.no_bytes;
          asked = k.asked;
          answers = k.answers;
          asking = side;
          answering =
              subst (λ x. Side x down (s.objects p) n k.answers)
                (sym (ap (λ e. e.part_message) same)) k.answering;
          order = k.order;
          replies = k.replies;
        },
      )

  -- The client reads some of the bytes on the way to it.
  pub Pair-client_reads :
      (b : Splitter) (c : Connection) (up down : List ℕ) (m n : ℕ) (sent received : List (List ℕ))
      (chunk left : List ℕ)
      → down ≡ chunk ++ left
      → length chunk < 2 ^ 61
      → Pair lib store log p s c up down m n sent received
      → (d : Connection) × (es : List Effect) × (handle_read b none
            (length chunk)
            (record c { message = c.message ++ chunk })
          ≡ ok (d, es))
        × Pair lib store log p s d up left m n sent (received ++ messages_of es)
  Pair-client_reads b c up down m n sent received chunk left e few k =
      let (done, answers, part, split, run, texts, side) =
        Side-read b c.part_message down chunk left (s.objects p) n k.answers e few k.answering in
      (
        record c { message = []; part_message = part },
        _,
        read_lem b chunk part done c k.no_bytes run,
        record {
          ready = k.ready;
          has_slot = k.has_slot;
          no_bytes = refl;
          asked = k.asked;
          answers = answers;
          asking = Side-kept (s.objects p).part_message up c _ m k.asked refl refl k.asking;
          answering = side;
          order = k.order;
          replies =
              k.replies
              ∙ ap (λ l. received ++ l) split
              ∙ sym (append_assoc received done answers)
              ∙ ap (λ l. (received ++ l) ++ answers)
                  (sym (
                    messages_of-fire_all (record c { message = c.message ++ chunk }) done
                      k.has_slot));
        },
      )
