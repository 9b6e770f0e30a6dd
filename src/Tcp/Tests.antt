-- ===== src/Tcp/Tests.antt =====
-- The theorems on connections at concrete inputs: one connection sends two messages, which another
-- reads in three chunks.
use diginext.Base.{
  ℕ, ◌≡◌, refl, true, false, none, some, List, [], ◌∷◌, ◌++◌, codes, ok, arith, ◌⊎◌,
}
use diginext.Base64.{encoding_table}
use diginext.Base64.Reference.{reference, symbol}
use diginext.Tcp.Message.{frame}
use diginext.Tcp.Message.Stream.{frame-reference, non_empty}
use diginext.Tcp.Message.Splitters.{newline_splitter}
use diginext.Tcp.Connection.{Connection, async_read_until, create, start}
use diginext.Tcp.Connection.Writer.{
  Link, sends, ends, Reach, here, next, writes_of, send_idle, send_busy, handle_write_last,
  handle_write_more, failed,
}
use diginext.Tcp.Connection.Writer.Queue.{fresh_link, one_write_in_order}
use diginext.Tcp.Connection.Writer.Drain.{end_writes, end_writes-drains}
use diginext.Tcp.Connection.Reader.{read_all}
use diginext.Tcp.Delivery.{read_all-delivers}

-- A started connection with every slot connected.
abbrev sender : Connection
sender = record {
  uuid = "sender";
  is_open = false;
  message = [];
  part_message = [];
  send_buffer = [];
  send_start = some false;
  slots = λ s. false;
}

abbrev reader : Connection
reader = record sender { slots = λ s. true }

sender_started : start (create "sender") ≡ ok (sender, async_read_until ∷ [])
unfolding start create
sender_started = refl

abbrev hello_frame : List ℕ
hello_frame = codes "aGVsbG8=\n"

abbrev bye_frame : List ℕ
bye_frame = codes "Ynll\n"

frame_hello : frame (codes "hello") ≡ ok hello_frame
unfolding reference symbol encoding_table
frame_hello = frame-reference (codes "hello") (omega arith)

frame_bye : frame (codes "bye") ≡ ok bye_frame
unfolding reference symbol encoding_table
frame_bye = frame-reference (codes "bye") (omega arith)

-- Both messages are sent before the first write ends.
both_sent : Reach (fresh_link sender) (record {
  conn = record sender { send_buffer = hello_frame ∷ bye_frame ∷ []; send_start = some true };
  in_flight = hello_frame ∷ [];
  completed = [];
  messages = codes "hello" ∷ codes "bye" ∷ [];
  queued = hello_frame ∷ bye_frame ∷ [];
})
unfolding writes_of
both_sent =
    next
      (next here (
        sends (codes "hello") hello_frame frame_hello
          (send_idle (codes "hello") hello_frame sender frame_hello refl refl)))
      (sends (codes "bye") bye_frame frame_bye (
        send_busy (codes "bye") bye_frame
          (record sender { send_buffer = hello_frame ∷ []; send_start = some true }) frame_bye
          refl))

abbrev both_link : Link
both_link = record {
  conn = record sender { send_buffer = hello_frame ∷ bye_frame ∷ []; send_start = some true };
  in_flight = hello_frame ∷ [];
  completed = [];
  messages = codes "hello" ∷ codes "bye" ∷ [];
  queued = hello_frame ∷ bye_frame ∷ [];
}

-- Both writes have ended.
abbrev done_link : Link
done_link = record {
  conn = record sender { send_buffer = []; send_start = some false };
  in_flight = [];
  completed = hello_frame ∷ bye_frame ∷ [];
  messages = codes "hello" ∷ codes "bye" ∷ [];
  queued = hello_frame ∷ bye_frame ∷ [];
}

both_written : Reach (fresh_link sender) done_link
unfolding writes_of failed
both_written =
    next
      (next both_sent (
        ends none 9 hello_frame [] refl
          (handle_write_more none 9 hello_frame bye_frame [] both_link.conn refl)))
      (ends none 5 bye_frame [] refl (
        handle_write_last none 5 bye_frame
          (record sender { send_buffer = bye_frame ∷ []; send_start = some true }) refl))

one_write_in_order_example :
    ((both_link.in_flight ≡ [])
      × (both_link.conn.send_buffer ≡ [])
      × (both_link.completed ≡ both_link.queued))
    ⊎ ((f : List ℕ) × (rest : List (List ℕ)) × (both_link.in_flight ≡ f ∷ [])
        × (both_link.conn.send_buffer ≡ f ∷ rest)
        × (both_link.completed ++ (f ∷ rest) ≡ both_link.queued))
one_write_in_order_example =
    one_write_in_order "sender" sender (async_read_until ∷ []) both_link sender_started both_sent

end_writes-drains_example :
    (m : Link) × (end_writes ((none, 9) ∷ (none, 5) ∷ []) both_link ≡ ok m)
    × (m.in_flight ≡ [])
    × (m.conn.send_buffer ≡ [])
    × (m.completed ≡ hello_frame ∷ bye_frame ∷ [])
end_writes-drains_example =
    end_writes-drains "sender" sender (async_read_until ∷ []) both_link ((none, 9) ∷ (none, 5) ∷ [])
      sender_started both_sent refl

read_all-delivers_example :
    read_all newline_splitter (codes "aGVs" ∷ codes "bG8=\nYn" ∷ codes "ll\n" ∷ []) reader
    ≡ ok (codes "hello" ∷ codes "bye" ∷ [], reader)
unfolding non_empty
read_all-delivers_example =
    read_all-delivers newline_splitter "sender" sender (async_read_until ∷ []) done_link
      (codes "aGVs" ∷ codes "bG8=\nYn" ∷ codes "ll\n" ∷ []) reader sender_started both_written refl
      (omega arith) refl (omega arith) refl refl refl
