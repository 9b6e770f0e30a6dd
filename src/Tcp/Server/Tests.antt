-- ===== src/Tcp/Server/Tests.antt =====
-- Witnesses of the server's theorems.
use diginext.Base.{
  ◌≢◌, ap, inl, inr, ℕ, false, ◌≡◌, refl, some, List, [], ◌∷◌, codes, true, false, none, eqb,
  bytes_discrete, ok, ◌>>=◌, if◌then◌else◌, ◌==◌, All, arith,
}
use diginext.Tcp.Connection.{eof, other, create}
use diginext.Tcp.Message.Splitters.{newline_splitter}
use diginext.Tcp.Server.Lifetime.{
  Io, Operation, reading, closing, asked, Alive, IoStep, disconnects, disconnect_called, read_ended,
  IsCalm, CalmReach, here, next, Dangling,
}
use diginext.Tcp.Server.Lifetime.Held.{Held}
use diginext.Tcp.Server.Lifetime.Safe.{CalmReach-Alive}
use mathlib.Core.List.{Memᴰ}
use mathlib.Core.List.Memᴰ
use diginext.Tcp.Server.Lifetime.Dangles.{
  disconnected_by_uuid, disconnect-Dangling, handle_read-Dangling,
}
use diginext.Tcp.Server.{
  Server, ServerEffect, has_uuid, find_uuid, remove_connection_by_uuid, disconnect_all,
  handle_accept, send_all,
}
use diginext.Tcp.Worker.{running, Pace, goes_on, returns}
use diginext.Tcp.Server.Life.{TcpServer, behind, stop, stop-empties}
use diginext.Tcp.Server.Removal.{without, remove_connection_by_uuid-without}
use diginext.Tcp.Server.Disconnection.{cleared, disconnect_all-empties}
use diginext.Tcp.Channel.{frames_of}
use diginext.Tcp.Server.Sending.{Grown, writes_at}
use diginext.Tcp.Server.Broadcast.{copies_to, send_all-copies_to}

-- Three connections, of which two share a uuid.
abbrev three : Server
three = record {
  objects = λ k. record (create (if k == 2 then "b" else "a")) { slots = λ s. true };
  connections = 1 ∷ 2 ∷ 3 ∷ [];
}

remove_connection_by_uuid-without_example :
    remove_connection_by_uuid (codes "a") three
    ≡ ok (record three { connections = without three.objects (codes "a") three.connections })
remove_connection_by_uuid-without_example = remove_connection_by_uuid-without (codes "a") three

without_run : without three.objects (codes "a") three.connections ≡ 2 ∷ []
unfolding without has_uuid create eqb bytes_discrete
without_run = refl

disconnect_all-empties_example :
    (t : Server) × (es : List ServerEffect) × (disconnect_all three ≡ ok (t, es))
    × (t.connections ≡ [])
disconnect_all-empties_example = disconnect_all-empties three (refl, (refl, (refl, tt)))

abbrev serving : TcpServer
serving = record {
  server = three;
  worker = record { started_status = true; server_thread = some running; io_stopped = false };
}

abbrev pace : Pace
pace = record { disconnecting = []; waiting = λ i. []; joining = goes_on ∷ goes_on ∷ goes_on ∷ [] }

-- A connection is accepted after the last `disconnect`.
stop-empties_example :
    (t : Server) × (es : List ServerEffect) × (t.connections ≡ [])
    × (stop pace (λ i r. ok (r, [])) (handle_accept 7 none 8 "d") serving ≡ (
      (handle_accept 7 none 8 "d" t >>= behind es),
      returns (record { started_status = false; server_thread = none; io_stopped = true }),
    ))
stop-empties_example =
    stop-empties pace (λ i r. ok (r, [])) (handle_accept 7 none 8 "d") serving
      (refl, (refl, (refl, tt))) refl refl (omega arith) (λ j r. refl)

-- A message to two started connections.
abbrev two_started : Server
two_started = record {
  objects = λ k. record (create "a") { send_start = some false };
  connections = 1 ∷ 2 ∷ [];
}

send_all-copies_to_example :
    (t : Server) × (es : List ServerEffect) × (send_all (codes "hello") two_started ≡ ok (t, es))
    × (t.connections ≡ 1 ∷ 2 ∷ [])
    × ((p : ℕ)
        → Grown
            (frames_of (copies_to p (codes "hello") two_started.connections))
            (two_started.objects p)
            (t.objects p)
            (writes_at p es))
send_all-copies_to_example =
    send_all-copies_to (codes "hello") (omega arith) two_started
      ((false, refl), ((false, refl), tt))

copies_run : copies_to 2 (codes "hello") two_started.connections ≡ codes "hello" ∷ []
unfolding copies_to
copies_run = refl

-- A connection in the list, and one whose accept ends.
abbrev waiting : Server
waiting = record {
  objects = λ k. record (create (if k == 1 then "a" else "b")) { slots = λ signal. true };
  connections = 1 ∷ [];
}

-- Two connections that wait for their reads.
abbrev two_waiting : Server
two_waiting = record {
  objects = λ k. record (create (if k == 1 then "a" else "b")) { slots = λ s. true };
  connections = 1 ∷ 2 ∷ [];
}

abbrev waiting_for_reads : Io
waiting_for_reads = record { server = two_waiting; pending = (2, reading) ∷ (1, reading) ∷ [] }

found_first : find_uuid two_waiting.objects (codes "a") two_waiting.connections ≡ some 1
unfolding find_uuid has_uuid create eqb bytes_discrete
found_first = refl

alone : All (λ (o : ℕ × Operation). o.0 ≢ 1) ((2, reading) ∷ [])
alone = omega arith

disconnect-Dangling_example :
    (j k : Io) × IoStep newline_splitter waiting_for_reads (disconnect_called (codes "a")) j
    × IoStep newline_splitter j (read_ended 1 (some eof) []) k
    × Dangling 1 k
unfolding create
disconnect-Dangling_example =
    disconnect-Dangling newline_splitter 1 two_waiting ((2, reading) ∷ []) [] found_first refl alone
      eof

handle_read-Dangling_example :
    (j k : Io) × IoStep newline_splitter waiting_for_reads (read_ended 1 (some (other 5)) []) j
    × (j.server.connections ≡ two_waiting.connections)
    × IoStep newline_splitter j (disconnect_called (codes "a")) k
    × Dangling 1 k
unfolding create
handle_read-Dangling_example =
    handle_read-Dangling newline_splitter 1 two_waiting ((2, reading) ∷ []) [] found_first refl
      alone 5

both-Held : Held waiting_for_reads
both-Held = record {
  listed = λ k m. elim (Memᴰ.cases_cons m) [
    | inl e ↦ (Memᴰ.tail (Memᴰ.head (ap (λ j. (j, reading)) e)), refl)
    | inr t ↦ (Memᴰ.head (ap (λ j. (j, reading)) (Memᴰ.eq_of_singleton t)), refl)
  ];
  to_close = λ k m. absurd (ground (arith, only_reads k m));
}
  where
    only_reads : (k : ℕ) → Memᴰ (k, closing) waiting_for_reads.pending → closing ≡ reading
    only_reads k m = elim (Memᴰ.cases_cons m) [
      | inl e ↦ ap (λ o. o.1) e
      | inr t ↦ ap (λ o. o.1) (Memᴰ.eq_of_singleton t)
    ]

abbrev one_disconnected : Io
one_disconnected = record {
  server = cleared 1 (codes "a") two_waiting;
  pending = (2, reading) ∷ (1, reading) ∷ (1, closing) ∷ [];
}

disconnects_one : CalmReach newline_splitter waiting_for_reads one_disconnected
unfolding create asked IsCalm
disconnects_one =
    next here tt (disconnects (codes "a") (disconnected_by_uuid 1 two_waiting found_first refl))

CalmReach-Alive_example : Alive 1 one_disconnected
CalmReach-Alive_example =
    CalmReach-Alive newline_splitter 1 both-Held disconnects_one
      (Memᴰ.tail (Memᴰ.tail (Memᴰ.head refl)))
