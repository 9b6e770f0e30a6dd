-- ===== src/Tcp/Server.antt =====
-- The class `tcp_server` of core/src/TCP/TCPServer.cpp: the list of connections and its operations.
-- A pointer to a `tcp_connection` is a number and `objects` is the memory it points to, since the
-- list, the handlers and boost::asio share the objects. The server's own signals are effects.
pub mod Removal
pub mod Sending
pub mod Broadcast
pub mod Lookup
pub mod Disconnection
pub mod Acceptance
pub mod Readiness
pub mod Life
pub mod Lifetime
mod Tests
use diginext.Base.{
  ℕ, zero, suc, ◌≡◌, Bool, true, false, not, Option, none, some, List, [], ◌∷◌, ◌++◌, map, String,
  codes, eqb, length, Outcome, ok, throws, undefined, out_of_fuel, ◌>>=◌, if◌then◌else◌, ◌==◌,
}
use diginext.Tcp.Connection.{
  ErrorCode, Signal, connection_timed_out, connection_error, connection_success, disconnected,
  read_message, read_error, send_error, Event, on_connection_timed_out, on_connection_error,
  on_connection_success, on_disconnected, on_read_message, on_read_error, on_send_error, Effect,
  fires, Connection, Handler, create,
}
use diginext.Tcp.Connection

pub record Server : Type 0 where
  pub objects : ℕ → Connection
  pub connections : List ℕ

-- The server's signals, with their arguments.
pub data ServerEvent : Type 0 where
  on_accepted : ℕ → ServerEvent
  on_accept_error : ℕ → ErrorCode → ServerEvent
  on_client_disconnected : ℕ → ServerEvent
  on_client_message : ℕ → List ℕ → ServerEvent
  on_client_read_error on_client_send_error : ℕ → ErrorCode → ℕ → ServerEvent

-- What the server does: its signals, what a connection asks of boost::asio, and `async_accept`.
pub data ServerEffect : Type 0 where
  calls : ServerEvent → ServerEffect
  of_connection : ℕ → Effect → ServerEffect
  async_accept : ℕ → ServerEffect

abbrev pub Action : Type 0
Action = Server → Outcome (Server × List ServerEffect)

-- Nothing to do.
abbrev skip : Action
skip s = ok (s, [])

abbrev pub set_object : ℕ → Connection → Server → Server
set_object p c s = record s { objects = λ k. if k == p then c else s.objects k }

-- `connection->getUUID() == uuid`.
unfoldable pub has_uuid : (ℕ → Connection) → List ℕ → ℕ → Bool
has_uuid objects uuid p = eqb (codes (objects p).uuid) uuid

abbrev pub uuid_of : Server → ℕ → List ℕ
uuid_of s p = codes (s.objects p).uuid

-- The loop of `getConnectionByUUID`; `none` for the null pointer.
unfoldable pub find_uuid : (ℕ → Connection) → List ℕ → List ℕ → Option ℕ
find_uuid objects uuid [] = none
find_uuid objects uuid (p ∷ ps) =
    if has_uuid objects uuid p then some p else find_uuid objects uuid ps

abbrev get_connection_by_uuid : List ℕ → Server → Option ℕ
get_connection_by_uuid uuid s = find_uuid s.objects uuid s.connections

-- The loop of `removeConnectionByUUID`: it erases one connection and stops.
pub erase_uuid : (ℕ → Connection) → List ℕ → List ℕ → List ℕ
erase_uuid objects uuid [] = []
erase_uuid objects uuid (p ∷ ps) =
    if has_uuid objects uuid p then ps else p ∷ erase_uuid objects uuid ps

-- `removeConnectionByUUID`, which calls itself while the uuid is found.
pub remove_from : ℕ → List ℕ → Server → Outcome Server
remove_from zero uuid s = out_of_fuel
remove_from (suc fuel) uuid s =
    let s' : Server = record s { connections = erase_uuid s.objects uuid s.connections } in
    let rest : Outcome Server = remove_from fuel uuid s' in
    elim (get_connection_by_uuid uuid s') [ some p ↦ rest | none ↦ ok s' ]

-- Each call but the last erases a connection, so the fuel is enough.
pub remove_connection_by_uuid : List ℕ → Server → Outcome Server
remove_connection_by_uuid uuid s = remove_from (suc (length s.connections)) uuid s

-- `disconnect_all_slots` of four signals.
abbrev without_slots : (Signal → Bool) → Signal → Bool
without_slots slots connection_timed_out = slots connection_timed_out
without_slots slots connection_error = slots connection_error
without_slots slots connection_success = slots connection_success
without_slots slots _ = false

abbrev pub with_slots : (Signal → Bool) → Signal → Bool
with_slots slots connection_timed_out = slots connection_timed_out
with_slots slots connection_error = slots connection_error
with_slots slots connection_success = slots connection_success
with_slots slots _ = true

abbrev pub drop_slots : ℕ → Server → Server
drop_slots p s = set_object p (record (s.objects p) { slots = without_slots (s.objects p).slots }) s

-- `handle_tcp_connection_disconnected`.
pub handle_disconnected : ℕ → Action
handle_disconnected p s = elim (get_connection_by_uuid (uuid_of s p) s) [
  | none ↦ skip s
  | some q ↦ do
    s' ← remove_connection_by_uuid (uuid_of (drop_slots p s) q) (drop_slots p s)
    ok (s', calls (on_client_disconnected q) ∷ [])
]

-- The other handlers pass the signal on, if the connection is in the list.
abbrev pass_on : ℕ → (ℕ → ServerEvent) → Action
pass_on p e s = elim (get_connection_by_uuid (uuid_of s p) s) [
  | none ↦ skip s
  | some q ↦ ok (s, calls (e q) ∷ [])
]

-- The slots that `handle_accept` connects.
unfoldable pub handle_event : ℕ → Event → Action
handle_event p on_disconnected = handle_disconnected p
handle_event p (on_read_message msg) = pass_on p (λ q. on_client_message q msg)
handle_event p (on_read_error ec n) = pass_on p (λ q. on_client_read_error q ec n)
handle_event p (on_send_error ec n) = pass_on p (λ q. on_client_send_error q ec n)
handle_event p (on_connection_timed_out e) = skip
handle_event p (on_connection_error e ec) = skip
handle_event p (on_connection_success e) = skip

abbrev pub handle_effect : ℕ → Effect → Action
handle_effect p (fires e) s = handle_event p e s
handle_effect p e s = ok (s, of_connection p e ∷ [])

unfoldable pub handle_effects : ℕ → List Effect → Action
handle_effects p [] s = skip s
handle_effects p (e ∷ es) s = do
  (s₁, first) ← handle_effect p e s
  (s₂, rest) ← handle_effects p es s₁
  ok (s₂, first ++ rest)

-- A call of a method of a connection: a signal that it fires calls its slot at once.
unfoldable pub call : ℕ → Handler → Action
call p h s = do (c, es) ← h (s.objects p); handle_effects p es (set_object p c s)

-- `start_accept`: a new connection, at a new address and with a new uuid.
pub start_accept : ℕ → String → Action
start_accept p uuid s = ok (set_object p (create uuid) s, async_accept p ∷ [])

-- The `try` block of `handle_accept`. The state of the socket is left as created: only
-- `handle_connect` reads it.
pub take_connection : ℕ → Action
take_connection p s = do
  let c : Connection = record (s.objects p) { slots = with_slots (s.objects p).slots }
  (s', es) ←
      call p Connection.start (record (set_object p c s) { connections = s.connections ++ p ∷ [] })
  ok (s', es ++ calls (on_accepted p) ∷ [])

-- `catch (...) {}`.
abbrev pub caught : Action → Action
caught m s = elim (m s) [
  | ok r ↦ ok r
  | throws e ↦ skip s
  | undefined ↦ undefined
  | out_of_fuel ↦ out_of_fuel
]

-- `handle_accept`. After an error it goes on: the connection is put in the list and started.
pub handle_accept : ℕ → Option ErrorCode → ℕ → String → Action
handle_accept p error q uuid s = do
  let failed : List ServerEffect = elim error [
    | some code ↦ calls (on_accept_error p code) ∷ []
    | none ↦ []
  ]
  (s₁, taken) ← caught (take_connection p) s
  (s₂, next) ← start_accept q uuid s₁
  ok (s₂, failed ++ (taken ++ next))

-- `send` to a connection, and to a uuid.
unfoldable pub send : ℕ → List ℕ → Action
send p msg = call p (Connection.send msg)

send_to : List ℕ → List ℕ → Action
send_to uuid msg s = elim (get_connection_by_uuid uuid s) [ none ↦ skip s | some p ↦ send p msg s ]

-- A loop over a copy of the list.
pub for_each : (ℕ → Action) → List ℕ → Action
for_each f [] s = skip s
for_each f (p ∷ ps) s = do
  (s₁, first) ← f p s
  (s₂, rest) ← for_each f ps s₁
  ok (s₂, first ++ rest)

pub send_all : List ℕ → Action
send_all msg s = for_each (λ p. caught (send p msg)) s.connections s

pub disconnect_by_uuid : List ℕ → Action
disconnect_by_uuid uuid s = elim (get_connection_by_uuid uuid s) [
  | none ↦ skip s
  | some p ↦ call p Connection.disconnect s
]

pub disconnect : ℕ → Action
disconnect p s = disconnect_by_uuid (uuid_of s p) s

pub disconnect_all : Action
disconnect_all s = for_each disconnect s.connections s
