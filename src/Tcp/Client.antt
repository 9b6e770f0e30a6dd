-- ===== src/Tcp/Client.antt =====
-- The class `tcp_client` of core/src/TCP/TCPClient.cpp, without its thread. A pointer to a
-- `tcp_connection` is a number, since boost::asio keeps a connection that the client has replaced.
pub mod Current
pub mod Life
mod Tests
use diginext.Base.{
  ℕ, ◌≡◌, Bool, true, false, Option, none, some, List, [], ◌∷◌, ◌++◌, String, codes, eqb, Outcome,
  ok, ◌>>=◌, if◌then◌else◌, ◌==◌,
}
use diginext.Tcp.Connection.{Endpoint, Event, Effect, fires, Connection, Handler, create}
use diginext.Tcp.Connection

-- `tcp_conn`, `none` for the null pointer, and the objects.
pub record Client : Type 0 where
  pub objects : ℕ → Connection
  pub tcp_conn : Option ℕ

-- A signal of the client, or what a connection asks of boost::asio.
pub data ClientEffect : Type 0 where
  calls : Event → ClientEffect
  of_connection : ℕ → Effect → ClientEffect

-- `this->tcp_conn != nullptr && this->tcp_conn->getUUID() == connection->getUUID()`.
pub is_current : ℕ → Client → Bool
is_current p c = elim c.tcp_conn [
  | none ↦ false
  | some q ↦ eqb (codes (c.objects q).uuid) (codes (c.objects p).uuid)
]

-- The seven handlers, which pass on the signal of the current connection without the connection.
pub handle_event : ℕ → Event → Client → List ClientEffect
handle_event p e c = if is_current p c then calls e ∷ [] else []

abbrev pub handle_effect : ℕ → Effect → Client → List ClientEffect
handle_effect p (fires e) c = handle_event p e c
handle_effect p e c = of_connection p e ∷ []

pub handle_effects : ℕ → List Effect → Client → List ClientEffect
handle_effects p [] c = []
handle_effects p (e ∷ es) c = handle_effect p e c ++ handle_effects p es c

abbrev pub set_object : ℕ → Connection → Client → Client
set_object p o c = record c { objects = λ k. if k == p then o else c.objects k }

abbrev pub Action : Type 0
Action = Client → Outcome (Client × List ClientEffect)

-- A call of a method of a connection.
unfoldable pub call : ℕ → Handler → Action
call p h c = do
  (o, es) ← h (c.objects p)
  let c' : Client = set_object p o c
  ok (c', handle_effects p es c')

-- `connect`, with the address and the uuid of the new connection.
unfoldable pub connect : ℕ → String → Endpoint → Action
connect p uuid endpoint c =
    let o : Connection = record (create uuid) { slots = λ s. true } in
    call p (Connection.connect endpoint) (record (set_object p o c) { tcp_conn = some p })

-- `send` and `disconnect`.
abbrev on_connection : Handler → Action
on_connection h c = elim c.tcp_conn [ none ↦ ok (c, []) | some p ↦ call p h c ]

unfoldable pub send : List ℕ → Action
send msg = on_connection (Connection.send msg)

unfoldable pub disconnect : Action
disconnect = on_connection Connection.disconnect
