-- ===== src/Tcp/Connection.antt =====
-- The class `tcp_connection` of core/src/TCP/TCPConnection.cpp and
-- core/include/TCP/TCPConnection.h.
-- A method returns the new object and its effects in order: the signals that reach a slot, and what
-- it asks of boost::asio, which later calls a handler. Log lines are left out.
pub mod Writer
pub mod Reader
pub mod Quiet
use diginext.Base.{
  ℕ, Bool, true, false, Option, none, some, List, [], ◌∷◌, ◌++◌, String, map, Outcome, ok, throws,
  undefined, out_of_fuel, ◌>>=◌, if◌then◌else◌, not,
}
use diginext.Tcp.Message.{Splitter, frame, read_bytes}

-- `tcp::endpoint`.
pub record Endpoint : Type 0 where
  pub address : String
  pub port : ℕ

-- `boost::system::error_code` of an operation that failed.
pub data ErrorCode : Type 0 where
  eof connection_reset : ErrorCode
  other : ℕ → ErrorCode

pub data Signal : Type 0 where
  connection_timed_out connection_error connection_success disconnected : Signal
  read_message read_error send_error : Signal

-- A signal with its arguments, but for the connection itself.
pub data Event : Type 0 where
  on_connection_timed_out : Endpoint → Event
  on_connection_error : Endpoint → ErrorCode → Event
  on_connection_success : Endpoint → Event
  on_disconnected : Event
  on_read_message : List ℕ → Event
  on_read_error : ErrorCode → ℕ → Event
  on_send_error : ErrorCode → ℕ → Event

abbrev pub signal_of : Event → Signal
signal_of (on_connection_timed_out e) = connection_timed_out
signal_of (on_connection_error e ec) = connection_error
signal_of (on_connection_success e) = connection_success
signal_of on_disconnected = disconnected
signal_of (on_read_message m) = read_message
signal_of (on_read_error ec n) = read_error
signal_of (on_send_error ec n) = send_error

pub data Effect : Type 0 where
  fires : Event → Effect
  async_connect : Endpoint → Effect
  async_read_until : Effect
  async_write_some : List ℕ → Effect
  post_close : Effect
  shutdown_both : Effect
  close_socket : Effect

-- The constructor leaves `sendStart` without a value: `none`. `slots` tells which signals have a
-- slot; `message` is the content of the `streambuf`.
pub record Connection : Type 0 where
  pub uuid : String
  pub is_open : Bool
  pub message : List ℕ
  pub part_message : List ℕ
  pub send_buffer : List (List ℕ)
  pub send_start : Option Bool
  pub slots : Signal → Bool

abbrev pub Handler : Type 0
Handler = Connection → Outcome (Connection × List Effect)

-- `create`, with the uuid that the generator gives.
unfoldable pub create : String → Connection
create uuid = record {
  uuid = uuid;
  is_open = false;
  message = [];
  part_message = [];
  send_buffer = [];
  send_start = none;
  slots = λ s. false;
}

-- A call of a signal.
abbrev pub fire : Connection → Event → List Effect
fire c e = if c.slots (signal_of e) then fires e ∷ [] else []

abbrev pub fire_all : Connection → List Event → List Effect
fire_all c [] = []
fire_all c (e ∷ es) = fire c e ++ fire_all c es

-- `async_connect` opens the socket.
unfoldable pub connect : Endpoint → Handler
connect e c = ok (record c { is_open = true }, async_connect e ∷ [])

unfoldable pub start : Handler
start c = ok (record c { send_start = some false; part_message = [] }, async_read_until ∷ [])

pub handle_connect : Option ErrorCode → Endpoint → Handler
handle_connect ec e c =
    if not c.is_open then ok (c, fire c (on_connection_timed_out e)) else (elim ec [
      | some code ↦
          ok (record c { is_open = false }, close_socket ∷ fire c (on_connection_error e code))
      | none ↦ start c >>= λ r. ok (r.0, r.1 ++ fire r.0 (on_connection_success e))
    ])

-- What `handle_read` does on an error: it does not read on.
abbrev pub read_failed : ErrorCode → ℕ → Connection → List Effect
read_failed eof bytes c = fire c on_disconnected
read_failed connection_reset bytes c = fire c on_disconnected
read_failed (other n) bytes c = fire c (on_read_error (other n) bytes)

unfoldable pub handle_read : Splitter → Option ErrorCode → ℕ → Handler
handle_read b (some code) bytes c = ok (c, read_failed code bytes c)
handle_read b none bytes c = do
  (messages, part) ← read_bytes b c.part_message c.message
  ok (
    record c { message = []; part_message = part },
    fire_all c (map on_read_message messages) ++ async_read_until ∷ [],
  )

-- `async_write` from the test of the buffer on.
write_front : List (List ℕ) → Handler
write_front [] c = ok (record c { send_start = some false }, [])
write_front (f ∷ fs) c = ok (c, async_write_some f ∷ [])

abbrev pop_front : List (List ℕ) → List (List ℕ)
pop_front [] = []
pop_front (f ∷ fs) = fs

-- `async_write(init)`. To read an indeterminate `sendStart` is undefined.
pub async_write : Bool → Handler
async_write true c = elim c.send_start [
  | none ↦ undefined
  | some true ↦ ok (c, [])
  | some false ↦ write_front c.send_buffer (record c { send_start = some true })
]
async_write false c =
    let buffer = pop_front c.send_buffer in write_front buffer (record c { send_buffer = buffer })

pub handle_write : Option ErrorCode → ℕ → Handler
handle_write error bytes c = do
  let failed : List Effect = elim error [
    | some code ↦ fire c (on_send_error code bytes)
    | none ↦ []
  ]
  (c', effects) ← async_write false c
  ok (c', failed ++ effects)

-- The `try` block of `send`: a message that cannot be encoded is not queued.
abbrev push_frame : Outcome (List ℕ) → Connection → Outcome Connection
push_frame (ok f) c = ok (record c { send_buffer = c.send_buffer ++ f ∷ [] })
push_frame (throws e) c = ok c
push_frame undefined c = undefined
push_frame out_of_fuel c = out_of_fuel

pub send : List ℕ → Handler
send msg c = push_frame (frame msg) c >>= async_write true

unfoldable pub stop : Handler
stop c = ok (c, fire c on_disconnected ++ post_close ∷ [])

-- The task that `stop` posts.
pub close_task : Handler
close_task c =
    ok (record c { is_open = false; slots = λ s. false }, shutdown_both ∷ close_socket ∷ [])

unfoldable pub disconnect : Handler
disconnect c = stop c
