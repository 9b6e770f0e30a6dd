-- ===== src/Tcp/Server/Lifetime.antt =====
-- How long a connection of the server lives. The list of the server and the handlers of
-- `async_read_until` and `async_write` hold it by a shared pointer (`shared_from_this`); the task
-- that `stop` posts holds the bare `this`.
pub mod Dangles
pub mod Quiet
pub mod Held
pub mod Gone
pub mod Ends
pub mod Accepts
pub mod Safe
use diginext.Base.{
  ℕ, ◌≡◌, ◌≢◌, Bool, true, false, Option, none, some, List, [], ◌∷◌, ◌++◌, All, ok, ◌⊎◌, length,
  String,
}
use mathlib.Core.List.{Memᴰ}
use diginext.Tcp.Message.{Splitter}
use diginext.Tcp.Connection.{
  ErrorCode, eof, connection_reset, other, Effect, async_read_until, async_write_some, post_close,
  handle_read, handle_write, close_task,
}
use diginext.Tcp.Server
use diginext.Tcp.Server.{
  Server, ServerEffect, of_connection, async_accept, call, set_object, disconnect_by_uuid,
  handle_accept,
}

-- What boost::asio has been asked for and has not done.
pub data Operation : Type 0 where
  reading writing closing : Operation

pub record Io : Type 0 where
  pub server : Server
  pub pending : List (ℕ × Operation)

abbrev operation : ℕ → Effect → List (ℕ × Operation)
operation p async_read_until = (p, reading) ∷ []
operation p (async_write_some f) = (p, writing) ∷ []
operation p post_close = (p, closing) ∷ []
operation p _ = []

abbrev asks_for : ServerEffect → List (ℕ × Operation)
asks_for (of_connection p e) = operation p e
asks_for _ = []

unfoldable pub asked : List ServerEffect → List (ℕ × Operation)
asked [] = []
asked (e ∷ es) = asks_for e ++ asked es

-- Something holds the connection by a shared pointer.
abbrev pub Alive : ℕ → Io → Type 0
Alive p io =
    Memᴰ p io.server.connections ⊎ Memᴰ (p, reading) io.pending ⊎ Memᴰ (p, writing) io.pending

-- The task of `stop` is to run on an object that has been destroyed.
abbrev pub Dangling : ℕ → Io → Type 0
Dangling p io = Memᴰ (p, closing) io.pending × ¬ Alive p io

-- The server when bytes have been put into the `streambuf` of a connection.
abbrev pub with_bytes : ℕ → List ℕ → Server → Server
with_bytes p chunk s =
    set_object p (record (s.objects p) { message = (s.objects p).message ++ chunk }) s

pub data Occurrence : Type 0 where
  read_ended : ℕ → Option ErrorCode → List ℕ → Occurrence
  write_ended : ℕ → Option ErrorCode → ℕ → Occurrence
  closed : ℕ → Occurrence
  disconnect_called : List ℕ → Occurrence
  send_called : ℕ → List ℕ → Occurrence
  accept_ended : ℕ → Option ErrorCode → Occurrence

-- An operation of any connection ends, or a connection that is in the list is disconnected or given
-- a message, or a new connection is accepted. The task of `stop` runs on a live object only.
pub data IoStep (b : Splitter) (io : Io) : Occurrence → Io → Type 0 where
  read_ends :
      {s : Server} {es : List ServerEffect} (p : ℕ) (error : Option ErrorCode) (chunk : List ℕ)
      (before after : List (ℕ × Operation))
      → io.pending ≡ before ++ (p, reading) ∷ after
      → call p (handle_read b error (length chunk)) (with_bytes p chunk io.server) ≡ ok (s, es)
      → IoStep b io
          (read_ended p error chunk)
          (record { server = s; pending = (before ++ after) ++ asked es })
  write_ends :
      {s : Server} {es : List ServerEffect} (p : ℕ) (error : Option ErrorCode) (bytes : ℕ)
      (before after : List (ℕ × Operation))
      → io.pending ≡ before ++ (p, writing) ∷ after
      → call p (handle_write error bytes) io.server ≡ ok (s, es)
      → IoStep b io
          (write_ended p error bytes)
          (record { server = s; pending = (before ++ after) ++ asked es })
  closes :
      {s : Server} {es : List ServerEffect} (p : ℕ) (before after : List (ℕ × Operation))
      → io.pending ≡ before ++ (p, closing) ∷ after
      → Alive p io
      → call p close_task io.server ≡ ok (s, es)
      → IoStep b io (closed p) (record { server = s; pending = (before ++ after) ++ asked es })
  disconnects :
      {s : Server} {es : List ServerEffect} (uuid : List ℕ)
      → disconnect_by_uuid uuid io.server ≡ ok (s, es)
      → IoStep b io
          (disconnect_called uuid)
          (record { server = s; pending = io.pending ++ asked es })
  sends :
      {s : Server} {es : List ServerEffect} (p : ℕ) (msg : List ℕ)
      → Memᴰ p io.server.connections
      → Server.send p msg io.server ≡ ok (s, es)
      → IoStep b io (send_called p msg) (record { server = s; pending = io.pending ++ asked es })
  accepts :
      {s : Server} {es : List ServerEffect} (p : ℕ) (error : Option ErrorCode) (q : ℕ)
      (uuid : String)
      → ¬ Memᴰ (p, closing) io.pending
      → q ≢ p
      → ¬ Memᴰ q io.server.connections
      → handle_accept p error q uuid io.server ≡ ok (s, es)
      → IoStep b io (accept_ended p error) (record { server = s; pending = io.pending ++ asked es })

-- Reads fail only at the end of the stream or by a reset, and not while the task of `stop` is still
-- to run.
unfoldable pub IsCalm : Occurrence → Io → Type 0
IsCalm (read_ended p (some eof) chunk) io = ¬ Memᴰ (p, closing) io.pending
IsCalm (read_ended p (some connection_reset) chunk) io = ¬ Memᴰ (p, closing) io.pending
IsCalm (read_ended p (some (other n)) chunk) io = ⊥
IsCalm _ io = Unit

pub data CalmReach (b : Splitter) (io : Io) : Io → Type 0 where
  here : CalmReach b io io
  next :
      {j k : Io} {o : Occurrence}
      → CalmReach b io j
      → IsCalm o j
      → IoStep b j o k
      → CalmReach b io k
