-- ===== src/System.antt =====
-- The whole system: a host, its clients' connections, and the bytes between them. Every step is one
-- handler of the code, on either side, in any interleaving.
pub mod Peers
pub mod Pair
pub mod Invariant
pub mod Order
pub mod Progress
pub mod Drain
pub mod Rest
pub mod Answer
mod Tests
use diginext.Base.{
  ℕ, suc, ◌+◌, ◌<◌, ◌^◌, ◌≡◌, none, List, [], ◌∷◌, ◌++◌, flatten, length, All, ok, if◌then◌else◌,
  ◌==◌,
}
use diginext.Tcp.Message.{Splitter, read_bytes}
use diginext.Tcp.Connection.{Connection, Effect, handle_read, handle_write, send}
use diginext.Tcp.Connection.Writer.{writes_of}
use diginext.Tcp.Connection.Reader.{messages_of}
use diginext.Tcp.Channel.{IsText}
use diginext.Tcp.Server
use diginext.Tcp.Server.{ServerEffect, call}
use diginext.Tcp.Server.Sending.{writes_at}
use diginext.Storage.Json.{JsonLib}
use diginext.Storage.Host.{Host}
use diginext.Storage.Host.Queues.{all_replies}
use diginext.Storage.Host.Arrival.{arrive, from}

-- `up` and `down` are the bytes that have been given to boost::asio and not been read at the other
-- end. `client_writes` and `server_writes` count the writes that have not ended. `sent`, `received`
-- and `log` record the messages given to `send` of a client, those that its slot has been given,
-- and those that the host has handled.
pub record Net : Type 0 where
  pub host : Host
  pub client : ℕ → Connection
  pub up : ℕ → List ℕ
  pub down : ℕ → List ℕ
  pub client_writes : ℕ → ℕ
  pub server_writes : ℕ → ℕ
  pub sent : ℕ → List (List ℕ)
  pub received : ℕ → List (List ℕ)
  pub log : List (ℕ × List ℕ)

-- What happens next, at the client `p` or the host's connection to it: `send` is called, bytes are
-- read, or a write ends, with the number of bytes that boost::asio reports.
pub data Event : Type 0 where
  given : ℕ → List ℕ → Event
  client_wrote host_wrote : ℕ → ℕ → Event
  host_got client_got : ℕ → List ℕ → Event

-- One member of a family changed.
abbrev pub update {ℓ} : {A : Type ℓ} → (ℕ → A) → ℕ → A → ℕ → A
update f p a k = if k == p then a else f k

module _ (b : Splitter) (lib : JsonLib) where
  -- A client is given a message of two bytes or more and fewer than 2 ^ 60, a write of a client
  -- ends, bytes arrive at the host, a write of the host ends, and bytes arrive at a client. Writes
  -- end without an error, no connection ends, and the replies to what arrives at the host are texts
  -- of at least two bytes that fit a frame.
  pub data Step (IsPeer : ℕ → Type 0) (n : Net) : Event → Net → Type 0 where
    sends :
        {c : Connection} {es : List Effect} (p : ℕ) (msg : List ℕ)
        → IsPeer p
        → IsText msg
        → send msg (n.client p) ≡ ok (c, es)
        → Step IsPeer n (given p msg) (record n {
          client = update n.client p c;
          up = update n.up p (n.up p ++ flatten (writes_of es));
          client_writes = update n.client_writes p (n.client_writes p + length (writes_of es));
          sent = update n.sent p (n.sent p ++ msg ∷ []);
        })
    client_ends :
        {c : Connection} {es : List Effect} (p bytes w : ℕ)
        → IsPeer p
        → n.client_writes p ≡ suc w
        → handle_write none bytes (n.client p) ≡ ok (c, es)
        → Step IsPeer n (client_wrote p bytes) (record n {
          client = update n.client p c;
          up = update n.up p (n.up p ++ flatten (writes_of es));
          client_writes = update n.client_writes p (w + length (writes_of es));
        })
    host_reads :
        {h : Host} {fs : List ServerEffect} (p : ℕ) (chunk rest part : List ℕ) (ms : List (List ℕ))
        → IsPeer p
        → n.up p ≡ chunk ++ rest
        → length chunk < 2 ^ 61
        → read_bytes b (n.host.server.objects p).part_message chunk ≡ ok (ms, part)
        → All IsText (all_replies lib (from p ms) n.host.store)
        → arrive b lib p chunk n.host ≡ ok (h, fs)
        → Step IsPeer n (host_got p chunk) (record n {
          host = h;
          up = update n.up p rest;
          down = λ k. n.down k ++ flatten (writes_at k fs);
          server_writes = λ k. n.server_writes k + length (writes_at k fs);
          log = n.log ++ from p ms;
        })
    host_ends :
        {s : Server.Server} {fs : List ServerEffect} (p bytes w : ℕ)
        → IsPeer p
        → n.server_writes p ≡ suc w
        → call p (handle_write none bytes) n.host.server ≡ ok (s, fs)
        → Step IsPeer n (host_wrote p bytes) (record n {
          host = record (n.host) { server = s };
          down = update n.down p (n.down p ++ flatten (writes_at p fs));
          server_writes = update n.server_writes p (w + length (writes_at p fs));
        })
    client_reads :
        {c : Connection} {es : List Effect} (p : ℕ) (chunk rest : List ℕ)
        → IsPeer p
        → n.down p ≡ chunk ++ rest
        → length chunk < 2 ^ 61
        → handle_read b none
            (length chunk)
            (record (n.client p) { message = (n.client p).message ++ chunk })
          ≡ ok (c, es)
        → Step IsPeer n (client_got p chunk) (record n {
          client = update n.client p c;
          down = update n.down p rest;
          received = update n.received p (n.received p ++ messages_of es);
        })

  pub data Reach (IsPeer : ℕ → Type 0) (n : Net) : Net → Type 0 where
    here : Reach IsPeer n n
    next : {m l : Net} {e : Event} → Reach IsPeer n m → Step IsPeer m e l → Reach IsPeer n l
