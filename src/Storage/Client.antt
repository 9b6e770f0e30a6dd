-- ===== src/Storage/Client.antt =====
-- The class `StorageClient` of core/src/Storage/StorageClient.cpp. The handlers that only log are
-- left out.
pub mod Answer
pub mod Connection
mod Tests
use diginext.Base.{
  ℕ, Bool, true, false, List, [], ◌∷◌, ◌++◌, String, Outcome, ok, ◌>>=◌, if◌then◌else◌,
}
use diginext.Tcp.Connection.{Endpoint, on_read_message}
use diginext.Tcp.Worker.{RunStep, Pace, returns, meanwhile}
use diginext.Tcp.Client
use diginext.Tcp.Client.{Client, ClientEffect, calls}
use diginext.Tcp.Client.Life
use diginext.Tcp.Client.Life.{TcpClient, Called}

pub record StorageClient : Type 0 where
  pub tcp_client : TcpClient
  pub host : String
  pub port : ℕ
  pub answer : List ℕ

-- `Started`.
pub started : StorageClient → Bool
unfolding Life.started
started c = Life.started c.tcp_client

-- `Connect`, with the new connection's address and uuid. It does not wait for the connection.
pub connect : ℕ → String → Pace → (ℕ → List RunStep) → StorageClient → Called
unfolding started
connect p uuid pace steps c =
    if started c then (ok (c.tcp_client.client, []), returns c.tcp_client.worker) else (
      do
        let endpoint : Endpoint = record { address = c.host; port = c.port }
        (c₁, es) ← Client.connect p uuid endpoint c.tcp_client.client
        (c₂, fs) ← (Life.start pace steps (record (c.tcp_client) { client = c₁ })).0
        ok (c₂, es ++ fs),
      (Life.start pace steps c.tcp_client).1,
    )

-- `Disconnect`: it disconnects the connection, and stops the client, which disconnects it again if
-- it is still started. `meantime` is how far the thread comes in between, and `handlers` what its
-- handlers do to the connection then.
pub disconnect : Pace → List RunStep → Client.Action → StorageClient → Called
unfolding started
disconnect pace meantime handlers c =
    if started c
    then (
      do
        (c₁, es) ← Client.disconnect c.tcp_client.client
        (c₂, gs) ← handlers c₁
        (c₃, fs) ←
            (Life.stop pace
              (record { client = c₂; worker = meanwhile meantime c.tcp_client.worker })).0
        ok (c₃, es ++ (gs ++ fs)),
      (Life.stop pace
          (record (c.tcp_client) { worker = meanwhile meantime c.tcp_client.worker })).1,
    )
    else (ok (c.tcp_client.client, []), returns c.tcp_client.worker)

-- `handle_read_message`.
pub handle_read_message : List ℕ → StorageClient → StorageClient
handle_read_message msg c = record c { answer = msg }

-- The slots of the client's signals; all but one log only.
pub handle_effects : List ClientEffect → StorageClient → StorageClient
unfolding handle_read_message
handle_effects [] c = c
handle_effects (calls (on_read_message msg) ∷ es) c = handle_effects es (handle_read_message msg c)
handle_effects (e ∷ es) c = handle_effects es c

-- `send`.
unfoldable pub send : List ℕ → Client → Outcome (Client × List ClientEffect)
send msg c = Client.send msg c
