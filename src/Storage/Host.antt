-- ===== src/Storage/Host.antt =====
-- `StorageServer` on its `tcp_server`: the slots that core/src/Storage/StorageServer.cpp connects,
-- and the replies that go to the connection of the message.
pub mod Sending
pub mod Queues
pub mod Answers
pub mod Logs
pub mod Arrival
pub mod Served
pub mod Requests
pub mod Shared
pub mod Life
mod Tests
use diginext.Base.{ℕ, List, [], ◌∷◌, ◌++◌, Outcome, ok, throws, ◌>>=◌}
use diginext.Tcp.Server
use diginext.Tcp.Server.{ServerEvent, on_client_message, ServerEffect, calls, for_each, Action}
use diginext.Storage.Json.{JsonLib}
use diginext.Storage.Server.{Store, Session, Result, returns, raises, handle_read_message}

pub record Host : Type 0 where
  pub server : Server.Server
  pub store : Store

-- What comes of a handler that has returned or thrown. An exception leaves `handle_read` and ends
-- the loop of the `io_service`.
unfoldable pub finish :
    Result (Unit {0})
    → Store
    → Server.Server × List ServerEffect
    → Outcome (Host × List ServerEffect)
finish (returns u) store r = ok (record { server = r.0; store = store }, r.1)
finish raises store r = throws "dump"

-- The texts given to `send` of one connection, in order.
unfoldable pub send_texts : List (List ℕ) → ℕ → Action
send_texts [] p s = ok (s, [])
send_texts (text ∷ texts) p s = do
  (s₁, first) ← Server.send p text s
  (s₂, rest) ← send_texts texts p s₁
  ok (s₂, first ++ rest)

module _ (lib : JsonLib) where
  -- The slot of `onReadMessage`: the handler gives its replies to `send` of the connection.
  unfoldable pub on_message : ℕ → List ℕ → Host → Outcome (Host × List ServerEffect)
  unfolding finish send_texts
  on_message p msg h = do
    let done : Result (Unit {0}) × Session =
        handle_read_message lib msg (record { store = h.store; sent = [] })
    r ← send_texts done.1.sent p h.server
    finish done.0 done.1.store r

  -- The signals of the server, in order; the other slots log only.
  unfoldable pub handle_effects : List ServerEffect → Host → Outcome (Host × List ServerEffect)
  unfolding on_message
  handle_effects [] h = ok (h, [])
  handle_effects (calls (on_client_message p msg) ∷ es) h = do
    (h₁, first) ← on_message p msg h
    (h₂, rest) ← handle_effects es h₁
    ok (h₂, first ++ rest)
  handle_effects (e ∷ es) h = do (h₁, rest) ← handle_effects es h; ok (h₁, e ∷ rest)
