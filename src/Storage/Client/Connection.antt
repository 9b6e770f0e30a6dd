-- ===== src/Storage/Client/Connection.antt =====
-- `Connect`, `send` and `Disconnect` of a client, and what they ask of its connection.
use diginext.Base.{
  ℕ, ◌≡◌, refl, ap, ap₂, ◌∙◌, bind_assoc, bind_cong, true, false, some, List, [], ◌∷◌, ◌++◌, String,
  Outcome, ok, undefined, ◌>>=◌, bind_step, if_true, if_false, if◌then◌else◌,
}
use diginext.Tcp.Message.{frame}
use diginext.Tcp.Connection.{disconnected, Endpoint, async_connect}
use diginext.Tcp.Worker
use diginext.Tcp.Worker.{RunStep, Pace, meanwhile}
use diginext.Tcp.Client
use diginext.Tcp.Client.{Client, ClientEffect, of_connection}
use diginext.Tcp.Client.Life
use diginext.Tcp.Client.Current.{
  disconnection, replaced, connect-replaced, disconnect-current, send-connecting,
}
use diginext.Storage.Client.{StorageClient, started, connect, disconnect, send}

-- Disconnect of a started client, whose connection has a slot for onDisconnected. If, between its
-- two calls, the handlers that the thread runs leave the client and its connection as they are and
-- the status stays set, then Disconnect fires that signal twice and posts the task that closes the
-- socket twice, and then stops the thread.
pub disconnect_twice :
    (pace : Pace) (meantime : List RunStep) (handlers : Client.Action) (gs : List ClientEffect)
    (p : ℕ) (c : StorageClient)
    → started c ≡ true
    → (meanwhile meantime c.tcp_client.worker).started_status ≡ true
    → handlers c.tcp_client.client ≡ ok (c.tcp_client.client, gs)
    → c.tcp_client.client.tcp_conn ≡ some p
    → (c.tcp_client.client.objects p).slots disconnected ≡ true
    → disconnect pace meantime handlers c ≡ (
      ok (c.tcp_client.client, disconnection p ++ (gs ++ disconnection p)),
      Worker.stop pace (meanwhile meantime c.tcp_client.worker),
    )
unfolding disconnect Life.stop started Life.started
disconnect_twice pace meantime handlers gs p c s later quiet e w =
    if_true c.tcp_client.worker.started_status _ _ s
    ∙ ap₂ (λ m f. (m, f))
        (bind_step _ once (
          bind_step _ quiet
            (bind_step _ (ap (λ q. q.0) (stopped c.tcp_client.client) ∙ once) refl)))
        (ap (λ q. q.1) (stopped c.tcp_client.client))
  where
    once : Client.disconnect c.tcp_client.client ≡ ok (c.tcp_client.client, disconnection p)
    once = disconnect-current p c.tcp_client.client e w

    stopped :
        (d : Client)
        → Life.stop pace (record { client = d; worker = meanwhile meantime c.tcp_client.worker })
          ≡ (Client.disconnect d, Worker.stop pace (meanwhile meantime c.tcp_client.worker))
    stopped d = if_true (meanwhile meantime c.tcp_client.worker).started_status _ _ later

-- A message sent right after Connect of a client that was not started, before the connection is
-- established, is undefined behaviour.
pub send-connect_undefined :
    (p : ℕ) (uuid : String) (pace : Pace) (steps : ℕ → List RunStep) (msg f : List ℕ)
    (c : StorageClient)
    → started c ≡ false
    → frame msg ≡ ok f
    → ((connect p uuid pace steps c).0 >>= λ r. send msg r.0) ≡ undefined
unfolding connect Life.start send started Life.started
send-connect_undefined p uuid pace steps msg f c s e =
    ap (λ (q : Life.Called). q.0 >>= λ r. send msg r.0)
      (if_false c.tcp_client.worker.started_status _ _ s)
    ∙ bind_assoc connecting _ _
    ∙ bind_cong connecting _ _ (λ x. at_once x.0 x.1)
    ∙ send-connecting p uuid (record { address = c.host; port = c.port }) c.tcp_client.client msg f
        e
  where
    connecting : Outcome (Client × List ClientEffect)
    connecting =
        Client.connect p uuid (record { address = c.host; port = c.port }) c.tcp_client.client

    begun : Client → Outcome (Client × List ClientEffect)
    begun d =
        if c.tcp_client.worker.started_status
        then (Life.stop pace (record (c.tcp_client) { client = d })).0
        else ok (d, [])

    behind : List ClientEffect → Client × List ClientEffect → Outcome (Client × List ClientEffect)
    behind es y = ok (y.0, es ++ y.1)

    at_once :
        (d : Client) (es : List ClientEffect)
        → ((begun d >>= behind es) >>= λ r. send msg r.0) ≡ send msg d
    at_once d es =
        ap (λ (q : Outcome (Client × List ClientEffect)). (q >>= behind es) >>= λ r. send msg r.0)
          (if_false c.tcp_client.worker.started_status _ (ok (d, [])) s)

-- What Connect of a client that is not started does to its thread.
pub connect-start :
    (p : ℕ) (uuid : String) (pace : Pace) (steps : ℕ → List RunStep) (c : StorageClient)
    → c.tcp_client.worker.started_status ≡ false
    → (connect p uuid pace steps c).1 ≡ Worker.start pace steps c.tcp_client.worker
unfolding connect Life.start started Life.started
connect-start p uuid pace steps c s =
    ap (λ (q : Life.Called). q.1) (if_false c.tcp_client.worker.started_status _ _ s)

-- Connect of a client that is not started returns.
pub connect-returns :
    (p : ℕ) (uuid : String) (pace : Pace) (steps : ℕ → List RunStep) (c : StorageClient)
    → c.tcp_client.worker.started_status ≡ false
    → (d : Client) × (es : List ClientEffect) × ((connect p uuid pace steps c).0 ≡ ok (d, es))
unfolding connect Life.start started Life.started
connect-returns p uuid pace steps c s =
    let endpoint : Endpoint = record { address = c.host; port = c.port } in
    (
      replaced p uuid c.tcp_client.client,
      (of_connection p (async_connect endpoint) ∷ []) ++ [],
      ap (λ (q : Life.Called). q.0) (if_false c.tcp_client.worker.started_status _ _ s)
          ∙ bind_step _ (connect-replaced p uuid endpoint c.tcp_client.client)
              (bind_step _ (if_false c.tcp_client.worker.started_status _ _ s) refl),
    )
