-- ===== src/Tcp/Server/Life.antt =====
-- `start` and `stop` of `tcp_server`: what they do to the list of connections, beside the thread.
use diginext.Base.{
  ℕ, suc, ◌≤◌, ◌≡◌, refl, sym, ap, ◌∙◌, ◌>>=◌, ◌++◌, ◌∷◌, append_assoc, bind_ok, bind_assoc,
  bind_cong, bind_step, bind_inversion, ok_injective, Bool, true, List, [], length, Outcome, ok,
  if_true, if◌then◌else◌, none, false,
}
use diginext.Tcp.Worker
use diginext.Tcp.Worker.{Worker, Fate, returns, RunStep, Pace}
use diginext.Tcp.Worker.Ends.{IsConsistent, stop_lem}
use diginext.Tcp.Server.{Server, ServerEffect, Action, for_each, disconnect, disconnect_all}
use diginext.Tcp.Server.Disconnection.{IsWatched, disconnect_all-empties}

-- The object: its connections and its thread.
pub record TcpServer : Type 0 where
  pub server : Server
  pub worker : Worker

-- A call's outcome for the connections, and its fate for the thread.
abbrev pub Called : Type 0
Called = Outcome (Server × List ServerEffect) × Fate

-- The effects `es` come first.
abbrev pub behind :
    List ServerEffect → Server × List ServerEffect → Outcome (Server × List ServerEffect)
behind es r = ok (r.0, es ++ r.1)

unfoldable pub started : TcpServer → Bool
started s = s.worker.started_status

-- `disconnectAll` beside the thread: `before i` is what handlers of the thread do to the server
-- before the i-th call of `disconnect`, and `last` what they do between the last call and
-- `io_service->stop()`.
unfoldable pub disconnect_each : (ℕ → Action) → Action → ℕ → List ℕ → Action
disconnect_each before last i [] s = last s
disconnect_each before last i (p ∷ ps) s = do
  (s₁, first) ← before i s
  (s₂, next) ← disconnect p s₁
  (s₃, rest) ← disconnect_each before last (suc i) ps s₂
  ok (s₃, first ++ (next ++ rest))

-- `stop`. `disconnectAll` works on a copy of the list.
unfoldable pub stop : Pace → (ℕ → Action) → Action → TcpServer → Called
unfolding started disconnect_each
stop pace before last s =
    if started s
    then (disconnect_each before last 0 s.server.connections s.server, Worker.stop pace s.worker)
    else (ok (s.server, []), returns s.worker)

unfoldable pub start : Pace → (ℕ → Action) → Action → (ℕ → List RunStep) → TcpServer → Called
unfolding started
start pace before last steps s = (
  if started s then (stop pace before last s).0 else ok (s.server, []),
  Worker.start pace steps s.worker,
)

-- With no handler between the calls of `disconnect`, the loop is that of `disconnect_all`.
disconnect_each-for_each :
    (before : ℕ → Action) (last : Action) (i : ℕ) (ps : List ℕ) (s t : Server)
    (es : List ServerEffect)
    → ((j : ℕ) (r : Server) → before j r ≡ ok (r, []))
    → for_each disconnect ps s ≡ ok (t, es)
    → disconnect_each before last i ps s ≡ (last t >>= behind es)
unfolding disconnect_each for_each
disconnect_each-for_each before last i [] s t es quiet e =
    let same : ◌≡◌ {A = Server × List ServerEffect} (s, []) (t, es) = ok_injective _ _ e in
    ap last (ap (λ r. r.0) same)
    ∙ sym (bind_ok (last t))
    ∙ ap (λ l. last t >>= behind l) (ap (λ r. r.1) same)
disconnect_each-for_each before last i (p ∷ ps) s t es quiet e =
    let ((s₁, first), one, more) = bind_inversion (disconnect p s) _ e in
    let ((s₂, rest), others, end) = bind_inversion (for_each disconnect ps s₁) _ more in
    let same : ◌≡◌ {A = Server × List ServerEffect} (s₂, first ++ rest) (t, es) =
      ok_injective _ _ end in
    bind_step _ (quiet i s) (
      bind_step _ one (
        ap (λ m. m >>= behind first)
          (disconnect_each-for_each before last (suc i) ps s₁ s₂ rest quiet others)
        ∙ bind_assoc (last s₂) (behind rest) (behind first)
        ∙ bind_cong (last s₂) _ _ (λ r. ap (λ l. ok (r.0, l)) (sym (append_assoc first rest r.1)))
        ∙ ap (λ (r : Server × List ServerEffect). last r.0 >>= behind r.1) same))

-- stop of a started server, with its slot for onDisconnected on every connection, where the thread
-- runs no handler between the calls of disconnect, and takes three more steps at least while it is
-- joined. After the last disconnect the list of connections is empty, and stop leaves the list and
-- the objects as the handlers that still run before io_service->stop() make them, and the thread
-- not joinable with the status reset.
pub stop-empties :
    (pace : Pace) (before : ℕ → Action) (last : Action) (s : TcpServer)
    → IsWatched s.server
    → IsConsistent s.worker
    → s.worker.started_status ≡ true
    → 3 ≤ length pace.joining
    → ((j : ℕ) (r : Server) → before j r ≡ ok (r, []))
    → (t : Server) × (es : List ServerEffect) × (t.connections ≡ [])
      × (stop pace before last s ≡ (
        (last t >>= behind es),
        returns (record { started_status = false; server_thread = none; io_stopped = true }),
      ))
unfolding stop started disconnect_all
stop-empties pace before last s w c e fair quiet =
    let (t, es, run, empty) = disconnect_all-empties s.server w in
    (
      t,
      es,
      empty,
      if_true s.worker.started_status _ _ e
          ∙ rw
              (
                disconnect_each-for_each before last 0 s.server.connections s.server t es quiet run,
                stop_lem pace s.worker c e fair,
              )
              refl,
    )
