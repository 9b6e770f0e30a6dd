-- ===== src/Tcp/Server/Lifetime/Quiet.antt =====
-- The handlers of a connection that do not take it out of the server's list.
use diginext.Base.{
  ℕ, ◌≡◌, refl, sym, ap, ◌∙◌, inl, inr, Option-cases, List, [], ◌∷◌, ◌++◌, append_assoc, All, ok,
  bind_step, arith,
}
use diginext.Tcp.Connection.{
  Connection, Handler, Event, on_connection_timed_out, on_connection_error, on_connection_success,
  on_disconnected, on_read_message, on_read_error, on_send_error, Effect, fires, async_read_until,
  async_write_some, post_close, shutdown_both, close_socket, async_connect,
}
use diginext.Tcp.Connection.Quiet.{IsQuiet}
use diginext.Tcp.Server.{
  Server, ServerEffect, ServerEvent, calls, on_client_message, on_client_read_error,
  on_client_send_error, pass_on, uuid_of, find_uuid, set_object, handle_event, handle_effect,
  handle_effects, call,
}
use mathlib.Core.List.{Memᴰ}
use mathlib.Core.List.Memᴰ
use diginext.Tcp.Server.Lifetime.{Operation, closing, asked, asks_for, operation}

-- What boost::asio is asked for.
unfoldable pub operations : ℕ → List Effect → List (ℕ × Operation)
operations p [] = []
operations p (e ∷ es) = operation p e ++ operations p es

asked-append : (es fs : List ServerEffect) → asked (es ++ fs) ≡ asked es ++ asked fs
unfolding asked
asked-append [] fs = refl
asked-append (e ∷ es) fs =
    ap (λ l. asks_for e ++ l) (asked-append es fs)
    ∙ sym (append_assoc (asks_for e) (asked es) (asked fs))

passes :
    (p : ℕ) (e : ℕ → ServerEvent) (s : Server)
    → (es : List ServerEffect) × (pass_on p e s ≡ ok (s, es)) × (asked es ≡ [])
unfolding asked
passes p e s = elim (Option-cases (find_uuid s.objects (uuid_of s p) s.connections)) [
  | inl n ↦ ([], rw (n, pass_on) refl, refl)
  | inr (q, f) ↦ (calls (e q) ∷ [], rw (f, pass_on) refl, refl)
]

-- An event other than a disconnection leaves the server as it is.
quiet_event :
    (p : ℕ) (e : Event) (s : Server)
    → IsQuiet (fires e)
    → (es : List ServerEffect) × (handle_event p e s ≡ ok (s, es)) × (asked es ≡ [])
unfolding IsQuiet handle_event asked
quiet_event p on_disconnected s h = absurd h
quiet_event p (on_read_message m) s h = passes p (λ q. on_client_message q m) s
quiet_event p (on_read_error code n) s h = passes p (λ q. on_client_read_error q code n) s
quiet_event p (on_send_error code n) s h = passes p (λ q. on_client_send_error q code n) s
quiet_event p (on_connection_timed_out x) s h = ([], refl, refl)
quiet_event p (on_connection_error x y) s h = ([], refl, refl)
quiet_event p (on_connection_success x) s h = ([], refl, refl)

-- What a handler does without a disconnection.
abbrev QuietRun : ℕ → List Effect → Server → Type 0
QuietRun p es s =
    (fs : List ServerEffect) × (handle_effects p es s ≡ ok (s, fs)) × (asked fs ≡ operations p es)

quiet_more :
    (p : ℕ) (e : Effect) (es : List Effect) (s : Server)
    → ((fs : List ServerEffect) × (handle_effect p e s ≡ ok (s, fs)) × (asked fs ≡ operation p e))
    → QuietRun p es s
    → QuietRun p (e ∷ es) s
unfolding handle_effects operations
quiet_more p e es s (fs, run, a) (gs, rest, c) = (
  fs ++ gs,
  bind_step _ run (bind_step _ rest refl),
  asked-append fs gs ∙ ap (λ l. l ++ asked gs) a ∙ ap (λ l. operation p e ++ l) c,
)

pub handle_effects-IsQuiet :
    (p : ℕ) (es : List Effect) (s : Server) → All IsQuiet es → QuietRun p es s
unfolding handle_effects operations asked IsQuiet
handle_effects-IsQuiet p [] s h = ([], refl, refl)
handle_effects-IsQuiet p (fires e ∷ es) s h =
    quiet_more p (fires e) es s (quiet_event p e s h.0) (handle_effects-IsQuiet p es s h.1)
handle_effects-IsQuiet p (async_read_until ∷ es) s h =
    quiet_more p async_read_until es s (_, refl, refl) (handle_effects-IsQuiet p es s h.1)
handle_effects-IsQuiet p (async_write_some f ∷ es) s h =
    quiet_more p (async_write_some f) es s (_, refl, refl) (handle_effects-IsQuiet p es s h.1)
handle_effects-IsQuiet p (post_close ∷ es) s h = absurd h.0
handle_effects-IsQuiet p (async_connect x ∷ es) s h =
    quiet_more p (async_connect x) es s (_, refl, refl) (handle_effects-IsQuiet p es s h.1)
handle_effects-IsQuiet p (shutdown_both ∷ es) s h =
    quiet_more p shutdown_both es s (_, refl, refl) (handle_effects-IsQuiet p es s h.1)
handle_effects-IsQuiet p (close_socket ∷ es) s h =
    quiet_more p close_socket es s (_, refl, refl) (handle_effects-IsQuiet p es s h.1)

-- A handler that has returned without a disconnection has changed one object.
pub call-IsQuiet :
    (p : ℕ) (h : Handler) (s t : Server) (fs : List ServerEffect) (d : Connection)
    (es : List Effect)
    → h (s.objects p) ≡ ok (d, es)
    → All IsQuiet es
    → call p h s ≡ ok (t, fs)
    → (t ≡ set_object p d s) × (asked fs ≡ operations p es)
unfolding call
call-IsQuiet p h s t fs d es run quiet result =
    let (gs, effects, a) = handle_effects-IsQuiet p es (set_object p d s) quiet in
    let same : ◌≡◌ {A = Server × List ServerEffect} (t, fs) (set_object p d s, gs) =
      ground (arith, sym result ∙ bind_step _ run effects) in
    (ap (λ r. r.0) same, ap (λ r. asked r.1) same ∙ a)

pub not_closing :
    (k p : ℕ) (es : List Effect) → All IsQuiet es → ¬ Memᴰ (k, closing) (operations p es)
unfolding operations IsQuiet
not_closing k p [] h m = Memᴰ.not-nil m
not_closing k p (fires e ∷ es) h m = not_closing k p es h.1 m
not_closing k p (async_read_until ∷ es) h m = elim (Memᴰ.cases_cons m) [
  | inl e ↦ absurd (ground (arith, ap (λ o. o.1) e))
  | inr l ↦ not_closing k p es h.1 l
]
not_closing k p (async_write_some f ∷ es) h m = elim (Memᴰ.cases_cons m) [
  | inl e ↦ absurd (ground (arith, ap (λ o. o.1) e))
  | inr l ↦ not_closing k p es h.1 l
]
not_closing k p (post_close ∷ es) h m = absurd h.0
not_closing k p (async_connect x ∷ es) h m = not_closing k p es h.1 m
not_closing k p (shutdown_both ∷ es) h m = not_closing k p es h.1 m
not_closing k p (close_socket ∷ es) h m = not_closing k p es h.1 m

pub operations-append :
    (p : ℕ) (es fs : List Effect) → operations p (es ++ fs) ≡ operations p es ++ operations p fs
unfolding operations
operations-append p [] fs = refl
operations-append p (e ∷ es) fs =
    ap (λ l. operation p e ++ l) (operations-append p es fs)
    ∙ sym (append_assoc (operation p e) (operations p es) (operations p fs))
