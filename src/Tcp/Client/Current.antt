-- ===== src/Tcp/Client/Current.antt =====
-- Which signals reach the client's own ones.
use diginext.Base.{
  ℕ, ◌≡◌, ◌≢◌, refl, sym, ap, ◌∙◌, true, false, Option, none, Bool-cases, inl, inr, some, List, [],
  ◌∷◌, ◌++◌, String, codes, if◌then◌else◌, ne→eqb, eqb_refl, eqb-true, Outcome, ok, undefined,
  bind_undefined, ◌>>=◌, bind_step, fun_ext, ◌==◌, arith,
}
use diginext.Tcp.Connection.{
  Endpoint, Event, Effect, fires, fire, Connection, create, async_connect, post_close,
  on_disconnected, disconnected,
}
use diginext.Tcp.Connection
use diginext.Tcp.Connection.Writer.{send_unstarted}
use diginext.Tcp.Message.{frame}
use diginext.Tcp.Client
use diginext.Tcp.Client.{
  Client, ClientEffect, calls, of_connection, is_current, handle_event, handle_effects, call,
  connect, set_object,
}

-- All of a connection's effects, and those that are no signals.
unfoldable pub passed : ℕ → List Effect → List ClientEffect
passed p [] = []
passed p (fires e ∷ es) = calls e ∷ passed p es
passed p (e ∷ es) = of_connection p e ∷ passed p es

unfoldable pub silenced : ℕ → List Effect → List ClientEffect
silenced p [] = []
silenced p (fires e ∷ es) = silenced p es
silenced p (e ∷ es) = of_connection p e ∷ silenced p es

handle_effects-passed :
    (p : ℕ) (c : Client) (es : List Effect)
    → is_current p c ≡ true
    → handle_effects p es c ≡ passed p es
unfolding handle_effects handle_event passed
handle_effects-passed p c [] h = refl
handle_effects-passed p c (fires e ∷ es) h = rw (h, handle_effects-passed p c es h) refl
handle_effects-passed p c (e ∷ es) h = rw (handle_effects-passed p c es h) refl

handle_effects-silenced :
    (p : ℕ) (c : Client) (es : List Effect)
    → is_current p c ≡ false
    → handle_effects p es c ≡ silenced p es
unfolding handle_effects handle_event silenced
handle_effects-silenced p c [] h = refl
handle_effects-silenced p c (fires e ∷ es) h = rw (h, handle_effects-silenced p c es h) refl
handle_effects-silenced p c (e ∷ es) h = rw (handle_effects-silenced p c es h) refl

same_pointer_true : (p : ℕ) → (p == p) ≡ true
same_pointer_true p = ground arith

-- The new connection, with the client's slots, once its `connect` has run.
unfoldable pub connecting : String → Connection
connecting uuid = record (create uuid) { slots = λ s. true; is_open = true }

-- The client that has replaced its connection.
unfoldable pub replaced : ℕ → String → Client → Client
replaced p uuid c = record {
  objects = λ k.
      if k == p
      then connecting uuid
      else if k == p
      then record (create uuid) { slots = λ s. true }
      else c.objects k;
  tcp_conn = some p;
}

pub connect-replaced :
    (p : ℕ) (uuid : String) (endpoint : Endpoint) (c : Client)
    → connect p uuid endpoint c
      ≡ ok (replaced p uuid c, of_connection p (async_connect endpoint) ∷ [])
unfolding connect call Connection.connect replaced connecting handle_effects create
connect-replaced p uuid endpoint c = rw (same_pointer_true p) refl

is_current-replaced : (p : ℕ) (uuid : String) (c : Client) → is_current p (replaced p uuid c) ≡ true
unfolding is_current replaced connecting
is_current-replaced p uuid c = eqb_refl _

is_current-other :
    (p q : ℕ) (uuid : String) (c : Client)
    → q ≢ p
    → codes (c.objects q).uuid ≢ codes uuid
    → is_current q (replaced p uuid c) ≡ false
unfolding is_current replaced connecting create
is_current-other p q uuid c n m = elim (Bool-cases (is_current q (replaced p uuid c))) [
  | inr h ↦ h
  | inl h ↦ absurd (m (sym (ap codes other) ∙ sym (eqb-true _ _ h) ∙ ap codes own))
]
  where
    own : ((replaced p uuid c).objects p).uuid ≡ uuid
    own = rw (same_pointer_true p) refl

    other : ((replaced p uuid c).objects q).uuid ≡ (c.objects q).uuid
    other = rw (ne→eqb q p n) refl

-- Every signal of the new connection has a slot of the client.
fire-replaced :
    (p : ℕ) (uuid : String) (e : Event) (c : Client)
    → fire ((replaced p uuid c).objects p) e ≡ fires e ∷ []
unfolding replaced connecting
fire-replaced p uuid e c = rw (same_pointer_true p) refl

-- connect asks for the connection. From then on each of the seven signals, when the new connection
-- fires it, has the client's slot and reaches the client's own signal, among whatever else the
-- connection does in order, and no signal of another connection object with another uuid does.
pub connect-passed :
    (p q : ℕ) (uuid : String) (endpoint : Endpoint) (c : Client) (e : Event) (es fs : List Effect)
    → q ≢ p
    → codes (c.objects q).uuid ≢ codes uuid
    → (d : Client) × (connect p uuid endpoint c
        ≡ ok (d, of_connection p (async_connect endpoint) ∷ []))
      × (handle_effects p (fire (d.objects p) e ++ es) d ≡ calls e ∷ passed p es)
      × (handle_effects q fs d ≡ silenced q fs)
connect-passed p q uuid endpoint c e es fs n m = (
  replaced p uuid c,
  connect-replaced p uuid endpoint c,
  ap (λ l. handle_effects p (l ++ es) (replaced p uuid c)) (fire-replaced p uuid e c)
      ∙ handle_effects-passed p (replaced p uuid c) (fires e ∷ es) (is_current-replaced p uuid c)
      ∙ unfold passed in refl,
  handle_effects-silenced q (replaced p uuid c) fs (is_current-other p q uuid c n m),
)

set_object_self : (p : ℕ) (c : Client) → set_object p (c.objects p) c ≡ c
set_object_self p c =
    ap (λ o. record c { objects = o })
      (fun_ext (λ k. elim (Bool-cases (k == p)) [
        | inl h ↦ rw h (ap c.objects (sym (same k h)))
        | inr h ↦ rw h refl
      ]))
  where
    same : (k : ℕ) → (k == p) ≡ true → k ≡ p
    same k h = ground (arith, h)

watched_stop :
    (o : Connection)
    → o.slots disconnected ≡ true
    → Connection.disconnect o ≡ ok (o, fires on_disconnected ∷ post_close ∷ [])
unfolding Connection.disconnect Connection.stop
watched_stop o w = rw w refl

-- What one `disconnect` of the current connection does.
abbrev pub disconnection : ℕ → List ClientEffect
disconnection p = calls on_disconnected ∷ of_connection p post_close ∷ []

pub disconnect-current :
    (p : ℕ) (c : Client)
    → c.tcp_conn ≡ some p
    → (c.objects p).slots disconnected ≡ true
    → Client.disconnect c ≡ ok (c, disconnection p)
unfolding Client.disconnect call passed
disconnect-current p c e w =
    through c.tcp_conn e
    ∙ bind_step _ (watched_stop (c.objects p) w) refl
    ∙ ap (λ d. ok (d, handle_effects p (fires on_disconnected ∷ post_close ∷ []) d))
        (set_object_self p c)
    ∙ ap (λ es. ok (c, es))
        (handle_effects-passed p c (fires on_disconnected ∷ post_close ∷ []) current)
  where
    through :
        (o : Option ℕ)
        → o ≡ some p
        → ◌≡◌ {A = Outcome (Client × List ClientEffect)}
            (elim o [ none ↦ ok (c, []) | some q ↦ call q Connection.disconnect c ])
            (call p Connection.disconnect c)
    through o e = rw e refl

    current : is_current p c ≡ true
    current = unfold is_current in rw e (eqb_refl (codes (c.objects p).uuid))

-- A message to a connection that has been created and not started reads `sendStart` without a
-- value.
pub send-connecting :
    (p : ℕ) (uuid : String) (endpoint : Endpoint) (c : Client) (msg f : List ℕ)
    → frame msg ≡ ok f
    → (connect p uuid endpoint c >>= λ r. Client.send msg r.0) ≡ undefined
unfolding Client.send call replaced connecting create
send-connecting p uuid endpoint c msg f e = bind_step _ (connect-replaced p uuid endpoint c) (
    bind_undefined _
      (send_unstarted msg f ((replaced p uuid c).objects p) e (rw (same_pointer_true p) refl)))
