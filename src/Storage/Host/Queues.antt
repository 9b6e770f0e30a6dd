-- ===== src/Storage/Host/Queues.antt =====
-- What a host does to its store and to the buffers of its connections.
use diginext.Base.{
  ℕ, ◌≡◌, refl, ap, ◌∙◌, subst, Bool-cases, inl, inr, List, [], ◌∷◌, ◌++◌, map, All, ok, ◌>>=◌,
  bind_step, if◌then◌else◌, ◌==◌, arith,
}
use diginext.Tcp.Message.Stream.{IsSendable}
use diginext.Tcp.Channel.{frames_of, frames_of-append}
use diginext.Tcp.Server
use diginext.Tcp.Server.{
  ServerEffect, calls, of_connection, async_accept, on_client_message, on_accepted, on_accept_error,
  on_client_disconnected, on_client_read_error, on_client_send_error,
}
use diginext.Storage.Json.{JsonLib}
use diginext.Storage.Server.{Store, Session}
use diginext.Storage.Server.Replies.{replies, next_store, interpret, text_of}
use diginext.Storage.Server.Branches.{answered, IsUtf8Store}
use diginext.Storage.Server.Requests.{handle_read_message-interpret}
use diginext.Storage.Host.{Host, finish, send_texts, on_message}
use diginext.Tcp.Server.Sending.{
  Sent-IsStarted, IsStarted, Grown, Grown-more, Grown-other, Sent, writes_at,
}
use diginext.Storage.Host.Sending.{send_texts-append_frames}

-- The messages among the server's signals, with their connections.
unfoldable pub messages_of : List ServerEffect → List (ℕ × List ℕ)
messages_of [] = []
messages_of (calls (on_client_message p msg) ∷ es) = (p, msg) ∷ messages_of es
messages_of (e ∷ es) = messages_of es

module _ (lib : JsonLib) where
  abbrev pub texts_for : List ℕ → Store → List (List ℕ)
  texts_for msg store = map (text_of lib) (replies (interpret lib msg) store)

  -- The store after some messages, and all the replies to them.
  unfoldable pub store_after : List (ℕ × List ℕ) → Store → Store
  store_after [] store = store
  store_after ((p, msg) ∷ ms) store = store_after ms (next_store (interpret lib msg) store)

  unfoldable pub all_replies : List (ℕ × List ℕ) → Store → List (List ℕ)
  all_replies [] store = []
  all_replies ((p, msg) ∷ ms) store =
      texts_for msg store ++ all_replies ms (next_store (interpret lib msg) store)

  -- The replies to the messages of one connection, among those of all.
  unfoldable pub replies_to : ℕ → List (ℕ × List ℕ) → Store → List (List ℕ)
  replies_to p [] store = []
  replies_to p ((q, msg) ∷ ms) store =
      (if q == p then texts_for msg store else [])
      ++ replies_to p ms (next_store (interpret lib msg) store)

  pub on_message_lem :
      (p : ℕ) (msg : List ℕ) (h : Host)
      → IsUtf8Store lib h.store
      → All IsSendable (texts_for msg h.store)
      → IsStarted (h.server.objects p)
      → (t : Server.Server) × (es : List ServerEffect) × (on_message lib p msg h
          ≡ ok (record { server = t; store = next_store (interpret lib msg) h.store }, es))
        × Sent p (frames_of (texts_for msg h.store)) h.server t es
  unfolding on_message finish answered
  on_message_lem p msg h utf8 sendable started =
      let s : Session = record { store = h.store; sent = [] } in
      let (t, es, run, sent) =
        send_texts-append_frames (texts_for msg h.store) p h.server sendable started in
      (
        t,
        es,
        ap (λ d. send_texts d.1.sent p h.server >>= finish d.0 d.1.store)
              (handle_read_message-interpret lib msg s utf8)
            ∙ bind_step _ run refl,
        sent,
      )

  pub still_started :
      (p : ℕ) (frames : List (List ℕ)) (s t : Server.Server) (es : List ServerEffect)
      (ms : List (ℕ × List ℕ))
      → Sent p frames s t es
      → All (λ m. IsStarted (s.objects m.0)) ms
      → All (λ m. IsStarted (t.objects m.0)) ms
  still_started p frames s t es [] sent h = tt
  still_started p frames s t es (m ∷ ms) sent h =
      (Sent-IsStarted p frames s t es m.0 sent h.0, still_started p frames s t es ms sent h.1)

  -- One message, at any connection.
  queued_one :
      (p q : ℕ) (msg : List ℕ) (store : Store) (s t : Server.Server) (es : List ServerEffect)
      → Sent q (frames_of (texts_for msg store)) s t es
      → Grown
          (frames_of (if q == p then texts_for msg store else []))
          (s.objects p)
          (t.objects p)
          (writes_at p es)
  queued_one p q msg store s t es sent = elim (Bool-cases (q == p)) [
    | inl e ↦ rw e (
        subst
          (λ j.
            Grown (frames_of (texts_for msg store)) (s.objects j) (t.objects j) (writes_at j es))
          (ground (arith, e)) sent.queued)
    | inr e ↦
        rw e (Grown-other p q (frames_of (texts_for msg store)) s t es sent (ground (arith, e)))
  ]

  pub queued_more :
      (p q : ℕ) (msg : List ℕ) (ms : List (ℕ × List ℕ)) (store : Store) (s t u : Server.Server)
      (es : List ServerEffect) (begun : List (List ℕ))
      → Sent q (frames_of (texts_for msg store)) s t es
      → Grown
          (frames_of (replies_to p ms (next_store (interpret lib msg) store)))
          (t.objects p)
          (u.objects p)
          begun
      → Grown
          (frames_of (replies_to p ((q, msg) ∷ ms) store))
          (s.objects p)
          (u.objects p)
          (writes_at p es ++ begun)
  unfolding replies_to
  queued_more p q msg ms store s t u es begun sent g = rw (frames_of-append own later) (
      Grown-more (frames_of own) (frames_of later) (s.objects p) (t.objects p) (u.objects p)
        (writes_at p es) begun (queued_one p q msg store s t es sent) g)
    where
      own : List (List ℕ)
      own = if q == p then texts_for msg store else []

      later : List (List ℕ)
      later = replies_to p ms (next_store (interpret lib msg) store)
