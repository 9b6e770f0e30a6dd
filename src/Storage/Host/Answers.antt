-- ===== src/Storage/Host/Answers.antt =====
-- What comes of the signals of a server that serves a store.
use diginext.Base.{
  All-split, ℕ, ◌≡◌, refl, ap, ◌∙◌, List, [], ◌∷◌, ◌++◌, All, ok, ◌>>=◌, bind_step, arith,
}
use diginext.Tcp.Message.Stream.{IsSendable}
use diginext.Tcp.Channel.{frames_of}
use diginext.Tcp.Server.{
  ServerEffect, calls, of_connection, async_accept, on_client_message, on_accepted, on_accept_error,
  on_client_disconnected, on_client_read_error, on_client_send_error,
}
use diginext.Storage.Json.{JsonLib}
use diginext.Storage.Server.Replies.{next_store, interpret}
use diginext.Storage.Server.Branches.{IsUtf8Store}
use diginext.Storage.Server.Runs.{next_store-IsUtf8Store}
use diginext.Storage.Host.{Host, handle_effects}
use diginext.Tcp.Server.Sending.{
  IsStarted, Grown, Grown-none, own_write, writes_at, writes_at-append,
}
use diginext.Storage.Host.Queues.{
  messages_of, texts_for, store_after, all_replies, replies_to, on_message_lem, still_started,
  queued_more,
}

append_empty : (xs ys : List (List ℕ)) → xs ++ ys ≡ [] → (xs ≡ []) × (ys ≡ [])
append_empty [] ys e = (refl, e)
append_empty (x ∷ xs) ys e = absurd (ground (arith, e))

module _ (lib : JsonLib) where
  -- What the host does with some signals of its server.
  abbrev pub Answered : List ServerEffect → Host → Type 0
  Answered es h =
      (g : Host) × (fs : List ServerEffect) × (handle_effects lib es h ≡ ok (g, fs))
      × (g.store ≡ store_after lib (messages_of es) h.store)
      × (g.server.connections ≡ h.server.connections)
      × (begun : ℕ → List (List ℕ)) × ((p : ℕ)
          → Grown (frames_of (replies_to lib p (messages_of es) h.store)) (h.server.objects p)
              (g.server.objects p) (begun p))
      × ((p : ℕ) → writes_at p es ≡ [] → writes_at p fs ≡ begun p)

  asked_after :
      (e : ServerEffect) (es fs : List ServerEffect) (p : ℕ) (begun : List (List ℕ))
      → writes_at p (e ∷ es) ≡ []
      → (writes_at p es ≡ [] → writes_at p fs ≡ begun)
      → writes_at p (e ∷ fs) ≡ begun
  unfolding writes_at
  asked_after e es fs p begun none_yet h =
      let (now, later) = append_empty (own_write p e) (writes_at p es) none_yet in
      ap (λ l. l ++ writes_at p fs) now ∙ h later

  after_log :
      (e : ServerEffect) (es : List ServerEffect) (h : Host)
      → messages_of (e ∷ es) ≡ messages_of es
      → (handle_effects lib (e ∷ es) h
          ≡ (handle_effects lib es h >>= λ (r : Host × List ServerEffect). ok (r.0, e ∷ r.1)))
      → Answered es h
      → Answered (e ∷ es) h
  after_log e es h same step (g, fs, run, store, listed, begun, queued, asked) = (
    g,
    e ∷ fs,
    step ∙ bind_step _ run refl,
    rw same store,
    listed,
    begun,
    λ p. rw same (queued p),
    λ p q. asked_after e es fs p (begun p) q (asked p),
  )

  -- After the host handles signals of its server, its store is the one after the messages among
  -- them, in order, its list of connections is the same, and the buffer of each connection has
  -- grown by the frames of the replies to that connection's own messages, with nothing else of it
  -- changed but send_start, where the store holds UTF-8, the replies fit a frame, and each
  -- connection that sent a message has been started.
  pub handle_effects-replies_to :
      (es : List ServerEffect) (h : Host)
      → IsUtf8Store lib h.store
      → All (λ m. IsStarted (h.server.objects m.0)) (messages_of es)
      → All IsSendable (all_replies lib (messages_of es) h.store)
      → Answered es h
  unfolding handle_effects messages_of store_after all_replies replies_to writes_at
  handle_effects-replies_to [] h utf8 started sendable =
      (h, [], refl, refl, refl, λ p. [], λ p. Grown-none (h.server.objects p), λ p q. q)
  handle_effects-replies_to (calls (on_client_message q msg) ∷ es) h utf8 started sendable =
      let (now, later) =
        All-split IsSendable (texts_for lib msg h.store)
          (all_replies lib (messages_of es) (next_store (interpret lib msg) h.store)) sendable in
      let (t, fs, run, sent) = on_message_lem lib q msg h utf8 now started.0 in
      let h₁ : Host = record { server = t; store = next_store (interpret lib msg) h.store } in
      let (g, gs, rest, store, listed, begun, queued, asked) =
        handle_effects-replies_to es h₁ (next_store-IsUtf8Store lib msg h.store utf8)
          (still_started lib q (frames_of (texts_for lib msg h.store)) h.server t fs
            (messages_of es) sent started.1)
          later in
      (
        g,
        fs ++ gs,
        bind_step _ run (bind_step _ rest refl),
        store,
        listed ∙ sent.listed,
        λ p. writes_at p fs ++ begun p,
        λ p.
            queued_more lib p q msg (messages_of es) h.store h.server t g.server fs (begun p) sent
              (queued p),
        λ p e. writes_at-append p fs gs ∙ ap (λ l. writes_at p fs ++ l) (asked p e),
      )
  handle_effects-replies_to (calls (on_accepted q) ∷ es) h utf8 started sendable =
      after_log (calls (on_accepted q)) es h refl refl
        (handle_effects-replies_to es h utf8 started sendable)
  handle_effects-replies_to (calls (on_accept_error q x) ∷ es) h utf8 started sendable =
      after_log (calls (on_accept_error q x)) es h refl refl
        (handle_effects-replies_to es h utf8 started sendable)
  handle_effects-replies_to (calls (on_client_disconnected q) ∷ es) h utf8 started sendable =
      after_log (calls (on_client_disconnected q)) es h refl refl
        (handle_effects-replies_to es h utf8 started sendable)
  handle_effects-replies_to (calls (on_client_read_error q x y) ∷ es) h utf8 started sendable =
      after_log (calls (on_client_read_error q x y)) es h refl refl
        (handle_effects-replies_to es h utf8 started sendable)
  handle_effects-replies_to (calls (on_client_send_error q x y) ∷ es) h utf8 started sendable =
      after_log (calls (on_client_send_error q x y)) es h refl refl
        (handle_effects-replies_to es h utf8 started sendable)
  handle_effects-replies_to (of_connection q x ∷ es) h utf8 started sendable =
      after_log (of_connection q x) es h refl refl
        (handle_effects-replies_to es h utf8 started sendable)
  handle_effects-replies_to (async_accept q ∷ es) h utf8 started sendable =
      after_log (async_accept q) es h refl refl
        (handle_effects-replies_to es h utf8 started sendable)
