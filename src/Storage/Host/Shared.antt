-- ===== src/Storage/Host/Shared.antt =====
-- The clients of a host share its map: what one writes, the others read.
use diginext.Base.{
  ℕ, ◌≡◌, refl, ap, ◌∙◌, true, none, List, [], ◌∷◌, ◌++◌, append-nil, map, All, ok, if◌then◌else◌,
  ◌==◌, arith,
}
use diginext.Tcp.Message.{Splitter}
use diginext.Tcp.Message.Stream.{IsSendable}
use diginext.Tcp.Channel.{frames_of}
use diginext.Tcp.Server.{ServerEffect}
use diginext.Storage.Json.{JsonLib}
use diginext.Storage.Server.{Store}
use diginext.Storage.Server.Replies.{read_of, next_store, replies, interpret, text_of}
use diginext.Storage.Server.Runs.{
  written_by, newer, read_reply, written_by-next_store, newer_assoc, newer-none, last_write,
  replies-read_of,
}
use diginext.Storage.Host.{Host}
use diginext.Storage.Host.Queues.{texts_for, store_after, all_replies, replies_to}
use diginext.Storage.Host.Logs.{replies_to-append}
use diginext.Tcp.Server.Readiness.{Ready}
use diginext.Storage.Host.Arrival.{arrive_all}
use diginext.Storage.Host.Served.{Arrivals, arrive_all-replies_to}

-- The messages of all connections.
abbrev pub texts : List (ℕ × List ℕ) → List (List ℕ)
texts log = map (λ m. m.1) log

module _ (lib : JsonLib) where
  store_after-last_write :
      (key : List ℕ) (log : List (ℕ × List ℕ)) (store : Store)
      → store_after lib log store key ≡ newer (last_write lib key (texts log)) (store key)
  unfolding store_after last_write newer
  store_after-last_write key [] store = refl
  store_after-last_write key ((p, msg) ∷ log) store =
      store_after-last_write key log (next_store (interpret lib msg) store)
      ∙ ap (newer (last_write lib key (texts log)))
          (written_by-next_store key (interpret lib msg) store)
      ∙ newer_assoc (last_write lib key (texts log)) (written_by key (interpret lib msg))
          (store key)

  read_last :
      (p : ℕ) (msg key : List ℕ) (store : Store)
      → interpret lib msg ≡ read_of key
      → replies_to lib p ((p, msg) ∷ []) store ≡ text_of lib (read_reply (store key)) ∷ []
  unfolding replies_to
  read_last p msg key store e =
      ap (λ x. (if x then texts_for lib msg store else []) ++ []) same
      ∙ append-nil (texts_for lib msg store)
      ∙ ap (λ r. map (text_of lib) (replies r store)) e
      ∙ ap (map (text_of lib)) (replies-read_of lib key store)
    where
      same : (p == p) ≡ true
      same = ground arith

  pub replies-last_write :
      (p : ℕ) (msg key : List ℕ) (log : List (ℕ × List ℕ)) (store : Store)
      → interpret lib msg ≡ read_of key
      → ((k : List ℕ) → store k ≡ none)
      → replies_to lib p (log ++ (p, msg) ∷ []) store
        ≡ replies_to lib p log store
          ++ text_of lib (read_reply (last_write lib key (texts log))) ∷ []
  replies-last_write p msg key log store e empty =
      replies_to-append lib p log ((p, msg) ∷ []) store
      ∙ ap (λ l. replies_to lib p log store ++ l)
          (read_last p msg key (store_after lib log store) e)
      ∙ ap (λ o. replies_to lib p log store ++ text_of lib (read_reply o) ∷ [])
          (store_after-last_write key log store
            ∙ ap (newer (last_write lib key (texts log))) (empty key)
            ∙ newer-none (last_write lib key (texts log)))

  -- Bytes arrive at the connections of a host with an empty map, in any order and any cuts, each at
  -- a connection that is started, listed under its uuid and with the slots of the server, and the
  -- last message that they make complete asks for a key. Then the last frame in the buffer of the
  -- connection that asked is that of the value of the last complete write of the key by any of the
  -- clients, or of the error that it is not in the storage if none wrote it, where the replies fit
  -- a frame.
  pub arrive_all-last_write :
      (b : Splitter) (p : ℕ) (msg key : List ℕ) (log : List (ℕ × List ℕ)) {parts : ℕ → List ℕ}
      {rs : List (ℕ × List ℕ)} (h : Host)
      → Arrivals b parts rs (log ++ (p, msg) ∷ [])
      → interpret lib msg ≡ read_of key
      → ((k : ℕ) → parts k ≡ (h.server.objects k).part_message)
      → ((k : List ℕ) → h.store k ≡ none)
      → All (λ r. Ready h.server r.0) rs
      → All IsSendable (all_replies lib (log ++ (p, msg) ∷ []) h.store)
      → (g : Host) × (fs : List ServerEffect) × (arrive_all b lib rs h ≡ ok (g, fs))
        × ((g.server.objects p).send_buffer
            ≡ (h.server.objects p).send_buffer
              ++ frames_of (
                  replies_to lib p log h.store
                  ++ text_of lib (read_reply (last_write lib key (texts log))) ∷ []))
  arrive_all-last_write b p msg key log {parts} {rs} h arrivals e same empty ready sendable =
      let (g, fs, run, store, buffers) =
        arrive_all-replies_to b lib h arrivals same (λ k v f. absurd (ground (arith, f, empty k)))
          ready sendable in
      (
        g,
        fs,
        run,
        buffers p
            ∙ ap (λ l. (h.server.objects p).send_buffer ++ frames_of l)
                (replies-last_write p msg key log h.store e empty),
      )
