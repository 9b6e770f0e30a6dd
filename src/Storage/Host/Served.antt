-- ===== src/Storage/Host/Served.antt =====
-- The host from the bytes that arrive at its connections to the frames of its replies.
use diginext.Base.{
  All-split, ℕ, ◌≡◌, refl, sym, ap, ◌∙◌, subst, Bool, Option, append-nil, List, [], ◌∷◌, ◌++◌,
  append_assoc, codes, All, Outcome, ok, bind_step, if◌then◌else◌, ◌==◌,
}
use diginext.Tcp.Message.{Splitter, read_bytes}
use diginext.Tcp.Message.Stream.{IsSendable}
use diginext.Tcp.Connection.{Connection, read_message}
use diginext.Tcp.Channel.{frames_of, frames_of-append}
use diginext.Tcp.Server
use diginext.Tcp.Server.{ServerEffect, find_uuid}
use diginext.Tcp.Server.Lookup.{find_uuid-same}
use diginext.Storage.Json.{JsonLib}
use diginext.Storage.Server.{Store}
use diginext.Storage.Server.Branches.{IsUtf8Store}
use diginext.Storage.Host.{Host}
use diginext.Tcp.Server.Sending.{IsStarted, Grown, writes_at}
use diginext.Tcp.Connection.Writer.Flight.{with_queue}
use diginext.Storage.Host.Queues.{messages_of, store_after, all_replies, replies_to}
use diginext.Storage.Host.Answers.{handle_effects-replies_to}
use diginext.Storage.Host.Logs.{
  store_after-append, all_replies-append, replies_to-append, store_after-IsUtf8Store,
}
use diginext.Tcp.Server.Readiness.{Ready}
use diginext.Storage.Host.Arrival.{
  arrive, arrive_all, after_read, events, from, messages_of-events, writes_at-events, kept_by_read,
  after_read-no_bytes, after_read-part, call-read,
}

-- The messages, with their connections, that reads make complete; `parts` are the unfinished ones.
pub data Arrivals (b : Splitter)
    : (ℕ → List ℕ) → List (ℕ × List ℕ) → List (ℕ × List ℕ) → Type 0 where
  nothing : {parts : ℕ → List ℕ} → Arrivals b parts [] []
  reads :
      {parts : ℕ → List ℕ} {p : ℕ} {chunk part : List ℕ} {ms : List (List ℕ)}
      {more log : List (ℕ × List ℕ)}
      → read_bytes b (parts p) chunk ≡ ok (ms, part)
      → Arrivals b (λ k. if k == p then part else parts k) more log
      → Arrivals b parts ((p, chunk) ∷ more) (from p ms ++ log)

from-All : (P : ℕ → Type 0) (p : ℕ) (ms : List (List ℕ)) → P p → All (λ m. P m.0) (from p ms)
from-All P p [] h = tt
from-All P p (m ∷ ms) h = (h, from-All P p ms h)

module _ (b : Splitter) (lib : JsonLib) where
  -- What comes of one read.
  abbrev pub Heard :
      List (ℕ × List ℕ) → Host → Server.Server → Outcome (Host × List ServerEffect) → Type 0
  Heard log h t result =
      (g : Host) × (fs : List ServerEffect) × (result ≡ ok (g, fs))
      × (g.store ≡ store_after lib log h.store)
      × (g.server.connections ≡ h.server.connections)
      × ((k : ℕ)
          → Grown (frames_of (replies_to lib k log h.store)) (t.objects k) (g.server.objects k)
              (writes_at k fs))

  pub arrive_lem :
      (p : ℕ) (chunk part : List ℕ) (ms : List (List ℕ)) (h : Host)
      → IsUtf8Store lib h.store
      → Ready h.server p
      → read_bytes b (h.server.objects p).part_message chunk ≡ ok (ms, part)
      → All IsSendable (all_replies lib (from p ms) h.store)
      → Heard (from p ms) h (after_read p part h.server) (arrive b lib p chunk h)
  unfolding arrive
  arrive_lem p chunk part ms h utf8 ready run sendable =
      let (g, fs, step, store, listed, begun, grown, asked) =
        handle_effects-replies_to lib (events p ms) h' utf8
          (rw (messages_of-events p ms)
            (from-All (λ k. IsStarted (h'.server.objects k)) p ms started))
          (rw (messages_of-events p ms) sendable) in
      (
        g,
        fs,
        bind_step _ (call-read b p chunk part ms h.server ready run) step,
        store ∙ ap (λ l. store_after lib l h.store) (messages_of-events p ms),
        listed,
        λ k.
            subst
              (λ l.
                Grown (frames_of (replies_to lib k l h.store)) (h'.server.objects k)
                  (g.server.objects k) (writes_at k fs))
              (messages_of-events p ms)
              (subst
                (Grown (frames_of (replies_to lib k (messages_of (events p ms)) h.store))
                  (h'.server.objects k) (g.server.objects k))
                (sym (asked k (writes_at-events k p ms))) (grown k)),
      )
    where
      h' : Host
      h' = record { server = after_read p part h.server; store = h.store }

      started : IsStarted (h'.server.objects p)
      started = (
        ready.started.0,
        kept_by_read (λ c. c.send_start) h.server p part refl p ∙ ready.started.1,
      )

module _ (s : Server.Server) (p : ℕ) (part : List ℕ) (u : Server.Server)
    (frames begun : ℕ → List (List ℕ)) (listed : u.connections ≡ s.connections)
    (grown : (k : ℕ)
      → Grown (frames k) ((after_read p part s).objects k) (u.objects k) (begun k)) where
  -- What neither a read nor the replies change.
  pub kept_by_arrival :
      {X : Type 0} (f : Connection → X)
      → ((c : Connection) (buffer : List (List ℕ)) (o : Option Bool)
          → f (with_queue buffer o c) ≡ f c)
      → ((c : Connection) → f (record c { message = []; part_message = part }) ≡ f c)
      → (k : ℕ) → f (u.objects k) ≡ f (s.objects k)
  kept_by_arrival f h i k =
      ap f (grown k).same ∙ h _ _ _ ∙ kept_by_read f s p part (i (s.objects p)) k

  pub Ready-kept : (k : ℕ) → Ready s k → Ready u k
  Ready-kept k r = record {
    started =
        (grown k).started
          (r.started.0, kept_by_read (λ c. c.send_start) s p part refl k ∙ r.started.1);
    has_slot =
        kept_by_arrival (λ c. c.slots read_message) (λ c l o. refl) (λ c. refl) k ∙ r.has_slot;
    no_bytes = ap (λ c. c.message) (grown k).same ∙ after_read-no_bytes p part s k r.no_bytes;
    listed =
        ap (λ l. find_uuid u.objects (codes (u.objects k).uuid) l) listed
        ∙ find_uuid-same u.objects s.objects uuids (codes (u.objects k).uuid) s.connections
        ∙ ap (λ x. find_uuid s.objects (codes x) s.connections) (uuids k)
        ∙ r.listed;
  }
    where
      uuids : (j : ℕ) → (u.objects j).uuid ≡ (s.objects j).uuid
      uuids = kept_by_arrival (λ c. c.uuid) (λ c l o. refl) (λ c. refl)

  Ready-All : (rs : List (ℕ × List ℕ)) → All (λ r. Ready s r.0) rs → All (λ r. Ready u r.0) rs
  Ready-All [] h = tt
  Ready-All (r ∷ rs) h = (Ready-kept r.0 h.0, Ready-All rs h.1)

  pub parts_kept :
      (parts : ℕ → List ℕ)
      → ((k : ℕ) → parts k ≡ (s.objects k).part_message)
      → (k : ℕ) → (if k == p then part else parts k) ≡ (u.objects k).part_message
  parts_kept parts h k =
      after_read-part p part s k (parts k) (h k) ∙ sym (ap (λ c. c.part_message) (grown k).same)

  buffer_kept : (k : ℕ) → (u.objects k).send_buffer ≡ (s.objects k).send_buffer ++ frames k
  buffer_kept k =
      ap (λ c. c.send_buffer) (grown k).same
      ∙ ap (λ l. l ++ frames k) (kept_by_read (λ c. c.send_buffer) s p part refl k)

module _ (b : Splitter) (lib : JsonLib) where
  frames_kept :
      (k : ℕ) (xs ys : List (ℕ × List ℕ)) (store : Store) (u v w : List (List ℕ))
      → v ≡ u ++ frames_of (replies_to lib k xs store)
      → w ≡ v ++ frames_of (replies_to lib k ys (store_after lib xs store))
      → w ≡ u ++ frames_of (replies_to lib k (xs ++ ys) store)
  frames_kept k xs ys store u v w e f =
      f
      ∙ ap (λ l. l ++ later) e
      ∙ append_assoc u now later
      ∙ ap (λ l. u ++ l)
          (sym (frames_of-append (replies_to lib k xs store) _)
            ∙ ap frames_of (sym (replies_to-append lib k xs ys store)))
    where
      now : List (List ℕ)
      now = frames_of (replies_to lib k xs store)

      later : List (List ℕ)
      later = frames_of (replies_to lib k ys (store_after lib xs store))

  -- Bytes arrive at the connections of a host in any order and any cuts, each read of a connection
  -- that is started, listed under its uuid and with the slots of the server, with no exception in a
  -- read. Then the host returns from all the handlers, its store is the one after the messages that
  -- the reads made complete, in order, and the buffer of each connection has grown by the frames of
  -- the replies to that connection's own messages, where the store holds UTF-8 and the replies fit
  -- a frame.
  pub arrive_all-replies_to :
      {parts : ℕ → List ℕ} {rs log : List (ℕ × List ℕ)} (h : Host)
      → Arrivals b parts rs log
      → ((k : ℕ) → parts k ≡ (h.server.objects k).part_message)
      → IsUtf8Store lib h.store
      → All (λ r. Ready h.server r.0) rs
      → All IsSendable (all_replies lib log h.store)
      → (g : Host) × (fs : List ServerEffect) × (arrive_all b lib rs h ≡ ok (g, fs))
        × (g.store ≡ store_after lib log h.store)
        × ((k : ℕ)
            → (g.server.objects k).send_buffer
              ≡ (h.server.objects k).send_buffer ++ frames_of (replies_to lib k log h.store))
  unfolding arrive_all
  arrive_all-replies_to h nothing same utf8 ready sendable = (
    h,
    [],
    refl,
    unfold store_after in refl,
    λ k. unfold replies_to in sym (append-nil (h.server.objects k).send_buffer),
  )
  arrive_all-replies_to h (reads {parts} {p} {chunk} {part} {ms} {more} {log} run rest) same utf8
        ready sendable =
      let (now, later) =
        All-split IsSendable (all_replies lib (from p ms) h.store) _ (
          subst (λ l. All IsSendable l) (all_replies-append lib (from p ms) log h.store)
            sendable) in
      let (g, fs, step, store, listed, grown) =
        arrive_lem b lib p chunk part ms h utf8 ready.0
          (ap (λ x. read_bytes b x chunk) (sym (same p)) ∙ run) now in
      let frames : ℕ → List (List ℕ) = λ k. frames_of (replies_to lib k (from p ms) h.store) in
      let (g', gs, steps, store', buffers) =
        arrive_all-replies_to g rest
          (parts_kept h.server p part g.server frames (λ k. writes_at k fs) listed grown parts same)
          (subst (IsUtf8Store lib) (sym store)
            (store_after-IsUtf8Store lib (from p ms) h.store utf8))
          (Ready-All h.server p part g.server frames (λ k. writes_at k fs) listed grown more
            ready.1)
          (subst (λ x. All IsSendable (all_replies lib log x)) (sym store) later) in
      (
        g',
        fs ++ gs,
        bind_step _ step (bind_step _ steps refl),
        store'
            ∙ ap (store_after lib log) store
            ∙ sym (store_after-append lib (from p ms) log h.store),
        λ k.
            frames_kept k (from p ms) log h.store (h.server.objects k).send_buffer
              (g.server.objects k).send_buffer (g'.server.objects k).send_buffer
              (buffer_kept h.server p part g.server frames (λ k. writes_at k fs) listed grown k)
              (buffers k
                ∙ ap (λ x. (g.server.objects k).send_buffer ++ frames_of (replies_to lib k log x))
                    store),
      )
