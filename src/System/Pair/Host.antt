-- ===== src/System/Pair/Host.antt =====
-- What a step of the host does to a client and its connection.
use diginext.Base.{
  ℕ, suc, ◌+◌, ◌≡◌, refl, sym, ap, ◌∙◌, subst, inl, inr, Bool, Bool-cases, none, true, false,
  Option, List, [], ◌∷◌, ◌++◌, flatten, codes, map, length, ok, bind_step, ◌==◌, arith,
}
use diginext.Tcp.Connection.{
  Connection, Effect, Handler, read_message, async_write_some, handle_write,
}
use diginext.Tcp.Connection.Writer.{writes_of}
use diginext.Tcp.Connection.Writer.Flight.{with_queue}
use diginext.Tcp.Server.{
  Server, ServerEffect, of_connection, set_object, find_uuid, handle_effects, call,
}
use diginext.Tcp.Server.Lookup.{kept_by_set, find_uuid-same}
use diginext.Tcp.Server.Sending.{IsStarted, writes_at, own_object}
use diginext.Tcp.Server.Readiness.{Ready}
use diginext.Storage.Json.{JsonLib}
use diginext.Storage.Server.{Store}
use diginext.System.Peers.{Side, Side-ended}
use diginext.System.Pair.{Pair, Flight-IsStarted}

-- The writes that a handler of the connection `p` asks for.
abbrev pub asks : ℕ → List (List ℕ) → List ServerEffect
asks p fs = map (λ f. of_connection p (async_write_some f)) fs

handle_effects-writes :
    (p : ℕ) (fs : List (List ℕ)) (s : Server)
    → handle_effects p (map async_write_some fs) s ≡ ok (s, asks p fs)
unfolding handle_effects
handle_effects-writes p [] s = refl
handle_effects-writes p (f ∷ fs) s = bind_step _ (handle_effects-writes p fs s) refl

writes_at-asks : (p : ℕ) (fs : List (List ℕ)) → writes_at p (asks p fs) ≡ fs
unfolding writes_at
writes_at-asks p [] = refl
writes_at-asks p (f ∷ fs) = rw (same p) (ap (λ l. f ∷ l) (writes_at-asks p fs))
  where
    same : (k : ℕ) → (k == k) ≡ true
    same k = ground arith

pub call-writes :
    (p : ℕ) (h : Handler) (d : Connection) (es : List Effect) (fs : List (List ℕ)) (s : Server)
    → h (s.objects p) ≡ ok (d, es)
    → es ≡ map async_write_some fs
    → call p h s ≡ ok (set_object p d s, asks p fs)
unfolding call
call-writes p h d es fs s run e = bind_step _ run (
    ap (λ l. handle_effects p l (set_object p d s)) e
    ∙ handle_effects-writes p fs (set_object p d s))

module _ (s : Server) (p : ℕ) (buffer : List (List ℕ)) (start : Option Bool) where
  abbrev queue_set : Server
  queue_set = set_object p (with_queue buffer start (s.objects p)) s

  IsStarted-set :
      IsStarted (with_queue buffer start (s.objects p))
      → (k : ℕ) → IsStarted (s.objects k)
      → IsStarted (queue_set.objects k)
  IsStarted-set now k h = elim (Bool-cases (k == p)) [ inl e ↦ rw e now | inr e ↦ rw e h ]

  -- A connection whose queue changes stays ready, as the others do.
  Ready-set :
      IsStarted (with_queue buffer start (s.objects p)) → (k : ℕ) → Ready s k → Ready queue_set k
  Ready-set now k r = record {
    started = IsStarted-set now k r.started;
    has_slot = kept_by_set (λ c. c.slots read_message) s p _ refl k ∙ r.has_slot;
    no_bytes = kept_by_set (λ c. c.message) s p _ refl k ∙ r.no_bytes;
    listed =
        find_uuid-same queue_set.objects s.objects uuids (codes (queue_set.objects k).uuid)
          s.connections
        ∙ ap (λ x. find_uuid s.objects (codes x) s.connections) (uuids k)
        ∙ r.listed;
  }
    where
      uuids : (j : ℕ) → (queue_set.objects j).uuid ≡ (s.objects j).uuid
      uuids = kept_by_set (λ c. c.uuid) s p _ refl

module _ (lib : JsonLib) (store : Store) (log : List (ℕ × List ℕ)) where
  Pair-server :
      (k : ℕ) (s t : Server) (c : Connection) (up down down' : List ℕ) (m n n' : ℕ)
      (sent received : List (List ℕ)) (q : Pair lib store log k s c up down m n sent received)
      → Ready t k
      → (t.objects k).part_message ≡ (s.objects k).part_message
      → Side c.part_message down' (t.objects k) n' q.answers
      → Pair lib store log k t c up down' m n' sent received
  Pair-server k s t c up down down' m n n' sent received q ready part side = record {
    ready = ready;
    has_slot = q.has_slot;
    no_bytes = q.no_bytes;
    asked = q.asked;
    answers = q.answers;
    asking = subst (λ x. Side x up c m q.asked) (sym part) q.asking;
    answering = side;
    order = q.order;
    replies = q.replies;
  }

  -- What a write that ends at `p` leaves as it was.
  abbrev pub Others : ℕ → Server → Server → Type 0
  Others p s t = (k : ℕ) → (k == p) ≡ false → (t.objects k ≡ s.objects k) × (Ready s k → Ready t k)

  pub Pair-other :
      (p k : ℕ) (s t : Server) (c : Connection) (up down : List ℕ) (m n : ℕ)
      (sent received : List (List ℕ))
      → Others p s t
      → (k == p) ≡ false
      → Pair lib store log k s c up down m n sent received
      → Pair lib store log k t c up down m n sent received
  Pair-other p k s t c up down m n sent received others e q =
      let (same, ready) = others k e in
      Pair-server k s t c up down down m n n sent received q (ready q.ready)
        (ap (λ o. o.part_message) same)
        (subst (λ o. Side c.part_message down o n q.answers) (sym same) q.answering)

  -- A write of the host ends.
  pub Pair-host_ends :
      (p : ℕ) (s : Server) (c : Connection) (up down : List ℕ) (m w bytes : ℕ)
      (sent received : List (List ℕ))
      → Pair lib store log p s c up down m (suc w) sent received
      → (t : Server) × (fs : List ServerEffect) × (call p (handle_write none bytes) s ≡ ok (t, fs))
        × Pair lib store log p t c up
            (down ++ flatten (writes_at p fs))
            m
            (w + length (writes_at p fs))
            sent
            received
        × Others p s t
  Pair-host_ends p s c up down m w bytes sent received q =
      let (d, es, run, (buffer, start, same), asked, side) =
        Side-ended c.part_message down (s.objects p) bytes w q.answers q.answering in
      let ready : (k : ℕ) → Ready s k → Ready (queue_set s p buffer start) k =
        Ready-set s p buffer start (
          subst IsStarted same
            (Flight-IsStarted d (w + length (writes_of es)) side.rest side.flight)) in
      (
        queue_set s p buffer start,
        asks p (writes_of es),
        call-writes p (handle_write none bytes) (with_queue buffer start (s.objects p)) es
            (writes_of es) s (run ∙ ap (λ o. ok (o, es)) same) asked,
        Pair-server p s (queue_set s p buffer start) c up down
            (down ++ flatten (writes_at p (asks p (writes_of es)))) m (suc w)
            (w + length (writes_at p (asks p (writes_of es)))) sent received q (ready p q.ready)
            (kept_by_set (λ o. o.part_message) s p _ refl p)
            (subst
              (λ o.
                Side c.part_message (down ++ flatten (writes_at p (asks p (writes_of es)))) o
                  (w + length (writes_at p (asks p (writes_of es)))) q.answers)
              (same ∙ sym (own_object p (with_queue buffer start (s.objects p)) s))
              (rw (writes_at-asks p (writes_of es)) side)),
        λ k e. (rw e refl, ready k),
      )
