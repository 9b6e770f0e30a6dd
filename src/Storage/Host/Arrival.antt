-- ===== src/Storage/Host/Arrival.antt =====
-- Reads at the connections of a host, from the bytes that arrive to the calls of the host's slots.
use diginext.Base.{
  ℕ, ◌≡◌, refl, sym, ap, ◌∙◌, fun_ext, true, Bool-cases, inl, inr, none, some, List, [], ◌∷◌, ◌++◌,
  map, codes, length, Outcome, ok, ◌>>=◌, bind_step, if◌then◌else◌, ◌==◌, arith,
}
use diginext.Tcp.Message.{Splitter, read_bytes}
use diginext.Tcp.Connection.{
  Connection, Effect, fires, read_message, on_read_message, async_read_until, fire_all, handle_read,
}
use diginext.Tcp.Server
use diginext.Tcp.Server.{
  ServerEffect, calls, of_connection, on_client_message, set_object, find_uuid, handle_event,
  handle_effects, call,
}
use diginext.Tcp.Server.Readiness.{Ready}
use diginext.Tcp.Server.Lookup.{find_uuid-same, same_pointer}
use diginext.Storage.Json.{JsonLib}
use diginext.Storage.Host
use diginext.Storage.Host.{Host}
use diginext.Tcp.Server.Sending.{own_object, writes_at}
use diginext.Storage.Host.Queues.{messages_of}

module _ (b : Splitter) (lib : JsonLib) where
  -- The bytes are put into the `streambuf` of a connection, and `handle_read` runs.
  unfoldable pub arrive : ℕ → List ℕ → Host → Outcome (Host × List ServerEffect)
  arrive p chunk h = do
    let c : Connection = record (h.server.objects p) {
      message = (h.server.objects p).message ++ chunk;
    }
    (s, es) ← call p (handle_read b none (length chunk)) (set_object p c h.server)
    Host.handle_effects lib es (record { server = s; store = h.store })

  -- Reads at several connections, one after the other.
  unfoldable pub arrive_all : List (ℕ × List ℕ) → Host → Outcome (Host × List ServerEffect)
  unfolding arrive
  arrive_all [] h = ok (h, [])
  arrive_all ((p, chunk) ∷ more) h = do
    (h₁, first) ← arrive p chunk h
    (h₂, rest) ← arrive_all more h₁
    ok (h₂, first ++ rest)

-- The server when a read at `p` has left `part` unfinished.
abbrev pub after_read : ℕ → List ℕ → Server.Server → Server.Server
after_read p part s = set_object p (record (s.objects p) { message = []; part_message = part }) s

set_object_again :
    (p : ℕ) (c d : Connection) (s : Server.Server)
    → set_object p d (set_object p c s) ≡ set_object p d s
set_object_again p c d s = ap (λ o. record s { objects = o }) (fun_ext (λ k. again k))
  where
    again :
        (k : ℕ)
        → (if k == p then d else if k == p then c else s.objects k)
          ≡ (if k == p then d else s.objects k)
    again k = elim (Bool-cases (k == p)) [ inl e ↦ rw e refl | inr e ↦ rw e refl ]

-- What a read makes the server call.
abbrev pub events : ℕ → List (List ℕ) → List ServerEffect
events p [] = of_connection p async_read_until ∷ []
events p (m ∷ ms) = calls (on_client_message p m) ∷ events p ms

abbrev pub from : ℕ → List (List ℕ) → List (ℕ × List ℕ)
from p [] = []
from p (m ∷ ms) = (p, m) ∷ from p ms

pub messages_of-events : (p : ℕ) (ms : List (List ℕ)) → messages_of (events p ms) ≡ from p ms
unfolding messages_of
messages_of-events p [] = refl
messages_of-events p (m ∷ ms) = ap (λ l. (p, m) ∷ l) (messages_of-events p ms)

pub writes_at-events : (k p : ℕ) (ms : List (List ℕ)) → writes_at k (events p ms) ≡ []
unfolding writes_at
writes_at-events k p [] = refl
writes_at-events k p (m ∷ ms) = writes_at-events k p ms

handle_event-message :
    (p : ℕ) (m : List ℕ) (s : Server.Server)
    → find_uuid s.objects (codes (s.objects p).uuid) s.connections ≡ some p
    → handle_event p (on_read_message m) s ≡ ok (s, calls (on_client_message p m) ∷ [])
unfolding handle_event
handle_event-message p m s found = ground (arith, found)

handle_effects-events :
    (p : ℕ) (c : Connection) (ms : List (List ℕ)) (s : Server.Server)
    → c.slots read_message ≡ true
    → find_uuid s.objects (codes (s.objects p).uuid) s.connections ≡ some p
    → handle_effects p (fire_all c (map on_read_message ms) ++ async_read_until ∷ []) s
      ≡ ok (s, events p ms)
unfolding handle_effects
handle_effects-events p c [] s slot found = refl
handle_effects-events p c (m ∷ ms) s slot found =
    ap
      (λ x.
        handle_effects p
          (((if x then fires (on_read_message m) ∷ [] else []) ++ more) ++ async_read_until ∷ []) s)
      slot
    ∙ bind_step _ (handle_event-message p m s found)
        (bind_step _ (handle_effects-events p c ms s slot found) refl)
  where
    more : List Effect
    more = fire_all c (map on_read_message ms)

-- What a read leaves as it was, at every connection.
pub kept_by_read :
    {X : Type 0} (f : Connection → X) (s : Server.Server) (p : ℕ) (part : List ℕ)
    → f (record (s.objects p) { message = []; part_message = part }) ≡ f (s.objects p)
    → (k : ℕ) → f ((after_read p part s).objects k) ≡ f (s.objects k)
kept_by_read f s p part e k = elim (Bool-cases (k == p)) [
  | inl h ↦ rw h (e ∙ ap (λ j. f (s.objects j)) (sym (same_pointer k p h)))
  | inr h ↦ rw h refl
]

pub after_read-no_bytes :
    (p : ℕ) (part : List ℕ) (s : Server.Server) (k : ℕ)
    → (s.objects k).message ≡ []
    → ((after_read p part s).objects k).message ≡ []
after_read-no_bytes p part s k e = elim (Bool-cases (k == p)) [ inl h ↦ rw h refl | inr h ↦ rw h e ]

pub after_read-part :
    (p : ℕ) (part : List ℕ) (s : Server.Server) (k : ℕ) (before : List ℕ)
    → before ≡ (s.objects k).part_message
    → (if k == p then part else before) ≡ ((after_read p part s).objects k).part_message
after_read-part p part s k before e = elim (Bool-cases (k == p)) [
  | inl h ↦ rw h refl
  | inr h ↦ rw h e
]

-- A read of a connection with nothing left to read.
pub read_lem :
    (b : Splitter) (chunk part : List ℕ) (ms : List (List ℕ)) (c : Connection)
    → c.message ≡ []
    → read_bytes b c.part_message chunk ≡ ok (ms, part)
    → handle_read b none (length chunk) (record c { message = c.message ++ chunk })
      ≡ ok (
        record c { message = []; part_message = part },
        fire_all (record c { message = c.message ++ chunk }) (map on_read_message ms)
            ++ async_read_until ∷ [],
      )
unfolding handle_read
read_lem b chunk part ms c e run =
    bind_step _ (ap (λ m. read_bytes b c.part_message (m ++ chunk)) e ∙ run) refl

pub call-read :
    (b : Splitter) (p : ℕ) (chunk part : List ℕ) (ms : List (List ℕ)) (s : Server.Server)
    → Ready s p
    → read_bytes b (s.objects p).part_message chunk ≡ ok (ms, part)
    → call p
        (handle_read b none (length chunk))
        (set_object p (record (s.objects p) { message = (s.objects p).message ++ chunk }) s)
      ≡ ok (after_read p part s, events p ms)
unfolding call
call-read b p chunk part ms s ready run =
    bind_step _
      (ap (λ d. handle_read b none (length chunk) d) (own_object p c s)
        ∙ read_lem b chunk part ms (s.objects p) ready.no_bytes run)
      (ap (λ t. handle_effects p (fire_all c (map on_read_message ms) ++ async_read_until ∷ []) t)
          (set_object_again p c d s)
        ∙ handle_effects-events p c ms (after_read p part s) ready.has_slot found)
  where
    c : Connection
    c = record (s.objects p) { message = (s.objects p).message ++ chunk }

    d : Connection
    d = record (s.objects p) { message = []; part_message = part }

    found :
        find_uuid
          (after_read p part s).objects
          (codes ((after_read p part s).objects p).uuid)
          s.connections
        ≡ some p
    found =
        find_uuid-same (after_read p part s).objects s.objects
          (kept_by_read (λ e. e.uuid) s p part refl) (codes ((after_read p part s).objects p).uuid)
          s.connections
        ∙ ap (λ u. find_uuid s.objects (codes u) s.connections)
            (kept_by_read (λ e. e.uuid) s p part refl p)
        ∙ ready.listed
