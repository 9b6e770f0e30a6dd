-- ===== src/System/Drain.antt =====
-- From the client to the host: all writes end and all bytes are read.
pub mod Back
use diginext.Base.{
  All-split, ℕ, zero, suc, ◌+◌, ◌<◌, ◌^◌, ◌≡◌, refl, sym, ap, ◌∙◌, subst, inl, inr, none, true,
  Bool, List, [], ◌∷◌, ◌++◌, append_assoc, map, length, All, ok, if◌then◌else◌, ◌==◌, arith,
}
use diginext.Tcp.Message.{Splitter, read_bytes}
use diginext.Tcp.Connection.{Connection, Effect, async_write_some, handle_write}
use diginext.Tcp.Connection.Writer.{writes_of, failed, handle_write_last, handle_write_more}
use diginext.Tcp.Connection.Writer.Flight.{Flight}
use diginext.Tcp.Channel.{IsText, texts-IsSendable}
use diginext.Tcp.Server.{Server, set_object}
use diginext.Tcp.Server.Sending.{own_object, writes_at}
use diginext.Storage.Json.{JsonLib}
use diginext.Storage.Server.{Store}
use diginext.Storage.Server.Branches.{IsUtf8Store}
use diginext.Storage.Host.Queues.{store_after, all_replies, replies_to}
use diginext.Storage.Host.Logs.{all_replies-append, store_after-IsUtf8Store}
use diginext.Storage.Host.Served.{arrive_lem}
use diginext.Storage.Host.Requests.{of_one}
use diginext.Storage.Host.Arrival.{arrive, from}
use diginext.System.{
  Net, Event, update, Step, client_ends, host_reads, host_ends, client_reads, Reach, here, next,
}
use diginext.System.Peers.{Side-read}
use diginext.System.Pair.{Pair, Pair-client_reads}
use diginext.System.Pair.Host.{call-writes, asks}
use diginext.System.Pair.Reads.{of_one-append, of_one-from}
use diginext.System.Invariant.{Invariant}
use diginext.System.Invariant.Host.{Step-Invariant}

pub same_pointer_true : (p : ℕ) → (p == p) ≡ true
same_pointer_true p = ground arith

pub update-same : {A : Type 0} (f : ℕ → A) (p : ℕ) (a : A) → update f p a p ≡ a
update-same f p a = rw (same_pointer_true p) refl

-- The end of a write takes the front frame from the buffer.
pub pops :
    (bytes : ℕ) (f : List ℕ) (fs : List (List ℕ)) (c : Connection)
    → c.send_buffer ≡ f ∷ fs
    → (d : Connection) × (es : List Effect) × (handle_write none bytes c ≡ ok (d, es))
      × (es ≡ map async_write_some (writes_of es))
      × (d.send_buffer ≡ fs)
unfolding failed writes_of
pops bytes f [] c e = (_, [], handle_write_last none bytes f c e, refl, refl)
pops bytes f (g ∷ fs) c e =
    (_, async_write_some g ∷ [], handle_write_more none bytes f g fs c e, refl, refl)

-- An empty buffer has no write in flight, and one with a frame has one.
pub no_write :
    (c : Connection) (n : ℕ) (rest : List (List ℕ)) → Flight c n rest → c.send_buffer ≡ [] → n ≡ 0
no_write c n rest (inl (s, q, z, r)) e = z
no_write c n rest (inr (g, s, q, o)) e = absurd (ground (arith, e, q))

pub one_write :
    (c : Connection) (n : ℕ) (rest : List (List ℕ)) (f : List ℕ) (fs : List (List ℕ))
    → Flight c n rest
    → c.send_buffer ≡ f ∷ fs
    → n ≡ suc 0
one_write c n rest f fs (inl (s, q, z, r)) e = absurd (ground (arith, e, q))
one_write c n rest f fs (inr (g, s, q, o)) e = o

from-append : (p : ℕ) (xs ys : List (List ℕ)) → from p (xs ++ ys) ≡ from p xs ++ from p ys
from-append p [] ys = refl
from-append p (x ∷ xs) ys = ap (λ l. (p, x) ∷ l) (from-append p xs ys)

own_from : (p : ℕ) (ms : List (List ℕ)) → of_one p (from p ms) ≡ ms
own_from p ms = of_one-from p p ms ∙ rw (same_pointer_true p) refl

-- The replies to what a client has sent and the host has not handled are texts.
abbrev pub Answerable : JsonLib → ℕ → Net → Type 0
Answerable lib p m =
    (asked : List (List ℕ))
    → m.sent p ≡ of_one p m.log ++ asked
    → All IsText (all_replies lib (from p asked) m.host.store)

module _ (b : Splitter) (lib : JsonLib) (IsPeer : ℕ → Type 0) where
  pub Reach-first :
      {m l k : Net} {e : Event}
      → Step b lib IsPeer m e l
      → Reach b lib IsPeer l k
      → Reach b lib IsPeer m k
  Reach-first step here = next here step
  Reach-first step (next run last) = next (Reach-first step run) last

  pub Reach-append :
      {m l k : Net} → Reach b lib IsPeer m l → Reach b lib IsPeer l k → Reach b lib IsPeer m k
  Reach-append first here = first
  Reach-append first (next run last) = next (Reach-append first run) last

module _ (b : Splitter) (lib : JsonLib) (IsPeer : ℕ → Type 0) (store : Store)
    (utf8 : IsUtf8Store lib store) (p : ℕ) (peer : IsPeer p) where
  -- All writes of the client end.
  pub client_drains :
      (fs : List (List ℕ)) (m : Net)
      → Invariant lib store IsPeer m
      → (m.client p).send_buffer ≡ fs
      → (l : Net) × Reach b lib IsPeer m l
        × Invariant lib store IsPeer l
        × (l.client_writes p ≡ 0)
        × (l.sent p ≡ m.sent p)
        × (l.log ≡ m.log)
        × (l.host ≡ m.host)
  client_drains [] m h e =
      let k = h.pairs p peer in
      (
        m,
        here,
        h,
        no_write (m.client p) (m.client_writes p) k.asking.rest k.asking.flight e,
        refl,
        refl,
        refl,
      )
  client_drains (f ∷ fs) m h e =
      let k = h.pairs p peer in
      let (d, es, run, asked, popped) = pops 0 f fs (m.client p) e in
      let step =
        client_ends {c = d} {es = es} p 0 0 peer
          (one_write (m.client p) (m.client_writes p) k.asking.rest f fs k.asking.flight e) run in
      let (l, rest, kept, none_left, sent, log, host) =
        client_drains fs _ (Step-Invariant b lib store IsPeer m _ _ utf8 step h)
          (ap (λ c. c.send_buffer) (update-same m.client p d) ∙ popped) in
      (l, Reach-first b lib IsPeer step rest, kept, none_left, sent, log, host)

  Answerable-front :
      (m : Net) (h : Invariant lib store IsPeer m) (done more : List (List ℕ))
      → (h.pairs p peer).asked ≡ done ++ more
      → Answerable lib p m
      → All IsText (all_replies lib (from p done) m.host.store)
  Answerable-front m h done more e texts =
      (All-split IsText (all_replies lib (from p done) m.host.store) _ (
        subst (All IsText) (all_replies-append lib (from p done) (from p more) m.host.store) (
          subst (λ l. All IsText (all_replies lib l m.host.store)) (from-append p done more)
            (texts (done ++ more) ((h.pairs p peer).order ∙ ap (λ l. of_one p m.log ++ l) e))))).0

  Answerable-behind :
      (m : Net) (done : List (List ℕ)) (g : Store)
      → g ≡ store_after lib (from p done) m.host.store
      → Answerable lib p m
      → (asked : List (List ℕ)) → m.sent p ≡ of_one p (m.log ++ from p done) ++ asked
      → All IsText (all_replies lib (from p asked) g)
  Answerable-behind m done g e texts asked sent =
      subst (λ x. All IsText (all_replies lib (from p asked) x)) (sym e)
        (All-split IsText (all_replies lib (from p done) m.host.store) _ (
          subst (All IsText) (all_replies-append lib (from p done) (from p asked) m.host.store) (
            subst (λ l. All IsText (all_replies lib l m.host.store)) (from-append p done asked)
              (texts (done ++ asked) (
                sent
                ∙ ap (λ l. l ++ asked) (of_one-append p m.log (from p done))
                ∙ ap (λ l. (of_one p m.log ++ l) ++ asked) (own_from p done)
                ∙ append_assoc (of_one p m.log) done asked))))).1

  -- All bytes on the way to the host arrive, one by one.
  pub host_hears :
      (wire : List ℕ) (m : Net)
      → Invariant lib store IsPeer m
      → m.up p ≡ wire
      → m.client_writes p ≡ 0
      → Answerable lib p m
      → (l : Net) × Reach b lib IsPeer m l
        × Invariant lib store IsPeer l
        × (l.up p ≡ [])
        × (l.client_writes p ≡ 0)
        × (l.sent p ≡ m.sent p)
  host_hears [] m h e quiet texts = (m, here, h, e, quiet, refl)
  host_hears (x ∷ wire) m h e quiet texts =
      let k = h.pairs p peer in
      let (done, left, part, split, run, complete, side) =
        Side-read b (m.host.server.objects p).part_message (m.up p) (x ∷ []) wire (m.client p)
          (m.client_writes p) k.asked e (omega arith) k.asking in
      let now : All IsText (all_replies lib (from p done) m.host.store) =
        Answerable-front m h done left split texts in
      let (g, fs, arrival, stored, y, z) =
        arrive_lem b lib p (x ∷ []) part done m.host
          (subst (IsUtf8Store lib) (sym h.stored) (store_after-IsUtf8Store lib m.log store utf8))
          k.ready run (texts-IsSendable (all_replies lib (from p done) m.host.store) now) in
      let step =
        host_reads {h = g} {fs = fs} p (x ∷ []) wire part done peer e (omega arith) run now
          arrival in
      let (l, rest, kept, empty, none_left, sent) =
        host_hears wire _ (Step-Invariant b lib store IsPeer m _ _ utf8 step h)
          (update-same m.up p wire) quiet (Answerable-behind m done g.store stored texts) in
      (l, Reach-first b lib IsPeer step rest, kept, empty, none_left, sent)
