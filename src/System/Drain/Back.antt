-- ===== src/System/Drain/Back.antt =====
-- From the host to the client: all writes end and all bytes are read.
use diginext.Base.{ℕ, ◌≡◌, refl, ap, ◌∙◌, none, List, [], ◌∷◌, arith}
use diginext.Tcp.Message.{Splitter}
use diginext.Tcp.Connection.{handle_write}
use diginext.Tcp.Connection.Writer.{writes_of}
use diginext.Tcp.Server.{set_object}
use diginext.Tcp.Server.Sending.{own_object}
use diginext.Storage.Json.{JsonLib}
use diginext.Storage.Server.{Store}
use diginext.Storage.Server.Branches.{IsUtf8Store}
use diginext.System.{Net, host_ends, client_reads, Reach, here}
use diginext.System.Pair.{Pair-client_reads}
use diginext.System.Pair.Host.{call-writes, asks}
use diginext.System.Invariant.{Invariant}
use diginext.System.Invariant.Host.{Step-Invariant}
use diginext.System.Drain.{update-same, pops, no_write, one_write, Reach-first}

module _ (b : Splitter) (lib : JsonLib) (IsPeer : ℕ → Type 0) (store : Store)
    (utf8 : IsUtf8Store lib store) (p : ℕ) (peer : IsPeer p) where
  -- All writes of the host to the client end.
  pub host_drains :
      (fs : List (List ℕ)) (m : Net)
      → Invariant lib store IsPeer m
      → (m.host.server.objects p).send_buffer ≡ fs
      → (l : Net) × Reach b lib IsPeer m l
        × Invariant lib store IsPeer l
        × (l.server_writes p ≡ 0)
        × (l.up p ≡ m.up p)
        × (l.client_writes p ≡ m.client_writes p)
        × (l.sent p ≡ m.sent p)
  host_drains [] m h e =
      let k = h.pairs p peer in
      (
        m,
        here,
        h,
        no_write (m.host.server.objects p) (m.server_writes p) k.answering.rest k.answering.flight
            e,
        refl,
        refl,
        refl,
      )
  host_drains (f ∷ fs) m h e =
      let k = h.pairs p peer in
      let (d, es, run, asked, popped) = pops 0 f fs (m.host.server.objects p) e in
      let step =
        host_ends {s = set_object p d m.host.server} {fs = asks p (writes_of es)} p 0 0 peer
          (one_write (m.host.server.objects p) (m.server_writes p) k.answering.rest f fs
            k.answering.flight e)
          (call-writes p (handle_write none 0) d es (writes_of es) m.host.server run asked) in
      let (l, rest, kept, none_left, up, writes, sent) =
        host_drains fs _ (Step-Invariant b lib store IsPeer m _ _ utf8 step h)
          (ap (λ c. c.send_buffer) (own_object p d m.host.server) ∙ popped) in
      (l, Reach-first b lib IsPeer step rest, kept, none_left, up, writes, sent)

  -- All bytes on the way to the client arrive, one by one.
  pub client_hears :
      (wire : List ℕ) (m : Net)
      → Invariant lib store IsPeer m
      → m.down p ≡ wire
      → (l : Net) × Reach b lib IsPeer m l
        × Invariant lib store IsPeer l
        × (l.down p ≡ [])
        × (l.up p ≡ m.up p)
        × (l.client_writes p ≡ m.client_writes p)
        × (l.server_writes p ≡ m.server_writes p)
        × (l.sent p ≡ m.sent p)
  client_hears [] m h e = (m, here, h, e, refl, refl, refl, refl)
  client_hears (x ∷ wire) m h e =
      let (d, es, run, own) =
        Pair-client_reads lib store m.log p m.host.server b (m.client p) (m.up p) (m.down p)
          (m.client_writes p) (m.server_writes p) (m.sent p) (m.received p) (x ∷ []) wire e
          (omega arith) (h.pairs p peer) in
      let step = client_reads {c = d} {es = es} p (x ∷ []) wire peer e (omega arith) run in
      let (l, rest, kept, empty, up, writes, back, sent) =
        client_hears wire _ (Step-Invariant b lib store IsPeer m _ _ utf8 step h)
          (update-same m.down p wire) in
      (l, Reach-first b lib IsPeer step rest, kept, empty, up, writes, back, sent)
