-- ===== src/System/Progress.antt =====
-- What a reachable system can do next: no handler throws, is undefined or gets stuck.
use diginext.Base.{ℕ, suc, ◌<◌, ◌^◌, ◌≡◌, sym, subst, List, ◌++◌, length, All, ok}
use diginext.Tcp.Message.{Splitter, read_bytes}
use diginext.Tcp.Channel.{IsText, texts-IsSendable}
use diginext.Storage.Json.{JsonLib}
use diginext.Storage.Server.{Store}
use diginext.Storage.Server.Branches.{IsUtf8Store}
use diginext.Storage.Host.Queues.{all_replies}
use diginext.Storage.Host.Logs.{store_after-IsUtf8Store}
use diginext.Storage.Host.Arrival.{from}
use diginext.Storage.Host.Served.{arrive_lem}
use diginext.System.{
  Net, Event, given, client_wrote, host_wrote, host_got, client_got, Step, sends, client_ends,
  host_reads, host_ends, client_reads, Reach,
}
use diginext.System.Peers.{Side-read}
use diginext.System.Pair.{Pair, Pair-send, Pair-client_ends, Pair-client_reads}
use diginext.System.Pair.Host.{Pair-host_ends}
use diginext.System.Invariant.{Invariant}
use diginext.System.Order.{Begun, reached}

module _ (b : Splitter) (lib : JsonLib) (IsPeer : ℕ → Type 0) where
  -- What may happen to a system: a client is given a text (bytes, two or more and fewer than 2 ^
  -- 60), a write in flight ends, or the first bytes on the way arrive. The replies to what arrives
  -- at the host are to be texts.
  abbrev pub Offered : Event → Net → Type 0
  Offered (given p msg) n = IsPeer p × IsText msg
  Offered (client_wrote p bytes) n = IsPeer p × (w : ℕ) × (n.client_writes p ≡ suc w)
  Offered (host_got p chunk) n =
      IsPeer p
      × (rest : List ℕ) × (n.up p ≡ chunk ++ rest)
      × (length chunk < 2 ^ 61)
      × ((ms : List (List ℕ)) (part : List ℕ)
          → read_bytes b (n.host.server.objects p).part_message chunk ≡ ok (ms, part)
          → All IsText (all_replies lib (from p ms) n.host.store))
  Offered (host_wrote p bytes) n = IsPeer p × (w : ℕ) × (n.server_writes p ≡ suc w)
  Offered (client_got p chunk) n =
      IsPeer p × (rest : List ℕ) × (n.down p ≡ chunk ++ rest) × (length chunk < 2 ^ 61)

  module _ (store : Store) (utf8 : IsUtf8Store lib store) (m : Net)
      (h : Invariant lib store IsPeer m) where
    pub read_step :
        (p : ℕ) (chunk rest part : List ℕ) (ms : List (List ℕ))
        → IsPeer p
        → m.up p ≡ chunk ++ rest
        → length chunk < 2 ^ 61
        → read_bytes b (m.host.server.objects p).part_message chunk ≡ ok (ms, part)
        → All IsText (all_replies lib (from p ms) m.host.store)
        → (l : Net) × Step b lib IsPeer m (host_got p chunk) l
    read_step p chunk rest part ms q front few run texts =
        let (g, fs, step, x, y, z) =
          arrive_lem b lib p chunk part ms m.host
            (subst (IsUtf8Store lib) (sym h.stored) (store_after-IsUtf8Store lib m.log store utf8))
            (h.pairs p q).ready run
            (texts-IsSendable (all_replies lib (from p ms) m.host.store) texts) in
        (_, host_reads p chunk rest part ms q front few run texts step)

    offered : (e : Event) → Offered e m → (l : Net) × Step b lib IsPeer m e l
    offered (given p msg) (q, text) =
        let (d, es, run, k) =
          Pair-send lib store m.log p m.host.server (m.client p) (m.up p) (m.down p)
            (m.client_writes p) (m.server_writes p) (m.sent p) (m.received p) msg text
            (h.pairs p q) in
        (_, sends p msg q text run)
    offered (client_wrote p bytes) (q, w, one) =
        let (d, es, run, k) =
          Pair-client_ends lib store m.log p m.host.server (m.client p) (m.up p) (m.down p) w
            (m.server_writes p) bytes (m.sent p) (m.received p)
            (subst
              (λ i.
                Pair lib store m.log p m.host.server (m.client p) (m.up p) (m.down p) i
                  (m.server_writes p) (m.sent p) (m.received p))
              one (h.pairs p q)) in
        (_, client_ends p bytes w q one run)
    offered (host_got p chunk) (q, rest, front, few, texts) =
        let k = h.pairs p q in
        let (done, left, part, split, run, complete, side) =
          Side-read b (m.host.server.objects p).part_message (m.up p) chunk rest (m.client p)
            (m.client_writes p) k.asked front few k.asking in
        read_step p chunk rest part done q front few run (texts done part run)
    offered (host_wrote p bytes) (q, w, one) =
        let (t, fs, run, k, others) =
          Pair-host_ends lib store m.log p m.host.server (m.client p) (m.up p) (m.down p)
            (m.client_writes p) w bytes (m.sent p) (m.received p)
            (subst
              (λ i.
                Pair lib store m.log p m.host.server (m.client p) (m.up p) (m.down p)
                  (m.client_writes p) i (m.sent p) (m.received p))
              one (h.pairs p q)) in
        (_, host_ends p bytes w q one run)
    offered (client_got p chunk) (q, rest, front, few) =
        let (d, es, run, k) =
          Pair-client_reads lib store m.log p m.host.server b (m.client p) (m.up p) (m.down p)
            (m.client_writes p) (m.server_writes p) (m.sent p) (m.received p) chunk rest front few
            (h.pairs p q) in
        (_, client_reads p chunk rest q front few run)

  -- Let clients send only messages of two bytes or more, fewer than 2 ^ 60 bytes. In every state
  -- that clients and a host can reach from new connections, whatever may happen next can happen:
  -- `send` of such a message at a client, `handle_read` with any of the first bytes on the way, and
  -- `handle_write` of a write in flight all return, the slots that they call included, where the
  -- replies to what arrives at the host are texts.
  pub Reach-offered :
      {n m : Net}
      → Begun lib IsPeer n
      → Reach b lib IsPeer n m
      → (e : Event) → Offered e m
      → (l : Net) × Step b lib IsPeer m e l
  Reach-offered {n} {m} begun run e h =
      offered n.host.store begun.utf8 m (reached b lib IsPeer begun run) e h
