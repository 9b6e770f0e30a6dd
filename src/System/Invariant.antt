-- ===== src/System/Invariant.antt =====
-- What every step of the system keeps: each message and each reply is either handled, or on its way
-- in order. The steps of the clients keep it.
pub mod Host
use diginext.Base.{
  ok_injective, ℕ, suc, ◌+◌, ◌<◌, ◌^◌, ◌≡◌, refl, sym, ap, ◌∙◌, subst, inl, inr, Bool-cases, none,
  true, some, false, List, [], ◌∷◌, ◌++◌, flatten, length, All, ok, if◌then◌else◌, ◌==◌, arith,
}
use diginext.Tcp.Message.{Splitter, read_bytes}
use diginext.Tcp.Connection.{Connection, Effect, send, handle_write, handle_read, read_message}
use diginext.Tcp.Server.{Server, ServerEffect, call}
use diginext.Tcp.Connection.Writer.{writes_of}
use diginext.Tcp.Connection.Reader.{messages_of}
use diginext.Tcp.Channel.{IsText, frames_of, texts-IsSendable}
use diginext.Tcp.Server.Lookup.{same_pointer}
use diginext.Tcp.Server.Sending.{Grown, writes_at}
use diginext.Tcp.Server.Readiness.{Ready}
use diginext.Storage.Json.{JsonLib}
use diginext.Storage.Server.{Store}
use diginext.Storage.Server.Branches.{IsUtf8Store}
use diginext.Storage.Host.Queues.{store_after, all_replies, replies_to}
use diginext.Storage.Host.Logs.{store_after-append, store_after-IsUtf8Store}
use diginext.Storage.Host.Requests.{of_one}
use diginext.Storage.Host.Arrival.{arrive, after_read, from}
use diginext.Storage.Host.Served.{arrive_lem}
use diginext.System.{
  Net, update, Step, sends, client_ends, host_reads, host_ends, client_reads, Reach, here, next,
}
use diginext.System.Pair.{Pair, Pair-send, Pair-client_ends, Pair-client_reads}
use diginext.System.Pair.Host.{Pair-other, Pair-host_ends}
use diginext.System.Pair.Reads.{Pair-host_reads}

module _ (lib : JsonLib) (store : Store) (IsPeer : ℕ → Type 0) where
  abbrev pub PairAt : Net → ℕ → Type 0
  PairAt n k =
      Pair lib store n.log k n.host.server (n.client k) (n.up k) (n.down k) (n.client_writes k)
        (n.server_writes k) (n.sent k) (n.received k)

  pub record Invariant (n : Net) : Type 0 where
    pub pairs : (k : ℕ) → IsPeer k → PairAt n k
    pub stored : n.host.store ≡ store_after lib n.log store

module _ (b : Splitter) (lib : JsonLib) (store : Store) (IsPeer : ℕ → Type 0) where
  module _ (n : Net) (h : Invariant lib store IsPeer n) where
    pub sends-Invariant :
        (p : ℕ) (msg : List ℕ) (c : Connection) (es : List Effect)
        → IsPeer p
        → IsText msg
        → send msg (n.client p) ≡ ok (c, es)
        → Invariant lib store IsPeer (record n {
          client = update n.client p c;
          up = update n.up p (n.up p ++ flatten (writes_of es));
          client_writes = update n.client_writes p (n.client_writes p + length (writes_of es));
          sent = update n.sent p (n.sent p ++ msg ∷ []);
        })
    sends-Invariant p msg c es peer text run =
        let (d, fs, run', own) =
          Pair-send lib store n.log p n.host.server (n.client p) (n.up p) (n.down p)
            (n.client_writes p) (n.server_writes p) (n.sent p) (n.received p) msg text
            (h.pairs p peer) in
        record {
          pairs = λ k q. elim (Bool-cases (k == p)) [
            | inl e ↦ rw e (
                subst
                  (λ j.
                    Pair lib store n.log j n.host.server c (n.up p ++ flatten (writes_of es))
                      (n.down j) (n.client_writes p + length (writes_of es)) (n.server_writes j)
                      (n.sent p ++ msg ∷ []) (n.received j))
                  (sym (same_pointer k p e))
                  (subst
                    (λ r.
                      Pair lib store n.log p n.host.server r.0 (n.up p ++ flatten (writes_of r.1))
                        (n.down p) (n.client_writes p + length (writes_of r.1)) (n.server_writes p)
                        (n.sent p ++ msg ∷ []) (n.received p))
                    (ok_injective (d, fs) (c, es) (sym run' ∙ run)) own))
            | inr e ↦ rw e (h.pairs k q)
          ];
          stored = h.stored;
        }

    pub client_ends-Invariant :
        (p bytes w : ℕ) (c : Connection) (es : List Effect)
        → IsPeer p
        → n.client_writes p ≡ suc w
        → handle_write none bytes (n.client p) ≡ ok (c, es)
        → Invariant lib store IsPeer (record n {
          client = update n.client p c;
          up = update n.up p (n.up p ++ flatten (writes_of es));
          client_writes = update n.client_writes p (w + length (writes_of es));
        })
    client_ends-Invariant p bytes w c es peer one run =
        let (d, fs, run', own) =
          Pair-client_ends lib store n.log p n.host.server (n.client p) (n.up p) (n.down p) w
            (n.server_writes p) bytes (n.sent p) (n.received p)
            (subst
              (λ i.
                Pair lib store n.log p n.host.server (n.client p) (n.up p) (n.down p) i
                  (n.server_writes p) (n.sent p) (n.received p))
              one (h.pairs p peer)) in
        record {
          pairs = λ k q. elim (Bool-cases (k == p)) [
            | inl e ↦ rw e (
                subst
                  (λ j.
                    Pair lib store n.log j n.host.server c (n.up p ++ flatten (writes_of es))
                      (n.down j) (w + length (writes_of es)) (n.server_writes j) (n.sent j)
                      (n.received j))
                  (sym (same_pointer k p e))
                  (subst
                    (λ r.
                      Pair lib store n.log p n.host.server r.0 (n.up p ++ flatten (writes_of r.1))
                        (n.down p) (w + length (writes_of r.1)) (n.server_writes p) (n.sent p)
                        (n.received p))
                    (ok_injective (d, fs) (c, es) (sym run' ∙ run)) own))
            | inr e ↦ rw e (h.pairs k q)
          ];
          stored = h.stored;
        }

    pub client_reads-Invariant :
        (p : ℕ) (chunk rest : List ℕ) (c : Connection) (es : List Effect)
        → IsPeer p
        → n.down p ≡ chunk ++ rest
        → length chunk < 2 ^ 61
        → handle_read b none
            (length chunk)
            (record (n.client p) { message = (n.client p).message ++ chunk })
          ≡ ok (c, es)
        → Invariant lib store IsPeer (record n {
          client = update n.client p c;
          down = update n.down p rest;
          received = update n.received p (n.received p ++ messages_of es);
        })
    client_reads-Invariant p chunk rest c es peer front few run =
        let (d, fs, run', own) =
          Pair-client_reads lib store n.log p n.host.server b (n.client p) (n.up p) (n.down p)
            (n.client_writes p) (n.server_writes p) (n.sent p) (n.received p) chunk rest front few
            (h.pairs p peer) in
        record {
          pairs = λ k q. elim (Bool-cases (k == p)) [
            | inl e ↦ rw e (
                subst
                  (λ j.
                    Pair lib store n.log j n.host.server c (n.up j) rest (n.client_writes j)
                      (n.server_writes j) (n.sent j) (n.received p ++ messages_of es))
                  (sym (same_pointer k p e))
                  (subst
                    (λ r.
                      Pair lib store n.log p n.host.server r.0 (n.up p) rest (n.client_writes p)
                        (n.server_writes p) (n.sent p) (n.received p ++ messages_of r.1))
                    (ok_injective (d, fs) (c, es) (sym run' ∙ run)) own))
            | inr e ↦ rw e (h.pairs k q)
          ];
          stored = h.stored;
        }
