-- ===== src/System/Invariant/Host.antt =====
-- The steps of the host keep the invariant, and so does every step.
use diginext.Base.{
  ok_injective, ℕ, suc, ◌+◌, ◌<◌, ◌^◌, ◌≡◌, sym, ap, ◌∙◌, subst, inl, inr, Bool-cases, none, List,
  ◌++◌, flatten, length, All, ok, if◌then◌else◌, ◌==◌,
}
use diginext.Tcp.Message.{Splitter, read_bytes}
use diginext.Tcp.Connection.{handle_write}
use diginext.Tcp.Server.{Server, ServerEffect, call}
use diginext.Tcp.Channel.{IsText, frames_of, texts-IsSendable}
use diginext.Tcp.Server.Lookup.{same_pointer}
use diginext.Tcp.Server.Sending.{Grown, writes_at}
use diginext.Storage.Json.{JsonLib}
use diginext.Storage.Server.{Store}
use diginext.Storage.Server.Branches.{IsUtf8Store}
use diginext.Storage.Host.Queues.{store_after, all_replies, replies_to}
use diginext.Storage.Host.Logs.{store_after-append, store_after-IsUtf8Store}
use diginext.Storage.Host.Arrival.{arrive, after_read, from}
use diginext.Storage.Host.{Host}
use diginext.Storage.Host.Served.{arrive_lem}
use diginext.System.{
  Net, Event, update, Step, sends, client_ends, host_reads, host_ends, client_reads, Reach, here,
  next,
}
use diginext.System.Pair.{Pair}
use diginext.System.Pair.Host.{Pair-other, Pair-host_ends}
use diginext.System.Pair.Reads.{Pair-host_reads}
use diginext.System.Invariant.{
  Invariant, sends-Invariant, client_ends-Invariant, client_reads-Invariant,
}

module _ (b : Splitter) (lib : JsonLib) (store : Store) (IsPeer : ℕ → Type 0) where
  module _ (n : Net) (h : Invariant lib store IsPeer n) where
    host_ends-Invariant :
        (p bytes w : ℕ) (s : Server) (fs : List ServerEffect)
        → IsPeer p
        → n.server_writes p ≡ suc w
        → call p (handle_write none bytes) n.host.server ≡ ok (s, fs)
        → Invariant lib store IsPeer (record n {
          host = record (n.host) { server = s };
          down = update n.down p (n.down p ++ flatten (writes_at p fs));
          server_writes = update n.server_writes p (w + length (writes_at p fs));
        })
    host_ends-Invariant p bytes w s fs peer one run =
        let (t, gs, run', own, others) =
          Pair-host_ends lib store n.log p n.host.server (n.client p) (n.up p) (n.down p)
            (n.client_writes p) w bytes (n.sent p) (n.received p)
            (subst
              (λ i.
                Pair lib store n.log p n.host.server (n.client p) (n.up p) (n.down p)
                  (n.client_writes p) i (n.sent p) (n.received p))
              one (h.pairs p peer)) in
        let same : (t, gs) ≡ (s, fs) = ok_injective _ _ (sym run' ∙ run) in
        record {
          pairs = λ k q. elim (Bool-cases (k == p)) [
            | inl e ↦ rw e (
                subst
                  (λ j.
                    Pair lib store n.log j s (n.client j) (n.up j)
                      (n.down p ++ flatten (writes_at p fs)) (n.client_writes j)
                      (w + length (writes_at p fs)) (n.sent j) (n.received j))
                  (sym (same_pointer k p e))
                  (subst
                    (λ r.
                      Pair lib store n.log p r.0 (n.client p) (n.up p)
                        (n.down p ++ flatten (writes_at p r.1)) (n.client_writes p)
                        (w + length (writes_at p r.1)) (n.sent p) (n.received p))
                    same own))
            | inr e ↦ rw e (
                subst
                  (λ r.
                    Pair lib store n.log k r.0 (n.client k) (n.up k) (n.down k) (n.client_writes k)
                      (n.server_writes k) (n.sent k) (n.received k))
                  same
                  (Pair-other lib store n.log p k n.host.server t (n.client k) (n.up k) (n.down k)
                    (n.client_writes k) (n.server_writes k) (n.sent k) (n.received k) others e
                    (h.pairs k q)))
          ];
          stored = h.stored;
        }

    host_reads-Invariant :
        (p : ℕ) (chunk rest part : List ℕ) (ms : List (List ℕ)) (g : Host) (fs : List ServerEffect)
        → IsUtf8Store lib store
        → IsPeer p
        → n.up p ≡ chunk ++ rest
        → length chunk < 2 ^ 61
        → read_bytes b (n.host.server.objects p).part_message chunk ≡ ok (ms, part)
        → All IsText (all_replies lib (from p ms) n.host.store)
        → arrive b lib p chunk n.host ≡ ok (g, fs)
        → Invariant lib store IsPeer (record n {
          host = g;
          up = update n.up p rest;
          down = λ k. n.down k ++ flatten (writes_at k fs);
          server_writes = λ k. n.server_writes k + length (writes_at k fs);
          log = n.log ++ from p ms;
        })
    host_reads-Invariant p chunk rest part ms g fs utf8 peer front few read texts run =
        let (h', gs, run', store', listed, grown) =
          arrive_lem b lib p chunk part ms n.host
            (subst (IsUtf8Store lib) (sym h.stored) (store_after-IsUtf8Store lib n.log store utf8))
            (h.pairs p peer).ready read
            (texts-IsSendable (all_replies lib (from p ms) n.host.store) texts) in
        let same : (h', gs) ≡ (g, fs) = ok_injective _ _ (sym run' ∙ run) in
        record {
          pairs = λ k q.
              subst
                (λ r.
                  Pair lib store (n.log ++ from p ms) k r.0.server (n.client k)
                    (if k == p then rest else n.up k) (n.down k ++ flatten (writes_at k r.1))
                    (n.client_writes k) (n.server_writes k + length (writes_at k r.1)) (n.sent k)
                    (n.received k))
                same
                (Pair-host_reads b lib store n.log p chunk part rest ms n.host.server h'.server
                  (λ j. writes_at j gs) few listed
                  (subst (λ x. All IsText (all_replies lib (from p ms) x)) h.stored texts)
                  (λ j.
                    subst
                      (λ x.
                        Grown (frames_of (replies_to lib j (from p ms) x))
                          ((after_read p part n.host.server).objects j) (h'.server.objects j)
                          (writes_at j gs))
                      h.stored (grown j))
                  k (n.client k) (n.up k) (n.down k) (n.client_writes k) (n.server_writes k)
                  (n.sent k) (n.received k)
                  (λ e. (
                    ap n.up (same_pointer k p e) ∙ front,
                    ap (λ j. read_bytes b (n.host.server.objects j).part_message chunk)
                          (same_pointer k p e)
                        ∙ read,
                  ))
                  (h.pairs k q));
          stored =
              ap (λ r. r.0.store) (sym same)
              ∙ store'
              ∙ ap (store_after lib (from p ms)) h.stored
              ∙ sym (store_after-append lib n.log (from p ms) store);
        }

  -- Every step keeps it.
  pub Step-Invariant :
      (n m : Net) (e : Event)
      → IsUtf8Store lib store
      → Step b lib IsPeer n e m
      → Invariant lib store IsPeer n
      → Invariant lib store IsPeer m
  Step-Invariant n m e utf8 (sends {c} {es} p msg peer text run) h =
      sends-Invariant b lib store IsPeer n h p msg c es peer text run
  Step-Invariant n m e utf8 (client_ends {c} {es} p bytes w peer one run) h =
      client_ends-Invariant b lib store IsPeer n h p bytes w c es peer one run
  Step-Invariant n m e utf8
        (host_reads {h = g} {fs} p chunk rest part ms peer front few read texts run) h =
      host_reads-Invariant n h p chunk rest part ms g fs utf8 peer front few read texts run
  Step-Invariant n m e utf8 (host_ends {s} {fs} p bytes w peer one run) h =
      host_ends-Invariant n h p bytes w s fs peer one run
  Step-Invariant n m e utf8 (client_reads {c} {es} p chunk rest peer front few run) h =
      client_reads-Invariant b lib store IsPeer n h p chunk rest c es peer front few run

  pub Reach-Invariant :
      {n m : Net}
      → IsUtf8Store lib store
      → Invariant lib store IsPeer n
      → Reach b lib IsPeer n m
      → Invariant lib store IsPeer m
  Reach-Invariant utf8 h here = h
  Reach-Invariant utf8 h (next {m} {l} {e} run step) =
      Step-Invariant m l e utf8 step (Reach-Invariant utf8 h run)
