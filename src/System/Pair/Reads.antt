-- ===== src/System/Pair/Reads.antt =====
-- What a read of the host does to each client and its connection: the host handles the messages
-- that the read makes complete, and its replies are on their way.
use diginext.Base.{
  All-split, ok_injective, ℕ, ◌+◌, ◌<◌, ◌^◌, ◌≡◌, refl, sym, ap, ◌∙◌, subst, inl, inr, Bool-cases,
  true, false, List, [], ◌∷◌, ◌++◌, append_assoc, flatten, length, All, All-append, ok,
  if◌then◌else◌, ◌==◌, arith,
}
use diginext.Tcp.Message.{Splitter, read_bytes}
use diginext.Tcp.Connection.{Connection}
use diginext.Tcp.Channel.{IsText, frames_of}
use diginext.Tcp.Server.{Server}
use diginext.Tcp.Server.Sending.{Grown}
use diginext.Storage.Json.{JsonLib}
use diginext.Storage.Server.{Store}
use diginext.Storage.Server.Replies.{interpret, next_store}
use diginext.Storage.Host.Queues.{texts_for, replies_to, all_replies, store_after}
use diginext.Storage.Host.Logs.{replies_to-append}
use diginext.Storage.Host.Requests.{of_one}
use diginext.Storage.Host.Arrival.{from, after_read, kept_by_read}
use diginext.Storage.Host.Served.{Ready-kept, parts_kept}
use diginext.System.Peers.{Side, Side-grown, Side-read, Side-kept}
use diginext.System.Pair.{Pair}

pub of_one-append :
    (k : ℕ) (xs ys : List (ℕ × List ℕ)) → of_one k (xs ++ ys) ≡ of_one k xs ++ of_one k ys
unfolding of_one
of_one-append k [] ys = refl
of_one-append k ((q, x) ∷ xs) ys = elim (Bool-cases (q == k)) [
  | inl e ↦ rw e (ap (λ l. x ∷ l) (of_one-append k xs ys))
  | inr e ↦ rw e (of_one-append k xs ys)
]

pub of_one-from :
    (k p : ℕ) (ms : List (List ℕ)) → of_one k (from p ms) ≡ (if k == p then ms else [])
unfolding of_one
of_one-from k p [] = ground arith
of_one-from k p (m ∷ ms) = elim (Bool-cases (k == p)) [
  | inl e ↦ rw (e, same k p e) (ap (λ l. m ∷ l) (of_one-from k p ms ∙ rw e refl))
  | inr e ↦ rw (e, other k p e) (of_one-from k p ms ∙ rw e refl)
]
  where
    same : (k p : ℕ) → (k == p) ≡ true → (p == k) ≡ true
    same k p e = ground (arith, e)

    other : (k p : ℕ) → (k == p) ≡ false → (p == k) ≡ false
    other k p e = ground (arith, e)

from-own : (k p : ℕ) (ms : List (List ℕ)) → (k == p) ≡ true → ms ≡ of_one k (from p ms)
from-own k p ms e = sym (of_one-from k p ms ∙ rw e refl)

from-other : (k p : ℕ) (ms : List (List ℕ)) → (k == p) ≡ false → [] ≡ of_one k (from p ms)
from-other k p ms e = sym (of_one-from k p ms ∙ rw e refl)

All-replies_to :
    (lib : JsonLib) (k : ℕ) (log : List (ℕ × List ℕ)) (store : Store)
    → All IsText (all_replies lib log store)
    → All IsText (replies_to lib k log store)
unfolding all_replies replies_to
All-replies_to lib k [] store h = tt
All-replies_to lib k ((q, msg) ∷ log) store h =
    let (now, later) = All-split IsText (texts_for lib msg store) _ h in
    elim (Bool-cases (q == k)) [
      | inl e ↦ rw e (
          All-append _ (texts_for lib msg store) _ now
            (All-replies_to lib k log (next_store (interpret lib msg) store) later))
      | inr e ↦ rw e (All-replies_to lib k log (next_store (interpret lib msg) store) later)
    ]

-- What a read leaves on the way to the host.
asked_after :
    (b : Splitter) (k p : ℕ) (before chunk part up left : List ℕ) (ms : List (List ℕ))
    (c : Connection) (m : ℕ) (asked : List (List ℕ))
    → length chunk < 2 ^ 61
    → ((k == p) ≡ true → (up ≡ chunk ++ left) × (read_bytes b before chunk ≡ ok (ms, part)))
    → Side before up c m asked
    → (more : List (List ℕ)) × (asked ≡ of_one k (from p ms) ++ more)
      × Side (if k == p then part else before) (if k == p then left else up) c m more
asked_after b k p before chunk part up left ms c m asked few own side = elim (Bool-cases (k == p)) [
  | inl e ↦
      let (done, more, part', split, run, texts, after) =
        Side-read b before up chunk left c m asked (own e).0 few side in
      let same : (done, part') ≡ (ms, part) = ok_injective _ _ (sym run ∙ (own e).1) in
      (
        more,
        split ∙ ap (λ l. l ++ more) (ap (λ r. r.0) same ∙ from-own k p ms e),
        rw e (subst (λ x. Side x left c m more) (ap (λ r. r.1) same) after),
      )
  | inr e ↦ (asked, ap (λ l. l ++ asked) (from-other k p ms e), rw e side)
]

module _ (b : Splitter) (lib : JsonLib) (store : Store) (log : List (ℕ × List ℕ)) (p : ℕ)
    (chunk part left : List ℕ) (ms : List (List ℕ)) (s u : Server) (begun : ℕ → List (List ℕ))
    (few : length chunk < 2 ^ 61) (listed : u.connections ≡ s.connections)
    (texts : All IsText (all_replies lib (from p ms) (store_after lib log store)))
    (grown : (k : ℕ)
      → Grown
          (frames_of (replies_to lib k (from p ms) (store_after lib log store)))
          ((after_read p part s).objects k)
          (u.objects k)
          (begun k)) where
  pub Pair-host_reads :
      (k : ℕ) (c : Connection) (up down : List ℕ) (m n : ℕ) (sent received : List (List ℕ))
      → ((k == p) ≡ true
          → (up ≡ chunk ++ left) × (read_bytes b (s.objects k).part_message chunk ≡ ok (ms, part)))
      → Pair lib store log k s c up down m n sent received
      → Pair lib store
          (log ++ from p ms)
          k
          u
          c
          (if k == p then left else up)
          (down ++ flatten (begun k))
          m
          (n + length (begun k))
          sent
          received
  Pair-host_reads k c up down m n sent received own q =
      let (more, split, side) =
        asked_after b k p (s.objects k).part_message chunk part up left ms c m q.asked few own
          q.asking in
      record {
        ready =
            Ready-kept s p part u
              (λ j. frames_of (replies_to lib j (from p ms) (store_after lib log store))) begun
              listed grown k q.ready;
        has_slot = q.has_slot;
        no_bytes = q.no_bytes;
        asked = more;
        answers = q.answers ++ replies_to lib k (from p ms) (store_after lib log store);
        asking =
            subst (λ x. Side x (if k == p then left else up) c m more)
              (parts_kept s p part u
                (λ j. frames_of (replies_to lib j (from p ms) (store_after lib log store))) begun
                listed grown (λ j. (s.objects j).part_message) (λ j. refl) k)
              side;
        answering =
            Side-grown c.part_message down ((after_read p part s).objects k) (u.objects k) n
              q.answers (replies_to lib k (from p ms) (store_after lib log store)) (begun k)
              (All-replies_to lib k (from p ms) (store_after lib log store) texts) (grown k).moved
              (Side-kept c.part_message down (s.objects k) ((after_read p part s).objects k) n
                q.answers (kept_by_read (λ o. o.send_start) s p part refl k)
                (kept_by_read (λ o. o.send_buffer) s p part refl k) q.answering);
        order =
            q.order
            ∙ ap (λ l. of_one k log ++ l) split
            ∙ sym (append_assoc (of_one k log) (of_one k (from p ms)) more)
            ∙ ap (λ l. l ++ more) (sym (of_one-append k log (from p ms)));
        replies =
            replies_to-append lib k log (from p ms) store
            ∙ ap (λ l. l ++ replies_to lib k (from p ms) (store_after lib log store)) q.replies
            ∙ append_assoc received q.answers _;
      }
