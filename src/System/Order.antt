-- ===== src/System/Order.antt =====
-- What the clients of a host observe in every interleaving: order, completeness and no failure.
use diginext.Base.{
  ℕ, ◌≡◌, refl, sym, ap, ◌∙◌, subst, inl, inr, true, some, false, List, [], ◌∷◌, ◌++◌, append_assoc,
  append-nil, flatten, arith,
}
use diginext.Base64.Reference.{reference}
use diginext.Tcp.Message.{Splitter, delimiter, IsFresh}
use diginext.Tcp.Connection.{Connection, read_message}
use diginext.Tcp.Channel.{frames_of}
use diginext.Tcp.Server.Readiness.{Ready}
use diginext.Storage.Json.{JsonLib}
use diginext.Storage.Server.Branches.{IsUtf8Store}
use diginext.Storage.Host.Queues.{store_after, replies_to}
use diginext.Storage.Host.Requests.{of_one}
use diginext.System.{Net, Reach}
use diginext.System.Peers.{Side}
use diginext.System.Invariant.{Invariant}
use diginext.System.Invariant.Host.{Reach-Invariant}

-- A connection that has been started, with nothing queued and nothing read.
abbrev pub Idle : Connection → Type 0
Idle c =
    (c.send_start ≡ some false)
    × (c.send_buffer ≡ [])
    × (c.part_message ≡ [])
    × (c.message ≡ [])
    × (c.slots read_message ≡ true)

-- A client that has just connected.
pub record Connected (n : Net) (p : ℕ) : Type 0 where
  pub ready : Ready n.host.server p
  pub at_host : Idle (n.host.server.objects p)
  pub at_client : Idle (n.client p)
  pub up : n.up p ≡ []
  pub down : n.down p ≡ []
  pub client_writes : n.client_writes p ≡ 0
  pub server_writes : n.server_writes p ≡ 0
  pub sent : n.sent p ≡ []
  pub received : n.received p ≡ []

-- Every client has just connected, and the host's store holds UTF-8.
pub record Begun (lib : JsonLib) (IsPeer : ℕ → Type 0) (n : Net) : Type 0 where
  pub connected : (p : ℕ) → IsPeer p → Connected n p
  pub log : n.log ≡ []
  pub utf8 : IsUtf8Store lib n.host.store

Side-idle :
    (part wire : List ℕ) (c : Connection) (w : ℕ)
    → part ≡ []
    → wire ≡ []
    → w ≡ 0
    → Idle c
    → Side part wire c w []
Side-idle part wire c w e f g (start, buffer, x, y, z) = record {
  rest = [];
  flight = inl (start, buffer, g, refl);
  stream = rw (e, f) refl;
  texts = tt;
  short = rw e (omega arith);
  fresh = rw e tt;
}

Begun-Invariant :
    (lib : JsonLib) (IsPeer : ℕ → Type 0) (n : Net)
    → Begun lib IsPeer n
    → Invariant lib n.host.store IsPeer n
unfolding of_one replies_to store_after
Begun-Invariant lib IsPeer n h = record {
  pairs = λ p q.
      let c : Connected n p = h.connected p q in
      record {
        ready = c.ready;
        has_slot = c.at_client.4;
        no_bytes = c.at_client.3;
        asked = [];
        answers = [];
        asking =
            Side-idle (n.host.server.objects p).part_message (n.up p) (n.client p)
              (n.client_writes p) c.at_host.2 c.up c.client_writes c.at_client;
        answering =
            Side-idle (n.client p).part_message (n.down p) (n.host.server.objects p)
              (n.server_writes p) c.at_client.2 c.down c.server_writes c.at_host;
        order = c.sent ∙ ap (λ l. of_one p l ++ []) (sym h.log);
        replies =
            ap (λ l. replies_to lib p l n.host.store) h.log ∙ ap (λ l. l ++ []) (sym c.received);
      };
  stored = ap (λ l. store_after lib l n.host.store) (sym h.log);
}

behind_frame : (xs ys : List ℕ) → IsFresh (xs ++ delimiter ∷ ys) → ⊥
behind_frame [] ys h = h.0 refl
behind_frame (x ∷ xs) ys h = behind_frame xs ys h.1

no_frames :
    (part : List ℕ) (todo : List (List ℕ))
    → IsFresh part
    → part ≡ flatten (frames_of todo)
    → todo ≡ []
no_frames part [] h e = refl
no_frames part (m ∷ todo) h e = absurd (
    behind_frame (reference m) (flatten (frames_of todo)) (
      subst IsFresh (e ∙ append_assoc (reference m) (delimiter ∷ []) (flatten (frames_of todo))) h))

-- Nothing is on the way in a direction with no bytes between the ends and no write in flight.
Side-quiet :
    (part wire : List ℕ) (c : Connection) (w : ℕ) (todo : List (List ℕ))
    → wire ≡ []
    → w ≡ 0
    → Side part wire c w todo
    → todo ≡ []
Side-quiet part wire c w todo e f s = elim s.flight [
  | inl (x, y, z, r) ↦ no_frames part todo s.fresh (
      sym (append-nil part)
      ∙ ap (λ l. part ++ (l ++ [])) (sym e)
      ∙ ap (λ l. part ++ (wire ++ flatten l)) (sym r)
      ∙ s.stream)
  | inr (g, x, y, z) ↦ absurd (omega (arith, z, f))
]

module _ (b : Splitter) (lib : JsonLib) (IsPeer : ℕ → Type 0) {n m : Net}
    (begun : Begun lib IsPeer n) (run : Reach b lib IsPeer n m) where
  pub reached : Invariant lib n.host.store IsPeer m
  reached =
      Reach-Invariant b lib n.host.store IsPeer begun.utf8 (Begun-Invariant lib IsPeer n begun) run

  -- Let clients send only messages of two bytes or more, fewer than 2 ^ 60 bytes. In every state
  -- that clients and a host can reach from new connections, in any interleaving of
  -- their handlers and with reads of any size, the messages of a client that the host has handled
  -- are the first ones that the client has sent, in order; what the client has received is the
  -- first of the replies to them, in order; and the store is the one after all handled messages.
  pub Reach-replies_to :
      (p : ℕ)
      → IsPeer p
      → (asked answers : List (List ℕ)) × (m.sent p ≡ of_one p m.log ++ asked)
        × (replies_to lib p m.log n.host.store ≡ m.received p ++ answers)
        × (m.host.store ≡ store_after lib m.log n.host.store)
  Reach-replies_to p q =
      let k = reached.pairs p q in (k.asked, k.answers, k.order, k.replies, reached.stored)

  -- Let clients send only messages of two bytes or more, fewer than 2 ^ 60 bytes. Once no byte is
  -- on its way between a client and the host and no write of either is in flight,
  -- the host has handled every message of the client, in order, and the client has received exactly
  -- the replies to them.
  pub Reach-quiet :
      (p : ℕ)
      → IsPeer p
      → m.up p ≡ []
      → m.client_writes p ≡ 0
      → m.down p ≡ []
      → m.server_writes p ≡ 0
      → (of_one p m.log ≡ m.sent p) × (m.received p ≡ replies_to lib p m.log n.host.store)
  Reach-quiet p q up writes down back =
      let k = reached.pairs p q in
      (
        sym (append-nil (of_one p m.log))
            ∙ ap (λ l. of_one p m.log ++ l)
                (sym (
                  Side-quiet (m.host.server.objects p).part_message (m.up p) (m.client p)
                    (m.client_writes p) k.asked up writes k.asking))
            ∙ sym k.order,
        sym (append-nil (m.received p))
            ∙ ap (λ l. m.received p ++ l)
                (sym (
                  Side-quiet (m.client p).part_message (m.down p) (m.host.server.objects p)
                    (m.server_writes p) k.answers down back k.answering))
            ∙ sym k.replies,
      )
