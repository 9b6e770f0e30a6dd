-- ===== src/System/Answer.antt =====
-- The answer of a `StorageClient` among other clients of one host.
use diginext.Base.{
  ℕ, ◌≡◌, refl, sym, ap, ◌∙◌, Bool-cases, inl, inr, none, List, [], ◌∷◌, ◌++◌, append_assoc,
  append-nil, ◌==◌, arith,
}
use diginext.Tcp.Message.{Splitter}
use diginext.Tcp.Server.Lookup.{same_pointer}
use diginext.Storage.Json.{JsonLib}
use diginext.Storage.Server.{Store}
use diginext.Storage.Server.Replies.{read_of, next_store, interpret, text_of}
use diginext.Storage.Server.Runs.{read_reply, last_write}
use diginext.Storage.Client.{StorageClient, handle_effects}
use diginext.Storage.Client.Answer.{signals, answer_last}
use diginext.Storage.Host.Queues.{replies_to}
use diginext.Storage.Host.Logs.{replies_to-append}
use diginext.Storage.Host.Shared.{texts, replies-last_write}
use diginext.Storage.Host.Requests.{of_one}
use diginext.System.{Net, Reach}
use diginext.System.Order.{Begun, Reach-quiet}

-- Where the last message of a client stands in the log.
last_of_one :
    (p : ℕ) (msg : List ℕ) (ms : List (List ℕ)) (log : List (ℕ × List ℕ))
    → of_one p log ≡ ms ++ msg ∷ []
    → (before after : List (ℕ × List ℕ)) × (log ≡ before ++ (p, msg) ∷ after)
      × (of_one p after ≡ [])
unfolding of_one
last_of_one p msg [] [] e = absurd (ground (arith, e))
last_of_one p msg (m ∷ ms) [] e = absurd (ground (arith, e))
last_of_one p msg [] ((q, x) ∷ log) e = elim (Bool-cases (q == p)) [
  | inl y ↦
      let now : ◌≡◌ {A = List (List ℕ)} (x ∷ of_one p log) (msg ∷ []) = rw y at e in
      (
        [],
        log,
        ap (λ k. (k, x) ∷ log) (same_pointer q p y) ∙ ap (λ l. (p, l) ∷ log) (ground (arith, now)),
        ground (arith, now),
      )
  | inr n ↦
      let (before, after, split, none_left) = last_of_one p msg [] log (rw n at e) in
      ((q, x) ∷ before, after, ap (λ l. (q, x) ∷ l) split, none_left)
]
last_of_one p msg (m ∷ ms) ((q, x) ∷ log) e = elim (Bool-cases (q == p)) [
  | inl y ↦
      let now : x ∷ of_one p log ≡ m ∷ (ms ++ msg ∷ []) = rw y at e in
      let (before, after, split, none_left) = last_of_one p msg ms log (ground (arith, now)) in
      ((q, x) ∷ before, after, ap (λ l. (q, x) ∷ l) split, none_left)
  | inr n ↦
      let (before, after, split, none_left) = last_of_one p msg (m ∷ ms) log (rw n at e) in
      ((q, x) ∷ before, after, ap (λ l. (q, x) ∷ l) split, none_left)
]

module _ (lib : JsonLib) where
  replies_to-none :
      (p : ℕ) (log : List (ℕ × List ℕ)) (store : Store)
      → of_one p log ≡ []
      → replies_to lib p log store ≡ []
  unfolding of_one replies_to
  replies_to-none p [] store e = refl
  replies_to-none p ((q, x) ∷ log) store e = elim (Bool-cases (q == p)) [
    | inl y ↦ absurd (ground (arith, e, y))
    | inr n ↦ rw n (replies_to-none p log (next_store (interpret lib x) store) (rw n at e))
  ]

  -- Let clients send only messages of two bytes or more, fewer than 2 ^ 60 bytes. A client of a
  -- host with an empty map has sent a request to read a key as its last message, no
  -- byte is on its way between the two, and no write of either is in flight. Then the client's
  -- answer is the reply with the value of the last complete write of that key that the host handled
  -- before the request, by any of the clients, or with the error that the key is not in the storage
  -- if none had written it.
  pub Reach-last_write :
      (b : Splitter) (IsPeer : ℕ → Type 0) {n m : Net} (p : ℕ) (msg key : List ℕ)
      (ms : List (List ℕ)) (c : StorageClient)
      → Begun lib IsPeer n
      → ((k : List ℕ) → n.host.store k ≡ none)
      → Reach b lib IsPeer n m
      → IsPeer p
      → m.up p ≡ []
      → m.client_writes p ≡ 0
      → m.down p ≡ []
      → m.server_writes p ≡ 0
      → m.sent p ≡ ms ++ msg ∷ []
      → interpret lib msg ≡ read_of key
      → (before after : List (ℕ × List ℕ)) × (m.log ≡ before ++ (p, msg) ∷ after)
        × (of_one p after ≡ [])
        × ((handle_effects (signals (m.received p)) c).answer
            ≡ text_of lib (read_reply (last_write lib key (texts before))))
  Reach-last_write b IsPeer {n} {m} p msg key ms c begun empty run peer up writes down back sent e =
      let (handled, answered) = Reach-quiet b lib IsPeer begun run p peer up writes down back in
      let (before, after, split, none_left) = last_of_one p msg ms m.log (handled ∙ sent) in
      (
        before,
        after,
        split,
        none_left,
        ap (λ l. (handle_effects (signals l) c).answer)
              (answered
                ∙ ap (λ l. replies_to lib p l n.host.store)
                    (split ∙ sym (append_assoc before ((p, msg) ∷ []) after))
                ∙ replies_to-append lib p (before ++ (p, msg) ∷ []) after n.host.store
                ∙ ap (λ l. replies_to lib p (before ++ (p, msg) ∷ []) n.host.store ++ l)
                    (replies_to-none p after _ none_left)
                ∙ append-nil (replies_to lib p (before ++ (p, msg) ∷ []) n.host.store)
                ∙ replies-last_write lib p msg key before n.host.store e empty)
            ∙ answer_last (replies_to lib p before n.host.store)
                (text_of lib (read_reply (last_write lib key (texts before)))) c,
      )
