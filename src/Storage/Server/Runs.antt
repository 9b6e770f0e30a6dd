-- ===== src/Storage/Server/Runs.antt =====
-- A server's life: the calls of `handle_read_message` for the messages that arrive, in order.
use diginext.Base.{
  eqb, ℕ, ◌≡◌, refl, sym, ap, ◌∙◌, Bool, true, false, Bool-cases, inl, inr, Option, none, some,
  Option-cases, List, [], ◌∷◌, ◌++◌, map, if◌then◌else◌, arith,
}
use diginext.Storage.Key
use diginext.Storage.Value
use diginext.Storage.Json.{JsonLib}
use diginext.Storage.Server.{
  Store, write_value, Session, Reply, error_status, ok_read, M, returns, not_in_storage,
  handle_read_message, ◌>>◌,
}
use diginext.Storage.Server.Replies.{
  Request, write_of, read_of, classify, classify_write, replies, next_store, interpret_json,
  interpret, text_of,
}
use diginext.Storage.Server.Branches.{answered, IsUtf8Store}
use diginext.Storage.Server.Requests.{handle_read_message-interpret}

-- The server once constructed.
abbrev pub started : Session
started = record { store = λ _. none; sent = [] }

-- What a request writes under a key.
unfoldable pub written_by : List ℕ → Request → Option (List ℕ)
written_by k (write_of key v) = if eqb k key then some v else none
written_by k _ = none

-- The newer of two values.
unfoldable pub newer : Option (List ℕ) → Option (List ℕ) → Option (List ℕ)
newer (some v) old = some v
newer none old = old

-- The reply to a read, by what is stored.
unfoldable pub read_reply : Option (List ℕ) → Reply
read_reply (some v) = ok_read v
read_reply none = error_status not_in_storage

pub written_by-next_store :
    (k : List ℕ) (r : Request) (store : Store)
    → next_store r store k ≡ newer (written_by k r) (store k)
unfolding next_store written_by newer write_value
written_by-next_store k (write_of key v) store = elim (Bool-cases (eqb k key)) [
  | inl e ↦ rw e refl
  | inr e ↦ rw e refl
]
written_by-next_store k _ store = refl

pub newer_assoc : (a b c : Option (List ℕ)) → newer a (newer b c) ≡ newer (newer a b) c
unfolding newer
newer_assoc (some v) b c = refl
newer_assoc none b c = refl

pub newer-none : (a : Option (List ℕ)) → newer a none ≡ a
unfolding newer
newer-none (some v) = refl
newer-none none = refl

run_step :
    (m : M (Unit {0})) (k : M (Unit {0})) (s t : Session) → m s ≡ (returns tt, t) → (m >> k) s ≡ k t
run_step m k s t e = ground (arith, e)

module _ (lib : JsonLib) where
  -- An exception that leaves `handle_read_message` ends the loop of the `io_service`.
  unfoldable pub serve : List (List ℕ) → M (Unit {0})
  serve [] = λ s. (returns tt, s)
  serve (msg ∷ msgs) = handle_read_message lib msg >> serve msgs

  unfoldable pub answered_all : List (List ℕ) → Session → Session
  answered_all [] s = s
  answered_all (msg ∷ msgs) s = answered_all msgs (answered lib (interpret lib msg) s)

  -- The value that the last write of `key` gave it.
  unfoldable pub last_write : List ℕ → List (List ℕ) → Option (List ℕ)
  last_write key [] = none
  last_write key (msg ∷ msgs) = newer (last_write key msgs) (written_by key (interpret lib msg))

  classify_write-utf8 :
      (key k v : List ℕ) (has_value : Bool) (value : Option (List ℕ))
      → ((w : List ℕ) → value ≡ some w → lib.IsUtf8 w)
      → written_by k (classify_write key has_value value) ≡ some v
      → lib.IsUtf8 v
  unfolding classify_write written_by
  classify_write-utf8 key k v false value h e = absurd (ground (arith, e))
  classify_write-utf8 key k v true none h e = absurd (ground (arith, e))
  classify_write-utf8 key k v true (some w) h e = h v (ground (arith, e))

  classify-utf8 :
      (k v : List ℕ) (has_request has_key : Bool) (request key : Option (List ℕ)) (has_value : Bool)
      (value : Option (List ℕ))
      → ((w : List ℕ) → value ≡ some w → lib.IsUtf8 w)
      → written_by k (classify has_request has_key request key has_value value) ≡ some v
      → lib.IsUtf8 v
  unfolding classify
  classify-utf8 k v true true (some request) (some key) has_value value h =
      elim (Bool-cases (eqb request Value.request_read)) [
        | inl p ↦ λ e. absurd (unfold written_by in ground (arith, e, p))
        | inr p ↦ elim (Bool-cases (eqb request Value.request_write)) [
          | inl q ↦ rw (p, q) (classify_write-utf8 key k v has_value value h)
          | inr q ↦ λ e. absurd (unfold written_by in ground (arith, e, p, q))
        ]
      ]
  classify-utf8 k v true true (some request) none has_value value h =
      λ e. absurd (unfold written_by in ground (arith, e))
  classify-utf8 k v true true none key has_value value h =
      λ e. absurd (unfold written_by in ground (arith, e))
  classify-utf8 k v true false request key has_value value h =
      λ e. absurd (unfold written_by in ground (arith, e))
  classify-utf8 k v false has_key request key has_value value h =
      λ e. absurd (unfold written_by in ground (arith, e))

  -- What a message writes is UTF-8.
  written_by-utf8 : (msg k v : List ℕ) → written_by k (interpret lib msg) ≡ some v → lib.IsUtf8 v
  unfolding interpret interpret_json
  written_by-utf8 msg k v = elim (Option-cases (lib.parse msg)) [
    | inl p ↦ rw (p, interpret) (λ e. absurd (unfold written_by in ground (arith, e)))
    | inr (j, p) ↦
        rw (p, interpret)
          (classify-utf8 k v _ _ _ _ _ _ (λ w. lib.get_string_utf8 msg j Key.value w p))
  ]

  -- The values stay UTF-8.
  pub next_store-IsUtf8Store :
      (msg : List ℕ) (store : Store)
      → IsUtf8Store lib store
      → IsUtf8Store lib (next_store (interpret lib msg) store)
  unfolding newer
  next_store-IsUtf8Store msg store h k v e =
      elim (Option-cases (written_by k (interpret lib msg))) [
        | inl p ↦ h k v (sym (step ∙ ap (λ w. newer w (store k)) p) ∙ e)
        | inr (w, p) ↦ written_by-utf8 msg k v (p ∙ sym (step ∙ ap (λ w. newer w (store k)) p) ∙ e)
      ]
    where
      step :
          next_store (interpret lib msg) store k
          ≡ newer (written_by k (interpret lib msg)) (store k)
      step = written_by-next_store k (interpret lib msg) store

  -- A run from any store of UTF-8 values.
  serve-answered :
      (msgs : List (List ℕ)) (s : Session)
      → IsUtf8Store lib s.store
      → serve msgs s ≡ (returns tt, answered_all msgs s)
  unfolding serve answered_all
  serve-answered [] s h = refl
  serve-answered (msg ∷ msgs) s h =
      run_step (handle_read_message lib msg) (serve msgs) s (answered lib (interpret lib msg) s)
        (handle_read_message-interpret lib msg s h)
      ∙ serve-answered msgs (answered lib (interpret lib msg) s)
          (unfold answered in next_store-IsUtf8Store msg s.store h)

  answered_all-append :
      (msgs : List (List ℕ)) (more : List (List ℕ)) (s : Session)
      → answered_all (msgs ++ more) s ≡ answered_all more (answered_all msgs s)
  unfolding answered_all
  answered_all-append [] more s = refl
  answered_all-append (msg ∷ msgs) more s =
      answered_all-append msgs more (answered lib (interpret lib msg) s)

  store-answered :
      (key : List ℕ) (r : Request) (s : Session)
      → (answered lib r s).store key ≡ newer (written_by key r) (s.store key)
  unfolding answered
  store-answered key r s = written_by-next_store key r s.store

  store-answered_all :
      (key : List ℕ) (msgs : List (List ℕ)) (s : Session)
      → (answered_all msgs s).store key ≡ newer (last_write key msgs) (s.store key)
  unfolding answered_all last_write
  store-answered_all key [] s = unfold newer in refl
  store-answered_all key (msg ∷ msgs) s =
      store-answered_all key msgs (answered lib (interpret lib msg) s)
      ∙ ap (newer (last_write key msgs)) (store-answered key (interpret lib msg) s)
      ∙ newer_assoc (last_write key msgs) (written_by key (interpret lib msg)) (s.store key)

  pub replies-read_of :
      (key : List ℕ) (store : Store) → replies (read_of key) store ≡ read_reply (store key) ∷ []
  unfolding replies read_reply
  replies-read_of key store = elim (Option-cases (store key)) [
    | inl e ↦ ground (arith, e)
    | inr (v, e) ↦ ground (arith, e)
  ]

  answered-read_of :
      (r : Request) (key : List ℕ) (s : Session)
      → r ≡ read_of key
      → (answered lib r s).sent ≡ s.sent ++ text_of lib (read_reply (s.store key)) ∷ []
  unfolding answered
  answered-read_of r key s e =
      ap (λ r. s.sent ++ map (text_of lib) (replies r s.store)) e
      ∙ ap (λ l. s.sent ++ map (text_of lib) l) (replies-read_of key s.store)

  -- Whatever messages arrive, a new server handles each of them, with the effects and the replies
  -- that the table gives.
  pub serve-started :
      (msgs : List (List ℕ)) → serve msgs started ≡ (returns tt, answered_all msgs started)
  serve-started msgs = serve-answered msgs started (λ k v e. absurd (ground arith))

  -- After any messages, a request to read a key gets one reply: the value of the last complete
  -- write of that key, or the error that the key is not in the storage if none wrote it.
  pub serve-last_write :
      (msgs : List (List ℕ)) (msg key : List ℕ)
      → interpret lib msg ≡ read_of key
      → (serve (msgs ++ msg ∷ []) started).1.sent
        ≡ (serve msgs started).1.sent ++ text_of lib (read_reply (last_write key msgs)) ∷ []
  unfolding answered_all
  serve-last_write msgs msg key e =
      ap (λ r. r.1.sent) (serve-started (msgs ++ msg ∷ []))
      ∙ ap (λ s. s.sent) (answered_all-append msgs (msg ∷ []) started)
      ∙ answered-read_of (interpret lib msg) key (answered_all msgs started) e
      ∙ ap (λ o. (answered_all msgs started).sent ++ text_of lib (read_reply o) ∷ [])
          (store-answered_all key msgs started ∙ newer-none (last_write key msgs))
      ∙ ap (λ r. r.1.sent ++ text_of lib (read_reply (last_write key msgs)) ∷ [])
          (sym (serve-started msgs))
