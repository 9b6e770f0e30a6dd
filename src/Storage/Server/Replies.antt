-- ===== src/Storage/Server/Replies.antt =====
-- What the server answers to each kind of message, as a table.
use diginext.Base.{
  eqb, ℕ, ◌≡◌, Bool, true, false, Option, none, some, List, [], ◌∷◌, ◌++◌, All, if◌then◌else◌,
  arith,
}
use diginext.Storage.Key
use diginext.Storage.Value
use diginext.Storage.Json.{JsonLib}
use diginext.Storage.Server.{
  Store, write_value, Session, Reply, error_status, ok_read, ok_write, members, returns,
  field_not_found, not_in_storage, bad_request, parse_error, send_reply,
}

-- `incomplete` tells which of the two fields the message has; `ill_typed` has both, and one is no
-- string.
pub data Request : Type 0 where
  invalid : Request
  incomplete : Bool → Bool → Request
  ill_typed : Request
  read_of : List ℕ → Request
  write_of : List ℕ → List ℕ → Request
  write_lacks_value : Request
  write_ill_typed : Request
  unknown : Request

unfoldable pub classify_write : List ℕ → Bool → Option (List ℕ) → Request
classify_write key false value = write_lacks_value
classify_write key true none = write_ill_typed
classify_write key true (some v) = write_of key v

unfoldable pub classify :
    Bool → Bool → Option (List ℕ) → Option (List ℕ) → Bool → Option (List ℕ) → Request
unfolding classify_write
classify true true (some request) (some key) has_value value =
    if eqb request Value.request_read
    then read_of key
    else if eqb request Value.request_write
    then classify_write key has_value value
    else unknown
classify true true (some request) none has_value value = ill_typed
classify true true none key has_value value = ill_typed
classify true false request key has_value value = incomplete true false
classify false has_key request key has_value value = incomplete false has_key

-- The replies to a request, in order.
unfoldable pub replies : Request → Store → List Reply
replies invalid store = error_status parse_error ∷ []
replies (incomplete true true) store = error_status parse_error ∷ []
replies (incomplete true false) store =
    error_status (field_not_found Key.key) ∷ error_status parse_error ∷ []
replies (incomplete false true) store =
    error_status (field_not_found Key.request) ∷ error_status parse_error ∷ []
replies (incomplete false false) store =
    error_status (field_not_found Key.request)
    ∷ error_status (field_not_found Key.key)
    ∷ error_status parse_error
    ∷ []
replies ill_typed store = error_status parse_error ∷ []
replies (read_of key) store = elim (store key) [
  | some v ↦ ok_read v ∷ []
  | none ↦ error_status not_in_storage ∷ []
]
replies (write_of key value) store = ok_write ∷ []
replies write_lacks_value store =
    error_status (field_not_found Key.key) ∷ error_status parse_error ∷ []
replies write_ill_typed store = error_status parse_error ∷ []
replies unknown store = error_status bad_request ∷ []

-- Only a complete write changes the store.
unfoldable pub next_store : Request → Store → Store
next_store (write_of key value) store = write_value key value store
next_store _ store = store

module _ (lib : JsonLib) where
  unfoldable pub interpret_json : lib.Json → Request
  unfolding classify
  interpret_json j =
      classify (lib.contains j Key.request) (lib.contains j Key.key) (lib.get_string j Key.request)
        (lib.get_string j Key.key) (lib.contains j Key.value) (lib.get_string j Key.value)

  unfoldable pub interpret : List ℕ → Request
  interpret msg = elim (lib.parse msg) [ none ↦ invalid | some j ↦ interpret_json j ]

  -- The text of a reply.
  unfoldable pub text_of : Reply → List ℕ
  text_of r = elim (lib.dump (members r)) [ some t ↦ t | none ↦ [] ]

  abbrev IsUtf8Reply : Reply → Type 0
  IsUtf8Reply (error_status d) = lib.IsUtf8 d
  IsUtf8Reply (ok_read v) = lib.IsUtf8 v
  IsUtf8Reply ok_write = Unit {0}

  IsUtf8Reply-members : (r : Reply) → IsUtf8Reply r → All (λ e. lib.IsUtf8 e.1) (members r)
  unfolding members
  IsUtf8Reply-members (error_status d) h =
      (lib.ascii_utf8 Value.status_error (omega arith), (h, tt))
  IsUtf8Reply-members (ok_read v) h = (lib.ascii_utf8 Value.status_ok (omega arith), (h, tt))
  IsUtf8Reply-members ok_write h = (lib.ascii_utf8 Value.status_ok (omega arith), tt)

  -- A reply of UTF-8 strings is sent.
  pub send_reply_lem :
      (r : Reply) (s : Session)
      → IsUtf8Reply r
      → send_reply lib r s ≡ (returns tt, record s { sent = s.sent ++ text_of r ∷ [] })
  unfolding send_reply text_of
  send_reply_lem r s h =
      let (text, e) = lib.dump_utf8 (members r) (IsUtf8Reply-members r h) in ground (arith, e)
