-- ===== src/Storage/Server.antt =====
-- The class `StorageServer` of core/src/Storage/StorageServer.cpp: the map, the replies and
-- `handle_read_message`. The handlers run on one thread, that of the `io_service`, so no other call
-- comes between the two locks that a request takes. Log lines are left out.
pub mod Replies
pub mod Branches
pub mod Requests
pub mod Runs
mod Tests
use diginext.Base.{
  eqb, ℕ, ◌≡◌, Bool, true, false, not, Option, none, some, String, List, [], ◌∷◌, ◌++◌, codes,
  if◌then◌else◌,
}
use diginext.Storage.Key
use diginext.Storage.Value
use diginext.Storage.Json.{Members, JsonLib}

-- `dataStorage`, as what `find` gives.
abbrev pub Store : Type 0
Store = List ℕ → Option (List ℕ)

-- `keyExists`.
pub key_exists : Store → List ℕ → Bool
key_exists store key = elim (store key) [ some v ↦ true | none ↦ false ]

-- `readValue`.
pub read_value : Store → List ℕ → List ℕ
read_value store key = elim (store key) [ some v ↦ v | none ↦ [] ]

-- `writeValue`.
unfoldable pub write_value : List ℕ → List ℕ → Store → Store
write_value key value store k = if eqb k key then some value else store k

-- The server's map, and what has been given to `send` of the connection, in order.
pub record Session : Type 0 where
  pub store : Store
  pub sent : List (List ℕ)

pub data Reply : Type 0 where
  error_status : List ℕ → Reply
  ok_read : List ℕ → Reply
  ok_write : Reply

-- The JSON object of `sendErrorStatus`, `sendOkRead` and `sendOkWrite`.
unfoldable pub members : Reply → Members
members (error_status description) =
    (Key.status, Value.status_error) ∷ (Key.description, description) ∷ []
members (ok_read value) = (Key.status, Value.status_ok) ∷ (Key.value, value) ∷ []
members ok_write = (Key.status, Value.status_ok) ∷ []

-- Code that may throw; what it has done before stays done.
pub data Result (A : Type 0) : Type 0 where
  returns : A → Result A
  raises : Result A

abbrev pub M : Type 0 → Type 0
M A = Session → Result A × Session

infixl 5 ◌>>=◌ ◌>>◌
abbrev pub ◌>>=◌ : {A B : Type 0} → M A → (A → M B) → M B
◌>>=◌ m f s = let r = m s in elim r.0 [ returns a ↦ f a r.1 | raises ↦ (raises, r.1) ]

abbrev pub ◌>>◌ : {B : Type 0} → M (Unit {0}) → M B → M B
m >> k = m >>= λ _. k

-- A call of the library that may throw.
abbrev or_raise : {A : Type 0} → Option A → M A
or_raise (some a) s = (returns a, s)
or_raise none s = (raises, s)

-- An `if` with no `else`.
abbrev pub when : Bool → M (Unit {0}) → M (Unit {0})
when true m = m
when false m = λ s. (returns tt, s)

-- `connection->send(text)`.
abbrev send_text : List ℕ → M (Unit {0})
send_text text s = (returns tt, record s { sent = s.sent ++ text ∷ [] })

-- "field" + key + " not found".
abbrev pub field_not_found : String → List ℕ
field_not_found key = codes "field" ++ (codes key ++ codes " not found")

abbrev pub not_in_storage : List ℕ
not_in_storage = codes "key not found in storage"

abbrev pub bad_request : List ℕ
bad_request = codes "request must be read/write"

abbrev pub parse_error : List ℕ
parse_error = codes "json parse error"

module _ (lib : JsonLib) where
  -- `sendErrorStatus`, `sendOkRead` and `sendOkWrite`.
  pub send_reply : Reply → M (Unit {0})
  send_reply r = or_raise (lib.dump (members r)) >>= send_text

  -- The branch of a read request.
  pub handle_read_request : List ℕ → M (Unit {0})
  handle_read_request key s =
      if key_exists s.store key
      then send_reply (ok_read (read_value s.store key)) s
      else send_reply (error_status not_in_storage) s

  -- The branch of a write request. Its message about a missing value names the field "key".
  pub handle_write_request : lib.Json → List ℕ → M (Unit {0})
  handle_write_request json key = do
    when (not (lib.contains json Key.value)) (send_reply (error_status (field_not_found Key.key)))
    value ← or_raise (lib.get_string json Key.value)
    λ s. (returns tt, record s { store = write_value key value s.store })
    send_reply ok_write

  -- The `if` over the kinds of request.
  pub dispatch : lib.Json → List ℕ → List ℕ → M (Unit {0})
  dispatch json request key =
      if eqb request Value.request_read
      then handle_read_request key
      else if eqb request Value.request_write
      then handle_write_request json key
      else send_reply (error_status bad_request)

  -- The `try` block of `handle_read_message`.
  pub handle_request : List ℕ → M (Unit {0})
  handle_request msg = do
    json ← or_raise (lib.parse msg)
    when (not (lib.contains json Key.request))
        (send_reply (error_status (field_not_found Key.request)))
    when (not (lib.contains json Key.key)) (send_reply (error_status (field_not_found Key.key)))
    request ← or_raise (lib.get_string json Key.request)
    key ← or_raise (lib.get_string json Key.key)
    dispatch json request key

  -- The `catch (...)` block.
  abbrev pub recover : Result (Unit {0}) × Session → Result (Unit {0}) × Session
  recover (returns u, s) = (returns u, s)
  recover (raises, s) = send_reply (error_status parse_error) s

  pub handle_read_message : List ℕ → M (Unit {0})
  handle_read_message msg s = recover (handle_request msg s)
