-- ===== src/Storage/Server/Branches.antt =====
-- The replies, and the branches of `handle_read_message` for each kind of request, against the
-- table.
use diginext.Base.{
  eqb, ℕ, ◌≡◌, refl, ap, ◌∙◌, inl, inr, true, Bool-cases, some, Option-cases, List, [], ◌∷◌, ◌++◌,
  append_assoc, map, arith,
}
use diginext.Storage.Key
use diginext.Storage.Value
use diginext.Storage.Json.{JsonLib}
use diginext.Storage.Server.{
  Store, key_exists, read_value, write_value, Session, Reply, error_status, ok_read, ok_write, M,
  returns, field_not_found, not_in_storage, bad_request, parse_error, send_reply,
  handle_read_request, handle_write_request, dispatch, recover,
}
use diginext.Storage.Server.Replies.{
  Request, classify, classify_write, replies, next_store, text_of, send_reply_lem,
}

module _ (lib : JsonLib) where
  abbrev say : Reply → M (Unit {0})
  say r s = (returns tt, record s { sent = s.sent ++ text_of lib r ∷ [] })

  pub no_request :
      (s : Session)
      → send_reply lib (error_status (field_not_found Key.request)) s
        ≡ say (error_status (field_not_found Key.request)) s
  no_request s = send_reply_lem lib _ s (lib.ascii_utf8 _ (omega arith))

  pub no_key :
      (s : Session)
      → send_reply lib (error_status (field_not_found Key.key)) s
        ≡ say (error_status (field_not_found Key.key)) s
  no_key s = send_reply_lem lib _ s (lib.ascii_utf8 _ (omega arith))

  pub not_parsed :
      (s : Session) → send_reply lib (error_status parse_error) s ≡ say (error_status parse_error) s
  not_parsed s = send_reply_lem lib _ s (lib.ascii_utf8 _ (omega arith))

  not_known :
      (s : Session) → send_reply lib (error_status bad_request) s ≡ say (error_status bad_request) s
  not_known s = send_reply_lem lib _ s (lib.ascii_utf8 _ (omega arith))

  not_stored :
      (s : Session)
      → send_reply lib (error_status not_in_storage) s ≡ say (error_status not_in_storage) s
  not_stored s = send_reply_lem lib _ s (lib.ascii_utf8 _ (omega arith))

  -- Every value in the store is UTF-8.
  abbrev pub IsUtf8Store : Store → Type 0
  IsUtf8Store store = (k v : List ℕ) → store k ≡ some v → lib.IsUtf8 v

  -- The session after a request.
  unfoldable pub answered : Request → Session → Session
  answered r s = record {
    store = next_store r s.store;
    sent = s.sent ++ map (text_of lib) (replies r s.store);
  }

  read_request_lem :
      (key : List ℕ) (s : Session)
      → IsUtf8Store s.store
      → handle_read_request lib key s ≡ (returns tt, answered (Request.read_of key) s)
  unfolding handle_read_request key_exists read_value answered replies next_store
  read_request_lem key s h = elim (Option-cases (s.store key)) [
    | inl e ↦ ground (arith, e, not_stored s)
    | inr (v, e) ↦ ground (arith, e, send_reply_lem lib (ok_read v) s (h key v e))
  ]

  -- A reply behind `s`.
  abbrev pub then_sent : Session → Reply → Session
  then_sent s r = record s { sent = s.sent ++ text_of lib r ∷ [] }

  write_request_lem :
      (j : lib.Json) (key : List ℕ) (s : Session)
      → recover lib (handle_write_request lib j key s) ≡ (
        returns tt,
        answered (classify_write key (lib.contains j Key.value) (lib.get_string j Key.value)) s,
      )
  unfolding handle_write_request answered replies next_store classify_write
  write_request_lem j key s = elim (Bool-cases (lib.contains j Key.value)) [
    | inl p ↦ elim (Option-cases (lib.get_string j Key.value)) [
      | inl q ↦ ground (arith, p, q, not_parsed s)
      | inr (v, q) ↦
          let written : Session = record s { store = write_value key v s.store } in
          ground (arith, p, q, send_reply_lem lib ok_write written tt)
    ]
    | inr p ↦ ground (
      arith,
      p,
      lib.get_string_missing j Key.value p,
      no_key s,
      not_parsed (then_sent s (error_status (field_not_found Key.key))),
      append_assoc s.sent (text_of lib (error_status (field_not_found Key.key)) ∷ [])
          (text_of lib (error_status parse_error) ∷ []),
    )
  ]

  pub dispatch_lem :
      (j : lib.Json) (request key : List ℕ) (s : Session)
      → IsUtf8Store s.store
      → recover lib (dispatch lib j request key s) ≡ (
        returns tt,
        answered
            (classify true true
              (some request)
              (some key)
              (lib.contains j Key.value)
              (lib.get_string j Key.value))
            s,
      )
  unfolding dispatch classify
  dispatch_lem j request key s h = elim (Bool-cases (eqb request Value.request_read)) [
    | inl p ↦ rw p (ap (recover lib) (read_request_lem key s h))
    | inr p ↦ elim (Bool-cases (eqb request Value.request_write)) [
      | inl q ↦ rw (p, q) (write_request_lem j key s)
      | inr q ↦
          rw (p, q) (ap (recover lib) (not_known s) ∙ unfold answered replies next_store in refl)
    ]
  ]
