-- ===== src/Storage/Server/Requests.antt =====
-- `handle_read_message` against the table of replies.
use diginext.Base.{
  ℕ, ◌≡◌, ap, ◌∙◌, inl, inr, true, false, Bool-cases, none, some, Option-cases, List, [], ◌∷◌, ◌++◌,
  append_assoc, arith,
}
use diginext.Storage.Key
use diginext.Storage.Json.{JsonLib}
use diginext.Storage.Server.{
  Session, error_status, returns, field_not_found, parse_error, handle_request, handle_read_message,
}
use diginext.Storage.Server.Replies.{
  invalid, classify, replies, next_store, interpret_json, interpret, text_of,
}
use diginext.Storage.Server.Branches.{
  no_request, no_key, not_parsed, IsUtf8Store, answered, then_sent, dispatch_lem,
}

module _ (lib : JsonLib) where
  -- A message of which both fields are strings, and one that lacks a field or has one of another
  -- type.
  complete_lem :
      (msg : List ℕ) (j : lib.Json) (s : Session)
      → IsUtf8Store lib s.store
      → lib.parse msg ≡ some j
      → lib.contains j Key.request ≡ true
      → lib.contains j Key.key ≡ true
      → handle_read_message lib msg s ≡ (returns tt, answered lib (interpret_json lib j) s)
  unfolding handle_read_message handle_request interpret_json
  complete_lem msg j s h e r k = elim (Option-cases (lib.get_string j Key.request)) [
    | inl p ↦
        unfold answered replies next_store classify in ground (arith, e, r, k, p, not_parsed lib s)
    | inr (request, p) ↦ elim (Option-cases (lib.get_string j Key.key)) [
      | inl q ↦
          unfold answered replies next_store classify in
          ground (arith, e, r, k, p, q, not_parsed lib s)
      | inr (key, q) ↦ ground (arith, e, r, k, p, q, dispatch_lem lib j request key s h)
    ]
  ]

  two_replies : (xs : List (List ℕ)) (t u : List ℕ) → (xs ++ t ∷ []) ++ u ∷ [] ≡ xs ++ (t ∷ u ∷ [])
  two_replies xs t u = append_assoc xs (t ∷ []) (u ∷ [])

  three_replies :
      (xs : List (List ℕ)) (t u v : List ℕ)
      → ((xs ++ t ∷ []) ++ u ∷ []) ++ v ∷ [] ≡ xs ++ (t ∷ u ∷ v ∷ [])
  three_replies xs t u v =
      ap (λ l. l ++ v ∷ []) (two_replies xs t u) ∙ append_assoc xs (t ∷ u ∷ []) (v ∷ [])

  key_missing_lem :
      (msg : List ℕ) (j : lib.Json) (s : Session)
      → lib.parse msg ≡ some j
      → lib.contains j Key.request ≡ true
      → lib.contains j Key.key ≡ false
      → handle_read_message lib msg s ≡ (returns tt, answered lib (interpret_json lib j) s)
  unfolding handle_read_message handle_request interpret_json answered replies next_store classify
  key_missing_lem msg j s e r k = elim (Option-cases (lib.get_string j Key.request)) [
    | inl p ↦ ground (arith, e, r, k, p, no_key lib s, not_parsed lib s₁, two)
    | inr (request, p) ↦ ground (
      arith,
      e,
      r,
      k,
      p,
      lib.get_string_missing j Key.key k,
      no_key lib s,
      not_parsed lib s₁,
      two,
    )
  ]
    where
      s₁ : Session
      s₁ = then_sent lib s (error_status (field_not_found Key.key))

      two :
          (s.sent ++ text_of lib (error_status (field_not_found Key.key)) ∷ [])
            ++ text_of lib (error_status parse_error) ∷ []
          ≡ s.sent
            ++ (text_of lib (error_status (field_not_found Key.key))
                ∷ text_of lib (error_status parse_error)
                ∷ [])
      two = two_replies s.sent _ _

  request_missing_lem :
      (msg : List ℕ) (j : lib.Json) (s : Session)
      → lib.parse msg ≡ some j
      → lib.contains j Key.request ≡ false
      → handle_read_message lib msg s ≡ (returns tt, answered lib (interpret_json lib j) s)
  unfolding handle_read_message handle_request interpret_json answered replies next_store classify
  request_missing_lem msg j s e r = elim (Bool-cases (lib.contains j Key.key)) [
    | inl k ↦ ground (
      arith,
      e,
      r,
      k,
      lib.get_string_missing j Key.request r,
      no_request lib s,
      not_parsed lib s₁,
      two_replies s.sent t (text_of lib (error_status parse_error)),
    )
    | inr k ↦ ground (
      arith,
      e,
      r,
      k,
      lib.get_string_missing j Key.request r,
      no_request lib s,
      no_key lib s₁,
      not_parsed lib (then_sent lib s₁ (error_status (field_not_found Key.key))),
      three_replies s.sent t (text_of lib (error_status (field_not_found Key.key)))
          (text_of lib (error_status parse_error)),
    )
  ]
    where
      t : List ℕ
      t = text_of lib (error_status (field_not_found Key.request))

      s₁ : Session
      s₁ = then_sent lib s (error_status (field_not_found Key.request))

  -- Invalid JSON.
  invalid_lem :
      (msg : List ℕ) (s : Session)
      → lib.parse msg ≡ none
      → handle_read_message lib msg s ≡ (returns tt, answered lib invalid s)
  unfolding handle_read_message handle_request answered replies next_store
  invalid_lem msg s e = ground (arith, e, not_parsed lib s)

  -- A message that is JSON.
  parsed_lem :
      (msg : List ℕ) (j : lib.Json) (s : Session)
      → IsUtf8Store lib s.store
      → lib.parse msg ≡ some j
      → handle_read_message lib msg s ≡ (returns tt, answered lib (interpret_json lib j) s)
  parsed_lem msg j s h e = elim (Bool-cases (lib.contains j Key.request)) [
    | inr r ↦ request_missing_lem msg j s e r
    | inl r ↦ elim (Bool-cases (lib.contains j Key.key)) [
      | inr k ↦ key_missing_lem msg j s e r k
      | inl k ↦ complete_lem msg j s h e r k
    ]
  ]

  -- While the stored values are UTF-8, handle_read_message returns, and it has the effect and the
  -- replies that the table gives for the message.
  pub handle_read_message-interpret :
      (msg : List ℕ) (s : Session)
      → IsUtf8Store lib s.store
      → handle_read_message lib msg s ≡ (returns tt, answered lib (interpret lib msg) s)
  unfolding interpret
  handle_read_message-interpret msg s h = elim (Option-cases (lib.parse msg)) [
    | inl e ↦ rw (e, interpret) (invalid_lem msg s e)
    | inr (j, e) ↦ rw (e, interpret) (parsed_lem msg j s h e)
  ]
