-- ===== src/Storage/Host/Logs.antt =====
-- One sequence of messages after another: the store, the replies to all and those to one
-- connection.
use diginext.Base.{
  ℕ, ◌≡◌, refl, sym, ap, ◌∙◌, List, [], ◌∷◌, ◌++◌, append_assoc, if◌then◌else◌, ◌==◌,
}
use diginext.Storage.Json.{JsonLib}
use diginext.Storage.Server.{Store}
use diginext.Storage.Server.Replies.{next_store, interpret}
use diginext.Storage.Server.Branches.{IsUtf8Store}
use diginext.Storage.Server.Runs.{next_store-IsUtf8Store}
use diginext.Storage.Host.Queues.{texts_for, store_after, all_replies, replies_to}

module _ (lib : JsonLib) where
  pub store_after-append :
      (xs ys : List (ℕ × List ℕ)) (store : Store)
      → store_after lib (xs ++ ys) store ≡ store_after lib ys (store_after lib xs store)
  unfolding store_after
  store_after-append [] ys store = refl
  store_after-append ((p, msg) ∷ xs) ys store =
      store_after-append xs ys (next_store (interpret lib msg) store)

  pub all_replies-append :
      (xs ys : List (ℕ × List ℕ)) (store : Store)
      → all_replies lib (xs ++ ys) store
        ≡ all_replies lib xs store ++ all_replies lib ys (store_after lib xs store)
  unfolding store_after all_replies
  all_replies-append [] ys store = refl
  all_replies-append ((p, msg) ∷ xs) ys store =
      ap (λ l. texts_for lib msg store ++ l)
        (all_replies-append xs ys (next_store (interpret lib msg) store))
      ∙ sym (append_assoc (texts_for lib msg store) _ _)

  pub replies_to-append :
      (p : ℕ) (xs ys : List (ℕ × List ℕ)) (store : Store)
      → replies_to lib p (xs ++ ys) store
        ≡ replies_to lib p xs store ++ replies_to lib p ys (store_after lib xs store)
  unfolding store_after replies_to
  replies_to-append p [] ys store = refl
  replies_to-append p ((q, msg) ∷ xs) ys store =
      ap (λ l. (if q == p then texts_for lib msg store else []) ++ l)
        (replies_to-append p xs ys (next_store (interpret lib msg) store))
      ∙ sym (append_assoc (if q == p then texts_for lib msg store else []) _ _)

  pub store_after-IsUtf8Store :
      (xs : List (ℕ × List ℕ)) (store : Store)
      → IsUtf8Store lib store
      → IsUtf8Store lib (store_after lib xs store)
  unfolding store_after
  store_after-IsUtf8Store [] store h = h
  store_after-IsUtf8Store ((p, msg) ∷ xs) store h =
      store_after-IsUtf8Store xs (next_store (interpret lib msg) store)
        (next_store-IsUtf8Store lib msg store h)
