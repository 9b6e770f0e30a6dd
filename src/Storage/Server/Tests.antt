-- ===== src/Storage/Server/Tests.antt =====
-- Witnesses of the server's theorems, with the sample of a `JsonLib`.
use diginext.Base.{eqb, bytes_discrete, ℕ, ◌≡◌, refl, none, some, List, [], ◌∷◌, ◌++◌, codes, arith}
use diginext.Storage.Key
use diginext.Storage.Server.{
  returns, field_not_found, parse_error, error_status, handle_read_message,
}
use diginext.Storage.Server.Replies.{
  classify, classify_write, interpret, interpret_json, read_of, replies, text_of,
}
use diginext.Storage.Server.Branches.{answered}
use diginext.Storage.Server.Requests.{handle_read_message-interpret}
use diginext.Storage.Server.Runs.{
  started, serve, newer, written_by, read_reply, last_write, serve-last_write,
}
use diginext.Storage.Json.Sample.{lib}

handle_read_message-interpret_example :
    handle_read_message lib (codes "w7") started
    ≡ (returns tt, answered lib (interpret lib (codes "w7")) started)
handle_read_message-interpret_example =
    handle_read_message-interpret lib (codes "w7") started (λ k v e. absurd (ground arith))

abbrev two_writes : List (List ℕ)
two_writes = codes "w7" ∷ codes "w8" ∷ codes "q" ∷ []

reads_k : interpret lib (codes "r") ≡ read_of (codes "k")
unfolding interpret interpret_json classify eqb bytes_discrete
reads_k = refl

serve-last_write_example :
    (serve lib (two_writes ++ codes "r" ∷ []) started).1.sent
    ≡ (serve lib two_writes started).1.sent
      ++ text_of lib (read_reply (last_write lib (codes "k") two_writes)) ∷ []
serve-last_write_example = serve-last_write lib two_writes (codes "r") (codes "k") reads_k

last_write_run : last_write lib (codes "k") two_writes ≡ some (codes "8")
unfolding last_write newer written_by interpret interpret_json classify classify_write eqb
    bytes_discrete
last_write_run = refl

-- A read request with no key: two replies.
lacking_run :
    replies (interpret lib (codes "q")) (λ _. none)
    ≡ error_status (field_not_found Key.key) ∷ error_status parse_error ∷ []
unfolding interpret interpret_json classify replies eqb bytes_discrete
lacking_run = refl
