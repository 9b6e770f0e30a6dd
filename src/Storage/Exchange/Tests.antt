-- ===== src/Storage/Exchange/Tests.antt =====
-- The exchange at concrete inputs: two writes of a key, a message that lacks a field, and a read.
use diginext.Base.{
  ℕ, ◌≡◌, refl, ap, ◌∙◌, eqb, bytes_discrete, List, [], ◌∷◌, ◌++◌, codes, All, arith, none,
}
use diginext.Base64.Reference.{reference, symbol}
use diginext.Base64.{encoding_table}
use diginext.Tcp.Message.Splitters.{newline_splitter}
use diginext.Tcp.Channel.{Channel, IsText, channel}
use diginext.Tcp.Connection.{create}
use diginext.Tcp.Worker.{idle}
use diginext.Storage.Json.Sample.{lib}
use diginext.Storage.Server.{members, write_value}
use diginext.Storage.Server.Replies.{
  classify, classify_write, interpret, interpret_json, read_of, replies, next_store, text_of,
}
use diginext.Storage.Server.Branches.{answered}
use diginext.Storage.Server.Runs.{
  started, serve, serve-started, answered_all, last_write, newer, written_by, read_reply,
}
use diginext.Storage.Client.{StorageClient, handle_effects}
use diginext.Storage.Client.Answer.{signals}
use diginext.Storage.Exchange.{answer-last_write}

abbrev requests : List (List ℕ)
requests = codes "w7" ∷ codes "w8" ∷ codes "qq" ∷ []

abbrev read_request : List ℕ
read_request = codes "rr"

abbrev replied : List (List ℕ)
replied =
    codes "status:ok;"
    ∷ codes "status:ok;"
    ∷ codes "status:error;description:fieldkey not found;"
    ∷ codes "status:error;description:json parse error;"
    ∷ codes "status:ok;value:8;"
    ∷ []

sent_lem : (serve lib (requests ++ read_request ∷ []) started).1.sent ≡ replied
unfolding answered_all answered interpret interpret_json classify classify_write replies next_store
    text_of eqb bytes_discrete members write_value
sent_lem = ap (λ r. r.1.sent) (serve-started lib (requests ++ read_request ∷ [])) ∙ refl

abbrev client : StorageClient
client = record {
  tcp_client = record {
    client = record { objects = λ k. create "a"; tcp_conn = none };
    worker = idle;
  };
  host = "::1";
  port = 9911;
  answer = [];
}

reads_k : interpret lib read_request ≡ read_of (codes "k")
unfolding interpret interpret_json classify eqb bytes_discrete
reads_k = refl

there : Channel newline_splitter (requests ++ read_request ∷ []) (requests ++ read_request ∷ [])
unfolding reference symbol encoding_table
there = channel newline_splitter "a" (requests ++ read_request ∷ []) (omega arith) (omega arith)

back : Channel newline_splitter replied replied
unfolding reference symbol encoding_table
back = channel newline_splitter "b" replied (omega arith) (omega arith)

replied_texts : All IsText replied
replied_texts = omega arith

answer-last_write_example :
    (handle_effects (signals replied) client).answer
    ≡ text_of lib (read_reply (last_write lib (codes "k") requests))
answer-last_write_example =
    answer-last_write lib newline_splitter requests read_request (codes "k")
      (requests ++ read_request ∷ []) replied client reads_k (omega arith) there
      (rw sent_lem replied_texts) (rw sent_lem back)

-- The reply is that with the second value written.
answer_run :
    text_of lib (read_reply (last_write lib (codes "k") requests)) ≡ codes "status:ok;value:8;"
unfolding text_of members read_reply last_write newer written_by interpret interpret_json classify
    classify_write eqb bytes_discrete
answer_run = refl
