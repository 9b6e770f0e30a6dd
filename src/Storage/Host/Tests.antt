-- ===== src/Storage/Host/Tests.antt =====
-- Two clients of one host at concrete inputs: one writes a key, the other reads it, the first errs.
use diginext.Base.{
  if◌then◌else◌, ◌==◌, true, flatten, ℕ, ◌≡◌, refl, eqb, bytes_discrete, none, some, false, List,
  [], ◌∷◌, ◌++◌, codes, All, arith, ok,
}
use diginext.Tcp.Connection.{create}
use diginext.Tcp.Message.Stream.{IsSendable}
use diginext.Tcp.Channel.{frames_of}
use diginext.Tcp.Server.{ServerEffect, calls, on_accepted, on_client_message}
use diginext.Storage.Json.Sample.{lib}
use diginext.Storage.Server.{members, write_value}
use diginext.Storage.Server.Replies.{
  classify, classify_write, interpret, interpret_json, replies, next_store, text_of,
}
use diginext.Storage.Host.{Host}
use diginext.Storage.Host.Queues.{messages_of, store_after, all_replies, replies_to}
use diginext.Base64.{encoding_table}
use diginext.Base64.Reference.{reference, symbol}
use diginext.Tcp.Message.Splitters.{newline_splitter}
use diginext.Tcp.Server.{find_uuid, has_uuid}
use diginext.Tcp.Server.Readiness.{Ready}
use diginext.Storage.Host.Arrival.{arrive_all, from}
use diginext.Storage.Host.Served.{Arrivals, nothing, reads, arrive_all-replies_to}
use diginext.Storage.Host.Shared.{texts, arrive_all-last_write}
use diginext.Storage.Server.Replies.{read_of}
use diginext.Storage.Server.Runs.{last_write, read_reply}
use diginext.Storage.Host.Requests.{read_bytes-texts}

abbrev signals : List ServerEffect
signals =
    calls (on_accepted 1)
    ∷ calls (on_client_message 1 (codes "w7"))
    ∷ calls (on_client_message 2 (codes "rr"))
    ∷ calls (on_client_message 1 (codes "qq"))
    ∷ []

abbrev host : Host
host = record {
  server = record {
    objects = λ k. record (create "a") { send_start = some false };
    connections = 1 ∷ 2 ∷ [];
  };
  store = λ k. none;
}

-- The reply to the second client holds the value of the first.
replies_run : replies_to lib 2 (messages_of signals) host.store ≡ codes "status:ok;value:7;" ∷ []
unfolding messages_of replies_to interpret interpret_json classify classify_write replies next_store
    text_of eqb bytes_discrete members write_value
replies_run = refl

-- Two clients whose bytes arrive in turn.
abbrev listener : Host
listener = record {
  server = record {
    objects = λ k. record (create (if k == 1 then "a" else "b")) {
      send_start = some false;
      slots = λ signal. true;
    };
    connections = 1 ∷ 2 ∷ [];
  };
  store = λ k. none;
}

abbrev first_texts : List (List ℕ)
first_texts = codes "w7" ∷ codes "qq" ∷ []

abbrev second_texts : List (List ℕ)
second_texts = codes "rr" ∷ []

abbrev stream_of : List (List ℕ) → List ℕ
stream_of texts = flatten (frames_of texts)

abbrev reads_in_turn : List (ℕ × List ℕ)
reads_in_turn = (1, stream_of first_texts) ∷ (2, stream_of second_texts) ∷ []

abbrev log : List (ℕ × List ℕ)
log = from 1 first_texts ++ (from 2 second_texts ++ [])

arrivals : Arrivals newline_splitter (λ k. []) reads_in_turn log
unfolding reference symbol encoding_table
arrivals =
    reads (read_bytes-texts newline_splitter first_texts (omega arith) (omega arith))
      (reads (read_bytes-texts newline_splitter second_texts (omega arith) (omega arith)) nothing)

ready : All (λ r. Ready listener.server r.0) reads_in_turn
unfolding find_uuid has_uuid eqb bytes_discrete create
ready = (
  record { started = (false, refl); has_slot = refl; no_bytes = refl; listed = refl },
  (record { started = (false, refl); has_slot = refl; no_bytes = refl; listed = refl }, tt),
)

replies-IsSendable : All IsSendable (all_replies lib log listener.store)
unfolding all_replies interpret interpret_json classify classify_write replies next_store text_of
    eqb bytes_discrete members write_value
replies-IsSendable = omega arith

no_parts : (k : ℕ) → [] ≡ (listener.server.objects k).part_message
unfolding create
no_parts k = refl

arrive_all-replies_to_example :
    (g : Host) × (fs : List ServerEffect) × (arrive_all newline_splitter lib reads_in_turn listener
      ≡ ok (g, fs))
    × (g.store ≡ store_after lib log listener.store)
    × ((k : ℕ)
        → (g.server.objects k).send_buffer
          ≡ (listener.server.objects k).send_buffer
            ++ frames_of (replies_to lib k log listener.store))
arrive_all-replies_to_example =
    arrive_all-replies_to newline_splitter lib listener arrivals no_parts (λ k v e. tt) ready
      replies-IsSendable

abbrev before_read : List (ℕ × List ℕ)
before_read = from 1 first_texts

asks_k : interpret lib (codes "rr") ≡ read_of (codes "k")
unfolding interpret interpret_json classify eqb bytes_discrete
asks_k = refl

arrive_all-last_write_example :
    (g : Host) × (fs : List ServerEffect) × (arrive_all newline_splitter lib reads_in_turn listener
      ≡ ok (g, fs))
    × ((g.server.objects 2).send_buffer
        ≡ (listener.server.objects 2).send_buffer
          ++ frames_of (
              replies_to lib 2 before_read listener.store
              ++ text_of lib (read_reply (last_write lib (codes "k") (texts before_read))) ∷ []))
arrive_all-last_write_example =
    arrive_all-last_write lib newline_splitter 2 (codes "rr") (codes "k") before_read listener
      arrivals asks_k no_parts (λ k. refl) ready replies-IsSendable
