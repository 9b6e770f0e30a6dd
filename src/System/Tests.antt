-- ===== src/System/Tests.antt =====
-- A client of a host at a concrete input: it sends a read request, and gets the reply.
use diginext.Base.{
  ok_injective, ℕ, ◌≡◌, refl, sym, ap, ◌∙◌, eqb, bytes_discrete, true, false, some, none, List, [],
  ◌∷◌, ◌++◌, codes, subst, flatten, All, arith,
}
use diginext.Base64.{encoding_table}
use diginext.Base64.Reference.{reference, symbol}
use diginext.Tcp.Connection.{Connection, create}
use diginext.Tcp.Connection.Writer.{writes_of, send_lem, with_frame, begun_write}
use diginext.Tcp.Channel.{IsText, frame_of, frames_of}
use diginext.Tcp.Message.Stream.{frame-reference}
use diginext.Tcp.Message.Splitters.{newline_splitter}
use diginext.Tcp.Server.{find_uuid, has_uuid}
use diginext.Storage.Json.Sample.{lib}
use diginext.Storage.Host.{Host}
use diginext.Storage.Host.Queues.{all_replies, store_after, replies_to}
use diginext.Storage.Host.Arrival.{from}
use diginext.Storage.Server.{members}
use diginext.Storage.Server.Replies.{read_of, classify, interpret, interpret_json, replies, text_of}
use diginext.Storage.Host.Requests.{of_one, read_bytes-texts}
use diginext.System.{Net, update, given, host_got, Step, sends, Reach, here, next}
use diginext.System.Drain.{Answerable, Reach-append}
use diginext.System.Order.{Begun, Reach-replies_to, Reach-quiet}
use diginext.System.Progress.{Reach-offered, Offered}
use diginext.System.Answer.{Reach-last_write}
use diginext.Storage.Client.{StorageClient, handle_effects}
use diginext.Storage.Client.Answer.{signals}
use diginext.Storage.Server.Runs.{last_write, read_reply}
use diginext.Storage.Host.Shared.{texts}
use diginext.Tcp.Worker.{idle}
use diginext.System.Rest.{Reach-all_answered}

abbrev connection : Connection
connection = record (create "a") { send_start = some false; slots = λ signal. true }

abbrev IsClient : ℕ → Type 0
IsClient p = p ≡ 1

abbrev host : Host
host = record {
  server = record { objects = λ k. connection; connections = 1 ∷ [] };
  store = λ k. none;
}

abbrev connected : Net
connected = record {
  host = host;
  client = λ k. connection;
  up = λ k. [];
  down = λ k. [];
  client_writes = λ k. 0;
  server_writes = λ k. 0;
  sent = λ k. [];
  received = λ k. [];
  log = [];
}

begun : Begun lib IsClient connected
unfolding find_uuid has_uuid eqb bytes_discrete create
begun = record {
  connected = λ p q. record {
    ready = record {
      started = (false, refl);
      has_slot = refl;
      no_bytes = refl;
      listed = ap (λ k. some k) (sym q);
    };
    at_host = (refl, refl, refl, refl, refl);
    at_client = (refl, refl, refl, refl, refl);
    up = refl;
    down = refl;
    client_writes = refl;
    server_writes = refl;
    sent = refl;
    received = refl;
  };
  log = refl;
  utf8 = λ k v e. tt;
}

abbrev request : List ℕ
request = codes "rr"

request_text : IsText request
request_text = omega arith

abbrev asking : Net
asking = record connected {
  client = update connected.client 1 (with_frame (frame_of request) connection);
  up = update connected.up 1 (frame_of request ++ []);
  client_writes = update connected.client_writes 1 1;
  sent = update connected.sent 1 (request ∷ []);
}

asks : Step newline_splitter lib IsClient connected (given 1 request) asking
unfolding create begun_write writes_of
asks =
    sends {c = with_frame (frame_of request) connection}
      {es = begun_write false [] (frame_of request)} 1 request refl request_text
      (send_lem request (frame_of request) connection false
        (frame-reference request (request_text.0, request_text.1, λ e. absurd (omega (arith, e))))
        refl)

run : Reach newline_splitter lib IsClient connected asking
run = next here asks

Reach-replies_to_example :
    (left due : List (List ℕ)) × (asking.sent 1 ≡ of_one 1 asking.log ++ left)
    × (replies_to lib 1 asking.log connected.host.store ≡ asking.received 1 ++ due)
    × (asking.host.store ≡ store_after lib asking.log connected.host.store)
Reach-replies_to_example = Reach-replies_to newline_splitter lib IsClient begun run 1 refl

sent_text : All IsText (request ∷ [])
sent_text = (request_text, tt)

replies-IsText : All IsText (all_replies lib (from 1 (request ∷ [])) host.store)
unfolding all_replies interpret interpret_json classify replies text_of eqb bytes_discrete members
replies-IsText = omega arith

-- The whole frame may arrive at the host.
whole_frame :
    Offered newline_splitter lib IsClient (host_got 1 (flatten (frames_of (request ∷ [])))) asking
unfolding create reference symbol encoding_table
whole_frame = (
  refl,
  [],
  refl,
  omega arith,
  λ ms part e.
      subst (λ l. All IsText (all_replies lib (from 1 l) host.store))
        (ap (λ r. r.0)
          (ok_injective (request ∷ [], []) (ms, part)
            (sym (read_bytes-texts newline_splitter (request ∷ []) sent_text (omega arith)) ∙ e)))
        replies-IsText,
)

Reach-offered_example :
    (l : Net) × Step newline_splitter lib IsClient asking
      (host_got 1 (flatten (frames_of (request ∷ []))))
      l
Reach-offered_example =
    Reach-offered newline_splitter lib IsClient begun run
      (host_got 1 (flatten (frames_of (request ∷ [])))) whole_frame

answerable : Answerable lib 1 asking
unfolding of_one
answerable left e = subst (λ l. All IsText (all_replies lib (from 1 l) host.store)) e replies-IsText

abbrev Rests : Type 0
Rests =
    (l : Net) × Reach newline_splitter lib IsClient asking l
    × (l.sent 1 ≡ asking.sent 1)
    × (of_one 1 l.log ≡ asking.sent 1)
    × (l.up 1 ≡ [])
    × (l.client_writes 1 ≡ 0)
    × (l.down 1 ≡ [])
    × (l.server_writes 1 ≡ 0)
    × (l.received 1 ≡ replies_to lib 1 l.log connected.host.store)

-- A state at rest that follows.
abbrev rest : Rests
rest = Reach-all_answered newline_splitter lib IsClient 1 begun run refl answerable

Reach-quiet_example :
    (of_one 1 rest.0.log ≡ rest.0.sent 1)
    × (rest.0.received 1 ≡ replies_to lib 1 rest.0.log connected.host.store)
Reach-quiet_example =
    Reach-quiet newline_splitter lib IsClient begun
      (Reach-append newline_splitter lib IsClient run rest.1) 1 refl rest.4 rest.5 rest.6 rest.7

abbrev asker : StorageClient
asker = record {
  tcp_client = record {
    client = record { objects = λ k. create "a"; tcp_conn = none };
    worker = idle;
  };
  host = "::1";
  port = 9911;
  answer = [];
}

reads_k : interpret lib request ≡ read_of (codes "k")
unfolding interpret interpret_json classify eqb bytes_discrete
reads_k = refl

Reach-last_write_example :
    (before after : List (ℕ × List ℕ)) × (rest.0.log ≡ before ++ (1, request) ∷ after)
    × (of_one 1 after ≡ [])
    × ((handle_effects (signals (rest.0.received 1)) asker).answer
        ≡ text_of lib (read_reply (last_write lib (codes "k") (texts before))))
Reach-last_write_example =
    Reach-last_write lib newline_splitter IsClient 1 request (codes "k") [] asker begun (λ k. refl)
      (Reach-append newline_splitter lib IsClient run rest.1) refl rest.4 rest.5 rest.6 rest.7
      rest.2 reads_k
