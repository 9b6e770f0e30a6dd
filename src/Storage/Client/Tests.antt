-- ===== src/Storage/Client/Tests.antt =====
-- Witnesses of the client's theorems.
use diginext.Base.{
  ap, ◌≡◌, refl, true, false, some, none, [], ◌∷◌, ◌++◌, codes, ok, undefined, ◌>>=◌, arith,
}
use diginext.Base64.{encoding_table}
use diginext.Base64.Reference.{reference, symbol}
use diginext.Tcp.Message.{frame}
use diginext.Tcp.Message.Stream.{frame-reference}
use diginext.Tcp.Connection.{create}
use diginext.Tcp.Worker.Stopped.{meanwhile-running}
use diginext.Tcp.Worker
use diginext.Tcp.Worker.{Pace, RunStep, goes_on, running, idle, meanwhile}
use diginext.Tcp.Client.Current.{disconnection}
use diginext.Storage.Client.{StorageClient, started, connect, disconnect, send}
use diginext.Storage.Client.Connection.{disconnect_twice, send-connect_undefined}

abbrev pace : Pace
pace = record { disconnecting = []; waiting = λ i. []; joining = goes_on ∷ goes_on ∷ goes_on ∷ [] }

abbrev fresh : StorageClient
fresh = record {
  tcp_client = record {
    client = record { objects = λ k. create "a"; tcp_conn = none };
    worker = idle;
  };
  host = "::1";
  port = 9911;
  answer = [];
}

abbrev connected : StorageClient
connected = record fresh {
  tcp_client = record {
    client = record { objects = λ k. record (create "a") { slots = λ s. true }; tcp_conn = some 1 };
    worker = record { started_status = true; server_thread = some running; io_stopped = false };
  };
}

-- The thread runs on in between, with no handler.
disconnect_twice_example : disconnect pace (goes_on ∷ []) (λ d. ok (d, [])) connected ≡ (
  ok (connected.tcp_client.client, disconnection 1 ++ ([] ++ disconnection 1)),
  Worker.stop pace (meanwhile (goes_on ∷ []) connected.tcp_client.worker),
)
unfolding started
disconnect_twice_example =
    disconnect_twice pace (goes_on ∷ []) (λ d. ok (d, [])) [] 1 connected refl
      (ap (λ w. w.started_status) (meanwhile-running 1 connected.tcp_client.worker refl refl)) refl
      refl refl

hello_frame : frame (codes "hello") ≡ ok (codes "aGVsbG8=\n")
unfolding reference symbol encoding_table
hello_frame = frame-reference (codes "hello") (omega arith)

send-connect_undefined_example :
    ((connect 1 "a" pace (λ i. []) fresh).0 >>= λ r. send (codes "hello") r.0) ≡ undefined
unfolding started
send-connect_undefined_example =
    send-connect_undefined 1 "a" pace (λ i. []) (codes "hello") (codes "aGVsbG8=\n") fresh refl
      hello_frame
