-- ===== src/Tcp/Client/Tests.antt =====
-- Witness of the client's theorem: a client that connects again.
use diginext.Base.{◌≡◌, ◌≢◌, ok, some, [], ◌∷◌, ◌++◌, codes, arith}
use diginext.Tcp.Connection.{
  Endpoint, fires, fire, on_disconnected, on_read_message, async_read_until, async_connect, create,
}
use diginext.Tcp.Client.{Client, calls, of_connection, handle_effects, connect}
use diginext.Tcp.Client.Current.{passed, silenced, connect-passed}

abbrev first : Client
first = record { objects = λ k. create "a"; tcp_conn = some 1 }

abbrev endpoint : Endpoint
endpoint = record { address = "::1"; port = 7 }

uuids_differ : codes (first.objects 1).uuid ≢ codes "b"
unfolding create
uuids_differ e = absurd (ground (arith, e))

connect-passed_example :
    (d : Client) × (connect 2 "b" endpoint first
      ≡ ok (d, of_connection 2 (async_connect endpoint) ∷ []))
    × (handle_effects 2
          (fire (d.objects 2) (on_read_message (codes "hi")) ++ async_read_until ∷ [])
          d
        ≡ calls (on_read_message (codes "hi")) ∷ passed 2 (async_read_until ∷ []))
    × (handle_effects 1 (fires on_disconnected ∷ []) d ≡ silenced 1 (fires on_disconnected ∷ []))
connect-passed_example =
    connect-passed 2 1 "b" endpoint first (on_read_message (codes "hi")) (async_read_until ∷ [])
      (fires on_disconnected ∷ []) (omega arith) uuids_differ
