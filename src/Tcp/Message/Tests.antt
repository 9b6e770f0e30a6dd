-- ===== src/Tcp/Message/Tests.antt =====
-- The theorems on the framing at concrete inputs.
use diginext.Base.{ℕ, ◌≡◌, List, [], ◌∷◌, ◌++◌, flatten, codes, ok, undefined, arith}
use diginext.Base64.{encoding_table, decode}
use diginext.Base64.Reference.{reference, symbol}
use diginext.Tcp.Message.{delimiter, decode_message, read_bytes}
use diginext.Tcp.Message.Lines.{lines}
use diginext.Tcp.Message.Order.{no_lines, empty_line, decoded, decode_message-Decodes}
use diginext.Base64.RoundTrip.{decode-reference}
use diginext.Tcp.Message.Stream.{non_empty, receive, frames, receive-frames, frames-wire}
use diginext.Tcp.Message.Robust.{receive-IsAscii, read_bytes-high}
use diginext.Tcp.Message.Splitters.{newline_splitter}

abbrev greetings : List (List ℕ)
greetings = codes "client hello" ∷ [] ∷ codes "ok" ∷ []

abbrev greeting_chunks : List (List ℕ)
greeting_chunks = codes "Y2xpZW5" ∷ codes "0IGhlbGxv\n\nb2" ∷ codes "s=\n" ∷ []

frames-greetings : frames greetings ≡ ok (flatten greeting_chunks)
unfolding reference symbol encoding_table
frames-greetings = frames-wire greetings (omega arith)

greetings_run :
    receive newline_splitter [] greeting_chunks ≡ ok (codes "client hello" ∷ codes "ok" ∷ [], [])
unfolding non_empty
greetings_run =
    receive-frames newline_splitter greetings greeting_chunks (omega arith) frames-greetings
      (omega arith)

ok_line : decode (codes "b2s=") ≡ ok (codes "ok")
unfolding reference symbol encoding_table
ok_line = decode-reference (codes "ok") (omega arith) (omega arith)

decode_message-Decodes_example :
    decode_message newline_splitter (codes "b2s=\n\nb2s=\nY2") []
    ≡ ok (codes "ok" ∷ codes "ok" ∷ [], codes "Y2")
unfolding lines
decode_message-Decodes_example =
    decode_message-Decodes newline_splitter (codes "b2s=\n\nb2s=\nY2") (omega arith)
      (decoded ok_line (empty_line (decoded ok_line no_lines)))

-- Half a line, then a line that is no encoding, and a line of the wrong size.
abbrev garbage : List (List ℕ)
garbage = codes "!?" ∷ codes "!?\nabc\n" ∷ codes "=" ∷ []

receive-IsAscii_example :
    (ms : List (List ℕ)) × (rest : List ℕ) × (receive newline_splitter [] garbage ≡ ok (ms, rest))
receive-IsAscii_example = receive-IsAscii newline_splitter garbage (omega arith) (omega arith)

read_bytes-high_example :
    read_bytes newline_splitter [] ((200 ∷ 65 ∷ 65 ∷ 65 ∷ []) ++ delimiter ∷ []) ≡ undefined
read_bytes-high_example =
    read_bytes-high newline_splitter 200 (65 ∷ 65 ∷ 65 ∷ []) (omega arith) (omega arith)
      (omega arith) (omega arith)
