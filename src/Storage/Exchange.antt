-- ===== src/Storage/Exchange.antt =====
-- A client and the server, from one end to the other.
mod Tests
use diginext.Base.{ℕ, ◌≡◌, refl, sym, ap, ◌∙◌, List, [], ◌∷◌, ◌++◌, All}
use diginext.Tcp.Message.{Splitter}
use diginext.Tcp.Channel.{Channel, IsText, Channel-received}
use diginext.Storage.Json.{JsonLib}
use diginext.Storage.Server.Replies.{read_of, interpret, text_of}
use diginext.Storage.Server.Runs.{started, serve, last_write, read_reply, serve-last_write}
use diginext.Storage.Client.{StorageClient, handle_effects}
use diginext.Storage.Client.Answer.{signals, answer_last}

-- A client sends requests of two bytes or more to a new server over a channel; the last one reads a
-- key. The server's replies, texts of two bytes or more, come back over another channel. Then the
-- client's answer is the reply with the value of the last complete write of that key, or with the
-- error that the key is not in the storage if none of the requests wrote it.
pub answer-last_write :
    (lib : JsonLib) (b : Splitter) (requests : List (List ℕ)) (request key : List ℕ)
    (received answers : List (List ℕ)) (c : StorageClient)
    → interpret lib request ≡ read_of key
    → All IsText (requests ++ request ∷ [])
    → Channel b (requests ++ request ∷ []) received
    → All IsText (serve lib received started).1.sent
    → Channel b (serve lib received started).1.sent answers
    → (handle_effects (signals answers) c).answer
      ≡ text_of lib (read_reply (last_write lib key requests))
answer-last_write lib b requests request key received answers c e texts to replies back =
    ap (λ l. (handle_effects (signals l) c).answer) last
    ∙ answer_last (serve lib requests started).1.sent
        (text_of lib (read_reply (last_write lib key requests))) c
  where
    last :
        answers
        ≡ (serve lib requests started).1.sent
          ++ text_of lib (read_reply (last_write lib key requests)) ∷ []
    last =
        Channel-received replies back
        ∙ ap (λ l. (serve lib l started).1.sent) (Channel-received texts to)
        ∙ serve-last_write lib requests request key e
