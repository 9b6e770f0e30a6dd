-- ===== src/Storage/Client/Answer.antt =====
-- The answer of a client.
use diginext.Base.{ℕ, ◌≡◌, refl, List, [], ◌∷◌, ◌++◌}
use diginext.Tcp.Connection.{on_read_message}
use diginext.Tcp.Client.{ClientEffect, calls}
use diginext.Storage.Client.{StorageClient, handle_read_message, handle_effects}

-- The signals of `tcp_client` for some messages.
abbrev pub signals : List (List ℕ) → List ClientEffect
signals [] = []
signals (m ∷ ms) = calls (on_read_message m) ∷ signals ms

-- After some messages the answer is the last one.
pub answer_last :
    (ms : List (List ℕ)) (m : List ℕ) (c : StorageClient)
    → (handle_effects (signals (ms ++ m ∷ [])) c).answer ≡ m
unfolding handle_effects handle_read_message
answer_last [] m c = refl
answer_last (n ∷ ms) m c = answer_last ms m (handle_read_message n c)
