-- ===== src/Tcp/Message/Order.antt =====
-- What the complete lines of a text become, in order.
use diginext.Base.{
  ℕ, ◌^◌, ◌<◌, ◌≡◌, refl, ◌∙◌, List, [], ◌∷◌, String, length, ok, throws, bind_step,
}
use diginext.Base64.{decode}
use diginext.Tcp.Message.{Splitter, decode_token, collect, decode_message}
use diginext.Tcp.Message.Lines.{lines}
use diginext.Tcp.Message.Decode.{decode_message_lem}

-- The messages of some lines, each in the place of its line: an empty line has none, and neither
-- has one that `Decode` refuses.
pub data Decodes : List (List ℕ) → List (List ℕ) → Type 0 where
  no_lines : Decodes [] []
  empty_line : {ls ms : List (List ℕ)} → Decodes ls ms → Decodes ([] ∷ ls) ms
  decoded :
      {c : ℕ} {cs m : List ℕ} {ls ms : List (List ℕ)}
      → decode (c ∷ cs) ≡ ok m
      → Decodes ls ms
      → Decodes ((c ∷ cs) ∷ ls) (m ∷ ms)
  refused :
      {c : ℕ} {cs : List ℕ} {error : String} {ls ms : List (List ℕ)}
      → decode (c ∷ cs) ≡ throws error
      → Decodes ls ms
      → Decodes ((c ∷ cs) ∷ ls) ms

token_decoded :
    (c : ℕ) (cs m : List ℕ) → decode (c ∷ cs) ≡ ok m → decode_token (c ∷ cs) ≡ ok (m ∷ [])
unfolding decode_token
token_decoded c cs m e = rw (e, decode_token) refl

token_refused :
    (c : ℕ) (cs : List ℕ) (error : String)
    → decode (c ∷ cs) ≡ throws error
    → decode_token (c ∷ cs) ≡ ok []
unfolding decode_token
token_refused c cs error e = rw (e, decode_token) refl

collect-Decodes : {ls ms : List (List ℕ)} → Decodes ls ms → collect ls ≡ ok ms
unfolding collect decode_token
collect-Decodes no_lines = refl
collect-Decodes (empty_line h) = bind_step _ (collect-Decodes h) refl
collect-Decodes (decoded {c} {cs} {m} e h) =
    bind_step _ (token_decoded c cs m e) (bind_step _ (collect-Decodes h) refl)
collect-Decodes (refused {c} {cs} {error} e h) =
    bind_step _ (token_refused c cs error e) (bind_step _ (collect-Decodes h) refl)

-- On a text of fewer than 2 ^ 62 bytes, decode_message returns the decoded messages of the complete
-- lines, one for each line that is neither empty nor refused by Decode and in the order of the
-- lines, and the text behind the last delimiter, where Decode returns or throws on each line.
pub decode_message-Decodes :
    (b : Splitter) (message : List ℕ) {ms : List (List ℕ)}
    → length message < 2 ^ 62
    → Decodes (lines message).0 ms
    → decode_message b message [] ≡ ok (ms, (lines message).1)
decode_message-Decodes b message small h =
    decode_message_lem b message small ∙ bind_step _ (collect-Decodes h) refl
