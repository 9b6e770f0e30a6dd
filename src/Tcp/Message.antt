-- ===== src/Tcp/Message.antt =====
-- The framing of core/src/TCP/TCPConnection.cpp: `decode_message`, the line that `send` builds, and
-- what `handle_read` does with the bytes it has read. Log lines are left out.
pub mod Lines
pub mod Decode
pub mod Stream
pub mod Robust
pub mod Splitters
pub mod Pipe
pub mod Order
mod Tests
use diginext.Base.{
  ℕ, zero, suc, ◌+◌, ◌-◌, ◌%◌, ◌^◌, ◌≡◌, ◌≢◌, Option, none, some, List, [], ◌∷◌, ◌++◌, take, drop,
  All, Bool, Outcome, ok, throws, undefined, out_of_fuel, ◌>>=◌, if◌then◌else◌, ◌==◌,
}
use diginext.Base64.{encode, decode, size_modulus}

-- `DELIMETR`.
abbrev pub delimiter : ℕ
delimiter = b'\n'

-- Tokens with the delimiter between them.
abbrev pub join : List (List ℕ) → List ℕ
join [] = []
join (t ∷ []) = t
join (t ∷ u ∷ ts) = t ++ (delimiter ∷ join (u ∷ ts))

abbrev pub IsFresh : List ℕ → Type 0
IsFresh = All (λ c. c ≢ delimiter)

-- `boost::split(tokens, s, boost::is_any_of(DELIMETR_STR))`: the tokens between the delimiters.
pub record Splitter : Type 0 where
  pub split : List ℕ → List (List ℕ)
  pub split_joins : (s : List ℕ) → join (split s) ≡ s
  pub split_fresh : (s : List ℕ) → All IsFresh (split s)

-- `find_last_of(DELIMETR)`, `none` for `npos`.
pub find_last : List ℕ → Option ℕ
find_last [] = none
find_last (x ∷ xs) = elim (find_last xs) [
  | some i ↦ some (suc i)
  | none ↦ if x == delimiter then some 0 else none
]

-- `npos` is the largest `size_t`.
pub find_last_of : List ℕ → ℕ
find_last_of s = elim (find_last s) [ some i ↦ i | none ↦ size_modulus - 1 ]

-- `back()` of a string that is not empty.
pub back : List ℕ → ℕ
back [] = 0
back (x ∷ []) = x
back (x ∷ y ∷ xs) = back (y ∷ xs)

-- The body of the loop over the tokens: an empty token is skipped, and so is one that `Decode`
-- throws on.
pub decode_token : List ℕ → Outcome (List (List ℕ))
decode_token [] = ok []
decode_token (c ∷ cs) = elim (decode (c ∷ cs)) [
  | ok m ↦ ok (m ∷ [])
  | throws e ↦ ok []
  | undefined ↦ undefined
  | out_of_fuel ↦ out_of_fuel
]

pub collect : List (List ℕ) → Outcome (List (List ℕ))
collect [] = ok []
collect (t ∷ ts) = do m ← decode_token t; rest ← collect ts; ok (m ++ rest)

-- The part of a message up to its last delimiter, and what follows.
pub cut_last : List ℕ → List ℕ × List ℕ
cut_last message =
    let end = (find_last_of message + 1) % size_modulus in (take end message, drop end message)

-- `std::string(1, DELIMETR)` behind the encoded message: what `send` queues.
pub frame : List ℕ → Outcome (List ℕ)
frame msg = do encoded ← encode msg; ok (encoded ++ delimiter ∷ [])

module _ (b : Splitter) where
  -- The messages, and `message_unreceived_part`, which is an argument too.
  pub decode_message : List ℕ → List ℕ → Outcome (List (List ℕ) × List ℕ)
  decode_message [] unreceived = ok ([], unreceived)
  decode_message (c ∷ cs) unreceived =
      if back (c ∷ cs) == delimiter
      then (do messages ← collect (b.split (c ∷ cs)); ok (messages, unreceived))
      else (do
        let cut = cut_last (c ∷ cs)
        messages ← collect (b.split cut.0)
        ok (messages, cut.1))

  -- `if (!msg.empty())` of `handle_read`, with the empty string for `unreceived_part`.
  pub take_messages : List ℕ → Outcome (List (List ℕ) × List ℕ)
  take_messages [] = ok ([], [])
  take_messages (c ∷ cs) = decode_message (c ∷ cs) []

  -- `handle_read` without an error: `partMessage` and the bytes in the buffer give the messages
  -- for `onReadMessage`, in order, and the next `partMessage`.
  pub read_bytes : List ℕ → List ℕ → Outcome (List (List ℕ) × List ℕ)
  read_bytes part bytes = take_messages (part ++ bytes)
