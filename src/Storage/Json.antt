-- ===== src/Storage/Json.antt =====
-- What the storage takes from nlohmann::json.
pub mod Sample
use diginext.Base.{ℕ, ◌<◌, ◌≡◌, Bool, false, Option, none, some, String, List, All}

-- A JSON object whose members are strings.
abbrev pub Members : Type 0
Members = List (String × List ℕ)

-- The library. `none` is an exception of it.
pub record JsonLib : Type 1 where
  pub Json : Type 0
  -- `nlohmann::json::parse(text)`.
  pub parse : List ℕ → Option Json
  -- `json.contains(key)`, false for what is no object.
  pub contains : Json → String → Bool
  -- `json[key].get<string>()`: fails on what is no object, on a member that is no string, and on a
  -- missing member, which `operator[]` makes null.
  pub get_string : Json → String → Option (List ℕ)
  -- `dump()` of an object.
  pub dump : Members → Option (List ℕ)
  -- The strings that `dump` accepts.
  pub IsUtf8 : List ℕ → Type 0
  pub get_string_missing : (j : Json) (k : String) → contains j k ≡ false → get_string j k ≡ none
  -- A parsed text holds UTF-8 strings only.
  pub get_string_utf8 :
      (text : List ℕ) (j : Json) (k : String) (v : List ℕ)
      → parse text ≡ some j
      → get_string j k ≡ some v
      → IsUtf8 v
  pub ascii_utf8 : (v : List ℕ) → All (λ c. c < 128) v → IsUtf8 v
  pub dump_utf8 : (m : Members) → All (λ e. IsUtf8 e.1) m → (text : List ℕ) × (dump m ≡ some text)
