-- ===== src/Base64/Reference.antt =====
-- Base64 as RFC 4648 describes it, in plain arithmetic, and the tables of the source
-- read that way.
use diginext.Base.{
  ℕ, ◌+◌, ◌*◌, ◌/◌, ◌%◌, ◌≤◌, ◌<◌, ◌≡◌, refl, ap, ◌∙◌, ◌≢◌, List, [], ◌∷◌, Bool, true, ◌&&◌, not,
  arith, length, All, get_or, ◌==◌, ltb, lt→ltb, ok, read, read-get_or,
}
use diginext.Base.Bits.{all_below, all_below_at}
use diginext.Base64.{padding, encoding_table, decoding_table, sextet_of}

-- The character that stands for six bits.
unfoldable pub symbol : ℕ → ℕ
symbol v = get_or encoding_table v 0

-- Three bytes as four characters; the last group is padded.
unfoldable pub reference : List ℕ → List ℕ
reference [] = []
reference (a ∷ []) = symbol (a / 4) ∷ symbol (a % 4 * 16) ∷ padding ∷ padding ∷ []
reference (a ∷ b ∷ []) =
    symbol (a / 4) ∷ symbol (a % 4 * 16 + b / 16) ∷ symbol (b % 16 * 4) ∷ padding ∷ []
reference (a ∷ b ∷ c ∷ rest) =
    symbol (a / 4)
    ∷ symbol (a % 4 * 16 + b / 16)
    ∷ symbol (b % 16 * 4 + c / 64)
    ∷ symbol (c % 64)
    ∷ reference rest

pub read-encoding_table : (v : ℕ) → v < 64 → read encoding_table v ≡ ok (symbol v)
unfolding symbol encoding_table
read-encoding_table v h = read-get_or encoding_table v 0 h

-- Where the alphabet lies, and what the decoder's table holds there.
abbrev alphabet_test : ℕ → Bool
alphabet_test v =
    ltb (symbol v) 128
    && not (symbol v == padding)
    && not (symbol v == b'\n')
    && (get_or decoding_table (symbol v) 0 == v)

alphabet_table : all_below 64 alphabet_test ≡ true
unfolding all_below symbol encoding_table decoding_table
alphabet_table = refl

pub symbol-facts :
    (v : ℕ)
    → v < 64
    → (symbol v < 128)
      × (symbol v ≢ padding)
      × (symbol v ≢ b'\n')
      × (get_or decoding_table (symbol v) 0 ≡ v)
symbol-facts v h = ground (arith, all_below_at 64 alphabet_test v alphabet_table h)

decoding_table_size : length decoding_table ≡ 256
unfolding decoding_table
decoding_table_size = refl

-- The decoder's table is the inverse of the encoder's.
pub sextet_of-symbol : (v : ℕ) → v < 64 → sextet_of (symbol v) ≡ ok v
unfolding sextet_of
sextet_of-symbol v h =
    let (ascii, _, _, inverse) = symbol-facts v h in
    rw (lt→ltb (symbol v) 128 ascii)
      (read-get_or decoding_table (symbol v) 0 (omega (arith, decoding_table_size)) ∙ ap ok inverse)

-- A byte below 128 has an entry, below 65.
entry_test : ℕ → Bool
entry_test c = ltb (get_or decoding_table c 0) 65

entries : all_below 128 entry_test ≡ true
unfolding all_below entry_test decoding_table
entries = refl

pub sextet_of_ascii : (c : ℕ) → c < 128 → (v : ℕ) × (sextet_of c ≡ ok v) × (v ≤ 64)
unfolding sextet_of entry_test
sextet_of_ascii c h = (
  get_or decoding_table c 0,
  rw (lt→ltb c 128 h) (read-get_or decoding_table c 0 (omega (arith, decoding_table_size))),
  ground (arith, all_below_at 128 entry_test c entries h),
)

-- A character that may stand in a frame: ASCII, and not the delimiter.
abbrev pub IsFrameChar : ℕ → Type 0
IsFrameChar c = (c < 128) × (c ≢ b'\n')

symbol-IsFrameChar : (v : ℕ) → v < 64 → IsFrameChar (symbol v)
symbol-IsFrameChar v h = let (ascii, _, fresh, _) = symbol-facts v h in (ascii, fresh)

-- An encoding holds no delimiter.
pub reference-IsFrameChar : (s : List ℕ) → All (λ b. b < 256) s → All IsFrameChar (reference s)
unfolding reference
reference-IsFrameChar [] h = tt
reference-IsFrameChar (a ∷ []) h =
    let w = symbol-IsFrameChar (a / 4) (omega arith) in
    let x = symbol-IsFrameChar (a % 4 * 16) (omega arith) in
    (w, (x, (omega arith, (omega arith, tt))))
reference-IsFrameChar (a ∷ b ∷ []) h =
    let w = symbol-IsFrameChar (a / 4) (omega arith) in
    let x = symbol-IsFrameChar (a % 4 * 16 + b / 16) (omega arith) in
    let y = symbol-IsFrameChar (b % 16 * 4) (omega arith) in (w, (x, (y, (omega arith, tt))))
reference-IsFrameChar (a ∷ b ∷ c ∷ s) h =
    let w = symbol-IsFrameChar (a / 4) (omega arith) in
    let x = symbol-IsFrameChar (a % 4 * 16 + b / 16) (omega arith) in
    let y = symbol-IsFrameChar (b % 16 * 4 + c / 64) (omega arith) in
    let z = symbol-IsFrameChar (c % 64) (omega arith) in
    (w, (x, (y, (z, reference-IsFrameChar s h.1.1.1))))
