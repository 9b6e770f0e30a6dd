-- ===== src/Base64.antt =====
-- core/src/Base64/Base64.cpp and core/include/Base64/Base64.h.
-- A byte is a number below 256: the bit pattern of a `char`, which is taken to be signed. Memory
-- that a pointer may read is the list of its bytes.
pub mod Reference
pub mod Masks
pub mod Rounds
pub mod Encode
pub mod Decode
pub mod Totality
pub mod Groups
pub mod RoundTrip
pub mod Bounds
mod Tests
use diginext.Base.{
  ℕ, zero, suc, ◌+◌, ◌-◌, ◌*◌, ◌/◌, ◌%◌, ◌^◌, ◌<◌, bit_and, bit_or, List, [], ◌∷◌, ◌++◌, codes,
  length, replicate, ltb, ◌==◌, if◌then◌else◌, Outcome, ok, throws, undefined, out_of_fuel, ◌>>=◌,
  read,
}

abbrev pub IsByte : ℕ → Type 0
IsByte b = b < 256

-- A `size_t` has 64 bits.
abbrev pub size_modulus : ℕ
size_modulus = 2 ^ 64

abbrev shl : ℕ → ℕ → ℕ
shl x k = x * 2 ^ k

abbrev pub shr : ℕ → ℕ → ℕ
shr x k = x / 2 ^ k

-- The bytes `=` and `A`.
abbrev pub padding : ℕ
padding = b'='

unfoldable pub encoding_table : List ℕ
encoding_table = codes "ABCDEFGHIJKLMNOPQRSTUVWXYZabcdefghijklmnopqrstuvwxyz0123456789+/"

-- The four indices into the table, as the source writes them.
pub index_first : ℕ → ℕ
index_first a = bit_and (shr a 2) 0x3f

pub index_second : ℕ → ℕ → ℕ
index_second a b = bit_or (shl (bit_and a 0x3) 4) (shr (bit_and b 0xf0) 4)

pub index_third : ℕ → ℕ → ℕ
index_third b c = bit_or (shl (bit_and b 0xf) 2) (shr (bit_and c 0xc0) 6)

pub index_fourth : ℕ → ℕ
index_fourth c = bit_and c 0x3f

-- `*p++ = c` into a string of `cap` bytes, of which those before `p` are listed.
abbrev pub put : ℕ → List ℕ → ℕ → Outcome (List ℕ)
put cap ret c = if ltb (length ret) cap then ok (ret ++ c ∷ []) else undefined

-- `*p++ = sEncodingTable[index]`.
pub put_symbol : ℕ → List ℕ → ℕ → Outcome (List ℕ)
put_symbol cap ret index = read encoding_table index >>= λ c. put cap ret c

-- One round of the `for` loop.
pub encode_round : List ℕ → ℕ → ℕ → List ℕ → Outcome (List ℕ)
encode_round mem cap i ret = do
  a ← read mem i
  r₁ ← put_symbol cap ret (index_first a)
  b ← read mem (i + 1)
  r₂ ← put_symbol cap r₁ (index_second a b)
  c ← read mem (i + 2)
  r₃ ← put_symbol cap r₂ (index_third b c)
  put_symbol cap r₃ (index_fourth c)

-- `for (i = 0; i < in_len - 2; i += 3)`, from `i` on; `in_len - 2` and `i += 3` wrap.
pub encode_loop : ℕ → List ℕ → ℕ → ℕ → ℕ → List ℕ → Outcome (ℕ × List ℕ)
encode_loop zero mem in_len cap i ret = out_of_fuel
encode_loop (suc fuel) mem in_len cap i ret =
    let rest : Outcome (ℕ × List ℕ) = encode_round mem cap i ret >>= λ ret'.
    encode_loop fuel mem in_len cap ((i + 3) % size_modulus) ret' in
    if ltb i ((in_len + size_modulus - 2) % size_modulus) then rest else ok (i, ret)

-- `if (i < in_len)`: the last one or two bytes.
pub encode_tail : List ℕ → ℕ → ℕ → ℕ → List ℕ → Outcome (List ℕ)
encode_tail mem in_len cap i ret =
    if ltb i in_len
    then (do
      a ← read mem i
      r₁ ← put_symbol cap ret (index_first a)
      r₃ ←
          (if i == (in_len + size_modulus - 1) % size_modulus
            then (do r₂ ← put_symbol cap r₁ (shl (bit_and a 0x3) 4); put cap r₂ padding)
            else (do
              b ← read mem (i + 1)
              r₂ ← put_symbol cap r₁ (index_second a b)
              put_symbol cap r₂ (shl (bit_and b 0xf) 2)))
      put cap r₃ padding)
    else ok ret

-- The size of the result, `4 * ((in_len + 2) / 3)`.
abbrev pub encoded_size : ℕ → ℕ
encoded_size in_len = 4 * ((in_len + 2) % size_modulus / 3) % size_modulus

-- `Encode(const char*, size_t)`. What was not written is still `'\0'`. Each round but the last
-- takes three bytes that can be read, so the fuel is enough.
pub encode_bytes : List ℕ → ℕ → Outcome (List ℕ)
encode_bytes mem in_len = do
  let cap = encoded_size in_len
  (i, ret) ← encode_loop (suc (length mem)) mem in_len cap 0 []
  ret' ← encode_tail mem in_len cap i ret
  ok (ret' ++ replicate (cap - length ret') 0)

-- `Encode(const std::string&)`: `c_str` ends with a readable `'\0'`.
pub encode : List ℕ → Outcome (List ℕ)
encode [] = ok []
encode (x ∷ xs) = encode_bytes ((x ∷ xs) ++ 0 ∷ []) (length (x ∷ xs))

abbrev sixteen_bad : List ℕ
sixteen_bad = replicate 16 64

pub decoding_table : List ℕ
decoding_table =
    replicate 43 64
    ++ (62 ∷ 64 ∷ 64 ∷ 64 ∷ 63 ∷ 52 ∷ 53 ∷ 54 ∷ 55 ∷ 56 ∷ 57 ∷ 58 ∷ 59 ∷ 60 ∷ 61 ∷ [])
    ++ replicate 7 64
    ++ (0 ∷ 1 ∷ 2 ∷ 3 ∷ 4 ∷ 5 ∷ 6 ∷ 7 ∷ 8 ∷ 9 ∷ 10 ∷ 11 ∷ 12 ∷ 13 ∷ 14 ∷ 15 ∷ 16 ∷ 17 ∷ 18 ∷ 19 ∷ 20
        ∷ 21 ∷ 22 ∷ 23 ∷ 24 ∷ 25 ∷ [])
    ++ replicate 6 64
    ++ (26 ∷ 27 ∷ 28 ∷ 29 ∷ 30 ∷ 31 ∷ 32 ∷ 33 ∷ 34 ∷ 35 ∷ 36 ∷ 37 ∷ 38 ∷ 39 ∷ 40 ∷ 41 ∷ 42 ∷ 43 ∷ 44
        ∷ 45 ∷ 46 ∷ 47 ∷ 48 ∷ 49 ∷ 50 ∷ 51 ∷ [])
    ++ replicate 133 64

-- `kDecodingTable[static_cast<int>(c)]`: a byte from 128 on is a negative index.
pub sextet_of : ℕ → Outcome ℕ
sextet_of c = if ltb c 128 then read decoding_table c else undefined

-- `base64[i] == '=' ? 0 & i++ : kDecodingTable[static_cast<int>(base64[i++])]`; `operator[]` reads
-- `'\0'` at the size. The caller counts `i` on.
pub sextet_at : List ℕ → ℕ → Outcome ℕ
sextet_at base64 i = read (base64 ++ 0 ∷ []) i >>= λ c. if c == padding then ok 0 else sextet_of c

-- `if (j < out_len) (*out)[j++] = v & 0xFF`, with the `j` bytes that are written.
abbrev pub store : ℕ → List ℕ → ℕ → List ℕ
store out_len out v = if ltb (length out) out_len then out ++ (v % 2 ^ 8) ∷ [] else out

-- The `uint32_t` that holds three bytes.
pub triple_of : ℕ → ℕ → ℕ → ℕ → ℕ
triple_of a b c d = (shl a 18 + shl b 12 + shl c 6 + shl d 0) % 2 ^ 32

abbrev pub store_triple : ℕ → List ℕ → ℕ → List ℕ
store_triple out_len out triple =
    store out_len (store out_len (store out_len out (shr triple 16)) (shr triple 8)) (shr triple 0)

pub decode_round : List ℕ → ℕ → ℕ → List ℕ → Outcome (List ℕ)
decode_round base64 out_len i out = do
  a ← sextet_at base64 i
  b ← sextet_at base64 (i + 1)
  c ← sextet_at base64 (i + 2)
  d ← sextet_at base64 (i + 3)
  ok (store_triple out_len out (triple_of a b c d))

-- `for (size_t i = 0, j = 0; i < in_len;)`, from `i` on.
pub decode_loop : ℕ → List ℕ → ℕ → ℕ → List ℕ → Outcome (List ℕ)
decode_loop zero base64 out_len i out = out_of_fuel
decode_loop (suc fuel) base64 out_len i out =
    let rest : Outcome (List ℕ) = decode_round base64 out_len i out >>= λ out'.
    decode_loop fuel base64 out_len ((i + 4) % size_modulus) out' in
    if ltb i (length base64) then rest else ok out

-- `if (base64[k] == '=') out_len--`, `k` being `in_len - back`.
pub without_padding : List ℕ → ℕ → ℕ → Outcome ℕ
without_padding base64 back out_len =
    read (base64 ++ 0 ∷ []) ((length base64 + size_modulus - back) % size_modulus) >>= λ c.
    ok (if c == padding then (out_len + size_modulus - 1) % size_modulus else out_len)

pub decoded_size : List ℕ → Outcome ℕ
decoded_size base64 = do
  n ← without_padding base64 1 (length base64 / 4 * 3)
  without_padding base64 2 n

-- `catch (...) { throw std::runtime_error("decode error"); }`
abbrev pub as_decode_error {ℓ} : {A : Type ℓ} → Outcome A → Outcome A
as_decode_error (ok a) = ok a
as_decode_error (throws e) = throws "decode error"
as_decode_error undefined = undefined
as_decode_error out_of_fuel = out_of_fuel

-- `Decode(const std::string&, char**, size_t*)`: the bytes of `*out` that are written, and
-- `*outLength`. A round takes four bytes, so the fuel is enough.
pub decode_bytes : List ℕ → Outcome (List ℕ × ℕ)
decode_bytes base64 =
    if length base64 % 4 == 0
    then as_decode_error (do
      out_len ← decoded_size base64
      out ← decode_loop (suc (length base64)) base64 out_len 0 []
      ok (out, out_len))
    else throws "Input data size is not a multiple of 4"

-- `Decode(const std::string&)`. `std::string(outBin, outLength)` reads all of `outBin`.
pub decode : List ℕ → Outcome (List ℕ)
decode [] = ok []
decode (x ∷ xs) = do
  (out, out_len) ← decode_bytes (x ∷ xs)
  if length out == out_len then ok out else undefined
