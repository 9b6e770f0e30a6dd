-- ===== src/Base64/Masks.antt =====
-- The masks and shifts of the encoder as arithmetic on bytes, each by a table.
use diginext.Base.{ℕ, ◌+◌, ◌*◌, ◌/◌, ◌%◌, ◌<◌, ◌≡◌, refl, sym, ap₂, ◌∙◌, bit_and, bit_or, arith}
use diginext.Base.Bits.{all_below, agree_below}
use diginext.Base64.{IsByte, index_first, index_second, index_third, index_fourth}

pub index_first_lem : (a : ℕ) → IsByte a → index_first a ≡ a / 4
unfolding index_first all_below
index_first_lem a h = agree_below (λ x. bit_and (x / 4) 0x3f) (λ x. x / 4) 256 refl a h

pub index_fourth_lem : (c : ℕ) → IsByte c → index_fourth c ≡ c % 64
unfolding index_fourth all_below
index_fourth_lem c h = agree_below (λ x. bit_and x 0x3f) (λ x. x % 64) 256 refl c h

pub low_two : (a : ℕ) → IsByte a → bit_and a 0x3 ≡ a % 4
unfolding all_below
low_two a h = agree_below (λ x. bit_and x 0x3) (λ x. x % 4) 256 refl a h

pub low_four : (b : ℕ) → IsByte b → bit_and b 0xf ≡ b % 16
unfolding all_below
low_four b h = agree_below (λ x. bit_and x 0xf) (λ x. x % 16) 256 refl b h

high_four : (b : ℕ) → IsByte b → bit_and b 0xf0 / 16 ≡ b / 16
unfolding all_below
high_four b h = agree_below (λ x. bit_and x 0xf0 / 16) (λ x. x / 16) 256 refl b h

high_two : (c : ℕ) → IsByte c → bit_and c 0xc0 / 64 ≡ c / 64
unfolding all_below
high_two c h = agree_below (λ x. bit_and x 0xc0 / 64) (λ x. x / 64) 256 refl c h

-- `|` on bits that do not meet is a sum.
join_second : (x y : ℕ) → x < 4 → y < 16 → bit_or (x * 16) y ≡ x * 16 + y
unfolding all_below
join_second x y h k =
    let n : ℕ = x * 16 + y in
    let high : n / 16 ≡ x = omega arith in
    let low : n % 16 ≡ y = omega arith in
    ap₂ (λ u v. bit_or (u * 16) v) (sym high) (sym low)
    ∙ agree_below (λ z. bit_or (z / 16 * 16) (z % 16)) (λ z. z) 64 refl n (omega arith)

join_third : (x y : ℕ) → x < 16 → y < 4 → bit_or (x * 4) y ≡ x * 4 + y
unfolding all_below
join_third x y h k =
    let n : ℕ = x * 4 + y in
    let high : n / 4 ≡ x = omega arith in
    let low : n % 4 ≡ y = omega arith in
    ap₂ (λ u v. bit_or (u * 4) v) (sym high) (sym low)
    ∙ agree_below (λ z. bit_or (z / 4 * 4) (z % 4)) (λ z. z) 64 refl n (omega arith)

pub index_second_lem : (a b : ℕ) → IsByte a → IsByte b → index_second a b ≡ a % 4 * 16 + b / 16
unfolding index_second
index_second_lem a b h k =
    rw (low_two a h, high_four b k) (join_second (a % 4) (b / 16) (omega arith) (omega arith))

pub index_third_lem : (b c : ℕ) → IsByte b → IsByte c → index_third b c ≡ b % 16 * 4 + c / 64
unfolding index_third
index_third_lem b c h k =
    rw (low_four b h, high_two c k) (join_third (b % 16) (c / 64) (omega arith) (omega arith))
