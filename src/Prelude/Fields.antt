-- ===== src/Prelude/Fields.antt =====
-- Ranges of bits under `|`.
use Prim.Native.Nat.{ℕ, zero, suc, ◌+◌, ◌*◌, ◌/◌, ◌%◌, ◌^◌, ◌<◌, bit_or, bit_or-bitwise}
use mathlib.Core.Path.{◌≡◌, sym, ap, ap₂, ◌∙◌}
use mathlib.Core.Bool.{Bool, ◌||◌}
use native.Mathlib.Nat.{
  pow-suc, mul_comm, div-div-eq-div-mul, one-le-pow, mod-lt, div-add-mod', mul-add-div_right,
  mul-add-mod_self_right, div-eq_of_lt, mod-eq_of_lt,
}
use native.Mathlib.Omega.{arith}
use e1000_emu.Prelude.Bits.{
  bit, bits, digit, join, mul-pow-suc, bit_or_step, bit_or-join, bit_or-zero_left,
  bit_or-zero_right, bit_or-digit, bit-eq-of_digit,
}

pub bit_or-lt : (k x y : ℕ) → x < 2 ^ k → y < 2 ^ k → bit_or x y < 2 ^ k
bit_or-lt zero x y h k = omega (arith, h, k, bit_or-bitwise x y, ap₂ bit_or (none x h) (none y k))
  where
    none : (x : ℕ) → x < 2 ^ 0 → x ≡ 0
    none x h = omega (arith, h)
bit_or-lt (suc n) x y h k = omega (
  arith,
  bit_or_step x y,
  pow-suc 2 n,
  bit_or-lt n (x / 2) (y / 2) (omega (arith, pow-suc 2 n, h)) (omega (arith, pow-suc 2 n, k)),
)

pow_pos : (k : ℕ) → 0 < 2 ^ k
pow_pos k = omega (arith, one-le-pow k 2 (omega arith))

low-lt : (k x y : ℕ) → bit_or (x % 2 ^ k) (y % 2 ^ k) < 2 ^ k
low-lt k x y = bit_or-lt k (x % 2 ^ k) (y % 2 ^ k) (mod-lt x (pow_pos k)) (mod-lt y (pow_pos k))

split : (k x : ℕ) → x ≡ join k (x / 2 ^ k) (x % 2 ^ k)
split k x = sym (div-add-mod' x (2 ^ k))

bit_or-split :
    (k x y : ℕ)
    → bit_or x y ≡ bit_or (x / 2 ^ k) (y / 2 ^ k) * 2 ^ k + bit_or (x % 2 ^ k) (y % 2 ^ k)
bit_or-split k x y =
    ap₂ bit_or (split k x) (split k y)
    ∙ bit_or-join k (x / 2 ^ k) (y / 2 ^ k) (x % 2 ^ k) (y % 2 ^ k) (mod-lt x (pow_pos k))
        (mod-lt y (pow_pos k))

pub bit_or-div : (k x y : ℕ) → bit_or x y / 2 ^ k ≡ bit_or (x / 2 ^ k) (y / 2 ^ k)
bit_or-div k x y =
    ap (λ n. n / 2 ^ k) (bit_or-split k x y)
    ∙ mul-add-div_right (pow_pos k) (bit_or (x / 2 ^ k) (y / 2 ^ k))
        (bit_or (x % 2 ^ k) (y % 2 ^ k))
    ∙ omega (arith, div-eq_of_lt (low-lt k x y))

pub bit_or-mod : (k x y : ℕ) → bit_or x y % 2 ^ k ≡ bit_or (x % 2 ^ k) (y % 2 ^ k)
bit_or-mod k x y =
    ap (λ n. n % 2 ^ k) (bit_or-split k x y)
    ∙ mul-add-mod_self_right (bit_or (x / 2 ^ k) (y / 2 ^ k)) (2 ^ k)
        (bit_or (x % 2 ^ k) (y % 2 ^ k))
    ∙ mod-eq_of_lt (low-lt k x y)

pub bits-bit_or : (lo n x y : ℕ) → bits lo n (bit_or x y) ≡ bit_or (bits lo n x) (bits lo n y)
bits-bit_or lo n x y = rw (bit_or-div lo x y) (bit_or-mod n (x / 2 ^ lo) (y / 2 ^ lo))

-- A range that is free on the one side.
pub bits-bit_or_left :
    (lo n x y v : ℕ) → bits lo n x ≡ v → bits lo n y ≡ 0 → bits lo n (bit_or x y) ≡ v
bits-bit_or_left lo n x y v h k = bits-bit_or lo n x y ∙ rw (h, k) (bit_or-zero_right v)

pub bits-bit_or_right :
    (lo n x y v : ℕ) → bits lo n x ≡ 0 → bits lo n y ≡ v → bits lo n (bit_or x y) ≡ v
bits-bit_or_right lo n x y v h k = bits-bit_or lo n x y ∙ rw (h, k) (bit_or-zero_left v)

digit-bit_or : (k x y : ℕ) → bit_or x y / 2 ^ k % 2 ≡ bit_or (x / 2 ^ k % 2) (y / 2 ^ k % 2)
digit-bit_or k x y = bits-bit_or k 1 x y

pub bit-bit_or :
    (k x y : ℕ) (b c : Bool)
    → x / 2 ^ k % 2 ≡ digit b
    → y / 2 ^ k % 2 ≡ digit c
    → bit k (bit_or x y) ≡ b || c
bit-bit_or k x y b c h l =
    bit-eq-of_digit k (bit_or x y) (b || c) (digit-bit_or k x y ∙ rw (h, l) (bit_or-digit b c))

-- A bit of the number itself adds nothing.
pub bit_or-own : (k x d : ℕ) → x / 2 ^ k % 2 ≡ d → bit_or (d * 2 ^ k) x ≡ x
bit_or-own zero x d h =
    let low : d * 2 ^ 0 / 2 ≡ 0 = omega (arith, h) in
    bit_or_step (d * 2 ^ 0) x ∙ rw (low, bit_or-zero_left (x / 2)) (omega (arith, h))
bit_or-own (suc k) x d h =
    let half : d * 2 ^ suc k / 2 ≡ d * 2 ^ k = omega (arith, mul-pow-suc d k) in
    let next : x / 2 / 2 ^ k % 2 ≡ d =
      ap (λ n. n % 2)
        (div-div-eq-div-mul x 2 (2 ^ k) ∙ ap (λ n. x / n) (mul_comm 2 (2 ^ k) ∙ sym (pow-suc 2 k)))
      ∙ h in
    bit_or_step (d * 2 ^ suc k) x
    ∙ rw (half, bit_or-own k (x / 2) d next) (omega (arith, mul-pow-suc d k))
