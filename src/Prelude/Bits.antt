-- ===== src/Prelude/Bits.antt =====
-- Binary digits of the native numbers: single bits as Booleans, and the laws of `&` and `|` on
-- numbers that are put together from fields.
use Prim.Native.Nat.{ℕ, zero, suc, ◌+◌, ◌-◌, ◌*◌, ◌/◌, ◌%◌, ◌^◌, ◌≤◌, ◌<◌, min, max}
use Prim.Native.Nat.{bit_and, bit_or, digits, bit_and-bitwise, bit_or-bitwise}
use mathlib.Core.Path.{◌≡◌, refl, ap, ap₂, subst, ◌∙◌}
use mathlib.Core.Bool.{Bool, true, false, not, ◌&&◌, ◌||◌}
use native.Mathlib.Nat.{pow-suc, mul_comm, mul_assoc, div-div-eq-div-mul}
use native.Mathlib.Omega.{arith}
use native.Mathlib.Decide.{dec_lt}
use e1000_emu.Prelude.Tests.{◌==◌}

-- A Boolean as a binary digit.
abbrev pub digit : Bool → ℕ
digit true = 1
digit false = 0

-- Bit `k` of `w`, as a Boolean.
abbrev pub bit : ℕ → ℕ → Bool
bit k w = w / 2 ^ k % 2 == 1

-- Bits `lo` to `lo + n - 1` of `w`.
abbrev pub bits : ℕ → ℕ → ℕ → ℕ
bits lo n w = w / 2 ^ lo % 2 ^ n

pub digit-lt : (b : Bool) → digit b < 2
digit-lt true = omega arith
digit-lt false = omega arith

-- The native operations stand for a recursion on digits. A step of fuel more than is needed
-- changes nothing.
spare-step :
    (rest : ℕ → ℕ) (op : ℕ → ℕ → ℕ) (fuel x y : ℕ)
    → x ≤ fuel
    → digits rest op (suc fuel) x y ≡ digits rest op fuel x y
spare-step rest op zero zero y le = refl
spare-step rest op zero (suc x) y le = absurd (omega arith)
spare-step rest op (suc fuel) zero y le = refl
spare-step rest op (suc fuel) (suc x) y le =
    ap (λ (low : ℕ). low * 2 + op (suc x % 2) (y % 2))
      (spare-step rest op fuel (suc x / 2) (y / 2) (omega arith))

spare-steps :
    (rest : ℕ → ℕ) (op : ℕ → ℕ → ℕ) (fuel x y : ℕ)
    → x ≤ fuel
    → digits rest op fuel x y ≡ digits rest op x x y
spare-steps rest op zero x y le =
    let none : 0 ≡ x = omega arith in ap (λ n. digits rest op n x y) none
spare-steps rest op (suc fuel) x y le = elim (dec_lt fuel x) [
  | yes last ↦ let all : suc fuel ≡ x = omega arith in ap (λ n. digits rest op n x y) all
  | no more ↦ spare-step rest op fuel x y (omega arith) ∙ spare-steps rest op fuel x y (omega arith)
]

-- The lowest digit apart from the others.
pub bit_or_step : (x y : ℕ) → bit_or x y ≡ max (x % 2) (y % 2) + 2 * bit_or (x / 2) (y / 2)
bit_or_step zero y = omega (arith, bit_or-bitwise 0 y, bit_or-bitwise 0 (y / 2))
bit_or_step (suc x) y = omega (
  arith,
  bit_or-bitwise (suc x) y,
  bit_or-bitwise (suc x / 2) (y / 2),
  spare-steps (λ d. d) max x (suc x / 2) (y / 2) (omega arith),
)

pub bit_and_step : (x y : ℕ) → bit_and x y ≡ min (x % 2) (y % 2) + 2 * bit_and (x / 2) (y / 2)
bit_and_step zero y = omega (arith, bit_and-bitwise 0 y, bit_and-bitwise 0 (y / 2))
bit_and_step (suc x) y = omega (
  arith,
  spare-steps (λ d. 0) min x (suc x / 2) (y / 2) (omega arith),
  bit_and-bitwise (suc x / 2) (y / 2),
  bit_and-bitwise (suc x) y,
)

pub mul-pow-suc : (q k : ℕ) → q * 2 ^ suc k ≡ 2 * (q * 2 ^ k)
mul-pow-suc q k = omega (arith, ap (λ (t : ℕ). q * t) (pow-suc 2 k))

-- A high part above `k` low bits.
abbrev pub join : ℕ → ℕ → ℕ → ℕ
join k a x = a * 2 ^ k + x

-- Numbers put together so are combined part by part.
pub bit_and-join :
    (k a b x y : ℕ)
    → x < 2 ^ k
    → y < 2 ^ k
    → bit_and (join k a x) (join k b y) ≡ join k (bit_and a b) (bit_and x y)
bit_and-join zero a b zero zero p q = ground arith
bit_and-join zero a b (suc x) y p q = absurd (omega arith)
bit_and-join zero a b zero (suc y) p q = absurd (omega arith)
bit_and-join (suc k) a b x y p q = ground (
  arith,
  bit_and_step (a * 2 ^ suc k + x) (b * 2 ^ suc k + y),
  bit_and_step x y,
  mul-pow-suc a k,
  mul-pow-suc b k,
  mul-pow-suc (bit_and a b) k,
  pow-suc 2 k,
  bit_and-join k a b (x / 2) (y / 2) (omega (arith, pow-suc 2 k)) (omega (arith, pow-suc 2 k)),
)

pub bit_or-join :
    (k a b x y : ℕ)
    → x < 2 ^ k
    → y < 2 ^ k
    → bit_or (join k a x) (join k b y) ≡ join k (bit_or a b) (bit_or x y)
bit_or-join zero a b zero zero p q = ground arith
bit_or-join zero a b (suc x) y p q = absurd (omega arith)
bit_or-join zero a b zero (suc y) p q = absurd (omega arith)
bit_or-join (suc k) a b x y p q = ground (
  arith,
  bit_or_step (a * 2 ^ suc k + x) (b * 2 ^ suc k + y),
  bit_or_step x y,
  mul-pow-suc a k,
  mul-pow-suc b k,
  mul-pow-suc (bit_or a b) k,
  pow-suc 2 k,
  bit_or-join k a b (x / 2) (y / 2) (omega (arith, pow-suc 2 k)) (omega (arith, pow-suc 2 k)),
)

pub bit_and-digit : (b c : Bool) → bit_and (digit b) (digit c) ≡ digit (b && c)
bit_and-digit true true = refl
bit_and-digit true false = refl
bit_and-digit false true = refl
bit_and-digit false false = refl

pub bit_or-digit : (b c : Bool) → bit_or (digit b) (digit c) ≡ digit (b || c)
bit_or-digit true true = refl
bit_or-digit true false = refl
bit_or-digit false true = refl
bit_or-digit false false = refl

-- An odd number less a digit keeps in its last bit the digit's negation.
pub bit_and-digit-not :
    (c : ℕ) (b d : Bool) → bit_and (digit b) (2 * c + 1 - digit d) ≡ digit (b && not d)
bit_and-digit-not c false d = bit_and-bitwise 0 (2 * c + 1 - digit d)
bit_and-digit-not c true true =
    omega (arith, bit_and_step 1 (2 * c + 1 - 1), bit_and-bitwise 0 ((2 * c + 1 - 1) / 2))
bit_and-digit-not c true false =
    omega (arith, bit_and_step 1 (2 * c + 1 - 0), bit_and-bitwise 0 ((2 * c + 1 - 0) / 2))

-- A bit is read off the remainder.
pub bit-eq-of_digit : (k w : ℕ) (b : Bool) → w / 2 ^ k % 2 ≡ digit b → bit k w ≡ b
bit-eq-of_digit k w true h = ground (arith, h)
bit-eq-of_digit k w false h = ground (arith, h)

pub digit-bit : (k w : ℕ) → digit (bit k w) ≡ w / 2 ^ k % 2
digit-bit k w = ground arith

pub ruleset digit_laws = (arith, digit-lt)

-- Nothing is added or left by zero; `n` bounds the number.
zero_laws : (n x : ℕ) → x ≤ n → (bit_and x 0 ≡ 0) × (bit_or x 0 ≡ x) × (bit_or 0 x ≡ x)
zero_laws zero x le =
    let none : 0 ≡ x = omega arith in
    subst (λ t. (bit_and t 0 ≡ 0) × (bit_or t 0 ≡ t) × (bit_or 0 t ≡ t)) none
      (bit_and-bitwise 0 0, bit_or-bitwise 0 0, bit_or-bitwise 0 0)
zero_laws (suc n) x le =
    let half = zero_laws n (x / 2) (omega arith) in
    (
      omega (arith, bit_and_step x 0, half.0),
      omega (arith, bit_or_step x 0, half.1),
      omega (arith, bit_or_step 0 x, half.2),
    )

pub bit_or-zero_right : (x : ℕ) → bit_or x 0 ≡ x
bit_or-zero_right x = (zero_laws x x (omega arith)).1

pub bit_or-zero_left : (x : ℕ) → bit_or 0 x ≡ x
bit_or-zero_left x = (zero_laws x x (omega arith)).2

-- A number below `2 ^ k` and one shifted by `k` are added by `|`.
pub bit_or-join_low : (k a x : ℕ) → x < 2 ^ k → bit_or x (a * 2 ^ k) ≡ a * 2 ^ k + x
bit_or-join_low k a x h =
    ap₂ bit_or (omega arith) (omega arith)
    ∙ bit_or-join k 0 a x 0 h (omega arith)
    ∙ rw ((zero_laws a a (omega arith)).2, (zero_laws x x (omega arith)).1) refl

-- `x << 1 | b`.
pub bit_or_shift : (x : ℕ) (b : Bool) → bit_or (x * 2) (digit b) ≡ 2 * x + digit b
bit_or_shift x b =
    let high : x * 2 / 2 ≡ x = omega arith in
    let low : digit b / 2 ≡ 0 = omega (arith, digit-lt b) in
    bit_or_step (x * 2) (digit b)
    ∙ rw (high, low, (zero_laws x x (omega arith)).1) (omega (arith, digit-lt b))

bit_and-one : (w : ℕ) → bit_and w 1 ≡ w % 2
bit_and-one w = omega (arith, bit_and_step w 1, (zero_laws (w / 2) (w / 2) (omega arith)).0)

bit_and-double : (w p : ℕ) → bit_and w (p * 2) ≡ bit_and (w / 2) p * 2
bit_and-double w p =
    let even : p * 2 / 2 ≡ p = omega arith in bit_and_step w (p * 2) ∙ rw even (omega arith)

-- A mask of one bit.
pub bit_and-pow : (k w : ℕ) → bit_and w (2 ^ k) ≡ digit (bit k w) * 2 ^ k
bit_and-pow zero w = omega (arith, bit_and-one w, digit-bit 0 w)
bit_and-pow (suc k) w = rw (pow-suc 2 k) (
    bit_and-double w (2 ^ k)
    ∙ (ap (λ (n : ℕ). n * 2) (bit_and-pow k (w / 2))
        ∙ rw (div-div-eq-div-mul w 2 (2 ^ k), mul_comm 2 (2 ^ k)) (mul_assoc _ _ _)))
