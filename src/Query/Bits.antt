-- ===== src/Query/Bits.antt =====
-- The binary digits of `&`, `|` and `~`.
use ryan_mqtt.Prelude.{
  arith, bit_and, bit_or, if◌then◌else◌, suc, zero, refl, ap, ℕ, ◌%◌, ◌*◌, ◌+◌, ◌-◌, ◌/◌, ◌<◌, ◌==◌,
  ◌^◌, ◌≡◌, ◌≤◌, ◌∙◌,
}
use Prim.Native.Nat.{min, max, digits, bit_and-bitwise, bit_or-bitwise}

-- The binary digit of weight 2^i.
abbrev pub digit_at : ℕ → ℕ → ℕ
digit_at zero n = n % 2
digit_at (suc i) n = digit_at i (n / 2)

-- More digits to go than there are change nothing.
digits_fuel :
    (z : ℕ → ℕ) (f : ℕ → ℕ → ℕ) (n m a b : ℕ) → a ≤ n → a ≤ m → digits z f n a b ≡ digits z f m a b
digits_fuel z f zero zero zero b h k = refl
digits_fuel z f zero (suc m) zero b h k = refl
digits_fuel z f (suc n) zero zero b h k = refl
digits_fuel z f (suc n) (suc m) zero b h k = refl
digits_fuel z f zero m (suc a) b h k = absurd (omega arith)
digits_fuel z f (suc n) zero (suc a) b h k = absurd (omega arith)
digits_fuel z f (suc n) (suc m) (suc a) b h k =
    ap (λ x. x * 2 + f (suc a % 2) (b % 2))
      (digits_fuel z f n m (suc a / 2) (b / 2) (omega arith) (omega arith))

and_eq : (a b : ℕ) → bit_and a b ≡ digits (λ c. 0) min a a b
and_eq a b = λ i. bit_and-bitwise a b i

or_eq : (a b : ℕ) → bit_or a b ≡ digits (λ c. c) max a a b
or_eq a b = λ i. bit_or-bitwise a b i

-- The lowest digit, and the others.
and_step : (a b : ℕ) → bit_and a b ≡ bit_and (a / 2) (b / 2) * 2 + min (a % 2) (b % 2)
and_step zero b = omega (arith, and_eq zero b, and_eq zero (b / 2))
and_step (suc a) b =
    let e =
      digits_fuel (λ c. 0) min a (suc a / 2) (suc a / 2) (b / 2) (omega arith) (omega arith) in
    rw (and_eq (suc a) b, and_eq (suc a / 2) (b / 2)) (ap (λ x. x * 2 + min (suc a % 2) (b % 2)) e)

or_step : (a b : ℕ) → bit_or a b ≡ bit_or (a / 2) (b / 2) * 2 + max (a % 2) (b % 2)
or_step zero b = omega (arith, or_eq zero b, or_eq zero (b / 2))
or_step (suc a) b =
    let e =
      digits_fuel (λ c. c) max a (suc a / 2) (suc a / 2) (b / 2) (omega arith) (omega arith) in
    rw (or_eq (suc a) b, or_eq (suc a / 2) (b / 2)) (ap (λ x. x * 2 + max (suc a % 2) (b % 2)) e)

pub digit_at-bit_and : (i a b : ℕ) → digit_at i (bit_and a b) ≡ min (digit_at i a) (digit_at i b)
digit_at-bit_and zero a b = omega (arith, and_step a b)
digit_at-bit_and (suc i) a b =
    let e : bit_and a b / 2 ≡ bit_and (a / 2) (b / 2) = omega (arith, and_step a b) in
    rw e (digit_at-bit_and i (a / 2) (b / 2))

pub digit_at-bit_or : (i a b : ℕ) → digit_at i (bit_or a b) ≡ max (digit_at i a) (digit_at i b)
digit_at-bit_or zero a b = omega (arith, or_step a b)
digit_at-bit_or (suc i) a b =
    let e : bit_or a b / 2 ≡ bit_or (a / 2) (b / 2) = omega (arith, or_step a b) in
    rw e (digit_at-bit_or i (a / 2) (b / 2))

and_zero : (k a : ℕ) → digits (λ c. 0) min k a 0 ≡ 0
and_zero zero a = refl
and_zero (suc k) zero = refl
and_zero (suc k) (suc a) = omega (arith, and_zero k (suc a / 2))

bit_and_zero : (a : ℕ) → bit_and a 0 ≡ 0
bit_and_zero a = and_eq a 0 ∙ and_zero a a

double : (k : ℕ) → 2 ^ suc k ≡ 2 ^ k * 2
double k = omega arith

pub positive : (k : ℕ) → 0 < 2 ^ k
positive zero = omega arith
positive (suc k) = omega (arith, double k, positive k)

-- `&` with a single bit.
pub bit_and-power : (k a : ℕ) → bit_and a (2 ^ k) ≡ digit_at k a * 2 ^ k
bit_and-power zero a = omega (arith, and_step a 1, bit_and_zero (a / 2))
bit_and-power (suc k) a =
    let half : 2 ^ suc k / 2 ≡ 2 ^ k = omega (arith, double k) in
    let even : 2 ^ suc k % 2 ≡ 0 = omega (arith, double k) in
    let s = rw half at (and_step a (2 ^ suc k)) in
    omega (arith, s, even, bit_and-power k (a / 2), ap (λ x. digit_at k (a / 2) * x) (double k))

digit_at_zero : (k : ℕ) → digit_at k 0 ≡ 0
digit_at_zero zero = refl
digit_at_zero (suc k) = digit_at_zero k

pub digit_at-power : (k j : ℕ) → digit_at k (2 ^ j) ≡ (if k == j then 1 else 0)
digit_at-power zero zero = refl
digit_at-power zero (suc j) = ground (arith, double j)
digit_at-power (suc k) zero = ground (arith, digit_at_zero k)
digit_at-power (suc k) (suc j) =
    let half : 2 ^ suc j / 2 ≡ 2 ^ j = omega (arith, double j) in
    rw half (ground (arith, digit_at-power k j))

-- `~` on n digits.
pub digit_at-complement :
    (k n x : ℕ) → k < n → x < 2 ^ n → digit_at k (2 ^ n - 1 - x) ≡ 1 - digit_at k x
digit_at-complement k zero x h l = absurd (omega arith)
digit_at-complement zero (suc n) x h l = omega (arith, double n)
digit_at-complement (suc k) (suc n) x h l =
    let half : (2 ^ suc n - 1 - x) / 2 ≡ 2 ^ n - 1 - x / 2 = omega (arith, double n) in
    rw half (digit_at-complement k n (x / 2) (omega arith) (omega (arith, double n)))

pub digit_at-small : (k a : ℕ) → digit_at k a < 2
digit_at-small zero a = omega arith
digit_at-small (suc k) a = digit_at-small k (a / 2)
