-- ===== src/Rust/Bits.antt =====
-- The binary digits that the code tests, as arithmetic.
use Prim.Native.Nat.{min, bit_and, bit_and-bitwise, digits}
use scanner_button.Prelude.{ℕ, zero, suc, ◌+◌, ◌*◌, ◌/◌, ◌%◌, ◌≤◌, ◌≡◌, refl, sym, arith}

abbrev and_digits : ℕ → ℕ → ℕ → ℕ
and_digits = digits (λ _. zero) min

-- Any count of digits that reaches the end of the first number gives `bit_and`.
and_digits_enough : (n m a b : ℕ) → m ≤ n → a ≤ m → and_digits m a b ≡ bit_and a b
and_digits_enough n zero zero b p q = sym (bit_and-bitwise 0 b)
and_digits_enough n zero (suc a) b p q = absurd (omega arith)
and_digits_enough n (suc m) zero b p q = sym (bit_and-bitwise 0 b)
and_digits_enough zero (suc m) (suc a) b p q = absurd (omega arith)
and_digits_enough (suc n) (suc m) (suc a) b p q = omega (
  arith,
  bit_and-bitwise (suc a) b,
  and_digits_enough n m (suc a / 2) (b / 2) (omega arith) (omega arith),
  and_digits_enough n a (suc a / 2) (b / 2) (omega arith) (omega arith),
)

-- The lowest digit apart.
bit_and_halves : (a b : ℕ) → bit_and a b ≡ bit_and (a / 2) (b / 2) * 2 + min (a % 2) (b % 2)
bit_and_halves zero b = omega (arith, bit_and-bitwise 0 b, bit_and-bitwise 0 (b / 2))
bit_and_halves (suc a) b = omega (
  arith,
  bit_and-bitwise (suc a) b,
  and_digits_enough a a (suc a / 2) (b / 2) (omega arith) (omega arith),
)

no_bits : (bound x : ℕ) → x ≤ bound → bit_and x 0 ≡ 0
no_bits bound zero small = refl
no_bits zero (suc x) small = absurd (omega arith)
no_bits (suc bound) (suc x) small =
    omega (arith, bit_and_halves (suc x) 0, no_bits bound (suc x / 2) (omega arith))

lowest_bit : (x : ℕ) → bit_and x 1 ≡ x % 2
lowest_bit x = omega (arith, bit_and_halves x 1, no_bits (x / 2) (x / 2) (omega arith))

bit_and_4 : (a : ℕ) → bit_and a 0x4 ≡ a / 4 % 2 * 4
bit_and_4 a =
    omega (arith, bit_and_halves a 0x4, bit_and_halves (a / 2) 0x2, lowest_bit (a / 2 / 2))

bit_and_64 : (a : ℕ) → bit_and a 0x40 ≡ a / 64 % 2 * 64
bit_and_64 a = omega (
  arith,
  bit_and_halves a 0x40,
  bit_and_halves (a / 2) 0x20,
  bit_and_halves (a / 2 / 2) 0x10,
  bit_and_halves (a / 2 / 2 / 2) 0x8,
  bit_and_4 (a / 2 / 2 / 2 / 2),
)

bit_and_1024 : (a : ℕ) → bit_and a 0x400 ≡ a / 1024 % 2 * 1024
bit_and_1024 a = omega (
  arith,
  bit_and_halves a 0x400,
  bit_and_halves (a / 2) 0x200,
  bit_and_halves (a / 2 / 2) 0x100,
  bit_and_halves (a / 2 / 2 / 2) 0x80,
  bit_and_64 (a / 2 / 2 / 2 / 2),
)

-- Bit 15, which marks an interrupt.
pub bit_and_0x8000 : (a : ℕ) → bit_and a 0x8000 ≡ a / 0x8000 % 2 * 0x8000
bit_and_0x8000 a = omega (
  arith,
  bit_and_halves a 0x8000,
  bit_and_halves (a / 2) 0x4000,
  bit_and_halves (a / 2 / 2) 0x2000,
  bit_and_halves (a / 2 / 2 / 2) 0x1000,
  bit_and_halves (a / 2 / 2 / 2 / 2) 0x800,
  bit_and_1024 (a / 2 / 2 / 2 / 2 / 2),
)

-- The lowest two bits.
pub bit_and_3 : (a : ℕ) → bit_and a 3 ≡ a % 4
bit_and_3 a = omega (arith, bit_and_halves a 3, lowest_bit (a / 2))
