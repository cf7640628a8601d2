-- ===== src/Rust/Float.antt =====
-- `f32`, as far as the code uses it: finite numbers that are not negative, a product, and the casts
-- from and to `u64`.
use scanner_button.Prelude.{
  ℕ, zero, suc, ◌+◌, ◌-◌, ◌*◌, ◌/◌, ◌%◌, ◌^◌, ltb, ◌==◌, ◌&&◌, ◌||◌, if◌then◌else◌, ◌≡◌, refl,
}
use Prim.Native.Nat.{min}

-- The unit is 2 ^ -149, of which every `f32` is a multiple.
pub record F32 : Type 0 where
  pub units : ℕ

-- The power of two by which a number exceeds 24 binary digits.
unfoldable pub excess : ℕ → ℕ → ℕ
excess zero n = 1
excess (suc fuel) n = let half = excess fuel (n / 2) in if ltb n 0x1000000 then 1 else 2 * half

-- To the nearest multiple of the spacing, and to the even one in the middle.
unfoldable pub round_to : ℕ → ℕ → ℕ
round_to ulp n =
    let quotient = n / ulp in
    let remainder = n % ulp in
    if ltb ulp (2 * remainder) || ((2 * remainder == ulp) && (quotient % 2 == 1))
    then (quotient + 1) * ulp
    else quotient * ulp

-- A number of units beyond the largest `f32` stands for infinity.
abbrev float_fuel : ℕ
float_fuel = 600

-- `secs as f32`
unfoldable pub f32_of_u64 : ℕ → F32
f32_of_u64 n = record { units = round_to (excess float_fuel n) n * 2 ^ 149 }

-- The product, exact in units of 2 ^ -298 and then rounded to the spacing of its size, which is at
-- least one unit.
unfoldable pub mul : F32 → F32 → F32
mul a b =
    let exact = a.units * b.units in
    let whole = exact / 2 ^ 149 in
    record { units = round_to (excess float_fuel whole * 2 ^ 149) exact / 2 ^ 149 }

-- `x as u64` drops the fraction and saturates.
unfoldable pub u64_of_f32 : F32 → ℕ
u64_of_f32 a = min (a.units / 2 ^ 149) (2 ^ 64 - 1)

-- 1.5 and 2
abbrev three_halves : F32
three_halves = record { units = 3 * 2 ^ 148 }

-- One second times 1.5 is one second again.
grow_1 : u64_of_f32 (mul (f32_of_u64 1) three_halves) ≡ 1
unfolding u64_of_f32 mul f32_of_u64 round_to excess
grow_1 = refl

grow_60 : u64_of_f32 (mul (f32_of_u64 60) three_halves) ≡ 90
unfolding u64_of_f32 mul f32_of_u64 round_to excess
grow_60 = refl

-- A number of 25 digits is rounded to an even one.
cast_odd : u64_of_f32 (f32_of_u64 0x1000001) ≡ 0x1000000
unfolding u64_of_f32 f32_of_u64 round_to excess
cast_odd = refl
