-- ===== src/Rust/Rounding.antt =====
-- `f32`: rounding to 24 binary digits does not go below a number that has as many.
use native.Mathlib.Nat.{
  pow-le-pow_right, mul-le-mul_right, mul_assoc, mul_comm, mul-le-mul, le_trans, le-div_iff_mul-le,
  div-div-eq-div-mul, pow-suc,
}
use Prim.Native.Nat.{min}
use scanner_button.Prelude.{
  ℕ, zero, suc, ◌+◌, ◌-◌, ◌*◌, ◌/◌, ◌%◌, ◌^◌, ◌<◌, ◌≤◌, ◌≡◌, ◌⊎◌, ◌∙◌, sym, ap, inl, inr, refl, ltb,
  ◌==◌, ◌&&◌, ◌||◌, Bool-cases, arith, not_ltb→le, ltb→lt,
}
use scanner_button.Rust.Float.{F32, excess, round_to, f32_of_u64, mul, u64_of_f32}

-- A spacing is a power of two. Above 1 it leaves at least 24 digits.
pub record IsSpacing (u n : ℕ) : Type 0 where
  pub exponent : ℕ
  pub power : u ≡ 2 ^ exponent
  pub digits_left : (exponent ≡ 0) ⊎ (2 ^ 23 * u ≤ n)

double-IsSpacing : (u n : ℕ) → 2 ^ 24 ≤ n → IsSpacing u (n / 2) → IsSpacing (2 * u) n
double-IsSpacing u n large h = record {
  exponent = suc h.exponent;
  power = ap (λ (k : ℕ). 2 * k) h.power ∙ omega (arith, pow-suc 2 h.exponent);
  digits_left = inr (elim h.digits_left [
    | inl none ↦ omega (arith, h.power ∙ ap (λ (k : ℕ). 2 ^ k) none)
    | inr left ↦ omega arith
  ]);
}

pub excess-IsSpacing : (fuel n : ℕ) → IsSpacing (excess fuel n) n
unfolding excess
excess-IsSpacing zero n = record { exponent = 0; power = refl; digits_left = inl refl }
excess-IsSpacing (suc fuel) n = elim (Bool-cases (ltb n 0x1000000)) [
  | inl small ↦ rw small (record { exponent = 0; power = refl; digits_left = inl refl })
  | inr large ↦ rw large (
      double-IsSpacing (excess fuel (n / 2)) n (not_ltb→le _ _ large)
        (excess-IsSpacing fuel (n / 2)))
]

round_to-ge : (ulp n : ℕ) → n / ulp * ulp ≤ round_to ulp n
unfolding round_to
round_to-ge ulp n =
    elim (Bool-cases (ltb ulp (2 * (n % ulp)) || ((2 * (n % ulp) == ulp) && (n / ulp % 2 == 1)))) [
      | inl up ↦ rw up (mul-le-mul_right ulp (omega arith))
      | inr down ↦ rw down (omega arith)
    ]

pow_add : (a b : ℕ) → 2 ^ (a + b) ≡ 2 ^ a * 2 ^ b
pow_add a zero = ap (λ (k : ℕ). 2 ^ k) {y = a} (omega arith) ∙ omega arith
pow_add a (suc b) =
    ap (λ (k : ℕ). 2 ^ k) {y = suc (a + b)} (omega arith)
    ∙ pow-suc 2 (a + b)
    ∙ ap (λ (k : ℕ). k * 2) (pow_add a b)
    ∙ mul_assoc (2 ^ a) (2 ^ b) 2
    ∙ ap (λ (k : ℕ). 2 ^ a * k) (sym (pow-suc 2 b))

-- A multiple of the spacing below a number is not above the next lower one.
multiple-le : (u x n : ℕ) → 0 < u → x * u ≤ n → x * u ≤ n / u * u
multiple-le u x n pos h = mul-le-mul_right u ((le-div_iff_mul-le pos).1 h)

spacing_pos : (u n : ℕ) → IsSpacing u n → 0 < u
spacing_pos u n h =
    rw h.power (pow-le-pow_right {n = 2} (omega arith) {i = 0} {j = h.exponent} (omega arith))

floor-ge : (u n d : ℕ) → IsSpacing u n → d < 2 ^ 24 → d * 2 ^ 149 ≤ n → d * 2 ^ 149 ≤ n / u * u
floor-ge u n d h small below = elim (Bool-cases (ltb 149 h.exponent)) [
  | inl coarse ↦
      let high : 2 ^ 150 ≤ u =
        rw h.power (pow-le-pow_right (omega arith) (ltb→lt 149 h.exponent coarse)) in
      elim h.digits_left [
        | inl none ↦ absurd (omega (arith, ltb→lt 149 h.exponent coarse))
        | inr left ↦ omega (arith, multiple-le u (2 ^ 23) n (spacing_pos u n h) left)
      ]
  | inr fine ↦
      let e : ℕ = h.exponent in
      let split : 2 ^ 149 ≡ 2 ^ (149 - e) * 2 ^ e =
        ap (λ (k : ℕ). 2 ^ k) {x = 149} (omega (arith, not_ltb→le 149 e fine))
        ∙ pow_add (149 - e) e in
      let same : d * 2 ^ 149 ≡ d * 2 ^ (149 - e) * u =
        ap (◌*◌ d) split
        ∙ sym (mul_assoc d (2 ^ (149 - e)) (2 ^ e))
        ∙ ap (◌*◌ (d * 2 ^ (149 - e))) (sym h.power) in
      rw same (multiple-le u (d * 2 ^ (149 - e)) n (spacing_pos u n h) (rw same at below))
]

scaled-ge : (k u exact : ℕ) → 0 < k → exact / k / u * u ≤ round_to (u * k) exact / k
scaled-ge k u exact pos =
    let same : exact / k / u ≡ exact / (u * k) =
      div-div-eq-div-mul exact k u ∙ ap (λ (m : ℕ). exact / m) (mul_comm k u) in
    (le-div_iff_mul-le pos).1 (rw (mul_assoc (exact / k / u) u k, same) (round_to-ge (u * k) exact))

-- A product by a factor of 1 or more is not below a number of 24 digits.
pub mul-ge :
    (a b : F32) (d : ℕ)
    → d < 2 ^ 24
    → d * 2 ^ 149 ≤ a.units
    → 2 ^ 149 ≤ b.units
    → d * 2 ^ 149 ≤ (mul a b).units
unfolding mul
mul-ge a b d small left factor =
    let whole : ℕ = a.units * b.units / 2 ^ 149 in
    let below : d * 2 ^ 149 ≤ whole =
      (le-div_iff_mul-le {k = 2 ^ 149} (omega arith)).1 (mul-le-mul left factor) in
    le_trans (floor-ge (excess 600 whole) whole d (excess-IsSpacing 600 whole) small below)
      (scaled-ge (2 ^ 149) (excess 600 whole) (a.units * b.units) (omega arith))

-- A number that is rounded does not fall below the numbers of 24 digits.
spaced-ge : (u n : ℕ) → IsSpacing u n → min n 0xffffff ≤ n / u * u
spaced-ge u n h = elim (Bool-cases (ltb 1 u)) [
  | inr one ↦
      let same : u ≡ 1 = omega (arith, spacing_pos u n h, not_ltb→le 1 u one) in
      rw same (omega arith)
  | inl more ↦ elim h.digits_left [
    | inl none ↦ absurd (omega (arith, ltb→lt 1 u more, h.power ∙ ap (λ (k : ℕ). 2 ^ k) none))
    | inr left ↦ omega (arith, ltb→lt 1 u more, multiple-le u (2 ^ 23) n (spacing_pos u n h) left)
  ]
]

pub cast-ge : (d : ℕ) → min d 0xffffff * 2 ^ 149 ≤ (f32_of_u64 d).units
unfolding f32_of_u64
cast-ge d =
    mul-le-mul_right (2 ^ 149) (
      le_trans (spaced-ge (excess 600 d) d (excess-IsSpacing 600 d)) (round_to-ge (excess 600 d) d))

pub u64_of_f32-ge : (a : F32) (d : ℕ) → d < 2 ^ 24 → d * 2 ^ 149 ≤ a.units → d ≤ u64_of_f32 a
unfolding u64_of_f32
u64_of_f32-ge a d small h =
    let low : d ≤ a.units / 2 ^ 149 = (le-div_iff_mul-le {k = 2 ^ 149} (omega arith)).1 h in
    omega arith

-- A number of seconds that is scaled by a factor of 1 or more is not less than it was, or not less
-- than the largest number of 24 digits.
pub scale-ge :
    (d : ℕ) (factor : F32)
    → 2 ^ 149 ≤ factor.units
    → min d 0xffffff ≤ u64_of_f32 (mul (f32_of_u64 d) factor)
scale-ge d factor h =
    let least : ℕ = min d 0xffffff in
    let small : least < 2 ^ 24 = omega arith in
    u64_of_f32-ge (mul (f32_of_u64 d) factor) least small
      (mul-ge (f32_of_u64 d) factor least small (cast-ge d) h)
