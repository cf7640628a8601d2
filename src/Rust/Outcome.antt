-- ===== src/Rust/Outcome.antt =====
-- `Result<A, E>` with the `?` operator, where a call may also panic.
use scanner_button.Prelude.{◌≡◌, refl, ◌⊎◌, inl, inr, Option, none, some}

pub data Outcome {ℓ} (A : Type ℓ) (E : Type ℓ) : Type ℓ where
  ok : A → Outcome A E
  err : E → Outcome A E
  panic : Outcome A E

-- `let a = m?; f a`
infixl 5 ◌>>=◌
abbrev pub ◌>>=◌ {ℓ} : {A B E : Type ℓ} → Outcome A E → (A → Outcome B E) → Outcome B E
panic >>= next = panic
err error >>= next = err error
ok value >>= next = next value

abbrev pub map_ok {ℓ} : {A B E : Type ℓ} → (A → B) → Outcome A E → Outcome B E
map_ok f (ok a) = ok (f a)
map_ok f (err e) = err e
map_ok f panic = panic

abbrev pub map_err {ℓ} : {A E F : Type ℓ} → (E → F) → Outcome A E → Outcome A F
map_err f (ok a) = ok a
map_err f (err e) = err (f e)
map_err f panic = panic

-- `Option::ok_or`
abbrev pub ok_or {ℓ} : {A E : Type ℓ} → Option A → E → Outcome A E
ok_or none e = err e
ok_or (some a) e = ok a

-- `Option::unwrap`
abbrev pub unwrap_option {ℓ} : {A E : Type ℓ} → Option A → Outcome A E
unwrap_option none = panic
unwrap_option (some a) = ok a

-- `Result::unwrap`, at an error type that the caller goes on with.
abbrev pub unwrap {ℓ} : {A E F : Type ℓ} → Outcome A E → Outcome A F
unwrap (ok a) = ok a
unwrap (err e) = panic
unwrap panic = panic

-- What a chain that succeeds went through.
pub >>=-eq-ok {ℓ} :
    {A B E : Type ℓ} (r : Outcome A E) (next : A → Outcome B E) {result : B}
    → (r >>= next) ≡ ok result
    → (value : A) × (r ≡ ok value) × (next value ≡ ok result)
>>=-eq-ok panic next reached = cc
>>=-eq-ok (err error) next reached = cc
>>=-eq-ok (ok value) next reached = (value, refl, reached)

pub ok-injective {ℓ} : {A E : Type ℓ} (a b : A) → ◌≡◌ {A = Outcome A E} (ok a) (ok b) → a ≡ b
ok-injective a b h = cc

pub Outcome-cases {ℓ} :
    {A E : Type ℓ} (r : Outcome A E)
    → ((a : A) × (r ≡ ok a)) ⊎ (((e : E) × (r ≡ err e)) ⊎ (r ≡ panic))
Outcome-cases (ok a) = inl (a, refl)
Outcome-cases (err e) = inr (inl (e, refl))
Outcome-cases panic = inr (inr refl)

pub >>=_assoc {ℓ} :
    {A B C E : Type ℓ} (m : Outcome A E) (f : A → Outcome B E) (g : B → Outcome C E)
    → (m >>= λ a. f a >>= g) ≡ ((m >>= f) >>= g)
>>=_assoc (ok a) f g = refl
>>=_assoc (err e) f g = refl
>>=_assoc panic f g = refl
