-- ===== src/Rust/Run.antt =====
-- Methods on `&mut self` that return a `Result`: what they return, and the object as they leave
-- it, also where they fail.
use scanner_button.Prelude.{Bool, true, false}
use scanner_button.Rust.Outcome.{Outcome, ok, err, panic}

abbrev pub Run : Type 0 → Type 0 → Type 0 → Type 0
Run S E A = S → Outcome A E × S

abbrev pub continue : {S E A B : Type 0} → Outcome A E × S → (A → Run S E B) → Outcome B E × S
continue (ok a, s) next = next a s
continue (err e, s) next = (err e, s)
continue (panic, s) next = (panic, s)

infixl 5 ◌>>=◌ ◌>>◌
abbrev pub ◌>>=◌ : {S E A B : Type 0} → Run S E A → (A → Run S E B) → Run S E B
first >>= next = λ s. continue (first s) next

abbrev pub ◌>>◌ : {S E A B : Type 0} → Run S E A → Run S E B → Run S E B
first >> second = first >>= λ _. second

abbrev pub pure : {S E A : Type 0} → A → Run S E A
pure a = λ s. (ok a, s)

abbrev pub fail : {S E A : Type 0} → E → Run S E A
fail e = λ s. (err e, s)

-- `?` on a result that leaves the object alone.
abbrev pub lift : {S E A : Type 0} → Outcome A E → Run S E A
lift r = λ s. (r, s)

abbrev pub get : {S E : Type 0} → Run S E S
get = λ s. (ok s, s)

abbrev pub modify : {S E : Type 0} → (S → S) → Run S E (Unit {0})
modify f = λ s. (ok tt, f s)

-- `anyhow::ensure!`
abbrev pub ensure : {S E : Type 0} → Bool → E → Run S E (Unit {0})
ensure true e = pure tt
ensure false e = fail e
