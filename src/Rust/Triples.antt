-- ===== src/Rust/Triples.antt =====
-- What a method that returns a `Result` leaves behind, on both of its ways out; a panic is not one.

use scanner_button.Prelude.{◌≡◌, refl, ap}
use mathlib.Core.Path.{subst}
use scanner_button.Rust.Outcome.{ok-injective, Outcome, ok, err, panic}
use scanner_button.Rust.Run.{Run, continue}

-- `good` holds of what is returned and of the object, or `bad` of the object after an error.
pub data Post {S E A : Type 0} (good : A → S → Type 0) (bad : S → Type 0)
    : Outcome A E × S → Type 0 where
  returns : (a : A) (s : S) → good a s → Post good bad (ok a, s)
  fails : (e : E) (s : S) → bad s → Post good bad (err e, s)

-- The same, where the code may panic, and then for a reason.
pub data Ends {S E A : Type 0} (good : A → S → Type 0) (bad : S → Type 0) (panics : Type 0)
    : Outcome A E × S → Type 0 where
  ends_ok : (a : A) (s : S) → good a s → Ends good bad panics (ok a, s)
  ends_err : (e : E) (s : S) → bad s → Ends good bad panics (err e, s)
  ends_panic : (s : S) → panics → Ends good bad panics (panic, s)

module _ {S E A B : Type 0} {good : A → S → Type 0} {good' : B → S → Type 0}
    {bad : S → Type 0} where
  pub continue-Post :
      (r : Outcome A E × S) (next : A → Run S E B)
      → Post good bad r
      → ((a : A) (s : S) → good a s → Post good' bad (next a s))
      → Post good' bad (continue r next)
  continue-Post r next (returns a s h) then = then a s h
  continue-Post r next (fails e s h) then = fails e s h

  pub continue-Ends :
      {panics : Type 0} (r : Outcome A E × S) (next : A → Run S E B)
      → Post good bad r
      → ((a : A) (s : S) → good a s → Ends good' bad panics (next a s))
      → Ends good' bad panics (continue r next)
  continue-Ends r next (returns a s h) then = then a s h
  continue-Ends r next (fails e s h) then = ends_err e s h

module _ {S E A : Type 0} {good : A → S → Type 0} {bad : S → Type 0} where
  pub Post-eq-ok :
      (r : Outcome A E × S) (a : A) (s : S) → Post good bad r → r ≡ (ok a, s) → good a s
  Post-eq-ok r a s (returns a' s' h) e =
      subst (λ (x : S). good a x) (ap (λ (p : Outcome A E × S). p.1) e)
        (subst (λ (x : A). good x s') (ok-injective a' a (ap (λ (p : Outcome A E × S). p.0) e)) h)
  Post-eq-ok r a s (fails x s' h) e = cc (ap (λ (p : Outcome A E × S). p.0) e)

  pub weaken :
      {better : A → S → Type 0} {r : Outcome A E × S}
      → Post good bad r
      → ((a : A) (s : S) → good a s → better a s)
      → Post better bad r
  weaken (returns a s h) k = returns a s (k a s h)
  weaken (fails e s h) k = fails e s h

  pub Post-Ends : {panics : Type 0} (r : Outcome A E × S) → Post good bad r → Ends good bad panics r
  Post-Ends r (returns a s h) = ends_ok a s h
  Post-Ends r (fails e s h) = ends_err e s h

  pub weaken-Ends :
      {panics : Type 0} {better : A → S → Type 0} {r : Outcome A E × S}
      → Ends good bad panics r
      → ((a : A) (s : S) → good a s → better a s)
      → Ends better bad panics r
  weaken-Ends (ends_ok a s h) k = ends_ok a s (k a s h)
  weaken-Ends (ends_err e s h) k = ends_err e s h
  weaken-Ends (ends_panic s h) k = ends_panic s h

  pub weaken-panics :
      {panics panics' : Type 0} (r : Outcome A E × S)
      → (panics → panics')
      → Ends good bad panics r
      → Ends good bad panics' r
  weaken-panics r k (ends_ok a s h) = ends_ok a s h
  weaken-panics r k (ends_err e s h) = ends_err e s h
  weaken-panics r k (ends_panic s h) = ends_panic s (k h)

  pub Ends-Post :
      {panics : Type 0} (r : Outcome A E × S) → ¬ panics → Ends good bad panics r → Post good bad r
  Ends-Post r never (ends_ok a s h) = returns a s h
  Ends-Post r never (ends_err e s h) = fails e s h
  Ends-Post r never (ends_panic s h) = absurd (never h)

  pub Ends-eq-ok :
      {panics : Type 0} (r : Outcome A E × S) (a : A) (s : S)
      → Ends good bad panics r
      → r ≡ (ok a, s)
      → good a s
  Ends-eq-ok r a s (ends_ok a' s' h) e = Post-eq-ok r a s (returns a' s' h) e
  Ends-eq-ok r a s (ends_err x s' h) e = cc (ap (λ (p : Outcome A E × S). p.0) e)
  Ends-eq-ok r a s (ends_panic s' h) e = cc (ap (λ (p : Outcome A E × S). p.0) e)

-- What a chain that succeeds went through.
pub continue-eq-ok :
    {S E A B : Type 0} (r : Outcome A E × S) (next : A → Run S E B) (b : B) (s' : S)
    → continue r next ≡ (ok b, s')
    → (a : A) × (s : S) × (r ≡ (ok a, s)) × (next a s ≡ (ok b, s'))
continue-eq-ok (ok a, s) next b s' e = (a, s, refl, e)
continue-eq-ok (err x, s) next b s' e = cc (ap (λ p. p.0) e)
continue-eq-ok (panic, s) next b s' e = cc (ap (λ p. p.0) e)
