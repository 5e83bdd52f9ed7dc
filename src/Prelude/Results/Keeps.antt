-- ===== src/Prelude/Results/Keeps.antt =====
-- What a method leaves true of the state, whether it returns or fails, one rule for each way to build
-- a method.
use mathlib.Core.Bool.{Bool, true, false}
use robot_fleet.Prelude.Tests.{if◌then◌else◌}
use robot_fleet.Prelude.Results.{
  Result, ok, err, Method, pure, fail, lift, attempt, with_error, ◌>>=◌,
}

pub record Keeps {ℓ} {S E A : Type ℓ} (P : S → Type ℓ) (m : Method S E A) : Type ℓ where
  pub after : (s : S) → P s → P (m s).1

module _ {ℓ} {S E A : Type ℓ} {P : S → Type ℓ} where
  pub Keeps-pure : (a : A) → Keeps P (pure {E = E} a)
  unfolding pure
  Keeps-pure a = record { after = λ s h. h }

  pub Keeps-fail : (e : E) → Keeps P (fail {A = A} e)
  unfolding fail
  Keeps-fail e = record { after = λ s h. h }

  pub Keeps-lift : (r : Result E A) → Keeps P (lift r)
  unfolding lift
  Keeps-lift r = record { after = λ s h. h }

  pub Keeps-attempt : (m : Method S E A) → Keeps P m → Keeps P (attempt m)
  unfolding attempt
  Keeps-attempt m k = record { after = k.after }

  pub Keeps-if :
      (b : Bool) (m n : Method S E A) → Keeps P m → Keeps P n → Keeps P (if b then m else n)
  Keeps-if true m n km kn = km
  Keeps-if false m n km kn = kn

module _ {ℓ} {S E F A : Type ℓ} {P : S → Type ℓ} where
  pub Keeps-with_error : (f : E → F) (m : Method S E A) → Keeps P m → Keeps P (with_error f m)
  unfolding with_error
  Keeps-with_error f m k = record { after = k.after }

module _ {ℓ} {S E A B : Type ℓ} {P : S → Type ℓ} where
  continue-Keeps :
      (r : Result E A) (f : A → Method S E B) → ((a : A) → Keeps P (f a)) → Keeps P (lift r >>= f)
  unfolding ◌>>=◌
  continue-Keeps (ok a) f k = record { after = (k a).after }
  continue-Keeps (err e) f k = record { after = λ s h. h }

  pub Keeps-bind :
      (m : Method S E A) (f : A → Method S E B)
      → Keeps P m
      → ((a : A) → Keeps P (f a))
      → Keeps P (m >>= f)
  unfolding ◌>>=◌
  Keeps-bind m f km kf = record {
    after = λ s h. (continue-Keeps (m s).0 f kf).after (m s).1 (km.after s h);
  }

pub ruleset keeps_rules =
    (Keeps-pure, Keeps-fail, Keeps-lift, Keeps-attempt, Keeps-if, Keeps-with_error, Keeps-bind)
