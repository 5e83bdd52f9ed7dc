-- ===== src/Prelude/Results/Inversion.antt =====
-- What a method that returned a result has gone through.
use mathlib.Core.Path.{◌≡◌, refl}
use native.Mathlib.Omega.{arith}
use robot_fleet.Prelude.Results.{Result, ok, err, map_err, Method, lift, ◌>>=◌}

pub map_err-eq-ok {ℓ} :
    {E F A : Type ℓ} (f : E → F) (r : Result E A) {a : A} → map_err f r ≡ ok a → r ≡ ok a
map_err-eq-ok f (ok b) h = ground arith
map_err-eq-ok f (err e) h = cc

module _ {ℓ} {S E A B : Type ℓ} where
  pub continue-eq-ok :
      (r : Result E A) (f : A → Method S E B) (s : S) (b : B)
      → ((lift r >>= f) s).0 ≡ ok b
      → (a : A) × (r ≡ ok a) × ((f a s).0 ≡ ok b) × ((lift r >>= f) s ≡ f a s)
  unfolding ◌>>=◌
  continue-eq-ok (ok a) f s b h = (a, refl, h, refl)
  continue-eq-ok (err e) f s b h = absurd (cc)

  pub >>=-eq-ok :
      (m : Method S E A) (f : A → Method S E B) (s : S) (b : B)
      → ((m >>= f) s).0 ≡ ok b
      → (a : A) × ((m s).0 ≡ ok a) × ((f a (m s).1).0 ≡ ok b) × ((m >>= f) s ≡ f a (m s).1)
  unfolding ◌>>=◌
  >>=-eq-ok m f s b h = continue-eq-ok (m s).0 f (m s).1 b h
