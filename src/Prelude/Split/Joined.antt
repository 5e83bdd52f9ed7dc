-- ===== src/Prelude/Split/Joined.antt =====
-- Pieces that were joined by a separator come back.
use Prim.Native.Nat.{ℕ, zero, suc}
use Prim.Native.Char.{Char}
use Prim.Native.String.{String}
use mathlib.Core.Path.{◌≡◌, refl, ap}
use mathlib.Core.Bool.{Bool, true, false}
use mathlib.Core.Option.{none, some}
use mathlib.Core.List.{[], ◌∷◌}
use native.Mathlib.Omega.{arith}
use robot_fleet.Prelude.Text.{chars}
use robot_fleet.Prelude.Split.{
  is_blank, trim_start, trim_end, trim, is, split_where, split_once, splitn,
}

-- no character of the text passes the test
abbrev pub Lacks : (Char → Bool) → String → Type 0
Lacks test String.[] = Unit
Lacks test (String.◌∷◌ c s) = (test c ≡ false) × Lacks test s

-- A text without white space at its start, and at its end.
abbrev pub StartsVisible : String → Type 0
StartsVisible String.[] = Unit
StartsVisible (String.◌∷◌ c s) = is_blank c ≡ false

abbrev pub EndsVisible : String → Type 0
EndsVisible String.[] = Unit
EndsVisible (String.◌∷◌ c String.[]) = is_blank c ≡ false
EndsVisible (String.◌∷◌ c (String.◌∷◌ d s)) = EndsVisible (String.◌∷◌ d s)

pub Lacks-chars :
    (test : Char → Bool) (s t : String) → Lacks test s → Lacks test t → Lacks test (chars s t)
Lacks-chars test String.[] t h k = k
Lacks-chars test (String.◌∷◌ c s) t (h, hs) k = (h, Lacks-chars test s t hs k)

pub chars-nil : (s : String) → chars s "" ≡ s
chars-nil String.[] = refl
chars-nil (String.◌∷◌ c s) = ap (String.◌∷◌ c) (chars-nil s)

pub StartsVisible-chars :
    (s : String) (c : Char) (t : String)
    → StartsVisible s
    → is_blank c ≡ false
    → StartsVisible (chars s (String.◌∷◌ c t))
StartsVisible-chars String.[] c t h k = k
StartsVisible-chars (String.◌∷◌ d s) c t h k = h

pub EndsVisible-chars :
    (s : String) (c : Char) (t : String)
    → EndsVisible (String.◌∷◌ c t)
    → EndsVisible (chars s (String.◌∷◌ c t))
EndsVisible-chars String.[] c t h = h
EndsVisible-chars (String.◌∷◌ d String.[]) c t h = h
EndsVisible-chars (String.◌∷◌ d (String.◌∷◌ e s)) c t h = EndsVisible-chars (String.◌∷◌ e s) c t h

trim_start_visible : (s : String) → StartsVisible s → trim_start s ≡ s
unfolding trim_start
trim_start_visible String.[] h = refl
trim_start_visible (String.◌∷◌ c s) h = rw h refl

trim_end_visible : (s : String) → EndsVisible s → trim_end s ≡ s
unfolding trim_end
trim_end_visible String.[] h = refl
trim_end_visible (String.◌∷◌ c String.[]) h = rw h refl
trim_end_visible (String.◌∷◌ c (String.◌∷◌ d s)) h = rw (trim_end_visible (String.◌∷◌ d s) h) refl

pub trim_visible : (s : String) → StartsVisible s → EndsVisible s → trim s ≡ s
trim_visible s h k = rw (trim_start_visible s h) (trim_end_visible s k)

module _ (test : Char → Bool) where
  pub split_where-Lacks : (s : String) → Lacks test s → split_where test s ≡ s ∷ []
  unfolding split_where
  split_where-Lacks String.[] h = refl
  split_where-Lacks (String.◌∷◌ c s) (h, hs) = rw (h, split_where-Lacks s hs) refl

  pub split_where-chars :
      (s : String) (c : Char) (t : String)
      → Lacks test s
      → test c ≡ true
      → split_where test (chars s (String.◌∷◌ c t)) ≡ s ∷ split_where test t
  unfolding split_where
  split_where-chars String.[] c t h k = rw k refl
  split_where-chars (String.◌∷◌ d s) c t (h, hs) k = rw (h, split_where-chars s c t hs k) refl

pub split_once-chars :
    (separator : ℕ) (s : String) (c : Char) (t : String)
    → Lacks (is separator) s
    → is separator c ≡ true
    → split_once separator (chars s (String.◌∷◌ c t)) ≡ some (s, t)
unfolding split_once
split_once-chars separator String.[] c t h k = rw k refl
split_once-chars separator (String.◌∷◌ d s) c t (h, hs) k =
    rw (h, split_once-chars separator s c t hs k) refl

split_once-Lacks :
    (separator : ℕ) (s : String) → Lacks (is separator) s → split_once separator s ≡ none
unfolding split_once
split_once-Lacks separator String.[] h = refl
split_once-Lacks separator (String.◌∷◌ d s) (h, hs) = rw (h, split_once-Lacks separator s hs) refl

pub splitn-chars :
    (n separator : ℕ) (s : String) (c : Char) (t : String)
    → Lacks (is separator) s
    → is separator c ≡ true
    → splitn (suc (suc n)) separator (chars s (String.◌∷◌ c t)) ≡ s ∷ splitn (suc n) separator t
unfolding splitn
splitn-chars n separator s c t h k = ground (arith, split_once-chars separator s c t h k)

pub splitn-Lacks :
    (n separator : ℕ) (s : String) → Lacks (is separator) s → splitn (suc n) separator s ≡ s ∷ []
unfolding splitn
splitn-Lacks zero separator s h = refl
splitn-Lacks (suc n) separator s h = ground (arith, split_once-Lacks separator s h)
