-- ===== src/Prelude/Text.antt =====
-- Texts: `format!`, and the order in which SQLite's BINARY collation compares TEXT values, which is
-- that of the code points.
use Prim.Native.Nat.{ℕ, compare, Ordering}
use Prim.Native.Char.{code}
use Prim.Native.String.{String}
use mathlib.Core.Path.{◌≡◌, refl, ap₂}
use mathlib.Core.Bool.{Bool, true, false}
use mathlib.Core.List.{List, [], ◌∷◌}
use native.Mathlib.Omega.{arith}
use text.Mathlib.TextEquality.{Char-path}

abbrev pub codes : String → List ℕ
codes String.[] = []
codes (String.◌∷◌ c s) = code c ∷ codes s

abbrev pub chars : String → String → String
chars String.[] t = t
chars (String.◌∷◌ c s) t = String.◌∷◌ c (chars s t)

-- `format!`: the pieces of a message, joined.
abbrev pub format : List String → String
format [] = ""
format (s ∷ ss) = chars s (format ss)

-- The first difference decides; a proper prefix comes first.
abbrev lex_ltb : List ℕ → List ℕ → Bool
lex_ltb xs [] = false
lex_ltb [] (y ∷ ys) = true
lex_ltb (x ∷ xs) (y ∷ ys) = elim (compare x y) [
  | Ordering.lt ↦ true
  | Ordering.eq ↦ lex_ltb xs ys
  | Ordering.gt ↦ false
]

lex_irrefl : (xs : List ℕ) → lex_ltb xs xs ≡ false
lex_irrefl [] = refl
lex_irrefl (x ∷ xs) = ground (arith, lex_irrefl xs)

lex_trans : (xs ys zs : List ℕ) → lex_ltb xs ys ≡ true → lex_ltb ys zs ≡ true → lex_ltb xs zs ≡ true
lex_trans xs ys [] h k = cc
lex_trans xs [] (z ∷ zs) h k = cc
lex_trans [] (y ∷ ys) (z ∷ zs) h k = refl
lex_trans (x ∷ xs) (y ∷ ys) (z ∷ zs) h k = ground (arith, lex_trans xs ys zs)

lex_total : (xs ys : List ℕ) → lex_ltb xs ys ≡ false → lex_ltb ys xs ≡ false → xs ≡ ys
lex_total [] [] h k = refl
lex_total [] (y ∷ ys) h k = cc
lex_total (x ∷ xs) [] h k = cc
lex_total (x ∷ xs) (y ∷ ys) h k = ground (arith, lex_total xs ys)

codes-injective : (s t : String) → codes s ≡ codes t → s ≡ t
codes-injective String.[] String.[] e = refl
codes-injective String.[] (String.◌∷◌ d t) e = cc
codes-injective (String.◌∷◌ c s) String.[] e = cc
codes-injective (String.◌∷◌ c s) (String.◌∷◌ d t) e =
    ap₂ String.◌∷◌ (Char-path c d (ground arith)) (codes-injective s t (ground arith))

unfoldable pub text_ltb : String → String → Bool
text_ltb s t = lex_ltb (codes s) (codes t)

pub text_ltb_irrefl : (s : String) → text_ltb s s ≡ false
unfolding text_ltb
text_ltb_irrefl s = lex_irrefl (codes s)

pub text_ltb_trans :
    (s t u : String) → text_ltb s t ≡ true → text_ltb t u ≡ true → text_ltb s u ≡ true
unfolding text_ltb
text_ltb_trans s t u = lex_trans (codes s) (codes t) (codes u)

pub text_ltb_total : (s t : String) → text_ltb s t ≡ false → text_ltb t s ≡ false → s ≡ t
unfolding text_ltb
text_ltb_total s t h k = codes-injective s t (lex_total (codes s) (codes t) h k)
