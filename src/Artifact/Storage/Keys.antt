-- ===== src/Artifact/Storage/Keys.antt =====
-- The keys of the objects (generate_upload_url): which models and versions share one.
use Prim.Native.String.{String}
use robot_fleet.Prelude.{ℕ, ◌+◌, ◌≡◌, refl, arith, [], ◌∷◌, ap, length, ◌&&◌, ◌==◌, eq_iff}
use robot_fleet.Prelude.Text.{codes, chars, format}
use robot_fleet.Prelude.Split.{is, split_once}
use robot_fleet.Prelude.Split.Joined.{Lacks, split_once-chars, chars-nil}
use robot_fleet.Artifact.Server.{object_key}

abbrev pub slash : ℕ
slash = 47

-- a path of two parts
abbrev pub joined : String → String → String
joined a b = format (a ∷ "/" ∷ b ∷ [])

length-chars : (s t : String) → length (codes (chars s t)) ≡ length (codes s) + length (codes t)
length-chars String.[] t = omega arith
length-chars (String.◌∷◌ c s) t = omega (arith, length-chars s t)

chars_assoc : (r s t : String) → chars (chars r s) t ≡ chars r (chars s t)
chars_assoc String.[] s t = refl
chars_assoc (String.◌∷◌ c r) s t = ap (String.◌∷◌ c) (chars_assoc r s t)

-- a common end is cancelled
chars-cancel : (r s t : String) → chars r t ≡ chars s t → r ≡ s
chars-cancel String.[] String.[] t e = refl
chars-cancel String.[] (String.◌∷◌ d s) t e =
    absurd (omega (arith, ap (λ (x : String). length (codes x)) e, length-chars s t))
chars-cancel (String.◌∷◌ c r) String.[] t e =
    absurd (omega (arith, ap (λ (x : String). length (codes x)) e, length-chars r t))
chars-cancel (String.◌∷◌ c r) (String.◌∷◌ d s) t e = ground (arith, chars-cancel r s t)

-- Two versions share a key only if they are the same version of the same model, as long as no name of a
-- model has a slash.
pub object_key_injective :
    (model version model' version' : String)
    → Lacks (is slash) model
    → Lacks (is slash) model'
    → object_key model version ≡ object_key model' version'
    → (model ≡ model') × (version ≡ version')
object_key_injective m v m' v' plain plain' e =
    let end : String = "/firmware.bin" in
    ground (
      arith,
      ap (split_once slash) e,
      split_once-chars slash m "/" (chars v end) plain refl,
      split_once-chars slash m' "/" (chars v' end) plain' refl,
      chars-cancel v v' end,
    )

-- a slash may end the model's name or start the version's
pub object_key-joined :
    (model part version : String)
    → object_key (joined model part) version ≡ object_key model (joined part version)
object_key-joined model part version = simp (chars_assoc, chars-nil)

-- so the test of the keys is the test of model and version
pub object_key-test :
    (model version model' version' : String)
    → Lacks (is slash) model
    → Lacks (is slash) model'
    → (object_key model version == object_key model' version')
      ≡ ((model == model') && (version == version'))
object_key-test m v m' v' plain plain' = ground (
  arith,
  eq_iff m m',
  eq_iff v v',
  eq_iff (object_key m v) (object_key m' v'),
  object_key_injective m v m' v' plain plain',
)
