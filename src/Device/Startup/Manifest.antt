-- ===== src/Device/Startup/Manifest.antt =====
-- A manifest that is written in the documented form is read back.
use Prim.Native.String.{String}
use robot_fleet.Prelude.{
  ◌≡◌, refl, ap, ◌∙◌, false, Option, none, some, List, [], ◌∷◌, arith, map, not, select, All,
}
use robot_fleet.Prelude.Text.{chars}
use robot_fleet.Prelude.Split.{split, split_where, splitn, trim, trim_start, trim_end, is, is_empty}
use robot_fleet.Prelude.Split.Joined.{
  chars-nil, Lacks, Lacks-chars, StartsVisible, StartsVisible-chars, EndsVisible, EndsVisible-chars,
  trim_visible, split_where-Lacks, split_where-chars, splitn-chars, splitn-Lacks,
}
use robot_fleet.Device.Startup.{Entry, default_model, colon, comma, entry_of, entries}

-- an entry of the manifest, which may leave the model out
pub record Line : Type 0 where
  pub serial : String
  pub token : String
  pub model : Option String

abbrev pub ended_by : Option String → String
ended_by none = ""
ended_by (some model) = chars ":" model

abbrev pub printed : Line → String
printed l = chars l.serial (chars ":" (chars l.token (ended_by l.model)))

abbrev pub manifest : List Line → String
manifest [] = ""
manifest (l ∷ []) = printed l
manifest (l ∷ k ∷ ks) = chars (printed l) (chars "," (manifest (k ∷ ks)))

abbrev pub entry : Line → Entry
entry l = record {
  serial = l.serial;
  token = l.token;
  model = elim l.model [ none ↦ default_model | some m ↦ m ];
}

-- No field has a separator in it, where only the model may have a colon, and no white space stands at
-- either end of the entry.
abbrev pub EndsLine : String → Option String → Type 0
EndsLine token none = EndsVisible token
EndsLine token (some model) = Lacks (is comma) model × EndsVisible model

pub record IsLine (l : Line) : Type 0 where
  pub serial_plain : Lacks (is comma) l.serial × Lacks (is colon) l.serial × StartsVisible l.serial
  pub token_plain : Lacks (is comma) l.token × Lacks (is colon) l.token
  pub end_plain : EndsLine l.token l.model

EndsVisible-colon : (s : String) → EndsVisible s → EndsVisible (chars ":" s)
EndsVisible-colon String.[] h = refl
EndsVisible-colon (String.◌∷◌ c s) h = h

ended_by-EndsVisible :
    (token : String) (model : Option String)
    → EndsLine token model
    → EndsVisible (chars ":" (chars token (ended_by model)))
ended_by-EndsVisible token none h = rw (chars-nil token) (EndsVisible-colon token h)
ended_by-EndsVisible token (some m) (lacks, ends) =
    EndsVisible-colon (chars token (chars ":" m))
      (EndsVisible-chars token ":" m (EndsVisible-colon m ends))

ended_by-Lacks :
    (token : String) (model : Option String)
    → EndsLine token model
    → Lacks (is comma) (ended_by model)
ended_by-Lacks token none h = tt
ended_by-Lacks token (some m) h = (refl, h.0)

entry_of-splitn :
    (serial token : String) (model : Option String)
    → Lacks (is colon) serial
    → Lacks (is colon) token
    → let l : Line = record { serial = serial; token = token; model = model } in
      entry_of (splitn 3 colon (printed l)) ≡ some (entry l)
unfolding splitn
entry_of-splitn serial token none s t = ap entry_of (
    splitn-chars 1 colon serial ":" (chars token "") s refl
    ∙ ap (λ x. serial ∷ splitn 2 colon x) (chars-nil token)
    ∙ ap (◌∷◌ serial) (splitn-Lacks 1 colon token t))
entry_of-splitn serial token (some m) s t = ap entry_of (
    splitn-chars 1 colon serial ":" (chars token (chars ":" m)) s refl
    ∙ ap (◌∷◌ serial) (splitn-chars 0 colon token ":" m t refl))

trim-printed : (l : Line) → IsLine l → trim (printed l) ≡ printed l
trim-printed l h =
    trim_visible (printed l)
      (StartsVisible-chars l.serial ":" (chars l.token (ended_by l.model)) h.serial_plain.2 refl)
      (EndsVisible-chars l.serial ":" (chars l.token (ended_by l.model))
        (ended_by-EndsVisible l.token l.model h.end_plain))

printed-Lacks : (l : Line) → IsLine l → Lacks (is comma) (printed l)
printed-Lacks l h =
    Lacks-chars (is comma) l.serial (chars ":" (chars l.token (ended_by l.model))) h.serial_plain.0
      (
        refl,
        Lacks-chars (is comma) l.token (ended_by l.model) h.token_plain.0
            (ended_by-Lacks l.token l.model h.end_plain),
      )

is_empty-chars : (s t : String) → is_empty (chars s (chars ":" t)) ≡ false
is_empty-chars String.[] t = refl
is_empty-chars (String.◌∷◌ c s) t = refl

-- the entries of pieces that the manifest was split into
abbrev read : List String → List (Option Entry)
read pieces =
    map (λ entry. entry_of (splitn 3 colon entry))
      (select (λ s. not (is_empty s)) (map trim pieces))

read-printed :
    (l : Line) (pieces : List String)
    → IsLine l
    → read (printed l ∷ pieces) ≡ some (entry l) ∷ read pieces
read-printed l pieces h = ground (
  arith,
  trim-printed l h,
  is_empty-chars l.serial (chars l.token (ended_by l.model)),
  entry_of-splitn l.serial l.token l.model h.serial_plain.1 h.token_plain.1,
)

-- A manifest that is written in the documented form, `serial:token:model` or `serial:token` with commas
-- between them, is read to its entries in order, where a model that is left out is "Alpha Wheeled".
pub entries-manifest :
    (lines : List Line)
    → All IsLine lines
    → entries (manifest lines) ≡ map (λ l. some (entry l)) lines
unfolding split_where trim_start trim_end
entries-manifest [] h = refl
entries-manifest (l ∷ []) (h, hs) =
    rw (split_where-Lacks (is comma) (printed l) (printed-Lacks l h)) (read-printed l [] h)
entries-manifest (l ∷ k ∷ ks) (h, hs) =
    rw (split_where-chars (is comma) (printed l) "," (manifest (k ∷ ks)) (printed-Lacks l h) refl) (
      read-printed l (split comma (manifest (k ∷ ks))) h
      ∙ ap (◌∷◌ (some (entry l))) (entries-manifest (k ∷ ks) hs))
