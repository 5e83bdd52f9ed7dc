-- ===== src/Agent/Disk.antt =====
-- The agent's data directory, as std::fs and Path show it: files by name. `faults` says, write by
-- write, which ones fail, and what a failed one leaves in the file, if it came to open it.
use robot_fleet.Prelude.{
  String, Bool, Option, none, some, List, [], ◌∷◌, Result, ok, err, Method, if◌then◌else◌, ◌==◌,
  is_some,
}
use robot_fleet.Agent.Error.{Error, io}

pub record Fault : Type 0 where
  pub text : String
  pub left : Option String

pub record Disk : Type 0 where
  pub files : List (String × String)
  pub faults : List (Option Fault)

unfoldable pub content : String → List (String × String) → Option String
content name [] = none
content name ((k, text) ∷ rest) = if k == name then some text else content name rest

-- Path::exists
unfoldable pub exists_file : String → Disk → Bool
exists_file name d = is_some (content name d.files)

abbrev read_text : Option String → Result Error String
read_text none = err (io "No such file or directory")
read_text (some text) = ok text

-- std::fs::read_to_string
unfoldable pub read_to_string : String → Method Disk Error String
read_to_string name d = (read_text (content name d.files), d)

abbrev torn : String → Option String → List (String × String) → List (String × String)
torn name none files = files
torn name (some text) files = (name, text) ∷ files

abbrev written :
    String → String → List (Option Fault) → List (String × String) → Result Error (Unit {0}) × Disk
written name text [] files = (ok tt, record { files = (name, text) ∷ files; faults = [] })
written name text (none ∷ fs) files = (ok tt, record { files = (name, text) ∷ files; faults = fs })
written name text (some e ∷ fs) files =
    (err (io e.text), record { files = torn name e.left files; faults = fs })

-- std::fs::write; the newest content of a name stands first
unfoldable pub write : String → String → Method Disk Error (Unit {0})
write name text d = written name text d.faults d.files
