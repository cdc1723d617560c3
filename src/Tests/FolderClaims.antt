-- ===== src/Tests/FolderClaims.antt =====
-- The theorem on reading a folder, at a concrete folder.
use mosfet_rs.Prelude.{◌≡◌, refl, String, true, Option, some, List, [], ◌∷◌, Result, ok, err}
use mosfet_rs.Exec.{returns}
use mosfet_rs.Config.Folder.{Folders, Files, read_yaml_files, slashed}
use mosfet_rs.Config.Folder.Reading.{Snapshot, last_named, read_yaml_files-last_named}

-- Three files: one with another extension, and one whose name has a backslash.
data Name : Type 0 where
  main nested notes : Name

abbrev folders : Folders
folders = record {
  World = Unit;
  IoError = Unit;
  FilePath = Name;
  Handle = Name;
  read_dir = λ path w. (ok listing, w);
  is_file = λ p w. (true, w);
  extension = suffix;
  open_file = λ p w. (ok p, w);
  read_to_string = λ h w. (ok "a: 1", w);
  strip_prefix = λ p folder. some p;
  to_string_lossy = shown;
}
  where
    listing : List (Result (Unit {0}) Name)
    listing = ok main ∷ err tt ∷ ok notes ∷ ok nested ∷ []

    suffix : Name → Option String
    suffix main = some "yaml"
    suffix nested = some "yml"
    suffix notes = some "txt"

    shown : Name → String
    shown main = "main.yaml"
    shown nested = "sub\\nested.yml"
    shown notes = "notes.txt"

abbrev snapshot : Snapshot folders "conf"
snapshot = record {
  entries = ok main ∷ err tt ∷ ok notes ∷ ok nested ∷ [];
  is_plain = λ p. true;
  text = λ p. "a: 1";
  relative = λ p. p;
  listed = λ w. refl;
  plain = λ p w. refl;
  readable = λ p w plain. (p, refl, refl);
  inside = λ p plain. refl;
}

nested_name : slashed "sub\\nested.yml" ≡ "sub/nested.yml"
unfolding slashed
nested_name = refl

read_yaml_files-last_named_example :
    (m : Files) × ((read_yaml_files folders "conf" tt tt).0 ≡ returns m)
    × ((n : String) → m n ≡ last_named folders "conf" snapshot n snapshot.entries)
read_yaml_files-last_named_example = read_yaml_files-last_named folders "conf" snapshot tt
