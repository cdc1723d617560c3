-- ===== src/Config/Folder.antt =====
-- `read_yaml_files` of src/extras/config.rs and its two helpers. The result maps file names to
-- contents; a `HashMap` is modelled by its lookup function.
pub mod Reading
use mosfet_rs.Prelude.{
  String, ◌<>◌, Bool, true, false, ◌&&◌, ◌||◌, Option, none, some, List, [], ◌∷◌, Result, ok, err,
  str_eq, if◌then◌else◌,
}
use mosfet_rs.Exec.{Exec, pure, call, unwrap, unwrap_ok, ◌>>=◌, unreadable_file, foreign_path}

-- std::fs and std::path, over an outside world. A folder is listed when it is opened.
pub record Folders : Type 1 where
  pub World : Type 0
  pub IoError : Type 0
  pub FilePath : Type 0
  pub Handle : Type 0
  pub read_dir : String → World → Result IoError (List (Result IoError FilePath)) × World
  pub is_file : FilePath → World → Bool × World
  pub extension : FilePath → Option String
  pub open_file : FilePath → World → Result IoError Handle × World
  pub read_to_string : Handle → World → Result IoError String × World
  pub strip_prefix : FilePath → String → Option FilePath
  pub to_string_lossy : FilePath → String

-- `replace('\\', "/")`
unfoldable pub slashed : String → String
slashed String.[] = String.[]
slashed (String.◌∷◌ c s) =
    (if str_eq (String.◌∷◌ c String.[]) "\\" then "/" else String.◌∷◌ c String.[]) <> slashed s

abbrev pub Files : Type 0
Files = String → Option String

abbrev pub empty : Files
empty name = none

abbrev pub insert : String → String → Files → Files
insert name contents files n = if str_eq name n then some contents else files n

module _ (F : Folders) where
  open F use {World, FilePath, IoError}

  abbrev pub Method : Type 0 → Type 0
  Method A = Exec World (Unit {0}) A

  unfoldable pub get_relative_file_name : FilePath → String → Method String
  get_relative_file_name file_path folder_path = do
    relative ← unwrap foreign_path (F.strip_prefix file_path folder_path)
    pure (slashed (F.to_string_lossy relative))

  unfoldable pub read_file_contents : FilePath → Method String
  read_file_contents file_path = do
    opened ← call (F.open_file file_path)
    file ← unwrap_ok unreadable_file opened
    read ← call (F.read_to_string file)
    unwrap_ok unreadable_file read

  abbrev pub has_yaml : Option String → Bool
  has_yaml none = false
  has_yaml (some e) = str_eq e "yaml" || str_eq e "yml"

  -- One entry of the folder.
  unfoldable pub add_entry : String → Result IoError FilePath → Files → Method Files
  add_entry folder_path (err e) data_map = pure data_map
  add_entry folder_path (ok file_path) data_map = do
    file ← call (F.is_file file_path)
    if file && has_yaml (F.extension file_path)
        then (do
          contents ← read_file_contents file_path
          file_name ← get_relative_file_name file_path folder_path
          pure (insert file_name contents data_map))
        else pure data_map

  unfoldable pub add_entries : String → List (Result IoError FilePath) → Files → Method Files
  add_entries folder_path [] data_map = pure data_map
  add_entries folder_path (entry ∷ entries) data_map = do
    grown ← add_entry folder_path entry data_map
    add_entries folder_path entries grown

  unfoldable pub read_yaml_files : String → Method Files
  read_yaml_files folder_path = do
    dir ← call (F.read_dir folder_path)
    elim dir [ ok entries ↦ add_entries folder_path entries empty | err e ↦ pure empty ]
