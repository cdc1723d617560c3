-- ===== src/Config/Folder/Reading.antt =====
-- What `read_yaml_files` of src/extras/config.rs returns for a folder that stays as it is.
use mosfet_rs.Prelude.{
  ◌≡◌, refl, ◌∙◌, inl, inr, String, Bool, true, ◌&&◌, Option, none, some, List, [], ◌∷◌, Result, ok,
  err, arith, Bool-cases, str_eq, if◌then◌else◌,
}
use mosfet_rs.Exec.{Outcome, returns, ◌>>=◌}
use mosfet_rs.Config.Folder.{
  Folders, Files, slashed, empty, insert, has_yaml, get_relative_file_name, read_file_contents,
  add_entry, add_entries, read_yaml_files,
}

-- A folder that does not change, all of whose files can be read.
pub record Snapshot (F : Folders) (folder : String) : Type 0 where
  pub entries : List (Result F.IoError F.FilePath)
  pub is_plain : F.FilePath → Bool
  pub text : F.FilePath → String
  pub relative : F.FilePath → F.FilePath
  pub listed : (w : F.World) → (F.read_dir folder w).0 ≡ ok entries
  pub plain : (p : F.FilePath) (w : F.World) → (F.is_file p w).0 ≡ is_plain p
  pub readable :
      (p : F.FilePath) (w : F.World)
      → is_plain p ≡ true
      → (h : F.Handle) × ((F.open_file p w).0 ≡ ok h)
        × ((F.read_to_string h (F.open_file p w).1).0 ≡ ok (text p))
  pub inside : (p : F.FilePath) → is_plain p ≡ true → F.strip_prefix p folder ≡ some (relative p)

module _ (F : Folders) (folder : String) (D : Snapshot F folder) where
  -- Plain files with one of the two extensions are kept.
  abbrev pub is_kept : F.FilePath → Bool
  is_kept p = D.is_plain p && has_yaml F (F.extension p)

  abbrev pub name_of : F.FilePath → String
  name_of p = slashed (F.to_string_lossy (D.relative p))

  abbrev pub or_else : Option String → Option String → Option String
  or_else (some a) b = some a
  or_else none b = b

  -- The text of the last kept entry of the name `n`.
  abbrev pub last_named : String → List (Result F.IoError F.FilePath) → Option String
  last_named n [] = none
  last_named n (err e ∷ es) = last_named n es
  last_named n (ok p ∷ es) =
      or_else (last_named n es)
        (if is_kept p && str_eq (name_of p) n then some (D.text p) else none)

  abbrev added : F.FilePath → Files → Files
  added p m = if is_kept p then insert (name_of p) (D.text p) m else m

  add_entry_lem :
      (p : F.FilePath) (m : Files) (w : F.World)
      → (w' : F.World) × (add_entry F folder (ok p) m tt w ≡ (returns (added p m), tt, w'))
  unfolding add_entry read_file_contents get_relative_file_name ◌>>=◌
  add_entry_lem p m w =
      let w₁ = (F.is_file p w).1 in
      elim (Bool-cases (D.is_plain p)) [
        | inl plain ↦
            let (h, opened, read) = D.readable p w₁ plain in
            elim (Bool-cases (has_yaml F (F.extension p))) [
              | inl yaml ↦ (
                (F.read_to_string h (F.open_file p w₁).1).1,
                ground (arith, D.plain p w, D.inside p plain),
              )
              | inr other ↦ (w₁, ground (arith, D.plain p w))
            ]
        | inr special ↦ (w₁, ground (arith, D.plain p w))
      ]

  skip_lem :
      (e : F.IoError) (m : Files) (w : F.World)
      → add_entry F folder (err e) m tt w ≡ (returns m, tt, w)
  unfolding add_entry
  skip_lem e m w = refl

  abbrev Grown : Files → (String → Option String) → Outcome Files → Type 0
  Grown old new o = (m : Files) × (o ≡ returns m) × ((n : String) → m n ≡ or_else (new n) (old n))

  or_else-added :
      (p : F.FilePath) (m : Files) (n : String) (rest : Option String)
      → or_else rest (added p m n)
        ≡ or_else
            (or_else rest (if is_kept p && str_eq (name_of p) n then some (D.text p) else none))
            (m n)
  or_else-added p m n rest = ground arith

  add_entries_lem :
      (es : List (Result F.IoError F.FilePath)) (m : Files) (w : F.World)
      → Grown m (λ n. last_named n es) (add_entries F folder es m tt w).0
  unfolding add_entries ◌>>=◌
  add_entries_lem [] m w = (m, refl, λ n. refl)
  add_entries_lem (err e ∷ es) m w =
      let (files, done, found) = add_entries_lem es m w in (files, rw (skip_lem e m w) done, found)
  add_entries_lem (ok p ∷ es) m w =
      let (w', e) = add_entry_lem p m w in
      let (files, done, found) = add_entries_lem es (added p m) w' in
      (files, rw e done, λ n. found n ∙ or_else-added p m n (last_named n es))

  -- For a folder that does not change and whose files can be read, `read_yaml_files` returns, and
  -- its result has under each name the text of the last listed file of that name that is a plain
  -- file with the extension `yaml` or `yml`, and nothing if there is none.
  pub read_yaml_files-last_named :
      (w : F.World)
      → (m : Files) × ((read_yaml_files F folder tt w).0 ≡ returns m)
        × ((n : String) → m n ≡ last_named n D.entries)
  unfolding read_yaml_files ◌>>=◌
  read_yaml_files-last_named w =
      let (m, done, found) = add_entries_lem D.entries empty (F.read_dir folder w).1 in
      (m, rw (D.listed w) done, λ n. found n ∙ or_else-none (last_named n D.entries))
    where
      or_else-none : (o : Option String) → or_else o none ≡ o
      or_else-none none = refl
      or_else-none (some a) = refl
