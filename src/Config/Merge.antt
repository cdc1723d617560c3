-- ===== src/Config/Merge.antt =====
-- `merge` of src/extras/config.rs: which files it touches, and what it returns at a first start.
use mosfet_rs.Prelude.{◌≡◌, refl, inl, inr, String, true, false, ok, err, arith, Result-cases}
use mosfet_rs.Exec.{returns, ◌>>=◌}
use mosfet_rs.Config.Yaml.{Value, other, sequence, mapping, Mapping}
use mosfet_rs.Config.{Files, merge, contents_or_empty, create_empty, merge_values}

module _ {S : Type 0} (M : Mapping S) where
  other-yields : (x : S) (v : Value S) → merge_values M (other x) v ≡ v
  unfolding merge_values
  other-yields x (other y) = refl
  other-yields x (sequence xs) = refl
  other-yields x (mapping m) = refl

module _ {S : Type 0} (F : Files S) (M : Mapping S) (current new : String) (w : F.World) where
  -- The world after the current file is read, created and written.
  abbrev pub looked : F.World
  looked = (F.read_to_string current w).1

  abbrev pub created : F.World
  created = (F.create current looked).1

  -- Where the current file is missing, can be created and an empty text reads as a scalar, `merge`
  -- creates it, empty, and returns the new configuration as it is.
  merge_first_start :
      {missing : F.IoError} {handle : F.Handle} {text : String} {null : S} {v : Value S}
      → (F.read_to_string current w).0 ≡ err missing
      → F.is_not_found missing ≡ true
      → (F.create current looked).0 ≡ ok handle
      → (F.write_all handle "" created).0 ≡ ok tt
      → F.from_str "" ≡ ok (other null)
      → (F.read_to_string new (F.write_all handle "" created).1).0 ≡ ok text
      → F.from_str text ≡ ok v
      → merge F M current new tt w
        ≡ (returns (ok v), tt, (F.read_to_string new (F.write_all handle "" created).1).1)
  unfolding merge contents_or_empty create_empty ◌>>=◌
  merge_first_start {missing} {handle} {text} {null} {v} gone absent made written empty readable
        parsed =
      ground (arith, other-yields M null v)

  -- Unless the current file is missing, `merge` changes no file, whatever else it meets: `saved` is
  -- any view of the world that reading a file leaves as it is.
  pub merge_only_reads :
      {A : Type 0} (saved : F.World → A)
      → ((path : String) (w' : F.World) → saved (F.read_to_string path w').1 ≡ saved w')
      → ((e : F.IoError) → (F.read_to_string current w).0 ≡ err e → F.is_not_found e ≡ false)
      → saved (merge F M current new tt w).2 ≡ saved w
  unfolding merge contents_or_empty create_empty ◌>>=◌
  merge_only_reads saved quiet there = elim (Result-cases (F.read_to_string current w).0) [
    | inl (text, readable) ↦ ground (arith, quiet current w, quiet new looked)
    | inr (e, unreadable) ↦ ground (arith, there e unreadable, quiet current w)
  ]
