-- ===== src/Config/Paths.antt =====
-- What `merge_values` of src/extras/config.rs does deep inside nested mappings: every setting of the
-- new configuration takes effect, and what the new one does not mention stays.
use mosfet_rs.Prelude.{◌≡◌, refl, ◌∙◌, ap, Option, none, some, List, [], ◌∷◌, length}
use mosfet_rs.Config.Yaml.{Value, other, sequence, mapping, Items, Mapping, get}
use mosfet_rs.Config.{merge_values}
use mosfet_rs.Config.Sound.{Sound, DistinctTo, Sound-DistinctTo}
use mosfet_rs.Config.Laws.{combine, merge_fields-get}

module _ {S : Type 0} (M : Mapping S) where
  open M use {same}

  -- What lies at the end of a path of keys: a value; nothing, in a mapping that lacks a key; or
  -- nothing, below a value that is no mapping.
  pub data Reading : Type 0 where
    found : Value S → Reading
    absent cut : Reading

  abbrev entry : (Value S → Reading) → Option (Value S) → Reading
  entry f (some v) = f v
  entry f none = absent

  abbrev below : (Value S → Reading) → Value S → Value S → Reading
  below f k (mapping m) = entry f (get same m k)
  below f k (sequence xs) = cut
  below f k (other x) = cut

  unfoldable pub read : List (Value S) → Value S → Reading
  read [] v = found v
  read (k ∷ ks) v = below (read ks) k v

  abbrev pub value_of : Reading → Option (Value S)
  value_of (found v) = some v
  value_of absent = none
  value_of cut = none

  -- What a path leads to after the merge: from what was there, and from the new reading.
  abbrev pub overlay : Option (Value S) → Reading → Option (Value S)
  overlay (some a) (found v) = some (merge_values M a v)
  overlay none (found v) = some v
  overlay a absent = a
  overlay a cut = none

  overlay-none : (r : Reading) → value_of r ≡ overlay none r
  overlay-none (found v) = refl
  overlay-none absent = refl
  overlay-none cut = refl

  overlay-absent : (a : Option (Value S)) → a ≡ overlay a absent
  overlay-absent none = refl
  overlay-absent (some a) = refl

  overlay-cut : (a : Option (Value S)) → none ≡ overlay a cut
  overlay-cut none = refl
  overlay-cut (some a) = refl

  pub other-wins : (d : Value S) (x : S) → merge_values M d (other x) ≡ other x
  unfolding merge_values
  other-wins (mapping m) x = refl
  other-wins (sequence xs) x = refl
  other-wins (other y) x = refl

  pub sequence-stays :
      (d : Value S) (ys : Items S) → (zs : Items S) × (merge_values M d (sequence ys) ≡ sequence zs)
  unfolding merge_values
  sequence-stays (mapping m) ys = (_, refl)
  sequence-stays (sequence xs) ys = (_, refl)
  sequence-stays (other y) ys = (_, refl)

  abbrev Overlaid : List (Value S) → Value S → Value S → Type 0
  Overlaid p d s = value_of (read p (merge_values M d s)) ≡ overlay (value_of (read p d)) (read p s)

  overlay-entry :
      (ks : List (Value S)) (a b : Option (Value S))
      → ((d s : Value S) → a ≡ some d → b ≡ some s → Overlaid ks d s)
      → value_of (entry (read ks) (combine M a b))
        ≡ overlay (value_of (entry (read ks) a)) (entry (read ks) b)
  overlay-entry ks none none deep = refl
  overlay-entry ks (some d) none deep = overlay-absent _
  overlay-entry ks none (some s) deep = overlay-none _
  overlay-entry ks (some d) (some s) deep = deep d s refl refl

  -- The same where only the mappings along the path are known to be without double keys.
  pub read_merged :
      (p : List (Value S)) (d s : Value S)
      → DistinctTo M (length p) d
      → DistinctTo M (length p) s
      → Overlaid p d s
  unfolding read merge_values
  read_merged [] d s hd hs = refl
  read_merged (k ∷ ks) (mapping m) (mapping n) (dm, sm) (dn, sn) =
      ap (λ o. value_of (entry (read ks) o)) ((merge_fields-get M m n dm dn).1 k)
      ∙ overlay-entry ks (get same m k) (get same n k)
          (λ d s e e'. read_merged ks d s (sm k d e) (sn k s e'))
  read_merged (k ∷ ks) (sequence xs) (mapping n) hd hs = overlay-none _
  read_merged (k ∷ ks) (other x) (mapping n) hd hs = overlay-none _
  read_merged (k ∷ ks) d (other x) hd hs =
      ap (λ v. value_of (below (read ks) k v)) (other-wins d x)
      ∙ overlay-cut (value_of (read (k ∷ ks) d))
  read_merged (k ∷ ks) d (sequence ys) hd hs =
      let (xs, e) = sequence-stays d ys in
      ap (λ v. value_of (below (read ks) k v)) e ∙ overlay-cut (value_of (read (k ∷ ks) d))

  -- For configurations without double keys, every path of keys leads after the merge to what it led
  -- to before if the new configuration lacks it; to the new value, merged into the old one if there
  -- is one, if the new configuration has it; and to nothing if it leads below a value of the new
  -- one.
  pub merge_values-read :
      (p : List (Value S)) (d s : Value S)
      → Sound M d
      → Sound M s
      → value_of (read p (merge_values M d s)) ≡ overlay (value_of (read p d)) (read p s)
  merge_values-read p d s hd hs =
      read_merged p d s (Sound-DistinctTo M (length p) d hd) (Sound-DistinctTo M (length p) s hs)
