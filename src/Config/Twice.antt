-- ===== src/Config/Twice.antt =====
-- What `merge_values` of src/extras/config.rs makes of a new configuration that has been merged in
-- already.
use mosfet_rs.Prelude.{◌≡◌, refl, sym, ◌∙◌, ap, Option, none, some, List, length}
use mosfet_rs.Config.Yaml.{Value, other, sequence, mapping, Items, Mapping}
use mosfet_rs.Config.{extend, merge_values}
use mosfet_rs.Config.Sound.{DistinctTo}
use mosfet_rs.Config.Depth.{merge_values-DistinctTo}
use mosfet_rs.Config.Paths.{Reading, found, absent, cut, read, value_of, overlay, read_merged}

module _ {S : Type 0} (M : Mapping S) where
  -- What is seen at the end of a path: a mapping only as one, since longer paths show its entries.
  pub data Sight : Type 0 where
    scalar : S → Sight
    items : Items S → Sight
    branch empty : Sight

  abbrev pub sight : Value S → Sight
  sight (other x) = scalar x
  sight (sequence xs) = items xs
  sight (mapping m) = branch

  abbrev pub seen : Option (Value S) → Sight
  seen (some v) = sight v
  seen none = empty

  abbrev pub lengthened : Sight → Items S → Sight
  lengthened (items xs) ys = items (extend xs ys)
  lengthened (scalar x) ys = scalar x
  lengthened branch ys = branch
  lengthened empty ys = empty

  -- What is seen after the second merge, where the new configuration has this reading.
  abbrev pub again : Sight → Reading M → Sight
  again l (found (sequence ys)) = lengthened l ys
  again l (found (mapping m)) = l
  again l (found (other x)) = l
  again l absent = l
  again l cut = l

  value_again :
      (a v : Value S)
      → sight (merge_values M (merge_values M a v) v) ≡ again (sight (merge_values M a v)) (found v)
  unfolding merge_values
  value_again (mapping m) (mapping n) = refl
  value_again (sequence xs) (mapping n) = refl
  value_again (other x) (mapping n) = refl
  value_again (mapping m) (sequence ys) = refl
  value_again (sequence xs) (sequence ys) = refl
  value_again (other x) (sequence ys) = refl
  value_again (mapping m) (other y) = refl
  value_again (sequence xs) (other y) = refl
  value_again (other x) (other y) = refl

  value_first : (v : Value S) → sight (merge_values M v v) ≡ again (sight v) (found v)
  unfolding merge_values
  value_first (mapping n) = refl
  value_first (sequence ys) = refl
  value_first (other y) = refl

  overlay-again :
      (o : Option (Value S)) (r : Reading M)
      → seen (overlay M (overlay M o r) r) ≡ again (seen (overlay M o r)) r
  overlay-again (some a) (found v) = value_again a v
  overlay-again none (found v) = value_first v
  overlay-again (some a) absent = refl
  overlay-again none absent = refl
  overlay-again (some a) cut = refl
  overlay-again none cut = refl

  -- For configurations without double keys along a path, merging the same new configuration a
  -- second time leaves what is seen at the end of the path as it is, a scalar, a sequence with its
  -- items, that there is a mapping, or nothing, unless the new configuration has a sequence there:
  -- then the items of that sequence are appended a second time.
  pub merge_values_twice :
      (p : List (Value S)) (d s : Value S)
      → DistinctTo M (length p) d
      → DistinctTo M (length p) s
      → let once = merge_values M d s in
        seen (value_of M (read M p (merge_values M once s)))
        ≡ again (seen (value_of M (read M p once))) (read M p s)
  merge_values_twice p d s hd hs =
      let once = merge_values M d s in
      let r = read M p s in
      let first = read_merged M p d s hd hs in
      let second = read_merged M p once s (merge_values-DistinctTo M (length p) d s hd hs) hs in
      ap seen second
      ∙ ap (λ o. seen (overlay M o r)) first
      ∙ overlay-again (value_of M (read M p d)) r
      ∙ ap (λ o. again (seen o) r) (sym first)
