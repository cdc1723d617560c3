-- ===== src/Config/Depth.antt =====
-- `merge_values` of src/extras/config.rs keeps configurations free of double keys at every depth.
use mosfet_rs.Prelude.{ℕ, zero, suc, ◌≡◌, Option, none, some, sym, ◌∙◌, arith}
use mosfet_rs.Config.Yaml.{Value, other, sequence, mapping, Mapping, get}
use mosfet_rs.Config.{merge_values}
use mosfet_rs.Config.Sound.{DistinctTo}
use mosfet_rs.Config.Laws.{combine, merge_fields-get}

module _ {S : Type 0} (M : Mapping S) where
  open M use {same}

  combine-DistinctTo :
      (n : ℕ) (a b : Option (Value S)) (v : Value S)
      → ((x : Value S) → a ≡ some x → DistinctTo M n x)
      → ((y : Value S) → b ≡ some y → DistinctTo M n y)
      → ((x y : Value S)
          → DistinctTo M n x
          → DistinctTo M n y
          → DistinctTo M n (merge_values M x y))
      → combine M a b ≡ some v
      → DistinctTo M n v
  combine-DistinctTo n none none v ha hb merged e = ground arith
  combine-DistinctTo n none (some y) v ha hb merged e = ground (arith, hb y)
  combine-DistinctTo n (some x) none v ha hb merged e = ground (arith, ha x)
  combine-DistinctTo n (some x) (some y) v ha hb merged e = ground (arith, merged x y, ha x, hb y)

  -- Where neither configuration has a double key in a mapping that fewer than `n` keys lead into,
  -- the merged one has none there either.
  pub merge_values-DistinctTo :
      (n : ℕ) (d s : Value S)
      → DistinctTo M n d
      → DistinctTo M n s
      → DistinctTo M n (merge_values M d s)
  unfolding merge_values
  merge_values-DistinctTo zero d s hd hs = tt
  merge_values-DistinctTo (suc n) (mapping m) (mapping n') (dm, deep) (dn, deep') =
      let (distinct, at) = merge_fields-get M m n' dm dn in
      (
        distinct,
        λ k v e.
            combine-DistinctTo n (get same m k) (get same n' k) v (deep k) (deep' k)
              (merge_values-DistinctTo n) (sym (at k) ∙ e),
      )
  merge_values-DistinctTo (suc n) (other x) (mapping m) hd hs = hs
  merge_values-DistinctTo (suc n) (sequence xs) (mapping m) hd hs = hs
  merge_values-DistinctTo (suc n) (mapping m) (other x) hd hs = tt
  merge_values-DistinctTo (suc n) (sequence xs) (other x) hd hs = tt
  merge_values-DistinctTo (suc n) (other y) (other x) hd hs = tt
  merge_values-DistinctTo (suc n) (mapping m) (sequence xs) hd hs = tt
  merge_values-DistinctTo (suc n) (sequence ys) (sequence xs) hd hs = tt
  merge_values-DistinctTo (suc n) (other y) (sequence xs) hd hs = tt
