-- ===== src/Config/Laws.antt =====
-- `merge_values` of src/extras/config.rs on two mappings, seen by lookups: neither the order of the
-- entries nor the place of `remove` and `insert` matters.
use mosfet_rs.Prelude.{◌≡◌, refl, sym, ◌∙◌, inl, inr, Option, none, some, Option-cases}
use mosfet_rs.Config.Yaml.{Value, Fields, end, field, Mapping, get, hit, miss, Distinct}
use mosfet_rs.Config.{merge_values, merge_fields, merge_entry}

module _ {S : Type 0} (M : Mapping S) where
  open M use {same, remove, insert}

  -- The value at a key of the merged mapping, from the values at the key before.
  abbrev pub combine : Option (Value S) → Option (Value S) → Option (Value S)
  combine a none = a
  combine none (some b) = some b
  combine (some a) (some b) = some (merge_values M a b)

  abbrev update : Option (Value S) → Value S → Value S
  update (some a) b = merge_values M a b
  update none b = b

  -- Setting a key after its entry is removed, and setting it at once, look the same.
  hit-miss :
      {A : Type 0} (d : Dec A) (v : Value S) (rest : Option (Value S))
      → hit d v (miss d rest) ≡ hit d v rest
  hit-miss (yes e) v rest = refl
  hit-miss (no n) v rest = refl

  -- One round of the loop sets the key of the entry and keeps the others.
  abbrev round : Fields S → Value S → Value S → Fields S
  round m k v = merge_entry M (λ a. merge_values M a v) m k v (remove m k)

  round-get :
      (m : Fields S) (k v : Value S)
      → Distinct same m
      → Distinct same (round m k v)
        × ((j : Value S)
            → get same (round m k v) j ≡ hit (same k j) (update (get same m k) v) (get same m j))
  unfolding merge_entry
  round-get m k v d = elim (Option-cases (get same m k)) [
    | inl missing ↦
        rw (M.remove-absent m k missing, missing)
          (M.insert-Distinct m k v d, λ j. M.get-insert m k v j d)
    | inr (a, found) ↦
        let (rest, removed, d', others) = M.remove-present m k a d found in
        rw (removed, found)
          (
            M.insert-Distinct rest k (merge_values M a v) d',
            λ j.
                M.get-insert rest k (merge_values M a v) j d'
                ∙ rw (others j) (hit-miss (same k j) _ _),
          )
  ]

  combine-update : (o : Option (Value S)) (v : Value S) → some (update o v) ≡ combine o (some v)
  combine-update none v = refl
  combine-update (some a) v = refl

  -- One more entry in the second mapping, whose key the others do not have.
  combine-hit :
      (k v j : Value S) (g h : Value S → Option (Value S))
      → h k ≡ none
      → combine (hit (same k j) (update (g k) v) (g j)) (h j)
        ≡ combine (g j) (hit (same k j) v (h j))
  combine-hit k v j g h new =
      elim (same k j)
        as (λ d. combine (hit d (update (g k) v) (g j)) (h j) ≡ combine (g j) (hit d v (h j))) [
          | yes e ↦ rw (sym e, new) (combine-update (g k) v)
          | no n ↦ refl
        ]

  -- A mapping without double keys stays one when another such mapping is merged into it, and at
  -- every key it then has the two values merged, or the one that is there.
  pub merge_fields-get :
      (map1 map2 : Fields S)
      → Distinct same map1
      → Distinct same map2
      → Distinct same (merge_fields M map1 map2)
        × ((j : Value S)
            → get same (merge_fields M map1 map2) j ≡ combine (get same map1 j) (get same map2 j))
  unfolding merge_fields get
  merge_fields-get map1 end d d' = (d, λ j. refl)
  merge_fields-get map1 (field k v map2) d (new, d') =
      let (d₁, entry) = round-get map1 k v d in
      let (d₂, rest) = merge_fields-get (round map1 k v) map2 d₁ d' in
      (d₂, λ j. rest j ∙ rw (entry j) (combine-hit k v j (get same map1) (get same map2) new))
