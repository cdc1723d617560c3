-- ===== src/Tests/Ordered.antt =====
-- A mapping that keeps its entries in the order of insertion and meets the laws of `Mapping`.
use mosfet_rs.Prelude.{◌≡◌, refl, Option, none, some, arith}
use mosfet_rs.Config.Yaml.{
  Value, Fields, end, field, Mapping, get, hit, miss, Distinct, Value-discrete,
}

module _ {S : Type 0} (same : Discrete (Value S)) where
  abbrev pub behind : Value S → Value S → Option (Value S × Fields S) → Option (Value S × Fields S)
  behind j u none = none
  behind j u (some (v, m)) = some (v, field j u m)

  abbrev pub choose : {A B : Type 0} → Dec A → B → B → B
  choose (yes _) x y = x
  choose (no _) x y = y

  unfoldable pub remove : Fields S → Value S → Option (Value S × Fields S)
  remove end k = none
  remove (field j v m) k =
      let rest = remove m k in choose (same j k) (some (v, m)) (behind j v rest)

  unfoldable pub insert : Fields S → Value S → Value S → Fields S
  insert end k v = field k v end
  insert (field j u m) k v =
      let rest = insert m k v in choose (same j k) (field j v m) (field j u rest)

  pub remove_absent : (m : Fields S) (k : Value S) → get same m k ≡ none → remove m k ≡ none
  unfolding remove get
  remove_absent end k e = refl
  remove_absent (field j v m) k e = ground (arith, remove_absent m k)

  pub get_insert :
      (m : Fields S) (k v j : Value S) → get same (insert m k v) j ≡ hit (same k j) v (get same m j)
  unfolding insert get
  get_insert end k v j = refl
  get_insert (field i u m) k v j = ground (arith, get_insert m k v j)

  pub insert_Distinct :
      (m : Fields S) (k v : Value S) → Distinct same m → Distinct same (insert m k v)
  unfolding insert get
  insert_Distinct end k v d = (refl, tt)
  insert_Distinct (field i u m) k v (new, d) =
      ground (arith, get_insert m k v i, insert_Distinct m k v d)

  pub remove_present :
      (m : Fields S) (k v : Value S)
      → Distinct same m
      → get same m k ≡ some v
      → (rest : Fields S) × (remove m k ≡ some (v, rest))
        × Distinct same rest
        × ((j : Value S) → get same rest j ≡ miss (same k j) (get same m j))
  unfolding remove get
  remove_present end k v d e = ground arith
  remove_present (field i u m) k v (new, d) e =
      elim (same i k)
        as (λ c.
          (rest : Fields S) × (choose c (some (u, m)) (behind i u (remove m k)) ≡ some (v, rest))
          × Distinct same rest
          × ((j : Value S) → get same rest j ≡ miss (same k j) (hit (same i j) u (get same m j)))) [
            | yes h ↦ (m, ground arith, d, λ j. ground (arith))
            | no h ↦
                let (rest, removed, d', others) = remove_present m k v d (ground arith) in
                (
                  field i u rest,
                  rw removed refl,
                  ground (arith, others i),
                  λ j. ground (arith, others j),
                )
          ]

abbrev pub ordered : {S : Type 0} → Discrete S → Mapping S
ordered discrete = record {
  same = Value-discrete discrete;
  remove = remove (Value-discrete discrete);
  insert = insert (Value-discrete discrete);
  remove-absent = remove_absent (Value-discrete discrete);
  remove-present = remove_present (Value-discrete discrete);
  insert-Distinct = insert_Distinct (Value-discrete discrete);
  get-insert = λ m k v j d. get_insert (Value-discrete discrete) m k v j;
}
