-- ===== src/Config/Yaml.antt =====
-- `serde_yaml::Value` as src/extras/config.rs uses it: mappings, sequences, and all else, which the
-- code never looks into. `S` is that rest.
use mosfet_rs.Prelude.{◌≡◌, Option, none, some}

mutual
  pub data Value (S : Type 0) : Type 0 where
    other : S → Value S
    sequence : Items S → Value S
    mapping : Fields S → Value S

  pub data Items (S : Type 0) : Type 0 where
    nil : Items S
    item : Value S → Items S → Items S

  -- The entries of a mapping in the order of its iteration.
  pub data Fields (S : Type 0) : Type 0 where
    end : Fields S
    field : Value S → Value S → Fields S → Fields S

pub Value-discrete : {S : Type 0} → Discrete S → Discrete (Value S)
Value-discrete d = hlevel d

-- The value that a mapping has at a key: its first entry of that key.
abbrev pub hit : {S A : Type 0} → Dec A → Value S → Option (Value S) → Option (Value S)
hit (yes _) v rest = some v
hit (no _) v rest = rest

-- The same, for a mapping without the key `k`.
abbrev pub miss : {S A : Type 0} → Dec A → Option (Value S) → Option (Value S)
miss (yes _) rest = none
miss (no _) rest = rest

module _ {S : Type 0} (same : Discrete (Value S)) where
  unfoldable pub get : Fields S → Value S → Option (Value S)
  get end k = none
  get (field j v m) k = let rest = get m k in hit (same j k) v rest

  -- No key occurs twice.
  abbrev pub Distinct : Fields S → Type 0
  Distinct end = Unit
  Distinct (field k v m) = (get m k ≡ none) × Distinct m

-- `serde_yaml::Mapping`: what `remove` and `insert` are documented to do to a mapping without double
-- keys, wherever they put the entries. Two keys are the same if they are equal as values here, so a
-- key that is itself a mapping is taken to have its entries in one fixed order.
pub record Mapping (S : Type 0) : Type 0 where
  pub same : Discrete (Value S)
  pub remove : Fields S → Value S → Option (Value S × Fields S)
  pub insert : Fields S → Value S → Value S → Fields S
  pub remove-absent : (m : Fields S) (k : Value S) → get same m k ≡ none → remove m k ≡ none
  pub remove-present :
      (m : Fields S) (k v : Value S)
      → Distinct same m
      → get same m k ≡ some v
      → (rest : Fields S) × (remove m k ≡ some (v, rest))
        × Distinct same rest
        × ((j : Value S) → get same rest j ≡ miss (same k j) (get same m j))
  pub insert-Distinct :
      (m : Fields S) (k v : Value S) → Distinct same m → Distinct same (insert m k v)
  pub get-insert :
      (m : Fields S) (k v j : Value S)
      → Distinct same m
      → get same (insert m k v) j ≡ hit (same k j) v (get same m j)
