-- ===== src/Config.antt =====
-- src/extras/config.rs: merging one YAML configuration into another.
pub mod Yaml
pub mod Laws
pub mod Sound
pub mod Depth
pub mod Paths
pub mod Twice
pub mod Merge
pub mod Folder
use mosfet_rs.Prelude.{String, Bool, Option, none, some, Result, ok, err, if◌then◌else◌}
use mosfet_rs.Exec.{Exec, pure, call, ◌>>=◌}
use mosfet_rs.Config.Yaml.{
  Value, other, sequence, mapping, Items, nil, item, Fields, end, field, Mapping,
}

-- `seq1.extend(seq2)`
unfoldable pub extend : {S : Type 0} → Items S → Items S → Items S
extend nil ys = ys
extend (item x xs) ys = item x (extend xs ys)

module _ {S : Type 0} (M : Mapping S) where
  open M use {remove, insert}

  -- The body of the loop after `map1.remove(&key)`; `merge` takes the existing value to the merged.
  unfoldable pub merge_entry :
      (Value S → Value S) → Fields S → Value S → Value S → Option (Value S × Fields S) → Fields S
  merge_entry merge map1 key value (some (existing, rest)) = insert rest key (merge existing)
  merge_entry merge map1 key value none = insert map1 key value

  unfoldable mutual
    pub merge_values : Value S → Value S → Value S
    merge_values (mapping map1) (mapping map2) = mapping (merge_fields map1 map2)
    merge_values (sequence seq1) (sequence seq2) = sequence (extend seq1 seq2)
    merge_values _ value = value

    -- `for (key, value) in map2`
    pub merge_fields : Fields S → Fields S → Fields S
    merge_fields map1 end = map1
    merge_fields map1 (field key value map2) =
        merge_fields
          (merge_entry (λ existing. merge_values existing value) map1 key value (remove map1 key))
          map2

-- std::fs and `serde_yaml::from_str`, over an outside world.
pub record Files (S : Type 0) : Type 1 where
  pub World : Type 0
  pub IoError : Type 0
  pub YamlError : Type 0
  pub Handle : Type 0
  pub is_not_found : IoError → Bool
  pub read_to_string : String → World → Result IoError String × World
  pub create : String → World → Result IoError Handle × World
  pub write_all : Handle → String → World → Result IoError (Unit {0}) × World
  pub from_str : String → Result YamlError (Value S)

module _ {S : Type 0} (F : Files S) where
  open F use {World, IoError, YamlError}

  -- `Box<dyn std::error::Error>`
  pub data MergeError : Type 0 where
    io : IoError → MergeError
    yaml : YamlError → MergeError

  abbrev pub Fallible : Type 0 → Type 0
  Fallible A = Exec World (Unit {0}) (Result MergeError A)

  -- The operator `?`
  abbrev pub attempt :
      {X A B : Type 0} → (X → MergeError) → Result X A → (A → Fallible B) → Fallible B
  attempt wrap (ok a) f = f a
  attempt wrap (err e) f = pure (err (wrap e))

  unfoldable pub create_empty : String → Fallible String
  create_empty path = do
    file ← call (F.create path)
    attempt io file
        λ handle. do written ← call (F.write_all handle ""); attempt io written λ _. pure (ok "")

  -- The match on `fs::read_to_string(current_config)`.
  unfoldable pub contents_or_empty : String → Result IoError String → Fallible String
  contents_or_empty path (ok contents) = pure (ok contents)
  contents_or_empty path (err e) = if F.is_not_found e then create_empty path else pure (err (io e))

  unfoldable pub merge : Mapping S → String → String → Fallible (Value S)
  merge M current_config new_config = do
    first ← call (F.read_to_string current_config)
    destination ← contents_or_empty current_config first
    attempt (λ e. e) destination
        λ destination_contents. attempt yaml (F.from_str destination_contents) λ merged_yaml. do
          second ← call (F.read_to_string new_config)
          attempt io second λ source_contents.
              attempt yaml (F.from_str source_contents)
                λ source. pure (ok (merge_values M merged_yaml source))
