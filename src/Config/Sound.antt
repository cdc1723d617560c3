-- ===== src/Config/Sound.antt =====
-- Configurations without double keys, everywhere or down to a depth: those that
-- src/extras/config.rs reads and merges.
use mosfet_rs.Prelude.{ℕ, zero, suc, ◌≡◌, some, arith}
use mosfet_rs.Config.Yaml.{
  Value, other, sequence, mapping, Fields, end, field, Mapping, get, Distinct,
}

module _ {S : Type 0} (M : Mapping S) where
  open M use {same}

  -- No mapping in the value has a key twice.
  abbrev mutual
    pub Sound : Value S → Type 0
    Sound (other s) = Unit
    Sound (sequence xs) = Unit
    Sound (mapping m) = Distinct same m × SoundFields m

    pub SoundFields : Fields S → Type 0
    SoundFields end = Unit
    SoundFields (field k v m) = Sound v × SoundFields m

  pub get-Sound : (m : Fields S) (k v : Value S) → SoundFields m → get same m k ≡ some v → Sound v
  unfolding get
  get-Sound end k v h e = ground arith
  get-Sound (field j u m) k v (h, hs) e = ground (arith, get-Sound m k v hs)

  -- No mapping that fewer than `n` keys lead into has a key twice.
  abbrev pub DistinctTo : ℕ → Value S → Type 0
  DistinctTo zero v = Unit
  DistinctTo (suc n) (other x) = Unit
  DistinctTo (suc n) (sequence xs) = Unit
  DistinctTo (suc n) (mapping m) =
      Distinct same m × ((k v : Value S) → get same m k ≡ some v → DistinctTo n v)

  pub Sound-DistinctTo : (n : ℕ) (v : Value S) → Sound v → DistinctTo n v
  Sound-DistinctTo zero v h = tt
  Sound-DistinctTo (suc n) (other x) h = tt
  Sound-DistinctTo (suc n) (sequence xs) h = tt
  Sound-DistinctTo (suc n) (mapping m) (d, h) =
      (d, λ k v e. Sound-DistinctTo n v (get-Sound m k v h e))
