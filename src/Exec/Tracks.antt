-- ===== src/Exec/Tracks.antt =====
-- Predicates on the client and the world together that a method keeps when it returns, with another
-- one on the world for the runs that end in a panic.
use mosfet_rs.Prelude.{ℕ, zero, suc}
use mosfet_rs.Exec.{Exec, Outcome, returns, panics, after, repeat, ◌>>=◌}
use mosfet_rs.Exec.Always.{Always}

module _ {ℓ} {W S : Type ℓ} (I : S → W → Type ℓ) (J : W → Type ℓ) where
  abbrev pub Tracked : {A : Type ℓ} → Outcome A × S × W → Type ℓ
  Tracked (returns a, s, w) = I s w
  Tracked (panics f, s, w) = J w

  pub record Tracks {A : Type ℓ} (m : Exec W S A) : Type ℓ where
    pub at : (s : S) (w : W) → I s w → Tracked (m s w)

  Tracked-after :
      {A B : Type ℓ} (o : Outcome A) (f : A → Exec W S B) (s : S) (w : W)
      → ((a : A) → Tracks (f a))
      → Tracked (o, s, w)
      → Tracked (after o f s w)
  Tracked-after (returns a) f s w k h = (k a).at s w h
  Tracked-after (panics x) f s w k h = h

  pub Tracks-bind :
      {A B : Type ℓ} (m : Exec W S A) (f : A → Exec W S B)
      → Tracks m
      → ((a : A) → Tracks (f a))
      → Tracks (m >>= f)
  unfolding ◌>>=◌
  Tracks-bind m f h k = record {
    at = λ s w i. Tracked-after (m s w).0 f (m s w).1 (m s w).2 k (h.at s w i);
  }

  pub Tracks-repeat : (n : ℕ) (m : Exec W S (Unit {ℓ})) → Tracks m → Tracks (repeat n m)
  unfolding repeat
  Tracks-repeat zero m h = record { at = λ s w i. i }
  Tracks-repeat (suc n) m h = Tracks-bind m _ h (λ u. Tracks-repeat n m h)

  module _ (weaken : (s : S) (w : W) → I s w → J w) where
    Tracked-kept : {A : Type ℓ} (o : Outcome A) (s : S) (w : W) → I s w → Tracked (o, s, w)
    Tracked-kept (returns a) s w h = h
    Tracked-kept (panics f) s w h = weaken s w h

    -- What always keeps the one predicate.
    pub Always-Tracks : {A : Type ℓ} (m : Exec W S A) → Always I m → Tracks m
    Always-Tracks m h = record {
      at = λ s w i. Tracked-kept (m s w).0 (m s w).1 (m s w).2 (h.at s w i);
    }
