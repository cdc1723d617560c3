-- ===== src/Exec/Always.antt =====
-- Predicates on the client and the world together that a method keeps however it ends, also when it
-- panics half way.
use mosfet_rs.Prelude.{
  ℕ, zero, suc, Bool, true, false, Option, none, some, Result, ok, err, if◌then◌else◌,
}
use mosfet_rs.Exec.{
  Exec, Fault, Outcome, returns, panics, pure, panic, gets, call, unwrap, unwrap_ok, when, modify,
  after, within, repeat, ◌>>=◌,
}

pub record Always {ℓ} {W S A : Type ℓ} (I : S → W → Type ℓ) (m : Exec W S A) : Type ℓ where
  pub at : (s : S) (w : W) → I s w → I (m s w).1 (m s w).2

module _ {ℓ} {W S A : Type ℓ} {I : S → W → Type ℓ} where
  pub Always-pure : (a : A) → Always I (pure a)
  Always-pure a = record { at = λ s w h. h }

  pub Always-panic : (f : Fault) → Always {A = A} I (panic f)
  Always-panic f = record { at = λ s w h. h }

  pub Always-gets : (f : S → A) → Always I (gets f)
  Always-gets f = record { at = λ s w h. h }

  pub Always-call : (f : W → A × W) → ((s : S) (w : W) → I s w → I s (f w).1) → Always I (call f)
  Always-call f k = record { at = k }

  pub Always-unwrap : (f : Fault) (o : Option A) → Always I (unwrap f o)
  Always-unwrap f none = Always-panic f
  Always-unwrap f (some a) = Always-pure a

  pub Always-unwrap_ok {κ} : {X : Type κ} (f : Fault) (r : Result X A) → Always I (unwrap_ok f r)
  Always-unwrap_ok f (ok a) = Always-pure a
  Always-unwrap_ok f (err x) = Always-panic f

  pub Always-if :
      (b : Bool) (m n : Exec W S A) → Always I m → Always I n → Always I (if b then m else n)
  Always-if true m n h k = h
  Always-if false m n h k = k

module _ {ℓ} {W S : Type ℓ} {I : S → W → Type ℓ} where
  pub Always-modify : (f : S → S) → ((s : S) (w : W) → I s w → I (f s) w) → Always I (modify f)
  Always-modify f k = record { at = k }

  pub Always-when : (b : Bool) (m : Exec W S (Unit {ℓ})) → Always I m → Always I (when b m)
  Always-when true m h = h
  Always-when false m h = Always-pure tt

module _ {ℓ} {W S A B : Type ℓ} {I : S → W → Type ℓ} where
  after-Always :
      (o : Outcome A) (f : A → Exec W S B) (s : S) (w : W)
      → ((a : A) → Always I (f a))
      → I s w
      → I (after o f s w).1 (after o f s w).2
  after-Always (returns a) f s w k h = (k a).at s w h
  after-Always (panics x) f s w k h = h

  pub Always-bind :
      (m : Exec W S A) (f : A → Exec W S B)
      → Always I m
      → ((a : A) → Always I (f a))
      → Always I (m >>= f)
  unfolding ◌>>=◌
  Always-bind m f h k = record {
    at = λ s w i. after-Always (m s w).0 f (m s w).1 (m s w).2 k (h.at s w i);
  }

-- A method of a part of the client.
pub Always-within {ℓ} :
    {W S T A : Type ℓ} {J : T → W → Type ℓ} {I : S → W → Type ℓ} (part : S → T) (put : S → T → S)
    (m : Exec W T A)
    → Always J m
    → ((s : S) (w : W) → I s w → J (part s) w)
    → ((s : S) (t : T) (w w' : W) → I s w → J t w' → I (put s t) w')
    → Always I (within part put m)
unfolding within
Always-within part put m h enter leave = record {
  at = λ s w i. leave s (m (part s) w).1 w (m (part s) w).2 i (h.at (part s) w (enter s w i));
}

pub Always-repeat {ℓ} :
    {W S : Type ℓ} {I : S → W → Type ℓ} (n : ℕ) (m : Exec W S (Unit {ℓ}))
    → Always I m
    → Always I (repeat n m)
unfolding repeat
Always-repeat zero m h = Always-pure tt
Always-repeat (suc n) m h = Always-bind m _ h (λ u. Always-repeat n m h)

pub ruleset always_rules = (
  Always-bind, Always-if, Always-when, Always-gets, Always-pure, Always-unwrap, Always-unwrap_ok,
  Always-panic,
)
