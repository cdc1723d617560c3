-- ===== src/Exec/Keeps.antt =====
-- Rules for what a method does in every run, whatever the outside world answers: an invariant of
-- the client that it keeps, with the panics that it may end in.
use mosfet_rs.Prelude.{
  ℕ, zero, suc, ◌≡◌, refl, Bool, true, false, Option, none, some, if◌then◌else◌,
}
use mosfet_rs.Exec.{
  Fault, Outcome, returns, panics, Exec, pure, panic, gets, call, unwrap, when, modify, within,
  after, repeat, ◌>>=◌,
}

-- How a run ended: with a value and a client that satisfy `Q`, or in a panic that `R` allows.
abbrev pub Ends {ℓ} :
    {W S A : Type ℓ} → (A → S → Type ℓ) → (Fault → Type ℓ) → Outcome A × S × W → Type ℓ
Ends Q R (returns a, s, w) = Q a s
Ends Q R (panics f, s, w) = R f

-- Every run of `m` from a client that satisfies `P` ends by `Q` and `R`.
pub record Meets {ℓ} {W S A : Type ℓ} (P : S → Type ℓ) (m : Exec W S A) (Q : A → S → Type ℓ)
    (R : Fault → Type ℓ) : Type ℓ where
  pub at : (s : S) (w : W) → P s → Ends Q R (m s w)

-- `m` keeps `I`.
pub record Keeps {ℓ} {W S A : Type ℓ} (I : S → Type ℓ) (R : Fault → Type ℓ) (m : Exec W S A)
    : Type ℓ where
  pub at : (s : S) (w : W) → I s → Ends (λ a. I) R (m s w)

module _ {ℓ} {W S A : Type ℓ} {I : S → Type ℓ} {R : Fault → Type ℓ} where
  pub Keeps-pure : (a : A) → Keeps {W = W} I R (pure a)
  Keeps-pure a = record { at = λ s w h. h }

  pub Keeps-panic : (f : Fault) → R f → Keeps {W = W} {A = A} I R (panic f)
  Keeps-panic f r = record { at = λ s w h. r }

  pub Keeps-gets : (f : S → A) → Keeps {W = W} I R (gets f)
  Keeps-gets f = record { at = λ s w h. h }

  pub Keeps-call : (f : W → A × W) → Keeps I R (call f)
  Keeps-call f = record { at = λ s w h. h }

  pub Keeps-unwrap : (f : Fault) (o : Option A) → R f → Keeps {W = W} I R (unwrap f o)
  Keeps-unwrap f none r = Keeps-panic f r
  Keeps-unwrap f (some a) r = Keeps-pure a

  pub Keeps-if :
      (b : Bool) (m n : Exec W S A)
      → (b ≡ true → Keeps I R m)
      → (b ≡ false → Keeps I R n)
      → Keeps I R (if b then m else n)
  Keeps-if true m n km kn = km refl
  Keeps-if false m n km kn = kn refl

module _ {ℓ} {W S : Type ℓ} {I : S → Type ℓ} {R : Fault → Type ℓ} where
  pub Keeps-modify : (f : S → S) → ((s : S) → I s → I (f s)) → Keeps {W = W} I R (modify f)
  Keeps-modify f k = record { at = λ s w h. k s h }

  pub Keeps-when : (b : Bool) (m : Exec W S (Unit {ℓ})) → Keeps I R m → Keeps I R (when b m)
  Keeps-when true m k = k
  Keeps-when false m k = Keeps-pure tt

module _ {ℓ} {W S A B : Type ℓ} (R : Fault → Type ℓ) where
  pub Ends-after :
      (P : A → S → Type ℓ) (Q : B → S → Type ℓ) (f : A → Exec W S B) (r : Outcome A) (s : S) (w : W)
      → Ends P R (r, s, w)
      → ((a : A) → P a s → Ends Q R (f a s w))
      → Ends Q R (after r f s w)
  Ends-after P Q f (returns a) s w h k = k a h
  Ends-after P Q f (panics x) s w h k = h

module _ {ℓ} {W S A B : Type ℓ} {R : Fault → Type ℓ} where
  pub Keeps-bind :
      {I : S → Type ℓ} (m : Exec W S A) (f : A → Exec W S B)
      → Keeps I R m
      → ((a : A) → Keeps I R (f a))
      → Keeps I R (m >>= f)
  unfolding ◌>>=◌
  Keeps-bind {I} m f km kf = record {
    at = λ s w h.
        let (r, s', w') = m s w in
        Ends-after R (λ a. I) (λ b. I) f r s' w' (km.at s w h) (λ a i. (kf a).at s' w' i);
  }

  -- The rest may use what `m` established of its value and of the client.
  pub Meets-bind :
      {P : S → Type ℓ} (Q : A → S → Type ℓ) {T : B → S → Type ℓ} (m : Exec W S A)
      (f : A → Exec W S B)
      → Meets P m Q R
      → ((a : A) → Meets (Q a) (f a) T R)
      → Meets P (m >>= f) T R
  unfolding ◌>>=◌
  Meets-bind Q {T} m f km kf = record {
    at = λ s w h.
        let (r, s', w') = m s w in
        Ends-after R Q T f r s' w' (km.at s w h) (λ a i. (kf a).at s' w' i);
  }

module _ {ℓ} {W S A : Type ℓ} {R : Fault → Type ℓ} where
  pub Keeps-Meets : {I : S → Type ℓ} (m : Exec W S A) → Keeps I R m → Meets I m (λ a. I) R
  Keeps-Meets m k = record { at = λ s w h. k.at s w h }

  pub Meets-Keeps : {I : S → Type ℓ} (m : Exec W S A) → Meets I m (λ a. I) R → Keeps I R m
  Meets-Keeps m k = record { at = λ s w h. k.at s w h }

module _ {ℓ} {W S T A : Type ℓ} where
  Ends-within :
      (R : Fault → Type ℓ) (P : A → T → Type ℓ) (Q : A → S → Type ℓ) (put : S → T → S) (s : S)
      (r : Outcome A) (t : T) (w : W)
      → Ends P R (r, t, w)
      → ((a : A) → P a t → Q a (put s t))
      → Ends Q R (r, put s t, w)
  Ends-within R P Q put s (returns a) t w h k = k a h
  Ends-within R P Q put s (panics x) t w h k = h

module _ {ℓ} {W S T A : Type ℓ} {R : Fault → Type ℓ} where
  -- A specification of a part of the client, read on the whole client.
  pub Meets-within :
      {P : T → Type ℓ} {Q : A → T → Type ℓ} (P' : S → Type ℓ) (Q' : A → S → Type ℓ) (part : S → T)
      (put : S → T → S) (m : Exec W T A)
      → Meets P m Q R
      → ((s : S) → P' s → P (part s))
      → ((s : S) (a : A) (t : T) → P' s → Q a t → Q' a (put s t))
      → Meets P' (within part put m) Q' R
  unfolding within
  Meets-within {Q} P' Q' part put m k before afterwards = record {
    at = λ s w h.
        let (r, t, w') = m (part s) w in
        Ends-within R Q Q' put s r t w' (k.at (part s) w (before s h))
          (λ a q. afterwards s a t h q);
  }

module _ {ℓ} {W S A : Type ℓ} where
  pub Ends-mono :
      {P Q : A → S → Type ℓ} {R T : Fault → Type ℓ} (r : Outcome A) (s : S) (w : W)
      → ((a : A) (s : S) → P a s → Q a s)
      → ((f : Fault) → R f → T f)
      → Ends P R (r, s, w)
      → Ends Q T (r, s, w)
  Ends-mono (returns a) s w f g h = f a s h
  Ends-mono (panics x) s w f g h = g x h

  -- A weaker postcondition, more panics, a stronger precondition.
  pub Meets_mono :
      {P P' : S → Type ℓ} {Q Q' : A → S → Type ℓ} {R T : Fault → Type ℓ} (m : Exec W S A)
      → ((s : S) → P' s → P s)
      → ((a : A) (s : S) → Q a s → Q' a s)
      → ((f : Fault) → R f → T f)
      → Meets P m Q R
      → Meets P' m Q' T
  Meets_mono {Q} {Q'} {R} {T} m pre post more k = record {
    at = λ s w h.
        let (r, s', w') = m s w in
        Ends-mono {P = Q} {Q = Q'} {R = R} {T = T} r s' w' post more (k.at s w (pre s h));
  }

  pub Keeps-mono :
      {I : S → Type ℓ} {R T : Fault → Type ℓ} (m : Exec W S A)
      → ((f : Fault) → R f → T f)
      → Keeps I R m
      → Keeps I T m
  Keeps-mono {I} m more k =
      Meets-Keeps m (Meets_mono m (λ s h. h) (λ a s h. h) more (Keeps-Meets m k))

module _ {ℓ} {W S A : Type ℓ} {P : S → Type ℓ} {Q : A → S → Type ℓ} {R : Fault → Type ℓ} where
  pub Meets-pure : (a : A) → ((s : S) → P s → Q a s) → Meets {W = W} P (pure a) Q R
  Meets-pure a h = record { at = λ s w p. h s p }

  pub Meets-if :
      (b : Bool) (m n : Exec W S A)
      → Meets P m Q R
      → Meets P n Q R
      → Meets P (if b then m else n) Q R
  Meets-if true m n km kn = km
  Meets-if false m n km kn = kn

  -- After a part that keeps `P`, whatever value it returns.
  pub Keeps-then :
      {B : Type ℓ} (m : Exec W S B) (f : B → Exec W S A)
      → Keeps P R m
      → ((b : B) → Meets P (f b) Q R)
      → Meets P (m >>= f) Q R
  Keeps-then m f km kf = Meets-bind (λ b. P) m f (Keeps-Meets m km) kf

pub ruleset keeps_rules = (
  Keeps-pure, Keeps-panic, Keeps-gets, Keeps-call, Keeps-unwrap, Keeps-if, Keeps-when, Keeps-bind,
)

-- A loop of any length keeps what its body keeps.
pub repeat-Keeps {ℓ} :
    {W S : Type ℓ} {I : S → Type ℓ} {R : Fault → Type ℓ} (n : ℕ) (m : Exec W S (Unit {ℓ}))
    → Keeps I R m
    → Keeps I R (repeat n m)
unfolding repeat
repeat-Keeps zero m k = Keeps-pure tt
repeat-Keeps (suc n) m k = Keeps-bind m _ k (λ u. repeat-Keeps n m k)
