-- ===== src/Exec/Steps.antt =====
-- Loops whose body relates the client before to the client after.
use mosfet_rs.Prelude.{ℕ, zero, suc, ◌+◌, ◌≡◌, refl, ap, ◌∙◌, arith}
use mosfet_rs.Exec.{Exec, Fault, Outcome, returns, panics, after, repeat, ◌>>=◌}
use mosfet_rs.Exec.Keeps.{Ends}

module _ {ℓ} {W S : Type ℓ} (I : S → Type ℓ) (R : Fault → Type ℓ) (move : S → S → Type ℓ)
    (m : Exec W S (Unit {ℓ})) where
  -- A round from `s` panics with a fault that `R` allows, or is a move and `next` holds after it.
  abbrev Onward : S → (S → W → Type ℓ) → Outcome (Unit {ℓ}) × S × W → Type ℓ
  Onward s next (returns u, t, v) = move s t × next t v
  Onward s next (panics f, t, v) = R f

  -- Each of the next `n` rounds of the loop is a move, and `I` holds before and after each, up to
  -- the end or to the first panic.
  abbrev pub Trail : ℕ → S → W → Type ℓ
  Trail zero s w = I s
  Trail (suc n) s w = I s × Onward s (Trail n) (m s w)

  Onward-Ends :
      (s : S) (next : S → W → Type ℓ) (o : Outcome (Unit {ℓ})) (t : S) (v : W)
      → Ends (λ u t. move s t × I t) R (o, t, v)
      → (I t → next t v)
      → Onward s next (o, t, v)
  Onward-Ends s next (returns u) t v (h, i) k = (h, k i)
  Onward-Ends s next (panics f) t v h k = h

  pub loop-Trail :
      ((s : S) (w : W) → I s → Ends (λ u t. move s t × I t) R (m s w))
      → (n : ℕ) (s : S) (w : W) → I s
      → Trail n s w
  loop-Trail body zero s w i = i
  loop-Trail body (suc n) s w i = (
    i,
    Onward-Ends s (Trail n) (m s w).0 (m s w).1 (m s w).2 (body s w i)
        (loop-Trail body n (m s w).1 (m s w).2),
  )

-- One round that returns, and the rounds after it.
pub repeat-suc {ℓ} :
    {W S : Type ℓ} (n : ℕ) (m : Exec W S (Unit {ℓ})) (s : S) (w : W)
    → (m s w).0 ≡ returns tt
    → repeat (suc n) m s w ≡ repeat n m (m s w).1 (m s w).2
unfolding repeat ◌>>=◌
repeat-suc n m s w e = rw e refl

-- Rounds that return, and the rounds after them.
module _ {ℓ} {W S : Type ℓ} (n : ℕ) (k : Exec W S (Unit {ℓ})) where
  after-append :
      (m : ℕ) (o : Outcome (Unit {ℓ})) (s : S) (w : W)
      → ((t : S) (v : W)
          → (repeat m k t v).0 ≡ returns tt
          → repeat (m + n) k t v ≡ repeat n k (repeat m k t v).1 (repeat m k t v).2)
      → (after o (λ u. repeat m k) s w).0 ≡ returns tt
      → after o (λ u. repeat (m + n) k) s w
        ≡ repeat n k (after o (λ u. repeat m k) s w).1 (after o (λ u. repeat m k) s w).2
  after-append m (returns tt) s w ih e = ih s w e
  after-append m (panics f) s w ih e = cc e

  pub repeat-append :
      (m : ℕ) (s : S) (w : W)
      → (repeat m k s w).0 ≡ returns tt
      → repeat (m + n) k s w ≡ repeat n k (repeat m k s w).1 (repeat m k s w).2
  unfolding repeat ◌>>=◌
  repeat-append zero s w e = ap (λ i. repeat i k s w) (omega arith)
  repeat-append (suc m) s w e =
      let sum : suc m + n ≡ suc (m + n) = omega arith in
      ap (λ i. repeat i k s w) sum
      ∙ after-append m (k s w).0 (k s w).1 (k s w).2 (repeat-append m) e
