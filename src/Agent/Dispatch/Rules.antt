-- ===== src/Agent/Dispatch/Rules.antt =====
-- Rules by which a method of the agent is shown to do a list of events, and nothing else.
use mathlib.Core.List.{append-nil, append_assoc}
use mathlib.Core.Path.{subst}
use mosfet_rs.Prelude.{
  ◌≡◌, refl, sym, ◌∙◌, ap, Bool, true, false, not, some, List, [], ◌∷◌, ◌++◌, arith, if◌then◌else◌,
}
use mosfet_rs.Exec.{Exec, Outcome, returns, panics, pure, when, after, ◌>>=◌}
use mosfet_rs.Env.{Env}
use mosfet_rs.Messages.{AgentToServer, ConnectionSettings}
use mosfet_rs.Agent.{Agent}
use mosfet_rs.Agent.Dispatch.{CallLog, Event, listed, append-Happens, Done}

module _ (E : Env) (L : CallLog E) (settings : ConnectionSettings E.crates)
    (msg : E.ServerToAgent) where
  open L use {calls}

  abbrev Method : Type 0 → Type 0
  Method A = Exec E.World (Agent E) A

  -- `m` takes the state `st` to `st'`, returns `r`, and does exactly `es`.
  pub record Does {A : Type 0} (st st' : AgentToServer E.crates) (m : Method A) (r : A)
      (es : List (Event E L settings msg)) : Type 0 where
    pub at :
        (a : Agent E) (w : E.World)
        → a.settings ≡ settings
        → a.agent_state ≡ some st
        → Done E L settings msg a w st' r es (m a w)

  Done-after :
      {A B : Type 0} {st₁ st₂ : AgentToServer E.crates} (f : A → Method B) (a : Agent E)
      (w : E.World) (r : A) (q : B) (es fs : List (Event E L settings msg)) (o : Outcome A)
      (a₁ : Agent E) (w₁ : E.World)
      → Does st₁ st₂ (f r) q fs
      → Done E L settings msg a w st₁ r es (o, a₁, w₁)
      → Done E L settings msg a w st₂ q (es ++ fs) (after o f a₁ w₁)
  Done-after f a w r q es fs (panics x) a₁ w₁ next h = ground (arith, h.0)
  Done-after {st₂} f a w r q es fs (returns r') a₁ w₁ next (done, owner, there, first) =
      let e : r' ≡ r = ground (arith, done) in
      let (ls, qs, sent, heard, happened) = first in
      let (done', owner', there', (ks, ps, sent', heard', happened')) = next.at a₁ w₁ owner there in
      rw e (
        done',
        owner',
        there',
        (
          ls ++ ks,
          qs ++ ps,
          sent' ∙ ap (λ x. x ++ ps) sent ∙ append_assoc a.outbox qs ps,
          heard' ∙ ap (λ x. x ++ ks) heard ∙ append_assoc (calls w) ls ks,
          append-Happens E L settings msg es fs ls ks qs ps happened happened',
        ),
      )

  pub Does-bind :
      {A B : Type 0} {st st₁ st₂ : AgentToServer E.crates} (m : Method A) (f : A → Method B) (r : A)
      (q : B) (es fs : List (Event E L settings msg))
      → Does st st₁ m r es
      → Does st₁ st₂ (f r) q fs
      → Does st st₂ (m >>= f) q (es ++ fs)
  unfolding ◌>>=◌
  Does-bind m f r q es fs first next = record {
    at = λ a w owner there.
        Done-after f a w r q es fs (m a w).0 (m a w).1 (m a w).2 next (first.at a w owner there);
  }

  -- A step without an event.
  pub Done-nothing :
      {A : Type 0} {st : AgentToServer E.crates} (r : A) (a a' : Agent E) (w w' : E.World)
      → a'.settings ≡ settings
      → a'.agent_state ≡ some st
      → a'.outbox ≡ a.outbox
      → calls w' ≡ calls w
      → Done E L settings msg a w st r [] (returns r, a', w')
  Done-nothing r a a' w w' owner there queue history = (
    refl,
    owner,
    there,
    ([], [], queue ∙ sym (append-nil _), history ∙ sym (append-nil _), (refl, refl)),
  )

  pub Does-pure : {A : Type 0} {st : AgentToServer E.crates} (r : A) → Does st st (pure r) r []
  Does-pure r = record { at = λ a w owner there. Done-nothing r a a w w owner there refl refl }

  pub Does-when :
      {st : AgentToServer E.crates} (b : Bool) (m : Method (Unit {0})) (e : Event E L settings msg)
      → Does st st m tt (e ∷ [])
      → Does st st (when b m) tt (listed E L settings msg b e)
  Does-when true m e d = d
  Does-when false m e d = Does-pure tt

  -- A last step that only returns.
  pub Does-end :
      {A B : Type 0} {st st' : AgentToServer E.crates} (m : Method A) (r : A) (q : B)
      (es : List (Event E L settings msg))
      → Does st st' m r es
      → Does st st' (m >>= λ _. pure q) q es
  Does-end {st} {st'} m r q es d =
      subst (λ fs. Does st st' (m >>= λ _. pure q) q fs) (append-nil es)
        (Does-bind m (λ _. pure q) r q es [] d (Does-pure q))

  pub Does-if :
      {A : Type 0} {st st₁ st₂ : AgentToServer E.crates} (b : Bool) (m n : Method A) (r : A)
      (es fs : List (Event E L settings msg))
      → Does st st₁ m r es
      → Does st st₂ n r fs
      → Does st (if b then st₁ else st₂) (if b then m else n) r (if b then es else fs)
  Does-if true m n r es fs d d' = d
  Does-if false m n r es fs d d' = d'

  pub Does-unless :
      {A : Type 0} {st st₁ st₂ : AgentToServer E.crates} (b : Bool) (m n : Method A) (r : A)
      (es fs : List (Event E L settings msg))
      → Does st st₁ m r es
      → Does st st₂ n r fs
      → Does st (if b then st₂ else st₁) (if not b then m else n) r (if b then fs else es)
  Does-unless true m n r es fs d d' = d'
  Does-unless false m n r es fs d d' = d
