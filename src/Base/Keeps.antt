-- ===== src/Base/Keeps.antt =====
-- A handler that leaves a part of the state alone, whichever way it ends: rules for the parts that
-- handlers are made of.
use pulse_fm.Base.{◌≡◌, refl, ◌∙◌, Bool, true, false}
use pulse_fm.Base.Value.{Exception, Result, ok, err}
use pulse_fm.Base.Action.{Action, raise_if, try_except, ◌>>=◌}

-- `view` reads the part.
abbrev pub Keeps : {W X A : Type 0} → (W → X) → Action W A → Type 0
Keeps view m = (w : _) → view (m w).1 ≡ view w

module _ {W X : Type 0} (view : W → X) where
  pub Keeps-bind :
      {A B : Type 0} (m : Action W A) (f : A → Action W B)
      → Keeps view m
      → ((a : A) → Keeps view (f a))
      → Keeps view (m >>= f)
  Keeps-bind {A} {B} m f km kf w = go (m w) (km w)
    where
      go :
          (r : Result A × W)
          → view r.1 ≡ view w
          → view (elim r.0 as (λ _. Result B × W) [ ok a ↦ f a r.1 | err e ↦ (err e, r.1) ]).1
            ≡ view w
      go (ok a, w') same = kf a w' ∙ same
      go (err e, w') same = same

  pub Keeps-try :
      {A : Type 0} (m : Action W A) (handler : Exception → Action W A)
      → Keeps view m
      → ((e : Exception) → Keeps view (handler e))
      → Keeps view (try_except m handler)
  Keeps-try {A} m handler km kh w = go (m w) (km w)
    where
      go :
          (r : Result A × W)
          → view r.1 ≡ view w
          → view (elim r.0 as (λ _. Result A × W) [ ok a ↦ (ok a, r.1) | err e ↦ handler e r.1 ]).1
            ≡ view w
      go (ok a, w') same = same
      go (err e, w') same = kh e w' ∙ same

  pub Keeps-raise_if : (b : Bool) (e : Exception) → Keeps view (raise_if b e)
  Keeps-raise_if true e w = refl
  Keeps-raise_if false e w = refl
