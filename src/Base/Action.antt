-- ===== src/Base/Action.antt =====
-- Handlers: state passing with exceptions. The state comes back after a raise too, since what was
-- written stays written.
use pulse_fm.Base.{arith, ◌≡◌, ap, refl, ◌⊎◌, inl, inr, Bool, true, false}
use pulse_fm.Base.Value.{Exception, Result, ok, err}

abbrev pub Action : Type 0 → Type 0 → Type 0
Action W A = W → Result A × W

module _ {W A : Type 0} where
  abbrev pub pure : A → Action W A
  pure a w = (ok a, w)

  abbrev pub raise : Exception → Action W A
  raise e w = (err e, w)

  abbrev pub gets : (W → A) → Action W A
  gets f w = (ok (f w), w)

  -- A value that was computed with no effect, or what its computation raised.
  abbrev pub from_result : Result A → Action W A
  from_result r w = (r, w)

  -- `try: m` with `except E: handler`, for the exceptions that `handler` is given.
  abbrev pub try_except : Action W A → (Exception → Action W A) → Action W A
  try_except m handler w = let (r, w') = m w in elim r [ ok a ↦ (ok a, w') | err e ↦ handler e w' ]

abbrev pub modify : {W : Type 0} → (W → W) → Action W (Unit {0})
modify f w = (ok tt, f w)

abbrev pub raise_if : {W : Type 0} → Bool → Exception → Action W (Unit {0})
raise_if true e w = (err e, w)
raise_if false e w = (ok tt, w)

infixl 5 ◌>>=◌ ◌>>◌
abbrev pub ◌>>=◌ : {W A B : Type 0} → Action W A → (A → Action W B) → Action W B
◌>>=◌ m f w = let (r, w') = m w in elim r [ ok a ↦ f a w' | err e ↦ (err e, w') ]

abbrev pub ◌>>◌ : {W A B : Type 0} → Action W A → Action W B → Action W B
m >> k = m >>= λ _. k

pub Result-cases {ℓ} :
    {A : Type ℓ} (r : Result A) → ((a : A) × (r ≡ ok a)) ⊎ ((e : Exception) × (r ≡ err e))
Result-cases (ok a) = inl (a, refl)
Result-cases (err e) = inr (e, refl)

module _ {W A : Type 0} (m : Action W A) (handler : Exception → Action W A) {w w' : W} where
  pub try_except-ok : {a : A} → m w ≡ (ok a, w') → try_except m handler w ≡ (ok a, w')
  try_except-ok {a} e =
      ap
        (λ (r : Result A × W). elim r.0 as (λ _. Result A × W) [
          | ok a ↦ (ok a, r.1)
          | err x ↦ handler x r.1
        ])
        e

  pub try_except-err : {x : Exception} → m w ≡ (err x, w') → try_except m handler w ≡ handler x w'
  try_except-err {x} e =
      ap
        (λ (r : Result A × W). elim r.0 as (λ _. Result A × W) [
          | ok a ↦ (ok a, r.1)
          | err x ↦ handler x r.1
        ])
        e

module _ {W A B : Type 0} (m : Action W A) (f : A → Action W B) {w w' : W} where
  -- The steps of a `do` block, one after the other.
  pub >>=-ok : {a : A} → m w ≡ (ok a, w') → (m >>= f) w ≡ f a w'
  >>=-ok e =
      ap
        (λ (r : Result A × W). elim r.0 as (λ _. Result B × W) [
          | ok a ↦ f a r.1
          | err x ↦ (err x, r.1)
        ])
        e

  pub >>=-err : {x : Exception} → m w ≡ (err x, w') → (m >>= f) w ≡ (err x, w')
  >>=-err e =
      ap
        (λ (r : Result A × W). elim r.0 as (λ _. Result B × W) [
          | ok a ↦ f a r.1
          | err x ↦ (err x, r.1)
        ])
        e

-- What a step and its continuation do that together return a value.
pub ok_bind :
    {W A B : Type 0} (m : Action W A) (f : A → Action W B) (w : W) {b : B}
    → ((m >>= f) w).0 ≡ ok b
    → (a : A) × ((m w).0 ≡ ok a) × ((m >>= f) w ≡ f a (m w).1)
ok_bind m f w e = elim (Result-cases (m w).0) [
  | inl (a, returns) ↦ (a, returns, ground arith)
  | inr (x, raises) ↦ absurd (ground arith)
]
