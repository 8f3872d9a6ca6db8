-- ===== src/Logic/Exec.antt =====
-- A handler as an action on the node: it returns or throws, and the changes that it made until then
-- stay.
use round_sync.Base.{ℕ, none, some, Exception, state_error, Result, ok, err, ndn_error}
use round_sync.Ndn.{Ndn}
use round_sync.Logic.{Logic}

module _ ⦃ndn : Ndn⦄ where
  open ndn use {Name, get_back, to_number}

  abbrev pub Action : Type 0 → Type 0
  Action A = Logic → Result A × Logic

  abbrev pub pure : {A : Type 0} → A → Action A
  pure a l = (ok a, l)

  abbrev pub raise : {A : Type 0} → Exception → Action A
  raise e l = (err e, l)

  abbrev pub lift : {A : Type 0} → Result A → Action A
  lift r l = (r, l)

  abbrev pub get : Action Logic
  get l = (ok l, l)

  abbrev pub modify : (Logic → Logic) → Action (Unit {0})
  modify f l = (ok tt, f l)

  abbrev pub proceed : {A B : Type 0} → Result A × Logic → (A → Action B) → Result B × Logic
  proceed (ok a, l) f = f a l
  proceed (err e, l) f = (err e, l)

  infixl 5 ◌>>=◌ ◌>>◌
  abbrev pub ◌>>=◌ : {A B : Type 0} → Action A → (A → Action B) → Action B
  ◌>>=◌ m f l = proceed (m l) f

  abbrev pub ◌>>◌ : {B : Type 0} → Action (Unit {0}) → Action B → Action B
  m >> k = m >>= λ _. k

  -- `catch (State::Error&)`, with nothing more to do. Other exceptions pass.
  abbrev pub swallow : Result (Unit {0}) → Result (Unit {0})
  swallow (ok a) = ok a
  swallow (err state_error) = ok tt
  swallow (err e) = err e

  abbrev pub catch_state_error : Action (Unit {0}) → Action (Unit {0})
  catch_state_error m l = (swallow (m l).0, (m l).1)

  -- `name.get(-i)` and `name.get(-i).toNumber()`
  abbrev pub component_at : Name → ℕ → Result ndn.Component
  component_at n i = elim (get_back n i) [ none ↦ err ndn_error | some c ↦ ok c ]

  abbrev pub number_at : Name → ℕ → Result ℕ
  number_at n i = elim (get_back n i) [
    | none ↦ err ndn_error
    | some c ↦ elim (to_number c) [ none ↦ err ndn_error | some r ↦ ok r ]
  ]
