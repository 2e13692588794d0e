-- ===== src/Exec.antt =====
-- Coroutines that mutate shared state and may raise. What was written before a raise stays
-- written, so the state comes back beside the error too.
use multi_agent_system.Base.{
  ℕ, String, Option, none, some, Bool, true, false, ◌≡◌, refl, ◌⊎◌, inl, inr,
}

-- The exceptions that the program raises or tells apart; their messages are left out.
pub data Error : Type 0 where
  action_not_found transition_conflict authorization_denied action_state : Error
  idempotency_conflict case_not_found review_not_found : Error
  execution_not_found execution_state authentication_error : Error
  message_not_found lease_lost integrity_error : Error
  value_error runtime_error overflow_error key_error : Error
  client_error : String → Error
  http_error : ℕ → Error

pub data Result {ℓ} (A : Type ℓ) : Type ℓ where
  ok : A → Result A
  err : Error → Result A

pub Result-cases {ℓ} :
    {A : Type ℓ} (r : Result A) → ((a : A) × (r ≡ ok a)) ⊎ ((e : Error) × (r ≡ err e))
Result-cases (ok a) = inl (a, refl)
Result-cases (err e) = inr (e, refl)

abbrev pub Exec {ℓ} : Type ℓ → Type ℓ → Type ℓ
Exec S A = S → Result A × S

module _ {ℓ} {S A : Type ℓ} where
  abbrev pub pure : A → Exec S A
  pure a s = (ok a, s)

  abbrev pub raise : Error → Exec S A
  raise e s = (err e, s)

  abbrev pub gets : (S → A) → Exec S A
  gets f s = (ok (f s), s)

  -- A value that a lookup may miss.
  abbrev pub or_raise : Option A → Error → Exec S A
  or_raise none e s = (err e, s)
  or_raise (some a) e s = (ok a, s)

  -- What a function that only returns or raises gives.
  abbrev pub of_result : Result A → Exec S A
  of_result r s = (r, s)

  abbrev handle : Result A → (Error → Exec S A) → Exec S A
  handle (ok a) h s = (ok a, s)
  handle (err e) h s = h e s

  -- `try: m except ...: h`; a handler that does not match raises its argument again.
  abbrev pub catch : Exec S A → (Error → Exec S A) → Exec S A
  catch m h s = let (r, t) = m s in handle r h t

module _ {ℓ} {S A B : Type ℓ} where
  abbrev next : Result A → (A → Exec S B) → Exec S B
  next (ok a) f s = f a s
  next (err e) f s = (err e, s)

  infixl 5 ◌>>=◌ ◌>>◌
  abbrev pub ◌>>=◌ : Exec S A → (A → Exec S B) → Exec S B
  ◌>>=◌ m f s = let (r, t) = m s in next r f t

  abbrev pub ◌>>◌ : Exec S A → Exec S B → Exec S B
  m >> k = m >>= λ _. k

abbrev pub modify : {S : Type 0} → (S → S) → Exec S (Unit {0})
modify f s = (ok tt, f s)

-- `if not condition: raise error`
abbrev pub require : {S : Type 0} → Bool → Error → Exec S (Unit {0})
require true e s = (ok tt, s)
require false e s = (err e, s)
