-- ===== src/Base/Dict.antt =====
-- Python's `dict`. The program never iterates over one, so clients go by the laws below.
use mathlib.Core.Path.{◌≡◌, refl}
use mathlib.Core.Logic.{inl, inr}
use mathlib.Core.Option.{Option, none, some}
use mathlib.Core.List.{List, [], ◌∷◌}
use native.Mathlib.Omega.{arith}
use multi_agent_system.Base.Tests.{Bool-cases, Eq, if◌then◌else◌}

pub record Dict {ℓ κ} (K : Type ℓ) (V : Type κ) : Type (ℓ ⊔ κ) where
  entries : List (K × V)

module _ {ℓ κ} {K : Type ℓ} {V : Type κ} where
  abbrev pub empty : Dict K V
  empty = record { entries = [] }

module _ {ℓ κ} {K : Type ℓ} {V : Type κ} ⦃e : Eq K⦄ where
  lookup : K → List (K × V) → Option V
  lookup k [] = none
  lookup k ((j, v) ∷ d) = if e.beq j k then some v else lookup k d

  store : K → V → List (K × V) → List (K × V)
  store k v [] = (k, v) ∷ []
  store k v ((j, w) ∷ d) = if e.beq j k then (k, v) ∷ d else (j, w) ∷ store k v d

  without : K → List (K × V) → List (K × V)
  without k [] = []
  without k ((j, w) ∷ d) = let rest = without k d in if e.beq j k then rest else (j, w) ∷ rest

  -- `d.get(k)`
  unfoldable pub get : Dict K V → K → Option V
  unfolding lookup
  get d k = lookup k d.entries

  -- `d[k] = v`
  unfoldable pub put : Dict K V → K → V → Dict K V
  unfolding store
  put d k v = record { entries = store k v d.entries }

  -- `d.pop(k, None)`
  unfoldable pub pop : Dict K V → K → Dict K V
  unfolding without
  pop d k = record { entries = without k d.entries }

  lookup-store :
      (k j : K) (v : V) (d : List (K × V))
      → lookup j (store k v d) ≡ (if e.beq k j then some v else lookup j d)
  unfolding lookup store
  lookup-store k j v [] = refl
  lookup-store k j v ((i, w) ∷ d) =
      ground (arith, e.beq_iff k j, e.beq_iff i k, e.beq_iff i j, lookup-store k j v d)

  lookup-without :
      (k j : K) (d : List (K × V))
      → lookup j (without k d) ≡ (if e.beq k j then none else lookup j d)
  unfolding lookup without
  lookup-without k j [] = ground arith
  lookup-without k j ((i, w) ∷ d) =
      ground (arith, e.beq_iff k j, e.beq_iff i k, e.beq_iff i j, lookup-without k j d)

  pub get-put :
      (d : Dict K V) (k j : K) (v : V) → get (put d k v) j ≡ (if e.beq k j then some v else get d j)
  unfolding get put
  get-put d k j v = lookup-store k j v d.entries

  pub get-pop : (d : Dict K V) (k j : K) → get (pop d k) j ≡ (if e.beq k j then none else get d j)
  unfolding get pop
  get-pop d k j = lookup-without k j d.entries

  -- Taking a new key out again leaves every lookup as it was.
  pub get-pop-put :
      (d : Dict K V) (k j : K) (v : V) → get d k ≡ none → get (pop (put d k v) k) j ≡ get d j
  get-pop-put d k j v h = elim (Bool-cases (e.beq k j)) [
    | inl same ↦
        let eq = (e.beq_iff k j).0 same in
        let popped = get-pop (put d k v) k j in rw (popped, same, ← eq, h) refl
    | inr other ↦
        let popped = get-pop (put d k v) k j in
        let stored = get-put d k j v in rw (popped, other, stored, other) refl
  ]

  pub get-empty : (k : K) → get (empty {V = V}) k ≡ none
  unfolding get lookup
  get-empty k = refl

pub ruleset dict_laws = (get-empty, get-put, get-pop)
