-- ===== src/ModelGateway/Synthesis.antt =====
-- What the recommendation of `DeterministicBackend` says of the findings.
use mathlib.Core.Path.{subst}
use multi_agent_system.Base.{
  ℕ, ◌≤◌, List, [], ◌∷◌, map, true, ◌||◌, ◌==◌, ◌≡◌, refl, sym, inl, inr, arith, min, leb, any,
  Bool-cases, All, All-mono, if◌then◌else◌,
}
use Prim.Native.Nat.{max}
use multi_agent_system.Persistence.{UuidLibrary}
use multi_agent_system.Schemas.{Decision, Finding, Severity}
use multi_agent_system.ModelGateway.Rules.{Text}
use multi_agent_system.ModelGateway.Deterministic.{
  Printers, same_severity, has_severity, decision_of, least_confidence, synthesize,
}

-- The order of the severities.
abbrev pub rank : Severity → ℕ
rank Severity.low = 0
rank Severity.medium = 1
rank Severity.high = 2
rank Severity.critical = 3

-- The rank of the worst finding.
abbrev pub worst : List Finding → ℕ
worst [] = 0
worst (f ∷ fs) = max (rank f.severity) (worst fs)

abbrev pub decision_for : ℕ → Decision
decision_for n =
    if leb 3 n then Decision.escalate else if leb 1 n then Decision.remediate else Decision.approve

worst_critical : (fs : List Finding) → has_severity Severity.critical fs ≡ leb 3 (worst fs)
worst_critical [] = refl
worst_critical (f ∷ fs) = let rest = worst_critical fs in by_severity f.severity rest
  where
    by_severity :
        (s : Severity)
        → has_severity Severity.critical fs ≡ leb 3 (worst fs)
        → (same_severity s Severity.critical || has_severity Severity.critical fs)
          ≡ leb 3 (max (rank s) (worst fs))
    by_severity Severity.low rest = ground arith
    by_severity Severity.medium rest = ground arith
    by_severity Severity.high rest = ground arith
    by_severity Severity.critical rest = ground arith

worst_relevant :
    (fs : List Finding)
    → (has_severity Severity.high fs
        || has_severity Severity.medium fs
        || has_severity Severity.critical fs)
      ≡ leb 1 (worst fs)
worst_relevant [] = refl
worst_relevant (f ∷ fs) = let rest = worst_relevant fs in by_severity f.severity rest
  where
    by_severity :
        (s : Severity)
        → (has_severity Severity.high fs
            || has_severity Severity.medium fs
            || has_severity Severity.critical fs)
          ≡ leb 1 (worst fs)
        → ((same_severity s Severity.high || has_severity Severity.high fs)
            || (same_severity s Severity.medium || has_severity Severity.medium fs)
            || (same_severity s Severity.critical || has_severity Severity.critical fs))
          ≡ leb 1 (max (rank s) (worst fs))
    by_severity Severity.low rest = ground arith
    by_severity Severity.medium rest = ground arith
    by_severity Severity.high rest = ground arith
    by_severity Severity.critical rest = ground arith

module _ (u : UuidLibrary) (lower : ℕ → Text) (printers : Printers) where
  decides : (fs : List Finding) → decision_of u lower printers fs ≡ decision_for (worst fs)
  unfolding decision_of
  decides fs =
      let critical = worst_critical fs in
      let relevant = worst_relevant fs in
      elim (Bool-cases (has_severity Severity.critical fs)) [
        | inl yes_ ↦ ground arith
        | inr no_ ↦ elim (Bool-cases (has_severity Severity.high fs)) [
          | inl high ↦ ground arith
          | inr no_high ↦ elim (Bool-cases (has_severity Severity.medium fs)) [
            | inl medium ↦ ground arith
            | inr no_medium ↦ ground arith
          ]
        ]
      ]

  abbrev pub confidence_of : List Finding → ℕ
  confidence_of fs = least_confidence u lower printers fs

  bounds : (fs : List Finding) → All (λ f. confidence_of fs ≤ f.confidence) fs
  unfolding least_confidence
  bounds [] = tt
  bounds (f ∷ []) = (omega arith, tt)
  bounds (f ∷ g ∷ fs) = (
    omega arith,
    All-mono (λ x. confidence_of (g ∷ fs) ≤ x.confidence)
        (λ x. min f.confidence (confidence_of (g ∷ fs)) ≤ x.confidence) (λ x h. omega (arith, h))
        (g ∷ fs) (bounds (g ∷ fs)),
  )

  attained :
      (f : Finding) (fs : List Finding)
      → any (λ x. x.confidence == confidence_of (f ∷ fs)) (f ∷ fs) ≡ true
  unfolding least_confidence
  attained f [] = ground arith
  attained f (g ∷ fs) =
      let rest = attained g fs in
      elim (Bool-cases (leb f.confidence (confidence_of (g ∷ fs)))) [
        | inl first ↦
            let same : min f.confidence (confidence_of (g ∷ fs)) ≡ f.confidence = ground arith in
            subst (λ n. any (λ x. x.confidence == n) (f ∷ g ∷ fs) ≡ true) (sym same) (ground arith)
        | inr later ↦
            let same : min f.confidence (confidence_of (g ∷ fs)) ≡ confidence_of (g ∷ fs) =
              ground arith in
            subst (λ n. any (λ x. x.confidence == n) (f ∷ g ∷ fs) ≡ true) (sym same) (ground arith)
      ]

-- The recommendation follows the worst finding: it escalates a critical one, asks to remediate one
-- of high or medium severity, and approves otherwise. It requires the remediation of each finding,
-- and its confidence is the least of the findings', or 0.9 if there is none.
pub synthesize-worst :
    (u : UuidLibrary) (lower : ℕ → Text) (printers : Printers) (f : Finding) (fs : List Finding)
    → ((synthesize u lower printers (f ∷ fs)).decision ≡ decision_for (worst (f ∷ fs)))
      × ((synthesize u lower printers (f ∷ fs)).required_actions
          ≡ map (λ x. x.remediation) (f ∷ fs))
      × All (λ x. (synthesize u lower printers (f ∷ fs)).confidence ≤ x.confidence) (f ∷ fs)
      × (any (λ x. x.confidence == (synthesize u lower printers (f ∷ fs)).confidence) (f ∷ fs)
          ≡ true)
      × ((synthesize u lower printers []).decision ≡ Decision.approve)
      × ((synthesize u lower printers []).confidence ≡ 90)
unfolding synthesize least_confidence decision_of
synthesize-worst u lower printers f fs = (
  decides u lower printers (f ∷ fs),
  refl,
  bounds u lower printers (f ∷ fs),
  attained u lower printers f fs,
  refl,
  refl,
)
