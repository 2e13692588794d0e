-- ===== src/ModelGateway/Findings.antt =====
-- What the findings of `DeterministicBackend` rest on.
use multi_agent_system.Base.{ℕ, String, List, [], ◌∷◌, none, true, false, ◌≡◌, ◌⊎◌, take}
use multi_agent_system.Persistence.{UuidLibrary}
use multi_agent_system.Schemas.{DocumentInput, Evidence, Finding, RiskCategory}
use multi_agent_system.ModelGateway.Rules.{Text, codes, contains, Rule, rules}
use multi_agent_system.ModelGateway.Deterministic.{Printers, lowered, finding_of, matched}

-- An item is one of the items of a list.
abbrev pub IsIn : {A : Type 0} → A → List A → Type 0
IsIn x [] = ⊥
IsIn x (y ∷ ys) = (x ≡ y) ⊎ IsIn x ys

module _ (u : UuidLibrary) (lower : ℕ → Text) (printers : Printers) where
  abbrev low : DocumentInput → Text
  low d = lowered u lower printers (codes d.content)

  abbrev quoted : DocumentInput → Evidence
  quoted d = record {
    document_title = d.title;
    quote = take 1000 (codes d.content);
    source_uri = d.source_uri;
  }

  -- The one piece of evidence quotes a document that has the term.
  abbrev pub Cites : List DocumentInput → Text → List Evidence → Type 0
  Cites documents term evidence =
      (d : DocumentInput) × IsIn d documents
      × (contains (low d) term ≡ true)
      × (evidence ≡ quoted d ∷ [])

  -- A finding comes of a rule of the category: it cites a document with a term of the rule, or,
  -- for a rule about something that is missing, no document has a term and none is cited.
  abbrev pub IsGrounded : String → RiskCategory → List DocumentInput → Finding → Type 0
  IsGrounded case_id category documents f =
      (r : Rule) × IsIn r (rules category)
      × (f ≡ finding_of u lower printers case_id category r f.evidence)
      × ((r.absence ≡ false)
            × (f.confidence ≡ 96)
            × ((term : Text) × IsIn term r.terms × Cites documents term f.evidence)
          ⊎ (r.absence ≡ true)
            × (f.confidence ≡ 82)
            × (f.evidence ≡ [])
            × (matched u lower printers documents r ≡ none))
