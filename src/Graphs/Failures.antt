-- ===== src/Graphs/Failures.antt =====
-- An execution whose model failed, and one of another tenant or case.
use multi_agent_system.Base.{
  String, none, some, Bool, false, ◌≡◌, ◌≢◌, ◌⊎◌, refl, inl, inr, arith, Uuid, nat_eq, str_eq_iff,
}
use multi_agent_system.Exec.{Error, err, execution_not_found}
use multi_agent_system.Persistence.{World, UuidLibrary, now_utc}
use multi_agent_system.Schemas.{SupplierCase, EvidenceConfirmation}
use multi_agent_system.Graphs.State.{ReviewGraphState, Next}
use multi_agent_system.Graphs.Nodes.{ModelBackend, Parsers}
use multi_agent_system.Graphs.Steps.{is_at_rest}
use multi_agent_system.Graphs.Engine.{
  Engine, kept, IsDurable, Raises, security, legal, financial, evidence, synthesis,
}
use multi_agent_system.Graphs.Workflow.{
  initial_state, is_in_scope, validate_scope, get_execution, invoke, start_or_return, start, resume,
}
use multi_agent_system.Graphs.Invariant.{HasReached, IsOpen, origin, Steps-Inv}
use multi_agent_system.Graphs.Consistent.{report}

-- A state of another tenant, of another case or of another execution is out of scope.
foreign-is_in_scope :
    (s : ReviewGraphState) (c : SupplierCase) (i : Uuid)
    → (s.tenant_id ≢ c.tenant_id) ⊎ (s.case_id ≢ c.id) ⊎ (s.execution_id ≢ i)
    → is_in_scope s c i ≡ false
unfolding is_in_scope
foreign-is_in_scope s c i (inl tenant) = ground (arith, str_eq_iff s.tenant_id c.tenant_id)
foreign-is_in_scope s c i (inr (inl case)) = ground arith
foreign-is_in_scope s c i (inr (inr execution)) = ground arith

-- A kept thread whose state is of another tenant, of another case or of another execution than the
-- case and the execution asked for is not found by `get_execution`, `start` and `resume`, and
-- nothing changes.
pub foreign_execution :
    (backend_name : String) (engine : Engine) (c : SupplierCase) (i : Uuid) (required : Bool)
    (a : EvidenceConfirmation) (s : ReviewGraphState) (n : Next) (w : World)
    → kept i w ≡ some (record { values = s; next = n })
    → (s.tenant_id ≢ c.tenant_id) ⊎ (s.case_id ≢ c.id) ⊎ (s.execution_id ≢ i)
    → (get_execution c i w ≡ (err execution_not_found, w))
      × (start backend_name engine c i required w ≡ (err execution_not_found, w))
      × (resume backend_name engine c i a w ≡ (err execution_not_found, w))
unfolding get_execution start start_or_return resume validate_scope
foreign_execution backend_name engine c i required a s n w there foreign =
    let outside = foreign-is_in_scope s c i foreign in (ground arith, ground arith, ground arith)

module _ (u : UuidLibrary) (backend : ModelBackend) (parsers : Parsers) where
  -- Some node is left to run.
  raised-IsOpen :
      (s : ReviewGraphState) (n : Next) (e : Error)
      → Raises u backend parsers none s n e
      → HasReached s n
      → IsOpen s × (is_at_rest n ≡ false)
  raised-IsOpen s _ e (security s' merged v h same) reached = (reached.0, refl)
  raised-IsOpen s _ e (legal s' merged v h same) reached = (reached.0, refl)
  raised-IsOpen s _ e (financial s' merged v h same) reached = (reached.0, refl)
  raised-IsOpen s _ e (evidence v h) reached = (reached.0, refl)
  raised-IsOpen s _ e (synthesis v h) reached = (reached.0, refl)

  module _ (engine : Engine) (durable : IsDurable u backend parsers engine) where
    -- What a failed `start` of a new execution leaves.
    pub failed_start :
        (c : SupplierCase) (i : Uuid) (required : Bool) (e : Error) (w : World)
        → kept i w ≡ none
        → (start backend.name engine c i required w).0 ≡ err e
        → (s : ReviewGraphState) × (n : Next) × (kept i (start backend.name engine c i required w).1
            ≡ some (record { values = s; next = n }))
          × IsOpen s
          × (is_at_rest n ≡ false)
          × (origin s
              ≡ origin (initial_state backend.name c i required (w.host.clock w.host.clock_reads)))
    unfolding start start_or_return invoke initial_state
    failed_start c i required e w new failed =
        let v : World = (now_utc w).1 in
        let s₀ = initial_state backend.name c i required (w.host.clock w.host.clock_reads) in
        let (c', there, path, ends) = durable.on_fresh s₀ i v new in
        let (same, reached) =
          Steps-Inv u backend parsers path (refl, ((refl, refl, refl), refl, refl)) in
        let p = report c'.values c'.next reached in
        let reported = p.1 in
        elim ends [
          | inl (returned, rest) ↦ absurd (ground arith)
          | inr (e', raised, raises) ↦
              let (opened, unrested) = raised-IsOpen c'.values c'.next e' raises reached in
              (c'.values, c'.next, ground arith, opened, unrested, same)
        ]
