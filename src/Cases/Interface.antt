-- ===== src/Cases/Interface.antt =====
-- packages/persistence/repositories.py: the protocol `CaseRepository`, and the repository in memory
-- behind it.
use multi_agent_system.Base.{List, Uuid}
use multi_agent_system.Exec.{Exec}
use multi_agent_system.Persistence.{World}
use multi_agent_system.Schemas.{
  SupplierCase, CaseStatus, ReviewResult, AuditEvent, AuditEventCreate,
}
use multi_agent_system.Cases.Memory

pub record CaseRepository : Type 0 where
  pub create : SupplierCase → Exec World SupplierCase
  pub get : Uuid → Exec World SupplierCase
  pub set_status : Uuid → CaseStatus → Exec World SupplierCase
  pub save_review : ReviewResult → Exec World ReviewResult
  pub get_latest_review : Uuid → Exec World ReviewResult
  pub get_review : Uuid → Exec World ReviewResult
  pub append_audit_event : AuditEventCreate → Exec World AuditEvent
  pub list_audit_events : Uuid → Exec World (List AuditEvent)

abbrev pub in_memory_case_repository : CaseRepository
in_memory_case_repository = record {
  create = Memory.create;
  get = Memory.get;
  set_status = Memory.set_status;
  save_review = Memory.save_review;
  get_latest_review = Memory.get_latest_review;
  get_review = Memory.get_review;
  append_audit_event = Memory.append_audit_event;
  list_audit_events = Memory.list_audit_events;
}
