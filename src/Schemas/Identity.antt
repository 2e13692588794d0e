-- ===== src/Schemas/Identity.antt =====
-- packages/schemas/identity.py and audit.py.
use multi_agent_system.Base.{ℕ, String, List, Bool, true, false, ◌||◌, Uuid, DateTime, any}

pub data Role : Type 0 where
  analyst approver executor admin : Role

abbrev pub same_role : Role → Role → Bool
same_role Role.analyst Role.analyst = true
same_role Role.approver Role.approver = true
same_role Role.executor Role.executor = true
same_role Role.admin Role.admin = true
same_role _ _ = false

pub record Principal : Type 0 where
  pub subject : String
  pub tenant_id : String
  pub roles : List Role
  pub scopes : List String

-- `role in roles`, of a frozenset.
unfoldable pub contains_role : Role → List Role → Bool
contains_role r roles = any (same_role r) roles

unfoldable pub has_role : Principal → Role → Bool
has_role p r = contains_role r p.roles || contains_role Role.admin p.roles

-- The values of the JSON payloads that the program writes.
pub data Value : Type 0 where
  text : String → Value
  uuid : Uuid → Value
  number : ℕ → Value
  flag : Bool → Value
  null : Value

pub record AuditEventCreate : Type 0 where
  pub case_id : Uuid
  pub event_type : String
  pub actor_id : String
  pub payload : List (String × Value)

pub record AuditEvent : Type 0 where
  pub event : AuditEventCreate
  pub open event use *
  pub id : Uuid
  pub created_at : DateTime
