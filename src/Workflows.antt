-- ===== src/Workflows.antt =====
-- packages/workflows/approvals.py: `LocalApprovalWorkflow` and `StepFunctionsApprovalWorkflow`. The
-- Step Functions client is a parameter: what it answers, and what it does to the state.
use Prim.Native.String.{◌++◌, find, len, slice}
use multi_agent_system.Base.{
  suc, ◌+◌, String, Option, none, some, Bool, true, false, not, ◌≡◌, refl, arith, ltb, str_eq,
  if◌then◌else◌,
}
use text.Mathlib.TextPositions.{slice-append_left, slice-append_right, len-append}
use text.Mathlib.TextLemmas.{append_assoc}
use multi_agent_system.Exec.{Exec, Result, ok, err, pure, client_error, value_error, runtime_error}
use multi_agent_system.Persistence.{World, UuidLibrary}
use multi_agent_system.Schemas.{GovernedAction, status_value}
use multi_agent_system.Governance.{ApprovalWorkflow}

unfoldable pub local_approval_workflow : UuidLibrary → ApprovalWorkflow
local_approval_workflow u = record { start = λ a. pure ("local://approval/" ++ u.str a.id) }

-- The JSON documents that are sent.
pub record ExecutionInput : Type 0 where
  pub action_id : String
  pub case_id : String
  pub tenant_id : String
  pub tool_name : String
  pub status : String

pub record TaskOutput : Type 0 where
  pub action_id : String
  pub status : String
  pub approver_id : Option String

-- `_StepFunctionsClient`. A response is the text under `executionArn`, if there is one.
pub record StepFunctionsClient : Type 0 where
  pub start_execution : String → String → ExecutionInput → Exec World (Option String)
  pub send_task_success : String → TaskOutput → Exec World (Unit {0})

-- `marker in text`
abbrev pub contains : String → String → Bool
contains text marker = not (ltb (len text) (find text marker))

abbrev pub marker : String
marker = ":stateMachine:"

-- `text.split(marker, maxsplit=1)`, where the marker is in the text.
unfoldable pub split_at : String → String → String × String
split_at text m = (slice text 0 (find text m), slice text (find text m + len m) (len text))

abbrev pub joined : String → String → String → String
joined prefix machine name = prefix ++ (":execution:" ++ (machine ++ (":" ++ name)))

-- `_execution_arn`
unfoldable pub execution_arn : String → String → Result String
unfolding split_at
execution_arn arn name =
    if contains arn marker
    then (let (prefix, machine) = split_at arn marker in
        if contains machine ":" then err value_error else ok (joined prefix machine name))
    else err value_error

unfoldable pub execution_name : UuidLibrary → GovernedAction → String
execution_name u a = "supplier-action-" ++ u.hex a.id

unfoldable pub execution_input : UuidLibrary → GovernedAction → ExecutionInput
execution_input u a = record {
  action_id = u.str a.id;
  case_id = u.str a.case_id;
  tenant_id = a.tenant_id;
  tool_name = a.tool_name;
  status = status_value a.status;
}

-- What `start` makes of the answer of the client.
unfoldable pub reference_of_answer : String → String → Result (Option String) → Result String
unfolding execution_arn
reference_of_answer arn name (ok (some execution)) = ok execution
reference_of_answer arn name (ok none) = err runtime_error
reference_of_answer arn name (err (client_error code)) =
    if str_eq code "ExecutionAlreadyExists" then execution_arn arn name else err (client_error code)
reference_of_answer arn name (err e) = err e

module _ (u : UuidLibrary) (client : StepFunctionsClient) (arn : String) where
  unfoldable pub start : GovernedAction → Exec World String
  unfolding execution_name execution_input reference_of_answer
  start a w =
      let (r, w') = client.start_execution arn (execution_name u a) (execution_input u a) w in
      (reference_of_answer arn (execution_name u a) r, w')

  -- `StepFunctionsApprovalWorkflow(client, arn)`
  unfoldable pub step_functions_workflow : Result ApprovalWorkflow
  unfolding start
  step_functions_workflow = if str_eq arn "" then err value_error else ok (record { start = start })

  unfoldable pub complete_callback : String → GovernedAction → Exec World (Unit {0})
  complete_callback task_token a = client.send_task_success task_token (record {
    action_id = u.str a.id;
    status = status_value a.status;
    approver_id = a.approver_id;
  })

-- The identifier of an execution that already runs is built from the identifier of its machine: for
-- an unqualified state machine, `prefix:stateMachine:machine`, it is the one that Step Functions
-- documents, `prefix:execution:machine:name`.
execution_arn_lem :
    (prefix machine name : String)
    → find (prefix ++ (marker ++ machine)) marker ≡ len prefix
    → find machine ":" ≡ suc (len machine)
    → execution_arn (prefix ++ (marker ++ machine)) name ≡ ok (joined prefix machine name)
unfolding execution_arn
execution_arn_lem prefix machine name first unqualified =
    let text = prefix ++ (marker ++ machine) in
    let whole = len-append prefix (marker ++ machine) in
    let rest = len-append marker machine in
    let lead = len-append prefix marker in
    let before = slice-append_left prefix (marker ++ machine) in
    let after = slice-append_right (prefix ++ marker) machine in
    let assoc = append_assoc prefix marker machine in
    let total : len text ≡ len (prefix ++ marker) + len machine = omega arith in
    let from : find text marker + len marker ≡ len (prefix ++ marker) = omega arith in
    let tail : slice text (find text marker + len marker) (len text) ≡ machine =
      rw (from, total, ← assoc) after in
    let head : slice text 0 (find text marker) ≡ prefix = rw first before in
    let there : contains text marker ≡ true = ground arith in
    let plain : contains machine ":" ≡ false = ground arith in rw (there, head, tail, plain) refl

-- Starting the approval workflow of an action is idempotent: if Step Functions has started the
-- execution for an unqualified state machine, under the identifier that it documents, and refuses a
-- second one because it exists already, then the second call returns the same reference.
pub start_again :
    (u : UuidLibrary) (client : StepFunctionsClient) (prefix machine : String) (a : GovernedAction)
    (w w' : World)
    → find (prefix ++ (marker ++ machine)) marker ≡ len prefix
    → find machine ":" ≡ suc (len machine)
    → (client.start_execution
        (prefix ++ (marker ++ machine))
        (execution_name u a)
        (execution_input u a)
        w).0
      ≡ ok (some (joined prefix machine (execution_name u a)))
    → (client.start_execution
        (prefix ++ (marker ++ machine))
        (execution_name u a)
        (execution_input u a)
        w').0
      ≡ err (client_error "ExecutionAlreadyExists")
    → ((start u client (prefix ++ (marker ++ machine)) a w).0
        ≡ ok (joined prefix machine (execution_name u a)))
      × ((start u client (prefix ++ (marker ++ machine)) a w').0
          ≡ ok (joined prefix machine (execution_name u a)))
unfolding start reference_of_answer
start_again u client prefix machine a w w' first unqualified started refused = (
  rw started refl,
  rw refused (execution_arn_lem prefix machine (execution_name u a) first unqualified),
)
