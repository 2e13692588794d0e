-- ===== src/Api/Failed.antt =====
-- `start_review_execution` after a start that failed, over the review graph.
use multi_agent_system.Base.{String, none, nat_eq}
use multi_agent_system.Persistence.{UuidLibrary}
use multi_agent_system.Schemas.{ReviewExecution, ReviewExecutionStatus}
use multi_agent_system.Graphs.State.{ReviewGraphState}
use multi_agent_system.Graphs.Engine.{Engine}
use multi_agent_system.Graphs.Workflow.{execution_with}
use multi_agent_system.Api.Container.{ApplicationContainer, supplier_review_workflow}

abbrev pub with_graph : UuidLibrary → String → Engine → ApplicationContainer → ApplicationContainer
with_graph u backend_name engine d = record d {
  workflow = supplier_review_workflow u backend_name engine;
}

abbrev pub running_report : ReviewGraphState → ReviewExecution
running_report s = execution_with s none ReviewExecutionStatus.running none
