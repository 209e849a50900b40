-- ===== src/Gateway/State.antt =====
-- The tables that the gateway reads and writes (tool_gateway.py, persistence/models.py), what it is
-- given, and its errors. Arguments and results are JSON values.
use agents_should_survive_fa.Base.{
  ℕ, String, Bool, Option, List, ◌==◌, str_eq, ◌&&◌, true, false, Tx,
}
use agents_should_survive_fa.Json.{Json}
use agents_should_survive_fa.Models.{ApprovalStatus, approved}

pub data InvocationStatus : Type 0 where
  pending running succeeded failed denied : InvocationStatus

pub record ToolDefinition : Type 0 where
  pub id : ℕ
  pub name : String
  pub version : String
  pub approval_required : Bool
  pub enabled : Bool

pub record RunToolGrantSnapshot : Type 0 where
  pub workflow_run_id : ℕ
  pub tool_definition_id : ℕ
  pub policy_version : String
  pub policy_hash : String

pub record ToolRunBinding : Type 0 where
  pub workflow_run_id : ℕ
  pub tool_name : String
  pub tool_definition_id : ℕ

-- A `correlation_id` of `none` is the default text, made of the row's run and key.
pub record ToolInvocation : Type 0 where
  pub id : ℕ
  pub workflow_run_id : ℕ
  pub tool_definition_id : Option ℕ
  pub requested_tool_name : String
  pub requested_tool_version : String
  pub idempotency_key : String
  pub status : InvocationStatus
  pub arguments : Json
  pub argument_fingerprint : String
  pub correlation_id : Option String
  pub result_summary : Option Json
  pub error_category : Option String

pub record ApprovalRequest : Type 0 where
  pub id : ℕ
  pub workflow_run_id : ℕ
  pub request_key : String
  pub status : ApprovalStatus
  pub summary : String
  pub version : ℕ

pub record ApprovalDecision : Type 0 where
  pub approval_request_id : ℕ
  pub decided_by_id : ℕ
  pub decision : ApprovalStatus
  pub rationale : String
  pub idempotency_key : String

pub record SyntheticEmailMessage : Type 0 where
  pub id : ℕ
  pub workflow_run_id : ℕ
  pub idempotency_key : String
  pub recipient : String
  pub subject : String
  pub body : String
  pub status : String

pub record GatewayTables : Type 0 where
  pub agents : List ℕ
  pub tools : List ToolDefinition
  pub grants : List RunToolGrantSnapshot
  pub bindings : List ToolRunBinding
  pub invocations : List ToolInvocation
  pub requests : List ApprovalRequest
  pub decisions : List ApprovalDecision
  pub emails : List SyntheticEmailMessage

-- What the caller's session sees, and what is committed: the gateway's own audit session commits
-- while the caller's is open, and read committed shows its rows to the caller's.
pub record GatewayState : Type 0 where
  pub session : GatewayTables
  pub committed : GatewayTables

-- The exceptions of `invoke`; `handler_error` is what a handler raised, other than a timeout and a
-- validation error.
pub data GatewayError : Type 0 where
  denied_error input_error conflict_error unavailable_error : GatewayError
  version_mismatch_error approval_required_error handler_error : GatewayError

-- How a handler may end without a result.
pub data HandlerError : Type 0 where
  timed_out invalid_result execution_failed : HandlerError

-- `accepts` and `result_of` are pydantic's validation against the two models.
pub record RegisteredTool : Type 0 where
  pub accepts : Json → Bool
  pub handler : ToolInvocation → Json → Tx GatewayTables HandlerError Json
  pub result_of : Json → Option Json

-- `same_arguments` is Python's `==`, `canonical_fingerprint` the SHA-256 of the sorted JSON text;
-- `audited` says that an audit database is configured.
pub record ToolGateway : Type 0 where
  pub registry : String → Option RegisteredTool
  pub same_arguments : Json → Json → Bool
  pub canonical_fingerprint : Json → String
  pub audited : Bool

pub record InvokeRequest : Type 0 where
  pub workflow_run_id : ℕ
  pub agent_id : ℕ
  pub tool_name : String
  pub tool_version : String
  pub arguments : Json
  pub idempotency_key : String
  pub correlation_id : Option String

pub record ToolResult : Type 0 where
  pub result : Json
  pub invocation_id : ℕ

-- The clause on the unique pair of run and idempotency key.
abbrev pub keyed : ℕ → String → ToolInvocation → Bool
keyed run_id key i = i.workflow_run_id == run_id && str_eq i.idempotency_key key

-- The clause on the unique pair of name and version.
abbrev pub versioned : String → String → ToolDefinition → Bool
versioned name version t = str_eq t.name name && str_eq t.version version

abbrev pub granted : ℕ → ℕ → RunToolGrantSnapshot → Bool
granted run_id tool_id g = g.workflow_run_id == run_id && g.tool_definition_id == tool_id

-- The clause on the unique pair of run and tool name.
abbrev pub bound : ℕ → String → ToolRunBinding → Bool
bound run_id name b = b.workflow_run_id == run_id && str_eq b.tool_name name

abbrev pub is_approved : ApprovalStatus → Bool
is_approved approved = true
is_approved _ = false
