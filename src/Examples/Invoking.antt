-- ===== src/Examples/Invoking.antt =====
-- Examples for tool_gateway.py: a run with a granted tool, a tool that wants an approval, and a
-- handler that returns its arguments.
use agents_should_survive_fa.Base.{
  String, ◌≡◌, refl, true, false, none, some, [], ◌∷◌, ok, err, find,
}
use mathlib.Core.Option.{some-injective}
use agents_should_survive_fa.Json.{null}
use agents_should_survive_fa.Models.{approved}
use agents_should_survive_fa.Gateway.State.{
  denied, ToolDefinition, ToolInvocation, ToolRunBinding, GatewayTables, GatewayState,
  approval_required_error, unavailable_error, versioned, denied_error, RegisteredTool, ToolGateway,
  InvokeRequest, ToolResult, keyed, timed_out,
}
use agents_should_survive_fa.Gateway.Invoke.{
  refuses, is_pinned, record_attempt, attempt_row, invocation_row, succeed, has_approved_decision,
  bind_version, execute, conclude, Refusal, add_attempt,
}
use agents_should_survive_fa.Gateway.Call.{invoke, in_session, run_pinned}
use agents_should_survive_fa.Gateway.Outcome.{KeepsInvocations, bound_tables}
use agents_should_survive_fa.Gateway.Replay.{invoke_retried, KeepsTools}
use agents_should_survive_fa.Gateway.Gate.Served.{
  Served, no_invocations, after_call, after_commit, after_others, refused_for_good,
}
use agents_should_survive_fa.Gateway.Authority.{IsAuthorized, invoke-IsAuthorized}
use agents_should_survive_fa.Gateway.Pinning.{KeepsBindings, IsPinned, invoke-IsPinned}
use agents_should_survive_fa.Gateway.Audit.{refusal_is_committed, execution_failure_rolls_back}

abbrev echo : RegisteredTool
echo = record {
  accepts = λ arguments. true;
  handler = λ row arguments t. (ok arguments, t);
  result_of = some;
}

abbrev slow : RegisteredTool
slow = record echo { handler = λ row arguments t. (err timed_out, t) }

abbrev gateway : RegisteredTool → ToolGateway
gateway tool = record {
  registry = λ name. some tool;
  same_arguments = λ a b. true;
  canonical_fingerprint = λ arguments. "f";
  audited = true;
}

abbrev unaudited : ToolGateway
unaudited = record (gateway echo) { audited = false }

abbrev search : ToolDefinition
search = record {
  id = 4;
  name = "search";
  version = "1";
  approval_required = false;
  enabled = true;
}

abbrev sending : ToolDefinition
sending = record { id = 5; name = "send"; version = "1"; approval_required = true; enabled = true }

abbrev tables : GatewayTables
tables = record {
  agents = 2 ∷ [];
  tools = search ∷ sending ∷ [];
  grants =
      record {
        workflow_run_id = 1;
        tool_definition_id = 4;
        policy_version = "1";
        policy_hash = "h";
      }
      ∷ record {
        workflow_run_id = 1;
        tool_definition_id = 5;
        policy_version = "1";
        policy_hash = "h";
      }
      ∷ [];
  bindings = [];
  invocations = [];
  requests = [];
  decisions = [];
  emails = [];
}

abbrev before : GatewayState
before = record { session = tables; committed = tables }

abbrev calling : String → InvokeRequest
calling name = record {
  workflow_run_id = 1;
  agent_id = 2;
  tool_name = name;
  tool_version = "1";
  arguments = null;
  idempotency_key = "call-1";
  correlation_id = none;
}

abbrev binding : ToolRunBinding
binding = record { workflow_run_id = 1; tool_name = "search"; tool_definition_id = 4 }

abbrev answer : ToolResult
answer = record { result = null; invocation_id = 9 }

abbrev done_row : ToolInvocation
done_row = succeed null (invocation_row (gateway echo) 9 (calling "search") search)

abbrev after : GatewayState
after = record {
  session = record tables { bindings = binding ∷ []; invocations = done_row ∷ [] };
  committed = tables;
}

called : invoke (gateway echo) 9 (calling "search") before ≡ (ok answer, after)
unfolding invoke refuses run_pinned bind_version is_pinned execute conclude
called = refl

answered : (invoke (gateway echo) 9 (calling "search") before).0 ≡ ok answer
unfolding invoke refuses run_pinned bind_version is_pinned execute conclude
answered = refl

abbrev gate_row : ToolInvocation
gate_row = attempt_row (gateway echo) 9 (calling "send") (some 5) denied "approval_required"

abbrev gated : GatewayState
gated = record before { session = record tables { invocations = gate_row ∷ [] } }

abbrev gate : Refusal
gate = record { status = denied; category = "approval_required"; error = approval_required_error }

gate-refuses : refuses (gateway echo) (calling "send") sending tables ≡ some gate
unfolding refuses has_approved_decision
gate-refuses = refl

search_allowed : refuses (gateway slow) (calling "search") search tables ≡ none
unfolding refuses
search_allowed = refl

search_pinned : is_pinned 1 search (bound_tables (calling "search") search before) ≡ true
unfolding is_pinned bind_version
search_pinned = refl

timed_out_in_session :
    (in_session (invoke (gateway slow) 9 (calling "search")) before).0 ≡ err unavailable_error
unfolding in_session invoke refuses run_pinned bind_version is_pinned execute conclude
timed_out_in_session = refl

refused_in_session :
    (in_session (invoke unaudited 9 (calling "send")) before).0 ≡ err approval_required_error
unfolding in_session invoke refuses has_approved_decision record_attempt
refused_in_session = refl

echo-KeepsInvocations : KeepsInvocations (gateway echo)
echo-KeepsInvocations name registered known row arguments t =
    rw (← some-injective echo registered known) refl

echo-KeepsTools : KeepsTools (gateway echo)
echo-KeepsTools name registered known row arguments t =
    rw (← some-injective echo registered known) refl

echo-KeepsBindings : KeepsBindings (gateway echo)
echo-KeepsBindings name registered known row arguments t =
    rw (← some-injective echo registered known) refl

invoke_retried_example :
    invoke
      (gateway echo)
      10
      (calling "search")
      (invoke (gateway echo) 9 (calling "search") before).1
    ≡ (ok answer, (invoke (gateway echo) 9 (calling "search") before).1)
invoke_retried_example =
    invoke_retried (gateway echo) 9 10 (calling "search") before answer echo-KeepsInvocations
      echo-KeepsTools refl answered

-- The refused attempt is committed, and the run is approved before the call is repeated.
abbrev attempted : GatewayState
attempted = (invoke (gateway echo) 9 (calling "send") before).1

abbrev approve : GatewayTables → GatewayTables
approve t = record t {
  requests =
      record {
        id = 3;
        workflow_run_id = 1;
        request_key = "r";
        status = approved;
        summary = "s";
        version = 2;
      }
      ∷ [];
  decisions =
      record {
        approval_request_id = 3;
        decided_by_id = 2;
        decision = approved;
        rationale = "fine";
        idempotency_key = "d";
      }
      ∷ [];
}

abbrev approved_later : GatewayState
approved_later = record {
  session = approve attempted.session;
  committed = approve attempted.session;
}

approved_later-Served : Served (gateway echo) approved_later
approved_later-Served =
    after_others (record attempted { committed = attempted.session }) approved_later refl refl
      (after_commit attempted
        (after_call 9 (calling "send") before (no_invocations before refl refl)))

approval_there : has_approved_decision 1 approved_later.session ≡ true
unfolding has_approved_decision
approval_there = refl

attempt_there : find (keyed 1 "call-1") approved_later.session.invocations ≡ some gate_row
unfolding invoke refuses has_approved_decision record_attempt add_attempt
attempt_there = refl

send_there : find (versioned "send" "1") approved_later.session.tools ≡ some sending
unfolding invoke refuses has_approved_decision record_attempt add_attempt
send_there = refl

refused_for_good_example :
    invoke (gateway echo) 10 (calling "send") approved_later ≡ (err denied_error, approved_later)
refused_for_good_example =
    refused_for_good (gateway echo) 10 (calling "send") approved_later sending gate_row
      echo-KeepsInvocations approved_later-Served send_there attempt_there refl

invoke-IsAuthorized_example :
    (tool : ToolDefinition) × IsAuthorized (gateway echo) (calling "search") tool tables
invoke-IsAuthorized_example =
    invoke-IsAuthorized (gateway echo) 9 (calling "search") before answer refl answered

invoke-IsPinned_example :
    IsPinned (calling "search") before (invoke (gateway echo) 9 (calling "search") before).1
invoke-IsPinned_example =
    invoke-IsPinned (gateway echo) 9 (calling "search") before answer echo-KeepsBindings refl
      answered

refusal_is_committed_example :
    ((in_session (invoke (gateway echo) 9 (calling "send")) before).0 ≡ err approval_required_error)
    × (find
          (keyed 1 "call-1")
          (in_session (invoke (gateway echo) 9 (calling "send")) before).1.committed.invocations
        ≡ some gate_row)
refusal_is_committed_example =
    refusal_is_committed (gateway echo) 9 (calling "send") before sending gate refl refl refl
      gate-refuses

execution_failure_rolls_back_example :
    (in_session (invoke (gateway slow) 9 (calling "search")) before).1.committed ≡ tables
execution_failure_rolls_back_example =
    execution_failure_rolls_back (gateway slow) 9 (calling "search") before search unavailable_error
      refl search_allowed search_pinned timed_out_in_session
