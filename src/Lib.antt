-- ===== src/Lib.antt =====
-- Agents Should Survive Failure: AI-assisted review of suppliers with human approval, whose work
-- survives the failure of any of its processes. Temporal runs the workflows and retries their
-- activities; PostgreSQL keeps all state; each activity is one transaction over it. Paths below
-- are from the repository's root; the package is src/agents_should_survive_failure/.
--
-- How the parts interact. A request is stored as a run (workflow_starts.py) before a coordinator
-- claims its start and hands it to Temporal. A workflow (workflows/) calls activities, which open
-- a session (persistence/session.py) and use the runtime state of the run (runtime_state.py:
-- checkpoints, artifacts, budgets) and the gateway of governed tools (tool_gateway.py), which
-- checks grants, approvals and versions, runs a tool's handler and records attempts, refusals in a
-- session of its own if it is given an audit database. The tools of a review and a managed agent's
-- execution fail with a classified Temporal failure (failures.py), which carries a flag against
-- retries; other exceptions reach Temporal as they are raised. Fault plans (fault_injection.py) make
-- activities fail on purpose, in tests and evaluations.
--
-- Which file models which part.
--   Auth        auth.py, auth_cli.py and the guard of api.py's handlers: Texts, Keys
--               (`parse_api_key`), Secrets (`hash_secret`, `verify_secret`), State (tables, scopes),
--               Resolve (`resolve_api_key`) with Sound, Operator (`bootstrap`, `revoke`,
--               `disable_principal`, `generate_api_key`) with Revoked, Access
--               (`get_authenticated_principal`, `require_scopes`, `allows`)
--   Base        lists as tables, dicts, integers, text, and the session: `Tx` is a call with state
--               and exceptions, `transaction` is `async with database.session()`, which rolls back
--   Failures    failures.py: `classify_failure`, `temporal_failure`; Redaction
--   Faults      fault_injection.py: Names (points and actions), Injector (`FaultInjector.create`,
--               `consume`, `clear`, `list`, `inject`), Plans, Keys, Triggers, Delivery
--   Gateway     tool_gateway.py: State (tables, requests, what is given), Invoke (the parts of
--               `ToolGateway.invoke`), Call (`invoke`, `record_injected_failure`, the caller's session),
--               Outcome, Replay, Gate with Served, Authority, Pinning, Audit
--   Json, Models   JSON values and the rows of persistence/models.py that several parts share
--   Managed     managed agents: State (rows, manifests), Create (`create_or_get_managed_agent` of
--               workflow_starts.py) with Repeated, Delegate (`delegate` of
--               workflows/managed_activities.py up to the child's run) with Lineage, Attenuation,
--               Child, Retry
--   Refund      workflows/refund/: State, Activities (activities.py) with Risk, Once, Machine
--               (workflow.py with the tables, `RefundStep`), Notified with Commits, Steps, Reach
--   Registry    agent_registry.py: `parse_registration`, `register_agent`; Grants
--   Review      workflows/activities.py: State (rows, `_append_event`, `_audit`), Decide
--               (`record_decision`), Settle, Once, Cancel (`cancel_review`)
--   Runtime     runtime_state.py: State (tables and checks), Checkpoint, Artifact, Budget, with
--               Laws, Integrity, Limits and Charges
--   Schema      json_schema.py: `validate_json_schema`; Conforms, Checks, Decides
--   Starts      workflow_starts.py: Create (`create_or_get`), Attempt (`_claim_start`, `start`,
--               `_mark_started`, `_mark_failed`), Lease, Refunds (`create_or_get_refund`,
--               `classify_start_error`), Recover (`recover`)
--   Workflow    workflows/contracts.py in Contracts, workflows/vendor_onboarding.py in Vendor:
--               `run` stands at one of its awaits (`Point`), and each `Step` is the end of an
--               activity, the end of the wait, the update `decide` or the signal `cancel`
--   Examples    concrete runs
--
-- Conventions. An identifier is the number of its UUID. A table is a list of rows, newest first,
-- and a query for one row is `find`. A row lock makes each transaction one step, so no
-- interleaving within a transaction is modelled. Columns that a CHECK constraint keeps
-- non-negative are ℕ, and Python's other integers are ℤ. `json.dumps`, SHA-256 and the clock are
-- parameters, as are the registry of tools, pydantic's validation and Python's `==` on arguments.
-- scrypt, base64 and the random tokens of API keys are parameters with named laws. All loops of the
-- modelled code but one are over finite collections and are structural recursion. The walk over the
-- ancestors of a run (`delegate`) is on fuel: each step goes to a run of smaller depth where the
-- table is well formed, so any fuel above the depth of the run is enough.
--
-- Not modelled: the HTTP interface but for its guard, the evaluation harness, model providers and
-- retrieval, process entry points, metrics and migrations, which are input and output around these
-- parts; and the handlers of the governed tools, the services of
-- a managed agent but for delegation, and the activities of the vendor review before its decision.
pub mod Auth
pub mod Base
pub mod Examples
pub mod Failures
pub mod Faults
pub mod Gateway
pub mod Json
pub mod Managed
pub mod Models
pub mod Refund
pub mod Registry
pub mod Review
pub mod Runtime
pub mod Schema
pub mod Starts
pub mod Workflow
