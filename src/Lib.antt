-- ===== src/Lib.antt =====
-- zen-claw: the parts of the agent runtime that decide what may run, when, and how often.
--
-- The program is a Python agent runtime. Messages of channels reach an agent loop that calls tools;
-- around it stand services that keep state of their own and that this development models:
--   * the node service registers remote nodes, hands tasks out to them, has people approve tasks, and
--     records the approvals in a chain of hashes;
--   * the tool policy, the quotas and the approval gate stand between the loop and a tool: a call
--     is allowed by the policy, counted by the quotas, and, if the tool is sensitive, waits in the gate
--     until a user approves it and the loop consumes the approval;
--   * the tool registry is where those meet: a call passes the kill switch, the lists of the active
--     skill and profile, the policy, the check of the signed envelope around the caller's identity, and
--     the capability policy on the resource that it asks for, is counted, and only then reaches the tool;
--   * the agent router chooses the profile that serves a request, by name, binding, keyword or channel;
--   * the API keys give a caller of the HTTP API a role, and can be revoked by their prefix;
--   * the reranker puts retrieved passages in the order that a language model names;
--   * the recall in tiers accepts, rejects or scores again the memories that a query may need;
--   * the notebooks index the documents that the knowledge base holds;
--   * the context compression replaces the older messages of a session by a rolling summary;
--   * orchestration decides from the result of intent routing what is executed, and how;
--   * the intent cache answers queries that need no model from earlier replies;
--   * the route store binds a user of a chat to one of several agents, and binds it back on errors;
--   * the chunker cuts documents into pieces for the knowledge base;
--   * the supervisor starts the sidecar processes again after failures, with growing delays and a
--     circuit that opens when failures are frequent;
--   * the cron service wakes up when a job is due and runs it.
-- They meet in the agent loop (zen_claw/agent/loop.py), of which only the history of a session is
-- modelled, and in the commands (zen_claw/cli/commands.py), which are not modelled.
--
-- Files, each with the code that it is about:
--   * Base: native numbers, Boolean tests, lists, Python's dict (Dict), set (Sets), str (Text, Strings) and
--     the integers that callers may pass negative (Int).
--   * Node: zen_claw/node/service.py, class NodeService. The JSON store is the record Store of Data;
--     Tokens, Policies, Submit, Queue, Approvals and Events hold one function for each method, named as
--     the method without its underscore; Machine is the choice among the methods that write. Access,
--     PolicyLaws, Capacity, Changes, Steps, Quorum, Moves, EventLog, Chain and Replays hold the proofs.
--   * ToolPolicy: zen_claw/agent/tools/policy.py, class ToolPolicyEngine (Rules), with its proofs in
--     Verdict and Scopes.
--   * Capability: zen_claw/agent/tools/capability_policy.py. Request builds the requests of tools, Policy
--     has the records, Files, Remote and Records one function for each method _evaluate_*, Evaluate the
--     dispatch; the proofs are in Hardening and HardenedFiles, ZeroTrust, Commands, Boundary and
--     Isolation.
--   * Gateway: zen_claw/security_context.py with the signatures of zen_claw/utils/crypto.py (Envelope),
--     with its proofs in Signing.
--   * Registry: zen_claw/agent/tools/registry.py, class ToolRegistry: Results (with
--     zen_claw/agent/tools/result.py), State, Gates, Selector (bm25_select of
--     zen_claw/agent/tools/semantic_selector.py) and Execute; it calls ToolPolicy, Capability, Gateway and
--     Quota as the code does. Its proofs are in Visible, Passage and Refusal.
--   * Agents: zen_claw/agent/router.py (Router) and normalize_agent_id of zen_claw/agent/pool.py (Names),
--     with its proofs in Names and Routes.
--   * Auth: zen_claw/auth/api_keys.py (ApiKeys), with its proofs in Roles, Revoking and Refinement.
--   * Context: zen_claw/agent/context_compression.py (Compressor), the session of
--     zen_claw/session/manager.py (Session), and the history that zen_claw/agent/loop.py builds from
--     them (History), with its proofs in Rolling.
--   * Memory: zen_claw/agent/memory_ternary.py (Ternary), with its proofs in Tiers.
--   * Knowledge: zen_claw/knowledge/reranker.py (Rerank), with its proofs in Indices and Passages,
--     and zen_claw/knowledge/notebook.py (Notebooks, Sources), with its proofs in Order.
--   * Quota: zen_claw/agent/tools/quota.py (Window), with its proofs in Counting, Limits and Isolation.
--   * ApprovalGate: zen_claw/agent/approval_gate.py (Records, and Gate, where the method get is lookup),
--     with its proofs in Rows, Ledger and Lifecycle.
--   * IntentCache: zen_claw/agent/intent_cache.py (Cache), with its proofs in Reads, Size and Recency.
--   * Cron: zen_claw/cron/types.py and zen_claw/cron/service.py (Jobs, Service, Edits), with its proofs in
--     Timing, Ticks and Limits.
--   * Sidecars: zen_claw/runtime/sidecar_supervisor.py, class SidecarSupervisor (Supervisor), and
--     collect_sidecar_status (Listing), with the proofs in Breaker.
--   * Routing: zen_claw/channels/routing.py, class AgentRouteStore (Store, Bulk, AuditLog), with its
--     proofs in Keys, Parsing, Writes, Rollback and Clearing.
--   * Chunker: zen_claw/knowledge/chunker.py, from the units of a text on (Pack), with its proofs in Pieces,
--     Lengths, Bounds and Ending.
--   * Orchestration: zen_claw/agent/orchestration.py, with the records of
--     zen_claw/agent/intent_router_contracts.py that it reads (Plan), with its proofs in Safety.
--   Each Tests file runs its part on small inputs and applies each theorem to one.
--
-- How the code is read:
--   * A method is a function from the state and its arguments to the new state and its result. A return
--     without a write gives the old state back; None and False are none and false; an exception is none
--     or a value. Each reading of the clock, each random identifier or secret, and each answer of a
--     package or a server is an argument of its own, so that nothing is said of two readings unless a
--     theorem says it. Times are natural numbers of milliseconds, and of microseconds in
--     Knowledge.
--   * A loop over a list that returns at the first element it writes to is find_first with
--     update_first. Each loop is structural recursion on a list or
--     a text, but for the loop of _hard_split: it has as much fuel as the text has characters, and drops
--     one of them at least in each turn.
--   * pathlib and urllib are the parameter Library of Capability, json, SHA-256 and HMAC the parameter
--     Crypto of Gateway, the redaction of a tool's text the parameter Texts of Registry; a tool brings its
--     own code as two fields of the record Tool. A dict of texts in which a key is missing reads as empty
--     there, as in the code's str(d.get(k) or "").
--   * A state is one that the service wrote itself, so that the code's isinstance tests pass.
--   * SHA-256, HMAC and the size of a JSON text are the parameter Codec in Node, a digest in
--     IntentCache; JSON objects of ApprovalGate are a parameter type.
--   * lower and upper act on ASCII letters; white space is the whole table of str.isspace.
--   * JSON payloads of node tasks are flat: null, Booleans, natural numbers and texts.
--   * The BM25 scores of tools are an argument of the selection, since they are floating-point numbers
--     that only put the tools in order; counts such as top_k are natural numbers.
--   * In Routing the two SQLite tables are a dict by primary key and a list in the order of ids.
--   * In Context the ratio of the tokens used is counted in thousandths, and a message's content is a text.
--   * In Memory a score is a natural number in a unit of its own; only the order of scores is used.
--   * In Cron the identifiers of jobs are taken to be different, and a job's callback does not call the
--     service itself.
--
-- Not modelled: the files that the services write (JSON stores, logs, immutable copies on disk and in
-- S3), log messages, the texts shown to users; the rest of the agent loop, the chat adapters, the providers, the
-- rest of the knowledge base, the dashboard, the command line and the sidecars in Go and TypeScript.
pub mod Base
pub mod ToolPolicy
pub mod Knowledge
pub mod Memory
pub mod Node
pub mod Quota
pub mod Orchestration
pub mod Auth
pub mod Capability
pub mod Chunker
pub mod Context
pub mod Registry
pub mod Routing
pub mod Sidecars
pub mod Cron
pub mod Agents
pub mod ApprovalGate
pub mod Gateway
pub mod IntentCache
