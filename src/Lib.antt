-- ===== src/Lib.antt =====
-- The payment operations backend: a ledger that moves money between the wallets of merchants,
-- an investigation graph in which agents collect evidence for a question, judge it and write a
-- report, a store of finished investigations, tools that look into the webhook events of
-- payments, a bounded search for documents, and the accounts and the sign-in of the console.
--
-- The ledger, packages/payops_core/ledger and the ledger's tables in data/models.py:
-- - Ledger/Rows has the tables' rows and the results of models/schemas.py.
-- - Ledger/Database is the interface to the database: tables with reads and writes, the laws that
--   SQL documents for a primary key, a test that says whether a commit goes through, and one that
--   says whether the reads of a committed store are answered: a read that follows a commit may
--   raise, and then the call raises with its writes in place. A read that raises before the commit
--   ends the call as a refused commit does. The ledger's definitions take the interface as a
--   parameter; Ledger/Database/Memory is an instance with lists.
-- - Ledger/Accounts is accounts.py: seed_ledger_accounts, wallet_id, list_accounts.
-- - Ledger/Monad is the state of the try block of run_ledger_transfer, with its exceptions.
-- - Ledger/Transfer has isolation.py and the helpers of transfer.py: _lock_and_check,
--   _assert_after, _maybe_fail, _result and so on; Ledger/Run is run_ledger_transfer itself, whose
--   parts are body and pay (the try block), settle (its ends), roll_back (the handler) and guarded
--   (the guards and the seeding). Ledger/Reads is get_transfer, list_recent_transfers and
--   account_views.
-- - Ledger/Checks, Body, Outcomes, Balances and Seeding prove what the parts do; Ledger/Safety,
--   Decisions, Batch and Reads/RoundTrip prove what the whole does.
-- A call is one transaction. Row identifiers (uuid4) and times are inputs. Interleaved calls are
-- left to the isolation level of the database. Amounts are integers of any size, as in Python.
--
-- The investigation, packages/payops_core/graph with agents/sufficiency.py:
-- - Graph/Types has the values of models/schemas.py that the graph passes on, without floating
--   point and free-form metadata.
-- - Graph/Agents is the interface to the agents and tools that the nodes call: their results are
--   arbitrary functions of their arguments. A Runtime adds the writer and the clock, as the
--   sequence of answers of expired().
-- - Agents/Sufficiency is the sufficiency agent, which the graph calls as it is.
-- - Graph/State is state.py, trace.py and initial_state; Graph/Tasks is _run_task, _rag_traces,
--   _retrieval_summary and _merge_evidence; Graph/Investigate is investigate_node; Graph/Nodes has
--   the other nodes; Graph/Machine has the routes and build_investigation_graph, as a step from a
--   node and a state to the next, and the walk that graph.invoke makes.
-- - Graph/Machine/Frame, Termination and Outcome, Graph/Investigate/Rounds, Graph/Tasks/Merge and
--   Agents/Sufficiency/Verdict have the proofs.
-- The walk takes a number of visits as fuel: six for each round of investigation allowed and four
-- more are enough, since a round visits at most six nodes and the drafts at the end four. The
-- number of rounds is a natural number; the HTTP interface accepts 1 to 8. The limit on steps of
-- the graph library is not part of the walk. The decimal form of a number n is computed with n
-- as fuel, more than it has digits.
--
-- Authentication, apps/api/auth_service.py with packages/payops_core/auth:
-- - Auth/Store has the tables of data/models.py as lists of rows, in which a query takes the first
--   row that passes its test, and record_audit; Auth/Rows is about such queries after an update.
-- - Auth/Service has authenticate, issue_session, resolve_session, revoke_session and
--   revoke_user_sessions, Auth/Passwords has reset_password and change_password, Auth/Accounts has
--   create_user, request_password_reset, count_active_admins and bootstrap_admin. Hashes, tokens,
--   salts, the times, normalize_email and normalize_name are parameters.
-- - Auth/Admin has suspend_user, activate_user and change_role of apps/api/routers/admin.py.
-- - Auth/Policy is auth/policy.py, Auth/Routes has cookies.py and the guards of deps.py, and
--   Auth/Routes/Handlers has the handlers of apps/api/routers/auth.py with the bodies of models/auth.py:
--   a handler gives its reply and the tables that it commits. Auth/Policy/Strength and
--   Auth/Routes/Refusals and Signup have the proofs.
-- - Auth/Sessions, Resets, Suspension, Users, Upkeep, Guards and History have the proofs; History
--   has the steps between the states of the tables.
-- Prelude/Ids is the pattern of identifiers of apps/api/query.py, which the tools share.
--
-- Finished investigations, apps/api/store.py with apps/api/routers/investigations.py:
-- - Archive/Rows has the tables and StoredInvestigation, and as an interface what pydantic dumps
--   and loads. Archive/Index is the evidence index, _upsert_evidence and its loops; Archive/Store
--   is InvestigationStore; Archive/Requests has the handlers, which are given the result of
--   run_investigation: a final state, or an exception.
-- - Archive/Index/Lookup, Archive/Store/Puts and Deletion and Archive/Requests/Service have the
--   proofs; the last one joins the handlers to the walk of the graph.
-- The audit events of a run, and the summaries that the responses show, are left out. A duration
-- that is not on record is the whole number of milliseconds between the two times of the row.
--
-- Webhook events, packages/payops_core/tools/webhook_analysis.py and webhook_gateway.py:
-- - Webhooks/Rows has the columns and schemas, Webhooks/Analysis the finders for delayed, failed
--   and missing events and mismatches, Webhooks/Findings those for retries and duplicates, and
--   Webhooks/Gateway is WebhookToolGateway with its queries. Prelude/Sort has Python's stable sort
--   and dictionaries of lists in insertion order.
-- - Webhooks/Analysis/Order and Absence, Webhooks/Findings/Distinct and Webhooks/Gateway/Answers
--   have the proofs.
-- A query without an order returns its rows in the order of the table.
--
-- Agents/Verifier is packages/payops_core/agents/verifier.py, over an interface to the stems of a
-- text and the thresholds of a confidence, and Agents/Critic is critic.py; Agents/Verifier/Claims and
-- Agents/Critic/Approval have the proofs. The graph takes the verifier and the critic as agents of its
-- interface: Agents/Team is the graph with these two, and Agents/Team/Outcome what it then ends with,
-- by Graph/Machine/Review. Agents/Inspector and Agents/Analyst are webhook_inspector.py and
-- analyst.py, which plan operations from the words of a question, as Agents/Planning has it, and ask
-- the two gateways; Agents/Inspector/Readiness has the proof.
--
-- The search for documents, packages/payops_core/rag/loop.py, rewrite.py and analysis.py:
-- - Rag/Types has the values, and the interface to the retriever, the relevance scores, which are
--   floating point, and the text methods of Python. Rag/Tables has the tables of analysis.py,
--   Rag/Rewrite is rewrite_query, Rag/Loop/Scores has the helpers of loop.py, and Rag/Loop is
--   run_agentic_rag. The rounds left are the fuel of the loop, as in the source.
-- - Rag/Loop/Rounds and Verdict have the proofs.
--
-- Checks and rates over the payments on record, packages/payops_core/tools:
-- - Books/Rows has the columns and schemas. Books/Integrity is integrity.py; its children Payments and
--   Consistency have the proof.
-- - Books/Metrics, Breakdowns and Gateway are sql_gateway.py: the rates, the breakdowns, and the
--   comparisons with SqlToolGateway.run. Books/Breakdowns/Sizes, Methods, Order and Exact and
--   Books/Gateway/Bounds have the proofs.
-- A ratio keeps its numerator and denominator, which _ratio divides and rounds. A window that starts
-- within its own length of 1970 has no equal window before it.
--
-- Not modelled: the other agents and tools, the retriever and its index, machine learning, the query language, the
-- routes that only read or serialise, data generation and the evaluation.
pub mod Prelude
pub mod Ledger
pub mod Graph
pub mod Agents
pub mod Auth
pub mod Archive
pub mod Webhooks
pub mod Rag
pub mod Books
pub mod Tests
