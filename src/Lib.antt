-- ===== src/Lib.antt =====
-- RevenueGuard: recovery of failed payments. A webhook stores a failed payment as a case and puts it on a
-- queue; a worker takes it, runs a graph of nodes over it, and stores what the graph decided and did; an
-- endpoint of the API approves actions on large amounts. This library models the core of the backend and
-- proves what its users rely on.
--
-- The parts, with the code that each is about (paths from the repository's root):
--   Models        backend/models, backend/config.py, backend/agents/state.py, common.py: the data.
--   Guardrails    backend/guardrails: PolicyEngine (Policy), policy_check_node (Check) and
--                 request_approval_node (Approval).
--   Gateway       backend/gateway_health/circuit_breaker.py: GatewayCircuitBreaker as a machine of one key
--                 (Breaker) and on Redis (Breaker/Service); aggregator.py: the sliding windows (Window)
--                 and the scan of all banks (Window/Banks);
--                 downtime_monitor.py: DowntimeMonitor (Downtime).
--   Experiments   backend/experiments: assign_experiment_arm, baseline_decide and ExperimentAnalyzer
--                 (Analyzer); the default experiment of the API (Default).
--   Agents        backend/agents: every node, and the graph that joins them (Graph).
--   Database      backend/db: the rows of orm_models.py, queries by a unique column (Tables), and the
--                 conversions of UTCDateTime (Types).
--   Worker        backend/worker.py: _build_state and _persist_result (Persist), process_case (Process).
--   Api           backend/redis_client.py (Queue) and the endpoints of backend/api/main.py: Approvals, the list
--                 of cases (Listing) and one case (Detail) as they are shown (Views), Metrics, Results of
--                 an experiment, and the simulated batch and outage (Simulate, Outage); backend/api/events.py
--                 (Events).
--   Ml            backend/ml: feature_engineering.py (Features, Encoders), triage_model.py (Scoring) and
--                 channel_bandit.py (Bandit).
--   Data          data/generator.py: SyntheticDataGenerator (Generator).
--   Evals         evals/batch_runner.py: the rows of a batch, and its numbers (Metrics).
--   Ingestion     backend/integrations/normalizer.py and backend/webhooks/razorpay_handler.py, on the JSON
--                 values that they read (Json).
--   Examples      the theorems at concrete inputs.
-- A function keeps its name from the code, without a leading underscore. A handler that changes the
-- database or a store takes it and returns it. A node of the graph maps a state to a state, or to the
-- exception that it raises (Common/Exceptions).
--
-- Moments are microseconds, rates millionths, and money paise. Python's `int` is ℤ where a negative value
-- changes a result, and the native ℕ elsewhere. Each reading of the clock is an argument of its own
-- (Models/Time.Clock), so that time may pass between two of them. A dictionary is a record whose fields
-- may be absent, `None` or a value (Common/Dictionary). The dictionaries of one run pass through JSON
-- and back inside the process; the model keeps the values.
--
-- What is not in the repository is a parameter (Agents/External, Gateway/Breaker/Service.KeyValueStore,
-- Gateway/Window.SortedSets, Gateway/Window/Rates.Rates, Common/Floats.Floats, Database/Orders.OrderBy,
-- Ml/Encoders.LabelEncoder, Models/Time.Iso, Ingestion/Webhook.WebhookExternal): the scorer, the language
-- model, pydantic, the bandit's library, the hashes, the vendor's SDK, Redis and the ISO texts, and of
-- Python's texts `lower`, `strip` and `str` where the strategist's reply or a report of the vendor's
-- needs them, for their Unicode tables. No theorem assumes anything of them but the laws in those
-- interfaces: a text of `isoformat` is read back, a key
-- reads as what was last written to it, a sorted set counts its members, a query returns the rows in the
-- order asked for (each query with its own order of rows that are equal there), an encoder knows the labels it was fitted on, and floating point keeps the signs and the
-- bounds of the numbers that a rate is made of; a test of SciPy or statsmodels may give NaN. A push to Redis may
-- raise although it has arrived, and the database enforces its foreign keys when a job is committed.
-- Numbers drawn at random are arguments.
--
-- The only fuel is that of the graph, ten steps: its longest path goes through nine nodes.
--
-- Not modelled: the frontend, the demo, the training of the models, the worker's endless loop, and the
-- texts that an audit entry shows as summaries of its input and output. A broadcast is followed through changes of the number of sockets; which sockets a
-- changed set of the old size would still reach depends on its hash table, and no theorem speaks of it.
pub mod Agents
pub mod Api
pub mod Common
pub mod Data
pub mod Database
pub mod Evals
pub mod Examples
pub mod Experiments
pub mod Gateway
pub mod Guardrails
pub mod Ingestion
pub mod Ml
pub mod Models
pub mod Worker
