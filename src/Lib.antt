-- ===== src/Lib.antt =====
-- Taskplane runs a batch of coding tasks with agents: a planner orders the tasks into waves, each
-- wave runs in lanes, every lane executes the segments of its tasks, a wave is merged when it is
-- done, and a batch that stopped is resumed from its state file. An agent that escalates opens a
-- completion hold, which keeps its task from being completed until a ruling has been delivered.
-- This library models the part of extensions/taskplane that makes those decisions.
--
-- The planner. Types has the parsed tasks and the dependency graph (types.ts). Waves.References is
-- parseDependencyReference of discovery.ts. Waves.Graph is buildDependencyGraph and Waves.Compute
-- is computeWaves, both of waves.ts: graph building folds over the pending tasks, each round of
-- computeWaves takes the nodes of degree zero, sorted, and lowers the degrees of their dependents.
-- Waves.Graph.Edges and Waves.Graph.Covers are about the graph's two maps, Waves.Compute.Degrees
-- about the degrees, Waves.Compute.Order about a round, and Waves.Plan joins graph and rounds.
--
-- The lanes. Lanes is the rest of waves.ts that turns a wave into lanes. Lanes.Scopes compares the
-- file scopes of two tasks (scopesOverlap, taskScopesOverlap). Lanes.Forest is the union-find
-- inside applyFileScopeAffinity, with the halving of paths and the ranks, and Lanes.Affinity that
-- function; Lanes.Forest.Classes says which tasks a forest joins, and Lanes.Affinity.Refinement
-- compares the groups with linked scopes. Lanes.Assign is assignTasksToLanes with its three
-- strategies. Lanes.Repos is groupTasksByRepo and enforceGlobalLaneCap, for waves of several
-- repositories, and Lanes.Plan composes them: validateAllocationInputs and allocateLanes up to its
-- worktrees.
--
-- The segments of a task. SegmentPlans is collectKnownRepoIds and inferTaskRepoOrder of waves.ts,
-- and SegmentPlans.Build is buildSegmentPlanForTask and buildTaskSegmentPlans.
-- SegmentPlans.Signals and SegmentPlans.Order are about the repositories found, SegmentPlans.Chain
-- about the plan made of them. SegmentPlans.Linear is linearizeTaskSegmentPlan and
-- SegmentPlans.Rounds buildSegmentFrontierWaves, both of engine.ts, which turn a wave of tasks
-- into rounds of segments.
--
-- The failures. Failures is computeTransitiveDependents of execution.ts, the search for the tasks
-- that a failure blocks, and batchTaskScope. Failures.Visit is about its inner loop,
-- Failures.Reach about what it finds, and Failures.Unblocked joins it with the planner's graph.
--
-- The holds. Holds.Records has the records of hold-state.ts and createHoldRecord, Holds.Authority
-- the queries and evaluateCompletionAuthority, Holds.Rulings classifyHoldMail and validateRuling,
-- Holds.Transitions applyRuling, recordAcknowledgement, the delivery marks, cancelHold, expireHold
-- and upsertHold, Holds.Outbox the selection of escalations and acknowledgements from an agent's
-- outbox. Holds.Lifecycle is the state machine of one hold as a relation whose steps are those
-- functions, Holds.History what those steps leave behind, and Holds.Release what has happened to a
-- hold that no longer blocks; Holds.Validity, Holds.Blocking and Holds.Replay are about rulings,
-- completion and the replay of an outbox.
--
-- The exits. Diagnostics is classifyExit of diagnostics.ts with its nine steps.
--
-- The batch and its recovery. Batch has the state file's records (types.ts). Segments is
-- segment-recovery.ts: reset for a retry, skip, the outcome of a re-execution, the advance of the
-- active segment. Resume.Eligibility, Resume.Frontier, Resume.Pin, Resume.Reconcile and
-- Resume.Point are checkResumeEligibility and getMergeStatusForWave, reconstructSegmentFrontier,
-- pinHeldSegments, reconcileTaskStates and computeResumePoint of resume.ts. Resume reads what
-- Segments wrote: Resume.Frontier.Retry puts the two together.
--
-- The gates. QualityGate is applyVerdictRules of quality-gate.ts, which decides whether a review
-- passes a task. Fingerprints is the comparison of failed tests before and after a merge in
-- verification.ts: Fingerprints.Keys about fingerprintKey, Fingerprints.Diff about
-- diffFingerprints. MergeRetry is classifyMergeFailure and computeMergeRetryDecision of
-- messages.ts, with the policy matrix of types.ts; MergeRetry.Loop is applyMergeRetryLoop: the
-- results of the merges that it invokes are a function of their number, and its callbacks are a
-- list of effects; MergeRetry.Loop.Runs is about its rounds.
--
-- Base stands for JavaScript's own types. A string is a list of UTF-16 code units; toUpperCase and
-- toLowerCase change ASCII letters only; sort() is a stable insertion sort by code units, and
-- localeCompare is the parameter `locale_le`. A Map is an association list and a Set a list
-- without repetitions, both in insertion order. A number is a natural number, but for the degrees
-- of tasks and of segments and for exit codes, which are integers; numbers have no upper bound
-- here, where the source's are doubles.
--
-- State. An operation that mutates its argument takes the old record and returns the new one, with
-- the operation's result beside it. The clock is an argument. A thrown error, undefined and null
-- are `none`. The `while` loop of computeWaves runs on fuel, a unit for each node of the graph: a
-- round that does not stop places at least a node, so the fuel is enough (Waves.Plan). The loop of
-- computeTransitiveDependents has a unit for each failed task and for each entry of the map of
-- dependents, since a task enters its queue once (Failures.Reach). The walk to a root of the
-- union-find has a unit more than the highest rank, since ranks rise along a walk
-- (Lanes.Forest.Rep). The loop of linearizeTaskSegmentPlan has a unit for each segment and each
-- degree (SegmentPlans.Linear.Ends). The loop of applyMergeRetryLoop has three rounds of fuel, and
-- two retries are granted at most. The loop of enforceGlobalLaneCap runs down its own count of
-- excess lanes. Every other loop is recursion on a list.
--
-- Simplified data. The weights of sizes are natural numbers, and get_or reads 0 where the source
-- reads undefined before `||`. The human-readable reasons of hold-state.ts and of merge retries
-- are left out, the codes and ids are kept; so are token counts, costs, opaque diagnostics and
-- ratificationIds, which no modelled operation reads. The regular expressions of
-- MODEL_ACCESS_ERROR_PATTERNS are written out as the phrases they match. computeResumePoint keeps
-- the segment of each task of a wave in one map with keys of wave and task; Resume.Point keeps a
-- map for each wave.
--
-- Not modelled: reading and writing of files, git, worktrees, processes, agents, prompts and the
-- display; allocateLanes of waves.ts from the worktrees on, validateGraph, the expansion of
-- segments while a batch runs, reconstructHoldsFromMailbox and isValidHoldRecord, the run-time
-- wave plan of resume.ts, the parsing of verdicts and of test output, and the states of a
-- ratification.
pub mod Base
pub mod Types
pub mod Waves
pub mod Lanes
pub mod SegmentPlans
pub mod Failures
pub mod Diagnostics
pub mod Holds
pub mod Batch
pub mod Segments
pub mod Resume
pub mod QualityGate
pub mod Fingerprints
pub mod MergeRetry
