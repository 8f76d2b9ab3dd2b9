-- ===== src/Lib.antt =====
-- A verification library for the assistant: its trust policy, its registry of capabilities, its
-- personal memory, its bridge to host approvals, its workflows, its reliability gate, and the rules of
-- what may be activated or removed. Paths below are from the repository's root.
--
-- The parts and how they interact. Models call tools; `src/domain/policy` maps a tool call to an
-- action and decides whether the action runs, waits for a person or is refused, and keeps the
-- confirmations that a person answers. Calls that the host itself asks about go through
-- `src/domain/approval`. Both bind an approval to the fingerprint of one concrete action
-- (`policy/fingerprint.ts`). `src/domain/registry` says which plugin version owns a capability, and
-- `src/domain/governance` changes it: it decides, with the candidate (`src/domain/candidate`), its
-- review (`src/domain/review`), `src/domain/activation-compatibility` and
-- `src/domain/generated-runtime/trust.ts`, whether a candidate may become the active version, and it
-- activates, disables and uninstalls plugins and keeps Safe Mode. `src/domain/memory` keeps durable
-- facts, `src/domain/jobs` runs workflows as jobs of the host, and `src/domain/reliability` is the gate
-- that the validation of a candidate asks.
--
-- Files and what they model:
--   Prelude, Prelude/*      numbers, lists, `Map` as an association list in the order of insertion
--                           (Dict), `String(n)` (Decimal), methods that throw (Result)
--   Json, Json/Order        dynamic values, `JSON.stringify`, the order of `sort()` on texts
--   Policy/Types            policy/types.ts
--   Policy/Fingerprint      policy/fingerprint.ts (canonicalize, actionFingerprint)
--   Policy/State, Service, Execution
--                           policy/service.ts: the state of PolicyService and its private helpers;
--                           decide with decideExisting, tryClaim, tryClose, createTicket; apply,
--                           resolve and runClaimed
--   Policy/Schedule         interleavings of calls on one PolicyService with the completions of the
--                           executors; its children hold the proofs
--   Policy/Tools            policy/classify.ts (TOOL_ACTIONS, classifyTool, requestFromTool)
--   Registry/Types, Identity, Normalize, Bootstrap
--                           registry/types.ts, normalize.ts and bootstrap.ts
--   Registry/Service        registry/service.ts (RegistryService); Calls are sequences of its methods
--   Registry/Queries, Conflicts
--                           registry/service.ts: list; activeConflicts and conflicts
--   Memory/Types, Normalize memory/types.ts and normalize.ts
--   Memory/Conflicts, Service, Query
--                           memory/service.ts: conflictsAmong and topicConflicts; write, replace,
--                           delete; query with its trace
--   Memory/Render           memory/service.ts: renderModelVisibleMemory
--   Approval/Broker         approval/dsh-bridge.ts (DshApprovalBroker)
--   Governance/Trust        generated-runtime/trust.ts
--   Governance/Compatibility
--                           activation-compatibility/index.ts
--   Governance/Dependents   governance/dependents.ts
--   Candidate/Types         candidate/types.ts: what governance reads of a candidate
--   Governance/Types        governance/types.ts and errors.ts
--   Governance/Fingerprint  governance/fingerprint.ts, and `facts` of service.ts
--   Governance/State        governance/service.ts: the state of GovernanceService, what it reads of its
--                           surroundings (Outside), and its private helpers
--   Governance/Eligibility  denials, approvalRequestDenials, reviewDenials, compatibilityDenials,
--                           eligibility, requestEligibility
--   Governance/Approvals    requestApproval, recordApproval, abandonFailedActivation
--   Governance/Running, Activation, Removal, SafeMode
--                           what a method waits for; activate; disable and uninstall; enterSafeMode,
--                           exitSafeMode and completeInterruptedActivation
--   Governance/Schedule     interleavings of the calls of one GovernanceService with the answers of the
--                           runtime; Frame, Keeps, Preserves, Granted, Gate and the children of
--                           Schedule, Activation and Removal hold the proofs
--   Reliability/Types, Classify, Defaults, Gate
--                           reliability/types.ts, classify.ts, defaults.ts and gate.ts
--   Jobs/Service            jobs/types.ts and service.ts (AssistantJobService)
-- The modules named Tests evaluate the definitions at concrete inputs.
--
-- How state is modelled. A service is a record of its private fields. A method is a function from the
-- state to its result and the next state; one that throws returns the error, with the state as the
-- code leaves it. An asynchronous method is cut at its `await`: the part before it returns what is
-- pending, and the part after it is a step of its own, so that theorems over sequences of steps cover
-- every interleaving. JavaScript runs each part without interruption.
--
-- GovernanceService. A new service is as its constructor leaves it where nothing is hydrated. A method reads the candidates, the reviews and the runtime as they are when its
-- part runs: each call and each answer brings its own `Outside`, and nothing relates two of them. The
-- hooks that save the state are taken to return. The holds and failures that tests inject are
-- answers of the runtime; a hold that stands at every await only adds interleavings. The audit lines,
-- the summary shown with an approval and the times are left out.
--
-- Jobs. The registry of jobs belongs to the host: what its `start` returns or throws is part of an event,
-- and a workflow is the event that it ends. `start` is one step: the registry is taken not to run the
-- workflow to its end before it has returned the id of the job. Ends of runs that never started are allowed and do nothing.
--
-- Parameters. `sha256` (node:crypto), `lower` (`toLowerCase`), `collate` (`localeCompare`), the
-- executors that plugins register, and what `this.id()` and `this.now()` return are arguments of the
-- definitions that use them; no theorem assumes anything of them beyond what it states.
--
-- Bounds and fuel. The only recursion on fuel is in Prelude/Decimal: `show n` takes n + 1 rounds, and
-- each round divides by ten. All other loops are recursions on the list or text that the code walks.
--
-- Order of keys. `canonicalize` leaves the keys of an object in the order of `sort()`. JavaScript puts keys
-- that are array indices, such as "7", before the others; a digested text differs in that order for
-- objects with such keys, and equality of two of them does not.
--
-- Not modelled. Timestamps of the policy and of approvals, which are written and never read; the
-- copies that `clone` and `Object.freeze` make of immutable values; writes to persistence ports that
-- fail; of governance: rollback and its plan, remountCommittedGenerated, noteIsolatedRuntimeFailure,
-- migrateAuthoringContract, hydration and status, so that a schedule is one life of the process
-- without a rollback and without a plugin that fails while it runs; the details of reliability checks
-- and the semantics of retries; the bodies of workflows, review, the candidate workspace, the workbench, skills, workspaces, the product runtime, plugins and user interfaces.
mod Prelude
pub mod Jobs
pub mod Reliability
pub mod Json
pub mod Policy
pub mod Registry
pub mod Memory
pub mod Approval
pub mod Candidate
pub mod Governance
