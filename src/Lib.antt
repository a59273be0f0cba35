-- ===== src/Lib.antt =====
-- A model of the deterministic core of AGENTIC_ENGINEERING_OS: the services that decide which User
-- Stories of a project may run, in which waves, which of them may run side by side, whether a Gate
-- passes, whether a story is certified, whether a resource budget allows a use, and how the status of
-- a story changes. Each is a function of the persisted project state; the model
-- translates the Python functions and states what they promise.
--
-- The parts, with the code below src/agentic_engineering_os/ that they translate:
--   Prelude      what the modules share: `==` of the source, lists as tuples and sets, `sorted` as a
--                stable sort, `str` as the list of its code points, raised errors as `Result`.
--   Domain       domain/enums.py and the dataclasses of domain/models.py that the other parts use.
--   Validation   application/contract_validator.py as its callers see it, a record of functions: the
--                JSON Schemas and the engine that reads them are third-party code.
--   Identity     domain/identity.py; the Unicode tables are a parameter.
--   Transition   application/state_transition_service.py: the lifecycle table, the decision of a
--                transition (`evaluate`), its effect (`apply`, `_apply_authorized`), histories of writes.
--   Dag          application/dag_validator.py: `build` and the depth-first search `_find_cycle` with
--                its colours, path, positions and frames (Dag/Search). Dag/Graph holds the parts of
--                `build` that compute, Dag/Search/* the argument that the search is right, and
--                Dag/Projection and Dag/Build what `build` returns.
--   Readiness    application/readiness_engine.py: it rebuilds the DAG with Dag, compares, and
--                classifies every node.
--   Waves        application/wave_planner.py: it rebuilds the readiness with Readiness and layers the
--                plannable stories. Waves/Rounds is one round of the loop with its counters and its
--                frontier, Waves the rest of `plan`; Waves/Layers says what layers are, and
--                Waves/Loop, Plans and Correct that the loop makes them.
--   Conflict     application/execution_conflict_analyzer.py with `_normalize_path` of
--                application/implementer.py: canonical scopes, regions that two scopes share, the
--                classification of a pair, and in Conflict/Analyses `analyze`, which rebuilds the
--                plan with Dag, Readiness and Waves.
--   Budgets      application/resource_budget.py and domain/resource_budgets.py: which budgets apply to
--                a domain, whether its observed use can be trusted (Budgets/Reasons and Budgets/Trusted), and
--                the decision.
--                Patterns of `re`, path normalisation and the digest are a parameter. An `int` that the
--                constructors accept is a natural number; a sum is checked against 2 ^ 63 - 1 as there.
--   Gates        application/gate_evaluator.py: the selection of Evidence and the result of one Gate.
--   Approvals    application/human_approval_service.py: the application of a Human decision to a story,
--                which Readiness reads.
--   Certifications  application/certification_service.py: the three parts of `certify`, their lists of
--                failures and blockers as a state that is passed on, and the verdict.
--   Policies     application/gate_policy.py: Gate ids, and the policies that a story must run.
--
-- How the model stands to the code:
--   * A method that raises returns a `Result` whose error has the code and the subjects of the
--     exception; the message texts of fixed wording are left out. A method that mutates a story
--     returns the story after the call.
--   * `isinstance` tests of arguments hold by typing, except where the source accepts several types:
--     a status may be a member, a plain string, or a member of another `(str, Enum)` class, whose
--     `str` is `Class.NAME` (a `str` subclass with a `__str__` of its own is left out); an acceptance
--     result may be a member or a raw value, a candidate of a Gate may be no Evidence, and a Gate
--     condition may return a `str` or raise.
--   * A dictionary is an association list, a function into Option, or a function with a list of its
--     keys (`colors` and `adjacency` of `_find_cycle`, for which a missing key is raised where it is
--     read). A missing key and an index out of range are explicit outcomes.
--   * The loops are structural but for the `while` loop of `_find_cycle`, which runs on fuel: one unit
--     for every edge and two for every node, plus one; and that of `plan`, which has one unit more
--     than there are plannable stories: each of its rounds takes at least one of them away.
--   * A `datetime` is an instant and the distance of its zone from UTC. An instant stands for one whose
--     UTC time lies in the range of `datetime`: the OverflowError of `astimezone` beyond is left out.
--
-- Not modelled: the mission workflows and the control loop; of `certify` the validation of its
-- request, its timestamp, the schema check of its result and the check of the persisted dossier that
-- ends it; recovery and governance; the observer of storage use, which walks a directory, and the
-- constructors of the inputs of the budget evaluation; and all that is I/O: stores, Git, subprocesses,
-- command lines, the Codex runtime. Each of the modelled services is called by them with values, so
-- nothing here depends on their code.
pub mod Prelude
pub mod Domain
pub mod Transition
pub mod Conflict
pub mod Validation
pub mod Dag
pub mod Gates
pub mod Identity
pub mod Readiness
pub mod Policies
pub mod Waves
pub mod Budgets
pub mod Approvals
pub mod Certifications
