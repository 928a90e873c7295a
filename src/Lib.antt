-- ===== src/Lib.antt =====
-- The verification library of gitzero.
--
-- gitzero runs GitHub Actions workflows on a machine of one's own. The control plane
-- (apps/control-plane) sends an agent (crates/gitzero-agent) a run; the agent plans the workflow file
-- (crates/gitzero-workflow), evaluates the expressions in it (crates/gitzero-expression), runs the
-- jobs in the order of their needs, and asks the control plane for a lease of each concurrency group.
--
-- The files and the code that they model:
--
--   Concurrency          crates/gitzero-agent/src/concurrency.rs. `Client` is ConcurrencyClient with
--                        the map of its requests; `acquire` is the operations register, announce,
--                        check_outer and wake, and the other operations have the names of the source.
--                        The effects (sent messages, answers, signalled cancellations) are a trace,
--                        latest first. Concurrency/Traces has the steps and their interleavings,
--                        Concurrency/Decisions the answers,
--                        Concurrency/Leases how requests and leases end, Concurrency/UnitId
--                        bounded_unit_id.
--   Expression           crates/gitzero-expression/src/lib.rs: the syntax tree and the values.
--                        Expression/Functions and Expression/Format are the functions of the
--                        language, Expression/Evaluate the evaluator, Expression/Analysis
--                        analyze_spanned_expression, Expression/Template `render` and
--                        analyze_template, Expression/Roots extend_json_object. The other
--                        files beside these hold proofs.
--   Workflow             crates/gitzero-workflow/src/lib.rs: Workflow/Dependencies is
--                        validate_dependencies, Workflow/Permissions planned_permissions and
--                        intersect, Workflow/Matrix expand_matrix_definition, Workflow/Globs
--                        compile_glob and the lists of patterns, Workflow/Triggers
--                        matches_pull_request_trigger, Workflow/Yaml the values of serde_yaml_ng.
--   Schedule             crates/gitzero-agent/src/executor.rs: Schedule/Conclusions is JobConclusion,
--                        aggregate_conclusions and dependency_status, Schedule/Reusable the matrix of
--                        reusable-workflow calls, Schedule/Conditions condition_allows and
--                        resolve_concurrency, Schedule/Processes process_conclusion and
--                        protocol_conclusion.
--   Protocol             crates/gitzero-protocol/src/lib.rs: annotations and the messages of a job, as
--                        far as the others read them.
--   Matcher              crates/gitzero-agent/src/problem_matcher.rs: Matcher/Patterns is
--                        ProblemMatcher::compile, Matcher/Lines ProblemMatcher::matches,
--                        Matcher/Report into_annotation, Matcher/Registry and Matcher/Scan
--                        ProblemMatcherRegistry; Matcher/Steps has its operations as steps. A panic
--                        of an index is the result none.
--   Commands             crates/gitzero-agent/src/executor.rs, the workflow commands in a log:
--                        Commands/Syntax, Commands/Paths and Commands/Annotation are the parsers,
--                        Commands/Masks mask_text and register_mask, Commands/State and
--                        Commands/Legacy the state of WorkflowCommandProcessor, Commands/Line
--                        process_line, Commands/Log process_log, finish_step and finish_stream,
--                        Commands/Relay relay_masked_events and the masking (a message without a step
--                        name, log, summary, annotation or reason is passed on as it is, the
--                        environment URL of a deployment among them), Commands/RunSecrets
--                        secret_values, Commands/Steps the operations as steps. An operation gives
--                        the processor afterwards together with its result, also where it fails. The
--                        other files beside these hold proofs.
--   Prelude              what the others share: maps and sets as ascending lists, UTF-8 lengths,
--                        results, and the tests on texts.
--
-- A text is the list of its Unicode scalar values; positions in bytes are the sums of their UTF-8
-- lengths. A `usize` has 64 bits, as on the machines that the agent is packaged for. Errors keep
-- their kind and the names in them, and not their sentences.
--
-- Fuel: `render` and `analyze_template` have the length of the template and one more, and each
-- expression takes at least its opening off the rest; validate_dependencies has the number of jobs
-- and one more, and bounds the depth of the visit, as a job is entered only while it has no state;
-- the scan of a line has the number of matchers of the scope. All other recursion is structural.
--
-- Code of other packages is a parameter: the parser, the coercions and the comparisons of
-- github-actions-expressions, serde_json, `Value::as_str` and `Value::as_mapping` of serde_yaml_ng,
-- the channels of tokio, the regex and base64 packages, the reading of a matcher file and the
-- resolution of a path on the file system, and the walk of the workspace behind hashFiles.
--
-- Not modelled: the steps and the reusable calls of a plan; processes, containers, caches, artifacts,
-- and the rest of the agent's protocol; the control plane.
pub mod Prelude
pub mod Concurrency
pub mod Expression
pub mod Workflow
pub mod Schedule
pub mod Protocol
pub mod Matcher
pub mod Commands
