-- ===== src/Lib.antt =====
-- bumd: parts of an API documentation platform, of its backend, its diff engine and its editor of test
-- workflows, modelled and proved.
--
-- The test workflows let a user draw a graph of API calls and run it. A definition (nodes with a
-- phase, edges, exports) is validated when it is saved and when it is run; a run executes the nodes
-- in topological order, the setup nodes first, then the tests, then the teardown nodes.
--   Workflow/Graph       apps/backend/src/test-workflows/runner/test-workflow-graph.ts:
--                        buildTopologicalOrder, getAncestors, getDescendants.
--   Workflow/Types       apps/backend/src/test-workflows/test-workflow-types.ts.
--   Workflow/Definition  apps/backend/src/test-workflows/test-workflow-definition.schema.ts:
--                        parseAndValidateDefinition, detectCycle. It uses Graph's loops.
--   Workflow/Runner      apps/backend/src/test-workflows/runner/: test-workflow-run-store.ts (the rows
--                        of a run), test-workflow-node-runner.ts (executeOrSkipBlocked,
--                        executeTeardown, execute) and test-workflow-runner.service.ts (executeRun,
--                        process; Runner/Run). It uses Graph and Definition;
--                        Runner/Secrets gives it the executor of Workflow/Step.
--   Workflow/Validator   apps/backend/src/test-workflows/runner/test-workflow-validator.ts:
--                        validateDefinitionForRun. It uses Graph and Step/Template.
--   Workflow/Step        apps/backend/src/test-workflows/runner/: test-workflow-template.ts (Template),
--                        test-workflow-assertions.ts (Paths, Assertions), test-workflow-exports.ts,
--                        test-workflow-redaction.ts, test-workflow-step-executor.ts (Request, Executor), and
--                        what test-workflow-error-classifier.ts does for steps (Classify). Its result is what the
--                        Runner stores; what it sends goes through TryItOut.
--   Workflow/Environments apps/backend/src/test-workflows/test-environments.service.ts: the rows of
--                        environments and their variables, and what the Runner reads of them.
--   TryItOut             apps/backend/src/try-it-out/: try-it-out.service.ts, with the errors and types
--                        beside it (Types).
--
-- The webhooks tell subscribers of an organization about its versions and retry what fails.
--   Webhooks             apps/backend/src/webhooks/: webhook-types.ts (Types), webhook-retry-policy.ts,
--                        webhook-signature.ts, in-memory-webhook-queue.ts, webhook-dispatcher.ts, and
--                        the endpoints and attempts of ../versions/in-memory-deploy-store.ts.
--
-- A deploy stores a version of an API document, once for each text.
--   Versions             apps/backend/src/versions/: deploy-types.ts (Types, with what it reads of
--                        ../auth/auth-types.ts), versions.service.ts, and the versions and jobs of
--                        in-memory-deploy-store.ts (Status for what the worker changes).
--   Versions/Worker      apps/backend/src/versions/versions-worker.ts: process and its steps, over
--                        Versions, Diff and Search.
--   Search               apps/backend/src/search/: openapi-search-extractor.ts and
--                        in-memory-search-index.ts.
--
-- A deploy is let in by an API token.
--   Auth                 apps/backend/src/auth/: api-token.guard.ts, the prefix and the plaintext of
--                        api-token-crypto.ts, and the tokens of ../versions/in-memory-deploy-store.ts.
--   Auth/Dashboard       apps/backend/src/auth/dashboard-auth.service.ts: the sessions of the dashboard.
--
-- Two specifications are compared operation by operation: operations that are gone or new, parameters
-- that are required now, fields of responses that are new or have another type.
--   Diff                 packages/diff-engine/src/: types.ts (Types), record.ts (Records), classifier.ts
--                        (Diff, and Responses for the fields), markdown.ts and diff-engine.ts (Compare).
--
-- The editor of test workflows keeps its state in a reducer.
--   Editor               apps/frontend/src/features/test-workflow-editor/model/: the reducer of
--                        workflow-editor-state.ts (Types holds its state and actions), and
--                        workflow-phases.ts (Phases), which is compared with Workflow/Definition, and
--                        workflow-settings.ts (Form). Editor/Connect holds what
--                        apps/frontend/src/widgets/test-workflow-canvas/ui/test-workflow-canvas.tsx does
--                        when a user draws an edge (onConnect, hasCycle).
--
-- Prelude holds the lemmas on lists, names, maps and exceptions that the parts share, and Json the
-- values of JSON, with numbers as texts in canonical form.
--
-- Shape of the model. A `Map` is an association list in insertion order and a `Set` a list in
-- insertion order. Exceptions are values (Result, Except). A method of the runner is a function from
-- the state of a run to an exception or a result, and the new state, which is kept when it throws. SQL
-- statements on the rows of one run are functions on a list of rows by node id. Error messages are
-- left out where an error code goes with them. The dates of a run are Booleans: set or not.
--
-- Fuel. The loop of buildTopologicalOrder and detectCycle gets as many rounds as there are nodes, and
-- the walks of getAncestors, getDescendants and the editor's hasCycle one more than there are edges; the
-- results say that this is enough. Draining the webhook queue gets as many rounds as its jobs have sends
-- left: six minus the number of the attempt, and one at least. All other loops are structural.
--
-- Not modelled: the zod schemas, which a library evaluates, before validation; the
-- reads of the run's row that ask for cancellation, which are a parameter of the runner, as is the
-- execution of a step (Services), so that the runner's results hold for any executor;
-- what loading the environment throws, a parameter as well; a database that fails between two
-- statements; two workers on one run. For the webhooks: the digest, JSON.stringify of a payload and the
-- HTTP client are a parameter (Outside), and two drains of one queue do not overlap.
-- For the deploys: the zod schema of a request, base64, the digest, the clock, the object store and the
-- queue are parameters, for the worker also the parser, oasdiff, the index and the dispatcher (Services).
-- For the index: the client of Meilisearch; lower case, trim and the search in a text are parameters.
-- For the comparison: the parsing of a specification, and the oasdiff process, whose result is an
-- argument. A field that a response is merged from stands in the order of its insertion, while JavaScript
-- puts names that are integers first, and a prototype that Object.assign sets is left out.
-- What every object inherits from Object.prototype is modelled where the code reads a key or tests it
-- with `in`: for the fields of a response, the templates of a step and their validation; the inherited
-- values are a parameter of Texts.
-- For the steps: regular expressions, replace, the texts of JSON values and numbers (Texts), the clock, and
-- the service that sends the request. For that service: URL, YAML, the store's reads (Urls, SpecStore)
-- and the HTTP client.
-- For the environments: the schemas of a request, encryption, and the reads that make a response.
-- For the dashboard: cryptography, and the login with GitHub; two transactions do not overlap.
-- For the tokens: the argon2 hash and the random source; for the form of the editor: regular
-- expressions, JSON and the lengths of texts. These are parameters.
pub mod Auth
pub mod Diff
pub mod Editor
pub mod Json
pub mod Prelude
pub mod Search
pub mod TryItOut
pub mod Versions
pub mod Webhooks
pub mod Workflow
