-- ===== src/Lib.antt =====
-- A model of aws-remote-mcp, an authenticated MCP server for AWS reads, Cost Explorer queries and
-- Telegram and Trello writes (src/aws_remote_mcp), with the theorems that make its confirmation
-- and cost rules hold.
--
-- The program. A transport hands each tool call to `ToolService` (services/tools.py). The service
-- lets an AWS read through if the operation registry (core/operations.py) classifies it as a free
-- verified read. A write or a billable query takes two calls: a prepare call validates the input
-- and stores a single-use confirmation of caller, action and payload (core/confirmation.py); an
-- execute call validates again, consumes the confirmation, takes a slot of the monthly quota if it
-- is billable (core/cost_quota.py), and then makes one call of an adapter port
-- (adapters/protocols.py). Local runs keep confirmations and quota in process memory, the deployed
-- server keeps both in one DynamoDB table.
--
-- The files.
--   Prelude: shared names, lists, dictionaries, texts, numbers, and the two effects: `Result` is a
--     computation that may raise, `Action W A` one that also changes a world `W`; the world comes
--     back beside an exception, since what was written before a raise stays written.
--   Json: JSON values, `json.dumps` with sorted keys and compact separators.
--   Dynamo: the table's client as a parameter with its documented laws: a write that answers is
--     atomic, a refused condition did not hold, and after any other error the write may or may not
--     have gone through.
--   Core: Models (core/models.py), Operations (core/operations.py), Calendar and CostQuery
--     (core/cost_query.py), Audit (core/audit.py), CostQuota (core/cost_quota.py; Memory is the
--     limiter in the process, Persistent the one in the table), Confirmation (core/confirmation.py;
--     SingleUse and Verdict are what a provider promises, Memory and Persistent the two guards,
--     Agreement compares them).
--   Adapters: Protocols (adapters/protocols.py), the ports as records of actions; Fakes
--     (adapters/fakes.py), the recording adapters of a local service; Inventory
--     (adapters/aws_inventory.py), the reads of AWS: Sanitize, Project (the paginated inventory of
--     the project's stacks; Ends, Bounds, Rounds and Whole are about its loops), Explorer (the
--     search, with its query language) and Execute; Answers is what they answer. Integrations
--     (adapters/external_integrations.py), the writes: Telegram, Trello and the configuration that
--     they read first; Attempts is about their requests. CostExplorer
--     (adapters/aws_cost_explorer.py), the one billable query; Results is what it answers.
--   Services: Tools (services/tools.py; Cost and Messages are its billable and its writing methods;
--     Sound, Refused, Confirmed and Reads are about them),
--     Requests (all requests as one type, sequences of them, and the deployed service, whose parts
--     lambda_handler.py puts together).
--   Server (http_server.py): the tools that a server registers, their audit and their answers; Calls
--     is what they make of the service.
--   Gateway (lambda_handler.py, security/authorization.py): which events of the API gateway are
--     accepted, and with which caller; Claims, Vouched and Trust are what is known of them.
--   Shutdown (safety_shutdown/handler.py), the function that closes a test window; Closed is what it
--     reaches.
--   Enrollment (scripts/enroll_cognito_totp.py), the session of the one-time TOTP enrollment, with its
--     Requests; Checks, Completion and Attempts are about its forms.
--   Tests: concrete surroundings, and each theorem applied to them.
--
-- Names follow the source; a Python exception is a constructor of `Exception`; a field that the
-- source calls `data` is called `body`. Times are naturals: microseconds for the confirmations, a
-- year and a month for the quota. Python's integers have no bound and neither do the naturals here.
-- Recursion is structural but for the loop over the pages of a stack: `list_pages` has fuel for
-- twenty one rounds, of which twenty may read a page and the last finds the limit.
--
-- Parameters. What is no code of the repository is a parameter: the hash, `isoformat`, `repr` and
-- the digits, word characters and white space beyond ASCII (`Stdlib`), the clock and the token
-- source (`Host`, `QuotaClock`), the table's client (`Client` with `ClientLaws`), the AWS clients
-- (`AwsClients`, `CostClient`), the HTTP transport and the parameter store (`Http`, `Ssm`), the
-- clients of the shutdown (`Surroundings`), the endpoints of the enrollment (`Network`), and the
-- adapters behind the ports.
--
-- Not modelled: the MCP and HTTP transport with its scope challenge, the verification of a token's
-- signature, the fixtures of a local service, how the Lambda function puts its parts together, the
-- loopback server of the enrollment, deployment files and scripts.
pub mod Prelude
pub mod Json
pub mod Dynamo
pub mod Core
pub mod Adapters
pub mod Services
pub mod Server
pub mod Tests
pub mod Shutdown
pub mod Enrollment
pub mod Gateway
