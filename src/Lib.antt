-- ===== src/Lib.antt =====
-- Verification of the control plane of a platform as a service: an HTTP API, a builder and a
-- controller, three processes that share a Postgres database and its NOTIFY channels, and of the
-- command line client of the API. The API writes rows and publishes their ids; the builder claims
-- queued deploys, builds them and hands them on; the controller brings the Kubernetes cluster in line
-- with the rows. Paths below are from the root of the repository.
--
-- Exec: Go functions of type (T, error) on a shared state, with the rules for properties of two
--   states (Exec/Respects). What was written before an error stays written.
-- Prelude: tests, lists as tables, signed numbers, and the library's names.
-- Go: what the code uses of strings, strconv, unicode and encoding/json, the last on JSON values. Only
--   `Unicode` is a parameter: white space and letter case outside ASCII.
-- Git: internal/git/webhook.go, with the HMAC and the JSON decoders as parameters, and oauth.go
--   (Git/Oauth), on what GitHub answers.
-- Deploy, Rbac, Svctype, Instance, Naming: internal/deploy, rbac, svctype, instance and naming.
-- K8s: internal/k8s, twice. For the controller its methods are recorded calls (`Call`). For the
--   cluster they are the requests that they make: Objects has what is written, Wire one request and
--   its answer, Policies, Workload and Databases the methods. Ledger says what a log of requests
--   leaves standing, Plan lists the requests of a spec; Convergence, Teardown and Isolation have the
--   proofs; Controller/Delivered joins the two. What the server answers, what
--   the polls find up to their deadlines, and which texts resource.MustParse takes for a quantity are
--   parameters; the request for a volume of another size panics.
-- Store: internal/store. `Db` holds the tables, newest row first; `World` adds the notifications, the
--   calls on the cluster, the goroutines that were started for the audit log, and `down`, which says
--   for each request whether it fails. A statement or a transaction is one step. Store/Through and
--   Store/Lineage carry relations of tables over to actions.
-- Build: internal/build, on what commands print and how they end.
-- Task, Builder: internal/builder. The build backend is a parameter: its log and its outcome.
-- Controller: internal/controller; Controller/Autoscaler is dbautoscaler.go and
--   Controller/Sampler usagesampler.go. The metrics and the secrets of clusters are parameters.
-- Auth: internal/auth/auth.go. Password and token hashes and the random digits are parameters.
-- Config: internal/config/config.go, on an environment and a parser of durations.
-- Api: internal/api, a handler being an action that ends with a body or an error answer. A request
--   has passed the authentication, which Api/Router puts before the handlers; a body that does not
--   decode is `none`. Accounts and Auth share the tables of sessions and tokens; the two clocks of
--   the code, that of the process and that of the database, are one. An audit entry is left
--   to a goroutine: the request adds it to those that were `started`, and `write_audit`, which may run
--   in any later world, is what the goroutine does. Api/Routes has the table of routes and Api/Bodies the structs that bodies are decoded into;
--   Api/Calls says what a request becomes: a handler, its path parameters and its body. chi, which
--   finds the route of a request, is a parameter, of which it is assumed only that it finds the one
--   route that fits, where there is just one. Api/Logs is the stream of a build's log, on what each
--   poll finds; Api/Responses has the error answers and the page of the audit log.
-- Client: cmd/uran. Client is client.go and config.go, Client/Services, Attachments, Databases and Orgs
--   are the commands of commands.go on parsed flags, Client/Logs is logs.go. The answers of the
--   server are a parameter. Client/Meaning says what each command of Client/Commands asks of the
--   server; Client/Reaches and Client/Agreement compare it with what the server makes of the request,
--   Client/Errors and Client/Streams with how it answers.
-- Tests: a small world and a concrete case for each theorem.
--
-- Ids and times are natural numbers, replica counts are signed; the bounds of 64-bit numbers are
-- conditions where a number is printed and read back. 32-bit overflow of a counter of instances is
-- not modelled: the counter stays within its own bounds. All recursion is on lists, digits or the
-- three pages of repositories; only the printing of numbers has fuel, the number itself, which has
-- fewer digits than that.
--
-- Not modelled: the parser of the client's flags and what it prints; the JSON that handlers answer
-- with, but for errors and the audit log; the copy of the runtime logs, what the build tools do and
-- what the API server makes of a request; main functions and migrations. They are input and output
-- around the code above.
pub mod Prelude
pub mod Exec
pub mod Deploy
pub mod Rbac
pub mod Svctype
pub mod Instance
pub mod Go
pub mod Git
pub mod Naming
pub mod K8s
pub mod Store
pub mod Task
pub mod Api
pub mod Auth
pub mod Config
pub mod Client
pub mod Build
pub mod Builder
pub mod Controller
pub mod Tests
