-- ===== src/Lib.antt =====
-- A model of the demo web server and of the chart that deploys it, and what is proved of both.
--
-- The program has two parts, and bindings that were generated for the second. The server (main.go, video.go, openfga.go, fibonacci.go, root.go,
-- ping.go, opentelemetry.go) answers five routes. It asks an OpenFGA server whether a user may read
-- or write, keeps videos in PostgreSQL, and records spans. The chart (cdk8s/main.go, cdk8s/app.go,
-- cdk8s/db.go) reads values from yaml files and builds the Kubernetes objects that run the server:
-- among them the environment from which the server's getDB takes its options. It creates them with
-- the packages in cdk8s/imports, which `cdk8s import` generated and which call the jsii runtime.
--
-- The server, under Server/:
-- - Server/State: the state that a handler changes, which is the trace of the calls it made, newest
--   first, and the package variable dbSession of video.go; the monad of the handlers, where a run
--   returns, panics (a nil pointer is read), ends the process (log.Fatal) or exceeds the stack; and
--   Services, all that the handlers call: the environment, the OpenFGA SDK, go-pg, resty, the trace
--   propagator, which reads the context of the request, and strconv.Quote. A service may answer by all that happened before. `defer span.End()` runs on a
--   return and on a panic, and not where the process ends.
-- - Server/Errors (httpError and its three callers in main.go), Server/Openfga (fgaCheck,
--   getFgaClient), Server/Database (getDB), Server/Videos (videosGetHandler, videoPostHandler),
--   Server/Pages (rootHandler, pingHandler), Server/Fibonacci (calculateFibonacci,
--   fibonacciHandler): the function of each name in the source, and a helper for what follows a
--   call, since a branch on its result is by clauses.
-- - Server/Serving: the routes of main, and the states that a sequence of requests reaches. Requests
--   are served one after the other; Serving/Runs carries a relation through any number of them.
-- - Server/Concurrent: requests served at the same time, as one history of events, each with the
--   number of its request. A request runs with the services as it finds them, which answer each call
--   by all that had happened before it. What else happens in the history is left open.
-- - Server/Startup: initTracer and its two helpers in opentelemetry.go, and main up to router.Run.
--   Server/Process: main as a whole, with its log lines, what it sets for the whole process,
--   router.Run, which may go on for ever, and the deferred shutdown of the tracer provider.
-- - Server/Catalog: what the database has accepted from videoPostHandler, read off the trace, and
--   what videosGetHandler lists. Stages has the states of the two handlers between their calls,
--   Allowed, Stored, Posted and Listed follow one handler on its way to an answer, and RoundTrip
--   puts them together. A POST that succeeds sends no response of its own. What the database keeps is a hypothesis there.
--   Server/Rejections: the errors with which these two handlers answer, each with its cause.
--   Server/Database/Opens is getDB where the environment gives it all that it asks for.
-- - Server/Relate, Server/Parts, Server/Handlers: the proof rules by which a relation that each
--   event keeps is carried through the handlers. Authorization, Spans, Responses, Pages/Answer,
--   Pages/Relay, Fibonacci/Value, Fibonacci/Answer, Fibonacci/Bounds, Serving/Session,
--   Startup/Options and Process/Shutdown hold the properties.
-- - Strconv: Atoi and Itoa of Go's standard library.
--
-- The chart, under Chart/:
-- - Chart/K8s and Chart/Custom: the structs of cdk8s/imports that the chart builds, field by field,
--   each with its zero value and the test that its required fields are set. A pointer is an Option.
--   A slice of pointers is a list, as no code puts a nil pointer into one. A field of a struct type
--   that no code builds has the empty type, so it can only be nil. A map is an association list. A
--   float64 is its IEEE 754 bits.
-- - Chart/Props: the values of app.go. Chart/DbEnv: setDbEnv. Chart/Workload: getDeploymentProps and
--   getServiceProps. Chart/Exposure: getIngressProps and getCertificate. Chart/DbResources and
--   Chart/Schema: the other functions of db.go. Chart/App: NewApp, which gives no result where a nil
--   name is read. Chart/Main: setValues and NewCncfDemoChart, with the file system and the decoder of
--   yaml as parameters.
-- - Chart/Bindings: how the chart calls the constructors of the nine kinds that it creates, and
--   Quantity_FromString and IntOrString_FromNumber. The jsii runtime, each of whose calls may fail,
--   and whether the parameters are checked, are parameters. Chart/Creation: NewApp again, as
--   the run that makes these calls, cdk8s.NewHelm and Node_Of in order, and panics where one does; Creation/Rules,
--   Objects and Refines show that it creates the list of Chart/App. Chart/Program: main of
--   cdk8s/main.go, up to what Synth writes out; cdk8s.NewApp, NewChart and Synth may fail.
-- - A construct has its props as they are when it is created. getIngressProps assigns new labels to
--   the metadata that the deployment and the service were created with before; the assignment does
--   not reach them.
-- - Chart/App/Build, Complete, Wiring, Secured, Targeted, Migrated, Supplied and Ids,
--   Chart/Providers, Chart/Agreement and Chart/Main/Variant hold the properties and their lemmas.
--
-- Deployment puts the two together: the environment of the container, with what the secrets of the
-- cluster hold as a parameter, is the one that the server reads. Connection is about getDB, Catalog
-- about the videos, LeftOut about the variables that the chart does not set, FGA_API_URL and PORT
-- among them, and Probes about the port and the page by which Kubernetes watches the server. The
-- modules called Tests apply the theorems to concrete configurations.
--
-- The generated packages, under Imports/:
-- - Imports/Template: the file of a class of API objects, as k8s_KubeDeployment.go, with the names
--   left open. A function calls `Initialize` of its package or not, panics where a check fails, and
--   asks for one call of the jsii kernel, of Template/Kernel. The errors of the kernel and of
--   `Initialize` are left to who performs the call, as Chart/Bindings does. Template/Validation has the checks, for
--   builds with and without the tag no_runtime_type_checking. The unions IntOrString and Quantity
--   have a template of their own.
-- - Imports/K8s, by API groups, and Imports/Custom: for each of the 128 files of classes, the class,
--   its checks and its checks without type checking. A type parameter stands for the props of a
--   class, and one for all other values.
-- - Imports/Initialize: jsii/jsii.go of each package. Imports/Registry and Imports/Registered: what
--   the init function of each package registers, entry by entry. The parts of a list, such as
--   k8s_init_1, are consecutive pieces of one function.
-- - Imports/Packages sets the classes of a package next to what it registers: the runtime of the
--   chart may create those that are registered. Imports/Guards holds the property.
--
-- An int is its 64-bit pattern, with sums and differences modulo 2 ^ 64. calculateFibonacci takes
-- fuel, which bounds the depth of its calls. The handler gives it the number of calls that the stack
-- of a goroutine holds, since Go ends the process beyond its limit of 1 GB: ten thousand, and
-- `extra_stack` more, a parameter. Each call is at a smaller number, so this is enough for a number
-- below it. Atoi
-- recurses on the text, and Itoa has the number itself as fuel, more than it has digits.
--
-- Not modelled: of cdk8s/imports, the structs that the chart does not build, the constants of the
-- enums, whose names alone are registered, and the archives that are loaded; the contexts that are
-- passed along, but for what the propagator reads in them; and the manifests, scripts and documentation of the repository, which hold no Go.
pub mod Prelude
pub mod Strconv
pub mod Server
pub mod Chart
pub mod Deployment
pub mod Imports
