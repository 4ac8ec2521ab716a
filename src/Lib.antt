-- ===== src/Lib.antt =====
-- A verification library for the Terraform provider of Aiven: the logic of the provider that is
-- neither generated nor a mere call of a library, with the theorems that make it correct.
--
-- The program. The provider is a process that Terraform drives, one call for each resource, many of
-- them at the same time. Its resources read and change a service through the API's two clients. What
-- they share stands in a few packages, and these are modelled here:
--
-- * KafkaTopic is internal/plugin/kafkatopicrepository: one repository for all Kafka topics of the
--   process, which learns what exists (`exists`, `create`, `topic_exists`, `forget_topic`,
--   `forget_service`), queues the reads (`read_enqueue`), and in a worker withdraws the queue, asks
--   for the topics of each service in chunks and answers each read (`withdraw`, `fetch`,
--   `worker_tick`). KafkaTopic/Repository and KafkaTopic/Fetch are the code, the other children are
--   proofs, of which KafkaTopic/Trace is about interleaved steps of the operations.
-- * Common is internal/common/error.go: errors, and the tests on them.
-- * ResourceId is internal/schemautil/schemautil.go, lines 218 to 276: the ids of resources.
-- * Clickhouse is internal/sdkprovider/service/clickhouse: Clickhouse/Escape is escape.go,
--   Clickhouse/Statement and Clickhouse/Response are the statements and the system tables of grant.go,
--   Clickhouse/Sql is the queries of grant.go and role.go, Clickhouse/GrantResource is
--   clickhouse_grant.go. Clickhouse/Statement/Reader and Clickhouse/Escape/Quoting read statements
--   and quoted names back, independent of the code, with the escapes that escape.go writes and the doubled
--   backtick.
-- * UserConfigDiff is internal/sdkprovider/userconfig/diff/diff.go.
-- * Schemautil is internal/schemautil: Schemautil/StaticIps is static_ips.go and its part of wait.go,
--   Schemautil/Wait is wait.go, Schemautil/Databases is database.go and `CheckServiceIsPowered` of
--   service.go, Schemautil/PlanChecks is three rules of custom_diff.go, Schemautil/DiskSpace is its
--   two rules on disk space with the plans of helpers.go, Schemautil/ServiceUser is
--   service_user.go with what it calls, and Schemautil/ServiceResource is the create, update and
--   delete of service.go, whose calls are entries of a history. Their children are proofs and tests,
--   but for Wait/Once, Databases/Conflict and ServiceResource/Calls, which are code.
-- * Converters is internal/sdkprovider/userconfig/converters: Converters/Flatten and Converters/Expand
--   are the two directions of converters.go on the values of Converters/Values, Converters/Rename is
--   utils.go, and Converters/UserConfig puts them together. Converters/Typed says which values fit a
--   schema and what Terraform stores of them, and is used by the proofs only.
-- * KafkaSchema is internal/sdkprovider/service/kafkaschema/kafka_schema.go: KafkaSchema itself is the wait
--   for a version and the delete, KafkaSchema/Resource the upsert, the read and the check of the diff.
-- * Adapter is internal/plugin/adapter, which stands between the resources and the Terraform Plugin
--   Framework. Adapter/Values and Adapter/Marshalling are schema.go and marshalling.go, Adapter/Normalize,
--   Adapter/Data, Adapter/Store and Adapter/Open are resourcedata.go with timeouts.go, and Adapter/Resource with its children Refresh,
--   Create, Delete, Read and Plan are resource.go and the read of datasource.go. Adapter/Failure is the errors of
--   the package and Adapter/Retry what it uses of retry-go. The other children are proofs.
-- * Prelude is shared: native numbers, lists, Go strings and hexadecimal digits.
--
-- How they interact. The grant resource builds its id and splits it with ResourceId, and quotes with
-- Clickhouse/Escape. The wait for a Grafana service asks UserConfigDiff whether its ip filter is the
-- default, and all waits ask Schemautil/StaticIps. The test for a database that exists already keeps
-- its answers with `do_once` of Schemautil/Wait/Once, under keys made as those of the repository.
-- The tests on errors of Common are used by the repository and the waits. An update of a service takes
-- the difference of static ips from Schemautil/StaticIps and the size from Schemautil/DiskSpace, and
-- sends what `expand` of Converters/UserConfig gives. The handlers of Adapter/Resource use the data of a
-- resource by the record `Handle`; the data of Adapter/Data split an id with ResourceId.
--
-- How the code is read. A string is the list of its bytes. An error is a value, a nil error is
-- `none`, and a pair of a result and an error is a `Result`; the texts of errors leave out the
-- quotes that the verb %q adds. A panic is a case of its own (`none`, `panics`, `panicked` or
-- `failed_panic`). The API is a parameter: each call takes a world `W` and gives an answer with the
-- next one. Concurrency is a sequence of steps, and a step is a section behind a mutex or a call of the
-- API. The definition of a method is what it does when nothing comes between its steps. A map is
-- a function or an association list. Logging, timeouts and the cancelling of a context are left
-- out. What other packages do is a parameter too: the tests of the clients on errors
-- (`ClientErrors`), retry-go and the chunks of lo (`FetchLibrary`), dialling Grafana,
-- the attempts of the adapter's polls (`Retry`, a relation of attempts), `fmt` and `strconv` there (`Fmt`, `Text`), the sizes of the package units (`Units`), the
-- retries of a read (`UserRetries`), the sets of the SDK (`new_set`), and what the Terraform SDK says
-- of a resource (`ResourceDiff`, `ResourceData`, `Resource`).
--
-- Fuel. Three definitions run on fuel. `itoa` has one turn more than the number that it prints, which
-- has no more digits than its value. The loop over the pages of databases takes its fuel as an
-- argument, and one turn more than the API has cursors is enough. The wait for the version
-- of a Kafka schema ends in the source when the context is done, and here when its turns are over as
-- well; one turn more than those in which the version is not listed is enough. All else is recursion on lists.
--
-- What is not modelled: code that is generated (the views and schemas of internal/plugin/service and
-- the user config schemas), the declarations of schemas, the generators, the tests and tools, and for
-- now the registration and the warnings' lock of the adapter, the read of the service resource (service.go) and the
-- resources for accounts, projects, networks and the other services.
pub mod Prelude
pub mod Common
pub mod Adapter
pub mod Converters
pub mod KafkaSchema
pub mod KafkaTopic
pub mod ResourceId
pub mod Clickhouse
pub mod UserConfigDiff
pub mod Schemautil
