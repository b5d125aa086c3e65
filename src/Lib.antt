-- ===== src/Lib.antt =====
-- Kafkarator keeps the topics, streams and ACL entries of a Kubernetes cluster in step with Aiven's
-- Kafka. Two controllers (controllers/) are called with the name of a `Topic` or a `Stream`; they
-- compare the resource with Aiven, call the managers in pkg/aiven/, and write the status back. The
-- collectors in pkg/metrics/collectors report how many topics and entries there are. A second program,
-- the canary, sends messages to Kafka through the producer in pkg/kafka/producer and reads them again
-- with pkg/kafka/consumer.
--
-- Base has the shared names, tests, integers and list lemmas. Go has what the source uses of its
-- language: errors, results with `panic` for a nil dereference, 64-bit durations, and `Action`, which
-- passes the state of the outside world and the program's metrics explicitly; the state that a failed
-- call has reached stays. Go.Worlds and Go.Posts are the rules for chained actions.
--
-- External has the records of aiven-go-client and of nais/liberator. The methods of liberator's
-- resources (full name, hash, defaults, user names) are the parameter `Liberator`, the numbers of
-- apimachinery and floats the parameter `Numeric`.
--
-- Metrics: `ObserveAivenLatency` of pkg/metrics/metrics.go, by the labels of each sample.
-- Acl: pkg/aiven/acl. Model has the data and the set differences, Manager the `Manager` with its
--   loops over the interface of the ACL API (`AclApi`, a parameter). Store says what is relied on in
--   that API, for theorems only.
-- Adapter: the two implementations of that interface in pkg/aiven/adapter, over the client libraries
--   as parameters.
-- Topic: pkg/aiven/topic/topic.go. Fields has the conversions, Changed `topicConfigChanged`, Manager
--   the requests and the `Manager`.
-- Utils: pkg/utils, cred_strip.go in CredStrip and tls.go in Tls, with the file system as the parameter
--   `Files`.
-- Controllers: Common is controllers/synchronizer.go, constants.go, pkg/aiven/aiven.go and what the two
--   reconcilers share; TopicProcess and TopicReconcile are controllers/topic_controller.go, StreamProcess
--   and StreamReconcile controllers/stream_controller.go. The Kubernetes client is the parameter
--   `Cluster`.
-- Kafka: Errors and Tls are pkg/kafka/kafka.go, Producer pkg/kafka/producer/producer.go, with sarama as
--   the parameter `Sarama`, Consumer the `ConsumeClaim` and Group the rest of
--   pkg/kafka/consumer/consumer.go. Transactions says what is relied on in Kafka's transactions.
-- Canary: cmd/canary/main.go and pkg/canary. Model has the variables of `main` as the record `Canary`, the
--   two channels as queues in it, and the callback of the consumer; Produce the closures `produce` and
--   `produceTx`; Loop the `select` loop, as steps over events of the goroutines that it meets, and `Run`,
--   the relation of the states that a list of events connects; Startup the part of `main` in front of the
--   loop; Certificates pkg/canary/certificates. Broker says what is relied on in Kafka.
-- Collectors: pkg/metrics/collectors. Gauges has the gauges of pkg/metrics/metrics.go as functions of
--   their labels, Tally the maps that count; Topics, Acls and Metadata are the collectors, and Ticker the
--   `run` that repeats their reports.
-- CommandLine: cmd/kafkarator. Start is `startReconcilers` and what `Start` of
--   pkg/metrics/collectors/run.go puts together, Main the exit codes of `main`.
--
-- A pointer is an `Option`. An `int` has 64 bits. Times are read off the world: texts, but in the canary
-- of any type, with the functions of Go's package `time` on it as the parameter `Clock`. The loops
-- run over lists, and the attempts to commit are counted down from the 3 of the source. The loop of the
-- canary has no bound; its runs are over all lists of events. Two loops run on
-- fuel: the retries of `ConsumeClaim`, for which the number of attempts is enough after which the callback
-- stops asking for more (Kafka.Marking), and the sessions of the consumer, for which the number of sessions
-- is enough after which the context is cancelled (Kafka.Group). Go ranges over a map in no fixed order; here
-- it is the order of insertion. No call is cancelled by its context; the context of the canary is the field
-- `cancelled`. Between its events the world of the canary goes on by itself, within a relation `drift`.
-- A commit that fails may have been completed by Kafka (Kafka.Transactions).
--
-- Not modelled: logging and pauses; flags and the environment, whose values are records of settings; names,
-- help texts, buckets and the registration of the metrics; the HTTP server of the canary, whose failure
-- is an event; timers, whose ticks are events or numbers; the set-up of the controller manager, which calls
-- libraries only, with `SetupWithManager`; mocks and the comparisons that only tests use.
pub mod Base
pub mod Go
pub mod External
pub mod Metrics
pub mod Acl
pub mod Adapter
pub mod Topic
pub mod Utils
pub mod Kafka
pub mod Controllers
pub mod Canary
pub mod Collectors
pub mod CommandLine
