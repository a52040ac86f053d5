-- ===== src/Lib.antt =====
-- The core of kubetail. First its log pipeline, modules/shared/logs: how a list of source paths
-- becomes a stream of log records that follows a changing cluster. Then what its modules stand on
-- (modules/shared/k8shelpers, modules/shared/util), parts of the dashboard (modules/dashboard), and
-- the command that shows logs (modules/cli).
--
-- A source path (`default:deployments/web/app`) names a workload and a container. The source watcher
-- parses the paths, listens to the cluster's workloads and nodes, keeps them in an index, and works
-- out the set of log sources, one for each container that passes the filters. It publishes ADDED and
-- DELETED events about changes of that set. The stream has the sources when it starts, opens a log
-- channel for each of them, merges the past records by time, and forwards past and followed records
-- to its reader; it handles the watcher's events from then on.
--
-- The authorizers ask the API whether an informer is permitted and keep its answers for a time;
-- `SyncGroup` shares one computation among the concurrent callers of a key. The
-- dashboard watches the health of the cluster API and merges lists over several namespaces. The
-- command turns its flags into the options of a stream and prints the records as a table.
--
-- Files and code:
--   Prelude           Boolean tests, lists measured by native numbers, byte strings, maps, results.
--   Collections       util.go. SetOf is what is used of github.com/deckarep/golang-set, as an
--                     interface with its documented laws; MapSet and ThreadSafeSlice are the types
--                     of that name. SortOf is what is used of sort.Slice by the lists of the
--                     dashboard, with its documented laws.
--   Strings           the functions of Go's strings package that the code calls, on bytes.
--   Logs.WorkloadType helpers.go: the workload types, their names and their parser.
--   Logs.Path         source-watcher.go: parsedPath and parsePath.
--   Logs.Objects      the fields of Kubernetes objects that are read.
--   Logs.Index        source-watcher.go: workloadIndex.
--   Logs.Sources      source-watcher.go: LogSource and the events.
--   Logs.Select       source-watcher.go: the filters and inner loops of updateSources_UNSAFE.
--   Logs.Watcher      source-watcher.go: sourceWatcher, its handlers, the resources that Start watches
--                     (Watcher.New) and runs of calls (Watcher.Calls).
--   Logs.Options      options.go: an option is applied to the stream and to the watcher.
--   Logs.Records      stream.go: LogRecord. Times are nanoseconds since the zero time.
--   Logs.Reader       helpers.go: podLogsReader and extractTimestampFromBytes.
--   Logs.Fetcher      log-fetcher.go: KubeLogFetcher.StreamForward; in Fetcher.Backward its
--                     StreamBackward, with getFirstTimestamp of helpers.go.
--   Logs.Heap         what is used of container/heap, as an interface with its documented laws.
--   Logs.Merge        helpers.go: mergeLogStreams, with the queues of util.go.
--   Logs.Past         stream.go: the loops of startHead_UNSAFE and startTail_UNSAFE.
--   Logs.Stream       stream.go: NewStream, Start and the handlers of the watcher's events, which
--                     Stream.Follows applies to a sequence of events.
--   Logs.Forwarder    stream.go: runForwarder.
-- The files above are in modules/shared/logs, those below are named from the repository's root.
--   Collections.SyncMap, Collections.SyncGroup
--                     modules/shared/util/syncmap.go and syncgroup.go.
--   K8sHelpers.Namespaces, K8sHelpers.Authorizer
--                     modules/shared/k8shelpers/namespaces.go and authorizer.go.
--   K8sHelpers.Transport, K8sHelpers.ServiceAccountToken
--                     modules/shared/k8shelpers/transport.go and service-account-token.go.
--   K8sHelpers.KubeConfigWatcher
--                     modules/shared/k8shelpers/kube-config-watcher.go.
--   Dashboard.HealthMonitor
--                     modules/dashboard/internal/cluster-api/health-monitor.go; in
--                     HealthMonitor.Workers its caches of workers, and helpers.go beside it.
--   Dashboard.Paging  modules/dashboard/graph/schema.helpers.go: mergeResults.
--   Cli.TableWriter   modules/cli/internal/tablewriter/tablewriter.go.
--   Cli.Logs          modules/cli/cmd/logs.go: flags and stream options (Logs.Flag), the table of the
--                     records (Logs.Table).
--   Examples          runs on concrete inputs.
--
-- Correspondence. A struct is a record and a method takes and returns it; `err` is a result type. The
-- handlers of the watcher and of the stream, the index and the thread-safe slice hold a lock from
-- start to end, so a concurrent run is a sequence of calls, in the order in which they get the lock.
-- A channel is the list of the records that it will give until it is closed. Where a goroutine
-- selects among channels, the order of what it receives is an argument of the model. A record that is
-- written to a channel counts as written when it is sent. What the event bus publishes is returned as
-- a list of events; the subscribers are asynchronous, so the order in which the stream handles them is
-- an argument of its own. The goroutines that ask a SyncGroup for a value hold a lock for their key
-- only; there a run is a sequence of accesses of the shared maps and locks, one goroutine's after
-- another's. Where a function reads the clock more than once, each reading is an argument.
--
-- Bounds. The descent from a workload to its pods is bounded by an explicit depth, as the code has no
-- bound; the merge is bounded by a number of rounds. Both give nothing where the bound is too small.
-- The backward fetcher is bounded by a number of requests; what it gives is what has been written by
-- then. Its batch size, an int64 in the code, is a number without a limit.
--
-- Parameters: the set library, container/heap, sort.Slice, time.Parse, the regular expressions, the
-- Kubernetes client (`request`, the default namespace, the clientset, the answers to access reviews),
-- the encoders of JSON and base64, the parsers of durations, times, URLs and JSON web
-- tokens, the printing of times.
--
-- Not modelled: the agent's log fetcher, which is a client of a generated service; contexts that are
-- cancelled in the middle of a read; informers; the connection managers of
-- modules/shared/k8shelpers; the configuration; the resolvers of the
-- dashboard and of the cluster API, which pass calls on; the other commands; generated code; the user
-- interface and the agent, which are in other languages.
pub mod Prelude
pub mod Collections
pub mod Strings
pub mod Logs
pub mod K8sHelpers
pub mod Dashboard
pub mod Cli
pub mod Examples
