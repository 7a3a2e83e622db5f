-- ===== src/Lib.antt =====
-- k8s-worker-pod-autoscaler: a Kubernetes controller that scales the workers of a message queue.
--
-- A WorkerPodAutoScaler names a queue (by a URI), a Deployment or ReplicaSet of workers, and limits.
-- The controller (pkg/controller) registers the queue in a map of queues (`Queues` of
-- pkg/queue/queue.go), which one goroutine owns and all others reach by channels. For each queueing
-- service a poller (pkg/queue/poller.go) keeps a goroutine for each of the service's queues, which
-- polls the queue (pkg/queue/sqs.go, pkg/queue/beanstalk.go) and sends counts to the map. The
-- controller reads the counts, computes the workers that are wanted and scales.
--
-- The files, and what they model:
--   * Base: what the components share. Base/Ints has the integers with the wrap-around of int32,
--     Base/Float the float64 of IEEE 754 as computable numbers (round to nearest, ties to even); its
--     modules Rounding, Quotient and Tenth bound the roundings and show that the quotients which
--     the controller computes decide as whole numbers would,
--     Base/Texts, Base/Spaces and Base/Splits the strings as lists of bytes, Base/Dicts Go's maps as
--     association lists,
--     Base/Outcomes results that may end the process.
--   * Controller/Desired: GetDesiredWorkers, getMinWorkers, getMaxDisruptableWorkers,
--     isChangeTooSmall and convertDesiredReplicasWithRules of pkg/controller/controller.go, under
--     their names. Rules, Bounds, Disruption, Reference, Whole and Draining have the proofs.
--   * Controller/Scale: GetScaleOperation and canScaleDown of pkg/controller/scale_operation.go.
--   * Api: the types of pkg/apis/workerpodautoscaler/v1 and GetMaxDisruption. Api/Copies has the
--     generated copies (zz_generated.deepcopy.go) over a heap, where a pointer is an address.
--   * Controller/Cluster: what the controller reads and writes outside, with updateDeployment and
--     updateReplicaSet. The state has the caches of the listers, whose objects are changed in place
--     as in the code, the map of queues, and a list of what was sent to the API server.
--   * Controller/Handler: syncHandler and updateWorkerPodAutoScalerStatus of the same file, over what
--     Controller/Inputs has: the event, the settings, and what other goroutines have served between
--     its steps, which is an argument. Handler/Cases has the ways through it as a data type, its
--     other modules have the proofs; Controller/Retry says what is documented of RetryOnConflict.
--   * Controller/WorkQueue: processNextWorkItem and the enqueue functions; WorkQueue/Worker has
--     runWorker over the turns that the work queue gives it.
--   * Controller/Start: Run of the controller, and the events of the handlers that NewController
--     registers with the informer.
--   * Generated: pkg/generated. Generated/Typed has the requests of the typed client as the calls
--     that make them, Generated/Fake the actions of the client for tests, Generated/Factory the factory
--     of the informers as a state machine, Generated/Informers the informer of the autoscalers, and
--     Generated/Lister the lister, and Generated/Clientset NewForConfig. Agreement, Sound, Begun, Kept,
--     Started, Confined, Cached and Refused have the proofs.
--   * Queue/Spec, Queue/Sync: `QueueSpec` and `Queues` of pkg/queue/queue.go. The state is the map
--     `item`, a `Request` is what one channel receives, `sync_round` is one round of `Sync`, and the
--     methods of `Queues` are the requests they send or the answers they read off the map.
--   * Queue/Uri: parseQueueURI, getQueueName, getKey, getQueueServiceName and getRegion.
--   * Queue/Poller: the map of threads, one tick of `Run`, one round of `runPollThread`;
--     Poller/Ending has its loop, Poller/Goroutines the systems that a poller and its goroutines reach.
--   * Queue/Service, Queue/Sqs: the methods of `SQS`, its two caches (Sqs/Cache) and its poll
--     (Sqs/Poll), which returns what it does as a list of requests to `Queues` and of sleeps.
--   * Queue/Isolation: what the requests of a poll do to the map of queues.
--   * Queue/Beanstalk: the methods of `beanstalkClient` (Beanstalk/Methods) and of `Beanstalk`
--     (Beanstalk/Poll) in a monad with the state of the network, errors and panics.
--   * System: the requests that the controller and the pollers make of the map of queues
--     (`Made`) and the maps that the program reaches (`Reached`), in any interleaving; a poll and an
--     `Add` act on a map that was reached before. Holding, Origins, WellFormed, Quiet,
--     Serving, Handling, Workers and ScaleDown have the proofs; Workers shows that what `runWorker`
--     does of the map is of this kind.
--   * Command: parseRegions and the start of the queueing services in
--     cmd/workerpodautoscaler/run.go, NewSQS and NewBeanstalk. What the flags say is a record.
--     Command/Flags has the flags and the variables of the environment that pkg/cmdutil binds
--     them to, Command/Run the whole of `run`, from the configuration of the API server to the
--     controller's workers; Ends, Wired and Started have its proofs.
-- The modules named Small have small programs, and the modules named Tests evaluate the
-- definitions on the inputs of the repository's tests and on small ones, and instantiate the
-- theorems.
--
-- Parameters: net/url.Parse, intstr.GetValueFromIntOrPercent, the conversion to int32 of a
-- float64 that no int32 is equal to, the REST client, the shared informers and the indexers of
-- client-go, cache.WaitForCacheSync, the clientset of Kubernetes, the configuration of the
-- cluster, viper, the answers of AWS, session.NewSession, the beanstalkd server and its network,
-- the clock, the copy of the metadata, the API server, RetryOnConflict, and the functions of
-- client-go that split and make keys.
-- All loops are structural recursion on the finite lists that they range over, so no fuel is needed,
-- but for strings.TrimSpace, whose fuel is the length of the text; Base/Spaces shows that this is
-- enough.
-- A goroutine's endless loop is modelled by one round of it, or by a list of what its rounds read.
--
-- A map that Go iterates over is an association list, or comes with the order of its keys.
--
-- Not modelled: log lines, the metrics, the commands and the configuration file of cmd/ and
-- pkg/cmdutil, the registration of types with the scheme of the REST client, the signals, the factory
-- of the informers of Kubernetes, and the times at which goroutines run, except as the order of their
-- requests.
pub mod Base
pub mod Queue
pub mod Api
pub mod Generated
pub mod Controller
pub mod System
pub mod Command
