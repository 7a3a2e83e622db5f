-- ===== src/System.antt =====
-- The controller, the pollers and the map of queues together: the requests that the program makes,
-- and the maps that it reaches. Each request is a step of its own, so the steps of all goroutines
-- interleave in any order; an `Add` and a poll remember the map that they listed before.
pub mod Quiet
pub mod Origins
pub mod Holding
pub mod WellFormed
pub mod Serving
pub mod Handling
pub mod Workers
pub mod ScaleDown
pub mod Small
pub mod Tests
use k8s_worker_pod_autoscale.Base.{◌≡◌, List, [], Any, Text, ℤ}
use k8s_worker_pod_autoscale.Base.Float.{Float64}
use k8s_worker_pod_autoscale.Queue.Spec.{QueueSpec, Items}
use k8s_worker_pod_autoscale.Queue.Uri.{UrlParser, get_key}
use k8s_worker_pod_autoscale.Queue.Sync.{sends, add, sync_round}
use k8s_worker_pod_autoscale.Queue.Sync.Keys.{Call, adds, deletes, lists, request_of}
use k8s_worker_pod_autoscale.Queue.Service.{Action, calls}
use k8s_worker_pod_autoscale.Queue.Poller.{Threads, poll_round, polls}
use k8s_worker_pod_autoscale.Queue.Sqs.{Aws, Sqs}
use k8s_worker_pod_autoscale.Queue.Sqs.Poll.{Clock, Caches}
use k8s_worker_pod_autoscale.Queue.Beanstalk.{Net}
use k8s_worker_pod_autoscale.Queue.Beanstalk.Poll.{Beanstalk, State}
use k8s_worker_pod_autoscale.Queue

-- The action is among those of the list.
abbrev pub Does : Action → List Action → Type 0
Does a = Any (λ b. a ≡ b)

-- What the program talks to, and its settings.
pub record Outside (W : Type 0) : Type 0 where
  pub parse : UrlParser
  pub sqs : Sqs
  pub net : Net W
  pub beanstalk : Beanstalk

mutual
  pub data Reached {W : Type 0} (outside : Outside W) : Items → Type 0 where
    begins : Reached outside []
    serves :
        {c : Call} {item : Items}
        → Made outside c
        → Reached outside item
        → Reached outside (sync_round item (request_of c))

  pub data Made {W : Type 0} (outside : Outside W) : Call → Type 0 where
    by_list : Made outside lists
    by_delete : (namespace name : Text) → Made outside (deletes (get_key namespace name))
    by_add :
        {listed : Items} (namespace name uri : Text) (workers : ℤ) (seconds : Float64) {key : Text}
        {spec : QueueSpec}
        → Reached outside listed
        → add outside.parse listed namespace name uri workers seconds
          ≡ sends (request_of (adds key spec))
        → Made outside (adds key spec)
    by_sqs :
        {listed : Items} (threads : Threads) (key : Text) (spec : QueueSpec) (aws : Aws)
        (clock : Clock) (caches : Caches) {c : Call}
        → Reached outside listed
        → poll_round key threads listed ≡ polls spec
        → Does (calls c) (Queue.Sqs.Poll.poll aws outside.sqs clock key spec caches).actions
        → Made outside c
    by_beanstalk :
        {listed : Items} (threads : Threads) (key : Text) (spec : QueueSpec) (s : State W)
        {c : Call}
        → Reached outside listed
        → poll_round key threads listed ≡ polls spec
        → Does
            (calls c)
            (Queue.Beanstalk.Poll.poll outside.net outside.beanstalk key spec s).actions
        → Made outside c
