-- ===== src/Queue/Poller.antt =====
-- pkg/queue/poller.go: a poller keeps one goroutine for each queue of its service.
pub mod Ticks
pub mod Ending
pub mod Goroutines
pub mod Tests
use k8s_worker_pod_autoscale.Base.{
  ◌≡◌, Bool, true, false, Option, none, some, List, [], ◌∷◌, Text, if◌then◌else◌, is_empty, not,
  Dict, lookup, insert, delete, has_key,
}
use k8s_worker_pod_autoscale.Queue.Spec.{QueueSpec, Items}
use k8s_worker_pod_autoscale.Queue.Sync.{list_queue}

-- p.threads
abbrev pub Threads : Type 0
Threads = Dict Bool

-- The case of `Sync` for `updateThreadCh`, with the map of one entry that `updateThreads` sends.
-- (What `listThreadCh` is answered is the map itself.)
unfoldable pub update_threads : Text → Bool → Threads → Threads
update_threads key false threads = delete key threads
update_threads key true threads = insert key true threads

unfoldable pub is_thread_required : Text → Threads → Bool
is_thread_required key threads = elim (lookup key threads) [ none ↦ false | some status ↦ status ]

-- The first loop of a tick of `Run`: the threads afterwards, and the keys for which
-- `go p.runPollThread(key)` was called.
unfoldable pub start_threads : Items → Threads → Threads × List Text
unfolding update_threads
start_threads [] threads = (threads, [])
start_threads ((key, spec) ∷ queues) threads =
    let known = start_threads queues threads in
    let fresh = start_threads queues (update_threads key true threads) in
    if has_key key threads then known else (fresh.0, key ∷ fresh.1)

-- The second loop, over the threads that were listed before it.
unfoldable pub stop_threads : Items → (listed : Threads) → Threads → Threads
unfolding update_threads
stop_threads queues [] threads = threads
stop_threads queues ((key, status) ∷ listed) threads =
    stop_threads queues listed
      (if has_key key queues then threads else update_threads key false threads)

-- One tick of `Run`, for the queues of the service that were listed at its start.
unfoldable pub tick : Items → Threads → Threads × List Text
unfolding start_threads stop_threads
tick queues threads =
    let started = start_threads queues threads in
    (stop_threads queues started.0 started.0, started.1)

-- One round of `runPollThread`: it ends, or polls the queue.
pub data Round : Type 0 where
  ends : Round
  polls : QueueSpec → Round

unfoldable pub poll_round : Text → Threads → Items → Round
unfolding is_thread_required list_queue
poll_round key threads item =
    let queue_spec = list_queue key item in
    if not (is_thread_required key threads)
    then ends
    else if is_empty queue_spec.name
    then ends
    else polls queue_spec
