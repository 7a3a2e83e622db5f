-- ===== src/Queue/Service.antt =====
-- pkg/queue/queue_service.go: what a queueing service does when it polls a queue. A poll reads its
-- answers from outside and acts on the rest of the program only by requests to `Queues` and by
-- sleeping, so it is modelled as the list of these, in order.
use k8s_worker_pod_autoscale.Base.{◌≡◌, List, [], ◌∷◌, Text, ℤ, pos}
use k8s_worker_pod_autoscale.Queue.Sync.Keys.{
  Call, messages_are, messages_sent_are, idle_workers_are,
}

pub data Action : Type 0 where
  calls : Call → Action
  sleeps : (nanoseconds : ℤ) → Action

-- time.Second and time.Millisecond, in nanoseconds.
abbrev pub second : ℤ
second = pos 1_000_000_000

-- The requests among the actions.
abbrev pub calls_of : List Action → List Call
calls_of [] = []
calls_of (calls c ∷ more) = c ∷ calls_of more
calls_of (sleeps t ∷ more) = calls_of more

-- A request of a poll: an update of its own queue.
abbrev pub Updates : Text → Call → Type 0
Updates key (messages_are k n) = k ≡ key
Updates key (messages_sent_are k x) = k ≡ key
Updates key (idle_workers_are k n) = k ≡ key
Updates key c = ⊥
