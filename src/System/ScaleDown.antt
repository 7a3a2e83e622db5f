-- ===== src/System/ScaleDown.antt =====
-- Why the controller may take more workers away at once than the autoscaler allows.
use k8s_worker_pod_autoscale.Base.{
  ◌≡◌, inl, inr, true, false, some, All, Text, is_empty, Bool-cases, Option-cases, returns, ℤ, pos,
  minus_one, ◌≤ℤ◌, ◌<ℤ◌, ◌-ℤ◌, eq_of_parts, IsCount, lookup, arith,
}
use k8s_worker_pod_autoscale.Base.Float.{Float64}
use k8s_worker_pod_autoscale.Api.{WorkerPodAutoScaler, get_max_disruption}
use k8s_worker_pod_autoscale.Queue.Spec.{Items}
use k8s_worker_pod_autoscale.Queue.Uri.{get_key}
use k8s_worker_pod_autoscale.Queue.Sync.{get_queue_info, list_queue, list_queue_by_namespace}
use k8s_worker_pod_autoscale.Controller.Cluster.{State, Env}
use k8s_worker_pod_autoscale.Controller.Desired.{
  get_max_disruptable_workers, get_min_workers, workers_for_backlog,
}
use k8s_worker_pod_autoscale.Controller.Desired.Rules.{all_idle}
use k8s_worker_pod_autoscale.Controller.Desired.Disruption.{desired_workers_disruption}
use k8s_worker_pod_autoscale.Controller.Inputs.{Event, Settings, Meanwhile, seconds_of}
use k8s_worker_pod_autoscale.Controller.Handler.Reasons.{IsDue}
use k8s_worker_pod_autoscale.System.{Outside, Reached, Made}
use k8s_worker_pod_autoscale.System.Quiet.{
  FoundQuiet, Reported, HasReport, InHistory, Reached-HasReport,
}
use k8s_worker_pod_autoscale.System.Holding.{HoldsAt}
use k8s_worker_pod_autoscale.System.Serving.{read-Reached}

module _ (F : Text → ℤ → Type 0) where
  -- What GetQueueInfo says of idle workers, once it says a name.
  info-Reported :
      (namespace name : Text) (item : Items) {queue_name : Text} {messages : ℤ} {sent : Float64}
      {idle : ℤ}
      → (queue_name, messages, sent, idle) ≡ get_queue_info namespace name item
      → is_empty queue_name ≡ false
      → HoldsAt (HasReport F) (get_key namespace name) (lookup (get_key namespace name) item)
      → Reported F (get_key namespace name) idle
  unfolding get_queue_info list_queue_by_namespace list_queue
  info-Reported namespace name item {idle = idle} e known h =
      elim (Option-cases (lookup (get_key namespace name) item)) [
        | inl n ↦ absurd (let e' = (rw (n, list_queue) at e) in cc)
        | inr (spec, n) ↦ elim (Bool-cases (is_empty spec.name)) [
          | inl b ↦ absurd (let e' = (rw b at (rw (n, list_queue) at e)) in cc)
          | inr b ↦
              let e' = (rw b at (rw (n, list_queue) at e)) in
              let same : idle ≡ spec.idle_workers = cc in rw same (rw n at h)
        ]
      ]

  -- A number of idle workers that the controller can compare with its current ones.
  counted-reason :
      {key : Text} {current idle : ℤ}
      → IsCount current
      → ¬ (current ≡ pos 0)
      → current ≡ idle
      → Reported F key idle
      → F key current
  counted-reason fits some_run e (inl u) =
      let negative : IsCount minus_one = (rw (e, u) at fits) in absurd (omega (arith, negative.0))
  counted-reason fits some_run e (inr (inl z)) = absurd (some_run cc)
  counted-reason fits some_run e (inr (inr q)) = rw e q

all_idle-facts :
    (messages : ℤ) (sent seconds : Float64) (current idle : ℤ)
    → all_idle messages sent seconds current idle ≡ true
    → (¬ (current ≡ pos 0)) × (messages ≤ℤ pos 0) × (current ≡ idle)
all_idle-facts messages sent seconds current idle h =
    (λ z. ground (arith, z, h), ground (arith, h), eq_of_parts current idle (ground (arith, h)))

-- A step down that is due, and larger than MaxDisruption allows, is due to idle workers.
sudden-all_idle :
    {V : Type 0} (env : Env V) (settings : Settings) (event : Event) (m : Meanwhile) (s : State V)
    {w : WorkerPodAutoScaler} {current replicas k : ℤ}
    (due : IsDue env settings event m s w current replicas)
    → get_max_disruptable_workers env.int_or_percent
        (get_max_disruption w settings.default_max_disruption)
        current
      ≡ returns k
    → replicas <ℤ current -ℤ k
    → ¬ (replicas ≡ due.max)
    → IsCount current
    → IsCount k
    → IsCount (
        get_min_workers env.conversion due.messages_sent due.min
          (seconds_of w.spec.seconds_to_process_one_job))
    → IsCount (workers_for_backlog env.conversion due.messages due.target)
    → all_idle due.messages due.messages_sent
        (seconds_of w.spec.seconds_to_process_one_job)
        current
        due.idle
      ≡ true
sudden-all_idle env settings event m s {w} {current} {replicas} {k} due e sudden below hc hk hm hb =
    let seconds = seconds_of w.spec.seconds_to_process_one_job in
    elim (Bool-cases (all_idle due.messages due.messages_sent seconds current due.idle)) [
      | inl idle ↦ idle
      | inr busy ↦
          elim (desired_workers_disruption env.int_or_percent env.conversion due.messages
            due.messages_sent _ due.target current due.idle due.min due.max _ due.computed e busy hc
            hk hm hb) [
              | inl capped ↦ absurd (below capped)
              | inr gentle ↦ absurd (omega (arith, gentle, sudden))
            ]
    ]

-- In the whole program, workers are taken away faster than MaxDisruption allows only because a poll
-- found the queue quiet. For a scaling that `syncHandler` decides on (as it has a reason for each that
-- it sends), starting at a map of queues that the program reaches, with any requests that the program
-- makes served in between: if it leaves fewer workers than the current ones less the `k` that may be
-- disrupted, and MaxReplicas is not what it scales to, then the count of messages that it read is not
-- positive, and among the requests that made the map that it read (those that led to the map at the
-- start, those served in between and the event's own, with the requests that led to a map that one of
-- these had listed) is one in which a poll of the autoscaler's own queue, as the map had listed it, says
-- that all of the current workers are idle. In that very poll, by the answers that it got, no message was
-- waiting and none was in a worker's hands. The numbers are to be ones that an int32 holds.
pub sudden_only_if_quiet :
    {W V : Type 0} (outside : Outside W) (env : Env V) (settings : Settings) (event : Event)
    (m : Meanwhile) (s : State V) (same_parse : env.parse ≡ outside.parse)
    (reached : Reached outside s.items) (before_request : All (Made outside) m.before_request)
    (before_info : All (Made outside) m.before_info) {w : WorkerPodAutoScaler}
    {current replicas k : ℤ} (due : IsDue env settings event m s w current replicas)
    → get_max_disruptable_workers env.int_or_percent
        (get_max_disruption w settings.default_max_disruption)
        current
      ≡ returns k
    → replicas <ℤ current -ℤ k
    → ¬ (replicas ≡ due.max)
    → IsCount current
    → IsCount k
    → IsCount (
        get_min_workers env.conversion due.messages_sent due.min
          (seconds_of w.spec.seconds_to_process_one_job))
    → IsCount (workers_for_backlog env.conversion due.messages due.target)
    → (due.messages ≤ℤ pos 0)
      × ((namespace name : Text) × (env.split_key event.key ≡ some (namespace, name))
          × FoundQuiet outside (get_key namespace name) current _ (
              read-Reached outside env settings event m same_parse before_request before_info
                namespace name w current reached))
sudden_only_if_quiet outside env settings event m s same_parse reached before_request before_info
      {w} {current} {replicas} due e sudden below hc hk hm hb =
    let (some_run, no_message, counted) =
      all_idle-facts due.messages due.messages_sent _ current due.idle
        (sudden-all_idle env settings event m s due e sudden below hc hk hm hb) in
    let (namespace, name, split, read) = due.read in
    let map =
      read-Reached outside env settings event m same_parse before_request before_info namespace name
        w current reached in
    (
      no_message,
      (
        namespace,
        name,
        split,
        counted-reason (InHistory outside map) hc some_run counted (
            info-Reported (InHistory outside map) namespace name _ read due.known
              (Reached-HasReport outside map (get_key namespace name))),
      ),
    )
