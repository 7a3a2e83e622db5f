-- ===== src/System/Quiet.antt =====
-- Where the number of idle workers that the map of queues has for a queue comes from.
use k8s_worker_pod_autoscale.Base.{
  ◌≡◌, refl, sym, subst, ap, Option, none, some, ◌⊎◌, inl, inr, true, [], Text, is_empty,
  Bool-cases, Option-cases, ℤ, pos, minus_one, ◌≤ℤ◌, lookup,
}
use k8s_worker_pod_autoscale.Base.Float.{Float64, zero_float, feq}
use k8s_worker_pod_autoscale.Queue.Spec.{QueueSpec, Items}
use k8s_worker_pod_autoscale.Queue.Uri.{get_key}
use k8s_worker_pod_autoscale.Queue.Sync.{
  sends, add, sync_round, queue_spec, list_queue, list_queue_by_namespace,
}
use k8s_worker_pod_autoscale.Queue.Sync.Keys.{
  Call, request_of, adds, messages_are, messages_sent_are, idle_workers_are, deletes, lists,
}
use k8s_worker_pod_autoscale.Queue.Service.{calls}
use k8s_worker_pod_autoscale.Queue.Isolation.{ActsOn}
use k8s_worker_pod_autoscale.Queue.Poller.{Threads, poll_round, polls}
use k8s_worker_pod_autoscale.Queue.Sqs.{
  Aws, Sqs, ok, get_approx_messages, get_approx_messages_not_visible,
}
use k8s_worker_pod_autoscale.Queue.Sqs.Poll.{Clock, Caches}
use k8s_worker_pod_autoscale.Queue.Sqs.Allowed.{received_number}
use k8s_worker_pod_autoscale.Queue.Sqs.Idle.{sqs_idle_only_if_quiet, sqs-ActsOn}
use k8s_worker_pod_autoscale.Queue.Beanstalk.Poll.{State, get_messages, get_idle_workers}
use k8s_worker_pod_autoscale.Queue.Beanstalk.Idle.{beanstalk_idle_only_if_quiet, beanstalk-ActsOn}
use k8s_worker_pod_autoscale.Queue
use k8s_worker_pod_autoscale.System.{
  Does, Outside, Reached, begins, serves, Made, by_list, by_delete, by_add, by_sqs, by_beanstalk,
}
use k8s_worker_pod_autoscale.System.Holding.{HoldsAt, HoldsIn, Keeps, sync_round-HoldsIn}
use k8s_worker_pod_autoscale.System.Origins.{Does-All, IsAdded, add-IsAdded}

module _ {W : Type 0} (outside : Outside W) where
  -- The request is one of a poll of the queue at `key`, as the map had listed it. That poll found no
  -- message waiting and none that a worker holds, and the request says that `n` workers are idle.
  pub data IsQuietPoll (key : Text) (n : ℤ) : (c : Call) → Made outside c → Type 0 where
    sqs_quiet :
        {listed : Items} {threads : Threads} {spec : QueueSpec} {aws : Aws} {clock : Clock}
        {caches : Caches} {c : Call} {reached : Reached outside listed}
        {polled : poll_round key threads listed ≡ polls spec}
        {sent : Does (calls c) (Queue.Sqs.Poll.poll aws outside.sqs clock key spec caches).actions}
        (not_visible : ℤ) (received : Float64)
        → c ≡ idle_workers_are key n
        → n ≡ spec.workers
        → get_approx_messages aws outside.sqs spec.uri ≡ ok (pos 0)
        → get_approx_messages_not_visible aws outside.sqs spec.uri ≡ ok not_visible
        → not_visible ≤ℤ pos 0
        → received_number aws outside.sqs clock [] spec caches ≡ ok received
        → feq received zero_float ≡ true
        → IsQuietPoll key n c (by_sqs threads key spec aws clock caches reached polled sent)
    beanstalk_quiet :
        {listed : Items} {threads : Threads} {spec : QueueSpec} {s : State W} {c : Call}
        {reached : Reached outside listed} {polled : poll_round key threads listed ≡ polls spec}
        {sent : Does
          (calls c)
          (Queue.Beanstalk.Poll.poll outside.net outside.beanstalk key spec s).actions}
        (reserved : ℤ)
        → c ≡ idle_workers_are key n
        → (get_messages outside.net spec.uri s).0 ≡ Queue.Beanstalk.Reply.ok (pos 0, reserved)
        → reserved ≤ℤ pos 0
        → (get_idle_workers outside.net spec.uri (get_messages outside.net spec.uri s).1).0
          ≡ Queue.Beanstalk.Reply.ok n
        → IsQuietPoll key n c (by_beanstalk threads key spec s reached polled sent)

  mutual
    -- Among the requests that led to the map, or to a map that an `Add` among them had listed, there is
    -- one of such a poll.
    pub data FoundQuiet (key : Text) (n : ℤ) : (item : Items) → Reached outside item → Type 0 where
      in_request :
          {c : Call} {item : Items} {made : Made outside c} {reached : Reached outside item}
          → IsFromQuiet key n c made
          → FoundQuiet key n (sync_round item (request_of c)) (serves made reached)
      before_request :
          {c : Call} {item : Items} {made : Made outside c} {reached : Reached outside item}
          → FoundQuiet key n item reached
          → FoundQuiet key n (sync_round item (request_of c)) (serves made reached)

    -- The request of such a poll, or of an `Add` whose listed map goes back to one.
    pub data IsFromQuiet (key : Text) (n : ℤ) : (c : Call) → Made outside c → Type 0 where
      polled_so :
          {c : Call} {made : Made outside c} → IsQuietPoll key n c made → IsFromQuiet key n c made
      listed_so :
          {listed : Items} {namespace name uri : Text} {workers : ℤ} {seconds : Float64} {k : Text}
          {spec : QueueSpec} {reached : Reached outside listed}
          {sent : add outside.parse listed namespace name uri workers seconds
            ≡ sends (request_of (adds k spec))}
          → FoundQuiet key n listed reached
          → IsFromQuiet key n (adds k spec) (by_add namespace name uri workers seconds reached sent)

-- Unknown, none, or with a reason.
abbrev pub Reported : (Text → ℤ → Type 0) → Text → ℤ → Type 0
Reported F key n = (n ≡ minus_one) ⊎ (n ≡ pos 0) ⊎ F key n

abbrev pub HasReport : (Text → ℤ → Type 0) → Text → QueueSpec → Type 0
HasReport F key spec = Reported F key spec.idle_workers

-- What a request says of idle workers.
abbrev Says : (Text → ℤ → Type 0) → Call → Type 0
Says F (adds key spec) = Reported F key spec.idle_workers
Says F (idle_workers_are key n) = Reported F key n
Says F c = Unit

module _ {F G : Text → ℤ → Type 0} (f : (k : Text) (n : ℤ) → F k n → G k n) where
  Reported-weaken : (key : Text) (n : ℤ) → Reported F key n → Reported G key n
  Reported-weaken key n (inl e) = inl e
  Reported-weaken key n (inr (inl e)) = inr (inl e)
  Reported-weaken key n (inr (inr h)) = inr (inr (f key n h))

  HoldsAt-weaken :
      (k : Text) (o : Option QueueSpec) → HoldsAt (HasReport F) k o → HoldsAt (HasReport G) k o
  HoldsAt-weaken k none h = tt
  HoldsAt-weaken k (some spec) h = Reported-weaken k spec.idle_workers h

  Says-Keeps : (c : Call) → Says F c → Keeps (HasReport G) c
  Says-Keeps (adds key spec) h = Reported-weaken key spec.idle_workers h
  Says-Keeps (messages_are key n) h = λ q old. old
  Says-Keeps (messages_sent_are key x) h = λ q old. old
  Says-Keeps (idle_workers_are key n) h = λ q old. Reported-weaken key n h
  Says-Keeps (deletes key) h = tt
  Says-Keeps lists h = tt

module _ {W : Type 0} (outside : Outside W) (F : Text → ℤ → Type 0) where
  queue_spec-Reported :
      (namespace name uri protocol host service : Text) (workers : ℤ) (seconds : Float64)
      (listed : Items)
      → HoldsAt (HasReport F) (get_key namespace name) (lookup (get_key namespace name) listed)
      → Reported F
          (get_key namespace name)
          (queue_spec namespace uri protocol host service workers seconds
            (list_queue_by_namespace namespace name listed)).idle_workers
  unfolding queue_spec list_queue_by_namespace list_queue
  queue_spec-Reported namespace name uri protocol host service workers seconds listed h =
      elim (Option-cases (lookup (get_key namespace name) listed)) [
        | inl e ↦ rw (e, list_queue) (inl refl)
        | inr (spec, e) ↦ elim (Bool-cases (is_empty spec.name)) [
          | inl b ↦ rw (e, list_queue) (rw b (inl refl))
          | inr b ↦ rw (e, list_queue) (rw b (rw e at h))
        ]
      ]

  IsAdded-Reported :
      {listed : Items} (key : Text) (spec : QueueSpec)
      → IsAdded outside.parse listed key spec
      → HoldsIn (HasReport F) listed
      → Reported F key spec.idle_workers
  IsAdded-Reported key spec a h =
      rw (a.keyed, a.specified)
        (queue_spec-Reported a.namespace a.name a.uri a.protocol a.host a.service a.workers
          a.seconds _ (h _))

  -- A poll tells what it found.
  sqs-Says :
      {listed : Items} (threads : Threads) (key : Text) (spec : QueueSpec) (aws : Aws)
      (clock : Clock) (caches : Caches) (c : Call) (reached : Reached outside listed)
      (polled : poll_round key threads listed ≡ polls spec)
      (sent : Does (calls c) (Queue.Sqs.Poll.poll aws outside.sqs clock key spec caches).actions)
      → ((n : ℤ)
          → IsQuietPoll outside key n c
              (by_sqs threads key spec aws clock caches reached polled sent)
          → F key n)
      → Queue.Sqs.Idle.IdleReason aws outside.sqs clock spec caches (calls c)
      → ActsOn key (calls c)
      → Says F c
  sqs-Says threads key spec aws clock caches (idle_workers_are k n) r p d f (inl e) acts = inl e
  sqs-Says threads key spec aws clock caches (idle_workers_are k n) r p d f (inr (inl e)) acts =
      inr (inl e)
  sqs-Says threads key spec aws clock caches (idle_workers_are k n) r p d f
        (inr (inr (e, visible, (not_visible, flying, few), (received, g, z)))) acts =
      inr (
        inr (
          subst (λ x. F x n) (sym acts)
            (f n (
              sqs_quiet not_visible received (ap (λ x. idle_workers_are x n) acts) e visible flying
                few g z))))
  sqs-Says threads key spec aws clock caches (messages_are k n) r p d f reason acts = tt
  sqs-Says threads key spec aws clock caches (messages_sent_are k n) r p d f reason acts = tt
  sqs-Says threads key spec aws clock caches (deletes k) r p d f reason acts = tt
  sqs-Says threads key spec aws clock caches lists r p d f reason acts = tt
  sqs-Says threads key spec aws clock caches (adds k q) r p d f reason acts = absurd acts

  beanstalk-Says :
      {listed : Items} (threads : Threads) (key : Text) (spec : QueueSpec) (s : State W) (c : Call)
      (reached : Reached outside listed) (polled : poll_round key threads listed ≡ polls spec)
      (sent : Does
        (calls c)
        (Queue.Beanstalk.Poll.poll outside.net outside.beanstalk key spec s).actions)
      → ((n : ℤ)
          → IsQuietPoll outside key n c (by_beanstalk threads key spec s reached polled sent)
          → F key n)
      → Queue.Beanstalk.Idle.IdleReason outside.net outside.beanstalk key spec s (calls c)
      → ActsOn key (calls c)
      → Says F c
  beanstalk-Says threads key spec s (idle_workers_are k n) r p d f (inl (long, e)) acts =
      inr (inl e)
  beanstalk-Says threads key spec s (idle_workers_are k n) r p d f (inr (inl (short, e))) acts =
      inl e
  beanstalk-Says threads key spec s (idle_workers_are k n) r p d f
        (inr (inr (short, (reserved, e, few, g)))) acts =
      inr (
        inr (
          subst (λ x. F x n) (sym acts)
            (f n (beanstalk_quiet reserved (ap (λ x. idle_workers_are x n) acts) e few g))))
  beanstalk-Says threads key spec s (messages_are k n) r p d f reason acts = tt
  beanstalk-Says threads key spec s (messages_sent_are k n) r p d f reason acts = tt
  beanstalk-Says threads key spec s (deletes k) r p d f reason acts = tt
  beanstalk-Says threads key spec s lists r p d f reason acts = tt
  beanstalk-Says threads key spec s (adds k q) r p d f reason acts = absurd acts

module _ {W : Type 0} (outside : Outside W) where
  -- The reason that the history of the map gives.
  abbrev pub InHistory : {item : Items} → Reached outside item → Text → ℤ → Type 0
  InHistory {item} reached key n = FoundQuiet outside key n item reached

  mutual
    unfolding lookup

    Made-Says :
        {c : Call} (made : Made outside c) → Says (λ key n. IsFromQuiet outside key n c made) c
    Made-Says by_list = tt
    Made-Says (by_delete namespace name) = tt
    Made-Says (by_add namespace name uri workers seconds {key} {spec} reached e) =
        Reported-weaken {F = InHistory reached}
          {G = λ k n.
            IsFromQuiet outside k n (adds key spec)
              (by_add namespace name uri workers seconds {key = key} {spec = spec} reached e)}
          (λ k n h. listed_so h) key spec.idle_workers
          (IsAdded-Reported outside (InHistory reached) key spec
            (add-IsAdded outside.parse _ namespace name workers seconds uri e)
            (Reached-HasReport reached))
    Made-Says (by_sqs threads key spec aws clock caches {c} reached e d) =
        sqs-Says outside
          (λ k n. IsFromQuiet outside k n c (by_sqs threads key spec aws clock caches reached e d))
          threads key spec aws clock caches c reached e d (λ n q. polled_so q)
          (Does-All (Queue.Sqs.Idle.IdleReason aws outside.sqs clock spec caches) (calls c) _
            (sqs_idle_only_if_quiet aws outside.sqs clock key spec caches) d)
          (Does-All (ActsOn key) (calls c) _ (sqs-ActsOn aws outside.sqs clock key spec caches) d)
    Made-Says (by_beanstalk threads key spec s {c} reached e d) =
        beanstalk-Says outside
          (λ k n. IsFromQuiet outside k n c (by_beanstalk threads key spec s reached e d)) threads
          key spec s c reached e d (λ n q. polled_so q)
          (Does-All (Queue.Beanstalk.Idle.IdleReason outside.net outside.beanstalk key spec s)
            (calls c) _ (beanstalk_idle_only_if_quiet outside.net outside.beanstalk key spec s) d)
          (Does-All (ActsOn key) (calls c) _
            (beanstalk-ActsOn outside.net outside.beanstalk key spec s) d)

    pub Reached-HasReport :
        {item : Items} (reached : Reached outside item)
        → HoldsIn (HasReport (InHistory reached)) item
    Reached-HasReport begins k = tt
    Reached-HasReport (serves {c} {item} m r) k =
        sync_round-HoldsIn (HasReport (InHistory (serves m r))) item c
          (Says-Keeps {F = λ x n. IsFromQuiet outside x n c m} {G = InHistory (serves m r)}
            (λ x n o. in_request o) c (Made-Says m))
          (λ x.
            HoldsAt-weaken {F = InHistory r} {G = InHistory (serves m r)}
              (λ y n h. before_request h) x (lookup x item) (Reached-HasReport r x))
          k
