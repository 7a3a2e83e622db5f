-- ===== src/System/Workers.antt =====
-- A worker (`runWorker`) as a part of the system, beside the other workers and the pollers.
mod Tests
use k8s_worker_pod_autoscale.Base.{
  ◌≡◌, refl, sym, subst, inl, inr, Bool, true, false, Option, none, some, List, [], ◌∷◌, All, Text,
  Bool-cases, ℤ, Option-cases, if◌then◌else◌,
}
use k8s_worker_pod_autoscale.Api.{WorkerPodAutoScaler}
use k8s_worker_pod_autoscale.Queue.Sync.{Added, failed, ignored, sends, delete_queue}
use k8s_worker_pod_autoscale.Queue.Sync.Keys.{Call}
use k8s_worker_pod_autoscale.Controller.Cluster.{
  Kind, Workload, Sent, State, Env, Listed, found, missing, list_failed, get_autoscaler,
  get_workload,
}
use k8s_worker_pod_autoscale.Controller.Retry.{Grown, same, more}
use k8s_worker_pod_autoscale.Controller.Inputs.{Event, Settings, Meanwhile, serve, workload_of}
use k8s_worker_pod_autoscale.Controller.Handler.{
  Handled, synced, errored, ends_process, after_added, after_replicas, handle_workload,
  handle_autoscaler, sync_handler, queue_request,
}
use k8s_worker_pod_autoscale.Controller.Handler.Reasons.{Reasoned}
use k8s_worker_pod_autoscale.Controller.Handler.Sends.{handler_sends}
use k8s_worker_pod_autoscale.Controller.WorkQueue.{
  Item, event, invalid, after_handler, process_next_work_item,
}
use k8s_worker_pod_autoscale.Controller.WorkQueue.Worker.{Turn, take_turn, run_worker}
use k8s_worker_pod_autoscale.System.{Outside, Reached, Made}
use k8s_worker_pod_autoscale.System.Serving.{
  IsMade, delete-IsMade, queue_request-IsMade, items_after-Reached, serve-Reached,
}
use k8s_worker_pod_autoscale.System.Handling.{
  Reaches, RetriesWithin, RetriesWithin-Retries, sync_handler-Reaches,
}

Grown-weaken :
    {P Q : Sent → Type 0} {old l : List Sent}
    → ((u : Sent) → P u → Q u)
    → Grown P old l
    → Grown Q old l
Grown-weaken f same = same
Grown-weaken f (more p g) = more (f _ p) (Grown-weaken f g)

Grown-trans : {P : Sent → Type 0} {a b c : List Sent} → Grown P a b → Grown P b c → Grown P a c
Grown-trans g same = g
Grown-trans g (more p h) = more p (Grown-trans g h)

module _ {W V : Type 0} (outside : Outside W) (env : Env V) (settings : Settings)
    (within : RetriesWithin outside env) (same_parse : env.parse ≡ outside.parse) where
  -- A turn whose neighbours are parts of the same program.
  pub record IsTurn (t : Turn V) : Type 0 where
    pub keeps_sent : (s : State V) → (t.before s).sent ≡ s.sent
    pub served : List Call
    pub served_made : All (Made outside) served
    pub keeps_items : (s : State V) → (t.before s).items ≡ serve served s.items
    pub before_request_made : All (Made outside) t.meanwhile.before_request
    pub before_info_made : All (Made outside) t.meanwhile.before_info

  -- The worker that takes these turns from `s` on comes to a turn whose event gives a reason for the
  -- update, in the very state in which this turn begins; the program reaches the map of this state.
  pub data HasReason : List (Turn V) → State V → Sent → Type 0 where
    in_turn :
        {t : Turn V} {ts : List (Turn V)} {s : State V} {u : Sent} (e : Event)
        → t.item ≡ some (event e)
        → Reached outside (t.before s).items
        → Reasoned env settings e t.meanwhile (t.before s) u
        → HasReason (t ∷ ts) s u
    later :
        {t : Turn V} {ts : List (Turn V)} {s : State V} {u : Sent}
        → (take_turn env settings t s).goes_on ≡ true
        → HasReason ts (take_turn env settings t s).state u
        → HasReason (t ∷ ts) s u

  -- An update that the event of the item gives a reason for, in that state.
  abbrev FromItem : Option Item → Meanwhile → State V → Sent → Type 0
  FromItem i m s u =
      (e : Event) × (i ≡ some (event e)) × Reached outside s.items × Reasoned env settings e m s u

  handled-Reaches :
      (t : Turn V) (e : Event)
      → IsTurn t
      → (s : State V) → Reached outside s.items
      → Reached outside (sync_handler env settings e t.meanwhile s).1.items
  handled-Reaches t e turn s r =
      sync_handler-Reaches outside env within settings e t.meanwhile same_parse
        turn.before_request_made turn.before_info_made s r

  handled-Grown :
      (t : Turn V) (e : Event) (s : State V)
      → Reached outside s.items
      → Grown
          (FromItem (some (event e)) t.meanwhile s)
          s.sent
          (sync_handler env settings e t.meanwhile s).1.sent
  handled-Grown t e s r =
      Grown-weaken (λ u reason. (e, refl, r, reason))
        (handler_sends env settings e t.meanwhile (RetriesWithin-Retries outside env within) s)

  after_handler-state :
      (m : Meanwhile) (r : Handled × State V) → (after_handler env settings m r).state ≡ r.1
  after_handler-state m (synced, s) = refl
  after_handler-state m (errored, s) = refl
  after_handler-state m (ends_process, s) = refl

  -- What holds of the state after an item, for a worker that had sent `old` before it.
  abbrev Goes : Option Item → Meanwhile → State V → State V → Type 0
  Goes i m s s' = Reached outside s'.items × Grown (FromItem i m s) s.sent s'.sent

  item-Goes :
      (t : Turn V) (i : Option Item)
      → IsTurn t
      → (s : State V) → Reached outside s.items
      → Goes i t.meanwhile s (process_next_work_item env settings t.meanwhile i s).state
  unfolding process_next_work_item
  item-Goes t none turn s r = (r, same)
  item-Goes t (some invalid) turn s r = (r, same)
  item-Goes t (some (event e)) turn s r =
      subst (Goes (some (event e)) t.meanwhile s)
        (sym (after_handler-state t.meanwhile (sync_handler env settings e t.meanwhile s)))
        (handled-Reaches t e turn s r, handled-Grown t e s r)

  turn-Goes :
      (t : Turn V) (ts : List (Turn V))
      → IsTurn t
      → (s : State V) → Reached outside s.items
      → Reached outside (take_turn env settings t s).state.items
        × Grown (HasReason (t ∷ ts) s) s.sent (take_turn env settings t s).state.sent
  unfolding take_turn
  turn-Goes t ts turn s r =
      let (r', g) =
        item-Goes t t.item turn (t.before s)
          (rw (turn.keeps_items s) (serve-Reached outside turn.served turn.served_made r)) in
      (
        r',
        subst (λ old. Grown (HasReason (t ∷ ts) s) old (take_turn env settings t s).state.sent)
            (turn.keeps_sent s)
            (Grown-weaken (λ u (e, i, started, reason). in_turn e i started reason) g),
      )

-- A worker, from any state whose map of queues the program reaches, through any number of rounds,
-- keeps to maps that the program reaches, and each update that it sends to the API server has its
-- reason, as `handler_sends` tells it, in a round of this very run: for the event that the work queue
-- gave the worker in that round, with what happened beside it then, and in the state that the worker
-- had come to and that the round began in, whose map the program reaches. So what is proved of all maps
-- that are reached holds of each map on which a worker decides. Between and within the rounds the
-- other goroutines may change the caches and the API server in any way, and the map of queues by the
-- requests that the program makes. The conditions on the rest are that both sides use the same parser
-- of URLs, and the documented behaviour of RetryOnConflict.
pub run_worker-HasReason :
    {W V : Type 0} (outside : Outside W) (env : Env V) (settings : Settings)
    (within : RetriesWithin outside env) (same_parse : env.parse ≡ outside.parse)
    (turns : List (Turn V))
    → All (IsTurn outside env settings within same_parse) turns
    → (s : State V) → Reached outside s.items
    → Reached outside (run_worker env settings turns s).items
      × Grown
          (HasReason outside env settings within same_parse turns s)
          s.sent
          (run_worker env settings turns s).sent
unfolding run_worker
run_worker-HasReason outside env settings within same_parse [] h s r = (r, same)
run_worker-HasReason outside env settings within same_parse (t ∷ ts) (turn, h) s r =
    let (r', g) = turn-Goes outside env settings within same_parse t ts turn s r in
    elim (Bool-cases (take_turn env settings t s).goes_on) [
      | inr e ↦ rw e (r', g)
      | inl e ↦
          let (r'', g') =
            run_worker-HasReason outside env settings within same_parse ts h
              (take_turn env settings t s).state r' in
          rw e (r'', Grown-trans g (Grown-weaken (λ u reason. later e reason) g'))
    ]
