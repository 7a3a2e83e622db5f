-- ===== src/Queue/Poller/Tests.antt =====
-- Ticks of a poller, and instances of the theorems.
use k8s_worker_pod_autoscale.Base.{
  ◌≡◌, refl, true, [], ◌∷◌, Text, codes, text_eq, lookup, insert, delete, has_key,
}
use k8s_worker_pod_autoscale.Queue.Spec.{QueueSpec, Items, zero_spec}
use k8s_worker_pod_autoscale.Queue.Poller.{Threads, ends, tick, is_thread_required, poll_round}
use k8s_worker_pod_autoscale.Queue.Poller.Ticks.{
  starts, starts_of, ticks, orphan_never_started, required_iff_listed,
}
use k8s_worker_pod_autoscale.Base.{suc, ◌≤◌, false, inl}
use k8s_worker_pod_autoscale.Base.{pos, map, length}
use k8s_worker_pod_autoscale.Queue.Sync.{sync}
use k8s_worker_pod_autoscale.Queue.Sync.Keys.{messages_are, deletes, request_of}
use k8s_worker_pod_autoscale.Queue.Poller.Ending.{run_poll_thread, deleted_thread_ends}
use k8s_worker_pod_autoscale.Queue.Poller.Goroutines.{
  System, after_tick, begins, ticked, one_goroutine, relisted_runs_twice,
}

abbrev a : Text
a = codes "prod/a"

abbrev b : Text
b = codes "prod/b"

abbrev spec : QueueSpec
spec = record zero_spec { name = codes "jobs" }

abbrev queues : Items
queues = (a, spec) ∷ []

abbrev threads : Threads
threads = (b, true) ∷ []

-- The new queue gets a goroutine, and the one that is gone loses its entry.
tick_test : tick queues threads ≡ ((a, true) ∷ [], a ∷ [])
unfolding tick has_key insert delete text_eq
tick_test = refl

-- The goroutine of `a` ends while the queue is gone for a moment, and the queue comes back before
-- the next tick.
ends_early : poll_round a ((a, true) ∷ []) [] ≡ ends
unfolding poll_round lookup text_eq
ends_early = refl

orphan_never_started_example :
    (starts_of a (queues ∷ queues ∷ []) ((a, true) ∷ []) ≡ 0)
    × (has_key a (ticks (queues ∷ queues ∷ []) ((a, true) ∷ [])) ≡ true)
unfolding has_key text_eq
orphan_never_started_example =
    orphan_never_started a (queues ∷ queues ∷ []) ((a, true) ∷ []) refl (refl, (refl, tt))

required_iff_listed_example :
    is_thread_required b (tick queues (ticks (queues ∷ []) [])).0 ≡ has_key b queues
required_iff_listed_example = required_iff_listed b (queues ∷ []) queues

abbrev started : System
started = after_tick queues (record { threads = []; running = [] })

one_goroutine_example :
    (starts a (after_tick queues started).running ≤ 1)
    × (has_key a (after_tick queues started).threads ≡ false
        → starts a (after_tick queues started).running ≡ 0)
unfolding has_key text_eq
one_goroutine_example = one_goroutine a (ticked queues (ticked queues begins (inl refl)) (inl refl))

relisted_runs_twice_example :
    let after = after_tick queues (after_tick [] started) in
    (starts a after.running ≡ suc (starts a started.running))
    × (is_thread_required a after.threads ≡ true)
unfolding tick has_key insert delete text_eq
relisted_runs_twice_example = relisted_runs_twice a [] queues started refl refl refl

-- A poll before the deletion, and a late update of it afterwards; the poller still wants the thread.
deleted_thread_ends_example :
    let r = run_poll_thread a (
      ((a, true) ∷ [], queues)
      ∷ ((a, true) ∷ [], sync queues (map request_of (deletes a ∷ messages_are a (pos 3) ∷ [])))
      ∷ []) in
    (r.1 ≡ true) × (length r.0 ≤ 1)
deleted_thread_ends_example =
    deleted_thread_ends a (((a, true) ∷ [], queues) ∷ []) [] ((a, true) ∷ []) queues
      (messages_are a (pos 3) ∷ []) (refl, tt)
