-- ===== src/Queue/Poller/Ending.antt =====
-- pkg/queue/poller.go: the loop of `runPollThread`, and when it ends.
use k8s_worker_pod_autoscale.Base.{
  ◌≡◌, refl, suc, ◌≤◌, Bool, true, false, Bool-cases, inl, inr, none, List, [], ◌∷◌, ◌++◌, map,
  length, Text, lookup, arith,
}
use k8s_worker_pod_autoscale.Queue.Spec.{QueueSpec, Items}
use k8s_worker_pod_autoscale.Queue.Sync.{list_queue, sync}
use k8s_worker_pod_autoscale.Queue.Sync.Keys.{
  Call, deletes, request_of, Never, adds_key, deleted_stays_deleted,
}
use k8s_worker_pod_autoscale.Queue.Poller.{
  Threads, is_thread_required, Round, ends, polls, poll_round,
}

-- What one round of the loop reads: the threads that its poller lists, and the map of queues.
abbrev pub Reading : Type 0
Reading = Threads × Items

-- The loop over what its rounds read, as far as that goes: the specifications that it polls, and
-- whether it has returned.
abbrev pub continue : Round → List QueueSpec × Bool → List QueueSpec × Bool
continue ends rest = ([], true)
continue (polls spec) rest = (spec ∷ rest.0, rest.1)

unfoldable pub run_poll_thread : Text → List Reading → List QueueSpec × Bool
unfolding poll_round
run_poll_thread key [] = ([], false)
run_poll_thread key ((threads, item) ∷ rest) =
    continue (poll_round key threads item) (run_poll_thread key rest)

-- A round that finds no queue ends the loop, whatever the poller wants.
poll_round-none :
    (key : Text) (threads : Threads) (item : Items)
    → lookup key item ≡ none
    → poll_round key threads item ≡ ends
unfolding poll_round list_queue
poll_round-none key threads item e = elim (Bool-cases (is_thread_required key threads)) [
  | inl r ↦ rw r (rw (e, list_queue) refl)
  | inr r ↦ rw r refl
]

continue-ends :
    (r : Round) (rest : List QueueSpec × Bool) (before : List Reading)
    → (rest.1 ≡ true) × (length rest.0 ≤ length before)
    → ((continue r rest).1 ≡ true) × (length (continue r rest).0 ≤ suc (length before))
continue-ends ends rest before h = (refl, omega arith)
continue-ends (polls spec) rest before (h, few) = (h, omega (arith, few))

-- The loop returns at the latest in the round that it would.
run-ends :
    (key : Text) (before : List Reading) (threads : Threads) (item : Items) (after : List Reading)
    → poll_round key threads item ≡ ends
    → ((run_poll_thread key (before ++ (threads, item) ∷ after)).1 ≡ true)
      × (length (run_poll_thread key (before ++ (threads, item) ∷ after)).0 ≤ length before)
unfolding run_poll_thread
run-ends key [] threads item after e = rw e (refl, omega arith)
run-ends key ((threads', item') ∷ before) threads item after e =
    continue-ends (poll_round key threads' item') _ before
      (run-ends key before threads item after e)

-- The goroutine of a deleted queue ends. Whatever its rounds read before, once a round reads the map
-- of queues after a deletion of its key, with any requests served since that do not add the key again,
-- the loop has returned and has polled at most once for each round before; so it polls the deleted
-- queue no more, whether its poller has noticed the deletion or not.
pub deleted_thread_ends :
    (key : Text) (before after : List Reading) (threads : Threads) (item : Items) (cs : List Call)
    → Never (adds_key key) cs
    → let r =
        run_poll_thread key
          (before ++ (threads, sync item (map request_of (deletes key ∷ cs))) ∷ after) in
      (r.1 ≡ true) × (length r.0 ≤ length before)
deleted_thread_ends key before after threads item cs never =
    run-ends key before threads _ after
      (poll_round-none key threads _ (deleted_stays_deleted key cs item never))
