-- ===== src/Queue/Poller/Goroutines.antt =====
-- The goroutines of a poller: the ticks start them, and each ends by itself in a later round.
use k8s_worker_pod_autoscale.Base.{
  ℕ, suc, ◌+◌, ◌≤◌, ◌≡◌, ◌⊎◌, true, false, List, [], ◌∷◌, ◌++◌, Text, if◌then◌else◌, has_key, arith,
}
use k8s_worker_pod_autoscale.Queue.Spec.{Items}
use k8s_worker_pod_autoscale.Queue.Poller.{Threads, is_thread_required, tick}
use k8s_worker_pod_autoscale.Queue.Poller.Ticks.{starts, tick_threads, tick-has_key}

-- The map of threads, and the key of each goroutine of `runPollThread` that has not ended.
pub record System : Type 0 where
  pub threads : Threads
  pub running : List Text

abbrev pub after_tick : Items → System → System
after_tick queues s =
    let (threads, started) = tick queues s.threads in
    record { threads = threads; running = started ++ s.running }

-- The systems that are reached if the queue of `k`, once it has an entry, is listed by each tick. A
-- goroutine may end at any time.
pub data IsSteady (k : Text) : System → Type 0 where
  begins : IsSteady k (record { threads = []; running = [] })
  ticked :
      {s : System} (queues : Items)
      → IsSteady k s
      → (has_key k queues ≡ true) ⊎ (has_key k s.threads ≡ false)
      → IsSteady k (after_tick queues s)
  ended :
      {threads : Threads} (before after : List Text) (key : Text)
      → IsSteady k (record { threads = threads; running = before ++ key ∷ after })
      → IsSteady k (record { threads = threads; running = before ++ after })

starts-append : (k : Text) (xs ys : List Text) → starts k (xs ++ ys) ≡ starts k xs + starts k ys
unfolding starts
starts-append k [] ys = omega arith
starts-append k (x ∷ xs) ys = ground (arith, starts-append k xs ys)

starts-cons : (k key : Text) (keys : List Text) → starts k keys ≤ starts k (key ∷ keys)
unfolding starts
starts-cons k key keys = ground arith

-- How many goroutines a key may have by its entry.
abbrev allowed : Text → Threads → ℕ
allowed k threads = if has_key k threads then 1 else 0

tick-allowed :
    (k : Text) (queues : Items) (s : System)
    → (has_key k queues ≡ true) ⊎ (has_key k s.threads ≡ false)
    → starts k s.running ≤ allowed k s.threads
    → starts k (after_tick queues s).running ≤ allowed k (after_tick queues s).threads
tick-allowed k queues s h few =
    let started = (tick_threads k queues s.threads).1 in
    let total = starts-append k (tick queues s.threads).1 s.running in
    let entry = tick-has_key k queues s.threads in ground (arith, started, total, entry)

IsSteady-allowed : (k : Text) {s : System} → IsSteady k s → starts k s.running ≤ allowed k s.threads
unfolding starts has_key
IsSteady-allowed k begins = omega arith
IsSteady-allowed k (ticked {s = s} queues before h) =
    tick-allowed k queues s h (IsSteady-allowed k before)
IsSteady-allowed k (ended {threads = threads} before after key run) =
    let few = IsSteady-allowed k run in
    let whole = starts-append k before (key ∷ after) in
    let rest = starts-append k before after in let less = starts-cons k key after in omega arith

-- As long as the queue of a key, once it has an entry, is listed by each tick of the poller, at most
-- one goroutine polls it, however often goroutines end and other queues come and go; and none does
-- if the key has no entry.
pub one_goroutine :
    (k : Text) {s : System}
    → IsSteady k s
    → (starts k s.running ≤ 1) × (has_key k s.threads ≡ false → starts k s.running ≡ 0)
one_goroutine k {s} steady =
    let few = IsSteady-allowed k steady in (ground (arith, few), λ h. ground (arith, few))

-- Where a tick does not list the queue of a key that has an entry, and the next one does, one more
-- goroutine is started for it, whether the earlier one has ended or still polls, and the key's
-- goroutines are all told to go on: so two of them poll the same queue from then on, if the earlier
-- one was in a poll all the time.
pub relisted_runs_twice :
    (k : Text) (without again : Items) (s : System)
    → has_key k s.threads ≡ true
    → has_key k without ≡ false
    → has_key k again ≡ true
    → let after = after_tick again (after_tick without s) in
      (starts k after.running ≡ suc (starts k s.running))
      × (is_thread_required k after.threads ≡ true)
unfolding is_thread_required
relisted_runs_twice k without again s entry gone back =
    let first = tick_threads k without s.threads in
    let second = tick_threads k again (tick without s.threads).0 in
    let none_left = tick-has_key k without s.threads in
    let total = starts-append k (tick without s.threads).1 s.running in
    let whole =
      starts-append k (tick again (tick without s.threads).0).1
        ((tick without s.threads).1 ++ s.running) in
    (ground (arith, first.1, second.1, none_left, total, whole), ground (arith, first.0, second.0))
