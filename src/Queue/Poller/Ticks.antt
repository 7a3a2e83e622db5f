-- ===== src/Queue/Poller/Ticks.antt =====
-- What a tick makes of the threads.
use k8s_worker_pod_autoscale.Base.{
  ℕ, suc, ◌+◌, ◌&&◌, ◌≡◌, refl, sym, ◌∙◌, Bool, true, false, Option, none, some, List, [], ◌∷◌,
  Text, text_eq, text_eq_iff, if◌then◌else◌, not, insert, delete, has_key, has_key-lookup,
  lookup-insert, lookup-delete, lookup, arith,
}
use k8s_worker_pod_autoscale.Queue.Spec.{Items}
use k8s_worker_pod_autoscale.Queue.Poller.{
  Threads, update_threads, is_thread_required, start_threads, stop_threads, tick,
}

lookup-update_threads :
    (k key : Text) (b : Bool) (threads : Threads)
    → lookup k (update_threads key b threads)
      ≡ (if text_eq key k then (if b then some true else none) else lookup k threads)
unfolding update_threads
lookup-update_threads k key true threads = lookup-insert key k true threads
lookup-update_threads k key false threads = lookup-delete key k threads

-- The entry that was there, or a new one for a queue that has none.
abbrev pub or_started : Option Bool → Bool → Option Bool
or_started (some b) queued = some b
or_started none true = some true
or_started none false = none

lookup-start_threads :
    (k : Text) (queues : Items) (threads : Threads)
    → lookup k (start_threads queues threads).0 ≡ or_started (lookup k threads) (has_key k queues)
unfolding start_threads has_key
lookup-start_threads k [] threads = ground arith
lookup-start_threads k ((key, spec) ∷ queues) threads = ground (
  arith,
  text_eq_iff key k,
  has_key-lookup key threads,
  lookup-insert key k true threads,
  lookup-start_threads k queues threads,
  lookup-start_threads k queues (insert key true threads),
)

-- How often `go p.runPollThread(k)` was called.
unfoldable pub starts : Text → List Text → ℕ
starts k [] = 0
starts k (key ∷ keys) = let rest = starts k keys in if text_eq key k then suc rest else rest

starts-start_threads :
    (k : Text) (queues : Items) (threads : Threads)
    → starts k (start_threads queues threads).1
      ≡ (if has_key k queues && not (has_key k threads) then 1 else 0)
unfolding start_threads has_key starts
starts-start_threads k [] threads = refl
starts-start_threads k ((key, spec) ∷ queues) threads = ground (
  arith,
  text_eq_iff key k,
  has_key-lookup key threads,
  has_key-lookup k threads,
  has_key-lookup k (insert key true threads),
  lookup-insert key k true threads,
  starts-start_threads k queues threads,
  starts-start_threads k queues (insert key true threads),
)

lookup-stop_threads :
    (k : Text) (queues : Items) (listed threads : Threads)
    → lookup k (stop_threads queues listed threads)
      ≡ (if has_key k listed && not (has_key k queues) then none else lookup k threads)
unfolding stop_threads has_key
lookup-stop_threads k queues [] threads = refl
lookup-stop_threads k queues ((key, status) ∷ listed) threads = ground (
  arith,
  text_eq_iff key k,
  lookup-delete key k threads,
  lookup-stop_threads k queues listed threads,
  lookup-stop_threads k queues listed (delete key threads),
)

-- After a tick of a poller a key has an entry exactly if its queue was listed: an old entry is kept
-- as it was, a new one is true. The goroutine of a key is started once if the queue was listed and
-- the key had no entry, and it is not started otherwise.
pub tick_threads :
    (k : Text) (queues : Items) (threads : Threads)
    → let (after, started) = tick queues threads in
      (lookup k after ≡ (if has_key k queues then or_started (lookup k threads) true else none))
      × (starts k started ≡ (if has_key k queues && not (has_key k threads) then 1 else 0))
unfolding tick
tick_threads k queues threads = (
  ground (
    arith,
    lookup-stop_threads k queues (start_threads queues threads).0 (start_threads queues threads).0,
    lookup-start_threads k queues threads,
    has_key-lookup k (start_threads queues threads).0,
  ),
  starts-start_threads k queues threads,
)

-- The ticks of a poller, with the queues that each lists.
unfoldable pub ticks : List Items → Threads → Threads
ticks [] threads = threads
ticks (queues ∷ more) threads = ticks more (tick queues threads).0

-- How often the ticks start the goroutine of a key.
unfoldable pub starts_of : Text → List Items → Threads → ℕ
starts_of k [] threads = 0
starts_of k (queues ∷ more) threads =
    starts k (tick queues threads).1 + starts_of k more (tick queues threads).0

abbrev pub ListedInAll : Text → List Items → Type 0
ListedInAll k [] = Unit
ListedInAll k (queues ∷ more) = (has_key k queues ≡ true) × ListedInAll k more

pub tick-has_key :
    (k : Text) (queues : Items) (threads : Threads)
    → has_key k (tick queues threads).0 ≡ has_key k queues
tick-has_key k queues threads =
    ground (arith, (tick_threads k queues threads).0, has_key-lookup k (tick queues threads).0)

-- Once a key has an entry, the ticks start no goroutine for it as long as its queue is listed each
-- time. So where the goroutine has ended by itself and the entry was left, because the queue was
-- gone for a moment between two ticks, the queue is polled no more.
pub orphan_never_started :
    (k : Text) (listings : List Items) (threads : Threads)
    → has_key k threads ≡ true
    → ListedInAll k listings
    → (starts_of k listings threads ≡ 0) × (has_key k (ticks listings threads) ≡ true)
unfolding starts_of ticks
orphan_never_started k [] threads h l = (refl, h)
orphan_never_started k (queues ∷ more) threads h (l, ls) =
    let (none_started, kept) =
      orphan_never_started k more (tick queues threads).0 (tick-has_key k queues threads ∙ l) ls in
    let first : starts k (tick queues threads).1 ≡ 0 =
      ground (arith, (tick_threads k queues threads).1) in
    (omega arith, kept)

tick-required :
    (k : Text) (queues : Items) (threads : Threads)
    → is_thread_required k threads ≡ has_key k threads
    → is_thread_required k (tick queues threads).0 ≡ has_key k queues
unfolding is_thread_required
tick-required k queues threads h =
    ground (arith, (tick_threads k queues threads).0, has_key-lookup k threads)

-- A goroutine is told to go on exactly while its queue was listed by the last tick, from the start
-- on: `isThreadRequired` after a tick is whether the queue was listed, for a poller that began with
-- no threads and has made any ticks before.
pub required_iff_listed :
    (k : Text) (before : List Items) (queues : Items)
    → is_thread_required k (tick queues (ticks before [])).0 ≡ has_key k queues
unfolding ticks is_thread_required has_key lookup
required_iff_listed k before queues = tick-required k queues _ (start_true before [] refl)
  where
    start_true :
        (listings : List Items) (threads : Threads)
        → is_thread_required k threads ≡ has_key k threads
        → is_thread_required k (ticks listings threads) ≡ has_key k (ticks listings threads)
    start_true [] threads h = h
    start_true (queues ∷ more) threads h =
        start_true more (tick queues threads).0
          (tick-required k queues threads h ∙ sym (tick-has_key k queues threads))
