-- ===== src/Queue/Sqs/Cache.antt =====
-- pkg/queue/sqs.go: the two metrics of CloudWatch are cached for a minute. Times are integers of
-- nanoseconds, with no wrap of an int64.
use k8s_worker_pod_autoscale.Base.{
  ◌≡◌, Option, none, some, Text, text_eq_refl, if◌then◌else◌, ℤ, pos, ◌+ℤ◌, ◌-ℤ◌, ◌<ℤ◌, ◌≤ℤ◌, ltb_ℤ,
  Dict, lookup, insert, lookup-insert, arith,
}
use k8s_worker_pod_autoscale.Base.Float.{Float64}
use k8s_worker_pod_autoscale.Queue.Sqs.{Reply, ok, err, panics}

-- cacheSentMessages with cacheSentMessageslastTimestamp, or the same of the received messages.
pub record Cache : Type 0 where
  pub values : Dict Float64
  pub last_timestamps : Dict ℤ

abbrev pub validity : ℤ
validity = pos 60_000_000_000

abbrev pub seventy_seconds : ℤ
seventy_seconds = pos 70_000_000_000

-- `before` is the time that is read if there is no timestamp, `now` the time that is read next.
abbrev pub last_timestamp : Option ℤ → (before : ℤ) → ℤ
last_timestamp none before = before -ℤ seventy_seconds
last_timestamp (some t) before = t

-- The cached value, if it is still valid.
unfoldable pub hit : Cache → Text → (before now : ℤ) → Option Float64
hit c queue_uri before now =
    if ltb_ℤ now (last_timestamp (lookup queue_uri c.last_timestamps) before +ℤ validity)
    then lookup queue_uri c.values
    else none

unfoldable pub store : Cache → Text → Float64 → (now : ℤ) → Cache
store c queue_uri value now = record {
  values = insert queue_uri value c.values;
  last_timestamps = insert queue_uri now c.last_timestamps;
}

abbrev pub stored : Cache → Text → (now : ℤ) → Reply Float64 → Reply Float64 × Cache
stored c queue_uri now (ok value) = (ok value, store c queue_uri value now)
stored c queue_uri now (err e) = (err e, c)
stored c queue_uri now panics = (panics, c)

abbrev pub or_fetch :
    Option Float64 → Cache → Text → (now : ℤ) → Reply Float64 → Reply Float64 × Cache
or_fetch (some value) c queue_uri now fetched = (ok value, c)
or_fetch none c queue_uri now fetched = stored c queue_uri now fetched

-- cachedNumberOfSentMessages and cachedNumberOfReceiveMessages; `fetched` is what the query for the
-- metric comes to, if it is made.
unfoldable pub cached_number :
    Cache → Text → (before now : ℤ) → Reply Float64 → Reply Float64 × Cache
unfolding hit
cached_number c queue_uri before now fetched =
    or_fetch (hit c queue_uri before now) c queue_uri now fetched

store-last :
    (c : Cache) (uri : Text) (v : Float64) (now : ℤ)
    → lookup uri (store c uri v now).last_timestamps ≡ some now
unfolding store
store-last c uri v now = rw (lookup-insert uri uri now c.last_timestamps, text_eq_refl uri)

store-value :
    (c : Cache) (uri : Text) (v : Float64) (now : ℤ)
    → lookup uri (store c uri v now).values ≡ some v
unfolding store
store-value c uri v now = rw (lookup-insert uri uri v c.values, text_eq_refl uri)

-- What is stored is hit for less than a minute, and not from then on.
pub hit-store :
    (c : Cache) (uri : Text) (v : Float64) (fetched_at before now : ℤ)
    → hit (store c uri v fetched_at) uri before now
      ≡ (if ltb_ℤ now (fetched_at +ℤ validity) then some v else none)
unfolding hit
hit-store c uri v fetched_at before now =
    rw (store-last c uri v fetched_at, store-value c uri v fetched_at)

-- A number that was fetched at the time `fetched_at` is returned without a query, and the cache left
-- alone, for less than a minute; from a minute on the next query is made, and what it brings is
-- returned.
cached_for_a_minute :
    (c : Cache) (uri : Text) (v : Float64) (fetched_at before now : ℤ) (fetched : Reply Float64)
    → let kept = store c uri v fetched_at in
      (now <ℤ fetched_at +ℤ validity → cached_number kept uri before now fetched ≡ (ok v, kept))
      × (fetched_at +ℤ validity ≤ℤ now → (cached_number kept uri before now fetched).0 ≡ fetched)
unfolding cached_number
cached_for_a_minute c uri v fetched_at before now fetched = (
  λ young. rw (hit-store c uri v fetched_at before now) (ground arith),
  λ old. rw (hit-store c uri v fetched_at before now) (ground arith),
)
