-- ===== src/Queue/Sqs.antt =====
-- pkg/queue/sqs.go: polling a queue of AWS SQS.
pub mod Cache
pub mod Clientless
pub mod Poll
pub mod Allowed
pub mod Idle
pub mod LongPoll
pub mod Tests
use k8s_worker_pod_autoscale.Base.{
  ℕ, ◌*◌, ◌≡◌, Bool, true, false, Option, none, some, List, [], ◌∷◌, Text, codes, text_eq, base,
  parse_int32, if◌then◌else◌, ℤ, pos, negsuc, ◌+ℤ◌, ◌-ℤ◌, ltb_ℤ, wrap32, Dict, lookup, insert,
  length, is_some,
}
use k8s_worker_pod_autoscale.Base.Float.{Float64, zero_float, of_int, add, div}
use k8s_worker_pod_autoscale.Queue.Uri.{get_region}

-- An error of the SDK, with its code if it is an `awserr.Error`.
pub record AwsError : Type 0 where
  pub code : Option Text

-- What a call comes to: a value, an error, or a panic of the process.
pub data Reply {ℓ} (A : Type ℓ) : Type ℓ where
  ok : A → Reply A
  err : AwsError → Reply A
  panics : Reply A

infixl 5 ◌>>=◌
abbrev pub ◌>>=◌ {ℓ κ} : {A : Type ℓ} {B : Type κ} → Reply A → (A → Reply B) → Reply B
ok a >>= f = f a
err e >>= f = err e
panics >>= f = panics

-- fmt.Errorf and the errors of strconv carry no code.
abbrev pub plain_error : AwsError
plain_error = record { code = none }

-- The answers of AWS to the calls of the SDK: how many messages a ReceiveMessage brings, the
-- attributes of a queue, and the values of each result of a query for a metric.
pub record Aws : Type 0 where
  pub receive_message : (region uri : Text) → (wait_time_seconds : ℤ) → Reply ℕ
  pub get_queue_attributes : (region uri attribute : Text) → Reply (Dict Text)
  pub get_metric_data :
      (region metric queue : Text) → (start_time end_time : ℤ) → Reply (List (List Float64))

-- The regions that have a client, and the intervals of `SQS`.
pub record Sqs : Type 0 where
  pub regions : List Text
  pub short_poll_interval : ℤ
  pub long_poll_interval : ℤ

unfoldable pub has_client : Text → List Text → Bool
has_client region [] = false
has_client region (r ∷ rs) = if text_eq r region then true else has_client region rs

-- `s.sqsClientPool[getRegion(queueURI)]`: without a client it is nil, and its methods panic.
unfoldable pub get_sqs_client : Sqs → Text → Reply Text
get_sqs_client s queue_uri = elim (get_region queue_uri) [
  | none ↦ panics
  | some region ↦ if has_client region s.regions then ok region else panics
]

unfoldable pub get_cw_client : Sqs → Text → Reply Text
get_cw_client s queue_uri = elim (get_region queue_uri) [
  | none ↦ panics
  | some region ↦ if has_client region s.regions then ok region else err plain_error
]

module _ (aws : Aws) (s : Sqs) where
  unfoldable pub long_poll_receive_message : Text → Reply ℤ
  unfolding get_sqs_client
  long_poll_receive_message queue_uri = do
    region ← get_sqs_client s queue_uri
    messages ← aws.receive_message region queue_uri s.long_poll_interval
    ok (wrap32 (pos messages))

  -- The text of the attribute as an int32.
  abbrev pub int32_attribute : Option Text → Reply ℤ
  int32_attribute none = err plain_error
  int32_attribute (some messages) = elim (parse_int32 messages) [
    | none ↦ err plain_error
    | some n ↦ ok n
  ]

  get_attribute : Text → Text → Reply ℤ
  unfolding get_sqs_client
  get_attribute attribute queue_uri = do
    region ← get_sqs_client s queue_uri
    attributes ← aws.get_queue_attributes region queue_uri attribute
    int32_attribute (lookup attribute attributes)

  unfoldable pub get_approx_messages : Text → Reply ℤ
  unfolding get_attribute
  get_approx_messages = get_attribute (codes "ApproximateNumberOfMessages")

  unfoldable pub get_approx_messages_not_visible : Text → Reply ℤ
  unfolding get_attribute
  get_approx_messages_not_visible = get_attribute (codes "ApproximateNumberOfMessagesNotVisible")

-- for i := 0; i < len(values); i++ { sum += *values[i] }
unfoldable pub sum_from : Float64 → List Float64 → Float64
sum_from sum [] = sum
sum_from sum (x ∷ xs) = sum_from (add sum x) xs

-- The values of the only result: two results are an error, none is an index out of range.
abbrev pub single_result : List (List Float64) → Reply (List Float64)
single_result [] = panics
single_result (values ∷ []) = ok values
single_result (values ∷ other ∷ more) = err plain_error

abbrev pub minutes : ℕ → ℤ
minutes n = pos (n * 60_000_000_000)

module _ (aws : Aws) (s : Sqs) where
  -- `time.Now()` is `now`.
  unfoldable pub get_number_of_messages_received : (now : ℤ) → Text → Reply Float64
  unfolding get_cw_client
  get_number_of_messages_received now queue_uri = do
    region ← get_cw_client s queue_uri
    results ←
        aws.get_metric_data region (codes "NumberOfMessagesReceived") (base queue_uri)
          (now -ℤ minutes 20) (now -ℤ minutes 10)
    values ← single_result results
    ok (sum_from zero_float values)

  abbrev average : List Float64 → Float64
  average [] = zero_float
  average (x ∷ xs) = div (sum_from zero_float (x ∷ xs)) (of_int (pos (length (x ∷ xs))))

  unfoldable pub get_average_number_of_messages_sent : (now : ℤ) → Text → Reply Float64
  unfolding get_cw_client
  get_average_number_of_messages_sent now queue_uri = do
    region ← get_cw_client s queue_uri
    results ←
        aws.get_metric_data region (codes "NumberOfMessagesSent") (base queue_uri)
          (now -ℤ minutes 10) (now -ℤ minutes 5)
    values ← single_result results
    ok (average values)
