-- ===== src/Queue/Sqs/Clientless.antt =====
-- A poll of a queue in whose region SQS has no client.
use k8s_worker_pod_autoscale.Base.{◌≡◌, refl, true, Bool-cases, inl, inr, Text}
use k8s_worker_pod_autoscale.Base.Float.{feq, zero_float}
use k8s_worker_pod_autoscale.Queue.Spec.{QueueSpec}
use k8s_worker_pod_autoscale.Queue.Sqs.{
  Aws, Sqs, panics, get_sqs_client, long_poll_receive_message, get_attribute, get_approx_messages,
}
use k8s_worker_pod_autoscale.Queue.Sqs.Poll.{
  Clock, Caches, long_polls, poll_long, poll_messages, poll_short, poll,
}

module _ (aws : Aws) (s : Sqs) (clock : Clock) (key : Text) (spec : QueueSpec) (caches : Caches)
    (clientless : get_sqs_client s spec.uri ≡ panics) where
  long_poll-panics : long_poll_receive_message aws s spec.uri ≡ panics
  unfolding long_poll_receive_message
  long_poll-panics = rw clientless refl

  approx_messages-panics : get_approx_messages aws s spec.uri ≡ panics
  unfolding get_approx_messages get_attribute
  approx_messages-panics = rw clientless refl

  poll_long-panics : (poll_long aws s clock key spec caches).panicked ≡ true
  unfolding poll_long
  poll_long-panics = rw (long_poll-panics, poll_long) refl

  poll_short-panics :
      feq spec.seconds_to_process_one_job zero_float ≡ true
      → (poll_short aws s clock key spec caches).panicked ≡ true
  unfolding poll_short poll_messages
  poll_short-panics untimed =
      rw (untimed, poll_short) (rw (approx_messages-panics, poll_messages) refl)

  -- It ends the process, whether it is a long poll or not.
  pub poll-panics :
      feq spec.seconds_to_process_one_job zero_float ≡ true
      → (poll aws s clock key spec caches).panicked ≡ true
  unfolding poll
  poll-panics untimed = elim (Bool-cases (long_polls spec)) [
    | inl e ↦ rw (e, poll) poll_long-panics
    | inr e ↦ rw (e, poll) (poll_short-panics untimed)
  ]
