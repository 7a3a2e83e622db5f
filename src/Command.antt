-- ===== src/Command.antt =====
-- cmd/workerpodautoscaler/run.go: what `run` makes of the flags for the queueing services, with
-- NewSQS and NewBeanstalk of pkg/queue. What viper says of the flags is a record.
pub mod Regions
pub mod Services
pub mod Clients
pub mod Flags
pub mod Run
pub mod Tests
use k8s_worker_pod_autoscale.Base.{
  ℕ, Bool, true, false, List, [], ◌∷◌, map, Text, codes, text_eq, split, trim_space, if◌then◌else◌,
  ℤ, pos, times, wrap64, Option, none, some, Outcome, returns, fatal, ◌>>=◌,
}
use k8s_worker_pod_autoscale.Queue.Uri.{sqs_queue_service, beanstalk_queue_service}
use k8s_worker_pod_autoscale.Queue.Sqs.{Sqs}
use k8s_worker_pod_autoscale.Queue.Beanstalk.Poll.{Beanstalk}

-- What the flags say.
pub record Config : Type 0 where
  pub aws_regions : Text
  pub queue_services : Text
  pub sqs_short_poll_interval : ℤ
  pub sqs_long_poll_interval : ℤ
  pub beanstalk_short_poll_interval : ℤ
  pub beanstalk_long_poll_interval : ℤ

abbrev pub comma : ℕ
comma = b','

unfoldable pub parse_regions : Text → List Text
parse_regions region_names = map trim_space (split comma region_names)

-- time.Second * time.Duration(n), in nanoseconds.
unfoldable pub seconds_duration : ℤ → ℤ
seconds_duration n = wrap64 (times 1_000_000_000 n)

-- session.NewSession makes a session for each region.
unfoldable pub has_sessions : (new_session : Text → Bool) → List Text → Bool
has_sessions new_session [] = true
has_sessions new_session (region ∷ regions) =
    let rest = has_sessions new_session regions in if new_session region then rest else false

-- `NewSQS`: an error if there is no session for a region. The two pools have the same regions.
unfoldable pub new_sqs :
    (new_session : Text → Bool)
    → (aws_regions : List Text) → (short_poll_interval long_poll_interval : ℤ) → Option Sqs
unfolding has_sessions
new_sqs new_session aws_regions short_poll_interval long_poll_interval =
    if has_sessions new_session aws_regions
    then some (record {
      regions = aws_regions;
      short_poll_interval = seconds_duration short_poll_interval;
      long_poll_interval = long_poll_interval;
    })
    else none

-- `NewBeanstalk`, which never fails.
unfoldable pub new_beanstalk : (short_poll_interval long_poll_interval : ℤ) → Beanstalk
new_beanstalk short_poll_interval long_poll_interval = record {
  short_poll_interval = seconds_duration short_poll_interval;
  long_poll_interval = long_poll_interval;
}

-- `queue.QueuingService`
pub data QueuingService : Type 0 where
  sqs_service : Sqs → QueuingService
  beanstalk_service : Beanstalk → QueuingService

-- klog.Fatalf on an error of `NewSQS`
abbrev pub sqs_or_fatal : Option Sqs → Outcome QueuingService
sqs_or_fatal none = fatal
sqs_or_fatal (some s) = returns (sqs_service s)

-- The switch over the name of a service.
unfoldable pub provider : (new_session : Text → Bool) → Config → Text → Outcome QueuingService
unfolding new_sqs new_beanstalk
provider new_session config q =
    if text_eq q sqs_queue_service
    then sqs_or_fatal (
        new_sqs new_session (parse_regions config.aws_regions) config.sqs_short_poll_interval
          config.sqs_long_poll_interval)
    else if text_eq q beanstalk_queue_service
    then returns (
        beanstalk_service
          (new_beanstalk config.beanstalk_short_poll_interval config.beanstalk_long_poll_interval))
    else fatal

-- The loop over the names.
unfoldable pub make_services :
    (new_session : Text → Bool) → Config → List Text → Outcome (List QueuingService)
make_services new_session config [] = returns []
make_services new_session config (q ∷ qs) = do
  service ← provider new_session config (trim_space q)
  services ← make_services new_session config qs
  returns (service ∷ services)

-- The services that `run` starts pollers for, or the end of the process.
unfoldable pub queuing_services :
    (new_session : Text → Bool) → Config → Outcome (List QueuingService)
unfolding make_services
queuing_services new_session config =
    make_services new_session config (split comma config.queue_services)
