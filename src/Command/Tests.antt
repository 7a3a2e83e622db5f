-- ===== src/Command/Tests.antt =====
-- `run` on small flags, and instances of the theorems.
use k8s_worker_pod_autoscale.Base.{
  ◌≡◌, ◌++◌, refl, ap, ℕ, inl, inr, Bool, true, List, [], ◌∷◌, Text, codes, text_eq, split,
  trim_space, space_before, space_behind, pos, negsuc, wrap64, returns, fatal, arith,
}
use k8s_worker_pod_autoscale.Base.Float.{feq}
use k8s_worker_pod_autoscale.Queue.Spec.{QueueSpec, zero_spec}
use k8s_worker_pod_autoscale.Queue
use k8s_worker_pod_autoscale.Queue.Uri.{get_region}
use k8s_worker_pod_autoscale.Queue.Sqs.{Aws, Sqs, panics}
use k8s_worker_pod_autoscale.Queue.Sqs.Poll.{Clock, Caches, poll}
use k8s_worker_pod_autoscale.Command.{
  Config, parse_regions, seconds_duration, has_sessions, new_sqs, new_beanstalk, provider,
  make_services, queuing_services, QueuingService, sqs_service, beanstalk_service,
}
use k8s_worker_pod_autoscale.Command.Regions.{Written, IsRegion, regions_read}
use k8s_worker_pod_autoscale.Command.Clients.{unlisted_region_crashes}

-- The default of the flag.
default_regions :
    parse_regions (codes "ap-south-1,ap-southeast-1")
    ≡ codes "ap-south-1" ∷ codes "ap-southeast-1" ∷ []
unfolding parse_regions split trim_space space_before space_behind
default_regions = refl

-- An ideographic space and a tab are white space.
wide_space : trim_space (0xe3 ∷ 0x80 ∷ 0x80 ∷ codes "a b" ++ 9 ∷ []) ≡ codes "a b"
unfolding trim_space space_before space_behind
wide_space = refl

seconds_tests :
    (seconds_duration (pos 20) ≡ pos 20_000_000_000)
    × (seconds_duration (negsuc 0) ≡ negsuc 999_999_999)
unfolding seconds_duration wrap64
seconds_tests = (refl, refl)

abbrev south : Written
south = record { before = 1; name = codes "ap-south-1"; behind = 0 }

abbrev east : Written
east = record { before = 0; name = codes "us-east-1"; behind = 2 }

south-IsRegion : IsRegion south
unfolding space_before space_behind
south-IsRegion = (
  omega arith,
  record { first = b'a'; more = codes "p-south-1"; nonempty = refl; begins = refl; ends = refl },
)

east-IsRegion : IsRegion east
unfolding space_before space_behind
east-IsRegion = (
  omega arith,
  record { first = b'u'; more = codes "s-east-1"; nonempty = refl; begins = refl; ends = refl },
)

regions_read_example :
    parse_regions (codes " ap-south-1,us-east-1  ") ≡ codes "ap-south-1" ∷ codes "us-east-1" ∷ []
regions_read_example = regions_read south (east ∷ []) (south-IsRegion, (east-IsRegion, tt))

abbrev config : Config
config = record {
  aws_regions = codes " ap-south-1,us-east-1  ";
  queue_services = codes "beanstalkd, sqs";
  sqs_short_poll_interval = pos 20;
  sqs_long_poll_interval = pos 20;
  beanstalk_short_poll_interval = pos 20;
  beanstalk_long_poll_interval = pos 20;
}

abbrev every_session : Text → Bool
every_session region = true

abbrev sqs : Sqs
sqs = record {
  regions = codes "ap-south-1" ∷ codes "us-east-1" ∷ [];
  short_poll_interval = pos 20_000_000_000;
  long_poll_interval = pos 20;
}

abbrev services : List QueuingService
services =
    beanstalk_service
      (record { short_poll_interval = pos 20_000_000_000; long_poll_interval = pos 20 })
    ∷ sqs_service sqs
    ∷ []

started : queuing_services every_session config ≡ returns services
unfolding queuing_services make_services provider new_sqs new_beanstalk has_sessions parse_regions
    seconds_duration wrap64 split trim_space text_eq space_before space_behind
started = refl

-- A trailing comma is an empty name.
unsupported :
    queuing_services every_session (record config { queue_services = codes "sqs," }) ≡ fatal
unfolding queuing_services make_services provider new_sqs new_beanstalk has_sessions parse_regions
    seconds_duration wrap64 split trim_space text_eq space_before space_behind
unsupported = refl

-- AWS answers whatever it is asked.
abbrev aws : Aws
aws = record {
  receive_message = λ region queue_uri wait. Queue.Sqs.Reply.ok 1;
  get_queue_attributes =
      λ region queue_uri attribute. Queue.Sqs.Reply.ok ((attribute, codes "0") ∷ []);
  get_metric_data = λ region metric queue start end. Queue.Sqs.Reply.ok ([] ∷ []);
}

abbrev clock : Clock
clock = record {
  sent_before = pos 0;
  sent_now = pos 0;
  sent_query = pos 0;
  received_before = pos 0;
  received_now = pos 0;
  received_query = pos 0;
}

abbrev caches : Caches
caches = record {
  sent = record { values = []; last_timestamps = [] };
  received = record { values = []; last_timestamps = [] };
}

-- A queue in eu-west-1.
abbrev spec : QueueSpec
spec = record zero_spec {
  name = codes "jobs";
  uri = codes "https://sqs.eu-west-1.amazonaws.com/123/jobs";
  workers = pos 1;
}

abbrev first : Text → ℕ
first [] = 0
first (c ∷ s) = c

unlisted_region_crashes_example :
    (poll aws sqs clock (codes "prod/worker") spec caches).panicked ≡ true
unfolding get_region split feq
unlisted_region_crashes_example =
    unlisted_region_crashes every_session config south (east ∷ [])
      (south-IsRegion, (east-IsRegion, tt)) refl sqs started (inr (inl refl)) aws clock
      (codes "prod/worker") spec caches {region = codes "eu-west-1"} refl
      (λ h. elim h [
        | inl e ↦ absurd (omega (arith, ap first e))
        | inr h' ↦ elim h' [ inl e ↦ absurd (omega (arith, ap first e)) | inr n ↦ absurd n ]
      ])
      refl
