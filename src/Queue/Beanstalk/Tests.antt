-- ===== src/Queue/Beanstalk/Tests.antt =====
-- A poll of beanstalkd against a server that is written out, and instances of the theorems.
use k8s_worker_pod_autoscale.Base.{
  ℕ, suc, zero, ◌≡◌, refl, Bool, true, false, some, [], ◌∷◌, Text, codes, text_eq, pos, minus_one,
  ◌+ℤ◌, wrap32, Dict, lookup, insert, base, split, parse_int32, decimal,
}
use k8s_worker_pod_autoscale.Queue.Spec.{QueueSpec, zero_spec}
use k8s_worker_pod_autoscale.Queue.Sync.Keys.{messages_are, idle_workers_are}
use k8s_worker_pod_autoscale.Queue.Service.{calls, sleeps}
use k8s_worker_pod_autoscale.Queue.Beanstalk.{
  eof, other_cause, conn_error, bare, made, Reply, ok, err, Net, parse_beanstalk_queue_uri,
  must_parse_int, must_parse_uint,
}
use k8s_worker_pod_autoscale.Queue.Beanstalk.Methods.{
  get_beanstalk_conn, reestablish_conn, parse_stats, execute_get_stats, retry, get_stats,
  do_long_poll, long_poll_receive_message,
}
use k8s_worker_pod_autoscale.Queue.Beanstalk.Poll.{
  Beanstalk, State, Polled, get_client, get_messages, get_idle_workers, long_poll, reestablish,
  poll_counted, poll,
}
use k8s_worker_pod_autoscale.Queue.Beanstalk.Connection.{failed_reconnect_crashes_next_poll}
use k8s_worker_pod_autoscale.Base.{All}
use k8s_worker_pod_autoscale.Queue.Beanstalk.Idle.{IdleReason, beanstalk_idle_only_if_quiet}

-- The world counts the dials that still succeed.
abbrev dial_down : ℕ → Reply Bool × ℕ
dial_down zero = (err (bare other_cause), zero)
dial_down (suc n) = (ok true, n)

-- A server whose tube has these statistics, and job 7 ready.
abbrev server : Reply (Dict Text) → Net ℕ
server stats = record {
  parse = λ uri.
      some (record {
        scheme = codes "beanstalk";
        host = codes "bs";
        hostname = codes "bs";
        port = [];
      });
  dial = λ host port w. dial_down w;
  tube_stats = λ tube w. (stats, w);
  put = λ tube job w. (ok 7, w);
  tube_set_nil = false;
  reserve = λ tube timeout w. (ok 7, w);
  stats_job = λ id w. (ok ((codes "pri", codes "3") ∷ []), w);
  release = λ id pri w. w;
}

abbrev uri : Text
uri = codes "beanstalk://bs/jobs"

abbrev key : Text
key = codes "prod/worker"

abbrev spec : QueueSpec
spec = record zero_spec { name = codes "jobs"; uri = uri; workers = pos 3; messages = pos 1 }

abbrev config : Beanstalk
config = record { short_poll_interval = pos 20; long_poll_interval = pos 20 }

abbrev numbers : Text → Reply (Dict Text)
numbers ready = ok (
    (codes "current-jobs-ready", ready)
    ∷ (codes "current-waiting", codes "3")
    ∷ (codes "current-jobs-reserved", codes "0")
    ∷ [])

run : Reply (Dict Text) → QueueSpec → State ℕ → Polled ℕ
unfolding poll poll_counted get_messages get_idle_workers long_poll reestablish get_client
    get_beanstalk_conn parse_beanstalk_queue_uri reestablish_conn execute_get_stats parse_stats
    retry get_stats do_long_poll long_poll_receive_message must_parse_int must_parse_uint lookup
    insert text_eq base split parse_int32 decimal wrap32 ◌+ℤ◌
run stats q s = poll (server stats) config key q s

abbrev start : ℕ → State ℕ
start dials = record { world = dials; client_pool = [] }

quiet_poll :
    (run (numbers (codes "0")) spec (start 1)).actions
    ≡ calls (messages_are key (pos 0)) ∷ calls (idle_workers_are key (pos 3)) ∷ sleeps (pos 20) ∷ []
unfolding run
quiet_poll = refl

busy_poll :
    (run (numbers (codes "4")) spec (start 1)).actions
    ≡ calls (messages_are key (pos 4))
      ∷ calls (idle_workers_are key minus_one)
      ∷ sleeps (pos 20)
      ∷ []
unfolding run
busy_poll = refl

long_poll_test :
    (run
      (numbers (codes "0"))
      (record spec { workers = pos 0; messages = pos 0 })
      (start 1)).actions
    ≡ calls (messages_are key (pos 1)) ∷ calls (idle_workers_are key (pos 0)) ∷ []
unfolding run
long_poll_test = refl

-- The connection is lost and the server is gone: this poll does nothing, the next one crashes.
abbrev after_loss : Polled ℕ
after_loss = run (err (conn_error eof)) spec (start 1)

crash_test :
    (after_loss.crashed ≡ false)
    × ((run (numbers (codes "0")) spec after_loss.state).crashed ≡ true)
unfolding run
crash_test = (refl, refl)

failed_reconnect_crashes_next_poll_example :
    let s : State ℕ = record { world = 0; client_pool = (uri, true) ∷ [] } in
    let net = server (numbers (codes "0")) in
    let next = poll net config key spec (reestablish net uri s).1 in
    (next.crashed ≡ true) × (next.actions ≡ [])
unfolding lookup text_eq get_beanstalk_conn parse_beanstalk_queue_uri
failed_reconnect_crashes_next_poll_example =
    failed_reconnect_crashes_next_poll (server (numbers (codes "0"))) config key spec
      (record { world = 0; client_pool = (uri, true) ∷ [] }) {connected = true} {e = made} refl refl
      refl

abbrev ready : State ℕ
ready = record { world = 2; client_pool = [] }

beanstalk_idle_only_if_quiet_example :
    All
      (IdleReason (server (numbers (codes "0"))) config key spec ready)
      (poll (server (numbers (codes "0"))) config key spec ready).actions
beanstalk_idle_only_if_quiet_example =
    beanstalk_idle_only_if_quiet (server (numbers (codes "0"))) config key spec ready
