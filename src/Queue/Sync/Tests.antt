-- ===== src/Queue/Sync/Tests.antt =====
-- The map of queues on small inputs, and instances of the theorems.
use k8s_worker_pod_autoscale.Base.{
  ◌≡◌, refl, true, false, none, some, [], ◌∷◌, map, Text, codes, pos, lookup, text_eq, split,
  last_or,
}
use k8s_worker_pod_autoscale.Base.Float.{zero_float}
use k8s_worker_pod_autoscale.Queue.Spec.{QueueSpec, Items, zero_spec}
use k8s_worker_pod_autoscale.Queue.Uri.{
  UrlParser, parse_queue_uri, get_queue_name, get_key, is_sqs_host, get_queue_service_name,
  after_match, skip_lower, get_region,
}
use k8s_worker_pod_autoscale.Queue.Sync.{
  Request, sends, add, sync, sync_round, get_queue_info, update_message,
}
use k8s_worker_pod_autoscale.Queue.Sync.Keys.{
  messages_are, deletes, request_of, key_run, key_step, sync_keys, deleted_stays_deleted,
}
use k8s_worker_pod_autoscale.Queue.Sync.Adding.{IsSupported, added_info, add_then_info}

-- A parser that knows two URIs.
abbrev uri : Text
uri = codes "https://sqs.ap-south-1.amazonaws.com/123/jobs"

abbrev key : Text
key = codes "prod/worker"

abbrev host : Text
host = codes "sqs.ap-south-1.amazonaws.com"

abbrev parse : UrlParser
parse u = some (record { scheme = codes "https"; host = host; hostname = host; port = [] })

abbrev old_spec : QueueSpec
old_spec = record zero_spec { name = codes "jobs"; messages = pos 7 }

abbrev items : Items
items = (key, old_spec) ∷ []

host_test :
    (is_sqs_host host ≡ true)
    × (is_sqs_host (codes "sqs.ap-south-12.amazonaws.com") ≡ false)
    × (is_sqs_host (codes "sqsXap-south-1Yamazonaws.com.example.org") ≡ true)
    × (is_sqs_host (codes "queue.amazonaws.com") ≡ false)
unfolding is_sqs_host after_match skip_lower
host_test = (refl, refl, refl, refl)

name_test : (get_queue_name uri ≡ codes "jobs") × (get_queue_name (codes "a/b/") ≡ [])
unfolding get_queue_name split last_or
name_test = (refl, refl)

region_test : get_region uri ≡ some (codes "ap-south-1")
unfolding get_region split
region_test = refl

sync_keys_example :
    lookup key (sync items (map request_of (messages_are key (pos 3) ∷ deletes (codes "x/y") ∷ [])))
    ≡ some (record old_spec { messages = pos 3 })
unfolding key_run key_step lookup text_eq
sync_keys_example = sync_keys key (messages_are key (pos 3) ∷ deletes (codes "x/y") ∷ []) items

deleted_stays_deleted_example :
    lookup key (sync items (map request_of (deletes key ∷ messages_are key (pos 3) ∷ []))) ≡ none
deleted_stays_deleted_example =
    deleted_stays_deleted key (messages_are key (pos 3) ∷ []) items (refl, tt)

supported : IsSupported parse uri (codes "https") host (codes "sqs")
unfolding parse_queue_uri get_queue_service_name is_sqs_host after_match skip_lower
supported = record { present = λ e. cc; parsed = refl; served = refl }

-- A poller's count of 9 arrives between the two steps of `Add`, and the old count of 7 comes back.
add_then_info_example :
    (r : Request) × (add parse items (codes "prod") (codes "worker") uri (pos 2) zero_float
      ≡ sends r)
    × (get_queue_info
          (codes "prod")
          (codes "worker")
          (sync_round (sync_round items (update_message key (pos 9))) r)
        ≡ added_info uri (get_queue_info (codes "prod") (codes "worker") items))
unfolding get_queue_name split last_or
add_then_info_example =
    add_then_info parse items (sync_round items (update_message key (pos 9))) (codes "prod")
      (codes "worker") uri (pos 2) zero_float supported refl

old_count :
    added_info uri (get_queue_info (codes "prod") (codes "worker") items)
    ≡ (codes "jobs", pos 7, zero_float, pos 0)
unfolding added_info get_queue_info get_key lookup text_eq get_queue_name split last_or
old_count = refl
