-- ===== src/System/WellFormed.antt =====
-- Every queue that the map ever has is one that an autoscaler names, with its URI taken apart.
use k8s_worker_pod_autoscale.Base.{◌≡◌, refl, true, some, [], Text, ℤ, lookup}
use k8s_worker_pod_autoscale.Queue.Spec.{QueueSpec, Items}
use k8s_worker_pod_autoscale.Queue.Uri.{
  UrlParser, get_key, get_queue_name, parse_queue_uri, get_queue_service_name,
}
use k8s_worker_pod_autoscale.Queue.Sync.{queue_spec}
use k8s_worker_pod_autoscale.Queue.Sync.Keys.{
  Call, adds, messages_are, messages_sent_are, idle_workers_are, deletes, lists,
}
use k8s_worker_pod_autoscale.Base.Float.{Float64}
use k8s_worker_pod_autoscale.Queue.Service.{calls}
use k8s_worker_pod_autoscale.Queue.Isolation.{ActsOn}
use k8s_worker_pod_autoscale.Queue.Sqs.Idle.{sqs-ActsOn}
use k8s_worker_pod_autoscale.Queue.Beanstalk.Idle.{beanstalk-ActsOn}
use k8s_worker_pod_autoscale.System.{
  Outside, Reached, begins, serves, Made, by_list, by_delete, by_add, by_sqs, by_beanstalk,
}
use k8s_worker_pod_autoscale.System.Origins.{Does-All, IsAdded, add-IsAdded}
use k8s_worker_pod_autoscale.System.Holding.{HoldsIn, Keeps, sync_round-HoldsIn}

-- The key is that of an object in the queue's namespace, and the parts of the URI are the URI's.
pub record IsWellFormed (parse : UrlParser) (key : Text) (spec : QueueSpec) : Type 0 where
  pub name : Text
  pub keyed : key ≡ get_key spec.namespace name
  pub present : ¬ (spec.uri ≡ [])
  pub parsed : parse_queue_uri parse spec.uri ≡ some (spec.protocol, spec.host)
  pub served : get_queue_service_name spec.host spec.protocol ≡ (true, spec.queue_service_name)
  pub named : spec.name ≡ get_queue_name spec.uri

IsAdded-IsWellFormed :
    (parse : UrlParser) {listed : Items} (key : Text) (spec : QueueSpec)
    → IsAdded parse listed key spec
    → IsWellFormed parse key spec
unfolding queue_spec
IsAdded-IsWellFormed parse key spec a = rw a.specified (record {
  name = a.name;
  keyed = a.keyed;
  present = a.supported.present;
  parsed = a.supported.parsed;
  served = a.supported.served;
  named = refl;
})

-- The counts do not matter.
counts-IsWellFormed :
    (parse : UrlParser) (key : Text) (messages : ℤ) (sent : Float64) (idle : ℤ) (spec : QueueSpec)
    → IsWellFormed parse key spec
    → IsWellFormed parse key
        (record spec { messages = messages; messages_sent_per_minute = sent; idle_workers = idle })
counts-IsWellFormed parse key messages sent idle spec h = record {
  name = h.name;
  keyed = h.keyed;
  present = h.present;
  parsed = h.parsed;
  served = h.served;
  named = h.named;
}

update-Keeps :
    (parse : UrlParser) (key : Text) (c : Call)
    → ActsOn key (calls c)
    → Keeps (IsWellFormed parse) c
update-Keeps parse key (adds k spec) acts = absurd acts
update-Keeps parse key (messages_are k n) acts =
    λ spec h. counts-IsWellFormed parse k n spec.messages_sent_per_minute spec.idle_workers spec h
update-Keeps parse key (messages_sent_are k x) acts =
    λ spec h. counts-IsWellFormed parse k spec.messages x spec.idle_workers spec h
update-Keeps parse key (idle_workers_are k n) acts =
    λ spec h. counts-IsWellFormed parse k spec.messages spec.messages_sent_per_minute n spec h
update-Keeps parse key (deletes k) acts = tt
update-Keeps parse key lists acts = tt

module _ {W : Type 0} (outside : Outside W) where
  Made-Keeps : {c : Call} → Made outside c → Keeps (IsWellFormed outside.parse) c
  Made-Keeps by_list = tt
  Made-Keeps (by_delete namespace name) = tt
  Made-Keeps (by_add namespace name uri workers seconds {key} {spec} reached e) =
      IsAdded-IsWellFormed outside.parse key spec
        (add-IsAdded outside.parse _ namespace name workers seconds uri e)
  Made-Keeps (by_sqs threads key spec aws clock caches {c} reached e d) =
      update-Keeps outside.parse key c
        (Does-All (ActsOn key) (calls c) _ (sqs-ActsOn aws outside.sqs clock key spec caches) d)
  Made-Keeps (by_beanstalk threads key spec s {c} reached e d) = update-Keeps outside.parse key c (
      Does-All (ActsOn key) (calls c) _ (beanstalk-ActsOn outside.net outside.beanstalk key spec s)
        d)

  Reached-HoldsIn :
      {item : Items} → Reached outside item → HoldsIn (IsWellFormed outside.parse) item
  unfolding lookup
  Reached-HoldsIn begins k = tt
  Reached-HoldsIn (serves {c} {item} m r) k =
      sync_round-HoldsIn (IsWellFormed outside.parse) item c (Made-Keeps m) (Reached-HoldsIn r) k

  -- In every map of queues that the program reaches, by any interleaving of the requests of the
  -- controller and of the pollers, each queue is one that an `Add` accepted: its key is that of an
  -- object in its namespace, its URI is not empty, protocol and host are those of the URI, the
  -- service is the supported one that they belong to, and the name is that in the URI.
  pub Reached-IsWellFormed :
      {item : Items} (key : Text) {spec : QueueSpec}
      → Reached outside item
      → lookup key item ≡ some spec
      → IsWellFormed outside.parse key spec
  Reached-IsWellFormed key r e = let h = Reached-HoldsIn r key in (rw e at h)
