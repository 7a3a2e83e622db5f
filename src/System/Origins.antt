-- ===== src/System/Origins.antt =====
-- What an `Add` sends, read off its request, and what a poll's requests are about.
use k8s_worker_pod_autoscale.Base.{
  ◌≡◌, refl, inl, inr, Bool, true, false, some, List, [], ◌∷◌, All, Text, Option-cases, ℤ,
}
use k8s_worker_pod_autoscale.Base.Float.{Float64}
use k8s_worker_pod_autoscale.Queue.Spec.{QueueSpec, Items}
use k8s_worker_pod_autoscale.Queue.Uri.{UrlParser, get_key, parse_queue_uri, get_queue_service_name}
use k8s_worker_pod_autoscale.Queue.Sync.{sends, add, send_if, queue_spec, list_queue_by_namespace}
use k8s_worker_pod_autoscale.Queue.Sync.Keys.{adds, request_of}
use k8s_worker_pod_autoscale.Queue.Sync.Adding.{IsSupported}
use k8s_worker_pod_autoscale.Queue.Service.{Action}
use k8s_worker_pod_autoscale.System.{Does}

-- What holds of all actions holds of each.
pub Does-All : (P : Action → Type 0) (a : Action) (l : List Action) → All P l → Does a l → P a
Does-All P a [] h d = elim d [ ]
Does-All P a (b ∷ more) (p, h) (inl e) = rw e p
Does-All P a (b ∷ more) (p, h) (inr d) = Does-All P a more h d

-- A specification that `Add` makes of what it has listed.
pub record IsAdded (parse : UrlParser) (listed : Items) (key : Text) (spec : QueueSpec)
    : Type 0 where
  pub namespace : Text
  pub name : Text
  pub uri : Text
  pub protocol : Text
  pub host : Text
  pub service : Text
  pub workers : ℤ
  pub seconds : Float64
  pub keyed : key ≡ get_key namespace name
  pub supported : IsSupported parse uri protocol host service
  pub specified :
      spec
      ≡ queue_spec namespace uri protocol host service workers seconds
          (list_queue_by_namespace namespace name listed)

module _ (parse : UrlParser) (listed : Items) (namespace name : Text) (workers : ℤ)
    (seconds : Float64) {key : Text} {spec : QueueSpec} where
  send_if-IsAdded :
      (uri protocol host : Text) (r : Bool × Text)
      → ¬ (uri ≡ [])
      → parse_queue_uri parse uri ≡ some (protocol, host)
      → get_queue_service_name host protocol ≡ r
      → send_if r namespace name uri protocol host workers seconds listed
        ≡ sends (request_of (adds key spec))
      → IsAdded parse listed key spec
  unfolding request_of
  send_if-IsAdded uri protocol host (false, service) present p g h = absurd cc
  send_if-IsAdded uri protocol host (true, service) present p g h = record {
    namespace = namespace;
    name = name;
    uri = uri;
    protocol = protocol;
    host = host;
    service = service;
    workers = workers;
    seconds = seconds;
    keyed = cc;
    supported = record { present = present; parsed = p; served = g };
    specified = cc;
  }

  pub add-IsAdded :
      (uri : Text)
      → add parse listed namespace name uri workers seconds ≡ sends (request_of (adds key spec))
      → IsAdded parse listed key spec
  unfolding add
  add-IsAdded [] h = absurd cc
  add-IsAdded (c ∷ s) h = elim (Option-cases (parse_queue_uri parse (c ∷ s))) [
    | inl e ↦ absurd (let h' = (rw (e, add) at h) in cc)
    | inr ((protocol, host), e) ↦
        send_if-IsAdded (c ∷ s) protocol host _ (λ e. cc) e refl (rw (e, add) at h)
  ]
