-- ===== src/Controller/Handler/Gone.antt =====
-- An autoscaler that is gone, and its queue.
use k8s_worker_pod_autoscale.Base.{
  ◌≡◌, refl, ◌∙◌, ap, some, none, List, [], ◌∷◌, Text, text_eq_refl, lookup, if◌then◌else◌,
}
use k8s_worker_pod_autoscale.Queue.Spec.{Items}
use k8s_worker_pod_autoscale.Queue.Uri.{get_key}
use k8s_worker_pod_autoscale.Queue.Sync.{sync_round, delete_queue}
use k8s_worker_pod_autoscale.Queue.Sync.Keys.{
  Call, deletes, request_of, key_step, key_run, lookup-sync_round, Never, adds_key, key_run-none,
}
use k8s_worker_pod_autoscale.Controller.Cluster.{State, Env, missing, get_autoscaler}
use k8s_worker_pod_autoscale.Controller.Inputs.{Event, Settings, Meanwhile, serve}
use k8s_worker_pod_autoscale.Controller.Handler.{synced, handle_autoscaler, sync_handler}

pub lookup-serve :
    (k : Text) (cs : List Call) (item : Items)
    → lookup k (serve cs item) ≡ key_run k (lookup k item) cs
unfolding serve key_run
lookup-serve k [] item = refl
lookup-serve k (c ∷ cs) item =
    lookup-serve k cs (sync_round item (request_of c))
    ∙ ap (λ o. key_run k o cs) (lookup-sync_round k item c)

lookup-deletes :
    (k : Text) (item : Items) → lookup k (sync_round item (request_of (deletes k))) ≡ none
unfolding key_step
lookup-deletes k item =
    lookup-sync_round k item (deletes k)
    ∙ ap (λ b. if b then none else lookup k item) (text_eq_refl k)

-- An event of an autoscaler that is no longer listed, whatever its kind, is handled with success:
-- nothing is sent to the API server, and the queue of that autoscaler is out of the map, even if
-- other goroutines update it meanwhile, as long as none of them adds it after the deletion.
pub gone_queue_deleted :
    {W : Type 0} (env : Env W) (settings : Settings) (event : Event) (m : Meanwhile) (s : State W)
    (namespace name : Text)
    → env.split_key event.key ≡ some (namespace, name)
    → get_autoscaler env namespace name s ≡ missing
    → Never (adds_key (get_key namespace name)) m.before_info
    → let r = sync_handler env settings event m s in
      (r.0 ≡ synced) × (r.1.sent ≡ s.sent) × (lookup (get_key namespace name) r.1.items ≡ none)
unfolding sync_handler handle_autoscaler delete_queue request_of
gone_queue_deleted env settings event m s namespace name split gone never =
    let key = get_key namespace name in
    rw (split, sync_handler)
      (rw gone (
        refl,
        refl,
        lookup-serve key m.before_info _
            ∙ ap (λ o. key_run key o m.before_info)
                (lookup-deletes key (serve m.before_request s.items))
            ∙ key_run-none key m.before_info never,
      ))
