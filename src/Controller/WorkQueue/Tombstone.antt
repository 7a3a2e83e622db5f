-- ===== src/Controller/WorkQueue/Tombstone.antt =====
-- A deletion that the informer only learns of later comes as a cache.DeletedFinalStateUnknown,
-- which MetaNamespaceKeyFunc refuses.
use k8s_worker_pod_autoscale.Base.{
  ◌≡◌, ◌≢◌, refl, none, some, [], Text, text_eq_iff, lookup, arith, ℤ,
}
use k8s_worker_pod_autoscale.Queue.Uri.{get_key}
use k8s_worker_pod_autoscale.Queue.Spec.{Items}
use k8s_worker_pod_autoscale.Queue.Sync.{sends, delete_queue, sync_round}
use k8s_worker_pod_autoscale.Queue.Sync.Keys.{deletes, request_of, lookup-sync_round, key_step}
use k8s_worker_pod_autoscale.Controller.Cluster.{State, Env, missing, get_autoscaler}
use k8s_worker_pod_autoscale.Controller.Inputs.{Event, Settings, Meanwhile, serve}
use k8s_worker_pod_autoscale.Controller.Handler.{
  synced, handle_autoscaler, sync_handler, items_after,
}
use k8s_worker_pod_autoscale.Controller.WorkQueue.{
  MetaKey, get_key_for_worker_pod_auto_scaler, enqueue_delete,
}

lookup-delete_queue :
    (k namespace name : Text) (item : Items)
    → k ≢ get_key namespace name
    → lookup k (sync_round item (request_of (deletes (get_key namespace name)))) ≡ lookup k item
unfolding key_step
lookup-delete_queue k namespace name item h =
    rw (lookup-sync_round k item (deletes (get_key namespace name)))
      (ground (arith, text_eq_iff (get_key namespace name) k))

sync_handler-missing :
    {W : Type 0} (env : Env W) (settings : Settings) (event : Event) (m : Meanwhile) (s : State W)
    (namespace name : Text)
    → env.split_key event.key ≡ some (namespace, name)
    → get_autoscaler env namespace name s ≡ missing
    → sync_handler env settings event m s ≡ (
      synced,
      record s {
        items = items_after env settings event m (sends (delete_queue namespace name)) s.items;
      },
    )
unfolding sync_handler handle_autoscaler
sync_handler-missing env settings event m s namespace name split gone =
    rw (split, sync_handler) (rw gone refl)

enqueue_delete-no_meta :
    {Object : Type 0} (meta_key : MetaKey Object) (obj : Object)
    → meta_key obj ≡ none
    → (enqueue_delete meta_key obj).key ≡ []
unfolding enqueue_delete get_key_for_worker_pod_auto_scaler
enqueue_delete-no_meta meta_key obj h = rw (h, get_key_for_worker_pod_auto_scaler) refl

-- A deletion of an autoscaler that comes as an object without metadata, as a tombstone of the
-- informer is, is put on the work queue with the empty key. Handling that event, which the code
-- splits into an empty namespace and name under which no autoscaler is listed, reports success, so
-- it is not tried again, and leaves every queue but that of the key "/" in the map as it was: the
-- queue of the deleted autoscaler stays there.
pub tombstone_keeps_queue :
    {Object W : Type 0} (meta_key : MetaKey Object) (obj : Object) (env : Env W)
    (settings : Settings) (decided_at scaled_at : ℤ) (s : State W) (k : Text)
    → meta_key obj ≡ none
    → env.split_key [] ≡ some ([], [])
    → get_autoscaler env [] [] s ≡ missing
    → k ≢ get_key [] []
    → let m : Meanwhile = record {
      before_request = [];
      before_info = [];
      decided_at = decided_at;
      scaled_at = scaled_at;
    } in
      let r = sync_handler env settings (enqueue_delete meta_key obj) m s in
      (r.0 ≡ synced) × (lookup k r.1.items ≡ lookup k s.items)
unfolding delete_queue request_of serve
tombstone_keeps_queue meta_key obj env settings decided_at scaled_at s k no_meta split gone other =
    rw
      (sync_handler-missing env settings (enqueue_delete meta_key obj) _ s [] []
        (rw (enqueue_delete-no_meta meta_key obj no_meta) split) gone)
      (refl, lookup-delete_queue k [] [] s.items other)
