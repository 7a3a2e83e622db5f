-- ===== src/Controller/WorkQueue/Settled.antt =====
-- Each item that a worker takes from the work queue is settled.
use k8s_worker_pod_autoscale.Base.{◌≡◌, ◌↔◌, refl, true, false, some, [], ◌∷◌}
use k8s_worker_pod_autoscale.Controller.Cluster.{State, Env}
use k8s_worker_pod_autoscale.Controller.Inputs.{Event, Settings, Meanwhile}
use k8s_worker_pod_autoscale.Controller.Handler.{Handled, synced, errored, ends_process}
use k8s_worker_pod_autoscale.Controller.Handler.Requeue.{IsRetried, errored_iff}
use k8s_worker_pod_autoscale.Controller.Handler.Endings.{no_error_synced}
use k8s_worker_pod_autoscale.Controller.WorkQueue.{
  event, forget, add_rate_limited, done, after_handler, process_next_work_item,
}

settled :
    {W : Type 0} {X : Type 0} (env : Env W) (settings : Settings) (m : Meanwhile)
    (r : Handled × State W)
    → ((r.0 ≡ errored) ↔ X)
    → (after_handler env settings m r).ended ≡ false
    → ((after_handler env settings m r).goes_on ≡ true)
      × ((after_handler env settings m r).work_calls ≡ add_rate_limited ∷ done ∷ [] ↔ X)
      × ((after_handler env settings m r).work_calls ≡ forget ∷ done ∷ [] ↔ (¬ X))
settled env settings m (synced, s) (to, from) h = (
  refl,
  (λ e. cc, λ x. absurd (no_error_synced (from x))),
  (λ e x. no_error_synced (from x), λ n. refl),
)
settled env settings m (errored, s) (to, from) h =
    (refl, (λ e. to refl, λ x. refl), (λ e x. cc, λ n. absurd (n (to refl))))
settled env settings m (ends_process, s) x h = cc

-- Each event that a worker takes from the work queue, if its handling does not end the process, is
-- marked done once, and the worker goes on: before that the event is put back to be tried again, if
-- a lister failed, the workers are missing or the URI cannot be parsed (`IsRetried`), and is
-- forgotten otherwise, never both.
pub event_settled :
    {W : Type 0} (env : Env W) (settings : Settings) (m : Meanwhile) (e : Event) (s : State W)
    → let p = process_next_work_item env settings m (some (event e)) s in
      p.ended ≡ false
      → (p.goes_on ≡ true)
        × (p.work_calls ≡ add_rate_limited ∷ done ∷ [] ↔ IsRetried env e s)
        × (p.work_calls ≡ forget ∷ done ∷ [] ↔ (¬ IsRetried env e s))
unfolding process_next_work_item
event_settled env settings m e s h = settled env settings m _ (errored_iff env settings e m s) h
