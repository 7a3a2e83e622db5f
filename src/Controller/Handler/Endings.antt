-- ===== src/Controller/Handler/Endings.antt =====
-- From `GetQueueInfo` on `syncHandler` returns no error.
use k8s_worker_pod_autoscale.Base.{◌≢◌, Bool, true, false, Text, ℤ}
use k8s_worker_pod_autoscale.Base.Float.{Float64}
use k8s_worker_pod_autoscale.Api.{WorkerPodAutoScaler}
use k8s_worker_pod_autoscale.Controller.Scale.{ScaleOperation, scale_up, scale_down, scale_noop}
use k8s_worker_pod_autoscale.Controller.Cluster.{Kind, State, Env}
use k8s_worker_pod_autoscale.Controller.Inputs.{Event, Settings, Meanwhile}
use k8s_worker_pod_autoscale.Controller.Handler.{
  Handled, synced, errored, ends_process, report, after_update, scale, handle_info,
}
use k8s_worker_pod_autoscale.Controller.Handler.Cases.{
  InfoCases, unread, crashed, decided, handle_info-InfoCases,
}

pub no_error_synced : synced ≢ errored
no_error_synced h = cc

pub no_error_ended : ends_process ≢ errored
no_error_ended h = cc

module _ {W : Type 0} (env : Env W) (settings : Settings) (event : Event) (m : Meanwhile) where
  after_update-ends :
      (w : WorkerPodAutoScaler) (messages current available desired : ℤ) (r : Bool × State W)
      → (after_update env settings event m w messages current available desired r).0 ≢ errored
  unfolding report
  after_update-ends w messages current available desired (true, s) = no_error_synced
  after_update-ends w messages current available desired (false, s) = no_error_ended

  scale-ends :
      (w : WorkerPodAutoScaler) (target : Kind × Text) (messages current available desired : ℤ)
      (op : ScaleOperation) (s : State W)
      → (scale env settings event m w target messages current available desired op s).0 ≢ errored
  unfolding scale report
  scale-ends w target messages current available desired scale_noop s = no_error_synced
  scale-ends w (kind, name) messages current available desired scale_up s =
      after_update-ends w messages current available desired _
  scale-ends w (kind, name) messages current available desired scale_down s =
      after_update-ends w messages current available desired _

  InfoCases-ends :
      {w : WorkerPodAutoScaler} {target : Kind × Text} {current available : ℤ}
      {info : Text × ℤ × Float64 × ℤ} {s : State W} {r : Handled × State W}
      → InfoCases env settings event m w target current available info s r
      → r.0 ≢ errored
  InfoCases-ends unread = no_error_synced
  InfoCases-ends crashed = no_error_ended
  InfoCases-ends {w} {target} {s = s} (decided per_worker min max d known polled limited computed) =
      scale-ends w target _ _ _ d _ s

  pub handle_info-ends :
      (w : WorkerPodAutoScaler) (target : Kind × Text) (current available : ℤ)
      (info : Text × ℤ × Float64 × ℤ) (s : State W)
      → (handle_info env settings event m w target current available info s).0 ≢ errored
  handle_info-ends w target current available info s =
      InfoCases-ends (handle_info-InfoCases env settings event m w target current available s info)
