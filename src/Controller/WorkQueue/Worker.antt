-- ===== src/Controller/WorkQueue/Worker.antt =====
-- pkg/controller/controller.go: `runWorker`, which takes items from the work queue until it is shut
-- down.
use k8s_worker_pod_autoscale.Base.{Option, List, [], ◌∷◌, if◌then◌else◌}
use k8s_worker_pod_autoscale.Controller.Cluster.{State, Env}
use k8s_worker_pod_autoscale.Controller.Inputs.{Settings, Meanwhile}
use k8s_worker_pod_autoscale.Controller.WorkQueue.{Item, Processed, process_next_work_item}

-- What a round finds: what the others changed since the last round, the item that is taken, or none
-- at the shutdown, and what happens beside the handler.
pub record Turn (W : Type 0) : Type 0 where
  pub before : State W → State W
  pub item : Option Item
  pub meanwhile : Meanwhile

module _ {W : Type 0} (env : Env W) (settings : Settings) where
  unfoldable pub take_turn : Turn W → State W → Processed W
  take_turn t s = process_next_work_item env settings t.meanwhile t.item (t.before s)

  -- The state in which the loop stops, or that the turns end in.
  unfoldable pub run_worker : List (Turn W) → State W → State W
  run_worker [] s = s
  run_worker (t ∷ ts) s =
      let p = take_turn t s in
      let rest = run_worker ts p.state in if p.goes_on then rest else p.state
