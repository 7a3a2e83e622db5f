-- ===== src/Controller/WorkQueue.antt =====
-- pkg/controller/controller.go: the events that are put on the work queue, and one round of
-- `runWorker`. The work queue itself is client-go's: what is called of it is a list of calls.
pub mod Settled
pub mod Tombstone
pub mod Worker
use k8s_worker_pod_autoscale.Base.{Bool, true, false, Option, none, some, List, [], ◌∷◌, Text}
use k8s_worker_pod_autoscale.Controller.Cluster.{State, Env}
use k8s_worker_pod_autoscale.Controller.Inputs.{
  EventName, add_event, update_event, delete_event, Event, Settings, Meanwhile,
}
use k8s_worker_pod_autoscale.Controller.Handler.{
  Handled, synced, errored, ends_process, sync_handler,
}

-- An object of the work queue: an event, or anything else.
pub data Item : Type 0 where
  event : Event → Item
  invalid : Item

-- What is called with the item that was taken.
pub data WorkCall : Type 0 where
  forget add_rate_limited done : WorkCall

-- The result of a round: whether the worker goes on, the calls in order, whether the process ended,
-- and the state.
pub record Processed (W : Type 0) : Type 0 where
  pub goes_on : Bool
  pub work_calls : List WorkCall
  pub ended : Bool
  pub state : State W

-- cache.MetaNamespaceKeyFunc: none is an error.
abbrev pub MetaKey : Type 0 → Type 0
MetaKey Object = Object → Option Text

module _ {Object : Type 0} (meta_key : MetaKey Object) where
  unfoldable pub get_key_for_worker_pod_auto_scaler : Object → Text
  get_key_for_worker_pod_auto_scaler obj = elim (meta_key obj) [ none ↦ [] | some key ↦ key ]

  unfoldable pub enqueue_add : Object → Event
  enqueue_add obj = record { key = get_key_for_worker_pod_auto_scaler obj; name = add_event }

  unfoldable pub enqueue_update : Object → Event
  enqueue_update obj = record { key = get_key_for_worker_pod_auto_scaler obj; name = update_event }

  unfoldable pub enqueue_delete : Object → Event
  enqueue_delete obj = record { key = get_key_for_worker_pod_auto_scaler obj; name = delete_event }

module _ {W : Type 0} (env : Env W) (settings : Settings) (m : Meanwhile) where
  abbrev pub after_handler : Handled × State W → Processed W
  after_handler (synced, s) = record {
    goes_on = true;
    work_calls = forget ∷ done ∷ [];
    ended = false;
    state = s;
  }
  after_handler (errored, s) = record {
    goes_on = true;
    work_calls = add_rate_limited ∷ done ∷ [];
    ended = false;
    state = s;
  }
  after_handler (ends_process, s) = record {
    goes_on = false;
    work_calls = [];
    ended = true;
    state = s;
  }

  -- `processNextWorkItem`; no item stands for the shutdown of the work queue.
  unfoldable pub process_next_work_item : Option Item → State W → Processed W
  process_next_work_item none s = record {
    goes_on = false;
    work_calls = [];
    ended = false;
    state = s;
  }
  process_next_work_item (some invalid) s = record {
    goes_on = true;
    work_calls = forget ∷ done ∷ [];
    ended = false;
    state = s;
  }
  process_next_work_item (some (event e)) s = after_handler (sync_handler env settings e m s)
