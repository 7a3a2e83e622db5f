-- ===== src/Controller/Retry.antt =====
-- retry.RetryOnConflict of k8s.io/client-go, as far as it is documented, and what an update with it
-- sends.
use k8s_worker_pod_autoscale.Base.{◌≡◌, List, ◌∷◌, Text, ℤ}
use k8s_worker_pod_autoscale.Controller.Cluster.{
  Kind, Workload, deployment, replica_set, Sent, scaled, Answer, State, Env, Attempt, conflicts,
  Listed, found, missing, list_failed, get_workload, attempt, attempt_on, put_workload,
  update_workload,
}

-- Attempts one after the other: the last one gives the result, and the ones before it are conflicts.
-- While it waits, others may change everything but what this goroutine has sent.
pub data Retried {W : Type 0} (f : State W → Attempt × State W)
    : State W → Attempt × State W → Type 0 where
  stops : {s : State W} → Retried f s (f s)
  again :
      {s s' : State W} {r : Attempt × State W}
      → (f s).0 ≡ conflicts
      → s'.sent ≡ (f s).1.sent
      → Retried f s' r
      → Retried f s r

-- The documented behaviour.
abbrev pub Retries : {W : Type 0} → Env W → Type 0
Retries {W} env =
    (f : State W → Attempt × State W) (s : State W) → Retried f s (env.retry_on_conflict f s)

-- A list that grew from `old` by entries with the property.
pub data Grown (P : Sent → Type 0) (old : List Sent) : List Sent → Type 0 where
  same : Grown P old old
  more : {e : Sent} {l : List Sent} → P e → Grown P old l → Grown P old (e ∷ l)

-- An attempt sends at most the update.
module _ {W : Type 0} (env : Env W) {P : Sent → Type 0} {old : List Sent} (kind : Kind)
    (namespace name : Text) (replicas : ℤ)
    (due : (a : Answer) → P (scaled kind namespace name replicas a)) where
  put_workload-Grown :
      (k : Kind) (key : Text) (w : Workload) (s : State W)
      → Grown P old s.sent
      → Grown P old (put_workload env k key w s).sent
  put_workload-Grown deployment key w s g = g
  put_workload-Grown replica_set key w s g = g

  attempt_on-Grown :
      (l : Listed Workload) (s : State W)
      → Grown P old s.sent
      → Grown P old (attempt_on env kind namespace name replicas l s).1.sent
  attempt_on-Grown missing s g = g
  attempt_on-Grown list_failed s g = g
  attempt_on-Grown (found w) s g = more (due _) (put_workload-Grown kind _ _ s g)

  attempt-Grown :
      (s : State W)
      → Grown P old s.sent
      → Grown P old (attempt env kind namespace name replicas s).1.sent
  unfolding attempt
  attempt-Grown s g = attempt_on-Grown (get_workload env kind namespace name s) s g

  Retried-Grown :
      {s : State W} {r : Attempt × State W}
      → Retried (attempt env kind namespace name replicas) s r
      → Grown P old s.sent
      → Grown P old r.1.sent
  Retried-Grown {s} stops g = attempt-Grown s g
  Retried-Grown {s} (again {s' = s'} e q more_attempts) g =
      Retried-Grown more_attempts (rw q (attempt-Grown s g))

  pub update_workload-Grown :
      Retries env
      → (s : State W) → Grown P old s.sent
      → Grown P old (update_workload env kind namespace name replicas s).1.sent
  unfolding update_workload
  update_workload-Grown retries s g =
      Retried-Grown (retries (attempt env kind namespace name replicas) s) g
