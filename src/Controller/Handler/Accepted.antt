-- ===== src/Controller/Handler/Accepted.antt =====
-- An update of the workers that succeeds was accepted by the API server, after conflicts.
use k8s_worker_pod_autoscale.Base.{◌≡◌, refl, ◌∙◌, true, List, ◌∷◌, Text, ℤ}
use k8s_worker_pod_autoscale.Controller.Cluster.{
  Kind, deployment, replica_set, Workload, Sent, scaled, Answer, accepted, conflict, refused, State,
  Env, Attempt, succeeds, conflicts, Listed, found, missing, list_failed, get_workload, attempt_on,
  attempt, attempt_of, succeeded, put_workload, update_workload,
}
use k8s_worker_pod_autoscale.Controller.Retry.{Retried, stops, again, Retries, Grown, same, more}

-- An attempt to scale that met a conflict.
abbrev pub IsConflict : Sent → Type 0
IsConflict (scaled kind namespace name replicas answer) = answer ≡ conflict
IsConflict e = ⊥

-- Conflicts, and then an attempt that was accepted.
pub data IsScaled (kind : Kind) (namespace name : Text) (replicas : ℤ) (old : List Sent)
    : List Sent → Type 0 where
  scaling :
      {l : List Sent}
      → Grown IsConflict old l
      → IsScaled kind namespace name replicas old (scaled kind namespace name replicas accepted ∷ l)

pub IsScaled-old :
    {kind : Kind} {namespace name : Text} {replicas : ℤ} {a b l : List Sent}
    → a ≡ b
    → IsScaled kind namespace name replicas a l
    → IsScaled kind namespace name replicas b l
IsScaled-old e h = rw e at h

module _ {W : Type 0} (env : Env W) (kind : Kind) (namespace name : Text) (replicas : ℤ) where
  succeeded-succeeds : (a : Attempt) → succeeded env a ≡ true → a ≡ succeeds
  succeeded-succeeds succeeds h = refl
  succeeded-succeeds Attempt.conflicts h = cc
  succeeded-succeeds Attempt.fails h = cc
  succeeded-succeeds Attempt.exits h = cc

  sent-put_workload :
      (k : Kind) (key : Text) (w : Workload) (s : State W)
      → (put_workload env k key w s).sent ≡ s.sent
  sent-put_workload deployment key w s = refl
  sent-put_workload replica_set key w s = refl

  attempt_of-accepted : (a : Answer) → attempt_of env a ≡ succeeds → a ≡ accepted
  attempt_of-accepted accepted h = refl
  attempt_of-accepted conflict h = cc
  attempt_of-accepted refused h = cc

  attempt_of-conflict : (a : Answer) → attempt_of env a ≡ conflicts → a ≡ conflict
  attempt_of-conflict accepted h = cc
  attempt_of-conflict conflict h = refl
  attempt_of-conflict refused h = cc

  sent-attempt_on :
      (l : Listed Workload) (s : State W)
      → let r = attempt_on env kind namespace name replicas l s in
        ((r.0 ≡ succeeds) → r.1.sent ≡ scaled kind namespace name replicas accepted ∷ s.sent)
        × ((r.0 ≡ conflicts) → r.1.sent ≡ scaled kind namespace name replicas conflict ∷ s.sent)
  sent-attempt_on missing s = (λ h. cc, λ h. cc)
  sent-attempt_on list_failed s = (λ h. cc, λ h. cc)
  sent-attempt_on (found w) s = (
    λ h. rw (attempt_of-accepted _ h, sent-put_workload kind _ _ s) refl,
    λ h. rw (attempt_of-conflict _ h, sent-put_workload kind _ _ s) refl,
  )

  Retried-IsScaled :
      {old : List Sent} {s : State W} {r : Attempt × State W}
      → Retried (attempt env kind namespace name replicas) s r
      → r.0 ≡ succeeds
      → Grown IsConflict old s.sent
      → IsScaled kind namespace name replicas old r.1.sent
  unfolding attempt
  Retried-IsScaled {s = s} stops h g =
      rw ((sent-attempt_on (get_workload env kind namespace name s) s).0 h) (scaling g)
  Retried-IsScaled {s = s} (again {s' = s'} e q more_attempts) h g =
      Retried-IsScaled more_attempts h
        (rw (q ∙ (sent-attempt_on (get_workload env kind namespace name s) s).1 e) (more refl g))

  pub update_workload-IsScaled :
      Retries env
      → (s : State W) → (update_workload env kind namespace name replicas s).0 ≡ true
      → IsScaled kind namespace name replicas s.sent
          (update_workload env kind namespace name replicas s).1.sent
  unfolding update_workload
  update_workload-IsScaled retries s h =
      Retried-IsScaled (retries (attempt env kind namespace name replicas) s)
        (succeeded-succeeds _ h) same
