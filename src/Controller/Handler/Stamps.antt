-- ===== src/Controller/Handler/Stamps.antt =====
-- What a run of `syncHandler` that returns nil has sent: a scaling is accepted and told.
use k8s_worker_pod_autoscale.Base.{
  ◌≡◌, refl, sym, ap, ◌∙◌, inl, inr, Bool, true, false, Option, none, some, List, ◌∷◌, Text,
  Bool-cases, ℤ, arith, ◌&&◌, eqb_ℤ_iff,
}
use k8s_worker_pod_autoscale.Base.Float.{Float64}
use k8s_worker_pod_autoscale.Api.{WorkerPodAutoScaler, WorkerPodAutoScalerStatus, equal_time}
use k8s_worker_pod_autoscale.Controller.Scale.{ScaleOperation, scale_up, scale_down, scale_noop}
use k8s_worker_pod_autoscale.Controller.Cluster.{
  Kind, deployment, replica_set, Sent, status_updated, Answer, State, Env, found, get_autoscaler,
  update_deployment, update_replica_set,
}
use k8s_worker_pod_autoscale.Controller.Retry.{Retries}
use k8s_worker_pod_autoscale.Controller.Inputs.{Event, Settings, Meanwhile}
use k8s_worker_pod_autoscale.Controller.Handler.{
  Handled, synced, update_status, report, update_kind, after_update, scale, sync_handler,
  is_up_to_date,
}
use k8s_worker_pod_autoscale.Controller.Handler.Cases.{
  InfoCases, unread, crashed, decided, HandlerCases, idles, fails, ends, forgets, goes_on, informed,
  handle_info-InfoCases, sync_handler-HandlerCases,
}
use k8s_worker_pod_autoscale.Controller.Handler.Accepted.{
  IsScaled, IsScaled-old, update_workload-IsScaled,
}

-- What may have been sent by a run for `w` that returned nil, by the time `now` of its scaling.
pub data IsConverged (w : WorkerPodAutoScaler) (now : ℤ) (old : List Sent)
    : List Sent → Type 0 where
  unchanged : IsConverged w now old old
  told :
      {status : WorkerPodAutoScalerStatus} {answer : Answer}
      → status.last_scale_time ≡ w.status.last_scale_time
      → IsConverged w now old (status_updated w.namespace w.name status answer ∷ old)
  scaled_and_told :
      {kind : Kind} {name : Text} {replicas : ℤ} {l : List Sent}
      {status : WorkerPodAutoScalerStatus} {answer : Answer}
      → IsScaled kind w.namespace name replicas old l
      → status.desired_replicas ≡ replicas
      → status.last_scale_time ≡ some now
      → IsConverged w now old (status_updated w.namespace w.name status answer ∷ l)
  scaled_again :
      {kind : Kind} {name : Text} {replicas : ℤ} {l : List Sent}
      → IsScaled kind w.namespace name replicas old l
      → w.status.desired_replicas ≡ replicas
      → w.status.last_scale_time ≡ some now
      → IsConverged w now old l

equal_time-eq : (t u : Option ℤ) → equal_time t u ≡ true → t ≡ u
equal_time-eq none none h = refl
equal_time-eq none (some u) h = cc
equal_time-eq (some t) none h = cc
equal_time-eq (some t) (some u) h = let e : t ≡ u = (eqb_ℤ_iff t u).0 h in rw e refl

&&-true : (a b : Bool) → (a && b) ≡ true → (a ≡ true) × (b ≡ true)
&&-true a b h = ground arith

up_to_date-told :
    (old new : WorkerPodAutoScalerStatus)
    → is_up_to_date old new ≡ true
    → (old.desired_replicas ≡ new.desired_replicas) × (old.last_scale_time ≡ new.last_scale_time)
unfolding is_up_to_date
up_to_date-told old new h =
    let (_, h1) = &&-true _ _ h in
    let (_, h2) = &&-true _ _ h1 in
    let (d, h3) = &&-true _ _ h2 in
    let (_, h4) = &&-true _ _ h3 in ((eqb_ℤ_iff _ _).0 d, equal_time-eq _ _ h4)

module _ {W : Type 0} (env : Env W) (settings : Settings) (event : Event) (m : Meanwhile)
    (old : List Sent) (retries : Retries env) (w : WorkerPodAutoScaler) where
  abbrev Converges : Handled × State W → Type 0
  Converges r = r.0 ≡ synced → IsConverged w m.scaled_at old r.1.sent

  report-scaled :
      {kind : Kind} {name : Text} (messages current available desired : ℤ) (s : State W)
      → IsScaled kind w.namespace name desired old s.sent
      → Converges
          (report env settings event m w messages current available desired (some m.scaled_at) s)
  unfolding report update_status
  report-scaled messages current available desired s scaled_now h =
      let status : WorkerPodAutoScalerStatus = record {
        current_messages = messages;
        current_replicas = current;
        available_replicas = available;
        desired_replicas = desired;
        last_scale_time = some m.scaled_at;
      } in
      elim (Bool-cases (is_up_to_date w.status status)) [
        | inl e ↦
            let (d, t) = up_to_date-told w.status status e in rw e (scaled_again scaled_now d t)
        | inr e ↦ rw e (scaled_and_told scaled_now refl refl)
      ]

  report-kept :
      (messages current available desired : ℤ) (s : State W)
      → s.sent ≡ old
      → Converges (
          report env settings event m w messages current available desired w.status.last_scale_time
            s)
  unfolding report update_status
  report-kept messages current available desired s e h =
      elim (Bool-cases (
        is_up_to_date w.status (record {
          current_messages = messages;
          current_replicas = current;
          available_replicas = available;
          desired_replicas = desired;
          last_scale_time = w.status.last_scale_time;
        }))) [ inl u ↦ rw (u, e) unchanged | inr u ↦ rw (u, e) (told refl) ]

  update_kind-IsScaled :
      (k : Kind) (name : Text) (desired : ℤ) (s : State W)
      → (update_kind env settings event m k w.namespace name desired s).0 ≡ true
      → IsScaled k w.namespace name desired s.sent
          (update_kind env settings event m k w.namespace name desired s).1.sent
  unfolding update_deployment update_replica_set
  update_kind-IsScaled deployment name desired s h =
      update_workload-IsScaled env deployment w.namespace name desired retries s h
  update_kind-IsScaled replica_set name desired s h =
      update_workload-IsScaled env replica_set w.namespace name desired retries s h

  after_update-Converges :
      {kind : Kind} {name : Text} (messages current available desired : ℤ) (r : Bool × State W)
      → (r.0 ≡ true → IsScaled kind w.namespace name desired old r.1.sent)
      → Converges (after_update env settings event m w messages current available desired r)
  after_update-Converges messages current available desired (true, s) h e =
      report-scaled messages current available desired s (h refl) e
  after_update-Converges messages current available desired (false, s) h e = cc

  scale-Converges :
      (target : Kind × Text) (messages current available desired : ℤ) (op : ScaleOperation)
      (s : State W)
      → s.sent ≡ old
      → Converges (scale env settings event m w target messages current available desired op s)
  unfolding scale
  scale-Converges target messages current available desired scale_noop s e =
      report-kept messages current available desired s e
  scale-Converges (kind, name) messages current available desired scale_up s e =
      after_update-Converges messages current available desired _
        (λ h. IsScaled-old e (update_kind-IsScaled kind name desired s h))
  scale-Converges (kind, name) messages current available desired scale_down s e =
      after_update-Converges messages current available desired _
        (λ h. IsScaled-old e (update_kind-IsScaled kind name desired s h))

  InfoCases-Converges :
      {target : Kind × Text} {current available : ℤ} {info : Text × ℤ × Float64 × ℤ} {s : State W}
      {r : Handled × State W}
      → InfoCases env settings event m w target current available info s r
      → s.sent ≡ old
      → Converges r
  InfoCases-Converges unread e h = rw e unchanged
  InfoCases-Converges crashed e h = cc
  InfoCases-Converges (decided per_worker min max desired known polled limited computed) e h =
      scale-Converges _ _ _ _ desired _ _ e h

same_parts : (p q : Text × Text) → some p ≡ some q → (p.0 ≡ q.0) × (p.1 ≡ q.1)
same_parts p q e = let same : p ≡ q = cc in (ap (λ r. r.0) same, ap (λ r. r.1) same)

found_inj : {A : Type 0} {a b : A} → found a ≡ found b → a ≡ b
found_inj e = cc

HandlerCases-Converges :
    {W : Type 0} (env : Env W) (settings : Settings) (event : Event) (m : Meanwhile)
    (retries : Retries env) {s : State W} (namespace name : Text) (w : WorkerPodAutoScaler)
    → env.split_key event.key ≡ some (namespace, name)
    → get_autoscaler env namespace name s ≡ found w
    → {r : Handled × State W} → HandlerCases env settings event m s r
    → Converges env settings event m s.sent retries w r
HandlerCases-Converges env settings event m retries namespace name w split listed idles h =
    unchanged
HandlerCases-Converges env settings event m retries namespace name w split listed fails h = cc
HandlerCases-Converges env settings event m retries namespace name w split listed ends h = cc
HandlerCases-Converges env settings event m retries namespace name w split listed
      (forgets ns n split' gone) h =
    unchanged
HandlerCases-Converges env settings event m retries {s} namespace name w split listed
      (goes_on ns n w' kind workload runs current a split' listed' named running counted asked) h =
    let (same_namespace, same_name) = same_parts (ns, n) (namespace, name) (sym split' ∙ split) in
    let there : get_autoscaler env namespace name s ≡ found w' =
      (rw (same_namespace, same_name) at listed') in
    let same : w' ≡ w = found_inj (sym there ∙ listed) in
    rw⁻¹ same (
      InfoCases-Converges env settings event m s.sent retries w'
        (handle_info-InfoCases env settings event m w' (kind, workload) current
          runs.available_replicas (informed env settings event m a s) _)
        refl h)

-- Where syncHandler returns nil for an autoscaler that is listed, it has sent nothing; or only the
-- status, with the time of the last scaling kept; or updates of the workers, all conflicts but the
-- last, which the API server has accepted, and then the status with the workers that were asked for
-- and with now as the time of the last scaling, unless the status said both already. So each
-- scaling is accepted, and the status that is to restart the delay is sent once behind it; what the
-- server answers to that status may be anything. The condition is the documented behaviour of
-- RetryOnConflict.
pub scaling_is_told :
    {W : Type 0} (env : Env W) (settings : Settings) (event : Event) (m : Meanwhile)
    → Retries env
    → (s : State W) (namespace name : Text) (w : WorkerPodAutoScaler)
    → env.split_key event.key ≡ some (namespace, name)
    → get_autoscaler env namespace name s ≡ found w
    → (sync_handler env settings event m s).0 ≡ synced
    → IsConverged w m.scaled_at s.sent (sync_handler env settings event m s).1.sent
scaling_is_told env settings event m retries s namespace name w split listed =
    HandlerCases-Converges env settings event m retries namespace name w split listed
      (sync_handler-HandlerCases env settings event m s)
