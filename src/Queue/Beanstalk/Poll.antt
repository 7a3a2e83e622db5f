-- ===== src/Queue/Beanstalk/Poll.antt =====
-- pkg/queue/beanstalk.go: `Beanstalk` with its pool of clients, and `poll`.
use k8s_worker_pod_autoscale.Base.{
  Bool, true, false, none, some, List, [], ◌∷◌, ◌++◌, Text, if◌then◌else◌, ◌&&◌, not, ℤ, pos,
  minus_one, ◌+ℤ◌, eqb_ℤ, ltb_ℤ, wrap32, Dict, lookup, insert,
}
use k8s_worker_pod_autoscale.Queue.Spec.{QueueSpec}
use k8s_worker_pod_autoscale.Queue.Sync.Keys.{messages_are, idle_workers_are}
use k8s_worker_pod_autoscale.Queue.Service.{Action, calls, sleeps}
use k8s_worker_pod_autoscale.Queue.Beanstalk.{
  not_found, GoError, conn_error, Reply, ok, err, crashes, M, on, pure, Net, Client,
}
use k8s_worker_pod_autoscale.Queue.Beanstalk.Methods.{
  get_beanstalk_conn, reestablish_conn, get_stats, long_poll_receive_message,
}

pub record Beanstalk : Type 0 where
  pub short_poll_interval : ℤ
  pub long_poll_interval : ℤ

-- The world, and `clientPool`: for the URI of each client whether its connection is not nil.
pub record State (W : Type 0) : Type 0 where
  pub world : W
  pub client_pool : Dict Bool

-- What a poll did, the state it left, and whether the process ended.
pub record Polled (W : Type 0) : Type 0 where
  pub actions : List Action
  pub state : State W
  pub crashed : Bool

module _ {W : Type 0} (net : Net W) where
  -- `NewBeanstalkClient`, and storing its client in the pool.
  abbrev pub new_client : Text → Reply (Unit {0}) → W → State W → Reply Bool × State W
  new_client queue_uri (ok u) w s =
      (ok true, record { world = w; client_pool = insert queue_uri true s.client_pool })
  new_client queue_uri (err e) w s = (err e, record s { world = w })
  new_client queue_uri crashes w s = (crashes, record s { world = w })

  -- The client of the pool, or a new one: whether its connection is not nil.
  unfoldable pub get_client : Text → M (State W) Bool
  get_client queue_uri s = elim (lookup queue_uri s.client_pool) [
    | some connected ↦ (ok connected, s)
    | none ↦
        let made_conn = get_beanstalk_conn net queue_uri s.world in
        new_client queue_uri made_conn.0 made_conn.1 s
  ]

  -- A method of the client, which is shared with the pool.
  abbrev pub on_client : {A : Type 0} → Text → M (Client W) A → Bool → M (State W) A
  on_client queue_uri m connected s =
      let (r, c) = m (record { world = s.world; connected = connected }) in
      (r, record { world = c.world; client_pool = insert queue_uri c.connected s.client_pool })

  abbrev pub with_client : {A : Type 0} → Text → M (Client W) A → M (State W) A
  with_client queue_uri m =
      on (get_client queue_uri) (λ connected. on_client queue_uri m connected) (λ e s. (err e, s))

  -- The waiting and the reserved jobs.
  unfoldable pub get_messages : Text → M (State W) (ℤ × ℤ)
  get_messages queue_uri =
      on (with_client queue_uri (get_stats net queue_uri)) (λ stats. pure (stats.0, stats.2))
        (λ e s. (err e, s))

  unfoldable pub get_idle_workers : Text → M (State W) ℤ
  get_idle_workers queue_uri =
      on (with_client queue_uri (get_stats net queue_uri)) (λ stats. pure stats.1)
        (λ e s. (err e, s))

  unfoldable pub long_poll : Beanstalk → Text → M (State W) (ℤ × ℤ)
  long_poll b queue_uri =
      with_client queue_uri (long_poll_receive_message net queue_uri b.long_poll_interval)

  -- The errors are only logged.
  unfoldable pub reestablish : Text → M (State W) (Unit {0})
  reestablish queue_uri =
      on (with_client queue_uri (reestablish_conn net queue_uri)) pure (λ e. pure tt)

  abbrev pub is_crash : {A : Type 0} → Reply A → Bool
  is_crash crashes = true
  is_crash r = false

  abbrev pub done : List Action → State W → Polled W
  done actions s = record { actions = actions; state = s; crashed = false }

  abbrev pub ended : List Action → State W → Polled W
  ended actions s = record { actions = actions; state = s; crashed = true }

  module _ (b : Beanstalk) (key : Text) (spec : QueueSpec) where
    -- `b.reestablishConn(queueSpec.uri)`, and what follows it, behind the actions `before`.
    abbrev pub after_error : List Action → List Action → State W → Polled W
    after_error before rest s =
        let r = reestablish spec.uri s in
        if is_crash r.0 then ended before r.1 else done (before ++ rest) r.1

    -- The test for a `beanstalk.ConnError` with ErrNotFound.
    abbrev pub is_not_found : GoError → Bool
    is_not_found (conn_error not_found) = true
    is_not_found e = false

    abbrev pub after_long_poll : Reply (ℤ × ℤ) → State W → Polled W
    after_long_poll (ok (received, idle)) s =
        done (calls (messages_are key received) ∷ calls (idle_workers_are key idle) ∷ []) s
    after_long_poll (err e) s = if is_not_found e then done [] s else after_error [] [] s
    after_long_poll crashes s = ended [] s

    abbrev pub after_idle : List Action → Reply ℤ → State W → Polled W
    after_idle before (ok idle) s =
        done (before ++ (calls (idle_workers_are key idle) ∷ sleeps b.short_poll_interval ∷ [])) s
    after_idle before (err e) s = after_error before (sleeps (pos 100_000_000) ∷ []) s
    after_idle before crashes s = ended before s

    -- Once the waiting and the reserved jobs are known.
    unfoldable pub poll_counted : (waiting reserved : ℤ) → State W → Polled W
    poll_counted waiting reserved s =
        let counted = calls (messages_are key (wrap32 (waiting +ℤ reserved))) ∷ [] in
        let idle = get_idle_workers spec.uri s in
        if not (eqb_ℤ waiting (pos 0))
        then done
            (counted
              ++ (calls (idle_workers_are key minus_one) ∷ sleeps b.short_poll_interval ∷ []))
            s
        else if ltb_ℤ (pos 0) reserved
        then done (counted ++ (sleeps b.short_poll_interval ∷ [])) s
        else after_idle counted idle.0 idle.1

    abbrev pub after_messages : Reply (ℤ × ℤ) → State W → Polled W
    after_messages (ok (waiting, reserved)) s = poll_counted waiting reserved s
    after_messages (err e) s = after_error [] [] s
    after_messages crashes s = ended [] s

    unfoldable pub poll : State W → Polled W
    poll s =
        let long = long_poll b spec.uri s in
        let messages = get_messages spec.uri s in
        if eqb_ℤ spec.workers (pos 0) && eqb_ℤ spec.messages (pos 0)
        then after_long_poll long.0 long.1
        else after_messages messages.0 messages.1
