-- ===== src/Queue/Beanstalk/Methods.antt =====
-- pkg/queue/beanstalk.go: `beanstalkClient`.
use k8s_worker_pod_autoscale.Base.{
  ℕ, Bool, true, false, Option, none, some, Text, codes, base, if◌then◌else◌, ℤ, pos, Dict, lookup,
}
use k8s_worker_pod_autoscale.Queue.Beanstalk.{
  not_found, timed_out, eof, GoError, conn_error, bare, made, Reply, ok, err, crashes, M, on, ◌>>=◌,
  pure, fail, crash, Job, Net, Client, value_or_empty, must_parse_int, must_parse_uint,
  parse_beanstalk_queue_uri,
}

-- err == io.EOF
abbrev pub is_eof : GoError → Bool
is_eof (bare eof) = true
is_eof e = false

-- What `doLongPoll` returns: a job, `(false, _, err)`, or `(true, _, err)` with an error.
pub data Reservation : Type 0 where
  reserved : (id : ℕ) → Reservation
  skipped : Option GoError → Reservation
  failed : GoError → Reservation

abbrev pub Stats : Type 0
Stats = ℤ × ℤ × ℤ  -- the waiting jobs, the idle workers, the reserved jobs

module _ {W : Type 0} (net : Net W) (queue_uri : Text) where
  -- A method of the connection: on a nil one it panics.
  abbrev pub command : {A : Type 0} → M W A → M (Client W) A
  command m c =
      if c.connected then (let (r, w) = m c.world in (r, record c { world = w })) else (crashes, c)

  -- `getBeanstalkConn`: a connection that is not nil, or an error.
  unfoldable pub get_beanstalk_conn : M W (Unit {0})
  get_beanstalk_conn w = elim (parse_beanstalk_queue_uri net.parse queue_uri) [
    | none ↦ (err made, w)
    | some (host, port) ↦
        on (net.dial host port) (λ conn. if conn then pure tt else fail made) (λ e. fail made) w
  ]

  -- The new connection is stored before the error is looked at, and is nil then.
  abbrev pub reconnected : Reply (Unit {0}) → W → Client W → Reply (Unit {0}) × Client W
  reconnected (ok u) w c = (ok tt, record { world = w; connected = true })
  reconnected (err e) w c = (err e, record { world = w; connected = false })
  reconnected crashes w c = (crashes, record { world = w; connected = c.connected })

  unfoldable pub reestablish_conn : M (Client W) (Unit {0})
  reestablish_conn c = reconnected (get_beanstalk_conn c.world).0 (get_beanstalk_conn c.world).1 c

  -- Statistics of a tube that is not there are zeros.
  abbrev pub stats_error : GoError → M (Client W) Stats
  stats_error (conn_error not_found) = pure (pos 0, pos 0, pos 0)
  stats_error (conn_error cause) = fail (bare cause)
  stats_error e = fail e

  unfoldable pub parse_stats : Dict Text → M (Client W) Stats
  parse_stats output = do
    jobs_waiting ← must_parse_int (value_or_empty (lookup (codes "current-jobs-ready") output))
    idle_workers ← must_parse_int (value_or_empty (lookup (codes "current-waiting") output))
    jobs_reserved ← must_parse_int (value_or_empty (lookup (codes "current-jobs-reserved") output))
    pure (jobs_waiting, idle_workers, jobs_reserved)

  unfoldable pub execute_get_stats : M (Client W) Stats
  execute_get_stats = on (command (net.tube_stats (base queue_uri))) parse_stats stats_error

  -- After an EOF: one more attempt, if the connection comes back.
  unfoldable pub retry : {A : Type 0} → M (Client W) A → GoError → M (Client W) A
  retry m e = if is_eof e then on reestablish_conn (λ _. m) (λ _. fail e) else fail e

  unfoldable pub get_stats : M (Client W) Stats
  get_stats = on execute_get_stats pure (λ e. on (retry execute_get_stats e) pure (λ _. fail made))

  abbrev pub put_error : {A : Type 0} → GoError → M (Client W) A
  put_error (conn_error cause) = fail (bare cause)
  put_error e = fail e

  unfoldable pub put_job : Job → M (Client W) ℕ
  put_job job = on (command (net.put (base queue_uri) job)) pure put_error

  unfoldable pub put : Job → M (Client W) ℕ
  put job = on (put_job job) pure (retry (put_job job))

  -- The errors of `Reserve`.
  abbrev pub reserve_error : GoError → Reservation
  reserve_error (conn_error timed_out) = skipped none
  reserve_error (conn_error not_found) = skipped none
  reserve_error (conn_error cause) = failed (bare cause)
  reserve_error e = failed e

  -- On a tube set that is nil, also one that is nil still, `Reserve` panics.
  abbrev pub reserve : ℤ → M (Client W) Reservation
  reserve interval =
      on (command (net.reserve (base queue_uri) interval)) (λ id. pure (reserved id))
        (λ e. pure (reserve_error e))

  unfoldable pub do_long_poll : ℤ → M (Client W) Reservation
  do_long_poll interval =
      if net.tube_set_nil
      then on reestablish_conn (λ _. crash) (λ e. pure (skipped (some e)))
      else reserve interval

  -- err == io.EOF, of what `doLongPoll` returns
  abbrev pub lost : Reservation → Bool
  lost (reserved id) = false
  lost (skipped none) = false
  lost (skipped (some e)) = is_eof e
  lost (failed e) = is_eof e

  abbrev pub finish : Reservation → M (Client W) (ℤ × ℤ)
  finish (skipped e) = pure (pos 0, pos 0)
  finish (failed e) = fail made
  finish (reserved id) =
      on (command (net.stats_job id))
        (λ stats. must_parse_uint (value_or_empty (lookup (codes "pri") stats)) >>= λ pri.
          command (λ w. (ok tt, net.release id pri w)) >>= λ (u : Unit {0}). pure (pos 1, pos 0))
        (λ e. fail made)

  -- The messages received and the idle workers.
  unfoldable pub long_poll_receive_message : ℤ → M (Client W) (ℤ × ℤ)
  long_poll_receive_message interval = do
    first ← do_long_poll interval
    last ←
        if lost first
        then on reestablish_conn (λ _. do_long_poll interval) (λ _. pure first)
        else pure first
    finish last
