-- ===== src/Queue/Beanstalk/Errors.antt =====
-- The errors that a poll of beanstalkd sees.
use k8s_worker_pod_autoscale.Base.{
  ℕ, ◌≡◌, refl, Bool-cases, inl, inr, some, Option-cases, Text, if◌then◌else◌, if-elim, ℤ, pos,
  lookup, decimal,
}
use k8s_worker_pod_autoscale.Queue.Beanstalk.{
  GoError, made, Reply, ok, err, crashes, M, on, ◌>>=◌, branch, pure, fail, crash, Net, Client,
  parse_beanstalk_queue_uri, must_parse_uint, parse_uint32,
}
use k8s_worker_pod_autoscale.Queue.Beanstalk.Methods.{
  lost, reserve_error, Reservation, reserved, skipped, failed, command, get_beanstalk_conn,
  reestablish_conn, execute_get_stats, retry, get_stats, do_long_poll, finish,
  long_poll_receive_message,
}
use k8s_worker_pod_autoscale.Queue.Beanstalk.Poll.{
  Beanstalk, State, new_client, get_client, on_client, with_client, get_messages, get_idle_workers,
  long_poll,
}

-- Every error that a computation ends with is a new one with a text.
abbrev pub OnlyMade : {S A : Type 0} → M S A → Type 0
OnlyMade {S} m = (s : S) (e : GoError) → (m s).0 ≡ err e → e ≡ made

module _ {S A B : Type 0} where
  branch-OnlyMade :
      (r : Reply A) (f : A → M S B) (g : GoError → M S B) (s : S) (e : GoError)
      → ((a : A) → OnlyMade (f a))
      → ((x : GoError) → r ≡ err x → OnlyMade (g x))
      → (branch r f g s).0 ≡ err e
      → e ≡ made
  branch-OnlyMade (ok a) f g s e hf hg h = hf a s e h
  branch-OnlyMade (err x) f g s e hf hg h = hg x refl s e h
  branch-OnlyMade crashes f g s e hf hg h = cc

  on-OnlyMade :
      (m : M S A) (f : A → M S B) (g : GoError → M S B)
      → ((a : A) → OnlyMade (f a))
      → ((x : GoError) → OnlyMade (g x))
      → OnlyMade (on m f g)
  on-OnlyMade m f g hf hg s e h = branch-OnlyMade (m s).0 f g (m s).1 e hf (λ x _. hg x) h

  bind-OnlyMade :
      (m : M S A) (f : A → M S B) → OnlyMade m → ((a : A) → OnlyMade (f a)) → OnlyMade (m >>= f)
  bind-OnlyMade m f hm hf s e h =
      branch-OnlyMade (m s).0 f (λ x s'. (err x, s')) (m s).1 e hf
        (λ x q s' e' h'. rw (← hm s x q) (cc)) h

module _ {S A : Type 0} where
  pure-OnlyMade : (a : A) → OnlyMade {S = S} (pure a)
  pure-OnlyMade a s e h = cc

  fail-OnlyMade : OnlyMade {S = S} {A = A} (fail made)
  fail-OnlyMade s e h = cc

  crash-OnlyMade : OnlyMade {S = S} {A = A} crash
  crash-OnlyMade s e h = cc

module _ {W : Type 0} (net : Net W) (queue_uri : Text) where
  get_beanstalk_conn-OnlyMade : OnlyMade (get_beanstalk_conn net queue_uri)
  unfolding get_beanstalk_conn
  get_beanstalk_conn-OnlyMade s e h =
      elim (Option-cases (parse_beanstalk_queue_uri net.parse queue_uri)) [
        | inl q ↦ cc (rw (q, get_beanstalk_conn) at h)
        | inr ((host, port), q) ↦
            on-OnlyMade (net.dial host port) (λ conn. if conn then pure tt else fail made)
              (λ x. fail made)
              (λ conn. if-elim OnlyMade conn (λ _. pure-OnlyMade tt) (λ _. fail-OnlyMade))
              (λ x. fail-OnlyMade) s e (rw (q, get_beanstalk_conn) at h)
      ]

  new_client-OnlyMade :
      (r : Reply (Unit {0})) (w : W) (s : State W) (e : GoError)
      → (r ≡ err e → e ≡ made)
      → (new_client net queue_uri r w s).0 ≡ err e
      → e ≡ made
  new_client-OnlyMade (ok u) w s e k h = cc
  new_client-OnlyMade (err x) w s e k h = k (cc)
  new_client-OnlyMade crashes w s e k h = cc

  get_client-OnlyMade : OnlyMade (get_client net queue_uri)
  unfolding get_client
  get_client-OnlyMade s e h = elim (Option-cases (lookup queue_uri s.client_pool)) [
    | inl q ↦
        new_client-OnlyMade (get_beanstalk_conn net queue_uri s.world).0
          (get_beanstalk_conn net queue_uri s.world).1 s e (get_beanstalk_conn-OnlyMade s.world e)
          (rw (q, get_client) at h)
    | inr (connected, q) ↦ cc (rw (q, get_client) at h)
  ]

  with_client-OnlyMade :
      {A : Type 0} (m : M (Client W) A) → OnlyMade m → OnlyMade (with_client net queue_uri m)
  with_client-OnlyMade m hm =
      bind-OnlyMade (get_client net queue_uri) (λ connected. on_client net queue_uri m connected)
        get_client-OnlyMade (λ connected s e h. hm _ e h)

  get_stats-OnlyMade : OnlyMade (get_stats net queue_uri)
  unfolding get_stats
  get_stats-OnlyMade =
      on-OnlyMade (execute_get_stats net queue_uri) pure
        (λ e. on (retry net queue_uri (execute_get_stats net queue_uri) e) pure (λ x. fail made))
        (λ stats. pure-OnlyMade stats)
        (λ e.
          on-OnlyMade (retry net queue_uri (execute_get_stats net queue_uri) e) pure
            (λ x. fail made) (λ stats. pure-OnlyMade stats) (λ x. fail-OnlyMade))

  do_long_poll-OnlyMade : (interval : ℤ) → OnlyMade (do_long_poll net queue_uri interval)
  unfolding do_long_poll
  do_long_poll-OnlyMade interval =
      if-elim OnlyMade net.tube_set_nil
        (λ _.
          on-OnlyMade (reestablish_conn net queue_uri) _ _ (λ u. crash-OnlyMade)
            (λ e. pure-OnlyMade (skipped (some e))))
        (λ _.
          on-OnlyMade _ _ _ (λ id. pure-OnlyMade (reserved id))
            (λ e. pure-OnlyMade (reserve_error net queue_uri e)))

  must_parse_uint-OnlyMade : (s : Text) → OnlyMade {S = Client W} (must_parse_uint s)
  unfolding must_parse_uint
  must_parse_uint-OnlyMade s c e h = elim (Option-cases (parse_uint32 (decimal s))) [
    | inl q ↦ cc (rw (q, must_parse_uint) at h)
    | inr (n, q) ↦ cc (rw (q, must_parse_uint) at h)
  ]

  release-OnlyMade :
      (id pri : ℕ)
      → OnlyMade (command net queue_uri {A = Unit {0}} (λ w. (ok tt, net.release id pri w)))
  release-OnlyMade id pri c e h = elim (Bool-cases c.connected) [
    | inl q ↦ cc (rw q at h)
    | inr q ↦ cc (rw q at h)
  ]

  finish-OnlyMade : (r : Reservation) → OnlyMade (finish net queue_uri r)
  finish-OnlyMade (skipped e) = pure-OnlyMade (pos 0, pos 0)
  finish-OnlyMade (failed e) = fail-OnlyMade
  finish-OnlyMade (reserved id) =
      on-OnlyMade (command net queue_uri (net.stats_job id)) _ _
        (λ stats.
          bind-OnlyMade (must_parse_uint _) _ (must_parse_uint-OnlyMade _)
            λ pri. bind-OnlyMade _ _ (release-OnlyMade id pri) (λ u. pure-OnlyMade (pos 1, pos 0)))
        (λ e. fail-OnlyMade)

  long_poll_receive_message-OnlyMade :
      (interval : ℤ) → OnlyMade (long_poll_receive_message net queue_uri interval)
  unfolding long_poll_receive_message
  long_poll_receive_message-OnlyMade interval =
      bind-OnlyMade _ _ (do_long_poll-OnlyMade interval) λ first.
        bind-OnlyMade _ _
          (if-elim OnlyMade (lost net queue_uri first)
            (λ _.
              on-OnlyMade (reestablish_conn net queue_uri) _ _ (λ u. do_long_poll-OnlyMade interval)
                (λ e. pure-OnlyMade first))
            (λ _. pure-OnlyMade first))
          finish-OnlyMade

-- Every error that the methods of `Beanstalk` hand to `poll`, whatever the server and the network
-- do, is one that this code made anew. In particular it is no `ConnError`, so the branch of the long
-- poll for a tube that is not found is never taken, and each failure makes the connection again.
errors_are_made :
    {W : Type 0} (net : Net W) (b : Beanstalk) (queue_uri : Text)
    → OnlyMade (long_poll net b queue_uri)
      × OnlyMade (get_messages net queue_uri)
      × OnlyMade (get_idle_workers net queue_uri)
unfolding long_poll get_messages get_idle_workers
errors_are_made {W} net b queue_uri = (
  with_client-OnlyMade net queue_uri (long_poll_receive_message net queue_uri b.long_poll_interval)
      (long_poll_receive_message-OnlyMade net queue_uri b.long_poll_interval),
  bind-OnlyMade (with_client net queue_uri (get_stats net queue_uri)) _ stats_made
      (λ stats. pure-OnlyMade (stats.0, stats.2)),
  bind-OnlyMade (with_client net queue_uri (get_stats net queue_uri)) _ stats_made
      (λ stats. pure-OnlyMade stats.1),
)
  where
    stats_made : OnlyMade (with_client net queue_uri (get_stats net queue_uri))
    stats_made =
        with_client-OnlyMade net queue_uri (get_stats net queue_uri)
          (get_stats-OnlyMade net queue_uri)
