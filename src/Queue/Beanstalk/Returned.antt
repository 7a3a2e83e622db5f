-- ===== src/Queue/Beanstalk/Returned.antt =====
-- What the methods of beanstalkd can return: a long poll never counts idle workers.
use k8s_worker_pod_autoscale.Base.{
  ℕ, IsInt32, refl, arith, if◌then◌else◌, ◌≡◌, lookup, Text, codes, ℤ, pos, Dict,
}
use k8s_worker_pod_autoscale.Queue.Beanstalk.{
  GoError, made, Reply, ok, err, crashes, M, on, pure, fail, branch, ◌>>=◌, Net, Client,
  value_or_empty, must_parse_uint,
}
use k8s_worker_pod_autoscale.Queue.Beanstalk.Methods.{
  Reservation, reserved, skipped, failed, finish, lost, do_long_poll, reestablish_conn, command,
  long_poll_receive_message,
}
use k8s_worker_pod_autoscale.Queue.Beanstalk.Poll.{Beanstalk, get_client, on_client, long_poll}

module _ {S A : Type 0} (P : A → Type 0) where
  -- Whatever value it returns has the property.
  abbrev pub Returns : M S A → Type 0
  Returns m = (s : S) → (x : A) → (m s).0 ≡ ok x → P x

module _ {S A B : Type 0} (P : B → Type 0) where
  branch-Returns :
      (r : Reply A) (f : A → M S B) (g : GoError → M S B)
      → ((a : A) → Returns P (f a))
      → ((e : GoError) → Returns P (g e))
      → Returns P (branch r f g)
  branch-Returns (ok a) f g hf hg s x e = hf a s x e
  branch-Returns (err a) f g hf hg s x e = hg a s x e
  branch-Returns crashes f g hf hg s x e = absurd cc

  on-Returns :
      (m : M S A) (f : A → M S B) (g : GoError → M S B)
      → ((a : A) → Returns P (f a))
      → ((e : GoError) → Returns P (g e))
      → Returns P (on m f g)
  on-Returns m f g hf hg s x e = branch-Returns (m s).0 f g hf hg (m s).1 x e

-- The first number, the messages, is an int32, and the second one, the idle workers, is 0.
abbrev pub IsReceived : ℤ × ℤ → Type 0
IsReceived r = IsInt32 r.0 × (r.1 ≡ pos 0)

module _ {W : Type 0} (net : Net W) (queue_uri : Text) where
  pure-IsReceived :
      (received : ℤ) → IsInt32 received → Returns {S = Client W} IsReceived (pure (received, pos 0))
  pure-IsReceived received fits s x e =
      let same : (received, pos 0) ≡ x = cc in rw⁻¹ same (fits, refl)

  fail-IsReceived : (e : GoError) → Returns {S = Client W} IsReceived (fail e)
  fail-IsReceived e s x h = absurd cc

  -- Behind the parse of the priority, and behind the statistics of the job.
  abbrev released : (id pri : ℕ) → M (Client W) (ℤ × ℤ)
  released id pri = command net queue_uri (λ w. (ok tt, net.release id pri w)) >>= λ (u : Unit {0}).
      pure (pos 1, pos 0)

  abbrev stats_answered : (id : ℕ) → Dict Text → M (Client W) (ℤ × ℤ)
  stats_answered id stats =
      must_parse_uint (value_or_empty (lookup (codes "pri") stats)) >>= released id

  finish-IsReceived : (r : Reservation) → Returns IsReceived (finish net queue_uri r)
  finish-IsReceived (skipped e) = pure-IsReceived (pos 0) (omega arith, omega arith)
  finish-IsReceived (failed e) = fail-IsReceived made
  finish-IsReceived (reserved id) =
      on-Returns IsReceived (command net queue_uri (net.stats_job id)) (stats_answered id)
        (λ e. fail made)
        (λ stats.
          on-Returns IsReceived (must_parse_uint (value_or_empty (lookup (codes "pri") stats)))
            (released id) fail
            (λ pri.
              on-Returns IsReceived (command net queue_uri (λ w. (ok tt, net.release id pri w)))
                (λ (u : Unit {0}). pure (pos 1, pos 0)) fail
                (λ u. pure-IsReceived (pos 1) (omega arith, omega arith)) fail-IsReceived)
            fail-IsReceived)
        (λ e. fail-IsReceived made)

  receive-IsReceived :
      (interval : ℤ) → Returns IsReceived (long_poll_receive_message net queue_uri interval)
  unfolding long_poll_receive_message
  receive-IsReceived interval =
      on-Returns IsReceived (do_long_poll net queue_uri interval)
        (λ first.
          (if lost net queue_uri first
            then on (reestablish_conn net queue_uri) (λ _. do_long_poll net queue_uri interval)
                (λ _. pure first)
            else pure first)
          >>= finish net queue_uri)
        fail
        (λ first.
          on-Returns IsReceived
            (if lost net queue_uri first
              then on (reestablish_conn net queue_uri) (λ _. do_long_poll net queue_uri interval)
                  (λ _. pure first)
              else pure first)
            (finish net queue_uri) fail finish-IsReceived fail-IsReceived)
        fail-IsReceived

  -- A long poll reports no idle worker.
  pub long_poll-IsReceived : (b : Beanstalk) → Returns IsReceived (long_poll net b queue_uri)
  unfolding long_poll
  long_poll-IsReceived b =
      on-Returns IsReceived (get_client net queue_uri)
        (on_client net queue_uri (long_poll_receive_message net queue_uri b.long_poll_interval))
        fail (λ connected s x e. receive-IsReceived b.long_poll_interval _ x e)
        (λ e s x h. absurd cc)
