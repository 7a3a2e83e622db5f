-- ===== src/Queue/Beanstalk/Connection.antt =====
-- What becomes of a client whose connection to beanstalkd is lost and cannot be made again.
use k8s_worker_pod_autoscale.Base.{
  ◌≡◌, refl, Bool, true, false, Bool-cases, inl, inr, some, [], Text, text_eq_refl, ◌&&◌, pos,
  eqb_ℤ, lookup, lookup-insert,
}
use k8s_worker_pod_autoscale.Queue.Spec.{QueueSpec}
use k8s_worker_pod_autoscale.Queue.Beanstalk.{GoError, ok, err, crashes, M, Net, Client}
use k8s_worker_pod_autoscale.Queue.Beanstalk.Methods.{
  get_beanstalk_conn, reconnected, reestablish_conn, execute_get_stats, get_stats, do_long_poll,
  long_poll_receive_message,
}
use k8s_worker_pod_autoscale.Queue.Beanstalk.Poll.{
  Beanstalk, State, get_client, on_client, with_client, get_messages, long_poll, reestablish, poll,
}

module _ {W : Type 0} (net : Net W) (queue_uri : Text) where
  -- A connection that could not be made again is nil.
  reestablish_conn-nil :
      (c : Client W) {e : GoError}
      → (get_beanstalk_conn net queue_uri c.world).0 ≡ err e
      → (reestablish_conn net queue_uri c).1.connected ≡ false
  unfolding reestablish_conn
  reestablish_conn-nil c h = rw (h, reconnected)

  get_client-known :
      (s : State W) {connected : Bool}
      → lookup queue_uri s.client_pool ≡ some connected
      → get_client net queue_uri s ≡ (ok connected, s)
  unfolding get_client
  get_client-known s h = rw (h, get_client)

  with_known :
      {A : Type 0} (m : M (Client W) A) (s : State W) {connected : Bool}
      → lookup queue_uri s.client_pool ≡ some connected
      → with_client net queue_uri m s ≡ on_client net queue_uri m connected s
  with_known m s h = rw (get_client-known s h)

  get_messages-nil :
      (s : State W)
      → lookup queue_uri s.client_pool ≡ some false
      → (get_messages net queue_uri s).0 ≡ crashes
  unfolding get_messages get_stats execute_get_stats
  get_messages-nil s h = rw (with_known (get_stats net queue_uri) s h)

  long_poll-nil :
      (b : Beanstalk) (s : State W)
      → net.tube_set_nil ≡ false
      → lookup queue_uri s.client_pool ≡ some false
      → (long_poll net b queue_uri s).0 ≡ crashes
  unfolding long_poll long_poll_receive_message do_long_poll
  long_poll-nil b s t h =
      rw (with_known (long_poll_receive_message net queue_uri b.long_poll_interval) s h) (rw t)

  reestablish-known :
      (s : State W) {connected : Bool} {e : GoError}
      → lookup queue_uri s.client_pool ≡ some connected
      → (get_beanstalk_conn net queue_uri s.world).0 ≡ err e
      → lookup queue_uri (reestablish net queue_uri s).1.client_pool ≡ some false
  unfolding reestablish reestablish_conn
  reestablish-known s {connected} h f =
      rw (with_known (reestablish_conn net queue_uri) s h)
        (rw f (rw (lookup-insert queue_uri queue_uri false s.client_pool, text_eq_refl queue_uri)))

-- Where the client of a queue has lost its connection and the attempt to make it again fails, the
-- client is kept in the pool with a nil connection, and the next poll of a queue with that URI ends
-- the process before it has done anything, whether it is a long one or not. (The set of tubes that
-- the library makes is not nil.)
pub failed_reconnect_crashes_next_poll :
    {W : Type 0} (net : Net W) (b : Beanstalk) (key : Text) (spec : QueueSpec) (s : State W)
    {connected : Bool} {e : GoError}
    → net.tube_set_nil ≡ false
    → lookup spec.uri s.client_pool ≡ some connected
    → (get_beanstalk_conn net spec.uri s.world).0 ≡ err e
    → let next = poll net b key spec (reestablish net spec.uri s).1 in
      (next.crashed ≡ true) × (next.actions ≡ [])
unfolding poll
failed_reconnect_crashes_next_poll net b key spec s t h f =
    let nil = reestablish-known net spec.uri s h f in
    let s' = (reestablish net spec.uri s).1 in
    let long = long_poll-nil net spec.uri b s' t nil in
    let short = get_messages-nil net spec.uri s' nil in
    elim (Bool-cases (eqb_ℤ spec.workers (pos 0) && eqb_ℤ spec.messages (pos 0))) [
      | inl e ↦ rw e (rw long (refl, refl))
      | inr e ↦ rw e (rw short (refl, refl))
    ]
