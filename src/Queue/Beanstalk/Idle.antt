-- ===== src/Queue/Beanstalk/Idle.antt =====
-- What a poll of beanstalkd says of the workers, and of which queue.
use k8s_worker_pod_autoscale.Base.{
  ◌≡◌, ◌≢◌, refl, Bool, true, false, ◌⊎◌, inl, inr, List, [], ◌∷◌, All, All-append, Text, if-elim,
  ◌&&◌, not, ℤ, pos, minus_one, ◌+ℤ◌, ◌≤ℤ◌, ltb_ℤ, eqb_ℤ, eq_of_parts, wrap32, wrap32-IsInt32,
  IsInt32, arith, lookup, is_some,
}
use k8s_worker_pod_autoscale.Queue.Spec.{QueueSpec, Items}
use k8s_worker_pod_autoscale.Queue.Sync.Keys.{messages_are, idle_workers_are}
use k8s_worker_pod_autoscale.Queue.Service.{Action, calls, sleeps}
use k8s_worker_pod_autoscale.Queue.Isolation.{ActsOn, served, ActsOn-served}
use k8s_worker_pod_autoscale.Queue.Beanstalk.{Reply, ok, err, crashes, Net}
use k8s_worker_pod_autoscale.Queue.Beanstalk.Poll.{
  Beanstalk, State, Polled, get_messages, get_idle_workers, long_poll, reestablish, is_crash,
  after_error, is_not_found, after_long_poll, after_idle, poll_counted, after_messages, poll,
}
use k8s_worker_pod_autoscale.Queue.Beanstalk.Returned.{long_poll-IsReceived}

module _ {W : Type 0} (net : Net W) (b : Beanstalk) (key : Text) (spec : QueueSpec)
    (s : State W) where
  -- The condition of a long poll: no worker runs, and no message was counted.
  abbrev pub is_long : Bool
  is_long = eqb_ℤ spec.workers (pos 0) && eqb_ℤ spec.messages (pos 0)

  -- Why a poll may do something.
  pub record Allows {ℓ} (P : Action → Type ℓ) : Type ℓ where
    pub idle_unknown : is_long ≡ false → P (calls (idle_workers_are key minus_one))
    pub messages : (n : ℤ) → IsInt32 n → P (calls (messages_are key n))
    pub sleeping : (t : ℤ) → P (sleeps t)
    pub long_idle :
        (received idle : ℤ)
        → is_long ≡ true
        → (long_poll net b spec.uri s).0 ≡ ok (received, idle)
        → P (calls (idle_workers_are key idle))
    pub idle :
        (reserved idle : ℤ)
        → is_long ≡ false
        → (get_messages net spec.uri s).0 ≡ ok (pos 0, reserved)
        → reserved ≤ℤ pos 0
        → (get_idle_workers net spec.uri (get_messages net spec.uri s).1).0 ≡ ok idle
        → P (calls (idle_workers_are key idle))

  module _ {ℓ} (P : Action → Type ℓ) (allows : Allows P) where
    abbrev Holds : Polled W → Type ℓ
    Holds p = All P p.actions

    All-after_error :
        (before rest : List Action) (s' : State W)
        → All P before
        → All P rest
        → All P (after_error net b key spec before rest s').actions
    All-after_error before rest s' h k =
        if-elim Holds (is_crash net (reestablish net spec.uri s').0) (λ _. h)
          (λ _. All-append P before rest h k)

    All-after_long_poll :
        (r : Reply (ℤ × ℤ)) (s' : State W)
        → is_long ≡ true
        → (long_poll net b spec.uri s).0 ≡ r
        → All P (after_long_poll net b key spec r s').actions
    All-after_long_poll (ok (received, idle)) s' long e = (
      allows.messages received (long_poll-IsReceived net spec.uri b s _ e).0,
      (allows.long_idle received idle long e, tt),
    )
    All-after_long_poll (err x) s' long e =
        if-elim Holds (is_not_found net b key spec x) (λ _. tt)
          (λ _. All-after_error [] [] s' tt tt)
    All-after_long_poll crashes s' long e = tt

    All-after_idle :
        (before : List Action) (reserved : ℤ) (r : Reply ℤ) (s' : State W)
        → is_long ≡ false
        → All P before
        → (get_messages net spec.uri s).0 ≡ ok (pos 0, reserved)
        → reserved ≤ℤ pos 0
        → (get_idle_workers net spec.uri (get_messages net spec.uri s).1).0 ≡ r
        → All P (after_idle net b key spec before r s').actions
    All-after_idle before reserved (ok idle) s' short h e none_reserved f =
        All-append P before _ h
          (allows.idle reserved idle short e none_reserved f, (allows.sleeping _, tt))
    All-after_idle before reserved (err x) s' short h e none_reserved f =
        All-after_error before _ s' h (allows.sleeping _, tt)
    All-after_idle before reserved crashes s' short h e none_reserved f = h

    All-poll_counted :
        (waiting reserved : ℤ)
        → is_long ≡ false
        → (get_messages net spec.uri s).0 ≡ ok (waiting, reserved)
        → All P
            (poll_counted net b key spec waiting reserved (get_messages net spec.uri s).1).actions
    unfolding poll_counted
    All-poll_counted waiting reserved short e =
        if-elim Holds (not (eqb_ℤ waiting (pos 0)))
          (λ _. (
            allows.messages _ (wrap32-IsInt32 (waiting +ℤ reserved)),
            (allows.idle_unknown short, (allows.sleeping _, tt)),
          ))
          (λ none_waiting.
            if-elim Holds (ltb_ℤ (pos 0) reserved)
              (λ _.
                (allows.messages _ (wrap32-IsInt32 (waiting +ℤ reserved)), (allows.sleeping _, tt)))
              (λ none_reserved.
                let zero_waiting : waiting ≡ pos 0 = eq_of_parts waiting (pos 0) (ground arith) in
                All-after_idle (calls (messages_are key (wrap32 (waiting +ℤ reserved))) ∷ [])
                  reserved _ _ short (allows.messages _ (wrap32-IsInt32 (waiting +ℤ reserved)), tt)
                  (rw zero_waiting at e) (ground arith) refl))

    All-after_messages :
        (r : Reply (ℤ × ℤ))
        → is_long ≡ false
        → (get_messages net spec.uri s).0 ≡ r
        → All P (after_messages net b key spec r (get_messages net spec.uri s).1).actions
    All-after_messages (ok (waiting, reserved)) short e = All-poll_counted waiting reserved short e
    All-after_messages (err x) short e = All-after_error [] [] _ tt tt
    All-after_messages crashes short e = tt

    -- Whatever is allowed in each place where a poll acts holds of all that it does.
    pub All-poll : All P (poll net b key spec s).actions
    unfolding poll
    All-poll =
        if-elim Holds is_long (λ long. All-after_long_poll _ _ long refl)
          (λ short. All-after_messages _ short refl)

pub beanstalk-ActsOn :
    {W : Type 0} (net : Net W) (b : Beanstalk) (key : Text) (spec : QueueSpec) (s : State W)
    → All (ActsOn key) (poll net b key spec s).actions
beanstalk-ActsOn net b key spec s = All-poll net b key spec s _ (record {
  idle_unknown = λ short. refl;
  messages = λ n fits. refl;
  sleeping = λ t. tt;
  long_idle = λ received idle long e. refl;
  idle = λ reserved idle short e f g. refl;
})

-- A poll of beanstalkd, whatever the server and the network do, leaves every other queue of the map
-- as it was, and neither adds nor removes its own: once its requests are served, each key has a queue
-- exactly if it had one.
beanstalk_poll_isolated :
    {W : Type 0} (net : Net W) (b : Beanstalk) (key : Text) (spec : QueueSpec) (s : State W)
    (k : Text) (item : Items)
    → let after = served (poll net b key spec s).actions item in
      (k ≢ key → lookup k after ≡ lookup k item)
      × (is_some (lookup k after) ≡ is_some (lookup k item))
beanstalk_poll_isolated net b key spec s k item =
    ActsOn-served key k _ item (beanstalk-ActsOn net b key spec s)

-- What an action says of idle workers.
abbrev pub IdleReason :
    {W : Type 0} → Net W → Beanstalk → Text → QueueSpec → State W → Action → Type 0
IdleReason net b key spec s (calls (idle_workers_are k n)) =
    ((is_long net b key spec s ≡ true) × (n ≡ pos 0))
    ⊎ ((is_long net b key spec s ≡ false) × (n ≡ minus_one))
    ⊎ ((is_long net b key spec s ≡ false)
        × ((reserved : ℤ) × ((get_messages net spec.uri s).0 ≡ ok (pos 0, reserved))
            × (reserved ≤ℤ pos 0)
            × ((get_idle_workers net spec.uri (get_messages net spec.uri s).1).0 ≡ ok n)))
IdleReason net b key spec s a = Unit

-- Whatever the server and the network do, a long poll of beanstalkd, which is one of a queue with no
-- workers and no messages, reports no idle worker (0) if it reports any number. Another poll reports
-- a number other than unknown (-1) only if no job was waiting and none was reserved, and then the
-- number is that of the waiting workers that the statistics told after that.
pub beanstalk_idle_only_if_quiet :
    {W : Type 0} (net : Net W) (b : Beanstalk) (key : Text) (spec : QueueSpec) (s : State W)
    → All (IdleReason net b key spec s) (poll net b key spec s).actions
beanstalk_idle_only_if_quiet net b key spec s = All-poll net b key spec s _ (record {
  idle_unknown = λ short. inr (inl (short, refl));
  messages = λ n fits. tt;
  sleeping = λ t. tt;
  long_idle = λ received idle long e. inl (long, (long_poll-IsReceived net spec.uri b s _ e).1);
  idle = λ reserved idle short e f g. inr (inr (short, (reserved, e, f, g)));
})
