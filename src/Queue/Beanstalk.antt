-- ===== src/Queue/Beanstalk.antt =====
-- pkg/queue/beanstalk.go: the client of one beanstalkd queue. The server and the network are a state
-- `W` with the operations of github.com/beanstalkd/go-beanstalk.
pub mod Methods
pub mod Poll
pub mod Returned
pub mod Connection
pub mod Errors
pub mod Idle
pub mod Tests
use k8s_worker_pod_autoscale.Base.{
  ℕ, ◌≡◌, Bool, true, false, Option, none, some, List, [], ◌∷◌, Text, codes, is_empty, decimal,
  parse_int32, if◌then◌else◌, ltb, ◌^◌, ℤ, pos, Dict, lookup,
}
use k8s_worker_pod_autoscale.Queue.Uri.{Url}

-- The errors that the code tells apart.
pub data Cause : Type 0 where
  not_found timed_out eof other_cause : Cause

-- `beanstalk.ConnError` with its `Err`, an error as it is, or a new one with a text.
pub data GoError : Type 0 where
  conn_error bare : Cause → GoError
  made : GoError

-- `crashes`: the process ends, by a panic or by klog.Fatalf.
pub data Reply {ℓ} (A : Type ℓ) : Type ℓ where
  ok : A → Reply A
  err : GoError → Reply A
  crashes : Reply A

-- A computation over the state `S`.
abbrev pub M : Type 0 → Type 0 → Type 0
M S A = S → Reply A × S

module _ {S A B : Type 0} where
  abbrev pub branch : Reply A → (A → M S B) → (GoError → M S B) → M S B
  branch (ok a) f g s = f a s
  branch (err e) f g s = g e s
  branch crashes f g s = (crashes, s)

  -- v, err := m; if err == nil { f(v) } else { g(err) }
  abbrev pub on : M S A → (A → M S B) → (GoError → M S B) → M S B
  on m f g s = branch (m s).0 f g (m s).1

  infixl 5 ◌>>=◌
  abbrev pub ◌>>=◌ : M S A → (A → M S B) → M S B
  ◌>>=◌ m f = on m f (λ e s. (err e, s))

abbrev pub pure : {S A : Type 0} → A → M S A
pure a s = (ok a, s)

abbrev pub fail : {S A : Type 0} → GoError → M S A
fail e s = (err e, s)

abbrev pub crash : {S A : Type 0} → M S A
crash s = (crashes, s)

-- A job for `Put`.
pub record Job : Type 0 where
  pub body : List ℕ
  pub pri : ℕ  -- uint32
  pub delay : ℤ
  pub ttr : ℤ

-- The library's operations, and what `net/url` makes of a URI. A dial may bring a nil connection.
pub record Net (W : Type 0) : Type 0 where
  pub parse : Text → Option Url
  pub dial : (host port : Text) → M W Bool
  pub tube_stats : (tube : Text) → M W (Dict Text)
  pub put : (tube : Text) → Job → M W ℕ
  pub tube_set_nil : Bool
  pub reserve : (tube : Text) → (timeout_seconds : ℤ) → M W ℕ
  pub stats_job : (id : ℕ) → M W (Dict Text)
  pub release : (id pri : ℕ) → W → W

-- `beanstalkClient`: whether its connection is not nil, beside the state of the world.
pub record Client (W : Type 0) : Type 0 where
  pub world : W
  pub connected : Bool

-- output[key], "" if it is missing
abbrev pub value_or_empty : Option Text → Text
value_or_empty none = []
value_or_empty (some s) = s

unfoldable pub must_parse_int : {S : Type 0} → Text → M S ℤ
must_parse_int s = elim (parse_int32 s) [ none ↦ crash | some n ↦ pure n ]

-- strconv.ParseUint(s, 10, 32)
abbrev pub parse_uint32 : Option ℕ → Option ℕ
parse_uint32 none = none
parse_uint32 (some n) = if ltb n (2 ^ 32) then some n else none

unfoldable pub must_parse_uint : {S : Type 0} → Text → M S ℕ
must_parse_uint s = elim (parse_uint32 (decimal s)) [ none ↦ crash | some n ↦ pure n ]

abbrev pub or_default : Text → Text → Text
or_default [] d = d
or_default (c ∷ s) d = c ∷ s

-- The host and the port of a queue.
unfoldable pub parse_beanstalk_queue_uri : (Text → Option Url) → Text → Option (Text × Text)
parse_beanstalk_queue_uri parse queue_uri = elim (parse queue_uri) [
  | none ↦ none
  | some u ↦ some (or_default u.hostname (codes "localhost"), or_default u.port (codes "11300"))
]
