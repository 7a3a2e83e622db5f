-- ===== src/Command/Flags.antt =====
-- cmd/workerpodautoscaler/run.go: the flags of `run`, and how pkg/cmdutil binds each to a variable of
-- the environment. The errors of viper are a parameter.
pub mod Variables
pub mod Tests
use k8s_worker_pod_autoscale.Base.{
  ℕ, ◌-◌, ◌==◌, leb, Bool, true, false, ◌&&◌, ◌||◌, List, [], ◌∷◌, ◌++◌, map, Text, codes, text_eq,
  if◌then◌else◌, ℤ, pos, Outcome, returns, fatal,
}

-- The value of a flag that is not given.
pub data Default : Type 0 where
  int_default : ℤ → Default
  string_default : Text → Default
  -- A float64 that is a whole number.
  float_default : ℤ → Default

-- The flags that `new` declares, with their defaults.
unfoldable pub declared_flags : List (Text × Default)
declared_flags =
    (codes "scale-down-delay-after-last-scale-activity", int_default (pos 600))
    ∷ (codes "resync-period", int_default (pos 20))
    ∷ (codes "wpa-threads", int_default (pos 10))
    ∷ (codes "wpa-default-max-disruption", string_default (codes "100%"))
    ∷ (codes "aws-regions", string_default (codes "ap-south-1,ap-southeast-1"))
    ∷ (codes "kube-config", string_default [])
    ∷ (codes "sqs-short-poll-interval", int_default (pos 20))
    ∷ (codes "sqs-long-poll-interval", int_default (pos 20))
    ∷ (codes "beanstalk-short-poll-interval", int_default (pos 20))
    ∷ (codes "beanstalk-long-poll-interval", int_default (pos 20))
    ∷ (codes "queue-services", string_default (codes "sqs,beanstalkd"))
    ∷ (codes "metrics-port", string_default (codes ":8787"))
    ∷ (codes "k8s-api-qps", float_default (pos 5))
    ∷ (codes "k8s-api-burst", int_default (pos 10))
    ∷ (codes "namespace", string_default [])
    ∷ []

-- `flagNames`
unfoldable pub flag_names : List Text
flag_names =
    codes "scale-down-delay-after-last-scale-activity"
    ∷ codes "resync-period"
    ∷ codes "wpa-threads"
    ∷ codes "wpa-default-max-disruption"
    ∷ codes "aws-regions"
    ∷ codes "kube-config"
    ∷ codes "sqs-short-poll-interval"
    ∷ codes "sqs-long-poll-interval"
    ∷ codes "beanstalk-short-poll-interval"
    ∷ codes "beanstalk-long-poll-interval"
    ∷ codes "queue-services"
    ∷ codes "metrics-port"
    ∷ codes "k8s-api-qps"
    ∷ codes "k8s-api-burst"
    ∷ codes "namespace"
    ∷ []

-- What strings.ToUpper and strings.Replace of "-" by "_" make of a byte of ASCII text. The root and the
-- names of all flags are ASCII, and no other text is handed to them.
unfoldable pub to_upper : ℕ → ℕ
to_upper c = if leb b'a' c && leb c b'z' then c - 32 else c

unfoldable pub underscored : ℕ → ℕ
underscored c = if c == b'-' then b'_' else c

-- The variable of a flag: the root, an underscore and the name.
unfoldable pub variable_of : (root name : Text) → Text
variable_of root name = map underscored (map to_upper (root ++ (b'_' ∷ name)))

-- cmd.Flags().Lookup(name) != nil
unfoldable pub is_declared : Text → List (Text × Default) → Bool
is_declared name [] = false
is_declared name ((n, d) ∷ flags) =
    let rest = is_declared name flags in if text_eq n name then true else rest

-- `BindFlag` for each name: the flags with their variables, or the end of the process, by an error of
-- viper or by the nil flag that an undeclared name has.
unfoldable pub bind_flags :
    (binds : (name variable : Text) → Bool)
    → List (Text × Default)
    → (root : Text) (names : List Text) → Outcome (List (Text × Text))
bind_flags binds declared root [] = returns []
bind_flags binds declared root (name ∷ names) =
    let rest = bind_flags binds declared root names in
    if is_declared name declared && binds name (variable_of root name)
    then elim rest [
      | fatal ↦ fatal
      | returns bound ↦ returns ((name, variable_of root name) ∷ bound)
    ]
    else fatal
