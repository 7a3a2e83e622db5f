-- ===== src/Queue/Uri.antt =====
-- pkg/queue/queue.go and queue_service.go: what the code reads off the URI of a queue.
pub mod Laws
use k8s_worker_pod_autoscale.Base.{
  ℕ, Bool, true, false, ◌&&◌, Option, none, some, List, [], ◌∷◌, ◌++◌, Text, codes, text_eq, slash,
  split, last_or, part_at, ◌==◌, leb, not, if◌then◌else◌,
}

-- What the code reads of a parsed URI: `Scheme`, `Host`, `Hostname()` and `Port()`.
pub record Url : Type 0 where
  pub scheme : Text
  pub host : Text
  pub hostname : Text
  pub port : Text

-- `url.Parse`; none is an error.
abbrev pub UrlParser : Type 0
UrlParser = Text → Option Url

unfoldable pub parse_queue_uri : UrlParser → Text → Option (Text × Text)
parse_queue_uri parse uri = elim (parse uri) [ none ↦ none | some u ↦ some (u.scheme, u.host) ]

unfoldable pub get_queue_name : Text → Text
get_queue_name name = last_or [] (split slash name)

unfoldable pub get_key : Text → Text → Text
get_key namespace name = namespace ++ (slash ∷ name)

-- A character class of the pattern for the hosts of SQS.
pub data Class : Type 0 where
  lit : ℕ → Class
  any lower digit : Class

unfoldable pub in_class : Class → ℕ → Bool
in_class (lit b) c = c == b
in_class any c = not (c == b'\n')
in_class lower c = leb b'a' c && leb c b'z'
in_class digit c = leb b'0' c && leb c b'9'

-- What follows a match of the classes at the start of the text.
unfoldable pub after_match : List Class → Text → Option Text
unfolding in_class
after_match [] s = some s
after_match (k ∷ ks) [] = none
after_match (k ∷ ks) (c ∷ s) = let rest = after_match ks s in if in_class k c then rest else none

-- What follows `[a-z]*`; the pattern goes on with `-`, so the star takes all letters.
unfoldable pub skip_lower : Text → Text
unfolding in_class
skip_lower [] = []
skip_lower (c ∷ s) = let rest = skip_lower s in if in_class lower c then rest else c ∷ s

abbrev pub literals : Text → List Class → List Class
literals [] ks = ks
literals (c ∷ s) ks = lit c ∷ literals s ks

abbrev pub before_star : List Class
before_star = literals (codes "sqs") (any ∷ lower ∷ lower ∷ lit b'-' ∷ [])

abbrev pub behind_star : List Class
behind_star =
    lit b'-' ∷ digit ∷ any ∷ literals (codes "amazonaws") (any ∷ literals (codes "com") [])

-- regexp.MatchString("^sqs.[a-z][a-z]-[a-z]*-[0-9]{1}.amazonaws.com", host), for a host in ASCII.
-- The pattern is valid, so there is no error.
unfoldable pub is_sqs_host : Text → Bool
is_sqs_host host = elim (after_match before_star host) [
  | none ↦ false
  | some rest ↦ elim (after_match behind_star (skip_lower rest)) [ none ↦ false | some s ↦ true ]
]

abbrev pub sqs_queue_service : Text
sqs_queue_service = codes "sqs"

abbrev pub beanstalk_queue_service : Text
beanstalk_queue_service = codes "beanstalkd"

abbrev pub beanstalk_protocol : Text
beanstalk_protocol = codes "beanstalk"

-- Whether the service is supported, and its name.
unfoldable pub get_queue_service_name : (host protocol : Text) → Bool × Text
unfolding is_sqs_host
get_queue_service_name host protocol =
    if is_sqs_host host
    then (true, sqs_queue_service)
    else if text_eq protocol beanstalk_protocol
    then (true, beanstalk_queue_service)
    else (false, [])

-- pkg/queue/sqs.go; none where an index is out of range and the process panics.
unfoldable pub get_region : Text → Option Text
get_region queue_uri = elim (part_at 2 (split slash queue_uri)) [
  | none ↦ none
  | some region_dns ↦ part_at 1 (split b'.' region_dns)
]
