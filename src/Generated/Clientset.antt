-- ===== src/Generated/Clientset.antt =====
-- pkg/generated/clientset/versioned: `NewForConfig` of clientset.go and of the client for the group
-- (workerpodautoscaler_client.go). The REST clients are client-go's.
use k8s_worker_pod_autoscale.Base.{
  Bool, true, false, ◌&&◌, not, Option, none, some, Text, codes, is_empty, if◌then◌else◌, ℤ, pos,
  leb_ℤ,
}

-- The fields of rest.Config that the code reads or sets: whether there is a rate limiter, whether QPS
-- is above 0, Burst, the group and version, the path and the user agent.
pub record RestConfig : Type 0 where
  pub has_rate_limiter : Bool
  pub has_qps : Bool
  pub burst : ℤ
  pub group_version : Option (Text × Text)
  pub api_path : Text
  pub user_agent : Text

-- What the libraries make of a configuration: whether rest.RESTClientFor and
-- discovery.NewDiscoveryClientForConfig give a client, and the user agent that is the default.
pub record RestLibrary : Type 0 where
  pub rest_client_for : RestConfig → Bool
  pub discovery_client_for : RestConfig → Bool
  pub default_user_agent : Text

-- The rate limiter of the copy: none is the error about the burst.
unfoldable pub rate_limited : RestConfig → Option RestConfig
rate_limited c =
    if not c.has_rate_limiter && c.has_qps
    then if leb_ℤ c.burst (pos 0) then none else some (record c { has_rate_limiter = true })
    else some c

unfoldable pub set_config_defaults : RestLibrary → RestConfig → RestConfig
set_config_defaults library config = record config {
  group_version = some (codes "k8s.practo.dev", codes "v1");
  api_path = codes "/apis";
  user_agent = if is_empty config.user_agent then library.default_user_agent else config.user_agent;
}

-- `NewForConfig` of the group: whether there is a client.
unfoldable pub group_client_for : RestLibrary → RestConfig → Bool
unfolding set_config_defaults
group_client_for library c = library.rest_client_for (set_config_defaults library c)

-- `NewForConfig`: whether there is a clientset.
unfoldable pub new_for_config : RestLibrary → RestConfig → Bool
unfolding rate_limited group_client_for
new_for_config library c = elim (rate_limited c) [
  | none ↦ false
  | some c' ↦ group_client_for library c' && library.discovery_client_for c'
]
