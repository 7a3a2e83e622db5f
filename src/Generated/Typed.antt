-- ===== src/Generated/Typed.antt =====
-- pkg/generated/clientset/versioned/typed/workerpodautoscaler/v1/workerpodautoscaler.go: the requests
-- that the methods of `workerPodAutoScalers` make, where `ns` is the client's namespace.
use k8s_worker_pod_autoscale.Base.{
  ℕ, true, Option, none, some, List, [], ◌∷◌, Text, codes, ℤ, pos, times, wrap64,
}
use k8s_worker_pod_autoscale.Api.{WorkerPodAutoScaler}
use k8s_worker_pod_autoscale.Generated.{
  ListOptions, of_options, of_list_options, autoscaler, delete_options, bytes, namespace, resource,
  name, sub_resource, versioned_params, timeout, body, Verb, Request, does, watches,
}

abbrev pub resource_name : Text
resource_name = codes "workerpodautoscalers"

-- The timeout of a list, in nanoseconds: time.Duration(*opts.TimeoutSeconds) * time.Second.
unfoldable pub timeout_of : Option ℤ → ℤ
timeout_of none = pos 0
timeout_of (some seconds) = wrap64 (times 1_000_000_000 seconds)

module _ {P : Type 0} (ns : Text) where
  unfoldable pub get_autoscaler : (key : Text) → P → Request P
  get_autoscaler key options = record {
    verb = Verb.get;
    calls =
        namespace ns
        ∷ resource resource_name
        ∷ name key
        ∷ versioned_params (of_options options)
        ∷ [];
    sending = does;
  }

  unfoldable pub list_autoscalers : ListOptions P → Request P
  list_autoscalers opts = record {
    verb = Verb.get;
    calls =
        namespace ns
        ∷ resource resource_name
        ∷ versioned_params (of_list_options opts)
        ∷ timeout (timeout_of opts.timeout_seconds)
        ∷ [];
    sending = does;
  }

  unfoldable pub watch_autoscalers : ListOptions P → Request P
  watch_autoscalers opts = record {
    verb = Verb.get;
    calls =
        namespace ns
        ∷ resource resource_name
        ∷ versioned_params (of_list_options (record opts { watches = true }))
        ∷ timeout (timeout_of opts.timeout_seconds)
        ∷ [];
    sending = watches;
  }

  unfoldable pub create_autoscaler : WorkerPodAutoScaler → P → Request P
  create_autoscaler w opts = record {
    verb = Verb.post;
    calls =
        namespace ns
        ∷ resource resource_name
        ∷ versioned_params (of_options opts)
        ∷ body (autoscaler w)
        ∷ [];
    sending = does;
  }

  unfoldable pub update_autoscaler : WorkerPodAutoScaler → P → Request P
  update_autoscaler w opts = record {
    verb = Verb.put;
    calls =
        namespace ns
        ∷ resource resource_name
        ∷ name w.name
        ∷ versioned_params (of_options opts)
        ∷ body (autoscaler w)
        ∷ [];
    sending = does;
  }

  unfoldable pub update_autoscaler_status : WorkerPodAutoScaler → P → Request P
  update_autoscaler_status w opts = record {
    verb = Verb.put;
    calls =
        namespace ns
        ∷ resource resource_name
        ∷ name w.name
        ∷ sub_resource (codes "status" ∷ [])
        ∷ versioned_params (of_options opts)
        ∷ body (autoscaler w)
        ∷ [];
    sending = does;
  }

  unfoldable pub delete_autoscaler : (key : Text) → P → Request P
  delete_autoscaler key opts = record {
    verb = Verb.delete;
    calls = namespace ns ∷ resource resource_name ∷ name key ∷ body (delete_options opts) ∷ [];
    sending = does;
  }

  unfoldable pub delete_autoscalers : P → ListOptions P → Request P
  delete_autoscalers opts list_opts = record {
    verb = Verb.delete;
    calls =
        namespace ns
        ∷ resource resource_name
        ∷ versioned_params (of_list_options list_opts)
        ∷ timeout (timeout_of list_opts.timeout_seconds)
        ∷ body (delete_options opts)
        ∷ [];
    sending = does;
  }

  unfoldable pub patch_autoscaler :
      (key patch_type : Text) (data_bytes : List ℕ) → P → (subresources : List Text) → Request P
  patch_autoscaler key patch_type data_bytes opts subresources = record {
    verb = Verb.patch patch_type;
    calls =
        namespace ns
        ∷ resource resource_name
        ∷ name key
        ∷ sub_resource subresources
        ∷ versioned_params (of_options opts)
        ∷ body (bytes data_bytes)
        ∷ [];
    sending = does;
  }
