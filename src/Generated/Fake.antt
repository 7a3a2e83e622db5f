-- ===== src/Generated/Fake.antt =====
-- pkg/generated/clientset/versioned/typed/workerpodautoscaler/v1/fake/fake_workerpodautoscaler.go:
-- the actions that the methods of `FakeWorkerPodAutoScalers` invoke, where `ns` is the client's
-- namespace, and what they make of the answers.
use k8s_worker_pod_autoscale.Base.{
  ℕ, Bool, Option, none, some, List, [], ◌∷◌, Text, codes, if◌then◌else◌,
}
use k8s_worker_pod_autoscale.Api.{WorkerPodAutoScaler}
use k8s_worker_pod_autoscale.Generated.{ListOptions}

-- schema.GroupVersionResource
pub record GroupVersionResource : Type 0 where
  pub group : Text
  pub version : Text
  pub resource : Text

abbrev pub autoscalers_resource : GroupVersionResource
autoscalers_resource = record {
  group = codes "k8s.practo.dev";
  version = codes "v1";
  resource = codes "workerpodautoscalers";
}

-- The actions of k8s.io/client-go/testing, by their constructors.
pub data Action (P : Type 0) : Type 0 where
  get_action : GroupVersionResource → (ns name : Text) → Action P
  list_action : GroupVersionResource → (kind ns : Text) → ListOptions P → Action P
  watch_action : GroupVersionResource → (ns : Text) → ListOptions P → Action P
  create_action update_action : GroupVersionResource → (ns : Text) → WorkerPodAutoScaler → Action P
  update_subresource_action :
      GroupVersionResource → (subresource ns : Text) → WorkerPodAutoScaler → Action P
  delete_action : GroupVersionResource → (ns name : Text) → Action P
  delete_collection_action : GroupVersionResource → (ns : Text) → ListOptions P → Action P
  patch_subresource_action :
      GroupVersionResource
      → (ns name patch_type : Text) (data_bytes : List ℕ) (subresources : List Text) → Action P

module _ {P : Type 0} (ns : Text) where
  unfoldable pub get_autoscaler : (key : Text) → P → Action P
  get_autoscaler key options = get_action autoscalers_resource ns key

  unfoldable pub list_autoscalers : ListOptions P → Action P
  list_autoscalers opts = list_action autoscalers_resource (codes "WorkerPodAutoScaler") ns opts

  unfoldable pub watch_autoscalers : ListOptions P → Action P
  watch_autoscalers opts = watch_action autoscalers_resource ns opts

  unfoldable pub create_autoscaler : WorkerPodAutoScaler → P → Action P
  create_autoscaler w opts = create_action autoscalers_resource ns w

  unfoldable pub update_autoscaler : WorkerPodAutoScaler → P → Action P
  update_autoscaler w opts = update_action autoscalers_resource ns w

  unfoldable pub update_autoscaler_status : WorkerPodAutoScaler → P → Action P
  update_autoscaler_status w opts =
      update_subresource_action autoscalers_resource (codes "status") ns w

  unfoldable pub delete_autoscaler : (key : Text) → P → Action P
  delete_autoscaler key opts = delete_action autoscalers_resource ns key

  unfoldable pub delete_autoscalers : P → ListOptions P → Action P
  delete_autoscalers opts list_opts = delete_collection_action autoscalers_resource ns list_opts

  unfoldable pub patch_autoscaler :
      (key patch_type : Text) (data_bytes : List ℕ) → P → (subresources : List Text) → Action P
  patch_autoscaler key patch_type data_bytes opts subresources =
      patch_subresource_action autoscalers_resource ns key patch_type data_bytes subresources

-- The loop over the items of the answer to a list. `label` is the selector of the options, which
-- selects everything where it is nil.
unfoldable pub matching : {A : Type 0} → (label : Option (A → Bool)) → (items : List A) → List A
matching label [] = []
matching none (item ∷ items) = item ∷ matching none items
matching (some matches) (item ∷ items) =
    let rest = matching (some matches) items in if matches item then item ∷ rest else rest

-- What `List` returns of the answer, which may be nil.
unfoldable pub list_answer :
    {A : Type 0} → (label : Option (A → Bool)) → Option (List A) → Option (List A)
unfolding matching
list_answer label none = none
list_answer label (some items) = some (matching label items)
