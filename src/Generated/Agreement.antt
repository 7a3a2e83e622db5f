-- ===== src/Generated/Agreement.antt =====
-- The two clients say the same: each action that the client of the tests invokes describes the
-- request that the typed client makes.
use k8s_worker_pod_autoscale.Base.{◌≡◌, refl, ℕ, Option, none, some, List, [], ◌∷◌, Text, codes}
use k8s_worker_pod_autoscale.Api.{WorkerPodAutoScaler}
use k8s_worker_pod_autoscale.Generated.{
  ListOptions, of_options, of_list_options, autoscaler, delete_options, bytes, RestCall, namespace,
  resource, name, sub_resource, versioned_params, timeout, body, Verb, Request, Sending, does,
  watches,
}
use k8s_worker_pod_autoscale.Generated.Fake.{
  Action, get_action, list_action, watch_action, create_action, update_action,
  update_subresource_action, delete_action, delete_collection_action, patch_subresource_action,
}
use k8s_worker_pod_autoscale.Generated.Typed
use k8s_worker_pod_autoscale.Generated.Fake

-- A call of a method of `WorkerPodAutoScalerInterface`.
pub data Method (P : Type 0) : Type 0 where
  get_one : (key : Text) → P → Method P
  list_all watch_all : ListOptions P → Method P
  create_one update_one update_status : WorkerPodAutoScaler → P → Method P
  delete_one : (key : Text) → P → Method P
  delete_all : P → ListOptions P → Method P
  patch_one :
      (key patch_type : Text) (data_bytes : List ℕ) → P → (subresources : List Text) → Method P

-- What the API server reads off a request: the verb, the place, the selectors of a list (the fields
-- of its options that the code leaves alone), and the object or patch.
pub record Described (P : Type 0) : Type 0 where
  pub verb : Text
  pub in_namespace : Text
  pub of_resource : Text
  pub object_name : Option Text
  pub subresources : List Text
  pub selected_by : Option P
  pub object : Option WorkerPodAutoScaler
  pub patched : Option (Text × List ℕ)

-- The verb of the API that an HTTP method stands for, with a name and without one.
unfoldable verb_text : Verb → Sending → Option Text → Text
verb_text Verb.get watches n = codes "watch"
verb_text Verb.get does none = codes "list"
verb_text Verb.get does (some n) = codes "get"
verb_text Verb.post sending n = codes "create"
verb_text Verb.put sending n = codes "update"
verb_text Verb.delete sending none = codes "delete-collection"
verb_text Verb.delete sending (some n) = codes "delete"
verb_text (Verb.patch t) sending n = codes "patch"

unfoldable patched_by : Verb → List ℕ → Option (Text × List ℕ)
patched_by (Verb.patch patch_type) data_bytes = some (patch_type, data_bytes)
patched_by v data_bytes = none

module _ {P : Type 0} where
  unfoldable nothing_yet : (verb : Text) → Described P
  nothing_yet verb = record {
    verb = verb;
    in_namespace = [];
    of_resource = [];
    object_name = none;
    subresources = [];
    selected_by = none;
    object = none;
    patched = none;
  }

  -- The name that the calls give.
  unfoldable name_of : List (RestCall P) → Option Text
  name_of [] = none
  name_of (name n ∷ calls) = some n
  name_of (c ∷ calls) = name_of calls

  unfoldable describe_call : Verb → RestCall P → Described P → Described P
  unfolding patched_by
  describe_call v (namespace ns) d = record d { in_namespace = ns }
  describe_call v (resource r) d = record d { of_resource = r }
  describe_call v (name n) d = record d { object_name = some n }
  describe_call v (sub_resource s) d = record d { subresources = s }
  describe_call v (versioned_params (of_options o)) d = d
  describe_call v (versioned_params (of_list_options o)) d = record d {
    selected_by = some o.others;
  }
  describe_call v (timeout t) d = d
  describe_call v (body (autoscaler w)) d = record d { object = some w }
  describe_call v (body (delete_options o)) d = d
  describe_call v (body (bytes b)) d = record d { patched = patched_by v b }

  unfoldable describe_calls : Verb → List (RestCall P) → Described P → Described P
  describe_calls v [] d = d
  describe_calls v (c ∷ calls) d = describe_calls v calls (describe_call v c d)

  unfoldable pub described_request : Request P → Described P
  unfolding describe_calls describe_call nothing_yet name_of verb_text
  described_request r =
      describe_calls r.verb r.calls (nothing_yet (verb_text r.verb r.sending (name_of r.calls)))

  -- What an action of the tests says, by the documentation of its constructor.
  unfoldable pub described_action : Action P → Described P
  unfolding nothing_yet
  described_action (get_action r ns n) = record (nothing_yet (codes "get")) {
    in_namespace = ns;
    of_resource = r.resource;
    object_name = some n;
  }
  described_action (list_action r kind ns o) = record (nothing_yet (codes "list")) {
    in_namespace = ns;
    of_resource = r.resource;
    selected_by = some o.others;
  }
  described_action (watch_action r ns o) = record (nothing_yet (codes "watch")) {
    in_namespace = ns;
    of_resource = r.resource;
    selected_by = some o.others;
  }
  described_action (create_action r ns w) = record (nothing_yet (codes "create")) {
    in_namespace = ns;
    of_resource = r.resource;
    object = some w;
  }
  described_action (update_action r ns w) = record (nothing_yet (codes "update")) {
    in_namespace = ns;
    of_resource = r.resource;
    object_name = some w.name;
    object = some w;
  }
  described_action (update_subresource_action r subresource ns w) =
      record (nothing_yet (codes "update")) {
        in_namespace = ns;
        of_resource = r.resource;
        object_name = some w.name;
        subresources = subresource ∷ [];
        object = some w;
      }
  described_action (delete_action r ns n) = record (nothing_yet (codes "delete")) {
    in_namespace = ns;
    of_resource = r.resource;
    object_name = some n;
  }
  described_action (delete_collection_action r ns o) =
      record (nothing_yet (codes "delete-collection")) {
        in_namespace = ns;
        of_resource = r.resource;
        selected_by = some o.others;
      }
  described_action (patch_subresource_action r ns n patch_type data_bytes subresources) =
      record (nothing_yet (codes "patch")) {
        in_namespace = ns;
        of_resource = r.resource;
        object_name = some n;
        subresources = subresources;
        patched = some (patch_type, data_bytes);
      }

  module _ (ns : Text) where
    unfoldable pub typed_request : Method P → Request P
    unfolding Typed.get_autoscaler Typed.list_autoscalers Typed.watch_autoscalers
        Typed.create_autoscaler Typed.update_autoscaler Typed.update_autoscaler_status
        Typed.delete_autoscaler Typed.delete_autoscalers Typed.patch_autoscaler
    typed_request (get_one key o) = Typed.get_autoscaler ns key o
    typed_request (list_all o) = Typed.list_autoscalers ns o
    typed_request (watch_all o) = Typed.watch_autoscalers ns o
    typed_request (create_one w o) = Typed.create_autoscaler ns w o
    typed_request (update_one w o) = Typed.update_autoscaler ns w o
    typed_request (update_status w o) = Typed.update_autoscaler_status ns w o
    typed_request (delete_one key o) = Typed.delete_autoscaler ns key o
    typed_request (delete_all o list_opts) = Typed.delete_autoscalers ns o list_opts
    typed_request (patch_one key t b o s) = Typed.patch_autoscaler ns key t b o s

    unfoldable pub fake_action : Method P → Action P
    unfolding Fake.get_autoscaler Fake.list_autoscalers Fake.watch_autoscalers
        Fake.create_autoscaler Fake.update_autoscaler Fake.update_autoscaler_status
        Fake.delete_autoscaler Fake.delete_autoscalers Fake.patch_autoscaler
    fake_action (get_one key o) = Fake.get_autoscaler ns key o
    fake_action (list_all o) = Fake.list_autoscalers ns o
    fake_action (watch_all o) = Fake.watch_autoscalers ns o
    fake_action (create_one w o) = Fake.create_autoscaler ns w o
    fake_action (update_one w o) = Fake.update_autoscaler ns w o
    fake_action (update_status w o) = Fake.update_autoscaler_status ns w o
    fake_action (delete_one key o) = Fake.delete_autoscaler ns key o
    fake_action (delete_all o list_opts) = Fake.delete_autoscalers ns o list_opts
    fake_action (patch_one key t b o s) = Fake.patch_autoscaler ns key t b o s

-- Whatever method of the clients is called, the action that the client of the tests records says what
-- the request of the typed client says: the same verb of the API, namespace, resource, name and
-- subresources, the same selectors of a list, and the same object or patch. So a test that looks at
-- the actions sees what the API server would be asked.
pub fake_described :
    {P : Type 0} (ns : Text) (m : Method P)
    → described_action (fake_action ns m) ≡ described_request (typed_request ns m)
unfolding described_action described_request fake_action typed_request
fake_described ns (get_one key o) = refl
fake_described ns (list_all o) = refl
fake_described ns (watch_all o) = refl
fake_described ns (create_one w o) = refl
fake_described ns (update_one w o) = refl
fake_described ns (update_status w o) = refl
fake_described ns (delete_one key o) = refl
fake_described ns (delete_all o list_opts) = refl
fake_described ns (patch_one key t b o s) = refl
