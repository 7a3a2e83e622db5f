-- ===== src/Generated.antt =====
-- pkg/generated: the typed client of the autoscalers, the client that stands in for it in tests,
-- the informers and the listers. The REST client, the tracker of the tests, the shared informers and
-- the indexers are client-go's: what is called of them is a list of calls, or a parameter.
pub mod Typed
pub mod Fake
pub mod Agreement
pub mod Factory
pub mod Sound
pub mod Begun
pub mod Kept
pub mod Started
pub mod Informers
pub mod Confined
pub mod Lister
pub mod Cached
pub mod Clientset
pub mod Refused
pub mod Tests
use k8s_worker_pod_autoscale.Base.{Bool, Option, List, Text, ℤ, ℕ}
use k8s_worker_pod_autoscale.Api.{WorkerPodAutoScaler}

-- metav1.ListOptions: the fields that the code reads or sets, and the others.
pub record ListOptions (P : Type 0) : Type 0 where
  pub timeout_seconds : Option ℤ
  pub watches : Bool
  pub others : P

-- What is given to VersionedParams: options of a single object, or those of a list.
pub data Params (P : Type 0) : Type 0 where
  of_options : P → Params P
  of_list_options : ListOptions P → Params P

pub data Payload (P : Type 0) : Type 0 where
  autoscaler : WorkerPodAutoScaler → Payload P
  delete_options : P → Payload P
  bytes : List ℕ → Payload P

-- A call of a method of rest.Request.
pub data RestCall (P : Type 0) : Type 0 where
  namespace : Text → RestCall P
  resource : Text → RestCall P
  name : Text → RestCall P
  sub_resource : List Text → RestCall P
  versioned_params : Params P → RestCall P
  timeout : ℤ → RestCall P
  body : Payload P → RestCall P

-- The HTTP method that a request begins with; a patch has a type.
pub data Verb : Type 0 where
  get post put delete : Verb
  patch : (patch_type : Text) → Verb

-- How a request is sent: Do, or Watch.
pub data Sending : Type 0 where
  does watches : Sending

-- The calls that make a request, in order.
pub record Request (P : Type 0) : Type 0 where
  pub verb : Verb
  pub calls : List (RestCall P)
  pub sending : Sending
