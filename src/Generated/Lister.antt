-- ===== src/Generated/Lister.antt =====
-- pkg/generated/listers/workerpodautoscaler/v1/workerpodautoscaler.go: the lister of the autoscalers
-- over an indexer of client-go.
use k8s_worker_pod_autoscale.Base.{Bool, List, [], ◌∷◌, ◌++◌, Text}
use k8s_worker_pod_autoscale.Api.{WorkerPodAutoScaler}
use k8s_worker_pod_autoscale.Queue.Uri.{get_key}

-- What the lister calls of an indexer: `GetByKey`, which finds an object, says that there is none, or
-- fails, and cache.ListAll and cache.ListAllByNamespace, by the objects that they hand to the function
-- that is given to them, in order, and whether they return an error.
pub data Got : Type 0 where
  holds : WorkerPodAutoScaler → Got
  lacks get_fails : Got

pub record Indexer (Selector : Type 0) : Type 0 where
  pub get_by_key : Text → Got
  pub list_all : Selector → List WorkerPodAutoScaler × Bool
  pub list_all_by_namespace : (namespace : Text) → Selector → List WorkerPodAutoScaler × Bool

-- What `Get` returns: an object, errors.NewNotFound of the name, or the error of the indexer.
pub data GetResult : Type 0 where
  got : WorkerPodAutoScaler → GetResult
  not_found : (name : Text) → GetResult
  get_failed : GetResult

-- ret = append(ret, m) for each object that is handed over.
unfoldable pub appended : (handed ret : List WorkerPodAutoScaler) → List WorkerPodAutoScaler
appended [] ret = ret
appended (m ∷ handed) ret = appended handed (ret ++ m ∷ [])

unfoldable pub get_result : (name : Text) → Got → GetResult
get_result name get_fails = get_failed
get_result name lacks = not_found name
get_result name (holds w) = got w

module _ {Selector : Type 0} (indexer : Indexer Selector) where
  -- `List` of all namespaces; true is an error.
  unfoldable pub list : Selector → List WorkerPodAutoScaler × Bool
  unfolding appended
  list selector = let (handed, err) = indexer.list_all selector in (appended handed [], err)

  -- `List` of a namespace.
  unfoldable pub list_in : (namespace : Text) → Selector → List WorkerPodAutoScaler × Bool
  unfolding appended
  list_in namespace selector =
      let (handed, err) = indexer.list_all_by_namespace namespace selector in
      (appended handed [], err)

  -- `Get` of a namespace.
  unfoldable pub get_in : (namespace name : Text) → GetResult
  unfolding get_result
  get_in namespace name = get_result name (indexer.get_by_key (get_key namespace name))
