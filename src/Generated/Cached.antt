-- ===== src/Generated/Cached.antt =====
-- The lister of the autoscalers is the one that the controller's model reads.
use mathlib.Core.List.{append_assoc, append-nil}
use k8s_worker_pod_autoscale.Base.{
  ◌≡◌, refl, sym, ◌∙◌, ap, Bool, true, false, Option, none, some, List, [], ◌∷◌, ◌++◌, Text, lookup,
  if◌then◌else◌,
}
use k8s_worker_pod_autoscale.Api.{WorkerPodAutoScaler}
use k8s_worker_pod_autoscale.Queue.Uri.{get_key}
use k8s_worker_pod_autoscale.Controller.Cluster.{
  State, Env, Listed, found, missing, list_failed, listed, get_autoscaler,
}
use k8s_worker_pod_autoscale.Generated.Lister.{
  Got, holds, lacks, get_fails, Indexer, GetResult, got, not_found, get_failed, appended,
  get_result, list, list_in, get_in,
}

-- What `GetByKey` answers over a map of objects by their keys.
unfoldable pub looked_up : Option WorkerPodAutoScaler → Got
looked_up none = lacks
looked_up (some w) = holds w

-- An error of the lister by its kind, as errors.IsNotFound tells.
unfoldable pub listed_of : GetResult → Listed WorkerPodAutoScaler
listed_of (got w) = found w
listed_of (not_found name) = missing
listed_of get_failed = list_failed

-- The indexer of the informer's cache, where reading the key fails or not.
abbrev pub IsCacheOf : {W Selector : Type 0} → Indexer Selector → Env W → State W → Type 0
IsCacheOf indexer env s =
    (namespace name : Text)
    → indexer.get_by_key (get_key namespace name) ≡ (
        if env.autoscaler_fails namespace name
        then get_fails
        else looked_up (lookup (get_key namespace name) s.autoscalers))

appended_all : (handed ret : List WorkerPodAutoScaler) → appended handed ret ≡ ret ++ handed
unfolding appended
appended_all [] ret = sym (append-nil ret)
appended_all (m ∷ handed) ret = appended_all handed _ ∙ append_assoc ret (m ∷ []) handed

listed-got :
    (fails : Bool) (name : Text) (o : Option WorkerPodAutoScaler)
    → listed_of (get_result name (if fails then get_fails else looked_up o)) ≡ listed fails o
unfolding listed_of get_result looked_up
listed-got true name o = refl
listed-got false name none = refl
listed-got false name (some w) = refl

-- The lister loses and changes nothing: over the cache of the autoscalers, the Get of a namespace is
-- what the controller reads, a missing object and an error of the cache told apart, and both Lists
-- return the objects that the indexer hands over, all of them in their order, with its error.
lister_reads_cache :
    {W Selector : Type 0} (env : Env W) (s : State W) (indexer : Indexer Selector)
    (namespace name : Text) (selector : Selector)
    → IsCacheOf indexer env s
    → (listed_of (get_in indexer namespace name) ≡ get_autoscaler env namespace name s)
      × (list indexer selector ≡ indexer.list_all selector)
      × (list_in indexer namespace selector ≡ indexer.list_all_by_namespace namespace selector)
unfolding get_in get_autoscaler list list_in
lister_reads_cache env s indexer namespace name selector cache = (
  ap (λ g. listed_of (get_result name g)) (cache namespace name)
      ∙ listed-got (env.autoscaler_fails namespace name) name _,
  ap (λ l. (l, (indexer.list_all selector).1)) (appended_all (indexer.list_all selector).0 []),
  ap (λ l. (l, (indexer.list_all_by_namespace namespace selector).1))
      (appended_all (indexer.list_all_by_namespace namespace selector).0 []),
)
