-- ===== src/Generated/Factory.antt =====
-- pkg/generated/informers/externalversions/factory.go: `sharedInformerFactory`, which makes one
-- informer for each type and starts it once. The calls hold its lock from start to end, so they are
-- steps of their own. An informer of client-go is known by the number of informers made before it.
use k8s_worker_pod_autoscale.Base.{
  ℕ, zero, suc, Bool, true, false, Option, none, some, List, [], ◌∷◌, Text, if◌then◌else◌, ℤ, Dict,
  lookup, insert,
}
use k8s_worker_pod_autoscale.Generated.{ListOptions}

-- internalinterfaces.TweakListOptionsFunc, which may be nil.
abbrev pub Tweak : Type 0 → Type 0
Tweak P = Option (ListOptions P → ListOptions P)

-- What an informer was made with, by newFunc(f.client, resyncPeriod).
pub record Made (C N : Type 0) : Type 0 where
  pub new_func : N
  pub client : C
  pub resync_period : ℤ

-- A reflect.Type is its name. Beside the fields of the factory, the informers that were made, the
-- number of them, and those that a goroutine was started for (`go informer.Run`), the latest first.
pub record SharedInformerFactory (C N P : Type 0) : Type 0 where
  pub client : C
  pub namespace : Text
  pub tweak_list_options : Tweak P
  pub default_resync : ℤ
  pub custom_resync : Dict ℤ
  pub informers : Dict ℕ
  pub started_informers : Dict Bool
  pub made : List (Made C N)
  pub next : ℕ
  pub runs : List ℕ

-- `SharedInformerOption`, by the functions that make one.
pub data SharedInformerOption (P : Type 0) : Type 0 where
  with_custom_resync_config : List (Text × ℤ) → SharedInformerOption P
  with_tweak_list_options : Tweak P → SharedInformerOption P
  with_namespace : Text → SharedInformerOption P

-- The loop of `WithCustomResyncConfig`.
unfoldable pub insert_all : List (Text × ℤ) → Dict ℤ → Dict ℤ
insert_all [] resync = resync
insert_all ((informer_type, period) ∷ config) resync =
    insert_all config (insert informer_type period resync)

-- What Go reads of a map of Booleans: a missing key is false.
abbrev pub is_on : Option Bool → Bool
is_on none = false
is_on (some b) = b

module _ {C N P : Type 0} where
  unfoldable pub apply_option :
      SharedInformerOption P → SharedInformerFactory C N P → SharedInformerFactory C N P
  apply_option (with_custom_resync_config config) f = record f {
    custom_resync = insert_all config f.custom_resync;
  }
  apply_option (with_tweak_list_options tweak) f = record f { tweak_list_options = tweak }
  apply_option (with_namespace namespace) f = record f { namespace = namespace }

  unfoldable pub apply_options :
      List (SharedInformerOption P) → SharedInformerFactory C N P → SharedInformerFactory C N P
  apply_options [] f = f
  apply_options (opt ∷ options) f = apply_options options (apply_option opt f)

  -- `NewSharedInformerFactoryWithOptions`; v1.NamespaceAll is the empty text.
  unfoldable pub new_shared_informer_factory_with_options :
      C → (default_resync : ℤ) → List (SharedInformerOption P) → SharedInformerFactory C N P
  new_shared_informer_factory_with_options client default_resync options =
      apply_options options (record {
        client = client;
        namespace = [];
        tweak_list_options = none;
        default_resync = default_resync;
        custom_resync = [];
        informers = [];
        started_informers = [];
        made = [];
        next = zero;
        runs = [];
      })

  -- f.startedInformers[informerType]
  unfoldable pub is_started : Text → SharedInformerFactory C N P → Bool
  is_started informer_type f = is_on (lookup informer_type f.started_informers)

  unfoldable pub resync_period_of : Text → SharedInformerFactory C N P → ℤ
  resync_period_of informer_type f = elim (lookup informer_type f.custom_resync) [
    | none ↦ f.default_resync
    | some d ↦ d
  ]

  -- `InformerFor`
  unfoldable pub informer_for :
      Text → N → SharedInformerFactory C N P → ℕ × SharedInformerFactory C N P
  informer_for informer_type new_func f = elim (lookup informer_type f.informers) [
    | some informer ↦ (informer, f)
    | none ↦ (
      f.next,
      record f {
        informers = insert informer_type f.next f.informers;
        made =
            record {
              new_func = new_func;
              client = f.client;
              resync_period = resync_period_of informer_type f;
            }
            ∷ f.made;
        next = suc f.next;
      },
    )
  ]

  -- The body of the loop of `Start`.
  unfoldable pub start_one : Text → SharedInformerFactory C N P → SharedInformerFactory C N P
  start_one informer_type f = elim (lookup informer_type f.informers) [
    | none ↦ f
    | some informer ↦ if is_started informer_type f then f else record f {
      started_informers = insert informer_type true f.started_informers;
      runs = informer ∷ f.runs;
    }
  ]

  -- `Start`, where Go iterates over the types of `f.informers` in the given order.
  unfoldable pub start : List Text → SharedInformerFactory C N P → SharedInformerFactory C N P
  start [] f = f
  start (informer_type ∷ order) f = start order (start_one informer_type f)

  -- The answers of `WaitForCacheSync`, where Go iterates in the given order, and `synced` is what
  -- cache.WaitForCacheSync says of an informer.
  unfoldable pub wait_for_cache_sync :
      (synced : ℕ → Bool) (order : List Text) → SharedInformerFactory C N P → Dict Bool
  wait_for_cache_sync synced [] f = []
  wait_for_cache_sync synced (informer_type ∷ order) f =
      let res = wait_for_cache_sync synced order f in
      elim (lookup informer_type f.informers) [
        | none ↦ res
        | some informer ↦
            if is_started informer_type f then insert informer_type (synced informer) res else res
      ]
