-- ===== src/Command/Regions.antt =====
-- The flag for the AWS regions, written and read.
use k8s_worker_pod_autoscale.Base.{
  ℕ, ◌≡◌, refl, ap, ◌∙◌, List, [], ◌∷◌, ◌++◌, map, All, All-append, Text, Lacks, join, split-join,
  IsTrimmed, blanks, trim_space-blanks, trim_space, arith,
}
use k8s_worker_pod_autoscale.Command.{comma, parse_regions}

-- A name as someone writes it, with so many blanks before and behind it.
pub record Written : Type 0 where
  pub before : ℕ
  pub name : Text
  pub behind : ℕ

abbrev pub written : Written → Text
written r = blanks r.before ++ (r.name ++ blanks r.behind)

-- A name without a comma, and with no white space around it.
abbrev pub IsRegion : Written → Type 0
IsRegion r = Lacks comma r.name × IsTrimmed r.name

abbrev pub names : List Written → List Text
names = map (λ r. r.name)

blanks-Lacks : (k : ℕ) → Lacks comma (blanks k)
blanks-Lacks ℕ.zero = tt
blanks-Lacks (ℕ.suc k) = (omega arith, blanks-Lacks k)

written-Lacks : (rs : List Written) → All IsRegion rs → All (Lacks comma) (map written rs)
written-Lacks [] h = tt
written-Lacks (r ∷ rs) ((lacks, trimmed), h) = (
  All-append _ (blanks r.before) _ (blanks-Lacks r.before)
      (All-append _ r.name (blanks r.behind) lacks (blanks-Lacks r.behind)),
  written-Lacks rs h,
)

trimmed-names : (rs : List Written) → All IsRegion rs → map trim_space (map written rs) ≡ names rs
trimmed-names [] h = refl
trimmed-names (r ∷ rs) ((lacks, trimmed), h) =
    rw (trim_space-blanks r.before r.behind r.name trimmed, trimmed-names rs h) refl

-- parseRegions reads what was written: of names that are joined by commas, each with any number of
-- blanks before and behind it, it returns the names in order. A name is not empty, has no comma, and
-- neither begins nor ends with white space.
pub regions_read :
    (r : Written) (rs : List Written)
    → All IsRegion (r ∷ rs)
    → parse_regions (join comma (written r) (map written rs)) ≡ names (r ∷ rs)
unfolding parse_regions
regions_read r rs h =
    ap (map trim_space) (split-join comma (written r) (map written rs) (written-Lacks (r ∷ rs) h))
    ∙ trimmed-names (r ∷ rs) h
