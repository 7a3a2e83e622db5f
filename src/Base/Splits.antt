-- ===== src/Base/Splits.antt =====
-- What strings.Split makes of parts that are joined.
use Prim.Native.Nat.{ℕ}
use mathlib.Core.Path.{◌≡◌, ap, ◌∙◌}
use mathlib.Core.List.{List, [], ◌∷◌, ◌++◌, append_assoc, append-nil}
use native.Mathlib.Omega.{arith}
use k8s_worker_pod_autoscale.Base.Lists.{All}
use k8s_worker_pod_autoscale.Base.Texts.{Text, Lacks, split, split_from}

pub split_from-Lacks :
    (sep : ℕ) (cur s : Text) → Lacks sep s → split_from sep cur s ≡ (cur ++ s) ∷ []
unfolding split_from
split_from-Lacks sep cur [] h = rw append-nil
split_from-Lacks sep cur (c ∷ s) (ne, h) =
    ground (arith, ne, split_from-Lacks sep (cur ++ c ∷ []) s h, append_assoc cur (c ∷ []) s)

-- The part in front of the first separator.
pub split_from-cons :
    (sep : ℕ) (cur p s : Text)
    → Lacks sep p
    → split_from sep cur (p ++ (sep ∷ s)) ≡ (cur ++ p) ∷ split_from sep [] s
unfolding split_from
split_from-cons sep cur [] s h = ground (arith, append-nil cur)
split_from-cons sep cur (c ∷ p) s (ne, h) =
    ground (arith, ne, split_from-cons sep (cur ++ c ∷ []) p s h, append_assoc cur (c ∷ []) p)

-- strings.Join with a separator of one byte.
abbrev pub join : ℕ → Text → List Text → Text
join sep p [] = p
join sep p (q ∷ ps) = p ++ (sep ∷ join sep q ps)

pub split-join :
    (sep : ℕ) (p : Text) (ps : List Text)
    → All (Lacks sep) (p ∷ ps)
    → split sep (join sep p ps) ≡ p ∷ ps
unfolding split
split-join sep p [] (h, hs) = split_from-Lacks sep [] p h
split-join sep p (q ∷ ps) (h, hs) =
    split_from-cons sep [] p (join sep q ps) h ∙ ap (λ l. p ∷ l) (split-join sep q ps hs)
