-- ===== src/Queue/Uri/Laws.antt =====
-- Keys, names and regions: what the texts that are taken apart are made of.
use mathlib.Core.List.{append_assoc, append-nil}
use k8s_worker_pod_autoscale.Base.{
  ℕ, ◌≡◌, ◌≢◌, refl, ap, ◌⊎◌, inl, inr, true, Bool-cases, ==_iff, some, [], ◌∷◌, ◌++◌, Text, codes,
  slash, Lacks, All, All-append, split, split_from, split_from-cons, last_or, part_at, ◌==◌, arith,
}
use k8s_worker_pod_autoscale.Queue.Uri.{
  get_queue_name, get_key, in_class, lower, digit, after_match, skip_lower, before_star,
  behind_star, is_sqs_host, get_region,
}

-- A text that ends behind a separator, or is empty.
abbrev pub IsFront : ℕ → Text → Type 0
IsFront sep p = (p ≡ []) ⊎ ((q : Text) × (p ≡ q ++ (sep ∷ [])))

-- A text is a front and its last part.
abbrev pub IsLastPart : ℕ → Text → Text → Type 0
IsLastPart sep s n = (p : Text) × (s ≡ p ++ n) × IsFront sep p × Lacks sep n

IsFront-cons : (sep : ℕ) (cur p : Text) → IsFront sep p → IsFront sep (cur ++ (sep ∷ p))
IsFront-cons sep cur p (inl e) = inr (cur, rw e)
IsFront-cons sep cur p (inr (q, e)) = inr (cur ++ (sep ∷ q), rw (e, append_assoc))

IsLastPart-cons :
    (sep : ℕ) (cur s n : Text) → IsLastPart sep s n → IsLastPart sep (cur ++ (sep ∷ s)) n
IsLastPart-cons sep cur s n (p, e, f, h) = (
  cur ++ (sep ∷ p),
  rw (append_assoc cur (sep ∷ p) n) (ap (λ t. cur ++ (sep ∷ t)) e),
  IsFront-cons sep cur p f,
  h,
)

last_or-split_from :
    (sep : ℕ) (d cur s : Text)
    → Lacks sep cur
    → IsLastPart sep (cur ++ s) (last_or d (split_from sep cur s))
unfolding split_from last_or
last_or-split_from sep d cur [] h = ([], append-nil cur, inl refl, h)
last_or-split_from sep d cur (c ∷ s) h = elim (Bool-cases (c == sep)) [
  | inl e ↦
      let same : c ≡ sep = (==_iff c sep).0 e in
      rw (e, split_from)
        (rw same (IsLastPart-cons sep cur s _ (last_or-split_from sep cur [] s tt)))
  | inr e ↦
      let other : c ≢ sep = ground arith in
      rw (e, split_from)
        (rw (← append_assoc cur (c ∷ []) s)
          (last_or-split_from sep d (cur ++ c ∷ []) s (All-append _ cur (c ∷ []) h (other, tt))))
]

-- The name of a queue is the part of its URI behind the last slash: it has no slash, and the URI is
-- this name behind a text that is empty or ends with a slash.
queue_name_last : (uri : Text) → IsLastPart slash uri (get_queue_name uri)
unfolding get_queue_name split
queue_name_last uri = last_or-split_from slash [] [] uri tt

-- Two autoscalers share a key only if both their namespaces and their names agree, since a
-- namespace has no slash.
get_key_injective :
    (namespace namespace' name name' : Text)
    → Lacks slash namespace
    → Lacks slash namespace'
    → get_key namespace name ≡ get_key namespace' name'
    → (namespace ≡ namespace') × (name ≡ name')
unfolding get_key
get_key_injective [] [] name name' h h' e = (refl, cc)
get_key_injective [] (c ∷ s) name name' h (ne, h') e = absurd (ne (cc))
get_key_injective (c ∷ s) [] name name' (ne, h) h' e = absurd (ne (cc))
get_key_injective (c ∷ s) (c' ∷ s') name name' (ne, h) (ne', h') e =
    let (p, q) = get_key_injective s s' name name' h h' (cc) in (cc, q)

abbrev pub IsLower : ℕ → Type 0
IsLower c = in_class lower c ≡ true

abbrev pub IsDigit : ℕ → Type 0
IsDigit c = in_class digit c ≡ true

skip_lower-letters : (w s : Text) → All IsLower w → skip_lower (w ++ (b'-' ∷ s)) ≡ b'-' ∷ s
unfolding skip_lower in_class
skip_lower-letters [] s h = refl
skip_lower-letters (c ∷ w) s (l, h) = rw l (skip_lower-letters w s h)

IsLower-ne : (c : ℕ) → IsLower c → (c ≢ b'.') × (c ≢ slash)
unfolding in_class
IsLower-ne c h = (ground arith, ground arith)

IsDigit-ne : (c : ℕ) → IsDigit c → (c ≢ b'.') × (c ≢ slash)
unfolding in_class
IsDigit-ne c h = (ground arith, ground arith)

letters-lack : (w : Text) → All IsLower w → Lacks b'.' w × Lacks slash w
letters-lack [] h = (tt, tt)
letters-lack (c ∷ w) (l, h) =
    let (p, q) = IsLower-ne c l in let (ps, qs) = letters-lack w h in ((p, ps), (q, qs))

-- The region of the host, such as `ap-south-1`.
abbrev pub region_name : (a b : ℕ) → Text → (d : ℕ) → Text
region_name a b w d = a ∷ b ∷ b'-' ∷ (w ++ (b'-' ∷ d ∷ []))

after_match-before_star :
    (a b : ℕ) (r : Text)
    → IsLower a
    → IsLower b
    → after_match before_star (codes "sqs." ++ (a ∷ b ∷ b'-' ∷ r)) ≡ some r
unfolding after_match
after_match-before_star a b r ha hb = ground arith

after_match-behind_star :
    (d : ℕ) (r : Text)
    → IsDigit d
    → after_match behind_star (b'-' ∷ d ∷ (codes ".amazonaws.com" ++ r)) ≡ some r
unfolding after_match
after_match-behind_star d r hd = ground arith

is_sqs_host_steps :
    (host : Text) {r l s : Text}
    → after_match before_star host ≡ some r
    → skip_lower r ≡ l
    → after_match behind_star l ≡ some s
    → is_sqs_host host ≡ true
unfolding is_sqs_host
is_sqs_host_steps host e f g = rw (e, is_sqs_host) (rw (f, is_sqs_host) (rw (g, is_sqs_host)))

is_sqs_host_rest :
    (a b : ℕ) (w : Text) (d : ℕ) (r : Text)
    → IsLower a
    → IsLower b
    → All IsLower w
    → IsDigit d
    → is_sqs_host
        (codes "sqs." ++ (a ∷ b ∷ b'-' ∷ (w ++ (b'-' ∷ d ∷ (codes ".amazonaws.com" ++ r)))))
      ≡ true
is_sqs_host_rest a b w d r ha hb hw hd =
    let start =
      after_match-before_star a b (w ++ (b'-' ∷ d ∷ (codes ".amazonaws.com" ++ r))) ha hb in
    let star = skip_lower-letters w (d ∷ (codes ".amazonaws.com" ++ r)) hw in
    let end = after_match-behind_star d r hd in is_sqs_host_steps _ start star end

region-Lacks :
    (a b : ℕ) (w : Text) (d : ℕ)
    → IsLower a
    → IsLower b
    → All IsLower w
    → IsDigit d
    → Lacks b'.' (region_name a b w d) × Lacks slash (region_name a b w d)
region-Lacks a b w d ha hb hw hd =
    let (a_dot, a_slash) = IsLower-ne a ha in
    let (b_dot, b_slash) = IsLower-ne b hb in
    let (d_dot, d_slash) = IsDigit-ne d hd in
    let (w_dots, w_slashes) = letters-lack w hw in
    let w_dot : Lacks b'.' (w ++ (b'-' ∷ d ∷ [])) =
      All-append _ w _ w_dots (omega arith, (d_dot, tt)) in
    let w_slash : Lacks slash (w ++ (b'-' ∷ d ∷ [])) =
      All-append _ w _ w_slashes (omega arith, (d_slash, tt)) in
    ((a_dot, (b_dot, (omega arith, w_dot))), (a_slash, (b_slash, (omega arith, w_slash))))

-- Host of a URI behind `//`.
part_two :
    (scheme host rest : Text)
    → Lacks slash scheme
    → Lacks slash host
    → part_at 2 (split slash (scheme ++ (slash ∷ slash ∷ (host ++ (slash ∷ rest))))) ≡ some host
unfolding split
part_two scheme host rest hs hh =
    rw (split_from-cons slash [] scheme (slash ∷ (host ++ (slash ∷ rest))) hs) (
      rw (split_from-cons slash [] [] (host ++ (slash ∷ rest)) tt)
        (rw (split_from-cons slash [] host rest hh)))

part_one :
    (p region rest : Text)
    → Lacks b'.' p
    → Lacks b'.' region
    → part_at 1 (split b'.' (p ++ (b'.' ∷ (region ++ (b'.' ∷ rest))))) ≡ some region
unfolding split
part_one p region rest hp hr =
    rw (split_from-cons b'.' [] p (region ++ (b'.' ∷ rest)) hp)
      (rw (split_from-cons b'.' [] region rest hr))

get_region-host :
    (scheme region rest : Text)
    → Lacks slash scheme
    → Lacks b'.' region
    → Lacks slash region
    → get_region (
        scheme
        ++ (slash
            ∷ slash
            ∷ ((codes "sqs." ++ (region ++ codes ".amazonaws.com")) ++ (slash ∷ rest))))
      ≡ some region
unfolding get_region
get_region-host scheme region rest hs hd hr =
    rw
      (
        part_two scheme (codes "sqs." ++ (region ++ codes ".amazonaws.com")) rest hs lacks,
        get_region,
      )
      (part_one (codes "sqs") region (codes "amazonaws.com") (omega arith) hd)
  where
    lacks : Lacks slash (codes "sqs." ++ (region ++ codes ".amazonaws.com"))
    lacks =
        All-append _ (codes "sqs.") _ (omega arith)
          (All-append _ region (codes ".amazonaws.com") hr (omega arith))

-- A queue whose URI has the form that SQS documents, `scheme//sqs.ab-word-1.amazonaws.com/path`, is
-- recognised as one of SQS by its host, and the region under which its client is looked up is
-- `ab-word-1`: neither of the two slices is indexed out of range.
sqs_uri_region :
    (scheme rest : Text) (a b : ℕ) (w : Text) (d : ℕ)
    → Lacks slash scheme
    → IsLower a
    → IsLower b
    → All IsLower w
    → IsDigit d
    → let host = codes "sqs." ++ (region_name a b w d ++ codes ".amazonaws.com") in
      (is_sqs_host host ≡ true)
      × (get_region (scheme ++ (slash ∷ slash ∷ (host ++ (slash ∷ rest))))
          ≡ some (region_name a b w d))
sqs_uri_region scheme rest a b w d hs ha hb hw hd =
    let (dots, slashes) = region-Lacks a b w d ha hb hw hd in
    (
      rw (append_assoc w (b'-' ∷ d ∷ []) (codes ".amazonaws.com"))
          (rw (append-nil (codes ".amazonaws.com")) at (is_sqs_host_rest a b w d [] ha hb hw hd)),
      get_region-host scheme (region_name a b w d) rest hs dots slashes,
    )
