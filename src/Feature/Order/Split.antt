-- ===== src/Feature/Order/Split.antt =====
-- What `splitByOverride` makes of the features.
use devcontainer.Base.{
  zero, length, nat_beq, filter-append, filter-all, append-nil, ◌<◌, ℕ, suc, Bool, leb, all,
  all-append, Bool-cases, inl, inr, if◌then◌else◌, true, not, List, [], ◌∷◌, ◌++◌, Text, any, ◌&&◌,
  ◌||◌, filter, filter-filter, filter_ext, filter-append-perm, ◌≡◌, refl, arith, sym, ap, ◌∙◌,
}
use mathlib.Core.List.{Perm, append_assoc}
use mathlib.Core.List.Perm
use devcontainer.Config.Types.{ResolvedFeature}
use devcontainer.Feature.Order.{same_id, split_by_override}

everything : (fs : List ResolvedFeature) → filter (λ _. true) fs ≡ fs
unfolding filter
everything [] = refl
everything (f ∷ fs) = ap (λ r. f ∷ r) (everything fs)

-- The features that no entry of the order names remain, in their order, and together with the
-- overridden ones they are the given features, each as often as it was given.
pub split_by_override_lem :
    (features : List ResolvedFeature) (order : List Text)
    → Perm ((split_by_override features order).0 ++ (split_by_override features order).1) features
      × ((split_by_override features order).1
          ≡ filter (λ f. not (any (λ ord. same_id ord f) order)) features)
unfolding split_by_override any
split_by_override_lem features [] = (Perm.refl features, sym (everything features))
split_by_override_lem features (ord ∷ order) =
    let (together, rest) =
      split_by_override_lem (filter (λ f. not (same_id ord f)) features) order in
    (
      rw append_assoc (
          Perm.trans (Perm.append_left (filter (same_id ord) features) together)
            (filter-append-perm (same_id ord) features)),
      rest
          ∙ filter-filter (λ f. not (any (λ ord. same_id ord f) order)) (λ f. not (same_id ord f))
              features
          ∙ filter_ext (λ f. not (same_id ord f) && not (any (λ ord. same_id ord f) order))
              (λ f. not (same_id ord f || any (λ ord. same_id ord f) order)) features
              (λ f. ground arith),
    )

-- The place of the first entry that names `f`; behind all entries where none does.
unfoldable pub entry_index : List Text → ResolvedFeature → ℕ
entry_index [] f = 0
entry_index (ord ∷ order) f =
    let later = entry_index order f in if same_id ord f then 0 else suc later

-- No feature stands behind one whose entry comes later.
unfoldable pub in_entry_order : List Text → List ResolvedFeature → Bool
in_entry_order order [] = true
in_entry_order order (f ∷ fs) =
    let rest = in_entry_order order fs in
    all (λ g. leb (entry_index order f) (entry_index order g)) fs && rest

all_of_both :
    (p q r : ResolvedFeature → Bool) (fs : List ResolvedFeature)
    → ((f : ResolvedFeature) → p f ≡ true → q f ≡ true → r f ≡ true)
    → all p fs ≡ true
    → all q fs ≡ true
    → all r fs ≡ true
unfolding all
all_of_both p q r [] h ps qs = refl
all_of_both p q r (f ∷ fs) h ps qs = ground (arith, h f, all_of_both p q r fs h, ps, qs)

-- Behind features of the first entry stand features that it does not name.
in_entry_order-cons :
    (ord : Text) (order : List Text) (fs : List ResolvedFeature)
    → all (λ f. not (same_id ord f)) fs ≡ true
    → in_entry_order order fs ≡ true
    → in_entry_order (ord ∷ order) fs ≡ true
unfolding in_entry_order entry_index all
in_entry_order-cons ord order [] others ordered = refl
in_entry_order-cons ord order (f ∷ fs) others ordered = ground (
  arith,
  in_entry_order-cons ord order fs,
  all_of_both (λ g. not (same_id ord g)) (λ g. leb (entry_index order f) (entry_index order g))
      (λ g. leb (entry_index (ord ∷ order) f) (entry_index (ord ∷ order) g)) fs
      (λ g other le. ground (arith, other, le, others)),
  others,
  ordered,
)

everywhere :
    (p : ResolvedFeature → Bool) (fs : List ResolvedFeature)
    → ((f : ResolvedFeature) → p f ≡ true)
    → all p fs ≡ true
unfolding all
everywhere p [] h = refl
everywhere p (f ∷ fs) h = ground (arith, h f, everywhere p fs h)

in_entry_order-append :
    (ord : Text) (order : List Text) (fs gs : List ResolvedFeature)
    → all (same_id ord) fs ≡ true
    → in_entry_order (ord ∷ order) gs ≡ true
    → in_entry_order (ord ∷ order) (fs ++ gs) ≡ true
unfolding in_entry_order entry_index all
in_entry_order-append ord order [] gs first ordered = ordered
in_entry_order-append ord order (f ∷ fs) gs first ordered = ground (
  arith,
  in_entry_order-append ord order fs gs,
  everywhere (λ g. leb (entry_index (ord ∷ order) f) (entry_index (ord ∷ order) g)) (fs ++ gs)
      (λ g. ground (arith, first)),
  first,
  ordered,
)

all-filter : (p : ResolvedFeature → Bool) (fs : List ResolvedFeature) → all p (filter p fs) ≡ true
unfolding all filter
all-filter p [] = refl
all-filter p (f ∷ fs) = elim (Bool-cases (p f)) [
  | inl kept ↦ rw kept (ground (arith, kept, all-filter p fs))
  | inr dropped ↦ rw dropped (all-filter p fs)
]

all-filter_kept :
    (p q : ResolvedFeature → Bool) (fs : List ResolvedFeature)
    → all p fs ≡ true
    → all p (filter q fs) ≡ true
unfolding all filter
all-filter_kept p q [] h = refl
all-filter_kept p q (f ∷ fs) h = elim (Bool-cases (q f)) [
  | inl kept ↦ rw kept (ground (arith, h, all-filter_kept p q fs))
  | inr dropped ↦ rw dropped (all-filter_kept p q fs (ground (arith, h)))
]

-- What holds of all features holds of the overridden ones.
all-split_by_override :
    (p : ResolvedFeature → Bool) (features : List ResolvedFeature) (order : List Text)
    → all p features ≡ true
    → all p (split_by_override features order).0 ≡ true
unfolding split_by_override all
all-split_by_override p features [] h = refl
all-split_by_override p features (ord ∷ order) h = ground (
  arith,
  all-append p (filter (same_id ord) features)
      (split_by_override (filter (λ f. not (same_id ord f)) features) order).0,
  all-filter_kept p (same_id ord) features h,
  all-split_by_override p (filter (λ f. not (same_id ord f)) features) order
      (all-filter_kept p (λ f. not (same_id ord f)) features h),
)

-- The overridden features stand in the order of the entries that name them first.
pub split_by_override-in_entry_order :
    (features : List ResolvedFeature) (order : List Text)
    → in_entry_order order (split_by_override features order).0 ≡ true
unfolding split_by_override in_entry_order
split_by_override-in_entry_order features [] = refl
split_by_override-in_entry_order features (ord ∷ order) =
    let others = filter (λ f. not (same_id ord f)) features in
    in_entry_order-append ord order (filter (same_id ord) features)
      (split_by_override others order).0 (all-filter (same_id ord) features)
      (in_entry_order-cons ord order (split_by_override others order).0
        (all-split_by_override (λ f. not (same_id ord f)) others order
          (all-filter (λ f. not (same_id ord f)) features))
        (split_by_override-in_entry_order others order))

-- An entry names each of the overridden features.
pub split_by_override-named :
    (features : List ResolvedFeature) (order : List Text)
    → all (λ f. any (λ ord. same_id ord f) order) (split_by_override features order).0 ≡ true
unfolding split_by_override all any
split_by_override-named features [] = refl
split_by_override-named features (ord ∷ order) =
    let others = filter (λ f. not (same_id ord f)) features in
    let named = λ (f : ResolvedFeature). any (λ o. same_id o f) (ord ∷ order) in
    ground (
      arith,
      all-append named (filter (same_id ord) features) (split_by_override others order).0,
      all_of_both (same_id ord) (same_id ord) named (filter (same_id ord) features)
          (λ f first _. ground (arith, first)) (all-filter (same_id ord) features)
          (all-filter (same_id ord) features),
      all_of_both (λ f. any (λ o. same_id o f) order) (λ f. any (λ o. same_id o f) order) named
          (split_by_override others order).0 (λ f later _. ground (arith, later))
          (split_by_override-named others order) (split_by_override-named others order),
    )

filter-nothing :
    (p : ResolvedFeature → Bool) (fs : List ResolvedFeature)
    → all (λ f. not (p f)) fs ≡ true
    → filter p fs ≡ []
unfolding filter all
filter-nothing p [] h = refl
filter-nothing p (f ∷ fs) h = ground (arith, h, filter-nothing p fs)

-- The features of one entry stand in the order in which they were given.
pub split_by_override_stable :
    (features : List ResolvedFeature) (order : List Text) (i : ℕ)
    → i < length order
    → filter (λ f. nat_beq (entry_index order f) i) (split_by_override features order).0
      ≡ filter (λ f. nat_beq (entry_index order f) i) features
unfolding split_by_override entry_index
split_by_override_stable features [] i below = absurd (omega (arith, below))
split_by_override_stable features (ord ∷ order) zero below =
    let others = filter (λ f. not (same_id ord f)) features in
    let rest = (split_by_override others order).0 in
    let q = λ (f : ResolvedFeature). nat_beq (entry_index (ord ∷ order) f) 0 in
    let gone : filter q rest ≡ [] = filter-nothing q rest (
      all_of_both (λ f. not (same_id ord f)) (λ f. not (same_id ord f)) (λ f. not (q f)) rest
        (λ f other _. ground (arith, other))
        (all-split_by_override (λ f. not (same_id ord f)) others order
          (all-filter (λ f. not (same_id ord f)) features))
        (all-split_by_override (λ f. not (same_id ord f)) others order
          (all-filter (λ f. not (same_id ord f)) features))) in
    filter-append q (filter (same_id ord) features) rest
    ∙ ap (λ r. filter q (filter (same_id ord) features) ++ r) gone
    ∙ append-nil (filter q (filter (same_id ord) features))
    ∙ filter-filter q (same_id ord) features
    ∙ filter_ext (λ f. same_id ord f && q f) q features (λ f. ground arith)
split_by_override_stable features (ord ∷ order) (suc j) below =
    let other = λ (f : ResolvedFeature). not (same_id ord f) in
    let others = filter other features in
    let rest = (split_by_override others order).0 in
    let q = λ (f : ResolvedFeature). nat_beq (entry_index (ord ∷ order) f) (suc j) in
    let q' = λ (f : ResolvedFeature). nat_beq (entry_index order f) j in
    let same : (f : ResolvedFeature) → q f ≡ (other f && q' f) = λ f. ground arith in
    let gone : filter q (filter (same_id ord) features) ≡ [] =
      filter-nothing q (filter (same_id ord) features) (
        all_of_both (same_id ord) (same_id ord) (λ f. not (q f)) (filter (same_id ord) features)
          (λ f first _. ground (arith, first)) (all-filter (same_id ord) features)
          (all-filter (same_id ord) features)) in
    let kept : filter other rest ≡ rest =
      filter-all other rest
        (all-split_by_override other others order (all-filter other features)) in
    filter-append q (filter (same_id ord) features) rest
    ∙ ap (λ r. r ++ filter q rest) gone
    ∙ filter_ext q (λ f. other f && q' f) rest same
    ∙ sym (filter-filter q' other rest)
    ∙ ap (filter q') kept
    ∙ split_by_override_stable others order j (omega (arith, below))
    ∙ filter-filter q' other features
    ∙ sym (filter_ext q (λ f. other f && q' f) features same)
