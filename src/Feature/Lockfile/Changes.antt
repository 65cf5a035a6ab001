-- ===== src/Feature/Lockfile/Changes.antt =====
-- What it means that two lockfiles have no changes.
use devcontainer.Base.{
  Bool, true, false, not, ◌&&◌, ◌||◌, List, [], ◌∷◌, ◌++◌, Option, none, some, Text, ◌==◌, ==_refl,
  eq_iff, eq_of_==, Map, keys, lookup, lookup-keys, is_some, is_empty, contains, contains-append,
  contains-sort, IsSorted, sort-IsSorted, HasDistinctKeys, ◌≡◌, ◌≢◌, ◌↔◌, refl, inl, inr, ap, sym,
  ◌∙◌, subst, arith, Bool-cases,
}
use devcontainer.Feature.Lockfile.{
  LockedFeature, Lockfile, texts_equal, slices_equal, entry_equal, entries, entry, is_same,
  differing, added, changed, equal,
}

texts_equal_iff : (ss ts : List Text) → (texts_equal ss ts ≡ true) ↔ (ss ≡ ts)
unfolding texts_equal
texts_equal_iff [] [] = (λ _. refl, λ _. refl)
texts_equal_iff [] (t ∷ ts) = (λ h. absurd (cc h), λ h. absurd (cc h))
texts_equal_iff (s ∷ ss) [] = (λ h. absurd (cc h), λ h. absurd (cc h))
texts_equal_iff (s ∷ ss) (t ∷ ts) = (
  λ h. cc (eq_of_== s t (ground (arith, h)), (texts_equal_iff ss ts).0 (ground (arith, h))),
  λ h. ground (arith, (eq_iff s t).1 (cc h), (texts_equal_iff ss ts).1 (cc h)),
)

slices_equal_iff : (ss ts : Option (List Text)) → (slices_equal ss ts ≡ true) ↔ (ss ≡ ts)
unfolding slices_equal
slices_equal_iff none none = (λ _. refl, λ _. refl)
slices_equal_iff none (some ts) = (λ h. absurd (cc h), λ h. absurd (cc h))
slices_equal_iff (some ss) none = (λ h. absurd (cc h), λ h. absurd (cc h))
slices_equal_iff (some ss) (some ts) =
    (λ h. ap some ((texts_equal_iff ss ts).0 h), λ h. (texts_equal_iff ss ts).1 (cc h))

entry_equal_of : (v w : LockedFeature) → entry_equal v w ≡ true → v ≡ w
unfolding entry_equal
entry_equal_of v w h =
    let a = eq_of_== v.version w.version (ground (arith, h)) in
    let b = eq_of_== v.resolved w.resolved (ground (arith, h)) in
    let c = eq_of_== v.integrity w.integrity (ground (arith, h)) in
    let d = (slices_equal_iff v.depends_on w.depends_on).0 (ground (arith, h)) in cc (a, b, c, d)

entry_equal_refl : (v : LockedFeature) → entry_equal v v ≡ true
unfolding entry_equal
entry_equal_refl v =
    rw
      (
        ==_refl v.version,
        ==_refl v.resolved,
        ==_refl v.integrity,
        (slices_equal_iff v.depends_on v.depends_on).1 refl,
      )
      refl

is_same_iff :
    (v : LockedFeature) (found : Option LockedFeature) → (is_same v found ≡ true) ↔ (some v ≡ found)
is_same_iff v none = (λ h. absurd (cc h), λ h. absurd (cc h))
is_same_iff v (some w) = (
  λ h. ap some (entry_equal_of v w h),
  λ h. subst (λ x. is_same v x ≡ true) h (entry_equal_refl v),
)

abbrev differs : Option LockedFeature → Option LockedFeature → Bool
differs none found = false
differs (some v) found = not (is_same v found)

contains-differing_absent :
    (es : Map LockedFeature) (o : Option Lockfile) (k : Text)
    → contains (keys es) k ≡ false
    → contains (differing es o) k ≡ false
unfolding differing contains
contains-differing_absent [] o k h = refl
contains-differing_absent ((j, v) ∷ es) o k h = ground (arith, contains-differing_absent es o k)

contains-differing :
    (es : Map LockedFeature) (o : Option Lockfile) (k : Text)
    → HasDistinctKeys es
    → contains (differing es o) k ≡ differs (lookup k es) (entry o k)
unfolding differing contains lookup
contains-differing [] o k distinct = refl
contains-differing ((j, v) ∷ es) o k distinct = elim (Bool-cases (j == k)) [
  | inl same ↦
      let e = eq_of_== j k same in
      let gone = contains-differing_absent es o k (ap (contains (keys es)) (sym e) ∙ distinct.0) in
      let found : is_same v (entry o j) ≡ is_same v (entry o k) =
        ap (λ x. is_same v (entry o x)) e in
      elim (Bool-cases (is_same v (entry o k))) [
        | inl kept ↦ rw (found, kept, same) (gone ∙ sym (ap not kept))
        | inr lost ↦ rw (found, lost, same) (sym (ap not lost))
      ]
  | inr other ↦
      let later = contains-differing es o k distinct.1 in
      elim (Bool-cases (is_same v (entry o j))) [
        | inl kept ↦ rw (kept, other) later
        | inr lost ↦ rw (lost, other) later
      ]
]

contains-added :
    (l : Option Lockfile) (ks : List Text) (k : Text)
    → contains (added l ks) k ≡ contains ks k && not (is_some (entry l k))
unfolding added contains
contains-added l [] k = refl
contains-added l (j ∷ ks) k = elim (Bool-cases (j == k)) [
  | inl same ↦
      let e : is_some (entry l j) ≡ is_some (entry l k) =
        ap (λ x. is_some (entry l x)) (eq_of_== j k same) in
      ground (arith, contains-added l ks k, e, same)
  | inr other ↦ ground (arith, contains-added l ks k, other)
]

-- A key is reported where either loop meets it.
contains-changed :
    (l o : Option Lockfile) (k : Text)
    → HasDistinctKeys (entries l)
    → contains (changed l o) k
      ≡ differs (entry l k) (entry o k) || (is_some (entry o k) && not (is_some (entry l k)))
unfolding changed
contains-changed l o k distinct =
    contains-sort (differing (entries l) o ++ added l (keys (entries o))) k
    ∙ contains-append (differing (entries l) o) (added l (keys (entries o))) k
    ∙ rw
        (
          contains-differing (entries l) o k distinct,
          contains-added l (keys (entries o)) k,
          lookup-keys k (entries o),
        )
        refl

unreported_iff :
    (v w : Option LockedFeature) → (differs v w || (is_some w && not (is_some v)) ≡ false) ↔ (v ≡ w)
unreported_iff none none = (λ _. refl, λ _. refl)
unreported_iff none (some w) = (λ h. absurd (cc h), λ h. absurd (cc h))
unreported_iff (some v) w =
    (λ h. (is_same_iff v w).0 (ground (arith, h)), λ h. ground (arith, (is_same_iff v w).1 h))

-- `Changed` is sorted and reports exactly the keys whose entries in the two lockfiles differ, where the
-- keys of the first one are distinct: a feature that is added, removed or pinned anew.
pub changed_lem :
    (l o : Option Lockfile)
    → HasDistinctKeys (entries l)
    → IsSorted (changed l o)
      × ((k : Text) → (contains (changed l o) k ≡ false) ↔ (entry l k ≡ entry o k))
unfolding changed
changed_lem l o distinct = (
  sort-IsSorted (differing (entries l) o ++ added l (keys (entries o))),
  λ k.
      let here = contains-changed l o k distinct in
      let (reported, kept) = unreported_iff (entry l k) (entry o k) in
      (λ h. reported (sym here ∙ h), λ e. here ∙ kept e),
)

self_listed : (x : Text) (xs : List Text) → contains (x ∷ xs) x ≢ false
unfolding contains
self_listed x xs h = ground (arith, ==_refl x, h)

is_empty-contains : (xs : List Text) → (is_empty xs ≡ true) ↔ ((k : Text) → contains xs k ≡ false)
unfolding contains
is_empty-contains [] = (λ _ k. refl, λ _. refl)
is_empty-contains (x ∷ xs) = (λ h. absurd (cc h), λ h. absurd (self_listed x xs (h x)))

-- Two lockfiles that are there are equal exactly when each key has the same entry in both.
pub equal_iff :
    (l o : Lockfile)
    → HasDistinctKeys l.features
    → (equal (some l) (some o) ≡ true) ↔ ((k : Text) → lookup k l.features ≡ lookup k o.features)
unfolding equal
equal_iff l o distinct =
    let (_, same) = changed_lem (some l) (some o) distinct in
    let (none_reported, reported_none) = is_empty-contains (changed (some l) (some o)) in
    (λ h k. (same k).0 (none_reported h k), λ h. reported_none (λ k. (same k).1 (h k)))
