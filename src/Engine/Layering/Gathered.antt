-- ===== src/Engine/Layering/Gathered.antt =====
-- What gathering the dependencies of a feature gives: each of them, once asked for.
use devcontainer.Base.{
  not, Bool, true, false, ◌&&◌, ◌||◌, List, [], ◌∷◌, ◌++◌, none, some, Text, ◌==◌, Map, insert_by,
  sort_from, sort_by, any, all, any-append, all-append, ◌≡◌, ◌∙◌, refl, sym, ap, arith, ==_refl,
}
use devcontainer.Config.Types.{Json, ResolvedFeature, dependencies}
use devcontainer.Feature.Graph.{JsonOps}
use devcontainer.Engine.Layering.Request.{
  duplicate_feature, Dependencies, wanted, forbidden, requested, check_dependency, gather,
  unfetched,
}

unfoldable pub has_ref : Text → List ResolvedFeature → Bool
has_ref key fs = any (λ g. g.ref == key) fs

abbrev pub is_fresh : ResolvedFeature → Bool
is_fresh f = f.dir == []

-- Do all features that `g` depends on satisfy `p`?
unfoldable pub covered : (Text → Bool) → ResolvedFeature → Bool
covered p g = all (λ e. p e.0) (dependencies g.metadata)

pub has_ref-append :
    (key : Text) (fs gs : List ResolvedFeature)
    → has_ref key (fs ++ gs) ≡ (has_ref key fs || has_ref key gs)
unfolding has_ref
has_ref-append key = any-append (λ g. g.ref == key)

pub has_ref-snoc :
    (key : Text) (fs : List ResolvedFeature) (f : ResolvedFeature)
    → has_ref key (fs ++ f ∷ []) ≡ (has_ref key fs || (f.ref == key))
unfolding has_ref any
has_ref-snoc key fs f = ground (arith, any-append (λ g. g.ref == key) fs (f ∷ []))

pub all_mono {ℓ} :
    {A : Type ℓ} (p q : A → Bool) (xs : List A)
    → ((x : A) → p x ≡ true → q x ≡ true)
    → all p xs ≡ true
    → all q xs ≡ true
unfolding all
all_mono p q [] h e = refl
all_mono p q (x ∷ xs) h e = ground (arith, h x, all_mono p q xs h, e)

pub covered_mono :
    (p q : Text → Bool)
    → ((key : Text) → p key ≡ true → q key ≡ true)
    → (g : ResolvedFeature) → covered p g ≡ true
    → covered q g ≡ true
unfolding covered
covered_mono p q more g = all_mono _ _ (dependencies g.metadata) (λ entry. more entry.0)

empty_is_fresh : (true && (([] == []) && true)) ≡ true
empty_is_fresh = rw (==_refl []) refl

fresh_unfetched :
    (out : List ResolvedFeature) (key : Text) (opts : Map Json)
    → all is_fresh out ≡ true
    → all is_fresh (out ++ unfetched key opts ∷ []) ≡ true
unfolding all
fresh_unfetched out key opts h =
    all-append is_fresh out (unfetched key opts ∷ [])
    ∙ (ap (λ b. b && (([] == []) && true)) h ∙ empty_is_fresh)

module _ {ℓ} {A : Type ℓ} (p : A → Bool) (less : A → A → Bool) where
  all-insert_by : (x : A) (ys : List A) → all p (insert_by less x ys) ≡ (p x && all p ys)
  unfolding all insert_by
  all-insert_by x [] = refl
  all-insert_by x (y ∷ ys) = ground (arith, all-insert_by x ys)

  all-sort_from : (done xs : List A) → all p (sort_from less done xs) ≡ (all p done && all p xs)
  unfolding all sort_from
  all-sort_from done [] = ground arith
  all-sort_from done (x ∷ xs) =
      ground (arith, all-sort_from (insert_by less x done) xs, all-insert_by x done)

  pub all-sort_by : (xs : List A) → all p (sort_by less xs) ≡ all p xs
  unfolding sort_by all
  all-sort_by xs = ground (arith, all-sort_from [] xs)

module _ (ops : JsonOps) where
  -- The same content, installed with the same options.
  abbrev pub is_copy : ResolvedFeature → ResolvedFeature → Bool
  is_copy g f =
      not (g.resolved_ref == [])
      && ((g.resolved_ref == f.resolved_ref) && ops.deep_equal g.options f.options)

  unfoldable pub has_copy : List ResolvedFeature → ResolvedFeature → Bool
  has_copy fs f = any (λ g. is_copy g f) fs

  pub has_copy-snoc :
      (fs : List ResolvedFeature) (f : ResolvedFeature) (gs : List ResolvedFeature)
      → all (has_copy fs) gs ≡ true
      → all (has_copy (fs ++ f ∷ [])) gs ≡ true
  unfolding has_copy
  has_copy-snoc fs f gs =
      all_mono (has_copy fs) (has_copy (fs ++ f ∷ [])) gs
        (λ g h. ground (arith, h, any-append (λ k. is_copy k g) fs (f ∷ [])))

  pub duplicate_feature-has_copy :
      (fs : List ResolvedFeature) (f : ResolvedFeature)
      → duplicate_feature ops fs f ≡ true
      → has_copy fs f ≡ true
  unfolding duplicate_feature has_copy
  duplicate_feature-has_copy fs f h = h

  requested-has_ref :
      (fs : List ResolvedFeature) (key : Text) (opts : Map Json)
      → requested ops fs key opts ≡ true
      → has_ref key fs ≡ true
  unfolding requested has_ref any
  requested-has_ref [] key opts h = h
  requested-has_ref (f ∷ fs) key opts h = ground (arith, h, requested-has_ref fs key opts)

  module _ (lies_inside : Text → Bool) (features : List ResolvedFeature) (f : ResolvedFeature) where
    -- Each entry is among the features or the dependencies, which hold what was gathered before.
    unfoldable pub IsComplete : List ResolvedFeature → Map (Map Json) → Dependencies → Type 0
    IsComplete out entries (wanted deps) =
        (all (λ e. has_ref e.0 features || has_ref e.0 deps) entries ≡ true)
        × (all is_fresh deps ≡ true)
        × ((key : Text) → has_ref key out ≡ true → has_ref key deps ≡ true)
    IsComplete out entries (forbidden e) = Unit

    IsComplete-cons :
        (out more : List ResolvedFeature) (e : Text × Map Json) (entries : Map (Map Json))
        → (has_ref e.0 features || has_ref e.0 more) ≡ true
        → ((key : Text) → has_ref key out ≡ true → has_ref key more ≡ true)
        → (deps : Dependencies) → IsComplete more entries deps
        → IsComplete out (e ∷ entries) deps
    unfolding IsComplete all
    IsComplete-cons out more e entries here grows (wanted deps) (complete, fresh, kept) =
        (ground (arith, here, complete, kept e.0), fresh, λ key h. kept key (grows key h))
    IsComplete-cons out more e entries here grows (forbidden err) h = tt

    pub IsComplete-sort_by :
        (less : (Text × Map Json) → (Text × Map Json) → Bool) (entries : Map (Map Json))
        (deps : Dependencies)
        → IsComplete [] (sort_by less entries) deps
        → IsComplete [] entries deps
    unfolding IsComplete
    IsComplete-sort_by less entries (wanted deps) complete = (
      sym (all-sort_by (λ e. has_ref e.0 features || has_ref e.0 deps) less entries) ∙ complete.0,
      complete.1,
      complete.2,
    )
    IsComplete-sort_by less entries (forbidden e) complete = tt

    added_here :
        (out : List ResolvedFeature) (key : Text) (opts : Map Json)
        → (has_ref key features || has_ref key (out ++ unfetched key opts ∷ [])) ≡ true
    unfolding has_ref any
    added_here out key opts =
        ground (arith, any-append (λ g. g.ref == key) out (unfetched key opts ∷ []), ==_refl key)

    pub gather-IsComplete :
        (out : List ResolvedFeature) (entries : Map (Map Json))
        → all is_fresh out ≡ true
        → IsComplete out entries (gather ops lies_inside features f out entries)
    unfolding IsComplete gather all
    gather-IsComplete out [] fresh = (refl, fresh, λ key h. h)
    gather-IsComplete out ((key, opts) ∷ entries) fresh =
        let asked = requested ops features key opts || requested ops out key opts in
        let added = out ++ unfetched key opts ∷ [] in
        let later = gather ops lies_inside features f added entries in
        elim asked
            as (λ r.
              asked ≡ r
              → IsComplete out ((key, opts) ∷ entries) (elim r [
                | true ↦ gather ops lies_inside features f out entries
                | false ↦ elim (check_dependency ops lies_inside f key) [
                  | some e ↦ forbidden e
                  | none ↦ later
                ]
              ])) [
                | true ↦ λ held.
                    IsComplete-cons out out (key, opts) entries
                      (ground (
                        arith,
                        held,
                        requested-has_ref features key opts,
                        requested-has_ref out key opts,
                      ))
                      (λ k h. h) _ (gather-IsComplete out entries fresh)
                | false ↦ λ _.
                    elim (check_dependency ops lies_inside f key)
                      as (λ r.
                        IsComplete out ((key, opts) ∷ entries)
                          (elim r [ some e ↦ forbidden e | none ↦ later ])) [
                            | some e ↦ tt
                            | none ↦
                                IsComplete-cons out added (key, opts) entries
                                  (added_here out key opts)
                                  (λ k h.
                                    ground
                                      (arith, has_ref-append k out (unfetched key opts ∷ []), h))
                                  _
                                  (gather-IsComplete added entries
                                    (fresh_unfetched out key opts fresh))
                          ]
              ]
          refl
