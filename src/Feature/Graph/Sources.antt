-- ===== src/Feature/Graph/Sources.antt =====
-- From which features an edge leads to a feature.
use devcontainer.Base.{
  ℕ, zero, suc, ◌≤◌, ◌<◌, Bool, true, false, not, ◌&&◌, ◌||◌, List, [], ◌∷◌, map, flatten, filter,
  any, some, Text, Map, length, length-le_of_get_elem?, get_elem?, is_empty, if_ind, ◌≡◌, refl,
  arith, Bool-cases, inl, inr, Option-cases,
}
use devcontainer.Config.Types.{dependencies, Json, ResolvedFeature}
use devcontainer.Feature.Order.{normalize_id, same_id}
use devcontainer.Feature.Graph.{
  JsonOps, same_options, has_options, dependency_entries, predecessors, index_from, indices_of,
}
use devcontainer.Feature.Graph.Counts.{count, count-append, count-filter}
use devcontainer.Feature.Graph.Build.{named, named-above, count-indices_of}

module _ {ℓ} {A : Type ℓ} (g : A → List ℕ) (k : ℕ) where
  count-flatten_zero :
      (xs : List A) → ((x : A) → count k (g x) ≡ 0) → count k (flatten (map g xs)) ≡ 0
  unfolding count
  count-flatten_zero [] h = refl
  count-flatten_zero (x ∷ xs) h =
      omega (arith, count-append k (g x) (flatten (map g xs)), h x, count-flatten_zero xs h)

  count-flatten_pos :
      (p : A → Bool) (xs : List A)
      → ((x : A) → p x ≡ true → 0 < count k (g x))
      → any p xs ≡ true
      → 0 < count k (flatten (map g xs))
  unfolding any
  count-flatten_pos p [] h found = cc
  count-flatten_pos p (x ∷ xs) h found =
      ground (arith, h x, count-flatten_pos p xs h, count-append k (g x) (flatten (map g xs)))

module _ {ℓ} {A : Type ℓ} (g : A → List ℕ) (k : ℕ) where
  any_of_flatten :
      (p : A → Bool) (xs : List A)
      → ((x : A) → 0 < count k (g x) → p x ≡ true)
      → 0 < count k (flatten (map g xs))
      → any p xs ≡ true
  unfolding any count
  any_of_flatten p [] h m = absurd (omega arith)
  any_of_flatten p (x ∷ xs) h m =
      ground (arith, h x, any_of_flatten p xs h, count-append k (g x) (flatten (map g xs)), m)

get_elem?-any {ℓ} :
    {A : Type ℓ} (p : A → Bool) (xs : List A)
    → any p xs ≡ true
    → (k : ℕ) × (x : A) × (get_elem? xs k ≡ some x) × (p x ≡ true)
unfolding any
get_elem?-any p [] h = cc
get_elem?-any p (x ∷ xs) h = elim (Bool-cases (p x)) [
  | inl holds ↦ (zero, x, refl, holds)
  | inr fails ↦ let (k, y, at, holds) = get_elem?-any p xs (rw fails at h) in (suc k, y, at, holds)
]

empty_of_count : (xs : List ℕ) → ((k : ℕ) → count k xs ≡ 0) → xs ≡ []
unfolding count
empty_of_count [] h = refl
empty_of_count (x ∷ xs) h = ground (arith, h x)

count_of_empty : (k : ℕ) (xs : List ℕ) → is_empty xs ≡ true → count k xs ≡ 0
unfolding count
count_of_empty k [] h = refl
count_of_empty k (x ∷ xs) h = cc

any-get_elem? {ℓ} :
    {A : Type ℓ} (p : A → Bool) (xs : List A) (k : ℕ) (x : A)
    → get_elem? xs k ≡ some x
    → p x ≡ true
    → any p xs ≡ true
unfolding any
any-get_elem? p [] k x e h = cc
any-get_elem? p (y ∷ xs) zero x e h = ground arith
any-get_elem? p (y ∷ xs) (suc k) x e h = ground (arith, any-get_elem? p xs k x e h)

named-get_elem? :
    (features : List ResolvedFeature) (dep : Text) (k : ℕ) (g : ResolvedFeature)
    → get_elem? features k ≡ some g
    → named features (normalize_id dep) k ≡ same_id dep g
unfolding named same_id
named-get_elem? [] dep k g e = cc
named-get_elem? (f ∷ fs) dep zero g e = ground arith
named-get_elem? (f ∷ fs) dep (suc k) g e = named-get_elem? fs dep k g e

module _ (ops : JsonOps) (features : List ResolvedFeature) where
  -- `g` answers an entry of dependsOn: it has the id and the options, or the id where no feature
  -- has both.
  abbrev pub answers : Text × Map Json → ResolvedFeature → Bool
  answers entry g =
      same_id entry.0 g
      && (same_options ops g entry.1
          || not (any (λ h. same_id entry.0 h && same_options ops h entry.1) features))

  -- `f` is to be installed behind `g`.
  unfoldable pub requires : ResolvedFeature → ResolvedFeature → Bool
  requires f g =
      any (λ dep. same_id dep g) f.metadata.installs_after
      || any (λ entry. answers entry g) (dependencies f.metadata)

  abbrev idx : Map (List ℕ)
  idx = index_from 0 features []

  module _ (cands : List ℕ) (opts : Map Json) (k : ℕ) where
    count-dependency_entries-le :
        count k (dependency_entries ops features cands opts) ≤ count k cands
    unfolding dependency_entries
    count-dependency_entries-le =
        let p = λ (j : ℕ). has_options ops opts (get_elem? features j) in
        if_ind (λ (r : List ℕ). count k r ≤ count k cands) (is_empty (filter p cands))
          (λ _. omega arith) (λ _. ground (arith, count-filter p k cands))

    count-dependency_entries_same :
        has_options ops opts (get_elem? features k) ≡ true
        → 0 < count k cands
        → 0 < count k (dependency_entries ops features cands opts)
    unfolding dependency_entries
    count-dependency_entries_same same h =
        let p = λ (j : ℕ). has_options ops opts (get_elem? features j) in
        if_ind (λ (r : List ℕ). 0 < count k r) (is_empty (filter p cands)) (λ _. h)
          (λ _. ground (arith, count-filter p k cands, same))

    count-dependency_entries_some :
        (j : ℕ)
        → has_options ops opts (get_elem? features j) ≡ true
        → 0 < count j cands
        → 0 < count k (dependency_entries ops features cands opts)
        → has_options ops opts (get_elem? features k) ≡ true
    unfolding dependency_entries count
    count-dependency_entries_some j same h =
        let p = λ (i : ℕ). has_options ops opts (get_elem? features i) in
        if_ind (λ (r : List ℕ). 0 < count k r → has_options ops opts (get_elem? features k) ≡ true)
          (is_empty (filter p cands))
          (λ empty _.
            absurd (
              ground
                (arith, count-filter p j cands, same, count_of_empty j (filter p cands) empty)))
          (λ _ m. ground (arith, count-filter p k cands, m))

    count-dependency_entries_none :
        ((j : ℕ) → 0 < count j cands → has_options ops opts (get_elem? features j) ≡ false)
        → 0 < count k cands
        → 0 < count k (dependency_entries ops features cands opts)
    unfolding dependency_entries
    count-dependency_entries_none differ h =
        let p = λ (j : ℕ). has_options ops opts (get_elem? features j) in
        let empty : filter p cands ≡ [] =
          empty_of_count (filter p cands) (λ j. ground (arith, count-filter p j cands, differ j)) in
        rw empty h

  -- What stands at an index that has the id of an entry does not have its options.
  none_answers :
      (dep : Text) (opts : Map Json) (j : ℕ)
      → any (λ h. same_id dep h && same_options ops h opts) features ≡ false
      → 0 < count j (indices_of idx (normalize_id dep))
      → has_options ops opts (get_elem? features j) ≡ false
  none_answers dep opts j none_has m = elim (Option-cases (get_elem? features j)) [
    | inl e ↦ rw e
    | inr (g, e) ↦ elim (Bool-cases (same_options ops g opts)) [
      | inr other ↦ rw e other
      | inl same ↦
          let has_id : same_id dep g ≡ true = ground (
            arith,
            count-indices_of features (normalize_id dep) j,
            named-get_elem? features dep j g e,
          ) in
          absurd (
            cc (
              any-get_elem? (λ h. same_id dep h && same_options ops h opts) features j g e
                (rw (has_id, same) refl)))
    ]
  ]

  count-indices_of_same :
      (k : ℕ) (g : ResolvedFeature)
      → get_elem? features k ≡ some g
      → (dep : Text) → same_id dep g ≡ true
      → 0 < count k (indices_of idx (normalize_id dep))
  count-indices_of_same k g e dep same =
      ground
        (arith, count-indices_of features (normalize_id dep) k, named-get_elem? features dep k g e)

  module _ (k : ℕ) (g : ResolvedFeature) (e : get_elem? features k ≡ some g) where
    count-on :
        (entry : Text × Map Json)
        → answers entry g ≡ true
        → 0
          < count k
              (dependency_entries ops features (indices_of idx (normalize_id entry.0)) entry.1)
    count-on entry holds =
        let cands = indices_of idx (normalize_id entry.0) in
        let listed : 0 < count k cands =
          count-indices_of_same k g e entry.0 (ground (arith, holds)) in
        elim (Bool-cases (same_options ops g entry.1)) [
          | inl same ↦ count-dependency_entries_same cands entry.1 k (rw e same) listed
          | inr other ↦
              let none_has : any (λ h. same_id entry.0 h && same_options ops h entry.1) features
                  ≡ false =
                ground (arith, holds, other) in
              count-dependency_entries_none cands entry.1 k
                (λ j m. none_answers entry.0 entry.1 j none_has m) listed
        ]

    same_of_count :
        (dep : Text) → 0 < count k (indices_of idx (normalize_id dep)) → same_id dep g ≡ true
    same_of_count dep listed = ground (
      arith,
      count-indices_of features (normalize_id dep) k,
      named-get_elem? features dep k g e,
      listed,
    )

    answers_of_count :
        (entry : Text × Map Json)
        → 0
          < count k
              (dependency_entries ops features (indices_of idx (normalize_id entry.0)) entry.1)
        → answers entry g ≡ true
    answers_of_count entry listed =
        let cands = indices_of idx (normalize_id entry.0) in
        let has_id : same_id entry.0 g ≡ true =
          same_of_count entry.0 (omega (arith, count-dependency_entries-le cands entry.1 k)) in
        elim (Bool-cases (any (λ h. same_id entry.0 h && same_options ops h entry.1) features)) [
          | inr none_has ↦ rw (has_id, none_has) (ground arith)
          | inl some_has ↦
              let (j, h, at, holds) =
                get_elem?-any (λ x. same_id entry.0 x && same_options ops x entry.1) features
                  some_has in
              let others : 0 < count j cands =
                count-indices_of_same j h at entry.0 (ground (arith, holds)) in
              let chosen =
                count-dependency_entries_some cands entry.1 k j (rw at (ground (arith, holds)))
                  others listed in
              let own : same_options ops g entry.1 ≡ true = (rw e at chosen) in
              rw (has_id, some_has, own) refl
        ]

  module _ (f : ResolvedFeature) (k : ℕ) where
    -- Edges come from indices of features.
    pub predecessors-range : length features ≤ k → count k (predecessors ops features idx f) ≡ 0
    unfolding predecessors
    predecessors-range above =
        let absent : (id : Text) → count k (indices_of idx id) ≡ 0 =
          λ id. ground (arith, count-indices_of features id k, named-above features id k above) in
        let after = λ (dep : Text). indices_of idx (normalize_id dep) in
        let on = λ (e : Text × Map Json).
          dependency_entries ops features (indices_of idx (normalize_id e.0)) e.1 in
        omega (
          arith,
          count-append k (flatten (map after f.metadata.installs_after))
              (flatten (map on (dependencies f.metadata))),
          count-flatten_zero after k f.metadata.installs_after (λ dep. absent (normalize_id dep)),
          count-flatten_zero on k (dependencies f.metadata) (λ e. omega (
            arith,
            absent (normalize_id e.0),
            count-dependency_entries-le (indices_of idx (normalize_id e.0)) e.1 k,
          )),
        )

    -- There is an edge from each feature that `f` requires.
    pub predecessors-requires :
        (g : ResolvedFeature)
        → get_elem? features k ≡ some g
        → requires f g ≡ true
        → 0 < count k (predecessors ops features idx f)
    unfolding predecessors requires
    predecessors-requires g e h =
        let after = λ (dep : Text). indices_of idx (normalize_id dep) in
        let on =
          λ (entry : Text × Map Json). dependency_entries ops features (after entry.0) entry.1 in
        ground (
          arith,
          count-append k (flatten (map after f.metadata.installs_after))
              (flatten (map on (dependencies f.metadata))),
          count-flatten_pos after k (λ dep. same_id dep g) f.metadata.installs_after
              (λ dep same. count-indices_of_same k g e dep same),
          count-flatten_pos on k (λ entry. answers entry g) (dependencies f.metadata)
              (λ entry holds. count-on k g e entry holds),
        )

    -- There is no other edge.
    pub requires-predecessors :
        0 < count k (predecessors ops features idx f)
        → (g : ResolvedFeature) × (get_elem? features k ≡ some g) × (requires f g ≡ true)
    unfolding predecessors requires
    requires-predecessors m = elim (Option-cases (get_elem? features k)) [
      | inl absent ↦
          absurd (ground (arith, predecessors-range (length-le_of_get_elem? features k absent)))
      | inr (g, e) ↦
          let after = λ (dep : Text). indices_of idx (normalize_id dep) in
          let on =
            λ (entry : Text × Map Json). dependency_entries ops features (after entry.0) entry.1 in
          (
            g,
            e,
            ground (
              arith,
              m,
              count-append k (flatten (map after f.metadata.installs_after))
                  (flatten (map on (dependencies f.metadata))),
              any_of_flatten after k (λ dep. same_id dep g) f.metadata.installs_after
                  (λ dep listed. same_of_count k g e dep listed),
              any_of_flatten on k (λ entry. answers entry g) (dependencies f.metadata)
                  (λ entry listed. answers_of_count k g e entry listed),
            ),
          )
    ]
