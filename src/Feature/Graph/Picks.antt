-- ===== src/Feature/Graph/Picks.antt =====
-- The features at a list of indices.
use mathlib.Core.List.{Perm, perm_middle}
use mathlib.Core.List.Perm
use devcontainer.Base.{
  ℕ, suc, ◌<◌, Bool, false, List, [], ◌∷◌, ◌++◌, some, length, length-append, get_elem?, nat_beq,
  any, ◌≡◌, refl, ap, arith, Bool-cases, Option-cases, inl, inr, append_assoc,
}
use devcontainer.Config.Types.{ResolvedFeature}
use devcontainer.Feature.Graph.{pick}
use devcontainer.Feature.Graph.Counts.{count, count-append, range_from}

split_of_count :
    (x : ℕ) (ys : List ℕ)
    → 0 < count x ys
    → (pre : List ℕ) × (post : List ℕ) × (ys ≡ pre ++ x ∷ post)
unfolding count
split_of_count x [] h = absurd (omega (arith, h))
split_of_count x (y ∷ ys) h = elim (Bool-cases (nat_beq y x)) [
  | inl same ↦ let e : y ≡ x = ground (arith, same) in ([], ys, ap (λ z. z ∷ ys) e)
  | inr other ↦
      let (pre, post, e) = split_of_count x ys (ground (arith, other)) in
      (y ∷ pre, post, ap (λ r. y ∷ r) e)
]

module _ (features : List ResolvedFeature) where
  pick-append : (xs ys : List ℕ) → pick features (xs ++ ys) ≡ pick features xs ++ pick features ys
  unfolding pick
  pick-append [] ys = refl
  pick-append (x ∷ xs) ys = elim (Option-cases (get_elem? features x)) [
    | inl e ↦ rw (e, pick) (pick-append xs ys)
    | inr (f, e) ↦ rw (e, pick) (ap (λ r. f ∷ r) (pick-append xs ys))
  ]

  pick_cons-perm :
      (x : ℕ) (xs pre post : List ℕ)
      → Perm (pick features xs) (pick features pre ++ pick features post)
      → Perm (pick features (x ∷ xs)) (pick features pre ++ pick features (x ∷ post))
  unfolding pick
  pick_cons-perm x xs pre post p = elim (Option-cases (get_elem? features x)) [
    | inl e ↦ rw (e, pick) p
    | inr (f, e) ↦
        rw (e, pick)
          (Perm.trans (Perm.cons f p)
            (Perm.symm (perm_middle (pick features pre) (pick features post))))
  ]

  -- Lists with the same indices, as often, pick the same features, as often.
  pub pick-perm :
      (xs ys : List ℕ)
      → ((j : ℕ) → count j xs ≡ count j ys)
      → Perm (pick features xs) (pick features ys)
  unfolding count pick
  pick-perm [] [] h = Perm.refl []
  pick-perm [] (y ∷ ys) h = absurd (ground (arith, h y))
  pick-perm (x ∷ xs) ys h =
      let (pre, post, e) = split_of_count x ys (ground (arith, h x)) in
      let rest = pick-perm xs (pre ++ post) (λ j.
        ground
          (arith, h j, ap (count j) e, count-append j pre (x ∷ post), count-append j pre post)) in
      rw e (rw pick-append (pick_cons-perm x xs pre post (rw pick-append at rest)))

  pub any-pick :
      (p : ResolvedFeature → Bool) (is : List ℕ)
      → ((k : ℕ) (g : ResolvedFeature)
          → 0 < count k is
          → get_elem? features k ≡ some g
          → p g ≡ false)
      → any p (pick features is) ≡ false
  unfolding any count pick
  any-pick p [] h = refl
  any-pick p (i ∷ is) h =
      let rest = any-pick p is (λ k g m e. h k g (ground (arith, m)) e) in
      elim (Option-cases (get_elem? features i)) [
        | inl e ↦ rw (e, pick) rest
        | inr (f, e) ↦ rw (e, pick) (ground (arith, rest, h i f (ground arith) e))
      ]

get_elem?-append :
    (pre : List ResolvedFeature) (f : ResolvedFeature) (fs : List ResolvedFeature)
    → get_elem? (pre ++ f ∷ fs) (length pre) ≡ some f
get_elem?-append [] f fs = refl
get_elem?-append (g ∷ pre) f fs = get_elem?-append pre f fs

pick-range_from :
    (pre fs : List ResolvedFeature) (i : ℕ)
    → i ≡ length pre
    → pick (pre ++ fs) (range_from i (length fs)) ≡ fs
unfolding range_from pick
pick-range_from pre [] i e = refl
pick-range_from pre (f ∷ fs) i e =
    let longer : suc i ≡ length (pre ++ f ∷ []) = omega (arith, e, length-append pre (f ∷ [])) in
    let rest = pick-range_from (pre ++ f ∷ []) fs (suc i) longer in
    let at : get_elem? (pre ++ f ∷ fs) i ≡ some f = rw e (get_elem?-append pre f fs) in
    rw (at, pick) (ap (λ r. f ∷ r) (rw (append_assoc pre (f ∷ []) fs) at rest))

pub pick_all :
    (features : List ResolvedFeature) → pick features (range_from 0 (length features)) ≡ features
pick_all features = pick-range_from [] features 0 refl
