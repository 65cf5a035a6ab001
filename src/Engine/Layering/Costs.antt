-- ===== src/Engine/Layering/Costs.antt =====
-- How many rounds features take in a world where finitely many things are ever asked for.
use devcontainer.Base.{
  ℕ, suc, ◌+◌, ◌≤◌, Bool, true, false, ◌||◌, List, [], ◌∷◌, ◌++◌, none, some, Text, ◌==◌, Map,
  insert_by, sort_from, sort_by, length, if◌then◌else◌, ◌≡◌, refl, arith, if_ind, ◌⊎◌,
}
use devcontainer.Config.Types.{Json, ResolvedFeature, dependencies}
use devcontainer.Feature.Graph.{JsonOps}
use devcontainer.Engine.Layering.Request.{
  Dependencies, wanted, forbidden, requested, check_dependency, gather, unfetched,
}

-- A key of a dependsOn with its options.
abbrev pub Entry : Type 0
Entry = Text × Map Json

-- `e` is among the entries.
unfoldable pub IsIn : Entry → List Entry → Type 0
IsIn e [] = ⊥
IsIn e (k ∷ ks) = (e ≡ k) ⊎ IsIn e ks

unfoldable pub AreIn : List Entry → List Entry → Type 0
AreIn [] universe = Unit
AreIn (e ∷ es) universe = IsIn e universe × AreIn es universe

module _ (universe : List Entry) (less : Entry → Entry → Bool) where
  AreIn-insert_by :
      (x : Entry) (ys : List Entry)
      → IsIn x universe
      → AreIn ys universe
      → AreIn (insert_by less x ys) universe
  unfolding AreIn insert_by
  AreIn-insert_by x [] here rest = (here, tt)
  AreIn-insert_by x (y ∷ ys) here rest =
      if_ind (λ zs. AreIn zs universe) (less x y) (λ _. (here, rest))
        (λ _. (rest.0, AreIn-insert_by x ys here rest.1))

  AreIn-sort_from :
      (done xs : List Entry)
      → AreIn done universe
      → AreIn xs universe
      → AreIn (sort_from less done xs) universe
  unfolding AreIn sort_from
  AreIn-sort_from done [] h k = h
  AreIn-sort_from done (x ∷ xs) h k =
      AreIn-sort_from (insert_by less x done) xs (AreIn-insert_by x done k.0 h) k.1

  pub AreIn-sort_by : (xs : List Entry) → AreIn xs universe → AreIn (sort_by less xs) universe
  unfolding sort_by AreIn
  AreIn-sort_by xs h = AreIn-sort_from [] xs tt h

  length-insert_by : (x : Entry) (ys : List Entry) → length (insert_by less x ys) ≡ suc (length ys)
  unfolding insert_by
  length-insert_by x [] = refl
  length-insert_by x (y ∷ ys) = ground (arith, length-insert_by x ys)

  length-sort_from :
      (done xs : List Entry) → length (sort_from less done xs) ≡ length done + length xs
  unfolding sort_from
  length-sort_from done [] = omega arith
  length-sort_from done (x ∷ xs) =
      omega (arith, length-sort_from (insert_by less x done) xs, length-insert_by x done)

  pub length-sort_by : (xs : List Entry) → length (sort_by less xs) ≡ length xs
  unfolding sort_by
  length-sort_by xs = omega (arith, length-sort_from [] xs)

-- Whatever is read asks for entries of the universe, and for at most `width` of them.
module _ (universe : List Entry) (width : ℕ) where
  abbrev pub IsKnown : List Entry → Type 0
  IsKnown entries = AreIn entries universe × (length entries ≤ width)

  -- A feature that the loop may come to: in the base image, already there, or asked for.
  pub data IsPending : ResolvedFeature → Type 0 where
    in_base :
        {f : ResolvedFeature}
        → f.already_installed ≡ true
        → IsKnown (dependencies f.metadata)
        → IsPending f
    is_there :
        {f : ResolvedFeature} → f.already_installed ≡ false → (f.dir == []) ≡ false → IsPending f
    is_asked : (e : Entry) → IsIn e universe → IsPending (unfetched e.0 e.1)

  unfoldable pub ArePending : List ResolvedFeature → Type 0
  ArePending [] = Unit
  ArePending (f ∷ fs) = IsPending f × ArePending fs

  pub ArePending-append :
      (fs gs : List ResolvedFeature) → ArePending fs → ArePending gs → ArePending (fs ++ gs)
  unfolding ArePending
  ArePending-append [] gs h k = k
  ArePending-append (f ∷ fs) gs h k = (h.0, ArePending-append fs gs h.1 k)

  unfoldable pub weights : List ResolvedFeature → ℕ
  weights [] = 0
  weights (f ∷ fs) = (if f.already_installed then suc width else 1) + weights fs

  pub weights-append : (fs gs : List ResolvedFeature) → weights (fs ++ gs) ≡ weights fs + weights gs
  unfolding weights
  weights-append [] gs = omega arith
  weights-append (f ∷ fs) gs = omega (arith, weights-append fs gs)

  -- One round and `width` more for each entry.
  unfoldable pub all_rooms : List Entry → ℕ
  all_rooms [] = 0
  all_rooms (e ∷ es) = suc width + all_rooms es

  unfoldable pub IsWithin : ℕ → Dependencies → Type 0
  IsWithin n (wanted deps) = ArePending deps × (weights deps ≤ n)
  IsWithin n (forbidden e) = Unit

  pub gather-IsWithin :
      (ops : JsonOps) (lies_inside : Text → Bool) (features : List ResolvedFeature)
      (f : ResolvedFeature) (n : ℕ) (out : List ResolvedFeature) (entries : List Entry)
      → ArePending out
      → AreIn entries universe
      → weights out + length entries ≤ n
      → IsWithin n (gather ops lies_inside features f out entries)
  unfolding IsWithin gather AreIn ArePending weights
  gather-IsWithin ops lies_inside features f n out [] pending known le =
      (pending, omega (arith, le))
  gather-IsWithin ops lies_inside features f n out ((key, opts) ∷ entries) pending known le =
      let d = unfetched key opts in
      let later = gather ops lies_inside features f (out ++ d ∷ []) entries in
      let later_within =
        gather-IsWithin ops lies_inside features f n (out ++ d ∷ []) entries
          (ArePending-append out (d ∷ []) pending (is_asked (key, opts) known.0, tt)) known.1
          (omega (arith, le, weights-append out (d ∷ []))) in
      elim (requested ops features key opts || requested ops out key opts)
        as (λ r. IsWithin n (elim r [
          | true ↦ gather ops lies_inside features f out entries
          | false ↦ elim (check_dependency ops lies_inside f key) [
            | some e ↦ forbidden e
            | none ↦ later
          ]
        ])) [
          | true ↦
              gather-IsWithin ops lies_inside features f n out entries pending known.1
                (omega (arith, le))
          | false ↦
              elim (check_dependency ops lies_inside f key)
                as (λ r. IsWithin n (elim r [ some e ↦ forbidden e | none ↦ later ])) [
                  | some e ↦ tt
                  | none ↦ later_within
                ]
        ]
