-- ===== src/Base/Sort.antt =====
-- `sort.Strings` and `sort.Slice`: a stable insertion sort under a Boolean "less" test.
use mathlib.Core.Path.{◌≡◌, refl, ap, ◌∙◌}
use mathlib.Core.Logic.{inl, inr, ∥∥₁_elim}
use mathlib.Core.Bool.{Bool, true, false, ◌&&◌, ◌||◌, not}
use mathlib.Core.List.{List, [], ◌∷◌, ◌++◌, Perm, Permᴰ, perm_middle, append-nil}
use mathlib.Core.List.Perm
use native.Mathlib.Nat.{ℕ_set}
use native.Mathlib.Omega.{arith}
use devcontainer.Base.Tests.{if◌then◌else◌, Bool-cases}
use devcontainer.Base.Lists.{all}
use devcontainer.Base.Texts.{
  Text, contains, text_ltb, text_ltb_trans, text_ltb_total, text_ltb_irrefl, ◌==◌,
}

module _ {ℓ} {A : Type ℓ} (less : A → A → Bool) where
  -- `x` goes behind the items that are not greater than it.
  unfoldable pub insert_by : A → List A → List A
  insert_by x [] = x ∷ []
  insert_by x (y ∷ ys) = let rest = insert_by x ys in if less x y then x ∷ y ∷ ys else y ∷ rest

  unfoldable pub sort_from : List A → List A → List A
  unfolding insert_by
  sort_from done [] = done
  sort_from done (x ∷ xs) = sort_from (insert_by x done) xs

  unfoldable pub sort_by : List A → List A
  unfolding sort_from
  sort_by xs = sort_from [] xs

  pub insert_by-perm : (x : A) (ys : List A) → Perm (insert_by x ys) (x ∷ ys)
  unfolding insert_by
  insert_by-perm x [] = Perm.refl (x ∷ [])
  insert_by-perm x (y ∷ ys) = elim (Bool-cases (less x y)) [
    | inl h ↦ rw h (Perm.refl (x ∷ y ∷ ys))
    | inr h ↦ rw h (Perm.trans (Perm.cons y (insert_by-perm x ys)) (Perm.swap x y ys))
  ]

  sort_from-perm : (done xs : List A) → Perm (sort_from done xs) (done ++ xs)
  unfolding sort_from
  sort_from-perm done [] = rw append-nil (Perm.refl done)
  sort_from-perm done (x ∷ xs) =
      Perm.trans (sort_from-perm (insert_by x done) xs) (
        Perm.trans (Perm.append_right xs (insert_by-perm x done)) (Perm.symm (perm_middle done xs)))

  pub sort_by-perm : (xs : List A) → Perm (sort_by xs) xs
  unfolding sort_by
  sort_by-perm xs = sort_from-perm [] xs

unfoldable pub sort : List Text → List Text
unfolding sort_by
sort xs = sort_by text_ltb xs

-- Not greater.
abbrev pub text_leb : Text → Text → Bool
text_leb s t = not (text_ltb t s)

pub IsSorted : List Text → Type 0
IsSorted [] = Unit
IsSorted (x ∷ xs) = (all (text_leb x) xs ≡ true) × IsSorted xs

all-insert_by :
    (p : Text → Bool) (x : Text) (ys : List Text)
    → all p (insert_by text_ltb x ys) ≡ p x && all p ys
unfolding insert_by all
all-insert_by p x [] = refl
all-insert_by p x (y ∷ ys) = ground (arith, all-insert_by p x ys)

all-text_leb_trans :
    (x y : Text) (ys : List Text)
    → text_leb x y ≡ true
    → all (text_leb y) ys ≡ true
    → all (text_leb x) ys ≡ true
unfolding all
all-text_leb_trans x y [] h k = refl
all-text_leb_trans x y (z ∷ zs) h k =
    ground (
      arith,
      all-text_leb_trans x y zs,
      text_ltb_trans z x y,
      text_ltb_total x y,
      text_ltb_total y z,
    )

text_ltb_asymm : (x y : Text) → text_ltb x y ≡ true → text_ltb y x ≡ false
text_ltb_asymm x y h = ground (arith, text_ltb_trans x y x, text_ltb_irrefl x)

insert_by-IsSorted : (x : Text) (ys : List Text) → IsSorted ys → IsSorted (insert_by text_ltb x ys)
unfolding insert_by IsSorted all
insert_by-IsSorted x [] h = (refl, tt)
insert_by-IsSorted x (y ∷ ys) h = elim (Bool-cases (text_ltb x y)) [
  | inl less ↦
      let le : text_leb x y ≡ true = ground (arith, text_ltb_asymm x y less) in
      rw less (ground (arith, all-text_leb_trans x y ys le h.0), h)
  | inr more ↦
      rw more
        (ground (arith, all-insert_by (text_leb y) x ys, more, h.0), insert_by-IsSorted x ys h.1)
]

sort_from-IsSorted : (done xs : List Text) → IsSorted done → IsSorted (sort_from text_ltb done xs)
unfolding sort_from
sort_from-IsSorted done [] h = h
sort_from-IsSorted done (x ∷ xs) h =
    sort_from-IsSorted (insert_by text_ltb x done) xs (insert_by-IsSorted x done h)

pub sort-IsSorted : (xs : List Text) → IsSorted (sort xs)
unfolding sort IsSorted
sort-IsSorted xs = sort_from-IsSorted [] xs tt

contains-insert_by :
    (x : Text) (ys : List Text) (k : Text)
    → contains (insert_by text_ltb x ys) k ≡ (x == k) || contains ys k
unfolding insert_by contains
contains-insert_by x [] k = refl
contains-insert_by x (y ∷ ys) k = ground (arith, contains-insert_by x ys k)

contains-sort_from :
    (done xs : List Text) (k : Text)
    → contains (sort_from text_ltb done xs) k ≡ contains done k || contains xs k
unfolding sort_from contains
contains-sort_from done [] k = ground arith
contains-sort_from done (x ∷ xs) k =
    ground (arith, contains-sort_from (insert_by text_ltb x done) xs k, contains-insert_by x done k)

pub contains-sort : (xs : List Text) (k : Text) → contains (sort xs) k ≡ contains xs k
unfolding sort contains
contains-sort xs k = contains-sort_from [] xs k

-- The order in which two items are inserted does not matter.
insert_by_swap :
    (x y : Text) (zs : List Text)
    → insert_by text_ltb x (insert_by text_ltb y zs)
      ≡ insert_by text_ltb y (insert_by text_ltb x zs)
unfolding insert_by
insert_by_swap x y [] = ground (arith, text_ltb_asymm x y, text_ltb_total x y)
insert_by_swap x y (z ∷ zs) = ground (
  arith,
  insert_by_swap x y zs,
  text_ltb_asymm x y,
  text_ltb_total x y,
  text_ltb_trans x y z,
  text_ltb_trans y x z,
  text_ltb_total x z,
  text_ltb_total y z,
)

Text-set-list : IsSet (List Text)
Text-set-list = hlevel ℕ_set

sort_from-permᴰ :
    {xs ys : List Text} (done : List Text)
    → Permᴰ xs ys
    → sort_from text_ltb done xs ≡ sort_from text_ltb done ys
unfolding sort_from
sort_from-permᴰ done Permᴰ.nil = refl
sort_from-permᴰ done (Permᴰ.cons {a = x} {l₁ = xs} {l₂ = ys} e p) =
    sort_from-permᴰ (insert_by text_ltb x done) p
    ∙ ap (λ z. sort_from text_ltb (insert_by text_ltb z done) ys) e
sort_from-permᴰ done (Permᴰ.swap {a = x} {b = y} {a' = u} {b' = v} {l = zs} e f) =
    rw (e, f) (ap (λ r. sort_from text_ltb r zs) (insert_by_swap u v done))
sort_from-permᴰ done (Permᴰ.trans p q) = sort_from-permᴰ done p ∙ sort_from-permᴰ done q

pub sort-eq_of_perm : {xs ys : List Text} → Perm xs ys → sort xs ≡ sort ys
unfolding sort
sort-eq_of_perm p = ∥∥₁_elim p (Text-set-list _ _) (sort_from-permᴰ [])

pub sort-perm : (xs : List Text) → Perm (sort xs) xs
unfolding sort
sort-perm xs = sort_by-perm text_ltb xs
