-- ===== src/Base/Falling.antt =====
-- Lists along which a number never rises, and sorting into one.
use Prim.Native.Nat.{ℕ, ◌≤◌}
use mathlib.Core.Path.{◌≡◌}
use mathlib.Core.Bool.{Bool, true, false}
use mathlib.Core.List.{List, [], ◌∷◌}
use native.Mathlib.Omega.{arith}
use devcontainer.Base.Tests.{if_ind}
use devcontainer.Base.Sort.{insert_by, sort_from, sort_by}

module _ {ℓ} {A : Type ℓ} (f : A → ℕ) where
  abbrev pub AllBelow : ℕ → List A → Type 0
  AllBelow n [] = Unit {0}
  AllBelow n (x ∷ xs) = (f x ≤ n) × AllBelow n xs

  abbrev pub IsFalling : List A → Type 0
  IsFalling [] = Unit {0}
  IsFalling (x ∷ xs) = AllBelow (f x) xs × IsFalling xs

  AllBelow-le : (m n : ℕ) (xs : List A) → m ≤ n → AllBelow m xs → AllBelow n xs
  AllBelow-le m n [] h k = tt
  AllBelow-le m n (x ∷ xs) h k = (omega (arith, k.0), AllBelow-le m n xs h k.1)

  module _ (less : A → A → Bool) (if_less : (a b : A) → less a b ≡ true → f b ≤ f a)
      (if_not : (a b : A) → less a b ≡ false → f a ≤ f b) where
    AllBelow-insert_by :
        (n : ℕ) (x : A) (ys : List A) → f x ≤ n → AllBelow n ys → AllBelow n (insert_by less x ys)
    unfolding insert_by
    AllBelow-insert_by n x [] h k = (h, tt)
    AllBelow-insert_by n x (y ∷ ys) h k =
        if_ind (AllBelow n) (less x y) (λ _. (h, k)) (λ _. (k.0, AllBelow-insert_by n x ys h k.1))

    insert_by-IsFalling : (x : A) (ys : List A) → IsFalling ys → IsFalling (insert_by less x ys)
    unfolding insert_by
    insert_by-IsFalling x [] k = (tt, tt)
    insert_by-IsFalling x (y ∷ ys) k =
        if_ind IsFalling (less x y)
          (λ h. let below = if_less x y h in ((below, AllBelow-le (f y) (f x) ys below k.0), k))
          (λ h. (AllBelow-insert_by (f y) x ys (if_not x y h) k.0, insert_by-IsFalling x ys k.1))

    sort_from-IsFalling : (done xs : List A) → IsFalling done → IsFalling (sort_from less done xs)
    unfolding sort_from
    sort_from-IsFalling done [] k = k
    sort_from-IsFalling done (x ∷ xs) k =
        sort_from-IsFalling (insert_by less x done) xs (insert_by-IsFalling x done k)

    pub sort_by-IsFalling : (xs : List A) → IsFalling (sort_by less xs)
    unfolding sort_by
    sort_by-IsFalling xs = sort_from-IsFalling [] xs tt
