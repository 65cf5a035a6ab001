-- ===== src/Base/Texts.antt =====
-- Go strings: lists of bytes, compared byte by byte.
use Prim.Native.Nat.{ℕ, ◌<◌}
use Prim.Native.Char.{code}
use Prim.Native.String.{String}
use mathlib.Core.Path.{◌≡◌, refl, ap, ◌∙◌}
use mathlib.Core.Logic.{inl, inr, ◌↔◌, ◌≢◌, ∥∥₁_elim}
use mathlib.Core.Bool.{Bool, true, false, ◌&&◌, ◌||◌}
use mathlib.Core.List.{List, [], ◌∷◌, ◌++◌, Perm, Permᴰ}
use native.Mathlib.Omega.{arith}
use devcontainer.Base.Tests.{nat_beq, ltb, Bool-cases}
use devcontainer.Base.Lists.{filter, any, length, length-filter-le}

abbrev pub Text : Type 0
Text = List ℕ

-- The bytes of an ASCII literal.
abbrev pub text : String → Text
text String.[] = []
text (String.◌∷◌ c s) = code c ∷ text s

infix 50 ◌==◌
unfoldable pub ◌==◌ : Text → Text → Bool
[] == [] = true
[] == (y ∷ ys) = false
(x ∷ xs) == [] = false
(x ∷ xs) == (y ∷ ys) = nat_beq x y && (xs == ys)

Bool_set : IsSet Bool
Bool_set = hlevel

pub eq_of_== : (s t : Text) → (s == t) ≡ true → s ≡ t
unfolding ◌==◌
eq_of_== [] [] h = refl
eq_of_== [] (y ∷ ys) h = cc
eq_of_== (x ∷ xs) [] h = cc
eq_of_== (x ∷ xs) (y ∷ ys) h = ground (arith, eq_of_== xs ys)

pub ==_refl : (s : Text) → (s == s) ≡ true
unfolding ◌==◌
==_refl [] = refl
==_refl (x ∷ xs) = ground (arith, ==_refl xs)

pub eq_iff : (s t : Text) → ((s == t) ≡ true) ↔ (s ≡ t)
eq_iff s t = (eq_of_== s t, λ e. rw e (==_refl t))

-- Membership in a list of strings.
unfoldable pub contains : List Text → Text → Bool
contains [] k = false
contains (x ∷ xs) k = (x == k) || contains xs k

pub contains-nil : (k : Text) → contains [] k ≢ true
unfolding contains
contains-nil k h = cc h

pub contains-append :
    (xs ys : List Text) (k : Text) → contains (xs ++ ys) k ≡ contains xs k || contains ys k
unfolding contains
contains-append [] ys k = refl
contains-append (x ∷ xs) ys k = ground (arith, contains-append xs ys k)

-- Only the test at `k` itself matters for `k`.
pub contains-filter :
    (p : Text → Bool) (xs : List Text) (k : Text) → contains (filter p xs) k ≡ contains xs k && p k
unfolding contains filter
contains-filter p [] k = refl
contains-filter p (x ∷ xs) k = elim (Bool-cases (x == k)) [
  | inl same ↦ let e = eq_of_== x k same in ground (arith, contains-filter p xs k, ap p e, same)
  | inr other ↦ ground (arith, contains-filter p xs k, other)
]

-- A filter that drops a listed item is shorter.
pub length-filter-lt :
    (p : Text → Bool) (xs : List Text) (k : Text)
    → contains xs k ≡ true
    → p k ≡ false
    → length (filter p xs) < length xs
unfolding contains filter
length-filter-lt p [] k h dropped = cc
length-filter-lt p (x ∷ xs) k h dropped = elim (Bool-cases (x == k)) [
  | inl same ↦ let e = eq_of_== x k same in ground (arith, length-filter-le p xs, ap p e, dropped)
  | inr other ↦ ground (arith, length-filter-lt p xs k, length-filter-le p xs, other)
]

-- Tests that agree on the listed items filter alike.
pub filter_ext_of_contains :
    (p q : Text → Bool) (xs : List Text)
    → ((k : Text) → contains xs k ≡ true → p k ≡ q k)
    → filter p xs ≡ filter q xs
unfolding contains filter
filter_ext_of_contains p q [] h = refl
filter_ext_of_contains p q (x ∷ xs) h =
    ground
      (arith, h x (rw (==_refl x)), filter_ext_of_contains p q xs (λ k m. h k (ground (arith, m))))

-- A list that passes a filter nowhere has nothing that passes.
pub any_iff :
    (p : Text → Bool) (xs : List Text)
    → any p xs ≡ true
    → (k : Text) × (contains xs k ≡ true) × (p k ≡ true)
unfolding contains any
any_iff p [] h = cc
any_iff p (x ∷ xs) h = elim (Bool-cases (p x)) [
  | inl e ↦ (x, rw (==_refl x), e)
  | inr e ↦ let (k, m, holds) = any_iff p xs (ground (arith, e, h)) in (k, ground (arith, m), holds)
]

pub any_of_contains :
    (p : Text → Bool) (xs : List Text) (k : Text)
    → contains xs k ≡ true
    → p k ≡ true
    → any p xs ≡ true
unfolding contains any
any_of_contains p [] k m h = cc
any_of_contains p (x ∷ xs) k m h = elim (Bool-cases (x == k)) [
  | inl same ↦ ground (arith, ap p (eq_of_== x k same), h)
  | inr other ↦ ground (arith, any_of_contains p xs k, other)
]

-- Equal as multisets, so equal as sets.
pub contains_permᴰ : {xs ys : List Text} (k : Text) → Permᴰ xs ys → contains xs k ≡ contains ys k
unfolding contains
contains_permᴰ k Permᴰ.nil = refl
contains_permᴰ k (Permᴰ.cons e p) = ground (arith, ap (λ z. z == k) e, contains_permᴰ k p)
contains_permᴰ k (Permᴰ.swap e f) = ground (arith, ap (λ z. z == k) e, ap (λ z. z == k) f)
contains_permᴰ k (Permᴰ.trans p q) = contains_permᴰ k p ∙ contains_permᴰ k q

pub contains_perm : {xs ys : List Text} (k : Text) → Perm xs ys → contains xs k ≡ contains ys k
contains_perm k p = ∥∥₁_elim p (Bool_set _ _) (contains_permᴰ k)

-- Go's `<` on strings: bytewise and lexicographic.
unfoldable pub text_ltb : Text → Text → Bool
text_ltb [] [] = false
text_ltb [] (y ∷ ys) = true
text_ltb (x ∷ xs) [] = false
text_ltb (x ∷ xs) (y ∷ ys) = ltb x y || (nat_beq x y && text_ltb xs ys)

pub text_ltb_irrefl : (s : Text) → text_ltb s s ≡ false
unfolding text_ltb
text_ltb_irrefl [] = refl
text_ltb_irrefl (x ∷ xs) = ground (arith, text_ltb_irrefl xs)

pub text_ltb_trans :
    (s t u : Text) → text_ltb s t ≡ true → text_ltb t u ≡ true → text_ltb s u ≡ true
unfolding text_ltb
text_ltb_trans [] [] u h k = cc
text_ltb_trans [] (y ∷ ys) [] h k = cc
text_ltb_trans [] (y ∷ ys) (z ∷ zs) h k = refl
text_ltb_trans (x ∷ xs) [] u h k = cc
text_ltb_trans (x ∷ xs) (y ∷ ys) [] h k = cc
text_ltb_trans (x ∷ xs) (y ∷ ys) (z ∷ zs) h k = ground (arith, text_ltb_trans xs ys zs)

pub text_ltb_total : (s t : Text) → text_ltb s t ≡ false → text_ltb t s ≡ false → s ≡ t
unfolding text_ltb
text_ltb_total [] [] h k = refl
text_ltb_total [] (y ∷ ys) h k = cc
text_ltb_total (x ∷ xs) [] h k = cc
text_ltb_total (x ∷ xs) (y ∷ ys) h k = ground (arith, text_ltb_total xs ys)
