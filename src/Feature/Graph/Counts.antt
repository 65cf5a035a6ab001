-- ===== src/Feature/Graph/Counts.antt =====
-- How often an index stands in a list, and a slice that is written at one index.
use devcontainer.Base.{
  ℕ, zero, suc, ◌+◌, ◌≤◌, ◌<◌, Bool, List, [], ◌∷◌, ◌++◌, length, filter, nat_beq, ltb,
  if◌then◌else◌, if_ind, sort_by, sort_from, insert_by, ◌≡◌, refl, arith, Bool-cases, inl, inr,
  nat_beq_iff,
}

unfoldable pub count : ℕ → List ℕ → ℕ
count j [] = 0
count j (x ∷ xs) = (if nat_beq x j then 1 else 0) + count j xs

pub count-append : (j : ℕ) (xs ys : List ℕ) → count j (xs ++ ys) ≡ count j xs + count j ys
unfolding count
count-append j [] ys = omega arith
count-append j (x ∷ xs) ys = omega (arith, count-append j xs ys)

module _ (less : ℕ → ℕ → Bool) where
  count-insert_by : (j x : ℕ) (ys : List ℕ) → count j (insert_by less x ys) ≡ count j (x ∷ ys)
  unfolding count insert_by
  count-insert_by j x [] = refl
  count-insert_by j x (y ∷ ys) = ground (arith, count-insert_by j x ys)

  count-sort_from :
      (j : ℕ) (done xs : List ℕ) → count j (sort_from less done xs) ≡ count j done + count j xs
  unfolding count sort_from
  count-sort_from j done [] = omega arith
  count-sort_from j done (x ∷ xs) =
      omega (arith, count-sort_from j (insert_by less x done) xs, count-insert_by j x done)

  pub count-sort_by : (j : ℕ) (xs : List ℕ) → count j (sort_by less xs) ≡ count j xs
  unfolding sort_by count
  count-sort_by j xs = omega (arith, count-sort_from j [] xs)

-- The indices below `n`, in order.
unfoldable pub range_from : ℕ → ℕ → List ℕ
range_from i zero = []
range_from i (suc n) = i ∷ range_from (suc i) n

pub count-filter :
    (p : ℕ → Bool) (j : ℕ) (xs : List ℕ) → count j (filter p xs) ≡ (if p j then count j xs else 0)
unfolding count filter
count-filter p j [] = if_ind (λ r. 0 ≡ r) (p j) (λ _. refl) (λ _. refl)
count-filter p j (x ∷ xs) = elim (Bool-cases (nat_beq x j)) [
  | inl same ↦ rw ((nat_beq_iff x j).0 same) (ground (arith, count-filter p j xs))
  | inr other ↦ ground (arith, count-filter p j xs, other)
]

pub count-range_from :
    (j i n : ℕ) → count j (range_from i n) ≡ (if ltb j i then 0 else if ltb j (i + n) then 1 else 0)
unfolding count range_from
count-range_from j i zero = ground arith
count-range_from j i (suc n) = ground (arith, count-range_from j (suc i) n)

-- What a list without `n` keeps of it, for a list whose indices lie below `suc n`.
unfoldable pub without : ℕ → List ℕ → List ℕ
without n [] = []
without n (x ∷ xs) = let rest = without n xs in if nat_beq x n then rest else x ∷ rest

count-without :
    (n j : ℕ) (xs : List ℕ) → count j (without n xs) ≡ (if nat_beq j n then 0 else count j xs)
unfolding count without
count-without n j [] = ground arith
count-without n j (x ∷ xs) = ground (arith, count-without n j xs)

length-without : (n : ℕ) (xs : List ℕ) → length (without n xs) + count n xs ≡ length xs
unfolding count without
length-without n [] = refl
length-without n (x ∷ xs) = ground (arith, length-without n xs)

-- A list that holds each index below `n` at most once, and no other, has at most `n` items.
pub length-le_of_count :
    (n : ℕ) (xs : List ℕ) → ((j : ℕ) → count j xs ≤ (if ltb j n then 1 else 0)) → length xs ≤ n
unfolding count
length-le_of_count zero [] h = omega arith
length-le_of_count zero (x ∷ xs) h = ground (arith, h x)
length-le_of_count (suc n) xs h =
    let one : count n xs ≤ 1 = ground (arith, h n) in
    let shorter =
      length-le_of_count n (without n xs) (λ j. ground (arith, count-without n j xs, h j)) in
    omega (arith, shorter, length-without n xs, one)

-- A list that holds each index below `n` has at least `n` items.
pub le-length_of_count : (n : ℕ) (xs : List ℕ) → ((j : ℕ) → j < n → 0 < count j xs) → n ≤ length xs
unfolding count
le-length_of_count zero xs h = omega arith
le-length_of_count (suc n) xs h =
    let fewer =
      le-length_of_count n (without n xs)
        (λ j below. ground (arith, h j (omega arith), count-without n j xs)) in
    omega (arith, fewer, length-without n xs, h n (omega arith))
