-- ===== src/Feature/Graph/Edges.antt =====
-- The edges of the graph of features, counted.
use devcontainer.Base.{
  ℕ, zero, suc, ◌+◌, ◌≤◌, ◌<◌, ◌&&◌, List, [], ◌∷◌, ◌++◌, nat_beq, ltb, if◌then◌else◌, ◌≡◌, refl,
  ap, arith, Bool-cases, inl, inr,
}
use devcontainer.Feature.Graph.Counts.{count, count-append}
use devcontainer.Feature.Graph.Paths.{put}

-- The edges into `j` from the indices below `n` that are not yet in `out`.
unfoldable pub open_edges : ℕ → (ℕ → List ℕ) → List ℕ → ℕ → ℕ
open_edges zero adj out j = 0
open_edges (suc n) adj out j =
    open_edges n adj out j + (if nat_beq (count n out) 0 then count j (adj n) else 0)

open_edges-above :
    (n : ℕ) (adj : ℕ → List ℕ) (out : List ℕ) (i j : ℕ)
    → n ≤ i
    → open_edges n adj (out ++ i ∷ []) j ≡ open_edges n adj out j
unfolding open_edges count
open_edges-above zero adj out i j h = refl
open_edges-above (suc n) adj out i j h =
    ground (arith, open_edges-above n adj out i j (omega arith), count-append n out (i ∷ []))

-- Taking `i` closes its edges.
pub open_edges-snoc :
    (n : ℕ) (adj : ℕ → List ℕ) (out : List ℕ) (i j : ℕ)
    → i < n
    → count i out ≡ 0
    → open_edges n adj out j ≡ open_edges n adj (out ++ i ∷ []) j + count j (adj i)
unfolding open_edges count
open_edges-snoc zero adj out i j h new = absurd (omega arith)
open_edges-snoc (suc n) adj out i j h new = elim (Bool-cases (nat_beq i n)) [
  | inl same ↦
      let e : i ≡ n = ground (arith, same) in
      ground (
        arith,
        open_edges-above n adj out i j (omega arith),
        count-append n out (i ∷ []),
        ap (λ k. count j (adj k)) e,
        ap (λ k. count k out) e,
      )
  | inr other ↦ ground (
    arith,
    open_edges-snoc n adj out i j (ground (arith, other)) new,
    count-append n out (i ∷ []),
    other,
  )
]

-- Where no edge is open, the sources of all edges are out.
pub open_edges-zero :
    (n : ℕ) (adj : ℕ → List ℕ) (out : List ℕ) (i j : ℕ)
    → open_edges n adj out j ≡ 0
    → i < n
    → 0 < count j (adj i)
    → 0 < count i out
unfolding open_edges
open_edges-zero zero adj out i j closed h k = absurd (omega arith)
open_edges-zero (suc n) adj out i j closed h k = elim (Bool-cases (nat_beq i n)) [
  | inl same ↦
      let e : i ≡ n = ground (arith, same) in
      ground (arith, ap (λ m. count j (adj m)) e, ap (λ m. count m out) e)
  | inr other ↦ open_edges-zero n adj out i j (ground arith) (ground (arith, other)) k
]

pub count-le-open_edges :
    (n : ℕ) (adj : ℕ → List ℕ) (i j : ℕ) → i < n → count j (adj i) ≤ open_edges n adj [] j
unfolding open_edges count
count-le-open_edges zero adj i j h = absurd (omega arith)
count-le-open_edges (suc n) adj i j h = elim (Bool-cases (nat_beq i n)) [
  | inl same ↦ let e : i ≡ n = ground (arith, same) in ground (arith, ap (λ m. count j (adj m)) e)
  | inr other ↦ omega (arith, count-le-open_edges n adj i j (ground (arith, other)))
]

pub open_edges-put :
    (n : ℕ) (adj : ℕ → List ℕ) (from to j : ℕ)
    → open_edges n (put from (adj from ++ to ∷ []) adj) [] j
      ≡ open_edges n adj [] j + (if ltb from n && nat_beq to j then 1 else 0)
unfolding open_edges count put
open_edges-put zero adj from to j = ground arith
open_edges-put (suc n) adj from to j = elim (Bool-cases (nat_beq from n)) [
  | inl same ↦
      let e : from ≡ n = ground (arith, same) in
      rw e (ground (arith, open_edges-put n adj n to j, count-append j (adj n) (to ∷ [])))
  | inr other ↦ ground (arith, open_edges-put n adj from to j, other)
]

pub open_edges_none : (n j : ℕ) → 0 ≡ open_edges n (λ _. []) [] j
unfolding open_edges count
open_edges_none zero j = refl
open_edges_none (suc n) j = ground (arith, open_edges_none n j)

-- Where an edge is open, so is its source.
pub open_edges-pos :
    (n : ℕ) (adj : ℕ → List ℕ) (out : List ℕ) (j : ℕ)
    → 0 < open_edges n adj out j
    → (i : ℕ) × (i < n) × (count i out ≡ 0) × (0 < count j (adj i))
unfolding open_edges
open_edges-pos zero adj out j h = absurd (omega arith)
open_edges-pos (suc n) adj out j h = elim (Bool-cases (nat_beq (open_edges n adj out j) 0)) [
  | inl none_below ↦ (n, omega arith, ground (arith, none_below), ground (arith, none_below))
  | inr some_below ↦
      let (i, below, waits, m) = open_edges-pos n adj out j (ground (arith, some_below)) in
      (i, omega arith, waits, m)
]
