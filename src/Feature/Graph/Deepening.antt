-- ===== src/Feature/Graph/Deepening.antt =====
-- How the main loop over the graph of features finds the longest chain.
use devcontainer.Base.{
  ℕ, ◌+◌, ◌≤◌, ◌<◌, Bool, false, List, [], ◌∷◌, Text, length, nat_beq, ltb, ◌&&◌, sort_by,
  if◌then◌else◌, ◌≡◌, refl, ap, subst, arith, Bool-cases, inl, inr,
}
use devcontainer.Config.Types.{ResolvedFeature}
use devcontainer.Feature.Graph.{
  JsonOps, Kahn, relax, relax_all, take_ready, visit, less, indices, ref_at,
}
use devcontainer.Feature.Graph.Counts.{count, count-append, count-sort_by}
use devcontainer.Feature.Graph.Paths.{put, build_deepest_path}
use devcontainer.Feature.Graph.Loop.{
  IsRelaxing, relax-IsRelaxing, take_ready-IsRelaxing, Inv, ready-new, IsSized,
}

-- A chain of `k` edges to `j`, whose sources lie below `n`.
pub data Chain (n : ℕ) (adj : ℕ → List ℕ) : ℕ → ℕ → Type 0 where
  alone : (j : ℕ) → Chain n adj 0 j
  further :
      {k i m : ℕ} (j : ℕ)
      → Chain n adj k i
      → i < n
      → 0 < count j (adj i)
      → m ≡ k + 1
      → Chain n adj m j

module _ (n : ℕ) (adj : ℕ → List ℕ) where
  -- In the loop over the children of `i`: edges from other indices that are out lead deeper, and
  -- those from `i` to children that are not left.
  record IsDeepening (i : ℕ) (children : List ℕ) (s : Kahn) : Type 0 where
    deeper :
        (k j : ℕ)
        → 0 < count k s.out
        → 0 < count j (adj k)
        → nat_beq k i ≡ false
        → s.depth k < s.depth j
    own : (j : ℕ) → 0 < count j (adj i) → count j children ≡ 0 → s.depth i < s.depth j
    bounded : (k : ℕ) → 0 < count k s.out → s.depth k ≤ s.max_depth
    chains : (j : ℕ) → Chain n adj (s.depth j) j

  module _ (i j : ℕ) (children : List ℕ) (s : Kahn) (source : i < n) (out : 0 < count i s.out)
      (child : 0 < count j (adj i)) (v : IsRelaxing n adj (j ∷ children) s)
      (d : IsDeepening i (j ∷ children) s) where
    child-new : count j s.out ≡ 0
    unfolding count
    child-new = ground (arith, v.once j, v.left j)

    relax-depth :
        (k : ℕ)
        → (relax i s j).depth k
          ≡ (if nat_beq j k && ltb (s.depth j) (s.depth i + 1) then s.depth i + 1 else s.depth k)
    unfolding relax put
    relax-depth k = ground arith

    relax-chains : (k : ℕ) → Chain n adj ((relax i s j).depth k) k
    relax-chains k = elim (Bool-cases (nat_beq j k && ltb (s.depth j) (s.depth i + 1))) [
      | inr old ↦ rw (relax-depth k, old) (d.chains k)
      | inl new ↦
          let same : j ≡ k = ground (arith, new) in
          rw (relax-depth k, new, ← same) (further j (d.chains i) source child refl)
    ]

    relax-IsDeepening : IsDeepening i children (relax i s j)
    unfolding relax count
    relax-IsDeepening = record {
      deeper = λ k m o e other. ground (
        arith,
        d.deeper k m o e other,
        relax-depth k,
        relax-depth m,
        child-new,
        ap (λ a. count a s.out) {x = j} {y = k},
        ap (λ a. s.depth a) {x = j} {y = m},
      );
      own = λ m e none_left. ground (
        arith,
        d.own m e,
        relax-depth i,
        relax-depth m,
        child-new,
        ap (λ a. count a s.out) {x = j} {y = i},
        ap (λ a. s.depth a) {x = j} {y = m},
      );
      bounded = λ k o.
          ground (
            arith,
            d.bounded k o,
            relax-depth k,
            child-new,
            ap (λ a. count a s.out) {x = j} {y = k},
          );
      chains = relax-chains;
    }

  relax_all-IsDeepening :
      (i : ℕ) (children : List ℕ) (s : Kahn)
      → i < n
      → 0 < count i s.out
      → ((j : ℕ) → 0 < count j children → (0 < count j (adj i)) × (j < n))
      → IsRelaxing n adj children s
      → IsDeepening i children s
      → IsDeepening i [] (relax_all i s children)
  unfolding relax_all relax count
  relax_all-IsDeepening i [] s source out h v d = d
  relax_all-IsDeepening i (j ∷ children) s source out h v d =
      let (child, below) = h j (ground arith) in
      relax_all-IsDeepening i children (relax i s j) source out (λ k m. h k (ground (arith, m)))
        (relax-IsRelaxing n adj i j children s below v)
        (relax-IsDeepening i j children s source out child v d)

  -- Between two rounds.
  pub record IsDeep (s : Kahn) : Type 0 where
    pub deeper : (k j : ℕ) → 0 < count k s.out → 0 < count j (adj k) → s.depth k < s.depth j
    pub bounded : (k : ℕ) → 0 < count k s.out → s.depth k ≤ s.max_depth
    pub chains : (j : ℕ) → Chain n adj (s.depth j) j
    pub longest : (j : ℕ) × Chain n adj s.max_depth j

  relax_all-max_depth :
      (i : ℕ) (children : List ℕ) (s : Kahn) → (relax_all i s children).max_depth ≡ s.max_depth
  unfolding relax_all relax
  relax_all-max_depth i [] s = refl
  relax_all-max_depth i (j ∷ children) s = relax_all-max_depth i children (relax i s j)

  module _ (s : Kahn) (i : ℕ) (rest : List ℕ) (head : s.ready ≡ i ∷ rest) (inv : Inv n adj s)
      (d : IsDeep s) (path : List Text) (ls : ℕ → ℕ → Bool) where
    take_ready-IsDeepening : IsDeepening i (sort_by ls (adj i)) (take_ready path i rest s)
    unfolding take_ready count
    take_ready-IsDeepening = record {
      deeper =
          λ k j o e other. ground (arith, d.deeper k j, o, count-append k s.out (i ∷ []), other);
      own = λ j e none_left. ground (arith, none_left, count-sort_by ls j (adj i));
      bounded = λ k o. ground (
        arith,
        o,
        d.bounded k,
        count-append k s.out (i ∷ []),
        ap (λ a. s.depth a) {x = i} {y = k},
      );
      chains = d.chains;
    }

    take_ready-longest : (j : ℕ) × Chain n adj (take_ready path i rest s).max_depth j
    unfolding take_ready
    take_ready-longest = elim (Bool-cases (ltb s.max_depth (s.depth i))) [
      | inl new ↦ rw new (i, d.chains i)
      | inr old ↦ rw old d.longest
    ]

taken_out :
    (path : List Text) (i : ℕ) (rest : List ℕ) (s : Kahn)
    → 0 < count i (take_ready path i rest s).out
unfolding take_ready count
taken_out path i rest s = ground (arith, count-append i s.out (i ∷ []))

module _ (ops : JsonOps) (features : List ResolvedFeature) (adj : ℕ → List ℕ)
    (sized : IsSized (length features) adj) where
  pub visit-IsDeep :
      (s : Kahn) (i : ℕ) (rest : List ℕ)
      → s.ready ≡ i ∷ rest
      → Inv (length features) adj s
      → IsDeep (length features) adj s
      → IsDeep (length features) adj (visit ops features adj s i rest)
  unfolding visit count
  visit-IsDeep s i rest head inv d =
      let n = length features in
      let path = build_deepest_path (indices ops features) (ref_at ops features) s.depth adj i in
      let ls = less ops features in
      let children = sort_by ls (adj i) in
      let taken = take_ready path i rest s in
      let (below, new, closed) = ready-new n adj s i rest head inv in
      let after : IsDeepening n adj i [] (relax_all i taken children) =
        relax_all-IsDeepening n adj i children taken below (taken_out path i rest s)
          (λ j m.
            let child : 0 < count j (adj i) = omega (arith, count-sort_by ls j (adj i)) in
            (child, sized.ends i j below child))
          (take_ready-IsRelaxing n adj s i rest head inv ls path)
          (take_ready-IsDeepening n adj s i rest head inv d path ls) in
      record {
        deeper = λ k j o e. elim (Bool-cases (nat_beq k i)) [
          | inl same ↦
              let at : k ≡ i = ground (arith, same) in
              let child : 0 < count j (adj i) = subst (λ a. 0 < count j (adj a)) at e in
              rw at (after.own j child refl)
          | inr other ↦ after.deeper k j o e other
        ];
        bounded = after.bounded;
        chains = after.chains;
        longest =
            rw (relax_all-max_depth n adj i children taken)
              (take_ready-longest n adj s i rest head inv d path ls);
      }
