-- ===== src/Feature/Graph/Loop.antt =====
-- The invariant of the main loop over the graph of features.
use devcontainer.Base.{
  ℕ, zero, suc, ◌+◌, ◌≤◌, ◌<◌, Bool, ◌&&◌, List, [], ◌∷◌, ◌++◌, some, Text, length, length-append,
  nat_beq, ltb, filter, sort_by, if◌then◌else◌, ◌≡◌, refl, ap, arith, append_assoc, append-nil,
  List-cases, inl, inr,
}
use devcontainer.Config.Types.{ResolvedFeature}
use devcontainer.Feature.Graph.{
  JsonOps, Adjacency, Kahn, relax, relax_all, take_ready, visit, run, start, less, indices, ref_at,
}
use devcontainer.Feature.Graph.Counts.{
  count, count-append, count-sort_by, count-filter, count-range_from, length-le_of_count,
  range_from,
}
use devcontainer.Feature.Graph.Paths.{put, build_deepest_path}
use devcontainer.Feature.Graph.Edges.{
  open_edges, open_edges-snoc, open_edges-zero, count-le-open_edges,
}
use devcontainer.Feature.Graph.Build.{IsCounted}

module _ (n : ℕ) (adj : ℕ → List ℕ) where
  -- In the loop over the children, of which `children` are left: the in-degree counts the open
  -- edges and those to the children left, and exactly the indices with none are out or ready.
  pub record IsRelaxing (children : List ℕ) (s : Kahn) : Type 0 where
    pub left : (j : ℕ) → s.in_degree j ≡ open_edges n adj s.out j + count j children
    pub once :
        (j : ℕ)
        → count j s.out + count j s.ready ≡ (if nat_beq (s.in_degree j) 0 && ltb j n then 1 else 0)

  pub relax-IsRelaxing :
      (i j : ℕ) (children : List ℕ) (s : Kahn)
      → j < n
      → IsRelaxing (j ∷ children) s
      → IsRelaxing children (relax i s j)
  unfolding relax put count
  relax-IsRelaxing i j children s h v = record {
    left = λ k. ground (arith, v.left k, v.left j, ap (λ m. s.in_degree m) {x = j} {y = k});
    once = λ k. ground (
      arith,
      v.once k,
      v.left k,
      v.once j,
      v.left j,
      count-append k s.ready (j ∷ []),
      ap (λ m. s.in_degree m) {x = j} {y = k},
    );
  }

  pub relax_all-IsRelaxing :
      (i : ℕ) (children : List ℕ) (s : Kahn)
      → ((j : ℕ) → 0 < count j children → j < n)
      → IsRelaxing children s
      → IsRelaxing [] (relax_all i s children)
  unfolding relax_all count
  relax_all-IsRelaxing i [] s h v = v
  relax_all-IsRelaxing i (j ∷ children) s h v =
      relax_all-IsRelaxing i children (relax i s j) (λ k m. ground (arith, h k))
        (relax-IsRelaxing i j children s (ground (arith, h j)) v)

  relax_all-out : (i : ℕ) (children : List ℕ) (s : Kahn) → (relax_all i s children).out ≡ s.out
  unfolding relax_all relax
  relax_all-out i [] s = refl
  relax_all-out i (j ∷ children) s = relax_all-out i children (relax i s j)

  -- The sources of the edges into each index stand before it.
  abbrev pub IsBefore : List ℕ → List ℕ → Type 0
  IsBefore seen [] = Unit {0}
  IsBefore seen (i ∷ is) =
      ((k : ℕ) → k < n → 0 < count i (adj k) → 0 < count k seen) × IsBefore (seen ++ i ∷ []) is

  IsBefore-snoc :
      (seen is : List ℕ) (i : ℕ)
      → IsBefore seen is
      → ((k : ℕ) → k < n → 0 < count i (adj k) → 0 < count k (seen ++ is))
      → IsBefore seen (is ++ i ∷ [])
  IsBefore-snoc seen [] i h own = (λ k below m. let at = own k below m in rw append-nil at at, tt)
  IsBefore-snoc seen (j ∷ is) i h own = (
    h.0,
    IsBefore-snoc (seen ++ j ∷ []) is i h.1
        (λ k below m. rw (append_assoc seen (j ∷ []) is) (own k below m)),
  )

  pub record Inv (s : Kahn) : Type 0 where
    pub relaxing : IsRelaxing [] s
    pub ordered : IsBefore [] s.out

  module _ (s : Kahn) (i : ℕ) (rest : List ℕ) (head : s.ready ≡ i ∷ rest) (inv : Inv s) where
    -- What is ready is new, and no open edge leads to it.
    pub ready-new : (i < n) × (count i s.out ≡ 0) × (open_edges n adj s.out i ≡ 0)
    unfolding count
    ready-new = ground (arith, inv.relaxing.once i, inv.relaxing.left i, ap (count i) head)

    pub take_ready-IsRelaxing :
        (ls : ℕ → ℕ → Bool) (path : List Text)
        → IsRelaxing (sort_by ls (adj i)) (take_ready path i rest s)
    unfolding take_ready count
    take_ready-IsRelaxing ls path =
        let (below, new, closed) = ready-new in
        record {
          left = λ j. omega (
            arith,
            inv.relaxing.left j,
            open_edges-snoc n adj s.out i j below new,
            count-sort_by ls j (adj i),
          );
          once = λ j.
              ground (arith, inv.relaxing.once j, ap (count j) head, count-append j s.out (i ∷ []));
        }

    take_ready-IsBefore : IsBefore [] (s.out ++ i ∷ [])
    take_ready-IsBefore =
        let (below, new, closed) = ready-new in
        IsBefore-snoc [] s.out i inv.ordered
          (λ k in_range m. open_edges-zero n adj s.out k i closed in_range m)

pub record IsSized (n : ℕ) (adj : ℕ → List ℕ) : Type 0 where
  pub ends : (i j : ℕ) → i < n → 0 < count j (adj i) → j < n

module _ (ops : JsonOps) (features : List ResolvedFeature) (adj : ℕ → List ℕ)
    (sized : IsSized (length features) adj) where
  pub visit-Inv :
      (s : Kahn) (i : ℕ) (rest : List ℕ)
      → s.ready ≡ i ∷ rest
      → Inv (length features) adj s
      → Inv (length features) adj (visit ops features adj s i rest)
  unfolding visit take_ready
  visit-Inv s i rest head inv =
      let n = length features in
      let path = build_deepest_path (indices ops features) (ref_at ops features) s.depth adj i in
      let children = sort_by (less ops features) (adj i) in
      let (below, new, closed) = ready-new n adj s i rest head inv in
      record {
        relaxing =
            relax_all-IsRelaxing n adj i children (take_ready path i rest s)
              (λ j m.
                sized.ends i j below (omega (arith, count-sort_by (less ops features) j (adj i))))
              (take_ready-IsRelaxing n adj s i rest head inv (less ops features) path);
        ordered =
            rw (relax_all-out n adj i children (take_ready path i rest s))
              (take_ready-IsBefore n adj s i rest head inv);
      }

  visit-out :
      (s : Kahn) (i : ℕ) (rest : List ℕ) → (visit ops features adj s i rest).out ≡ s.out ++ i ∷ []
  unfolding visit take_ready
  visit-out s i rest = relax_all-out (length features) adj i (sort_by (less ops features) (adj i)) (
      take_ready (build_deepest_path (indices ops features) (ref_at ops features) s.depth adj i) i
        rest s)

  -- What is out or ready fits in the number of features.
  no_room :
      (s : Kahn) (i : ℕ) (rest : List ℕ)
      → s.ready ≡ i ∷ rest
      → Inv (length features) adj s
      → ¬ (length features ≤ length s.out)
  no_room s i rest head inv full =
      let n = length features in
      let fits : length (s.out ++ s.ready) ≤ n =
        length-le_of_count n (s.out ++ s.ready)
          (λ j. ground (arith, count-append j s.out s.ready, inv.relaxing.once j)) in
      omega (arith, fits, length-append s.out s.ready, ap length head)

  -- The rule of the main loop: it ends within one round for each feature, with nothing ready, and
  -- what its rounds keep holds at the end.
  pub run_rule {ℓ} :
      (P : Kahn → Type ℓ)
      → ((s : Kahn) (i : ℕ) (rest : List ℕ)
          → s.ready ≡ i ∷ rest
          → Inv (length features) adj s
          → P s
          → P (visit ops features adj s i rest))
      → (fuel : ℕ) (s : Kahn) → length features ≤ fuel + length s.out
      → Inv (length features) adj s
      → P s
      → (t : Kahn) × (run ops features fuel adj s ≡ some t)
        × Inv (length features) adj t
        × P t
        × (t.ready ≡ [])
  unfolding run
  run_rule P keep zero s enough inv p = elim (List-cases s.ready) [
    | inl done ↦ (s, simp (done, run), inv, p, done)
    | inr (i, rest, head) ↦ absurd (no_room s i rest head inv (omega arith))
  ]
  run_rule P keep (suc fuel) s enough inv p = elim (List-cases s.ready) [
    | inl done ↦ (s, simp (done, run), inv, p, done)
    | inr (i, rest, head) ↦
        let (t, ends, at_end, kept, done) =
          run_rule P keep fuel (visit ops features adj s i rest)
            (omega (arith, ap length (visit-out s i rest), length-append s.out (i ∷ [])))
            (visit-Inv s i rest head inv) (keep s i rest head inv p) in
        (t, simp (head, run, ends), at_end, kept, done)
  ]

  pub start-Inv :
      (g : Adjacency)
      → g.adj ≡ adj
      → IsCounted (length features) g
      → Inv (length features) adj (start ops features g)
  unfolding start count
  start-Inv g e c =
      let n = length features in
      let zero_in = λ (i : ℕ). nat_beq (g.in_degree i) 0 in
      record {
        relaxing = record {
          left = λ j. omega (arith, c.total j, ap (λ a. open_edges n a [] j) e);
          once = λ j. ground (
            arith,
            count-sort_by (less ops features) j (filter zero_in (range_from 0 n)),
            count-filter zero_in j (range_from 0 n),
            count-range_from j 0 n,
          );
        };
        ordered = tt;
      }

-- The edges of the graph of features stay among its indices.
pub graph-IsSized : (n : ℕ) (g : Adjacency) → IsCounted n g → IsSized n g.adj
graph-IsSized n g c = record {
  ends = λ i j below m. ground (arith, count-le-open_edges n g.adj i j below, c.total j, c.range j);
}
