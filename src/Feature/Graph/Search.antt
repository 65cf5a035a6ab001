-- ===== src/Feature/Graph/Search.antt =====
-- The depth-first search of `cyclePath` ends, and its parents lead back along a found cycle.
use devcontainer.Base.{
  ℕ, zero, suc, ◌+◌, ◌≤◌, ◌<◌, Bool, true, false, List, [], ◌∷◌, ◌++◌, Option, some, Text, length,
  ltb, nat_beq, if◌then◌else◌, ◌≡◌, refl, ap, arith, nat_beq_iff, append_assoc, Bool-cases, inl,
  inr, ◌⊎◌,
}
use devcontainer.Feature.Graph.Counts.{count, length-le_of_count}
use devcontainer.Feature.Graph.Loop.{IsSized}
use devcontainer.Feature.Graph.Paths.{
  put, Color, white, gray, black, Search, Found, cycle, no_cycle, out_of_fuel, dfs_children,
  after_child, dfs, is_white, find_cycle, follow_parents,
}

Color-cases : (c : Color) → (c ≡ white) ⊎ (c ≡ gray) ⊎ (c ≡ black)
Color-cases white = inl refl
Color-cases gray = inr (inl refl)
Color-cases black = inr (inr refl)

abbrev pub is_gray : Color → Bool
is_gray gray = true
is_gray _ = false

-- Each index of the path is the parent of the one before it.
abbrev pub IsLinked : (ℕ → Option ℕ) → List ℕ → Type 0
IsLinked parent [] = Unit {0}
IsLinked parent (u ∷ []) = Unit {0}
IsLinked parent (u ∷ p ∷ path) = (parent u ≡ some p) × IsLinked parent (p ∷ path)

IsLinked-put :
    (parent : ℕ → Option ℕ) (v : ℕ) (p : Option ℕ) (path : List ℕ)
    → count v path ≡ 0
    → IsLinked parent path
    → IsLinked (put v p parent) path
unfolding count put
IsLinked-put parent v p [] h l = tt
IsLinked-put parent v p (u ∷ []) h l = tt
IsLinked-put parent v p (u ∷ w ∷ path) h l =
    (ground (arith, h, l.0), IsLinked-put parent v p (w ∷ path) (ground (arith, h)) l.1)

tail-IsLinked :
    (u : ℕ) (path : List ℕ) (parent : ℕ → Option ℕ)
    → IsLinked parent (u ∷ path)
    → IsLinked parent path
tail-IsLinked u [] parent l = tt
tail-IsLinked u (p ∷ path) parent l = l.1

-- The white indices below `n`.
pub whites : ℕ → (ℕ → Color) → ℕ
whites zero color = 0
whites (suc n) color = whites n color + (if is_white (color n) then 1 else 0)

whites-above :
    (n : ℕ) (color : ℕ → Color) (u : ℕ) (c : Color)
    → n ≤ u
    → whites n (put u c color) ≡ whites n color
unfolding whites put
whites-above zero color u c h = refl
whites-above (suc n) color u c h = ground (arith, whites-above n color u c (omega arith))

whites-gray :
    (n : ℕ) (color : ℕ → Color) (u : ℕ)
    → u < n
    → is_white (color u) ≡ true
    → whites n (put u gray color) + 1 ≡ whites n color
unfolding whites put
whites-gray zero color u h w = absurd (omega arith)
whites-gray (suc n) color u h w = elim (Bool-cases (nat_beq u n)) [
  | inl same ↦
      let e : u ≡ n = ground (arith, same) in
      ground (arith, whites-above n color u gray (omega arith), ap (λ k. is_white (color k)) e, w)
  | inr other ↦ ground (arith, whites-gray n color u (ground (arith, other)) w, other)
]

whites-black : (n : ℕ) (color : ℕ → Color) (u : ℕ) → whites n (put u black color) ≤ whites n color
unfolding whites put
whites-black zero color u = omega arith
whites-black (suc n) color u = ground (arith, whites-black n color u)

pub whites-le : (n : ℕ) (color : ℕ → Color) → whites n color ≤ n
unfolding whites
whites-le zero color = omega arith
whites-le (suc n) color = ground (arith, whites-le n color)

module _ (n : ℕ) where
  -- The gray indices are those of `path`, once each, from the deepest call on.
  pub record IsPath (path : List ℕ) (s : Search) : Type 0 where
    pub once : (v : ℕ) → count v path ≡ (if is_gray (s.color v) then 1 else 0)
    pub range : (v : ℕ) → 0 < count v path → v < n
    pub linked : IsLinked s.parent path

  -- The parents lead from the end of the cycle back to its start, within `n` steps.
  pub record IsTraced (s : Search) (start end : ℕ) : Type 0 where
    pub path : List ℕ
    pub linked : IsLinked s.parent (end ∷ path)
    pub holds_start : 0 < count start (end ∷ path)
    pub fits : length (end ∷ path) ≤ n

  abbrev pub Ends : List ℕ → ℕ → Found → Type 0
  Ends path w (cycle t start end) = IsTraced t start end
  Ends path w (no_cycle t) = IsPath path t × (whites n t.color ≤ w)
  Ends path w out_of_fuel = ⊥

  Ends-le : (path : List ℕ) (v w : ℕ) (r : Found) → v ≤ w → Ends path v r → Ends path w r
  Ends-le path v w (cycle t start end) h e = e
  Ends-le path v w (no_cycle t) h e = (e.0, omega (arith, e.1))
  Ends-le path v w out_of_fuel h e = e

  module _ (adj : ℕ → List ℕ) (sized : IsSized n adj) where
    -- What a call of `dfs` is given: a white index whose parent is the deepest gray one.
    record IsCall (path : List ℕ) (u : ℕ) (s : Search) : Type 0 where
      on_path : IsPath path s
      below : u < n
      is_new : is_white (s.color u) ≡ true
      from : IsLinked s.parent (u ∷ path)

    enter-IsPath :
        (path : List ℕ) (u : ℕ) (s : Search)
        → IsCall path u s
        → IsPath (u ∷ path) (record s { color = put u gray s.color })
    unfolding put count
    enter-IsPath path u s c = record {
      once = λ v. ground (
        arith,
        c.on_path.once v,
        c.on_path.once u,
        c.is_new,
        ap (λ k. s.color k) {x = u} {y = v},
      );
      range = λ v m. ground (arith, c.on_path.range v, c.below, m);
      linked = c.from;
    }

    leave-IsPath :
        (path : List ℕ) (u : ℕ) (s : Search)
        → IsPath (u ∷ path) s
        → IsPath path (record s { color = put u black s.color })
    unfolding put count
    leave-IsPath path u s p = record {
      once = λ v. ground (
        arith,
        p.once v,
        p.once u,
        ap (λ k. s.color k) {x = u} {y = v},
        ap (λ k. count k path) {x = u} {y = v},
      );
      range = λ v m. ground (arith, p.range v);
      linked = tail-IsLinked u path s.parent p.linked;
    }

    IsPath-IsCall :
        (path : List ℕ) (u v : ℕ) (s : Search)
        → IsPath (u ∷ path) s
        → v < n
        → s.color v ≡ white
        → IsCall (u ∷ path) v (record s { parent = put v (some u) s.parent })
    unfolding put count
    IsPath-IsCall path u v s p below w =
        let new : count v (u ∷ path) ≡ 0 = ground (arith, p.once v, w) in
        let linked = IsLinked-put s.parent v (some u) (u ∷ path) new p.linked in
        record {
          on_path = record { once = p.once; range = p.range; linked = linked };
          below = below;
          is_new = ground (arith, w);
          from = (ground arith, linked);
        }

    found-IsTraced :
        (path : List ℕ) (u v : ℕ) (s : Search)
        → IsPath (u ∷ path) s
        → s.color v ≡ gray
        → IsTraced s v u
    unfolding count
    found-IsTraced path u v s p g = record {
      path = path;
      linked = p.linked;
      holds_start = ground (arith, p.once v, g);
      fits =
          length-le_of_count n (u ∷ path)
            (λ k. ground (arith, p.once k, p.range k, Bool-cases (is_gray (s.color k))));
    }

    child-Ends :
        (call : ℕ → Search → Found) (path : List ℕ) (u w v : ℕ) (vs : List ℕ) (r : Found)
        → Ends (u ∷ path) w r
        → ((t : Search)
            → IsPath (u ∷ path) t
            → whites n t.color ≤ w
            → Ends path w (dfs_children call u vs t))
        → Ends path w (after_child r (dfs_children call u vs))
    child-Ends call path u w v vs (cycle t start end) e rest = e
    child-Ends call path u w v vs (no_cycle t) e rest = rest t e.0 e.1
    child-Ends call path u w v vs out_of_fuel e rest = e

    dfs_children-Ends :
        (call : ℕ → Search → Found) (path : List ℕ) (u w : ℕ)
        → ((v : ℕ) (s : Search)
            → IsCall (u ∷ path) v s
            → whites n s.color ≤ w
            → Ends (u ∷ path) w (call v s))
        → (vs : List ℕ) (s : Search) → ((v : ℕ) → 0 < count v vs → v < n)
        → IsPath (u ∷ path) s
        → whites n s.color ≤ w
        → Ends path w (dfs_children call u vs s)
    unfolding dfs_children count
    dfs_children-Ends call path u w ih [] s h p low =
        (leave-IsPath path u s p, omega (arith, low, whites-black n s.color u))
    dfs_children-Ends call path u w ih (v ∷ vs) s h p low = elim (Color-cases (s.color v)) [
      | inr (inl is) ↦ rw (is, dfs_children) (found-IsTraced path u v s p is)
      | inr (inr is) ↦
          rw (is, dfs_children)
            (dfs_children-Ends call path u w ih vs s (λ k m. h k (omega arith)) p low)
      | inl is ↦
          rw (is, dfs_children)
            (child-Ends call path u w v vs (call v (record s { parent = put v (some u) s.parent }))
              (ih v (record s { parent = put v (some u) s.parent })
                (IsPath-IsCall path u v s p (h v (ground arith)) is) low)
              (λ t q k. dfs_children-Ends call path u w ih vs t (λ j m. h j (omega arith)) q k))
    ]

    -- With as many levels as there are white indices, a call ends.
    dfs-Ends :
        (fuel : ℕ) (path : List ℕ) (u : ℕ) (s : Search)
        → IsCall path u s
        → whites n s.color ≤ fuel
        → Ends path (whites n s.color) (dfs fuel adj u s)
    unfolding dfs
    dfs-Ends zero path u s c low = absurd (omega (arith, whites-gray n s.color u c.below c.is_new))
    dfs-Ends (suc fuel) path u s c low =
        let fewer = whites-gray n s.color u c.below c.is_new in
        Ends-le path (whites n (put u gray s.color)) (whites n s.color) (dfs (suc fuel) adj u s)
          (omega (arith, fewer))
          (dfs_children-Ends (dfs fuel adj) path u (whites n (put u gray s.color))
            (λ v t call lower.
              Ends-le (u ∷ path) (whites n t.color) (whites n (put u gray s.color))
                (dfs fuel adj v t) lower
                (dfs-Ends fuel (u ∷ path) v t call (omega (arith, fewer, lower))))
            (adj u) (record s { color = put u gray s.color })
            (λ v edge. sized.ends u v c.below edge) (enter-IsPath path u s c) (omega arith))

    root-Ends :
        (fuel : ℕ) (in_degree : ℕ → ℕ) (is : List ℕ) (r : Found)
        → Ends [] fuel r
        → ((t : Search)
            → IsPath [] t
            → whites n t.color ≤ fuel
            → Ends [] fuel (find_cycle fuel in_degree adj is t))
        → Ends [] fuel (after_child r (find_cycle fuel in_degree adj is))
    root-Ends fuel in_degree is (cycle t start end) e rest = e
    root-Ends fuel in_degree is (no_cycle t) e rest = rest t e.0 e.1
    root-Ends fuel in_degree is out_of_fuel e rest = e

    pub find_cycle-Ends :
        (fuel : ℕ) (in_degree : ℕ → ℕ) (is : List ℕ) (s : Search)
        → ((i : ℕ) → 0 < count i is → i < n)
        → IsPath [] s
        → whites n s.color ≤ fuel
        → Ends [] fuel (find_cycle fuel in_degree adj is s)
    unfolding find_cycle count
    find_cycle-Ends fuel in_degree [] s h p low = (p, low)
    find_cycle-Ends fuel in_degree (i ∷ is) s h p low =
        let rest = λ (t : Search) (q : IsPath [] t) (k : whites n t.color ≤ fuel).
          find_cycle-Ends fuel in_degree is t (λ j m. h j (omega arith)) q k in
        elim (Bool-cases (ltb 0 (in_degree i))) [
          | inr done ↦ rw (done, find_cycle) (rest s p low)
          | inl waits ↦ elim (Bool-cases (is_white (s.color i))) [
            | inr seen ↦ rw (waits, seen, find_cycle) (rest s p low)
            | inl new ↦
                rw (waits, new, find_cycle)
                  (root-Ends fuel in_degree is (dfs fuel adj i s)
                    (Ends-le [] (whites n s.color) fuel (dfs fuel adj i s) low (
                      dfs-Ends fuel [] i s
                        (record {
                          on_path = p;
                          below = h i (ground arith);
                          is_new = new;
                          from = tt;
                        })
                        low))
                    rest)
          ]
        ]

-- Following the parents reaches the start.
pub follow_parents_lem :
    (fuel : ℕ) (ref : ℕ → Text) (s : Search) (start v : ℕ) (path : List ℕ) (texts : List Text)
    → IsLinked s.parent (v ∷ path)
    → 0 < count start (v ∷ path)
    → length (v ∷ path) ≤ fuel
    → (front : List Text) × (follow_parents fuel ref s start v texts ≡ some (front ++ texts))
unfolding follow_parents count
follow_parents_lem zero ref s start v path texts l m fits = absurd (omega arith)
follow_parents_lem (suc fuel) ref s start v [] texts l m fits =
    ([], rw ((nat_beq_iff v start).1 (ground (arith, m)), follow_parents))
follow_parents_lem (suc fuel) ref s start v (p ∷ path) texts l m fits =
    elim (Bool-cases (nat_beq v start)) [
      | inl same ↦ ([], rw (same, follow_parents))
      | inr other ↦
          let (front, e) =
            follow_parents_lem fuel ref s start p path (ref v ∷ texts) l.1
              (ground (arith, m, other)) (omega (arith, fits)) in
          (front ++ ref v ∷ [], rw (other, follow_parents, l.0, append_assoc) e)
    ]
