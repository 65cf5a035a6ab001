-- ===== src/Config/Merge/Hooks.antt =====
-- Hooks and lists of the merged configuration, and what a second merge does to the hooks.
use devcontainer.Base.{
  false, not, ◌||◌, List, [], ◌∷◌, ◌++◌, Text, ◌==◌, eq_iff, eq_of_==, ◌≡◌, ◌≢◌, refl, arith, ap,
  Bool-cases, inl, inr, contains, contains-append, map, filter,
}
use devcontainer.Config.Types.{ResolvedConfig, FeatureMetadata, LifecycleCommand, command_is_empty}
use devcontainer.Config.Substitute.{SubstitutionContext}
use devcontainer.Config.Layers.{substitute_layers}
use devcontainer.Config.Merge.{
  Layers, layer_strings, push_new, union_dedup, merge_layers, merge_metadata,
}

-- No string stands twice.
abbrev pub IsDistinct : List Text → Type 0
IsDistinct [] = Unit {0}
IsDistinct (s ∷ rest) = (contains rest s ≡ false) × IsDistinct rest

IsDistinct-snoc :
    (xs : List Text) (s : Text) → IsDistinct xs → contains xs s ≡ false → IsDistinct (xs ++ s ∷ [])
unfolding contains
IsDistinct-snoc [] s h k = (refl, tt)
IsDistinct-snoc (x ∷ xs) s h k = (
  ground (arith, h.0, k, contains-append xs (s ∷ []) x, eq_iff x s, eq_iff s x),
  IsDistinct-snoc xs s h.1 (ground (arith, k)),
)

push_new_lem :
    (out rest : List Text)
    → IsDistinct out
    → IsDistinct (push_new out rest)
      × ((k : Text) → contains (push_new out rest) k ≡ contains out k || contains rest k)
unfolding push_new contains
push_new_lem out [] h = (h, λ k. ground arith)
push_new_lem out (s ∷ rest) h = elim (Bool-cases (contains out s)) [
  | inl old ↦
      let (distinct, same) = push_new_lem out rest h in
      rw old (
        distinct,
        λ k. elim (Bool-cases (s == k)) [
          | inl e ↦ ground (arith, same k, ap (contains out) (eq_of_== s k e), old)
          | inr ne ↦ ground (arith, same k, ne)
        ],
      )
  | inr new ↦
      let (distinct, same) = push_new_lem (out ++ s ∷ []) rest (IsDistinct-snoc out s h new) in
      rw new (distinct, λ k. ground (arith, same k, contains-append out (s ∷ []) k))
]

union_dedup_lem :
    (a b : List Text)
    → IsDistinct (union_dedup a b)
      × ((k : Text) → contains (union_dedup a b) k ≡ contains a k || contains b k)
unfolding union_dedup contains
union_dedup_lem a b =
    let (da, sa) = push_new_lem [] a tt in
    let (db, sb) = push_new_lem (push_new [] a) b da in (db, λ k. ground (arith, sb k, sa k))

-- The hooks that the layers contribute to a phase, in order.
abbrev pub hooks_of :
    SubstitutionContext → Layers → (FeatureMetadata → LifecycleCommand) → List LifecycleCommand
hooks_of ctx layers get =
    filter (λ c. not (command_is_empty c)) (map get (substitute_layers layers ctx))

module _ (cfg : ResolvedConfig) (ctx : SubstitutionContext) where
  -- When there is at least one layer, the merged capabilities and security options are those of
  -- the layers and of the user together, each once.
  pub merge_metadata-lists :
      (layers : Layers)
      → layers ≢ []
      → let out = merge_metadata cfg ctx layers in
        let ls = substitute_layers layers ctx in
        IsDistinct out.cap_add
        × ((k : Text)
            → contains out.cap_add k
              ≡ contains (layer_strings ls (λ l. l.cap_add)) k || contains cfg.cap_add k)
        × IsDistinct out.security_opt
        × ((k : Text)
            → contains out.security_opt k
              ≡ contains (layer_strings ls (λ l. l.security_opt)) k || contains cfg.security_opt k)
  unfolding merge_metadata merge_layers
  merge_metadata-lists [] h = absurd (h refl)
  merge_metadata-lists (l ∷ layers) h =
      let ls = substitute_layers (l ∷ layers) ctx in
      let (dc, sc) = union_dedup_lem (layer_strings ls (λ l. l.cap_add)) cfg.cap_add in
      let (ds, ss) = union_dedup_lem (layer_strings ls (λ l. l.security_opt)) cfg.security_opt in
      (dc, sc, ds, ss)
