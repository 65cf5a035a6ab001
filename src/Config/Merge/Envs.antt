-- ===== src/Config/Merge/Envs.antt =====
-- The environments of the merged configuration.
use devcontainer.Base.{
  false, not, List, [], ◌∷◌, Option, none, Text, ◌==◌, eq_of_==, is_empty, ◌≡◌, refl, arith,
  or_else, or_else-none, inl, inr, ap, sym, ◌∙◌, Bool-cases, Map, lookup, insert, lookup-insert,
  HasDistinctKeys, lookup_absent, lookup-map, map_found, contains, keys, filter, map,
}
use devcontainer.Config.Types.{ResolvedConfig}
use devcontainer.Config.Substitute.{SubstitutionContext}
use devcontainer.Config.Layers.{
  substitute_text, substitute_env, substitute_layer, substitute_layers,
}
use devcontainer.Config.Merge.{
  Layers, layer_maps, put_all, put_maps, merge_string_maps, merge_layers, merge_metadata,
}

pub lookup-put_all :
    (k : Text) (out m : Map Text)
    → HasDistinctKeys m
    → lookup k (put_all out m) ≡ or_else (lookup k m) (lookup k out)
unfolding put_all lookup
lookup-put_all k out [] h = refl
lookup-put_all k out ((j, v) ∷ m) h =
    rw (lookup-put_all k (insert j v out) m h.1, lookup-insert j k v out)
      (elim (Bool-cases (j == k)) [
        | inl same ↦
            let absent : contains (keys m) k ≡ false =
              ap (contains (keys m)) (sym (eq_of_== j k same)) ∙ h.0 in
            rw (same, lookup_absent k m absent)
        | inr other ↦ rw other
      ])

abbrev pub AllDistinct : List (Map Text) → Type 0
AllDistinct [] = Unit {0}
AllDistinct (m ∷ maps) = HasDistinctKeys m × AllDistinct maps

-- The value of the last map that has the key.
abbrev pub last_value : Text → List (Map Text) → Option Text
last_value k [] = none
last_value k (m ∷ maps) = or_else (last_value k maps) (lookup k m)

lookup-put_maps :
    (k : Text) (out : Map Text) (maps : List (Map Text))
    → AllDistinct maps
    → lookup k (put_maps out maps) ≡ or_else (last_value k maps) (lookup k out)
unfolding put_maps
lookup-put_maps k out [] h = refl
lookup-put_maps k out (m ∷ maps) h =
    ground (arith, lookup-put_maps k (put_all out m) maps, lookup-put_all k out m)

not_empty_maps : List (Map Text) → List (Map Text)
not_empty_maps maps = filter (λ m. not (is_empty m)) maps

last_value-not_empty :
    (k : Text) (maps : List (Map Text)) → last_value k (not_empty_maps maps) ≡ last_value k maps
unfolding not_empty_maps filter lookup
last_value-not_empty k [] = refl
last_value-not_empty k ([] ∷ maps) =
    last_value-not_empty k maps ∙ sym (or_else-none (last_value k maps))
last_value-not_empty k ((e ∷ m) ∷ maps) =
    ap (λ o. or_else o (lookup k (e ∷ m))) (last_value-not_empty k maps)

AllDistinct-not_empty :
    (maps : List (Map Text)) → AllDistinct maps → AllDistinct (not_empty_maps maps)
unfolding not_empty_maps filter
AllDistinct-not_empty [] h = tt
AllDistinct-not_empty ([] ∷ maps) h = AllDistinct-not_empty maps h.1
AllDistinct-not_empty ((e ∷ m) ∷ maps) h = (h.0, AllDistinct-not_empty maps h.1)

module _ (sub : Text → Text) where
  keys-substitute_env : (m : Map Text) → keys (substitute_env sub m) ≡ keys m
  unfolding substitute_env
  keys-substitute_env [] = refl
  keys-substitute_env (e ∷ m) = ap (λ ks. e.0 ∷ ks) (keys-substitute_env m)

  HasDistinctKeys-substitute_env :
      (m : Map Text) → HasDistinctKeys m → HasDistinctKeys (substitute_env sub m)
  unfolding substitute_env
  HasDistinctKeys-substitute_env [] h = tt
  HasDistinctKeys-substitute_env ((k, v) ∷ m) h =
      (ap (λ ks. contains ks k) (keys-substitute_env m) ∙ h.0, HasDistinctKeys-substitute_env m h.1)

  AllDistinct-substitute :
      (maps : List (Map Text)) → AllDistinct maps → AllDistinct (map (substitute_env sub) maps)
  AllDistinct-substitute [] h = tt
  AllDistinct-substitute (m ∷ maps) h =
      (HasDistinctKeys-substitute_env m h.0, AllDistinct-substitute maps h.1)

  last_value-substitute :
      (k : Text) (maps : List (Map Text))
      → last_value k (map (substitute_env sub) maps) ≡ map_found sub (last_value k maps)
  unfolding substitute_env
  last_value-substitute k [] = refl
  last_value-substitute k (m ∷ maps) = ground (arith, last_value-substitute k maps, lookup_sub k m)
    where
      lookup_sub :
          (k : Text) (m : Map Text) → lookup k (substitute_env sub m) ≡ map_found sub (lookup k m)
      lookup_sub k m = lookup-map (λ _ v. sub v) k m

  -- The merged map: the user's value of a key, else the substituted value of the last layer.
  lookup-merge_string_maps :
      (k : Text) (maps : List (Map Text)) (user : Map Text)
      → HasDistinctKeys user
      → AllDistinct maps
      → lookup k (merge_string_maps (not_empty_maps (map (substitute_env sub) maps)) user)
        ≡ or_else (lookup k user) (map_found sub (last_value k maps))
  unfolding merge_string_maps lookup
  lookup-merge_string_maps k maps user h hs =
      let ms = not_empty_maps (map (substitute_env sub) maps) in
      lookup-put_all k (put_maps [] ms) user h
      ∙ ap (or_else (lookup k user)) (
          lookup-put_maps k [] ms (AllDistinct-not_empty _ (AllDistinct-substitute maps hs))
          ∙ or_else-none (last_value k ms)
          ∙ last_value-not_empty k (map (substitute_env sub) maps)
          ∙ last_value-substitute k maps)

map-substitute_layers :
    (ctx : SubstitutionContext) (layers : Layers)
    → (map (λ l. l.container_env) (substitute_layers layers ctx)
        ≡ map (substitute_env (substitute_text ctx)) (map (λ l. l.container_env) layers))
      × (map (λ l. l.remote_env) (substitute_layers layers ctx)
          ≡ map (substitute_env (substitute_text ctx)) (map (λ l. l.remote_env) layers))
unfolding substitute_layers substitute_layer
map-substitute_layers ctx [] = (refl, refl)
map-substitute_layers ctx (l ∷ layers) =
    let (c, r) = map-substitute_layers ctx layers in
    let sub = substitute_env (substitute_text ctx) in
    (ap (λ ms. sub l.container_env ∷ ms) c, ap (λ ms. sub l.remote_env ∷ ms) r)

module _ (cfg : ResolvedConfig) (ctx : SubstitutionContext) (k : Text) where
  -- A variable of the merged container environment has the value that the user gave it, and else
  -- the value of the last layer that sets it, with its placeholders substituted; it is unset where
  -- neither sets it. The premises say that the given maps are maps.
  pub merge_metadata-container_env :
      (layers : Layers)
      → HasDistinctKeys cfg.container_env
      → AllDistinct (map (λ l. l.container_env) layers)
      → lookup k (merge_metadata cfg ctx layers).container_env
        ≡ or_else
            (lookup k cfg.container_env)
            (map_found (substitute_text ctx) (last_value k (map (λ l. l.container_env) layers)))
  unfolding merge_metadata merge_layers layer_maps not_empty_maps
  merge_metadata-container_env [] h hs = sym (or_else-none (lookup k cfg.container_env))
  merge_metadata-container_env (l ∷ layers) h hs =
      ap (λ ms. lookup k (merge_string_maps (not_empty_maps ms) cfg.container_env))
        (map-substitute_layers ctx (l ∷ layers)).0
      ∙ lookup-merge_string_maps (substitute_text ctx) k (map (λ l. l.container_env) (l ∷ layers))
          cfg.container_env h hs

  -- The same of the remote environment.
  merge_metadata-remote_env :
      (layers : Layers)
      → HasDistinctKeys cfg.remote_env
      → AllDistinct (map (λ l. l.remote_env) layers)
      → lookup k (merge_metadata cfg ctx layers).remote_env
        ≡ or_else
            (lookup k cfg.remote_env)
            (map_found (substitute_text ctx) (last_value k (map (λ l. l.remote_env) layers)))
  unfolding merge_metadata merge_layers layer_maps not_empty_maps
  merge_metadata-remote_env [] h hs = sym (or_else-none (lookup k cfg.remote_env))
  merge_metadata-remote_env (l ∷ layers) h hs =
      ap (λ ms. lookup k (merge_string_maps (not_empty_maps ms) cfg.remote_env))
        (map-substitute_layers ctx (l ∷ layers)).1
      ∙ lookup-merge_string_maps (substitute_text ctx) k (map (λ l. l.remote_env) (l ∷ layers))
          cfg.remote_env h hs
