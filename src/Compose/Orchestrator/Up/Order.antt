-- ===== src/Compose/Orchestrator/Up/Order.antt =====
-- The order in which the services of a level get their containers, whatever fails.
use devcontainer.Base.{
  true, ◌||◌, List, [], ◌∷◌, ◌++◌, Option, none, some, Text, ◌==◌, eq_of_==, Map, keys, lookup,
  insert, contains, contains-append, lookup-keys, ◌≡◌, refl, ◌≢◌, if_ind, ==_refl, inl, inr, arith,
  ap, sym, ◌∙◌, Bool-cases, if◌then◌else◌,
}
use mathlib.Core.List.{append_assoc, append-nil}
use devcontainer.Compose.Project.{Project, ServiceConfig}
use devcontainer.Compose.Graph.Edges.{Edge}
use devcontainer.Compose.Runtime.{Runtime, State}
use devcontainer.Compose.Orchestrator.{
  Plan, ServiceError, Ensured, ensured, failed, text_at, ensure_service,
}
use devcontainer.Compose.Orchestrator.Up.{
  LevelRun, or_first, record_service, start_found, start_service, start_level,
}

-- Each service stands behind all those that it depends on.
abbrev pub IsStartOrder : Map ServiceConfig → List Text → List Text → Type 0
IsStartOrder services before [] = Unit {0}
IsStartOrder services before (a ∷ names) =
    ((b : Text) → Edge services a b → contains before b ≡ true)
    × IsStartOrder services (before ++ a ∷ []) names

IsStartOrder-snoc :
    (services : Map ServiceConfig) (before names : List Text) (a : Text)
    → IsStartOrder services before names
    → ((b : Text) → Edge services a b → contains (before ++ names) b ≡ true)
    → IsStartOrder services before (names ++ a ∷ [])
IsStartOrder-snoc services before [] a h k = (λ b e. rw append-nil at (k b e), tt)
IsStartOrder-snoc services before (n ∷ names) a h k = (
  h.0,
  IsStartOrder-snoc services (before ++ n ∷ []) names a h.1 (λ b e. rw append_assoc (k b e)),
)

-- A new key goes behind the others.
pub keys-insert {ℓ} :
    {V : Type ℓ} (k : Text) (v : V) (m : Map V)
    → keys (insert k v m) ≡ (if contains (keys m) k then keys m else keys m ++ k ∷ [])
unfolding insert contains
keys-insert k v [] = refl
keys-insert k v ((j, w) ∷ m) = elim (Bool-cases (j == k)) [
  | inl same ↦ rw same (ap (λ x. x ∷ keys m) (sym (eq_of_== j k same)))
  | inr other ↦ rw other (ground (arith, keys-insert k v m))
]

contains-keys-insert :
    (k v : Text) (m : Map Text) (x : Text)
    → contains (keys (insert k v m)) x ≡ contains (keys m) x || (k == x)
unfolding contains
contains-keys-insert k v m x = elim (Bool-cases (contains (keys m) k)) [
  | inl old ↦ elim (Bool-cases (k == x)) [
    | inl same ↦
        let e = ap (contains (keys m)) (eq_of_== k x same) in
        rw (keys-insert k v m, old) (ground (arith, e, old, same))
    | inr other ↦ rw (keys-insert k v m, old) (ground (arith, other))
  ]
  | inr new ↦ rw (keys-insert k v m, new) (contains-append (keys m) (k ∷ []) x ∙ ground arith)
]

the_name : (name x : Text) → contains (name ∷ []) x ≡ true → name ≡ x
unfolding contains
the_name name x m = eq_of_== name x (ground (arith, m))

-- Every dependency of a kept service is kept.
abbrev pub IsClosed : Map ServiceConfig → List Text → Type 0
IsClosed services keep =
    (a b : Text) → contains keep a ≡ true → Edge services a b → contains keep b ≡ true

or_first-ne-none :
    (o : Option (Text × ServiceError)) (f : Text × ServiceError) → or_first o f ≢ none
or_first-ne-none none f h = cc h
or_first-ne-none (some g) f h = cc h

module _ {S : Type 0} (rt : Runtime S) (digest : Text → ServiceConfig → Text) (plan : Plan)
    (project : Project) (keep : List Text) where
  -- A service changes nothing that matters here, or gets a container.
  data Started (name : Text) (r r' : LevelRun S) : Type 0 where
    unchanged :
        r'.ids ≡ r.ids
        → (r'.first ≡ none → r.first ≡ none)
        → (r'.first ≡ none → contains keep name ≡ true → lookup name project.services ≡ none)
        → Started name r r'
    got_container :
        (id : Text)
        → contains keep name ≡ true
        → r'.ids ≡ insert name id r.ids
        → r'.first ≡ r.first
        → Started name r r'

  record_service-Started :
      (name : Text) (outcome : Ensured × State S) (r : LevelRun S)
      → contains keep name ≡ true
      → Started name r (record_service rt digest plan project keep name outcome r)
  unfolding record_service
  record_service-Started name (ensured id, s) r h = got_container id h refl refl
  record_service-Started name (failed e, s) r h =
      unchanged refl (λ k. absurd (or_first-ne-none r.first (name, e) k))
        (λ k _. absurd (or_first-ne-none r.first (name, e) k))

  start_found-Started :
      (name : Text) (found : Option ServiceConfig) (r : LevelRun S)
      → lookup name project.services ≡ found
      → contains keep name ≡ true
      → Started name r (start_found rt digest plan project keep name found r)
  unfolding start_found
  start_found-Started name none r e h = unchanged refl (λ k. k) (λ _ _. e)
  start_found-Started name (some svc) r e h =
      record_service-Started name (ensure_service rt digest plan svc (λ n. text_at n r.ids) r.state)
        r h

  start_service-Started :
      (name : Text) (r : LevelRun S)
      → Started name r (start_service rt digest plan project keep name r)
  unfolding start_service
  start_service-Started name r =
      if_ind (Started name r) (contains keep name)
        (start_found-Started name (lookup name project.services) r refl)
        (λ h. unchanged refl (λ k. k) (λ _ m. absurd (cc (h, m))))

  -- What a run over some services of a level does to the containers.
  pub record LevelDone (names : List Text) (r r' : LevelRun S) : Type 0 where
    pub order : IsStartOrder project.services [] (keys r'.ids)
    pub grows : (x : Text) → contains (keys r.ids) x ≡ true → contains (keys r'.ids) x ≡ true
    pub quiet : r'.first ≡ none → r.first ≡ none
    pub filled :
        r'.first ≡ none
        → (x : Text) → contains names x ≡ true
        → contains keep x ≡ true
        → contains (keys project.services) x ≡ true
        → contains (keys r'.ids) x ≡ true

  -- The dependencies of the kept services among these names have their containers.
  abbrev pub AreReady : List Text → LevelRun S → Type 0
  AreReady names r =
      (a b : Text)
      → contains names a ≡ true
      → contains keep a ≡ true
      → Edge project.services a b
      → contains (keys r.ids) b ≡ true

  insert-IsStartOrder :
      (name id : Text) (ids : Map Text)
      → IsStartOrder project.services [] (keys ids)
      → ((b : Text) → Edge project.services name b → contains (keys ids) b ≡ true)
      → IsStartOrder project.services [] (keys (insert name id ids))
  insert-IsStartOrder name id ids order ready = elim (Bool-cases (contains (keys ids) name)) [
    | inl old ↦ rw (keys-insert name id ids, old) order
    | inr new ↦
        rw (keys-insert name id ids, new)
          (IsStartOrder-snoc project.services [] (keys ids) name order ready)
  ]

  Started-LevelDone :
      (name : Text) (r r' : LevelRun S)
      → Started name r r'
      → ((b : Text)
          → contains keep name ≡ true
          → Edge project.services name b
          → contains (keys r.ids) b ≡ true)
      → IsStartOrder project.services [] (keys r.ids)
      → LevelDone (name ∷ []) r r'
  unfolding contains
  Started-LevelDone name r r' (unchanged same quiet absent) ready order = record {
    order = rw same order;
    grows = λ x h. rw same h;
    quiet = quiet;
    filled = λ q x m k is.
        let e = the_name name x m in
        absurd (
          cc (
            lookup-keys name project.services,
            absent q (ap (contains keep) e ∙ k),
            ap (contains (keys project.services)) e,
            is,
          ));
  }
  Started-LevelDone name r r' (got_container id kept same quiet) ready order = record {
    order = rw same (insert-IsStartOrder name id r.ids order (λ b. ready b kept));
    grows = λ x h. rw (same, contains-keys-insert name id r.ids x, h) refl;
    quiet = λ q. sym quiet ∙ q;
    filled = λ q x m k is. rw (same, contains-keys-insert name id r.ids x) (ground (arith, m));
  }

  pub start_level-LevelDone :
      (names : List Text) (r : LevelRun S)
      → AreReady names r
      → IsStartOrder project.services [] (keys r.ids)
      → LevelDone names r (start_level rt digest plan project keep names r)
  unfolding start_level contains
  start_level-LevelDone [] r ready order = record {
    order = order;
    grows = λ x h. h;
    quiet = λ q. q;
    filled = λ q x m k is. cc m;
  }
  start_level-LevelDone (name ∷ names) r ready order =
      let r1 = start_service rt digest plan project keep name r in
      let first =
        Started-LevelDone name r r1 (start_service-Started name r)
          (λ b k e. ready name b (rw (==_refl name) refl) k e) order in
      let rest =
        start_level-LevelDone names r1
          (λ a b m k e. first.grows b (ready a b (rw m (ground arith)) k e)) first.order in
      record {
        order = rest.order;
        grows = λ x h. rest.grows x (first.grows x h);
        quiet = λ q. first.quiet (rest.quiet q);
        filled = λ q x m k is.
            ground (arith, m, rest.filled q x, k, is, rest.grows x, first.filled (rest.quiet q) x);
      }
