-- ===== src/Lib.antt =====
-- The devcontainer engine: it reads a devcontainer.json, resolves and merges its configuration,
-- fetches features, starts the container or the compose project, and runs the lifecycle hooks.
-- This library models the parts that decide what happens; what reaches the network, the file
-- system or the docker daemon is a parameter or is left out.
--
-- Compose (compose/graph.go, compose/plan.go, compose/errors.go). Compose/Project.antt has the
-- fields of a compose project that the code reads. Compose/Graph.antt is graph.go: topo_sort is
-- TopoSort with its dependency sets (build_deps), its rounds (sort_levels) and findCycle
-- (find_cycle, walk_cycle), and service_closure is ServiceClosure. Compose/Plan.antt is Validate
-- of plan.go with its refusals, in the order in which the code collects them before it sorts them.
--
-- Compose/Runtime.antt is the runtime that the orchestrator works against, a record of functions
-- on the world outside (runtime/runtime.go, runtime/compose_primitives.go). Compose/RunSpec.antt
-- makes the spec of a container from a service, its labels and its config hash (serviceToRunSpec,
-- and compose/hash.go). Compose/Orchestrator.antt is ensureService,
-- Compose/Orchestrator/Gates.antt is gateLevel and waitFor, Compose/Orchestrator/Up.antt is Up and
-- Compose/Orchestrator/Down.antt is Down, all of compose/orchestrator.go. Their state is the world
-- and a record of the calls that change something, which the code does not keep. The goroutines of
-- a level run one after the other, in the order that the parameter `schedule` gives; a digest of a
-- service's JSON text is a parameter as well.
--
-- Config (config/resolved.go, config/normalize.go, config/substitute.go,
-- config/merge_metadata.go). Config/Types.antt has the resolved configuration and the metadata of
-- one layer. Config/Substitute.antt is ResolveString: the matches of the regular expression are
-- found by a scan with three modes. Config/Decode.antt with its children is config/normalize.go,
-- from JSON values to commands, mounts and ports. Config/Layers.antt is the substitution of layers
-- and Config/Merge.antt is MergeMetadata.
--
-- Engine (lifecycle.go, marker.go). Engine/Lifecycle.antt has the phases, the markers, the events
-- and the backend, and Engine/Phases.antt is runAllLifecycle, runPhase and what they call, as
-- functions from a state to an error, if there is one, and a new state. The engine runs the merged
-- configuration, and Compose is what it hands a compose project to.
--
-- Engine/Secrets.antt is secrets.go, with the host executor as a parameter: what a secretsCommand
-- prints becomes an environment, below the one that the caller gives.
--
-- Feature (feature/match.go, feature/order.go, feature/graph.go). Feature/Match.antt is Matches
-- and MatchesResolved with parseSemver; Feature/Order.antt is splitByOverride and normalizeID. A
-- feature that an entry of the order has taken is dropped from the list instead of being marked.
-- Feature/Graph.antt is topoSort: `graph` builds idx, adj and inDegree, `run` is the main loop
-- with `visit` for a round, and `finish` what follows it; Feature/Graph/Paths.antt is
-- buildDeepestPath and cyclePath. Feature/Install.antt is Order.
--
-- Feature/Label.antt is feature/metadata.go: the entries that a build writes to the metadata label
-- of an image (build_metadata_label), and what is read back from them (parse_metadata_label).
--
-- Feature/Options.antt is feature/options.go: the merge of a user's options with the declared
-- ones, and the file of variables that an install script reads. Feature/Lockfile.antt is
-- feature/lockfile.go, where the comparison of two entries is that of all their fields, and
-- Engine/Lock.antt is lockfile.go: from what reading the lockfile gave to what a
-- commit does, which is nothing, an error, or a lockfile to write.
--
-- Engine/Layering.antt is the loop of layerFeatures in up.go, Engine/Layering/Features.antt the
-- function around it, up to its build plan, and Engine/Layering/Request.antt what that calls for
-- one feature: markAlreadyInstalled, bakedFeature, dependencies and checkLocalDependency. The list
-- that the loop walks is two lists, what is done and the rest. The feature store, the repository
-- of an OCI reference and the links of the file system are the fields of a parameter (Store), and
-- the label of the base image is given as parsed.
--
-- Conventions. A string is the list of its bytes. A Go map is an association list in an arbitrary
-- order, and a set a list without duplicates; where the code ranges over a map, the model takes
-- the order of the list. A pointer is an option, a nil slice is the empty list, and a slice of
-- fixed length that is written at an index is a function of the index. An int is an integer of
-- unbounded size except where Atoi reads one, and a time or a count is a natural number. Comparing
-- two arrays or two objects with == is a panic, which is an error of its own.
--
-- Fuel. topo_sort runs one round per service, which is enough because a round that goes on starts
-- at least one; walk_cycle runs one step more than services remain, which is enough because a path
-- does not repeat a service before it ends; service_closure runs one step for each name asked for
-- and each edge, since a service is visited once. Running out of fuel is a result of its own,
-- which is none of the code's. The sort of features runs one round per feature, each of which
-- installs one; the search for a cycle nests once per feature, since a call colours a white one;
-- and the walk back along the parents takes one step per feature of the search path. wait_for
-- polls for a given number of rounds; more of them than the timeout has units of time are enough,
-- since each sleep takes some. The loop of layerFeatures takes one round per feature that it comes
-- to, and it comes to finitely many, since what it meets a second time with the same content and
-- options is left out. A wait that runs out of rounds ends the gate with an error of its own.
--
-- The backend of the lifecycle is a parameter: commands in the container and on the host, the two
-- ways in which the marker files can fail, and the clock. The markers are kept apart from the rest
-- of the world, so a hook does not write to the marker directory here. Reading a marker back gives
-- what was written, as the JSON encoding of a marker does. A concurrent run of several commands is
-- one call with one outcome for each.
--
-- Not modelled: the JSON parser and the resolution of devcontainer.json, compose loading and
-- overrides, the fetching of a feature, the build plan and what else Up does, the docker backend,
-- the event bus and the command line: they are I/O, or glue between the parts above.
pub mod Base
pub mod Compose
pub mod Config
pub mod Engine
pub mod Feature
