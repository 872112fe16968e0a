-- ===== src/Lib.antt =====
-- Shrine deploys the applications and the resources that a directory of manifests describes. A
-- manifest is parsed and validated (internal/manifest), merged into a set, and the planner
-- (internal/planner) turns the set into steps: it checks the filter, writes the effective pull
-- policies, infers the dependencies that `valueFrom` references imply, looks for collisions, and
-- orders the steps by the sorter of internal/topo. The engine (internal/engine) carries the steps out
-- through backends: it has the images resolved, lets the resolver (internal/resolver) compute the values
-- of the variables, and creates the containers. Stores under internal/state keep what outlives a
-- deploy, such as the ports of the host that workloads have, the networks of the teams and the
-- deployments of each team.
--
-- Which file models which part:
-- - Prelude: Go's maps, sets, slices, texts and integers, as far as the program uses them.
-- - Topo: internal/topo/topo.go. `topo_sort` is `Sort`; its loop has one round of fuel for each node.
-- - Manifest: internal/manifest/types.go, with Manifest/Reference for image references and pull
--   policies and Manifest/Validate for internal/manifest/validate.go, one function for each
--   `validate...` there; an error is a value in place of its text. Manifest/Template is
--   internal/manifest/template.go.
-- - Planner/Loader, Planner/Filter, Planner/Order, Planner/Enrich, Planner/Policy,
--   Planner/Collisions, Planner/HostPorts, Planner/Templates, Planner/Resolve, Planner/Plan: the files
--   of internal/planner of these names (Enrich has enrich.go and enrich_valuefrom.go). `Resolve` as a
--   whole is in Planner/Resolve/Whole, its quotas in Planner/Resolve/Quota, its images and value
--   references in Planner/Resolve/References; `Plan` is in Planner/Plan/Compose, with the store of
--   teams, the parser of templates and the configuration in a record of parameters.
-- - Resolver: internal/resolver/resolver.go and dry_run_resolver.go. Resolver/Templates is
--   `renderTemplates`, Resolver/Exports `computeExports`, Resolver/Filling the loop over the
--   variables, Resolver/Live and Resolver/DryRun the two resolvers. Package text/template, the secret
--   store and the vault are parameters.
-- - Engine: internal/engine/engine.go and backends.go. A run is a chain of calls; a `World` answers
--   each call, and may look at all calls before it. Engine/Images, Engine/Resources,
--   Engine/Requests, Engine/Deploy and Engine/Teardown hold the parts of `ExecuteDeploy` and
--   `ExecuteTeardown`, and Engine/Planned puts the planner before it.
-- - State/Deployments: internal/state/local/deployments.go, down to the text of the files; which reads
--   and writes succeed are arguments.
-- - State/Pins: internal/state/local/pins.go, likewise down to the text; package time is a parameter.
-- - State/Subnets: internal/state/local/subnets.go, with net.ParseCIDR as a parameter; an operation
--   takes whether the file is written. The loop over the octets is the one of the ports.
-- - State/HostPorts: internal/state/local/hostports.go. Each operation takes whether the file is
--   written, and returns the store and the result.
--
-- A Go map is the list of its entries in any order in which `range` may visit them, and a Go set the
-- list of its members. A Go `int` is an unbounded integer; no code that is modelled comes near the
-- bounds of 64 bits. A Go pointer is an option. The texts of errors are left out, except that the
-- texts of collisions are parameters where they are sorted.
--
-- Not modelled: yaml decoding and directory walks, locks and the file system itself, the observer's
-- events, the container runtime, the plugins, the other stores, the command line and its output. What
-- a backend does within a call, such as the image that ResolveImage pulls and the pin that it records
-- or releases, is not modelled either, only which
-- calls are sent.
mod Prelude
pub mod Topo
pub mod Manifest
pub mod Planner
pub mod State
pub mod Resolver
pub mod Engine
