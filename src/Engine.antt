-- ===== src/Engine.antt =====
-- internal/engine/backends.go and the part of engine.go that all runs share: the requests to the
-- backends and the resolver, and a run as the transcript of its calls. The backends are outside: a
-- `World` answers each call, and may look at all the calls before it. Events are not modelled.
pub mod Teardown
pub mod Images
pub mod Resources
pub mod Requests
pub mod Deploy
pub mod Transcript
pub mod Graph
pub mod Lookups
pub mod Created
pub mod Promises
pub mod Removed
pub mod Planned
mod Examples
use shrine.Prelude.{
  Bool, List, Option, String, eq_int, eq_pair, eq_str, false, none, some, true, ℤ, ◌∷◌,
}
pub use shrine.Resolver.{Env, ResolvedDependencies, ResolvedResource}
use shrine.Manifest.{ApplicationManifest, ResourceManifest}
use shrine.Planner.Order.{PlannedStep}

pub record VolumeMount : Type 0 where
  pub name : String
  pub mount_path : String

pub record BindMount : Type 0 where
  pub source : String
  pub target : String

pub record PortBinding : Type 0 where
  pub host_ip : String
  pub host_port : String
  pub container_port : String
  pub protocol : String

pub record PublishPort : Type 0 where
  pub host_port : ℤ
  pub container_port : ℤ

pub record CreateContainerOp : Type 0 where
  pub team : String
  pub name : String
  pub image : String
  pub kind : String
  pub network : String
  pub env : List String
  pub volumes : List VolumeMount
  pub expose_to_platform : Bool
  pub image_pull_policy : String
  pub restart_policy : String
  pub bind_mounts : List BindMount
  pub port_bindings : List PortBinding
  pub publish : Option PublishPort
  pub resolved_ref : String
  pub image_id : String

pub record RemoveContainerOp : Type 0 where
  pub team : String
  pub name : String

pub record ResolveImageOp : Type 0 where
  pub team : String
  pub name : String
  pub kind : String
  pub image : String
  pub image_pull_policy : String
  pub repin : String

-- `pinned_at`, a Go time, in seconds; the zero time is 0.
pub record ResolvedImage : Type 0 where
  pub ref : String
  pub digest : String
  pub image_id : String
  pub source : String
  pub requested : String
  pub pinned_at : ℤ

pub record AliasRoute : Type 0 where
  pub host : String
  pub path_prefix : String
  pub strip_prefix : Bool
  pub tls : Bool

pub record WriteRouteOp : Type 0 where
  pub team : String
  pub domain : String
  pub service_name : String
  pub service_port : ℤ
  pub path_prefix : String
  pub additional_routes : List AliasRoute

pub record WriteRecordOp : Type 0 where
  pub team : String
  pub name : String
  pub record_type : String
  pub value : String

-- A call of a backend or of the resolver, with its arguments.
pub data Call : Type 0 where
  resolve_image : ResolveImageOp → Call
  resolve_resource : ResourceManifest → ResolvedDependencies → Call
  resolve_application : ApplicationManifest → ResolvedDependencies → Call
  create_platform_network : Call
  create_network remove_network : String → Call
  create_container : CreateContainerOp → Call
  remove_container : RemoveContainerOp → Call
  write_route : WriteRouteOp → Call
  remove_route : String → String → Call
  finalize : Call
  write_record : WriteRecordOp → Call

-- The backends and the resolver: `answer` is the error of a call after the calls before it, latest
-- first; the others are the values that the calls return beside it. `routed` and `named` are
-- whether there are a routing and a DNS backend.
pub record World : Type 0 where
  pub answer : List Call → Call → Option String
  pub image : List Call → ResolveImageOp → ResolvedImage
  pub resource : List Call → ResourceManifest → ResolvedDependencies → ResolvedResource
  pub application : List Call → ApplicationManifest → ResolvedDependencies → Env
  pub routed : Bool
  pub named : Bool

-- `nil_manifest` is the fault of a step without a manifest.
pub data EngineError : Type 0 where
  call_failed : Call → String → EngineError
  resource_cycle : List String → EngineError
  sort_exhausted : EngineError
  nil_manifest : PlannedStep → EngineError

-- What a run leaves: its value or its error, and all calls so far, latest first.
pub data Run (A : Type 0) : Type 0 where
  done : A → List Call → Run A
  failed : EngineError → List Call → Run A

abbrev pub Act : Type 0 → Type 0
Act A = List Call → Run A

abbrev pub pure : {A : Type 0} → A → Act A
pure a h = done a h

abbrev pub stop : {A : Type 0} → EngineError → Act A
stop e h = failed e h

abbrev pub after_run : {A B : Type 0} → Run A → (A → Act B) → Run B
after_run (done a h) f = f a h
after_run (failed e h) f = failed e h

infixl 5 ◌>>=◌ ◌>>◌
unfoldable pub ◌>>=◌ : {A B : Type 0} → Act A → (A → Act B) → Act B
◌>>=◌ m f h = after_run (m h) f

unfoldable pub ◌>>◌ : {A B : Type 0} → Act A → Act B → Act B
unfolding ◌>>=◌
m >> k = m >>= λ _. k

-- The reply to a call with a value.
abbrev pub replied : {A : Type 0} → Call → A → List Call → Option String → Run A
replied c a h none = done a (c ∷ h)
replied c a h (some e) = failed (call_failed c e) (c ∷ h)

unfoldable pub ask : {A : Type 0} → World → Call → (List Call → A) → Act A
ask w c value h = replied c (value h) h (w.answer h c)

abbrev pub request : World → Call → Act (Unit {0})
request w c = ask w c (λ _. tt)

-- `if test { return m }`, and nothing otherwise
unfoldable pub act_when : Bool → Act (Unit {0}) → Act (Unit {0})
act_when b m h = elim b [ true ↦ m h | false ↦ done tt h ]
