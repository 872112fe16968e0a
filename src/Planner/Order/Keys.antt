-- ===== src/Planner/Order/Keys.antt =====
-- The key of a node and the step that it stands for.
use shrine.Prelude.{
  Bool, List, Nodup, String, [], after, arith, before, dec_str, eq_int, eq_pair, eq_str, false,
  has_char, inl, inr, mem, refl, ◌&&◌, ◌==◌, ◌||◌, ◌∷◌, ◌≡◌, ◌⊎◌, ◌⊕◌,
}
use shrine.Manifest.{application_kind, resource_kind, Dependency}
use shrine.Topo.{add_to_set}
use shrine.Topo.Graph.{mem-add_to_set, add_to_set-Nodup}
use shrine.Planner.Order.{node_key, step_of, dep_set}

pub before-append : (k s : String) → has_char b':' k ≡ false → before b':' (k ⊕ ":" ⊕ s) ≡ k
unfolding before has_char
before-append String.[] s h = refl
before-append (String.◌∷◌ x k) s h = ground (arith, before-append k s)

pub after-append : (k s : String) → has_char b':' k ≡ false → after b':' (k ⊕ ":" ⊕ s) ≡ s
unfolding after has_char
after-append String.[] s h = refl
after-append (String.◌∷◌ x k) s h = ground (arith, after-append k s)

-- One of the two kinds that have steps.
abbrev pub IsKind : String → Type 0
IsKind kind = (kind ≡ resource_kind) ⊎ (kind ≡ application_kind)

pub kinds_differ : (resource_kind == application_kind) ≡ false
unfolding dec_str
kinds_differ = refl

pub IsKind-no_colon : (kind : String) → IsKind kind → has_char b':' kind ≡ false
unfolding has_char
IsKind-no_colon kind (inl e) = rw e refl
IsKind-no_colon kind (inr e) = rw e refl

-- The step of a key has the kind and the name of the key.
pub step_of-node_key :
    (kind name : String)
    → IsKind kind
    → step_of (node_key kind name) ≡ record { kind = kind; name = name }
step_of-node_key kind name k =
    let plain = IsKind-no_colon kind k in
    rw (before-append kind name plain, after-append kind name plain) refl

-- Two keys are one only for one kind and one name.
pub node_key-eq :
    (j k m n : String) → IsKind j → IsKind k → (node_key j m == node_key k n) ≡ (j == k && m == n)
node_key-eq j k m n hj hk = ground (
  arith,
  before-append j m (IsKind-no_colon j hj),
  before-append k n (IsKind-no_colon k hk),
  after-append j m (IsKind-no_colon j hj),
  after-append k n (IsKind-no_colon k hk),
)

pub dep_set-Nodup : (deps : List Dependency) (d : List String) → Nodup d → Nodup (dep_set deps d)
unfolding dep_set
dep_set-Nodup [] d h = h
dep_set-Nodup (dep ∷ deps) d h =
    dep_set-Nodup deps (add_to_set (node_key dep.kind dep.name) d)
      (add_to_set-Nodup (node_key dep.kind dep.name) d h)

-- Whether a list of dependencies names the key.
unfoldable pub names_key : String → List Dependency → Bool
names_key key [] = false
names_key key (dep ∷ deps) = node_key dep.kind dep.name == key || names_key key deps

pub mem-dep_set :
    (key : String) (deps : List Dependency) (d : List String)
    → mem key (dep_set deps d) ≡ (mem key d || names_key key deps)
unfolding dep_set names_key
mem-dep_set key [] d = ground arith
mem-dep_set key (dep ∷ deps) d = ground (
  arith,
  mem-dep_set key deps (add_to_set (node_key dep.kind dep.name) d),
  mem-add_to_set key (node_key dep.kind dep.name) d,
)
