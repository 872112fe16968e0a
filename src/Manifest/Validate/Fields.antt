-- ===== src/Manifest/Validate/Fields.antt =====
-- When each loop of the validator reports nothing.
use shrine.Prelude.{
  All, List, NodupFrom, Option, String, [], arith, eq_int, eq_pair, eq_str, false, has_prefix, map,
  mem, negsuc, none, not, pos, refl, some, true, ℕ, ℤ, ◌+◌, ◌<◌, ◌==◌, ◌||◌, ◌↔◌, ◌∷◌, ◌≡◌, ◌≤◌,
  ◌⊎◌,
}
use shrine.Manifest.{
  is_known_pull_policy, Publish, EnvVar, VolumeMount, first_auto_host_port, last_auto_host_port,
}
use shrine.Manifest.Validate.{
  count_set, validate_host_port, validate_publish, validate_pull_policy, validate_application_env,
  reserved_builtin_names, validate_resource_env, validate_volume_mounts,
}

-- A port that an operator may claim, or 0 for an automatic one.
abbrev pub IsClaimable : ℤ → Type 0
IsClaimable (pos n) =
    (n ≡ 0) ⊎ ((1024 ≤ n) × (n ≤ 65535) × ((n < first_auto_host_port) ⊎ (last_auto_host_port < n)))
IsClaimable (negsuc n) = ⊥

abbrev pub IsPublish : Option Publish → Type 0
IsPublish none = Unit {0}
IsPublish (some p) = IsClaimable p.host_port

host_port_sound : (n : ℤ) → validate_host_port n ≡ [] → IsClaimable n
unfolding validate_host_port
host_port_sound (pos n) h = ground arith
host_port_sound (negsuc n) h = ground arith

host_port_complete : (n : ℤ) → IsClaimable n → validate_host_port n ≡ []
unfolding validate_host_port
host_port_complete (pos n) h = ground arith
host_port_complete (negsuc n) h = absurd h

-- The validator reports nothing about a publish block exactly when there is none, or its host port is
-- 0 or lies from 1024 to 65535 and outside the range of the automatic ports.
pub publish_iff : (p : Option Publish) → (validate_publish p ≡ []) ↔ IsPublish p
unfolding validate_publish
publish_iff none = (λ h. tt, λ h. refl)
publish_iff (some p) = (host_port_sound p.host_port, host_port_complete p.host_port)

abbrev pub IsPolicy : String → Type 0
IsPolicy policy = (policy == "" || is_known_pull_policy policy) ≡ true

pub IsPolicy-iff : (policy : String) → (validate_pull_policy policy ≡ []) ↔ IsPolicy policy
unfolding validate_pull_policy
IsPolicy-iff policy = ground arith

-- One source, a name, and not generated.
pub record IsAppEnv (e : EnvVar) : Type 0 where
  pub named : (e.name == "") ≡ false
  pub given : e.generated ≡ false
  pub one_source :
      count_set (not (e.value == "") ∷ not (e.value_from == "") ∷ not (e.template == "") ∷ []) ≡ 1

pub IsAppEnv-iff :
    (i : ℕ) (es : List EnvVar) → (validate_application_env i es ≡ []) ↔ All IsAppEnv es
unfolding validate_application_env
IsAppEnv-iff i [] = (λ h. tt, λ h. refl)
IsAppEnv-iff i (e ∷ es) =
    let (sound, complete) = IsAppEnv-iff (i + 1) es in
    (λ h. (ground arith, sound (ground arith)), λ h. ground (arith, complete h.1))

-- A name that is no built-in, and one source.
pub record IsResEnv (e : EnvVar) : Type 0 where
  pub named : (e.name == "") ≡ false
  pub unreserved : reserved_builtin_names e.name ≡ false
  pub one_source :
      count_set
        (not (e.value == "") ∷ not (e.value_from == "") ∷ not (e.template == "") ∷ e.generated ∷ [])
      ≡ 1

abbrev pub env_names : List EnvVar → List String
env_names = map (λ e. e.name)

pub IsResEnv-iff :
    (i : ℕ) (es : List EnvVar) (names : List String)
    → ((validate_resource_env i es names).0 ≡ [])
      ↔ (All IsResEnv es × NodupFrom names (env_names es))
unfolding validate_resource_env
IsResEnv-iff i [] names = (λ h. (tt, tt), λ h. refl)
IsResEnv-iff i (e ∷ es) names =
    let (sound, complete) = IsResEnv-iff (i + 1) es (e.name ∷ names) in
    (
      λ h.
          let named : (e.name == "") ≡ false = ground arith in
          let (all, fresh) = sound (ground arith) in ((ground arith, all), (ground arith, fresh)),
      λ h. ground (arith, complete (h.0.1, h.1.1), h.0.0.named, h.0.0.unreserved, h.0.0.one_source),
    )

-- The set that the loop hands on holds the names of the list.
pub res_env_names :
    (i : ℕ) (es : List EnvVar) (names : List String) (x : String)
    → All IsResEnv es
    → mem x (validate_resource_env i es names).1 ≡ (mem x names || mem x (env_names es))
unfolding validate_resource_env mem
res_env_names i [] names x h = ground arith
res_env_names i (e ∷ es) names x h =
    ground (arith, res_env_names (i + 1) es (e.name ∷ names) x h.1, h.0.named)

-- A volume with a name and an absolute path.
pub record IsVolume (m : VolumeMount) : Type 0 where
  pub named : (m.name == "") ≡ false
  pub mounted : (m.mount_path == "") ≡ false
  pub absolute : has_prefix m.mount_path "/" ≡ true

abbrev pub volume_names : List VolumeMount → List String
volume_names = map (λ m. m.name)

abbrev pub volume_paths : List VolumeMount → List String
volume_paths = map (λ m. m.mount_path)

pub volumes_iff :
    (i : ℕ) (ms : List VolumeMount) (names paths : List String)
    → (validate_volume_mounts i ms names paths ≡ [])
      ↔ (All IsVolume ms × NodupFrom names (volume_names ms) × NodupFrom paths (volume_paths ms))
unfolding validate_volume_mounts
volumes_iff i [] names paths = (λ h. (tt, tt, tt), λ h. refl)
volumes_iff i (m ∷ ms) names paths =
    let (sound, complete) = volumes_iff (i + 1) ms (m.name ∷ names) (m.mount_path ∷ paths) in
    (
      λ h.
          let named : (m.name == "") ≡ false = ground arith in
          let (all, fresh, apart) = sound (ground arith) in
          ((ground arith, all), (ground arith, fresh), (ground arith, apart)),
      λ h.
          ground
            (arith, complete (h.0.1, h.1.1, h.2.1), h.0.0.named, h.0.0.mounted, h.0.0.absolute),
    )
