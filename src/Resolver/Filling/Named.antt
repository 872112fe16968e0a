-- ===== src/Resolver/Filling/Named.antt =====
-- Which variables an environment has when it is resolved.
use shrine.Prelude.{
  Bool, List, Nodup, String, [], after, arith, eq_int, eq_pair, eq_str, has_key, insert, keys,
  keys-insert-Nodup, lookup, lookup-insert, map, mem, ◌==◌, ◌||◌, ◌∷◌, ◌≡◌,
}
use shrine.Manifest.{EnvVar}
use shrine.Resolver.{Env, Result, TemplateEngine, bind-ok, copy, ok, ◌>>=◌}
use shrine.Resolver.Templates.{render_templates}
use shrine.Resolver.Templates.Whole.{render_templates-AreRendered}
use shrine.Resolver.Filling.{
  Filling, Slot, fill, plain, put_slot, resolve_env, templated, with_templates,
}

abbrev pub env_names : List EnvVar → List String
env_names = map (λ e. e.name)

pub has_key-copy :
    (k : String) (dst src : Env) → has_key k (copy dst src) ≡ (has_key k dst || has_key k src)
unfolding copy lookup
has_key-copy k dst [] = ground arith
has_key-copy k dst ((j, v) ∷ src) =
    ground (arith, has_key-copy k (insert j v dst) src, lookup-insert k j v dst)

-- The keys that a loop has filled so far.
abbrev pub fills : String → Env → Env → Bool
fills k env templates = has_key k env || has_key k templates

fills-put_slot :
    (k name : String) (slot : Slot) (x : Filling)
    → fills k (put_slot name slot x).env (put_slot name slot x).templates
      ≡ (fills k x.env x.templates || name == k)
unfolding put_slot
fills-put_slot k name (plain v) x = ground (arith, lookup-insert k name v x.env)
fills-put_slot k name (templated v) x = ground (arith, lookup-insert k name v x.templates)

put_slot-Nodup :
    (name : String) (slot : Slot) (x : Filling)
    → Nodup (keys x.templates)
    → Nodup (keys (put_slot name slot x).templates)
unfolding put_slot
put_slot-Nodup name (plain v) x once = once
put_slot-Nodup name (templated v) x once = keys-insert-Nodup name v x.templates once

fill-names :
    (slot_of : EnvVar → Result Slot) (es : List EnvVar) (x out : Filling)
    → Nodup (keys x.templates)
    → fill slot_of es x ≡ ok out
    → Nodup (keys out.templates)
      × ((k : String)
          → fills k out.env out.templates ≡ (fills k x.env x.templates || mem k (env_names es)))
unfolding fill mem
fill-names slot_of [] x out once e =
    let same : x ≡ out = ground arith in rw (← same) (once, λ k. ground arith)
fill-names slot_of (v ∷ es) x out once e =
    let (slot, one, rest) =
      bind-ok (slot_of v) (λ slot. fill slot_of es (put_slot v.name slot x)) out e in
    let (after, names) =
      fill-names slot_of es (put_slot v.name slot x) out (put_slot-Nodup v.name slot x once) rest in
    (after, λ k. ground (arith, names k, fills-put_slot k v.name slot x))

-- Copying what is rendered over what is there.
pub rendered-names :
    (t : TemplateEngine) (ctx dst templates out : Env)
    → Nodup (keys templates)
    → (render_templates t templates ctx >>= λ rendered. ok (copy dst rendered)) ≡ ok out
    → (k : String) → has_key k out ≡ fills k dst templates
rendered-names t ctx dst templates out once e k =
    let (rendered, one, rest) =
      bind-ok (render_templates t templates ctx) (λ r. ok (copy dst r)) out e in
    let same : copy dst rendered ≡ out = ground (arith, rest) in
    let keys_of = (render_templates-AreRendered t templates ctx rendered once one).same_keys k in
    rw (← same) (ground (arith, keys_of, has_key-copy k dst rendered))

with_templates-names :
    (t : TemplateEngine) (built_ins env templates out : Env)
    → Nodup (keys templates)
    → with_templates t built_ins env templates ≡ ok out
    → (k : String) → has_key k out ≡ fills k env templates
unfolding with_templates lookup
with_templates-names t built_ins env [] out once e k =
    let same : env ≡ out = ground (arith, e) in rw (← same) (ground arith)
with_templates-names t built_ins env (first ∷ rest) out once e k =
    rendered-names t (copy built_ins env) env (first ∷ rest) out once e k

-- An environment that is resolved has the variables of the manifest and no others.
pub resolve_env-names :
    (t : TemplateEngine) (slot_of : EnvVar → Result Slot) (built_ins : Env) (es : List EnvVar)
    (out : Env)
    → resolve_env t slot_of built_ins es ≡ ok out
    → (k : String) → has_key k out ≡ mem k (env_names es)
unfolding resolve_env lookup
resolve_env-names t slot_of built_ins es out e k =
    let start : Filling = record { env = []; templates = [] } in
    let (x, filled, rest) =
      bind-ok (fill slot_of es start) (λ x. with_templates t built_ins x.env x.templates) out e in
    let (once, names) = fill-names slot_of es start x tt filled in
    ground (arith, names k, with_templates-names t built_ins x.env x.templates out once rest k)
