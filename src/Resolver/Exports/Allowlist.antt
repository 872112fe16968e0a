-- ===== src/Resolver/Exports/Allowlist.antt =====
-- What a resource publishes: the listed outputs, and nothing else.
use shrine.Prelude.{
  Bool-cases, List, Nodup, String, [], after, arith, eq_int, eq_pair, eq_str, has_key, inl, inr,
  insert, keys, keys-insert-Nodup, lookup, lookup-insert, map, mem, ◌==◌, ◌||◌, ◌∷◌, ◌≡◌, ◌⊕◌,
}
use shrine.Manifest.{Output, ResourceManifest}
use shrine.Resolver.{Env, TemplateEngine, bind-ok, ok}
use shrine.Resolver.Filling.Named.{fills, rendered-names}
use shrine.Resolver.Exports.{
  Exporting, add_rendered, compute_exports, export_context, export_each, export_one, plain_output,
}

abbrev pub output_names : List Output → List String
output_names = map (λ o. o.name)

export_one-names :
    (env : Env) (host port : String) (o : Output) (x next : Exporting)
    → Nodup (keys x.templates)
    → export_one env host port o x ≡ ok next
    → Nodup (keys next.templates)
      × ((k : String)
          → fills k next.exports next.templates ≡ (fills k x.exports x.templates || o.name == k))
unfolding export_one
export_one-names env host port o x next once e = elim (Bool-cases (o.template == "")) [
  | inl empty ↦
      let (v, plain, rest) =
        bind-ok (plain_output o.name host port (lookup o.name env))
          (λ v. ok (record x { exports = insert o.name v x.exports })) next
          (ground (arith, e, empty)) in
      let same : record x { exports = insert o.name v x.exports } ≡ next = ground (arith, rest) in
      rw (← same) (once, λ k. ground (arith, lookup-insert k o.name v x.exports))
  | inr given ↦
      let same : record x { templates = insert o.name o.template x.templates } ≡ next =
        ground (arith, e, given) in
      rw (← same) (
        keys-insert-Nodup o.name o.template x.templates once,
        λ k. ground (arith, lookup-insert k o.name o.template x.templates),
      )
]

export_each-names :
    (env : Env) (host port : String) (os : List Output) (x out : Exporting)
    → Nodup (keys x.templates)
    → export_each env host port os x ≡ ok out
    → Nodup (keys out.templates)
      × ((k : String)
          → fills k out.exports out.templates
            ≡ (fills k x.exports x.templates || mem k (output_names os)))
unfolding export_each mem
export_each-names env host port [] x out once e =
    let same : x ≡ out = ground arith in rw (← same) (once, λ k. ground arith)
export_each-names env host port (o ∷ os) x out once e =
    let (next, one, rest) =
      bind-ok (export_one env host port o x) (λ n. export_each env host port os n) out e in
    let (once_next, here) = export_one-names env host port o x next once one in
    let (after, names) = export_each-names env host port os next out once_next rest in
    (after, λ k. ground (arith, names k, here k))

add_rendered-names :
    (t : TemplateEngine) (res : ResourceManifest) (env : Env) (port : String)
    (exports templates out : Env)
    → Nodup (keys templates)
    → add_rendered t res env port exports templates ≡ ok out
    → (k : String) → has_key k out ≡ fills k exports templates
unfolding lookup
add_rendered-names t res env port exports [] out once e k =
    let same : exports ≡ out = ground (arith, e) in rw (← same) (ground arith)
add_rendered-names t res env port exports (first ∷ rest) out once e k =
    rendered-names t (export_context res env port) exports (first ∷ rest) out once e k

-- The exports that a resource publishes have the names of its listed outputs and no others, so that
-- no variable of its environment reaches a consumer unless an output of that name is listed.
pub compute_exports-names :
    (t : TemplateEngine) (res : ResourceManifest) (env : Env) (port : String) (out : Env)
    → compute_exports t res env port ≡ ok out
    → (k : String) → has_key k out ≡ mem k (output_names res.spec.outputs)
unfolding compute_exports lookup
compute_exports-names t res env port out e k =
    let start : Exporting = record { exports = []; templates = [] } in
    let host = res.metadata.owner ⊕ ("." ⊕ res.metadata.name) in
    let (x, filled, rest) =
      bind-ok (export_each env host port res.spec.outputs start)
        (λ x. add_rendered t res env port x.exports x.templates) out e in
    let (once, names) = export_each-names env host port res.spec.outputs start x tt filled in
    ground (arith, names k, add_rendered-names t res env port x.exports x.templates out once rest k)
