-- ===== src/Resolver/Templates/Whole.antt =====
-- What a rendering promises.
use shrine.Prelude.{
  List, Nodup, Option, String, [], ap, arith, eq_int, eq_pair, eq_str, false, has_key, keys, lookup,
  mem, mem-keep, mem-keys, refl, some, sym, true, ◌==◌, ◌∙◌, ◌∷◌, ◌≡◌,
}
use shrine.Manifest.Template.{Node}
use shrine.Manifest.Template.Reads.{mem-extract_field_refs, tree_reads_field}
use shrine.Topo.{SortResult, cycle, exhausted, sorted, topo_sort}
use shrine.Topo.Graph.{IsGraph, deps_in, get_or_empty}
use shrine.Topo.Correct.{sorted-IsOrdered}
use shrine.Planner.Order.Nodes.{All-mem}
use shrine.Resolver.{Env, TemplateEngine, bind-ok, ok, reply}
use shrine.Resolver.Templates.{
  Parsed, Rendering, graph_of, parse_each, render_each, render_in_order, render_some,
  render_templates,
}
use shrine.Resolver.Templates.Parsing.{
  AreParsed, keys-graph_of, lookup-graph_of, parse_each-AreParsed,
}
use shrine.Resolver.Templates.Rendered.{IsRendered, render_each-IsLooped}

-- A template of the map, rendered: the engine has executed its tree in a context in which every
-- sibling that heads a field of the tree has its rendered text, and a name that is no template its
-- given value.
pub record IsRenderedFrom (t : TemplateEngine) (templates values out : Env) (name src : String)
    : Type 0 where
  pub tree : Option Node
  pub ctx : Env
  pub text : String
  pub parsed : t.parse src ≡ reply tree
  pub executed : t.execute tree ctx ≡ reply text
  pub value : lookup name out ≡ some text
  pub siblings :
      (ref : String)
      → tree_reads_field ref tree ≡ true
      → has_key ref templates ≡ true
      → (ref == name) ≡ false
      → lookup ref ctx ≡ lookup ref out
  pub others : (ref : String) → has_key ref templates ≡ false → lookup ref ctx ≡ lookup ref values

-- What a rendering that succeeds has made.
pub record AreRendered (t : TemplateEngine) (templates values out : Env) : Type 0 where
  pub same_keys : (k : String) → has_key k out ≡ has_key k templates
  pub each :
      (name src : String)
      → lookup name templates ≡ some src
      → IsRenderedFrom t templates values out name src

module _ (t : TemplateEngine) (templates values : Env) (once : Nodup (keys templates)) where
  module _ (ps : List (String × Parsed)) (parsed : AreParsed t templates templates ps) where
    parsed-IsGraph : IsGraph (graph_of ps)
    parsed-IsGraph = record {
      nodes = rw (keys-graph_of ps, parsed.same_keys) once;
      sets = parsed.sets;
    }

    has_key-parsed : (k : String) → has_key k (graph_of ps) ≡ has_key k templates
    has_key-parsed k =
        sym (mem-keys k (graph_of ps))
        ∙ (ap (λ ks. mem k ks) (keys-graph_of ps ∙ parsed.same_keys) ∙ mem-keys k templates)

    rendered-from :
        (out : Env) (name src : String)
        → ((k : String) → has_key k out ≡ has_key k templates)
        → lookup name templates ≡ some src
        → IsRendered t ps (deps_in (graph_of ps)) values out name
        → IsRenderedFrom t templates values out name src
    rendered-from out name src same found r =
        let (s, there, p) = parsed.each name r.parsed r.found in
        let eq : s ≡ src = ground (arith, there, found) in
        record {
          tree = r.parsed.tree;
          ctx = r.ctx;
          text = r.text;
          parsed = rw (← eq) p.tree;
          executed = r.executed;
          value = r.value;
          siblings = λ ref m k ne. r.siblings ref (
              ground (
                arith,
                mem-keep (λ d. has_key d (graph_of ps)) ref
                    (get_or_empty (lookup name (graph_of ps))),
                lookup-graph_of name r.parsed ps r.found,
                has_key-parsed ref,
                p.deps ref,
                mem-extract_field_refs ref r.parsed.tree r.parsed.refs p.refs,
              ));
          others = λ ref k. r.others ref (ground (arith, same ref));
        }

    in_order-AreRendered :
        (s : SortResult) (out : Env)
        → topo_sort (graph_of ps) ≡ s
        → render_in_order t ps values s ≡ ok out
        → AreRendered t templates values out
    unfolding mem lookup
    in_order-AreRendered (cycle names) out s e = absurd (ground arith)
    in_order-AreRendered exhausted out s e = absurd (ground arith)
    in_order-AreRendered (sorted names) out s e =
        let start : Rendering = record { ctx = values; out = [] } in
        let (r, loop, done) = bind-ok (render_each t ps names start) (λ r. ok r.out) out e in
        let (n, all_of, o) = sorted-IsOrdered (graph_of ps) names parsed-IsGraph s in
        let made =
          render_each-IsLooped t ps (deps_in (graph_of ps)) values [] names start r n (λ x m. refl)
            o (record { within = λ k. refl; filled = λ k. refl }) loop in
        let same_out : r.out ≡ out = ground (arith, done) in
        let same : (k : String) → has_key k r.out ≡ has_key k templates = λ k.
          ground (arith, made.filled k, all_of k, mem-keys k (graph_of ps), has_key-parsed k) in
        rw (← same_out) (record {
          same_keys = same;
          each = λ name src found. rendered-from r.out name src same found (
              All-mem _ name names made.each
                (ground (arith, all_of name, mem-keys name (graph_of ps), has_key-parsed name)));
        })

  some-AreRendered :
      (out : Env) → render_some t templates values ≡ ok out → AreRendered t templates values out
  some-AreRendered out e =
      let (ps, parsing, rest) =
        bind-ok (parse_each t templates templates)
          (λ ps. render_in_order t ps values (topo_sort (graph_of ps))) out e in
      in_order-AreRendered ps (parse_each-AreParsed t templates templates ps parsing)
        (topo_sort (graph_of ps)) out refl rest

pub render_templates-AreRendered :
    (t : TemplateEngine) (templates values out : Env)
    → Nodup (keys templates)
    → render_templates t templates values ≡ ok out
    → AreRendered t templates values out
unfolding render_templates lookup
render_templates-AreRendered t [] values out once e =
    let same : [] ≡ out = ground arith in
    rw (← same) (record { same_keys = λ k. refl; each = λ name src found. absurd (ground arith) })
render_templates-AreRendered t (first ∷ rest) values out once e =
    some-AreRendered t (first ∷ rest) values once out e
