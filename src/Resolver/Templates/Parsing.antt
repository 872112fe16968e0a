-- ===== src/Resolver/Templates/Parsing.antt =====
-- What the first loop of a rendering has made when it succeeds.
use shrine.Prelude.{
  All, Bool-cases, List, Nodup, Option, String, [], ap, arith, eq_int, eq_pair, eq_str, has_key,
  inl, inr, keys, lookup, mem, none, not, refl, some, ◌&&◌, ◌==◌, ◌||◌, ◌∷◌, ◌≡◌,
}
use shrine.Manifest.Template.{Node, extract_field_refs}
use shrine.Topo.{add_to_set}
use shrine.Topo.Graph.{add_to_set-Nodup, mem-add_to_set}
use shrine.Resolver.{Env, Reply, TemplateEngine, bind-ok, ok, refusal, reply, ◌>>=◌}
use shrine.Resolver.Templates.{
  Parsed, graph_of, parse_each, parse_one, parse_reply, template_deps, with_refs,
}

template_deps-Nodup :
    (templates : Env) (name : String) (refs d : List String)
    → Nodup d
    → Nodup (template_deps templates name refs d)
unfolding template_deps
template_deps-Nodup templates name [] d h = h
template_deps-Nodup templates name (ref ∷ refs) d h =
    elim (Bool-cases (has_key ref templates && not (ref == name))) [
      | inl e ↦ rw e (template_deps-Nodup templates name refs _ (add_to_set-Nodup ref d h))
      | inr e ↦ rw e (template_deps-Nodup templates name refs d h)
    ]

mem-template_deps :
    (templates : Env) (name k : String) (refs d : List String)
    → mem k (template_deps templates name refs d)
      ≡ (mem k d || (mem k refs && (has_key k templates && not (k == name))))
unfolding template_deps mem
mem-template_deps templates name k [] d = ground arith
mem-template_deps templates name k (ref ∷ refs) d =
    elim (Bool-cases (has_key ref templates && not (ref == name))) [
      | inl e ↦ rw e (
          ground (
            arith,
            mem-template_deps templates name k refs (add_to_set ref d),
            mem-add_to_set k ref d,
            e,
          ))
      | inr e ↦ rw e (ground (arith, mem-template_deps templates name k refs d, e))
    ]

-- A template that is parsed: its tree, the fields that it reads, and those that are siblings.
pub record IsParsed (t : TemplateEngine) (templates : Env) (name src : String) (p : Parsed)
    : Type 0 where
  pub tree : t.parse src ≡ reply p.tree
  pub refs : extract_field_refs p.tree ≡ some p.refs
  pub once : Nodup p.deps
  pub deps :
      (k : String) → mem k p.deps ≡ (mem k p.refs && (has_key k templates && not (k == name)))

module _ (t : TemplateEngine) (templates : Env) where
  with_refs-IsParsed :
      (name src : String) (tree : Option Node) (refs : Option (List String)) (p : Parsed)
      → t.parse src ≡ reply tree
      → extract_field_refs tree ≡ refs
      → with_refs templates name tree refs ≡ ok p
      → IsParsed t templates name src p
  unfolding mem
  with_refs-IsParsed name src tree none p a b e = absurd (ground arith)
  with_refs-IsParsed name src tree (some refs) p a b e =
      let same : record { tree = tree; refs = refs; deps = template_deps templates name refs [] }
          ≡ p =
        ground arith in
      rw (← same) (record {
        tree = a;
        refs = b;
        once = template_deps-Nodup templates name refs [] tt;
        deps = λ k. mem-template_deps templates name k refs [];
      })

  parse_reply-IsParsed :
      (name src : String) (answer : Reply (Option Node)) (p : Parsed)
      → t.parse src ≡ answer
      → parse_reply templates name answer ≡ ok p
      → IsParsed t templates name src p
  parse_reply-IsParsed name src (refusal x) p a e = absurd (ground arith)
  parse_reply-IsParsed name src (reply tree) p a e =
      with_refs-IsParsed name src tree (extract_field_refs tree) p a refl e

  -- What the loop over `rest` makes.
  pub record AreParsed (rest : Env) (ps : List (String × Parsed)) : Type 0 where
    pub same_keys : keys ps ≡ keys rest
    pub sets : All (λ r. Nodup r.1) (graph_of ps)
    pub each :
        (name : String) (p : Parsed)
        → lookup name ps ≡ some p
        → (src : String) × (lookup name rest ≡ some src) × IsParsed t templates name src p

  pub parse_each-AreParsed :
      (rest : Env) (ps : List (String × Parsed))
      → parse_each t templates rest ≡ ok ps
      → AreParsed rest ps
  unfolding parse_each parse_one lookup
  parse_each-AreParsed [] ps e =
      let same : [] ≡ ps = ground arith in
      rw (← same)
        (record { same_keys = refl; sets = tt; each = λ name p found. absurd (ground arith) })
  parse_each-AreParsed ((name, src) ∷ rest) ps e =
      let (p, one, more) =
        bind-ok (parse_one t templates name src)
          (λ p. parse_each t templates rest >>= λ qs. ok ((name, p) ∷ qs)) ps e in
      let (qs, tail, done) =
        bind-ok (parse_each t templates rest) (λ qs. ok ((name, p) ∷ qs)) ps more in
      let same : (name, p) ∷ qs ≡ ps = ground arith in
      let ih = parse_each-AreParsed rest qs tail in
      let here = parse_reply-IsParsed name src (t.parse src) p refl one in
      rw (← same) (record {
        same_keys = ap (λ ks. name ∷ ks) ih.same_keys;
        sets = (here.once, ih.sets);
        each = λ n q found. elim (Bool-cases (name == n)) [
          | inl yes_here ↦
              let eq_p : p ≡ q = ground (arith, found, yes_here) in
              let eq_n : name ≡ n = ground (arith, yes_here) in
              (src, ground arith, rw (← eq_p, ← eq_n) here)
          | inr other ↦
              let (s, there, parsed) = ih.each n q (ground (arith, found, other)) in
              (s, ground arith, parsed)
        ];
      })

pub keys-graph_of : (ps : List (String × Parsed)) → keys (graph_of ps) ≡ keys ps
keys-graph_of [] = refl
keys-graph_of ((name, p) ∷ ps) = ap (λ ks. name ∷ ks) (keys-graph_of ps)

pub lookup-graph_of :
    (name : String) (p : Parsed) (ps : List (String × Parsed))
    → lookup name ps ≡ some p
    → lookup name (graph_of ps) ≡ some p.deps
unfolding lookup
lookup-graph_of name p [] e = absurd (ground arith)
lookup-graph_of name p ((n, q) ∷ ps) e = elim (Bool-cases (n == name)) [
  | inl here ↦ let same : q ≡ p = ground arith in rw (here, same) refl
  | inr other ↦ rw other (lookup-graph_of name p ps (ground arith))
]
