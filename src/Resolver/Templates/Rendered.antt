-- ===== src/Resolver/Templates/Rendered.antt =====
-- What a rendering that succeeds has made: each template sees its siblings rendered.
use shrine.Prelude.{
  All, List, Nodup, Option, String, [], arith, eq_int, eq_pair, eq_str, false, has_key,
  if◌then◌else◌, insert, lookup, lookup-insert, mem, none, refl, some, true, ◌||◌, ◌∷◌, ◌≡◌,
}
use shrine.Topo.Loop.{IsOrdered}
use shrine.Resolver.{Env, Reply, TemplateEngine, bind-ok, ok, refusal, reply}
use shrine.Resolver.Templates.{Parsed, Rendering, execute_reply, render_each, render_one}

execute_reply-ok :
    (name : String) (r next : Rendering) (answer : Reply String)
    → execute_reply name r answer ≡ ok next
    → (text : String) × (answer ≡ reply text)
      × (next ≡ record { ctx = insert name text r.ctx; out = insert name text r.out })
execute_reply-ok name r next (refusal x) e = absurd (ground arith)
execute_reply-ok name r next (reply text) e = (text, refl, ground arith)

module _ (t : TemplateEngine) (ps : List (String × Parsed)) (D : String → List String)
    (values : Env) where
  -- A rendered template: the engine has executed it in a context that gives its siblings the values
  -- that they have in the end, and everything else the value from before.
  pub record IsRendered (out : Env) (name : String) : Type 0 where
    pub parsed : Parsed
    pub found : lookup name ps ≡ some parsed
    pub ctx : Env
    pub text : String
    pub executed : t.execute parsed.tree ctx ≡ reply text
    pub value : lookup name out ≡ some text
    pub siblings : (ref : String) → mem ref (D name) ≡ true → lookup ref ctx ≡ lookup ref out
    pub others : (ref : String) → has_key ref out ≡ false → lookup ref ctx ≡ lookup ref values

  -- The two maps after the templates of `seen`.
  pub record IsPartial (seen : List String) (r : Rendering) : Type 0 where
    pub within :
        (k : String) → lookup k r.ctx ≡ (if mem k seen then lookup k r.out else lookup k values)
    pub filled : (k : String) → has_key k r.out ≡ mem k seen

  render_one-ok :
      (name : String) (o : Option Parsed) (r next : Rendering)
      → render_one t name o r ≡ ok next
      → (p : Parsed) × (text : String) × (o ≡ some p)
        × (t.execute p.tree r.ctx ≡ reply text)
        × (next ≡ record { ctx = insert name text r.ctx; out = insert name text r.out })
  unfolding render_one
  render_one-ok name none r next e = absurd (ground arith)
  render_one-ok name (some p) r next e =
      let (text, answered, same) = execute_reply-ok name r next (t.execute p.tree r.ctx) e in
      (p, text, refl, answered, same)

  next-IsPartial :
      (name text : String) (seen : List String) (r : Rendering)
      → mem name seen ≡ false
      → IsPartial seen r
      → IsPartial
          (name ∷ seen)
          (record { ctx = insert name text r.ctx; out = insert name text r.out })
  unfolding mem
  next-IsPartial name text seen r fresh inv = record {
    within = λ k.
        ground
          (arith, inv.within k, lookup-insert k name text r.ctx, lookup-insert k name text r.out);
    filled = λ k. ground (arith, inv.filled k, lookup-insert k name text r.out);
  }

  -- What the loop over `names` has made of `r` when it succeeds.
  pub record IsLooped (seen names : List String) (r : Rendering) (out : Env) : Type 0 where
    pub each : All (IsRendered out) names
    pub filled : (k : String) → has_key k out ≡ (mem k seen || mem k names)
    pub stable : (k : String) → mem k names ≡ false → lookup k out ≡ lookup k r.out

  pub render_each-IsLooped :
      (seen names : List String) (r final : Rendering)
      → Nodup names
      → ((x : String) → mem x names ≡ true → mem x seen ≡ false)
      → IsOrdered D seen names
      → IsPartial seen r
      → render_each t ps names r ≡ ok final
      → IsLooped seen names r final.out
  unfolding render_each mem
  render_each-IsLooped seen [] r final once apart ordered inv e =
      let same : r ≡ final = ground arith in
      rw (← same)
        (record { each = tt; filled = λ k. ground (arith, inv.filled k); stable = λ k m. refl })
  render_each-IsLooped seen (name ∷ names) r final once apart ordered inv e =
      let (next, one, rest) =
        bind-ok (render_one t name (lookup name ps) r) (λ n. render_each t ps names n) final e in
      let (p, text, found, executed, same) = render_one-ok name (lookup name ps) r next one in
      let after : IsPartial (name ∷ seen) next =
        rw same (next-IsPartial name text seen r (apart name (ground arith)) inv) in
      let step : (k : String) → lookup k next.out ≡ lookup k (insert name text r.out) =
        λ k. rw same refl in
      let loop =
        render_each-IsLooped (name ∷ seen) names next final once.1
          (λ x m. ground (arith, apart x, once.0)) ordered.1 after rest in
      record {
        each = (
          record {
            parsed = p;
            found = found;
            ctx = r.ctx;
            text = text;
            executed = executed;
            value =
                ground
                  (arith, loop.stable name once.0, step name, lookup-insert name name text r.out);
            siblings = λ ref m. ground (
              arith,
              ordered.0 ref m,
              inv.within ref,
              apart ref,
              loop.stable ref,
              step ref,
              lookup-insert ref name text r.out,
            );
            others = λ ref m. ground (arith, inv.within ref, loop.filled ref);
          },
          loop.each,
        );
        filled = λ k. ground (arith, loop.filled k);
        stable = λ k m. ground (arith, loop.stable k, step k, lookup-insert k name text r.out);
      }
