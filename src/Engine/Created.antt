-- ===== src/Engine/Created.antt =====
-- Which containers a deploy creates, and when it stops.
pub mod Steps
pub mod Whole
use shrine.Prelude.{List, [], arith, eq_int, eq_pair, eq_str, refl, ◌++◌, ◌∙◌, ◌∷◌, ◌≡◌}
use shrine.Planner.Loader.{ManifestSet}
use shrine.Planner.Order.{PlannedStep}
use shrine.Engine.{
  ◌>>=◌, ◌>>◌, Run, Act, Call, CreateContainerOp, EngineError, World, act_when, ask,
  create_container, request,
}
use shrine.Engine.Transcript.{AllOk, Holds, after_run-Holds, Holds-imp, IsStop, ask-Holds}

abbrev with_created : Call → List PlannedStep → List PlannedStep
with_created (create_container op) steps = steps ++ (record { kind = op.kind; name = op.name } ∷ [])
with_created _ steps = steps

-- The kinds and the names of the containers that a transcript asks for, the first one first.
abbrev pub created : List Call → List PlannedStep
created [] = []
created (c ∷ h) = with_created c (created h)

-- A list that begins with `xs`.
abbrev pub IsPrefix : List PlannedStep → List PlannedStep → Type 0
IsPrefix xs all = (rest : List PlannedStep) × (xs ++ rest ≡ all)

-- The transcript continues `base`.
abbrev pub IsSince : List Call → List Call → Type 0
IsSince base h = (later : List Call) × (h ≡ later ++ base)

module _ (w : World) (set : ManifestSet) (base : List Call) (all : List PlannedStep) where
  -- A run that has created the containers of `xs`.
  pub record At (xs : List PlannedStep) (h : List Call) : Type 0 where
    pub ok : AllOk w h
    pub made : created h ≡ xs
    pub some_of : IsPrefix xs all
    pub since : IsSince base h

  -- A run that has stopped.
  pub record Stopped (e : EngineError) (h : List Call) : Type 0 where
    pub why : IsStop w set e h
    pub some_of : IsPrefix (created h) all
    pub since : IsSince base h

  abbrev pub Plain : Call → Type 0
  Plain c = (steps : List PlannedStep) → with_created c steps ≡ steps

  -- A run that creates the containers of `xs`, unless it stops.
  unfoldable pub Goes : {A : Type 0} → List PlannedStep → Run A → Type 0
  Goes xs r = Holds (λ a k. At xs k) Stopped r

  IsSince-call : (c : Call) (h k : List Call) → k ≡ c ∷ h → IsSince base h → IsSince base k
  IsSince-call c h k e (later, s) = (c ∷ later, ground (arith, e, s))

  module _ {A : Type 0} where
    -- A call that creates no container.
    pub Plain-At :
        (c : Call) (value : List Call → A) (xs : List PlannedStep) (h : List Call)
        → Plain c
        → At xs h
        → Goes xs (ask w c value h)
    unfolding Goes
    Plain-At c value xs h plain at =
        Holds-imp _ _ _ _ (ask w c value h) (ask-Holds w set c value h at.ok)
          (λ a k p. record {
            ok = p.1;
            made = rw p.0 (plain (created h) ∙ at.made);
            some_of = at.some_of;
            since = IsSince-call c h k p.0 at.since;
          })
          (λ e k q. record {
            why = q.1;
            some_of = (at.some_of.0, rw (q.0, plain (created h), at.made) at.some_of.1);
            since = IsSince-call c h k q.0 at.since;
          })

  module _ {A B : Type 0} (xs ys : List PlannedStep) (h : List Call) where
    pub bind-Goes :
        (m : Act A) (f : A → Act B)
        → Goes xs (m h)
        → ((a : A) (k : List Call) → At xs k → Goes ys (f a k))
        → Goes ys ((m >>= f) h)
    unfolding Goes ◌>>=◌
    bind-Goes m f p next = after_run-Holds _ _ Stopped (m h) f p next

    pub then-Goes :
        (m : Act A) (f : Act B)
        → Goes xs (m h)
        → ((k : List Call) → At xs k → Goes ys (f k))
        → Goes ys ((m >> f) h)
    unfolding Goes ◌>>◌ ◌>>=◌
    then-Goes m f p next = after_run-Holds _ _ Stopped (m h) (λ _. f) p (λ a k. next k)

  -- The call that creates a container.
  pub create-At :
      (op : CreateContainerOp) (step : PlannedStep) (xs : List PlannedStep) (h : List Call)
      → ◌≡◌ {A = PlannedStep} (record { kind = op.kind; name = op.name }) step
      → IsPrefix (xs ++ (step ∷ [])) all
      → At xs h
      → Goes (xs ++ (step ∷ [])) (request w (create_container op) h)
  unfolding Goes
  create-At op step xs h same next at =
      Holds-imp _ _ _ _ (request w (create_container op) h)
        (ask-Holds w set (create_container op) (λ _. tt) h at.ok)
        (λ a k p. record {
          ok = p.1;
          made = rw (p.0, at.made, same) refl;
          some_of = next;
          since = IsSince-call (create_container op) h k p.0 at.since;
        })
        (λ e k q. record {
          why = q.1;
          some_of = rw (q.0, at.made, same) next;
          since = IsSince-call (create_container op) h k q.0 at.since;
        })
