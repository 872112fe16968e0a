-- ===== src/Engine/Transcript.antt =====
-- What holds of a run and its transcript.
use shrine.Prelude.{
  List, Option-cases, [], eq_int, eq_pair, eq_str, inl, inr, none, refl, some, ◌∷◌, ◌≡◌,
}
use shrine.Topo.{cycle}
use shrine.Planner.Loader.{ManifestSet}
use shrine.Engine.{
  Act, Call, EngineError, Run, World, after_run, ask, call_failed, done, failed, nil_manifest,
  resource_cycle, sort_exhausted,
}
use shrine.Engine.Resources.{resource_resolution_order}

-- No call of the transcript failed.
abbrev pub AllOk : World → List Call → Type 0
AllOk w [] = Unit {0}
AllOk w (c ∷ h) = (w.answer h c ≡ none) × AllOk w h

-- A run that ends satisfies `P`, and a run that fails satisfies `Q`.
abbrev pub Holds :
    {A : Type 0} → (A → List Call → Type 0) → (EngineError → List Call → Type 0) → Run A → Type 0
Holds P Q (done a h) = P a h
Holds P Q (failed e h) = Q e h

module _ {A B : Type 0} where
  pub after_run-Holds :
      (P : A → List Call → Type 0) (P' : B → List Call → Type 0)
      (Q : EngineError → List Call → Type 0) (r : Run A) (f : A → Act B)
      → Holds P Q r
      → ((a : A) (h : List Call) → P a h → Holds P' Q (f a h))
      → Holds P' Q (after_run r f)
  after_run-Holds P P' Q (done a h) f p next = next a h p
  after_run-Holds P P' Q (failed e h) f q next = q

module _ {A : Type 0} where
  pub Holds-imp :
      (P P' : A → List Call → Type 0) (Q Q' : EngineError → List Call → Type 0) (r : Run A)
      → Holds P Q r
      → ((a : A) (h : List Call) → P a h → P' a h)
      → ((e : EngineError) (h : List Call) → Q e h → Q' e h)
      → Holds P' Q' r
  Holds-imp P P' Q Q' (done a h) p f g = f a h p
  Holds-imp P P' Q Q' (failed e h) q f g = g e h q

-- Why a run stops with an error: the latest call failed, and none before it; or no call failed, and
-- the dependencies of the resources form a cycle. No run stops for another reason.
abbrev pub IsStop : World → ManifestSet → EngineError → List Call → Type 0
IsStop w set (call_failed c text) h =
    (before : List Call) × (h ≡ c ∷ before) × (w.answer before c ≡ some text) × AllOk w before
IsStop w set (resource_cycle names) h = (resource_resolution_order set ≡ cycle names) × AllOk w h
IsStop w set sort_exhausted h = ⊥
IsStop w set (nil_manifest step) h = ⊥

module _ (w : World) (set : ManifestSet) {A : Type 0} where
  -- A call after calls that did not fail.
  pub ask-Holds :
      (c : Call) (value : List Call → A) (h : List Call)
      → AllOk w h
      → Holds
          (λ a k. (k ≡ c ∷ h) × AllOk w k)
          (λ e k. (k ≡ c ∷ h) × IsStop w set e k)
          (ask w c value h)
  unfolding ask
  ask-Holds c value h ok = elim (Option-cases (w.answer h c)) [
    | inl e ↦ rw e (refl, (e, ok))
    | inr (text, e) ↦ rw e (refl, (h, refl, e, ok))
  ]
