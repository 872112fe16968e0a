-- ===== src/Engine/Lookups.antt =====
-- The first part of a deploy, which sends nothing but calls of ResolveImage.
use shrine.Prelude.{
  All, List, Option, [], append-nil, append_assoc, eq_int, eq_pair, eq_str, insert, none, refl,
  some, ◌++◌, ◌∷◌, ◌≡◌,
}
use shrine.Planner.Loader.{ManifestSet}
use shrine.Planner.Order.{PlannedStep}
use shrine.Engine.{Run, ◌>>=◌, Call, EngineError, ResolveImageOp, World, ask, resolve_image, pure}
use shrine.Engine.Images.{
  Images, resolve_image_op_for, resolve_images, resolve_step_image, resolved_image_key,
}
use shrine.Engine.Transcript.{AllOk, Holds, after_run-Holds, Holds-imp, IsStop, ask-Holds}

-- The call is one of ResolveImage, which may pull an image and record or release a pin.
abbrev pub IsResolveImage : Call → Type 0
IsResolveImage (resolve_image op) = Unit {0}
IsResolveImage _ = ⊥

abbrev with_asked : Call → List ResolveImageOp → List ResolveImageOp
with_asked (resolve_image op) ops = ops ++ (op ∷ [])
with_asked _ ops = ops

-- The images that a transcript asks for, the first one first.
abbrev pub asked : List Call → List ResolveImageOp
asked [] = []
asked (c ∷ h) = with_asked c (asked h)

abbrev with_op : Option ResolveImageOp → List ResolveImageOp → List ResolveImageOp
with_op none ops = ops
with_op (some op) ops = op ∷ ops

-- The images of the steps.
abbrev pub image_ops : ManifestSet → List PlannedStep → List ResolveImageOp
image_ops set [] = []
image_ops set (step ∷ steps) = with_op (resolve_image_op_for set step) (image_ops set steps)

-- A step that has a manifest.
abbrev pub HasImage : ManifestSet → PlannedStep → Type 0
HasImage set step = (op : ResolveImageOp) × (resolve_image_op_for set step ≡ some op)

module _ (w : World) (set : ManifestSet) where
  -- A transcript of calls of ResolveImage that did not fail.
  pub record Looked (ops : List ResolveImageOp) (h : List Call) : Type 0 where
    pub ok : AllOk w h
    pub lookups : All IsResolveImage h
    pub done : asked h ≡ ops

  -- A run that stopped among the calls of ResolveImage.
  abbrev pub StoppedEarly : EngineError → List Call → Type 0
  StoppedEarly e h = IsStop w set e h × All IsResolveImage h

  unfoldable pub LooksUp : {A : Type 0} → List ResolveImageOp → Run A → Type 0
  LooksUp ops r = Holds (λ _ k. Looked ops k) StoppedEarly r

  resolve_step_image-LooksUp :
      (step : PlannedStep) (op : ResolveImageOp) (images : Images) (ops : List ResolveImageOp)
      (h : List Call)
      → Looked ops h
      → LooksUp (ops ++ (op ∷ [])) (resolve_step_image w step (some op) images h)
  unfolding resolve_step_image LooksUp ◌>>=◌
  resolve_step_image-LooksUp step op images ops h l =
      after_run-Holds (λ _ k. Looked (ops ++ (op ∷ [])) k) _ StoppedEarly
        (ask w (resolve_image op) (λ k. w.image k op) h)
        (λ image. pure (insert (resolved_image_key step.kind step.name) image images))
        (Holds-imp _ _ _ _ (ask w (resolve_image op) (λ k. w.image k op) h)
          (ask-Holds w set (resolve_image op) (λ k. w.image k op) h l.ok)
          (λ a k p. record {
            ok = p.1;
            lookups = rw p.0 (tt, l.lookups);
            done = rw (p.0, l.done) refl;
          })
          (λ e k q. (q.1, rw q.0 (tt, l.lookups))))
        (λ image k p. p)

  pub resolve_images-LooksUp :
      (steps : List PlannedStep) (images : Images) (ops : List ResolveImageOp) (h : List Call)
      → All (HasImage set) steps
      → Looked ops h
      → LooksUp (ops ++ image_ops set steps) (resolve_images w set steps images h)
  unfolding resolve_images LooksUp ◌>>=◌
  resolve_images-LooksUp [] images ops h all l = rw (append-nil ops) l
  resolve_images-LooksUp (step ∷ steps) images ops h all l =
      let (op, e) = all.0 in
      rw (e, ← (append_assoc ops (op ∷ []) (image_ops set steps)))
        (after_run-Holds (λ _ k. Looked (ops ++ (op ∷ [])) k) _ StoppedEarly
          (resolve_step_image w step (some op) images h) (λ next. resolve_images w set steps next)
          (unfold LooksUp in resolve_step_image-LooksUp step op images ops h l)
          (λ next k p. resolve_images-LooksUp steps next (ops ++ (op ∷ [])) k all.1 p))
