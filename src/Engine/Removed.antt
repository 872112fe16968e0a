-- ===== src/Engine/Removed.antt =====
-- What a teardown removes, and when it stops.
use shrine.Prelude.{
  All, Bool, List, Option-cases, String, [], ap, append-nil, append_assoc, eq_int, eq_pair, eq_str,
  false, inl, inr, refl, some, subst, sym, true, ◌++◌, ◌∙◌, ◌∷◌, ◌≡◌,
}
use shrine.Planner.Order.{PlannedStep}
use shrine.Engine.{
  ◌>>=◌, ◌>>◌, Run, Act, Call, EngineError, World, act_when, ask, call_failed, finalize,
  remove_container, remove_network, remove_route, request, RemoveContainerOp,
}
use shrine.Engine.Teardown.{execute_teardown, finalize_routing, teardown_kind, teardown_steps}
use shrine.Engine.Transcript.{AllOk, Holds, after_run-Holds}

abbrev with_removed : Call → List RemoveContainerOp → List RemoveContainerOp
with_removed (remove_container op) ops = ops ++ (op ∷ [])
with_removed _ ops = ops

-- The containers that a transcript asks to remove, the first one first.
abbrev pub removed : List Call → List RemoveContainerOp
removed [] = []
removed (c ∷ h) = with_removed c (removed h)

-- The call leaves the networks.
abbrev pub KeepsNetwork : Call → Type 0
KeepsNetwork (remove_network team) = ⊥
KeepsNetwork _ = Unit {0}

-- The containers of the steps of a team.
abbrev pub containers_of : String → List PlannedStep → List RemoveContainerOp
containers_of team [] = []
containers_of team (step ∷ steps) =
    record { team = team; name = step.name } ∷ containers_of team steps

abbrev pub IsBegun : List RemoveContainerOp → List RemoveContainerOp → Type 0
IsBegun xs all = (rest : List RemoveContainerOp) × (xs ++ rest ≡ all)

module _ (w : World) (team : String) (all : List RemoveContainerOp) where
  -- A run that has removed the containers of `xs`.
  record Gone (xs : List RemoveContainerOp) (h : List Call) : Type 0 where
    ok : AllOk w h
    made : removed h ≡ xs
    kept : All KeepsNetwork h
    begun : IsBegun xs all

  -- A teardown that has ended: the network went last.
  pub record IsTornDown (h : List Call) : Type 0 where
    pub ok : AllOk w h
    pub made : removed h ≡ all
    pub last : (before : List Call) × (h ≡ remove_network team ∷ before) × All KeepsNetwork before

  -- A teardown that has stopped at its latest call; the calls before it did not fail, and did not
  -- remove the network.
  pub record IsHalted (e : EngineError) (h : List Call) : Type 0 where
    pub call : Call
    pub text : String
    pub before : List Call
    pub error : e ≡ call_failed call text
    pub whole : h ≡ call ∷ before
    pub answered : w.answer before call ≡ some text
    pub ok : AllOk w before
    pub kept : All KeepsNetwork before
    pub begun : IsBegun (removed h) all

  unfoldable Removes : List RemoveContainerOp → Run (Unit {0}) → Type 0
  Removes xs r = Holds (λ _ k. Gone xs k) IsHalted r

  request-Holds :
      (P : Unit {0} → List Call → Type 0) (c : Call) (xs : List RemoveContainerOp) (h : List Call)
      → IsBegun (with_removed c xs) all
      → Gone xs h
      → (AllOk w (c ∷ h) → removed (c ∷ h) ≡ with_removed c xs → P tt (c ∷ h))
      → Holds P IsHalted (request w c h)
  unfolding ask
  request-Holds P c xs h begun g p = elim (Option-cases (w.answer h c)) [
    | inl e ↦ rw e (p (e, g.ok) (ap (with_removed c) g.made))
    | inr (text, e) ↦ rw e (record {
      call = c;
      text = text;
      before = h;
      error = refl;
      whole = refl;
      answered = e;
      ok = g.ok;
      kept = g.kept;
      begun = rw g.made begun;
    })
  ]

  request-Removes :
      (c : Call) (xs : List RemoveContainerOp) (h : List Call)
      → IsBegun (with_removed c xs) all
      → KeepsNetwork c
      → Gone xs h
      → Removes (with_removed c xs) (request w c h)
  unfolding Removes
  request-Removes c xs h begun k g =
      request-Holds _ c xs h begun g
        (λ ok made. record { ok = ok; made = made; kept = (k, g.kept); begun = begun })

  act_when-Removes :
      (b : Bool) (c : Call) (xs : List RemoveContainerOp) (h : List Call)
      → with_removed c xs ≡ xs
      → KeepsNetwork c
      → Gone xs h
      → Removes xs (act_when b (request w c) h)
  unfolding act_when Removes
  act_when-Removes true c xs h same k g =
      subst (λ ys. Holds (λ _ k. Gone ys k) IsHalted (request w c h)) same
        (request-Removes c xs h (rw same g.begun) k g)
  act_when-Removes false c xs h same k g = g

  then-Removes :
      (m f : Act (Unit {0})) (xs ys : List RemoveContainerOp) (h : List Call)
      → Removes xs (m h)
      → ((k : List Call) → Gone xs k → Removes ys (f k))
      → Removes ys ((m >> f) h)
  unfolding Removes ◌>>◌ ◌>>=◌
  then-Removes m f xs ys h p next = after_run-Holds _ _ IsHalted (m h) (λ _. f) p (λ a k. next k)

  teardown_steps-Removes :
      (xs : List RemoveContainerOp) (steps : List PlannedStep) (h : List Call)
      → xs ++ containers_of team steps ≡ all
      → Gone xs h
      → Removes all (teardown_steps w team steps h)
  unfolding teardown_steps teardown_kind Removes
  teardown_steps-Removes xs [] h e g = subst (λ l. Gone l h) (sym (append-nil xs) ∙ e) g
  teardown_steps-Removes xs (step ∷ steps) h e g =
      let op : RemoveContainerOp = record { team = team; name = step.name } in
      let ys = xs ++ (op ∷ []) in
      let e' : ys ++ containers_of team steps ≡ all =
        append_assoc xs (op ∷ []) (containers_of team steps) ∙ e in
      then-Removes _ _ ys all h
        (then-Removes _ _ ys ys h
          (request-Removes (remove_container op) xs h (containers_of team steps, e') tt g)
          (λ k gk. act_when-Removes _ (remove_route team step.name) ys k refl tt gk))
        (λ k gk. teardown_steps-Removes ys steps k e' gk)

  ends :
      (steps : List PlannedStep)
      → containers_of team steps ≡ all
      → Holds (λ _ h. IsTornDown h) IsHalted (execute_teardown w team steps [])
  unfolding execute_teardown finalize_routing ◌>>◌ ◌>>=◌ Removes
  ends steps e =
      after_run-Holds (λ _ h. Gone all h) _ IsHalted (teardown_steps w team steps []) _
        (teardown_steps-Removes [] steps [] e
          (record { ok = tt; made = refl; kept = tt; begun = (all, refl) }))
        (λ _ h g.
          after_run-Holds (λ _ k. Gone all k) _ IsHalted (finalize_routing w h) _
            (act_when-Removes w.routed finalize all h refl tt g)
            (λ _ k gk.
              request-Holds _ (remove_network team) all k ([], append-nil all) gk
                (λ ok made. record { ok = ok; made = made; last = (k, refl, gk.kept) })))

-- When a teardown succeeds, no call has failed, it has removed the containers of all the steps in
-- their order, and the network of the team after every other call. When it fails, it has stopped at
-- the first call that failed, having asked to remove the containers of the first steps only, and
-- the network is still there unless its own removal is the call that failed.
pub execute_teardown-outcome :
    (w : World) (team : String) (steps : List PlannedStep)
    → Holds
        (λ _ h. IsTornDown w team (containers_of team steps) h)
        (IsHalted w team (containers_of team steps))
        (execute_teardown w team steps [])
execute_teardown-outcome w team steps = ends w team (containers_of team steps) steps refl
