-- ===== src/State/Deployments/Refines.antt =====
-- The store of deployments refines a map from teams and names to deployments.
use shrine.Prelude.{
  All, Bool, Bool-cases, List, Option, String, [], ap, arith, delete, eq_int, eq_pair, eq_str,
  false, if◌then◌else◌, inl, inr, insert, lookup, lookup-delete, lookup-insert, none, refl, some,
  sym, true, ◌&&◌, ◌==◌, ◌∙◌, ◌∷◌, ◌≡◌,
}
use shrine.State.Deployments.{
  Deployment, Deployments, Disk, Files, load_team, print_team, record_deployment, remove_deployment,
  save_team,
}
use shrine.State.Deployments.Lines.{IsStorable, IsStored, load_team-print_team}

-- The abstract state, and its two operations.
abbrev pub Spec : Type 0
Spec = String → String → Option Deployment

pub data Op : Type 0 where
  recorded : String → Deployment → Op
  removed : String → String → Op

unfoldable pub spec_step : Op → Spec → Spec
spec_step (recorded team d) spec t n = if team == t && d.name == n then some d else spec t n
spec_step (removed team name) spec t n = if team == t && name == n then none else spec t n

-- An operation of the store with the outcomes of the file system, and whether it returns no error.
unfoldable pub store_step : Disk → Op → Files → Files × Bool
unfolding record_deployment remove_deployment
store_step disk (recorded team d) files = record_deployment disk team d files
store_step disk (removed team name) files = remove_deployment disk team name files

-- What the files say.
abbrev pub view : Files → Spec
view files team name = lookup name (load_team (files team))

-- The files of every team hold what the store can write.
abbrev pub IsClean : Files → Type 0
IsClean files = (team : String) → IsStored (load_team (files team))

abbrev pub IsStorableOp : Op → Type 0
IsStorableOp (recorded team d) = IsStorable d
IsStorableOp (removed team name) = Unit {0}

-- The abstract state after an operation that returns no error, and the same state after an error.
abbrev pub spec_after : Bool → Op → Spec → Spec
spec_after true op spec = spec_step op spec
spec_after false op spec = spec

-- What one operation does to the files.
pub record Steps (op : Op) (files next : Files) (ok : Bool) : Type 0 where
  pub clean : IsClean next
  pub shows : (t n : String) → view next t n ≡ spec_after ok op (view files) t n

insert-IsStored :
    (d : Deployment) (m : Deployments) → IsStorable d → IsStored m → IsStored (insert d.name d m)
insert-IsStored d m s h n e found = elim (Bool-cases (d.name == n)) [
  | inl same ↦
      let is_d : d ≡ e = ground (arith, found, lookup-insert n d.name d m, same) in
      rw (← is_d) (ground (arith, same), s)
  | inr other ↦ h n e (ground (arith, found, lookup-insert n d.name d m, other))
]

delete-IsStored : (name : String) (m : Deployments) → IsStored m → IsStored (delete name m)
delete-IsStored name m h n e found = h n e (ground (arith, found, lookup-delete n name m))

-- The file of one team written again.
abbrev rewritten : String → Deployments → Files → Files
rewritten team m files t = if team == t then some (print_team m) else files t

view-rewritten :
    (team : String) (m : Deployments) (files : Files)
    → IsStored m
    → (t n : String)
    → view (rewritten team m files) t n ≡ (if team == t then lookup n m else view files t n)
view-rewritten team m files stored t n = elim (Bool-cases (team == t)) [
  | inl same ↦ rw same (load_team-print_team m stored n)
  | inr other ↦ rw other refl
]

rewritten-IsClean :
    (team : String) (m : Deployments) (files : Files)
    → IsClean files
    → IsStored m
    → IsClean (rewritten team m files)
rewritten-IsClean team m files clean stored t n d found =
    let shown : (if team == t then lookup n m else view files t n) ≡ some d =
      sym (view-rewritten team m files stored t n) ∙ found in
    elim (Bool-cases (team == t)) [
      | inl same ↦ stored n d (ground (arith, shown, same))
      | inr other ↦ clean t n d (ground (arith, shown, other))
    ]

-- Saving a map of a team that shows what the abstract operation says.
saved-Steps :
    (disk : Disk) (op : Op) (team : String) (m : Deployments) (files : Files)
    → IsClean files
    → IsStored m
    → ((t n : String)
        → (if team == t then lookup n m else view files t n) ≡ spec_step op (view files) t n)
    → let (next, ok) = save_team disk team m files in Steps op files next ok
unfolding save_team
saved-Steps disk op team m files clean stored same = elim (Bool-cases disk.writable) [
  | inl yes_written ↦ rw yes_written (record {
    clean = rewritten-IsClean team m files clean stored;
    shows = λ t n. view-rewritten team m files stored t n ∙ same t n;
  })
  | inr lost ↦ rw lost (record { clean = clean; shows = λ t n. refl })
]

eq_of_test : (s t : String) → (s == t) ≡ true → s ≡ t
eq_of_test s t h = ground arith

recorded-shows :
    (team : String) (d : Deployment) (files : Files) (t n : String)
    → (if team == t then lookup n (insert d.name d (load_team (files team))) else view files t n)
      ≡ spec_step (recorded team d) (view files) t n
unfolding spec_step
recorded-shows team d files t n = elim (Bool-cases (team == t)) [
  | inl same ↦
      rw (← eq_of_test team t same)
        (ground (arith, lookup-insert n d.name d (load_team (files team))))
  | inr other ↦ rw other refl
]

removed-shows :
    (team name : String) (files : Files) (t n : String)
    → (if team == t then lookup n (delete name (load_team (files team))) else view files t n)
      ≡ spec_step (removed team name) (view files) t n
unfolding spec_step
removed-shows team name files t n = elim (Bool-cases (team == t)) [
  | inl same ↦
      rw (← eq_of_test team t same) (ground (arith, lookup-delete n name (load_team (files team))))
  | inr other ↦ rw other refl
]

-- An operation on files that hold what the store can write does to their view what the abstract
-- operation does when it returns no error, and nothing when it returns an error; the files still
-- hold what the store can write.
pub store_step-Steps :
    (disk : Disk) (op : Op) (files : Files)
    → IsClean files
    → IsStorableOp op
    → let (next, ok) = store_step disk op files in Steps op files next ok
unfolding store_step record_deployment remove_deployment
store_step-Steps disk (recorded team d) files clean s = elim (Bool-cases disk.readable) [
  | inl yes_read ↦ rw yes_read (
      saved-Steps disk (recorded team d) team (insert d.name d (load_team (files team))) files clean
        (insert-IsStored d (load_team (files team)) s (clean team)) (recorded-shows team d files))
  | inr unread ↦ rw unread (record { clean = clean; shows = λ t n. refl })
]
store_step-Steps disk (removed team name) files clean s = elim (Bool-cases disk.readable) [
  | inl yes_read ↦ rw yes_read (
      saved-Steps disk (removed team name) team (delete name (load_team (files team))) files clean
        (delete-IsStored name (load_team (files team)) (clean team))
        (removed-shows team name files))
  | inr unread ↦ rw unread (record { clean = clean; shows = λ t n. refl })
]

-- A sequence of operations, each with the outcomes of the file system.
abbrev pub run : List (Disk × Op) → Files → Files
run [] files = files
run ((disk, op) ∷ ops) files = run ops (store_step disk op files).0

-- The abstract run: an operation counts when the file system lets it read and write.
abbrev pub spec_run : List (Disk × Op) → Spec → Spec
spec_run [] spec = spec
spec_run ((disk, op) ∷ ops) spec =
    spec_run ops (spec_after (disk.readable && disk.writable) op spec)

store_step-ok :
    (disk : Disk) (op : Op) (files : Files)
    → (store_step disk op files).1 ≡ (disk.readable && disk.writable)
unfolding store_step record_deployment remove_deployment save_team
store_step-ok disk (recorded team d) files = ground arith
store_step-ok disk (removed team name) files = ground arith

spec_step-cong :
    (op : Op) (a b : Spec)
    → ((t n : String) → a t n ≡ b t n)
    → (t n : String) → spec_step op a t n ≡ spec_step op b t n
unfolding spec_step
spec_step-cong (recorded team d) a b e t n = ground (arith, e t n)
spec_step-cong (removed team name) a b e t n = ground (arith, e t n)

spec_after-cong :
    (ok : Bool) (op : Op) (a b : Spec)
    → ((t n : String) → a t n ≡ b t n)
    → (t n : String) → spec_after ok op a t n ≡ spec_after ok op b t n
spec_after-cong true op a b e = spec_step-cong op a b e
spec_after-cong false op a b e = e

spec_run-cong :
    (ops : List (Disk × Op)) (a b : Spec)
    → ((t n : String) → a t n ≡ b t n)
    → (t n : String) → spec_run ops a t n ≡ spec_run ops b t n
spec_run-cong [] a b e = e
spec_run-cong ((disk, op) ∷ ops) a b e =
    spec_run-cong ops _ _ (spec_after-cong (disk.readable && disk.writable) op a b e)

-- From files that hold what the store can write, any sequence of recordings of deployments that fit
-- on a line and of removals shows at the end what the same sequence makes of the abstract map from
-- teams and names, where the operations that the file system fails change nothing.
pub run-Refines :
    (ops : List (Disk × Op)) (files : Files)
    → IsClean files
    → All (λ r. IsStorableOp r.1) ops
    → (t n : String) → view (run ops files) t n ≡ spec_run ops (view files) t n
run-Refines [] files clean s t n = refl
run-Refines ((disk, op) ∷ ops) files clean s t n =
    let step = store_step-Steps disk op files clean s.0 in
    run-Refines ops (store_step disk op files).0 step.clean s.1 t n
    ∙ spec_run-cong ops _ _
        (λ u m.
          step.shows u m
          ∙ ap (λ ok. spec_after ok op (view files) u m) (store_step-ok disk op files))
        t n
