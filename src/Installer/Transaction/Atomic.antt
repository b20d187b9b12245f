-- ===== src/Installer/Transaction/Atomic.antt =====
-- What stands at ROOT and at tx.original during the transactions of pkgs/installer/install.c.
use minidarwin.Prelude.{
  ◌≡◌, refl, Bool, true, Option, none, some, List, [], ◌∷◌, ◌++◌, ◌⊎◌, inl, Bytes, arith,
}
use minidarwin.Installer.Tree.{Node}
use minidarwin.Installer.Transaction.{
  Disk, Phase, stopped, sealed, aside, removing, Machine, Event, start, remove_dir, die, crash,
  recover_original, recover, rollback, check_root, start_process, rename_aside, rename_stage,
  die_hook, fail, proceed, step, complete_by, run, complete,
}

-- no process, and no transaction
abbrev pub at_rest : Node → Machine
at_rest t = record { phase = stopped; disk = record { root = some t; work = none } }

abbrev pub Member : Node → List Node → Type 0
Member t [] = ⊥
Member t (u ∷ us) = (t ≡ u) ⊎ Member t us

abbrev Holds : List Node → Option Node → Type 0
Holds ts none = ⊥
Holds ts (some t) = Member t ts

abbrev HoldsAny : List Node → Option Node → Type 0
HoldsAny ts none = Unit
HoldsAny ts (some t) = Member t ts

-- The tree that an install or its recovery goes by.
abbrev pub logical : Disk → Option Node
logical d = elim d.root [
  | some t ↦ some t
  | none ↦ elim d.work [ none ↦ none | some w ↦ w.original ]
]

abbrev staged : Disk → Option Node
staged d = elim d.work [ none ↦ none | some w ↦ w.stage ]

abbrev Invariant : List Node → Machine → Type 0
Invariant ts m = elim m.phase [
  | stopped ↦ Holds ts (logical m.disk)
  | aside ↦ (m.disk.root ≡ none) × Holds ts (logical m.disk) × HoldsAny ts (staged m.disk)
  | sealed ↦ Holds ts m.disk.root × HoldsAny ts (staged m.disk)
  | _ ↦ Holds ts m.disk.root
]

check_root-Invariant :
    (d : Disk) (ts : List Node) → Holds ts (logical d) → d.work ≡ none → Invariant ts (check_root d)
unfolding check_root
check_root-Invariant d ts h e = ground arith

start-Invariant :
    (name : Bytes) (renames : Bool) (d : Disk) (ts : List Node)
    → Holds ts (logical d)
    → Invariant ts (start_process name renames d)
unfolding start_process check_root recover recover_original
start-Invariant name renames d ts h = ground arith

fail-Invariant :
    (renames : Bool) (m : Machine) (ts : List Node) → Invariant ts m → Invariant ts (fail renames m)
unfolding fail die_hook rollback
fail-Invariant renames m ts h = ground arith

-- The statements of the program, by the phase.
proceed_at-Invariant :
    (name : Bytes) (e : Event) (p : Phase) (d : Disk) (ts : List Node)
    → Invariant ts (record { phase = p; disk = d })
    → Invariant
        (complete_by e (record { phase = p; disk = d }) ++ ts)
        (proceed name e (record { phase = p; disk = d }))
unfolding proceed rename_aside rename_stage complete_by
proceed_at-Invariant name (start renames) stopped d ts h = start-Invariant name renames d ts h
proceed_at-Invariant name remove_dir (removing true) d ts h =
    check_root-Invariant (record d { work = none }) ts (ground arith) refl
proceed_at-Invariant name e p d ts h = ground arith

-- A step keeps the invariant.
step-Invariant :
    (name : Bytes) (e : Event) (m : Machine) (ts : List Node)
    → Invariant ts m
    → Invariant (complete_by e m ++ ts) (step name e m)
unfolding step complete_by
step-Invariant name crash m ts h = ground arith
step-Invariant name (die renames) m ts h = fail-Invariant renames m ts h
step-Invariant name e m ts h = unfold complete_by in proceed_at-Invariant name e m.phase m.disk ts h

run-Invariant :
    (name : Bytes) (es : List Event) (m : Machine) (ts : List Node)
    → Invariant ts m
    → Invariant (complete name es m ts) (run name es m)
unfolding run complete
run-Invariant name [] m ts h = h
run-Invariant name (e ∷ es) m ts h =
    run-Invariant name es (step name e m) (complete_by e m ++ ts) (step-Invariant name e m ts h)

Holds-some :
    (ts : List Node) (o : Option Node) → Holds ts o → (u : Node) × (o ≡ some u) × Member u ts
Holds-some ts none h = elim h [ ]
Holds-some ts (some u) h = (u, refl, h)

Invariant-logical : (ts : List Node) (m : Machine) → Invariant ts m → Holds ts (logical m.disk)
Invariant-logical ts m h = ground arith

-- From a root that is in place, after any sequence of events, crashes and failures included, a
-- complete tree stands at ROOT, or at tx.original while nothing stands at ROOT: the tree of the
-- beginning, or one that was staged as publish began.
pub run-Member :
    (name : Bytes) (es : List Event) (t : Node)
    → (u : Node) × (logical (run name es (at_rest t)).disk ≡ some u)
      × Member u (complete name es (at_rest t) (t ∷ []))
run-Member name es t =
    let m = run name es (at_rest t) in
    let ts = complete name es (at_rest t) (t ∷ []) in
    Holds-some ts (logical m.disk)
      (Invariant-logical ts m (run-Invariant name es (at_rest t) (t ∷ []) (inl refl)))
