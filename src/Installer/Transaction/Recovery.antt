-- ===== src/Installer/Transaction/Recovery.antt =====
-- How a transaction of pkgs/installer/install.c ends: by its failure, by the next process after a
-- crash, and by its success.
use minidarwin.Prelude.{
  ◌≡◌, ◌≢◌, refl, ap, ◌∙◌, Bool, true, false, Option, none, some, List, [], ◌∷◌, ◌++◌, ◌⊎◌, Bytes,
  All, arith,
}
use minidarwin.Installer.Tree.{Node, is_dir}
use minidarwin.Installer.Transaction.{
  Work, Disk, stopped, locked, marking, staging, sealed, aside, removing, Machine, Event, start,
  make_dir, write_marker, write_stage, seal, move_aside, swap_in, begin_removal, remove_some,
  remove_dir, die, is_marked, recover_original, recover, rollback, check_root, start_process,
  rename_aside, rename_stage, die_hook, fail, proceed, step, run,
}
use minidarwin.Installer.Transaction.Atomic.{logical, at_rest}

-- Outside the phase between the two renames, a step leaves what stands at ROOT, unless it is the
-- first rename of publish.
pub step-root :
    (name : Bytes) (e : Event) (m : Machine) (t : Node)
    → m.phase ≢ aside
    → m.disk.root ≡ some t
    → ((step name e m).disk.root ≡ some t) ⊎ ((e ≡ move_aside) × (m.phase ≡ sealed))
unfolding step proceed fail die_hook rollback rename_aside rename_stage start_process check_root
    recover recover_original
step-root name e m t p h = ground arith

run-append :
    (name : Bytes) (es fs : List Event) (m : Machine)
    → run name (es ++ fs) m ≡ run name fs (run name es m)
unfolding run
run-append name [] fs m = refl
run-append name (e ∷ es) fs m = run-append name es fs (step name e m)

-- What a process does before the second rename, failures and crashes excluded.
abbrev pub Forward : Event → Type 0
Forward e = elim e [
  | make_dir ↦ Unit
  | write_marker ↦ Unit
  | write_stage t ↦ Unit
  | seal ↦ Unit
  | move_aside ↦ Unit
  | _ ↦ ⊥
]

Undoable : Node → Machine → Type 0
Undoable t m = elim m.phase [
  | locked ↦ m.disk.root ≡ some t
  | marking ↦ m.disk.root ≡ some t
  | staging ↦ m.disk.root ≡ some t
  | sealed ↦ m.disk.root ≡ some t
  | aside ↦ (m.disk.root ≡ none) × (logical m.disk ≡ some t)
  | _ ↦ ⊥
]

step-Undoable :
    (name : Bytes) (t : Node) (e : Event) (m : Machine)
    → Forward e
    → Undoable t m
    → Undoable t (step name e m)
unfolding step proceed rename_aside Undoable
step-Undoable name t e m f u = ground arith

fail-Undoable : (t : Node) (m : Machine) → Undoable t m → (fail true m).disk.root ≡ some t
unfolding fail die_hook rollback Undoable
fail-Undoable t m u = ground arith

run-Undoable :
    (name : Bytes) (t : Node) (es : List Event) (m : Machine)
    → All Forward es
    → Undoable t m
    → Undoable t (run name es m)
unfolding run
run-Undoable name t [] m f u = u
run-Undoable name t (e ∷ es) m f u =
    run-Undoable name t es (step name e m) f.1 (step-Undoable name t e m f.0 u)

-- the state of a process that holds the lock
abbrev pub ready : Node → Machine
ready t = record { phase = locked; disk = record { root = some t; work = none } }

-- An install that fails anywhere before the second rename, and whose rollback can rename, leaves
-- the root it began with.
pub die_undoes :
    (name : Bytes) (t : Node) (es : List Event)
    → All Forward es
    → (run name (es ++ die true ∷ []) (ready t)).disk.root ≡ some t
unfolding run step
die_undoes name t es f = rw (run-append name es (die true ∷ []) (ready t)) (
    fail-Undoable t (run name es (ready t))
      (run-Undoable name t es (ready t) f (unfold Undoable in refl)))

-- What is left of tx.dir while `remove_tree` works, and the end of it.
abbrev pub IsRemoval : Event → Type 0
IsRemoval e = elim e [ remove_some marker stage original ↦ Unit | _ ↦ ⊥ ]

removal_step :
    (name : Bytes) (goes_on : Bool) (e : Event) (m : Machine) (r : Option Node)
    → IsRemoval e
    → m.phase ≡ removing goes_on
    → m.disk.root ≡ r
    → ((step name e m).phase ≡ removing goes_on) × ((step name e m).disk.root ≡ r)
unfolding step proceed
removal_step name goes_on e m r i p h = ground arith

removals_run :
    (name : Bytes) (goes_on : Bool) (es : List Event) (m : Machine) (r : Option Node)
    → All IsRemoval es
    → m.phase ≡ removing goes_on
    → m.disk.root ≡ r
    → ((run name es m).phase ≡ removing goes_on) × ((run name es m).disk.root ≡ r)
unfolding run
removals_run name goes_on [] m r i p h = (p, h)
removals_run name goes_on (e ∷ es) m r i p h =
    let (p', h') = removal_step name goes_on e m r i.0 p h in
    removals_run name goes_on es (step name e m) r i.1 p' h'

remove_dir_ends :
    (name : Bytes) (m : Machine) (t : Node)
    → m.phase ≡ removing false
    → m.disk.root ≡ some t
    → step name remove_dir m ≡ at_rest t
unfolding step proceed
remove_dir_ends name m t p h = cc

remove_dir_goes_on :
    (name : Bytes) (m : Machine) (t : Node)
    → m.phase ≡ removing true
    → m.disk.root ≡ some t
    → is_dir t ≡ true
    → step name remove_dir m ≡ ready t
unfolding step proceed check_root
remove_dir_goes_on name m t p h d = cc

start_restores :
    (name : Bytes) (d : Disk) (w : Work) (t : Node)
    → d.work ≡ some w
    → w.private_dir ≡ true
    → is_marked name w.marker ≡ true
    → logical d ≡ some t
    → is_dir t ≡ true
    → ((step name (start true) (record { phase = stopped; disk = d })).phase ≡ removing true)
      × ((step name (start true) (record { phase = stopped; disk = d })).disk.root ≡ some t)
unfolding step proceed start_process recover recover_original
start_restores name d w t e p k l h = ground arith

-- After a crash, where tx.dir is a private directory with the marker of this root and a directory
-- stands at ROOT, or at tx.original while nothing stands at ROOT, the next process whose rename
-- succeeds has it at ROOT and tx.dir removed, and may go on.
pub start_recovers :
    (name : Bytes) (d : Disk) (w : Work) (t : Node) (pieces : List Event)
    → d.work ≡ some w
    → w.private_dir ≡ true
    → is_marked name w.marker ≡ true
    → logical d ≡ some t
    → is_dir t ≡ true
    → All IsRemoval pieces
    → run name (start true ∷ pieces ++ remove_dir ∷ []) (record { phase = stopped; disk = d })
      ≡ ready t
unfolding run
start_recovers name d w t pieces e p k l h a =
    let m = step name (start true) (record { phase = stopped; disk = d }) in
    let (r, root) = start_restores name d w t e p k l h in
    let (r', root') = removals_run name true pieces m (some t) a r root in
    run-append name pieces (remove_dir ∷ []) m
    ∙ remove_dir_goes_on name (run name pieces m) t r' root' h

step_stuck :
    (name : Bytes) (e : Event) (d : Disk) (w : Work)
    → d.work ≡ some w
    → is_marked name w.marker ≡ false
    → step name e (record { phase = stopped; disk = d }) ≡ record { phase = stopped; disk = d }
unfolding step proceed start_process recover fail
step_stuck name e d w h k = ground arith

-- Where tx.dir stands without the marker of this root and no process runs, no sequence of events
-- changes the disk or gets a process past the recovery.
pub unmarked_stuck :
    (name : Bytes) (es : List Event) (d : Disk) (w : Work)
    → d.work ≡ some w
    → is_marked name w.marker ≡ false
    → run name es (record { phase = stopped; disk = d }) ≡ record { phase = stopped; disk = d }
unfolding run
unmarked_stuck name [] d w h k = refl
unmarked_stuck name (e ∷ es) d w h k =
    ap (run name es) (step_stuck name e d w h k) ∙ unmarked_stuck name es d w h k

removal_ends :
    (name : Bytes) (pieces : List Event) (m : Machine) (s : Node)
    → All IsRemoval pieces
    → m.phase ≡ removing false
    → m.disk.root ≡ some s
    → run name (pieces ++ remove_dir ∷ []) m ≡ at_rest s
unfolding run
removal_ends name pieces m s a p h =
    let (r, root) = removals_run name false pieces m (some s) a p h in
    run-append name pieces (remove_dir ∷ []) m ∙ remove_dir_ends name (run name pieces m) s r root

-- An install that nothing interrupts puts the tree that it has staged at ROOT, and removes tx.dir.
pub install_publishes :
    (name : Bytes) (t s : Node) (pieces : List Event)
    → All IsRemoval pieces
    → run name
        (make_dir
          ∷ write_marker
          ∷ write_stage s
          ∷ seal
          ∷ move_aside
          ∷ swap_in
          ∷ begin_removal
          ∷ (pieces ++ remove_dir ∷ []))
        (ready t)
      ≡ at_rest s
unfolding run step proceed rename_aside rename_stage
install_publishes name t s pieces a =
    removal_ends name pieces
      (record {
        phase = removing false;
        disk = record {
          root = some s;
          work =
              some (record {
                private_dir = true;
                marker = some name;
                stage = none;
                original = some t;
              });
        };
      })
      s a refl refl
