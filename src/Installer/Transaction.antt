-- ===== src/Installer/Transaction.antt =====
-- pkgs/installer/install.c: the transaction of an install into an offline root. ROOT is renamed to
-- ROOT.mdpkg-transaction/original, and ROOT.mdpkg-transaction/new to ROOT.
pub mod Atomic
pub mod Recovery
use minidarwin.Prelude.{
  ◌≡◌, Bool, true, false, not, ◌&&◌, Option, none, some, List, [], ◌∷◌, ◌++◌, Bytes, if◌then◌else◌,
}
use minidarwin.Installer.Result.{
  Fault, unsafe_transaction, other_root, cannot_restore, unsafe_root, Result, ok, err, ◌>>=◌, ◌>>◌,
  die_if,
}
use minidarwin.Installer.Paths.{str_eq}
use minidarwin.Installer.Tree.{Node, directory, is_dir, empty}

-- tx.dir: whether it is a directory of the user with mode 0700; its files "target", "new" and
-- "original"
pub record Work : Type 0 where
  pub private_dir : Bool
  pub marker : Option Bytes
  pub stage : Option Node
  pub original : Option Node

-- What stands at tx.root and at tx.dir.
pub record Disk : Type 0 where
  pub root : Option Node
  pub work : Option Work

abbrev pub is_marked : Bytes → Option Bytes → Bool
is_marked name none = false
is_marked name (some target) = str_eq target name

-- The renames of `rollback` and `recover`, from tx.original to tx.root.
abbrev pub restored : Work → Node → Disk
restored w t = record { root = some t; work = some (record w { original = none }) }

unfoldable pub recover_original : Bool → Disk → Work → Result Disk
recover_original renames d w = elim w.original [
  | none ↦ ok d
  | some t ↦ elim d.root [
    | none ↦ if renames then ok (restored w t) else err cannot_restore
    | some r ↦ if is_dir r then ok d else err unsafe_root
  ]
]

-- `recover` up to the removal of tx.dir. `renames` says whether the rename succeeds.
unfoldable pub recover : Bytes → Bool → Disk → Result Disk
recover name renames d = elim d.work [
  | none ↦ err unsafe_transaction
  | some w ↦ do
    die_if (not w.private_dir) unsafe_transaction
    die_if (not (is_marked name w.marker)) other_root
    recover_original renames d w
]

-- `rollback` up to the removal of tx.dir: the disk, and whether the removal follows.
unfoldable pub rollback : Bool → Bool → Disk → Disk × Bool
rollback published renames d = elim d.work [
  | none ↦ (d, true)
  | some w ↦ elim w.original [
    | none ↦ (d, true)
    | some t ↦ elim d.root [
      | none ↦ if published then (d, true) else if renames then (restored w t, true) else (d, false)
      | some r ↦ (d, true)
    ]
  ]
]

-- Where the process is in `install_package` and `publish`.
pub data Phase : Type 0 where
  -- there is no process
  stopped : Phase
  -- the root is locked, and tx.dir does not exist
  locked : Phase
  -- tx.dir has been made, and the marker not yet written
  marking : Phase
  -- the copy of the root is made and changed
  staging : Phase
  -- in `publish`, before the first rename, between the two, and behind the second
  sealed : Phase
  aside : Phase
  published : Phase
  -- remove_tree(tx.dir); then the install goes on, or the process ends
  removing : Bool → Phase

pub record Machine : Type 0 where
  pub phase : Phase
  pub disk : Disk

-- What may happen next. An event that the phase does not allow changes nothing.
pub data Event : Type 0 where
  -- a new process: lock_and_recover
  start : Bool → Event
  make_dir write_marker : Event
  -- stage_copy, the hooks and `extract` leave this at tx.stage
  write_stage : Node → Event
  seal move_aside swap_in begin_removal : Event
  -- remove_tree has left these of tx.dir, in part; and the rmdir at its end
  remove_some : Option Bytes → Option Node → Option Node → Event
  remove_dir : Event
  -- `die`, with whether the rename of its hook succeeds; and the end of the process at any time
  die : Bool → Event
  crash : Event

abbrev pub with_work : Machine → (Work → Machine) → Machine
with_work m f = elim m.disk.work [ none ↦ m | some w ↦ f w ]

-- The last test of `lock_and_recover`. Where it refuses the permissions of a directory at ROOT, the
-- machine stops by a call of `die`.
unfoldable pub check_root : Disk → Machine
check_root d = elim d.root [
  | none ↦ record { phase = stopped; disk = d }
  | some r ↦ record { phase = if is_dir r then locked else stopped; disk = d }
]

-- `lock_and_recover`, from the moment that the lock is held
unfoldable pub start_process : Bytes → Bool → Disk → Machine
start_process name renames d = elim d.work [
  | none ↦ check_root d
  | some w ↦ elim (recover name renames d) [
    | err fault ↦ record { phase = stopped; disk = d }
    | ok d' ↦ record { phase = removing true; disk = d' }
  ]
]

-- rename(tx.root, tx.original)
unfoldable pub rename_aside : Machine → Machine
rename_aside m = with_work m (λ w. elim m.disk.root [
  | none ↦ m
  | some t ↦ elim w.original [
    | none ↦ record {
      phase = aside;
      disk = record { root = none; work = some (record w { original = some t }) };
    }
    | some o ↦ m
  ]
])

-- rename(tx.stage, tx.root)
unfoldable pub rename_stage : Machine → Machine
rename_stage m = with_work m (λ w. elim w.stage [
  | none ↦ m
  | some s ↦ record {
    phase = published;
    disk = record { root = some s; work = some (record w { stage = none }) };
  }
])

-- `die` once `die_hook` is set, and before the removal
unfoldable pub die_hook : Bool → Bool → Disk → Machine
die_hook was_published renames d =
    let (d', removes) = rollback was_published renames d in
    record { phase = if removes then removing false else stopped; disk = d' }

unfoldable pub fail : Bool → Machine → Machine
fail renames m = elim m.phase [
  | stopped ↦ m
  | locked ↦ record m { phase = stopped }
  | marking ↦ die_hook false renames m.disk
  | staging ↦ die_hook false renames m.disk
  | sealed ↦ die_hook false renames m.disk
  | aside ↦ die_hook false renames m.disk
  | published ↦ die_hook true renames m.disk
  | removing goes_on ↦ record m { phase = stopped }
]

-- a change inside tx.dir
abbrev pub change_work : Machine → Phase → (Work → Work) → Machine
change_work m p f =
    with_work m (λ w. record { phase = p; disk = record m.disk { work = some (f w) } })

abbrev pub new_work : Work
new_work = record { private_dir = true; marker = none; stage = none; original = none }

-- The statements of `install_package`, `publish` and `remove_tree` in their order.
unfoldable pub proceed : Bytes → Event → Machine → Machine
proceed name e m = elim m.phase [
  | stopped ↦ elim e [ start renames ↦ start_process name renames m.disk | _ ↦ m ]
  | locked ↦ elim e [
    | make_dir ↦ record { phase = marking; disk = record m.disk { work = some new_work } }
    | _ ↦ m
  ]
  | marking ↦ elim e [
    | write_marker ↦ change_work m staging (λ w. record w { marker = some name })
    | _ ↦ m
  ]
  | staging ↦ elim e [
    | write_stage t ↦ change_work m staging (λ w. record w { stage = some t })
    | seal ↦ record m { phase = sealed }
    | _ ↦ m
  ]
  | sealed ↦ elim e [ move_aside ↦ rename_aside m | _ ↦ m ]
  | aside ↦ elim e [ swap_in ↦ rename_stage m | _ ↦ m ]
  | published ↦ elim e [ begin_removal ↦ record m { phase = removing false } | _ ↦ m ]
  | removing goes_on ↦ elim e [
    | remove_some marker stage original ↦
        change_work m m.phase
          (λ w. record w { marker = marker; stage = stage; original = original })
    | remove_dir ↦
        let d = record m.disk { work = none } in
        if goes_on then check_root d else record { phase = stopped; disk = d }
    | _ ↦ m
  ]
]

unfoldable pub step : Bytes → Event → Machine → Machine
step name e m = elim e [
  | crash ↦ record m { phase = stopped }
  | die renames ↦ fail renames m
  | other ↦ proceed name other m
]

-- The trees that have been complete: that of the beginning, and what is staged as `publish` begins.
unfoldable pub complete_by : Event → Machine → List Node
complete_by e m = elim e [
  | seal ↦ elim m.phase [
    | staging ↦ elim m.disk.work [
      | none ↦ []
      | some w ↦ elim w.stage [ none ↦ [] | some s ↦ s ∷ [] ]
    ]
    | _ ↦ []
  ]
  | _ ↦ []
]

unfoldable pub run : Bytes → List Event → Machine → Machine
run name [] m = m
run name (e ∷ es) m = run name es (step name e m)

unfoldable pub complete : Bytes → List Event → Machine → List Node → List Node
complete name [] m trees = trees
complete name (e ∷ es) m trees = complete name es (step name e m) (complete_by e m ++ trees)
