-- ===== src/Installer/Tests/Transactions.antt =====
-- A transaction that is interrupted, and the process that comes after.
use minidarwin.Prelude.{◌≡◌, refl, true, none, some, List, [], ◌∷◌, ◌++◌, ◌⊎◌, Bytes, arith}
use minidarwin.Installer.Paths.{str_eq}
use minidarwin.Installer.Tree.{Node, directory, empty, entry, regular}
use minidarwin.Installer.Transaction.{
  Disk, stopped, locked, sealed, Event, start, make_dir, write_marker, write_stage, seal,
  move_aside, swap_in, begin_removal, remove_some, remove_dir, die, crash, step, run, complete,
  proceed, start_process, check_root, rename_aside, rename_stage,
}
use minidarwin.Installer.Transaction.Atomic.{logical, at_rest, Member, run-Member}
use minidarwin.Installer.Transaction.Recovery.{
  step-root, ready, die_undoes, start_recovers, unmarked_stuck, install_publishes,
}

-- "/r"
abbrev name : Bytes
name = b'/' ∷ b'r' ∷ []

abbrev old_tree : Node
old_tree = directory empty

abbrev new_tree : Node
new_tree = directory (entry (b'a' ∷ []) (regular []) empty)

-- up to the first rename
abbrev half_way : List Event
half_way = make_dir ∷ write_marker ∷ write_stage new_tree ∷ seal ∷ move_aside ∷ []

abbrev crashed_disk : Disk
crashed_disk = record {
  root = none;
  work = some (record {
    private_dir = true;
    marker = some name;
    stage = some new_tree;
    original = some old_tree;
  });
}

crashes :
    run name (start true ∷ (half_way ++ crash ∷ [])) (at_rest old_tree)
    ≡ record { phase = stopped; disk = crashed_disk }
unfolding run step proceed start_process check_root rename_aside
crashes = refl

run-Member_example :
    (u : Node) × (logical (run name (start true ∷ (half_way ++ crash ∷ [])) (at_rest old_tree)).disk
      ≡ some u)
    × Member u
        (complete name (start true ∷ (half_way ++ crash ∷ [])) (at_rest old_tree) (old_tree ∷ []))
run-Member_example = run-Member name (start true ∷ (half_way ++ crash ∷ [])) old_tree

step-root_example :
    ((step name make_dir (ready old_tree)).disk.root ≡ some old_tree)
    ⊎ ((make_dir ≡ move_aside) × (locked ≡ sealed))
step-root_example = step-root name make_dir (ready old_tree) old_tree (λ e. cc e) refl

die_undoes_example :
    (run name (half_way ++ die true ∷ []) (ready old_tree)).disk.root ≡ some old_tree
die_undoes_example = die_undoes name old_tree half_way (omega arith)

start_recovers_example :
    run name
      (start true ∷ remove_some none (some new_tree) none ∷ remove_dir ∷ [])
      (record { phase = stopped; disk = crashed_disk })
    ≡ ready old_tree
unfolding str_eq
start_recovers_example =
    start_recovers name crashed_disk
      (record {
        private_dir = true;
        marker = some name;
        stage = some new_tree;
        original = some old_tree;
      })
      old_tree (remove_some none (some new_tree) none ∷ []) refl refl refl refl refl (tt, tt)

-- a crash of `remove_tree` behind the removal of the marker
abbrev stuck_disk : Disk
stuck_disk = record {
  root = some new_tree;
  work =
      some (record { private_dir = true; marker = none; stage = none; original = some old_tree });
}

gets_stuck :
    run name
      (start true
        ∷ (half_way
            ++ swap_in ∷ begin_removal ∷ remove_some none none (some old_tree) ∷ crash ∷ []))
      (at_rest old_tree)
    ≡ record { phase = stopped; disk = stuck_disk }
unfolding run step proceed start_process check_root rename_aside rename_stage
gets_stuck = refl

unmarked_stuck_example :
    run name (start true ∷ start true ∷ []) (record { phase = stopped; disk = stuck_disk })
    ≡ record { phase = stopped; disk = stuck_disk }
unmarked_stuck_example =
    unmarked_stuck name (start true ∷ start true ∷ []) stuck_disk
      (record { private_dir = true; marker = none; stage = none; original = some old_tree }) refl
      refl

install_publishes_example :
    run name
      (make_dir
        ∷ write_marker
        ∷ write_stage new_tree
        ∷ seal
        ∷ move_aside
        ∷ swap_in
        ∷ begin_removal
        ∷ remove_dir
        ∷ [])
      (ready old_tree)
    ≡ at_rest new_tree
install_publishes_example = install_publishes name old_tree new_tree [] tt
