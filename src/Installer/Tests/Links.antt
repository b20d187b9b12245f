-- ===== src/Installer/Tests/Links.antt =====
-- A root with a chain of links, and a link to itself.
use minidarwin.Prelude.{◌≡◌, ◌≢◌, refl, true, false, [], ◌∷◌, Bytes}
use minidarwin.Installer.Result.{ok, err, too_many_symlinks, out_of_fuel}
use minidarwin.Installer.Paths.{str_eq, path_join, ends_in_slash, skip_slashes}
use minidarwin.Installer.Tree.{Node, directory, empty, entry, symlink, find}
use minidarwin.Installer.Resolve.{
  first_name, after_slash, parent, Target, splice, follow_link, enter, go_up, go_into, advance,
  walk, resolve_target_path,
}
use minidarwin.Installer.Resolve.Ends.{resolve_target_path_ends}
use minidarwin.Installer.Resolve.Inside.{IsResolved, resolve_target_path-IsResolved}

-- a/l is a link to "../b", and c to "c"
abbrev tree : Node
tree = directory (
    entry (b'a' ∷ [])
      (directory (entry (b'l' ∷ []) (symlink (b'.' ∷ b'.' ∷ b'/' ∷ b'b' ∷ [])) empty))
      (entry (b'b' ∷ []) (directory empty) (entry (b'c' ∷ []) (symlink (b'c' ∷ [])) empty)))

abbrev target : Target
target = record { tree = tree; base = b'/' ∷ b'r' ∷ []; follow_last = true; live = false }

-- "a/l/x"
abbrev through : Bytes
through = b'a' ∷ b'/' ∷ b'l' ∷ b'/' ∷ b'x' ∷ []

through_runs : resolve_target_path target through ≡ ok ((b'b' ∷ []) ∷ (b'x' ∷ []) ∷ [])
unfolding resolve_target_path walk advance first_name after_slash str_eq go_up go_into enter
    follow_link splice parent path_join ends_in_slash skip_slashes find
through_runs = refl

loop_runs : resolve_target_path target (b'c' ∷ []) ≡ err too_many_symlinks
unfolding resolve_target_path walk advance first_name after_slash str_eq go_up go_into enter
    follow_link splice parent path_join ends_in_slash skip_slashes find
loop_runs = refl

resolve_target_path_ends_example : resolve_target_path target (b'c' ∷ []) ≢ err out_of_fuel
resolve_target_path_ends_example = resolve_target_path_ends target (b'c' ∷ [])

resolve_target_path-IsResolved_example : IsResolved target ((b'b' ∷ []) ∷ (b'x' ∷ []) ∷ [])
resolve_target_path-IsResolved_example =
    resolve_target_path-IsResolved target through ((b'b' ∷ []) ∷ (b'x' ∷ []) ∷ []) refl through_runs
