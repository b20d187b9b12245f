-- ===== src/Installer/Resolve.antt =====
-- `resolve_target_path` of pkgs/installer/install.c on a tree of files. The path that is done is the
-- list of its names.
pub mod Ends
pub mod Open
pub mod Inside
use minidarwin.Prelude.{
  ℕ, zero, suc, ◌+◌, ◌-◌, ◌*◌, ◌≡◌, Bool, true, false, not, ◌&&◌, ◌||◌, Option, none, some, List,
  [], ◌∷◌, ◌++◌, Bytes, length, take, ltb, leb, ◌==◌, if◌then◌else◌,
}
use minidarwin.Installer.Result.{
  Fault, leaves_root, too_many_symlinks, absolute_symlink, not_a_directory, stat_failed,
  out_of_fuel, Result, ok, err, ◌>>=◌, ◌>>◌, die_if,
}
use minidarwin.Installer.Paths.{
  path_max, is_empty, str_eq, dot, dot_dot, path_join, starts_with_slash, skip_slashes,
}
use minidarwin.Installer.Paths.Components.{join}
use minidarwin.Installer.Tree.{
  Node, directory, regular, symlink, is_dir, Found, missing, found, blocked, find,
}

-- the bytes before the first '/', and those behind it
unfoldable pub first_name : Bytes → Bytes
first_name [] = []
first_name (c ∷ s) = let more = first_name s in if c == b'/' then [] else c ∷ more

unfoldable pub after_slash : Bytes → Bytes
after_slash [] = []
after_slash (c ∷ s) = let more = after_slash s in if c == b'/' then s else more

-- `path_parent` of the path of these names
unfoldable pub parent : List Bytes → List Bytes
parent [] = []
parent (n ∷ []) = []
parent (n ∷ m ∷ ns) = n ∷ parent (m ∷ ns)

-- The arguments that the loop does not change: the root, its path, and the two flags.
pub record Target : Type 0 where
  pub tree : Node
  pub base : Bytes
  pub follow_last : Bool
  pub live : Bool

pub record Walk : Type 0 where
  pub done : List Bytes
  pub todo : Bytes
  pub hops : ℕ

abbrev pub limit_symlink_hops : ℕ
limit_symlink_hops = 32

-- readlink into a buffer of PATH_MAX bytes, with room for the NUL
abbrev pub read_link : Bytes → Bytes
read_link = take (path_max - 1)

-- `done` and the text of the link that goes before the rest, once the link may be followed
unfoldable pub splice : Walk → Bytes → List Bytes → Bytes → Result Walk
splice w rest done relative = do
  spliced ← path_join relative rest
  ok (record { done = done; todo = spliced; hops = w.hops + 1 })

-- What follows the test that a symbolic link is followed.
unfoldable pub follow_link : Target → Walk → Bytes → Bytes → Result Walk
follow_link t w rest text = do
  die_if (ltb limit_symlink_hops (w.hops + 1)) too_many_symlinks
  (if starts_with_slash text
      then (if t.live then splice w rest [] (skip_slashes text) else err absolute_symlink)
      else splice w rest w.done text)

-- The end of the loop's body, once it is known what stands at the path `next`.
unfoldable pub enter : Target → Walk → Bytes → List Bytes → Found → Result Walk
enter t w rest next blocked = err stat_failed
enter t w rest next missing = ok (record { done = next; todo = rest; hops = w.hops })
enter t w rest next (found (symlink link)) =
    if not (is_empty rest) || t.follow_last
    then follow_link t w rest (read_link link)
    else ok (record { done = next; todo = rest; hops = w.hops })
enter t w rest next (found (regular b)) =
    if not (is_empty rest)
    then err not_a_directory
    else ok (record { done = next; todo = rest; hops = w.hops })
enter t w rest next (found (directory d)) = ok (record { done = next; todo = rest; hops = w.hops })

-- ".."
unfoldable pub go_up : Walk → Bytes → Result Walk
go_up w rest = do
  die_if (elim w.done [ [] ↦ true | n ∷ ns ↦ false ]) leaves_root
  ok (record { done = parent w.done; todo = rest; hops = w.hops })

-- any other name
unfoldable pub go_into : Target → Walk → Bytes → Bytes → Result Walk
go_into t w rest name = do
  let next = w.done ++ name ∷ []
  text ← path_join (join w.done) name
  host ← path_join t.base (join next)
  enter t w rest next (find t.tree next)

-- The body of the loop.
unfoldable pub advance : Target → Walk → Result Walk
advance t w =
    let name = first_name w.todo in
    let rest = after_slash w.todo in
    if is_empty name || str_eq name dot
    then ok (record { done = w.done; todo = rest; hops = w.hops })
    else if str_eq name dot_dot
    then go_up w rest
    else go_into t w rest name

unfoldable pub walk : ℕ → Target → Walk → Result (List Bytes)
walk zero t w = err out_of_fuel
walk (suc fuel) t w = if is_empty w.todo then ok w.done else (do w' ← advance t w; walk fuel t w')

-- Every turn either makes the text that is left shorter, or follows a link, of which there are
-- at most 32 and which leave at most PATH_MAX bytes.
unfoldable pub resolve_target_path : Target → Bytes → Result (List Bytes)
resolve_target_path t rel =
    walk (suc (length rel + limit_symlink_hops * (length rel + path_max + 1))) t
      (record { done = []; todo = rel; hops = 0 })
