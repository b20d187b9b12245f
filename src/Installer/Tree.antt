-- ===== src/Installer/Tree.antt =====
-- The file system below a directory, as pkgs/installer sees it: directories, regular files and
-- symbolic links, by their names.
use minidarwin.Prelude.{Bool, true, false, List, [], ◌∷◌, Bytes, if◌then◌else◌}
use minidarwin.Installer.Paths.{str_eq}

mutual
  pub data Node : Type 0 where
    directory : Directory → Node
    regular : Bytes → Node
    symlink : Bytes → Node

  pub data Directory : Type 0 where
    empty : Directory
    entry : Bytes → Node → Directory → Directory

-- S_ISDIR(st.st_mode) of what lstat finds
abbrev pub is_dir : Node → Bool
is_dir (directory d) = true
is_dir (regular b) = false
is_dir (symlink b) = false

-- What `lstat` says of a path below a directory: ENOENT, an object, or ENOTDIR.
pub data Found : Type 0 where
  missing : Found
  found : Node → Found
  blocked : Found

unfoldable mutual
  pub find : Node → List Bytes → Found
  find (directory d) [] = found (directory d)
  find (directory d) (n ∷ ns) = find_in d n ns
  find (regular b) [] = found (regular b)
  find (regular b) (n ∷ ns) = blocked
  find (symlink b) [] = found (symlink b)
  find (symlink b) (n ∷ ns) = blocked

  pub find_in : Directory → Bytes → List Bytes → Found
  find_in empty n ns = missing
  find_in (entry m t d) n ns =
      let here = find t ns in let later = find_in d n ns in if str_eq m n then here else later
