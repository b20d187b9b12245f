-- ===== src/Installer/Resolve/Open.antt =====
-- Paths of names in a tree of files, each of whose directories is open, for `resolve_target_path` of
-- pkgs/installer/install.c.
use mathlib.Core.List.{append_assoc, append-nil}
use minidarwin.Prelude.{
  ◌≡◌, ◌≢◌, refl, sym, true, false, ◌||◌, List, [], ◌∷◌, ◌++◌, Bytes, All, arith,
}
use minidarwin.Installer.Paths.{is_empty, str_eq, dot, dot_dot}
use minidarwin.Installer.Paths.Components.{NoSlash}
use minidarwin.Installer.Paths.Prefix.{str_eq_iff}
use minidarwin.Installer.Tree.{Node, symlink, is_dir, Found, missing, found, blocked, find}
use minidarwin.Installer.Resolve.Ends.{is_empty-false}
use minidarwin.Installer.Resolve.{first_name, parent}

-- A directory, or nothing yet.
abbrev pub IsOpen : Found → Type 0
IsOpen f = elim f [ missing ↦ Unit | found t ↦ is_dir t ≡ true | blocked ↦ ⊥ ]

abbrev pub NotLink : Found → Type 0
NotLink f = elim f [ missing ↦ Unit | found t ↦ elim t [ symlink b ↦ ⊥ | _ ↦ Unit ] | blocked ↦ ⊥ ]

-- Every path before the last name of ns, below the path of the names `before`.
abbrev pub AllOpen : Node → List Bytes → List Bytes → Type 0
AllOpen t before [] = Unit
AllOpen t before (n ∷ ns) = IsOpen (find t before) × AllOpen t (before ++ n ∷ []) ns

abbrev pub IsPlain : Bytes → Type 0
IsPlain n = (n ≢ []) × (n ≢ dot) × (n ≢ dot_dot) × NoSlash n

pub AllOpen-append :
    (t : Node) (before ns : List Bytes) (n : Bytes)
    → AllOpen t before ns
    → IsOpen (find t (before ++ ns))
    → AllOpen t before (ns ++ n ∷ [])
AllOpen-append t before [] n a o = (rw (sym (append-nil before)) o, tt)
AllOpen-append t before (m ∷ ns) n a o =
    (a.0, AllOpen-append t (before ++ m ∷ []) ns n a.1 (rw (append_assoc before (m ∷ []) ns) o))

pub AllOpen-parent :
    (t : Node) (before ns : List Bytes)
    → ns ≢ []
    → AllOpen t before ns
    → AllOpen t before (parent ns) × IsOpen (find t (before ++ parent ns))
unfolding parent
AllOpen-parent t before [] e a = absurd (e refl)
AllOpen-parent t before (n ∷ []) e a = (tt, rw (append-nil before) a.0)
AllOpen-parent t before (n ∷ m ∷ ns) e a =
    let (x, y) = AllOpen-parent t (before ++ n ∷ []) (m ∷ ns) (λ x. cc x) a.1 in
    ((a.0, x), rw (sym (append_assoc before (n ∷ []) (parent (m ∷ ns)))) y)

pub parent-IsPlain : (ns : List Bytes) → All IsPlain ns → All IsPlain (parent ns)
unfolding parent
parent-IsPlain [] h = tt
parent-IsPlain (n ∷ []) h = tt
parent-IsPlain (n ∷ m ∷ ns) h = (h.0, parent-IsPlain (m ∷ ns) h.1)

pub first_name-NoSlash : (s : Bytes) → NoSlash (first_name s)
unfolding first_name
first_name-NoSlash [] = tt
first_name-NoSlash (c ∷ s) = ground (arith, first_name-NoSlash s)

differs : (s t : Bytes) → str_eq s t ≡ false → s ≢ t
differs s t h e = ground (arith, (str_eq_iff s t).1 e, h)

pub plain :
    (n : Bytes)
    → (is_empty n || str_eq n dot) ≡ false
    → str_eq n dot_dot ≡ false
    → NoSlash n
    → IsPlain n
plain n h k s =
    let a : str_eq n dot ≡ false = ground arith in
    (is_empty-false n (ground arith), differs n dot a, differs n dot_dot k, s)
