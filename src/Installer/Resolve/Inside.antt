-- ===== src/Installer/Resolve/Inside.antt =====
-- The path that `resolve_target_path` of pkgs/installer/install.c returns.
use minidarwin.Prelude.{
  ℕ, zero, suc, ◌+◌, ◌*◌, ◌≡◌, ◌≢◌, refl, Bool, true, false, not, ◌||◌, List, [], ◌∷◌, ◌++◌, Bytes,
  All, All-append, length, ltb, arith,
}
use minidarwin.Installer.Result.{
  Fault, ok, err, Outcome, bind-Outcome, die-Outcome, if-Outcome, Outcome-ok, too_many_symlinks,
  leaves_root, not_a_directory, absolute_symlink,
}
use minidarwin.Installer.Paths.{
  path_max, is_empty, str_eq, dot, dot_dot, path_join, starts_with_slash, skip_slashes,
}
use minidarwin.Installer.Paths.Components.{join}
use minidarwin.Installer.Tree.{
  Node, directory, regular, symlink, is_dir, Found, missing, found, blocked, find,
}
use minidarwin.Installer.Resolve.Open.{
  IsOpen, NotLink, AllOpen, IsPlain, AllOpen-append, AllOpen-parent, parent-IsPlain,
  first_name-NoSlash, plain,
}
use minidarwin.Installer.Resolve.Ends.{is_empty-false}
use minidarwin.Installer.Resolve.{
  first_name, after_slash, parent, Target, Walk, limit_symlink_hops, read_link, after_slash, splice,
  follow_link, enter, go_up, go_into, advance, walk, resolve_target_path,
}

-- What is known of the object at the path that is done.
abbrev pub LastOk : Bool → Bytes → Found → Type 0
LastOk follow rest f = elim rest [
  | [] ↦ elim follow [ true ↦ NotLink f | false ↦ Unit ]
  | c ∷ s ↦ IsOpen f
]

abbrev Anything : Fault → Type 0
Anything fault = Unit

Good : Target → Walk → Type 0
Good t w =
    All IsPlain w.done × AllOpen t.tree [] w.done × LastOk t.follow_last w.todo (find t.tree w.done)

LastOk-open : (follow : Bool) (rest : Bytes) (f : Found) → IsOpen f → LastOk follow rest f
LastOk-open follow rest f o = ground arith

find_root : (t : Node) → is_dir t ≡ true → IsOpen (find t [])
unfolding find
find_root t d = ground arith

join-Anything : (a b : Bytes) → Outcome Anything (λ r. Unit) (path_join a b)
unfolding path_join
join-Anything a b = ground arith

splice-Good :
    (t : Target) (w : Walk) (rest relative : Bytes) (done : List Bytes)
    → All IsPlain done
    → AllOpen t.tree [] done
    → IsOpen (find t.tree done)
    → Outcome Anything (Good t) (splice w rest done relative)
unfolding splice Good
splice-Good t w rest relative done p a o =
    bind-Outcome Anything (λ s. Unit) (Good t) (path_join relative rest) _
      (join-Anything relative rest)
      (λ s u. (p, a, LastOk-open t.follow_last s (find t.tree done) o))

follow_link-Good :
    (t : Target) (w : Walk) (rest text : Bytes)
    → is_dir t.tree ≡ true
    → All IsPlain w.done
    → AllOpen t.tree [] w.done
    → IsOpen (find t.tree w.done)
    → Outcome Anything (Good t) (follow_link t w rest text)
unfolding follow_link
follow_link-Good t w rest text d p a o =
    die-Outcome Anything too_many_symlinks (ltb limit_symlink_hops (w.hops + 1)) _ (Good t) tt
      (λ few.
        if-Outcome Anything (starts_with_slash text) _ _ (Good t)
          (λ x.
            if-Outcome Anything t.live (splice w rest [] (skip_slashes text)) (err absolute_symlink)
              (Good t) (λ y. splice-Good t w rest (skip_slashes text) [] tt tt (find_root t.tree d))
              (λ y. tt))
          (λ x. splice-Good t w rest text w.done p a o))

-- The walk goes on with this path: the object there is open, or it is the last.
go_on-Good :
    (t : Target) (w : Walk) (rest : Bytes) (next : List Bytes) (f : Found)
    → find t.tree next ≡ f
    → All IsPlain next
    → AllOpen t.tree [] next
    → LastOk t.follow_last rest f
    → Good t (record { done = next; todo = rest; hops = w.hops })
unfolding Good
go_on-Good t w rest next f e p a l = (p, a, rw e l)

enter-Good :
    (t : Target) (w : Walk) (rest : Bytes) (next : List Bytes) (f : Found)
    → find t.tree next ≡ f
    → is_dir t.tree ≡ true
    → All IsPlain w.done
    → AllOpen t.tree [] w.done
    → IsOpen (find t.tree w.done)
    → All IsPlain next
    → AllOpen t.tree [] next
    → Outcome Anything (Good t) (enter t w rest next f)
unfolding enter
enter-Good t w rest next blocked e d p a o p' a' = tt
enter-Good t w rest next missing e d p a o p' a' =
    go_on-Good t w rest next missing e p' a' (LastOk-open t.follow_last rest missing tt)
enter-Good t w rest next (found (directory x)) e d p a o p' a' =
    go_on-Good t w rest next (found (directory x)) e p' a'
      (LastOk-open t.follow_last rest (found (directory x)) refl)
enter-Good t w rest next (found (regular b)) e d p a o p' a' =
    if-Outcome Anything (not (is_empty rest)) (err not_a_directory) _ (Good t) (λ x. tt)
      (λ x. go_on-Good t w rest next (found (regular b)) e p' a' (ground arith))
enter-Good t w rest next (found (symlink link)) e d p a o p' a' =
    if-Outcome Anything (not (is_empty rest) || t.follow_last)
      (follow_link t w rest (read_link link)) _ (Good t)
      (λ x. follow_link-Good t w rest (read_link link) d p a o)
      (λ x. go_on-Good t w rest next (found (symlink link)) e p' a' (ground arith))

go_into-Good :
    (t : Target) (w : Walk) (rest name : Bytes)
    → is_dir t.tree ≡ true
    → All IsPlain w.done
    → AllOpen t.tree [] w.done
    → IsOpen (find t.tree w.done)
    → IsPlain name
    → Outcome Anything (Good t) (go_into t w rest name)
unfolding go_into
go_into-Good t w rest name d p a o n =
    let next = w.done ++ name ∷ [] in
    bind-Outcome Anything (λ r. Unit) (Good t) (path_join (join w.done) name) _ (join-Anything _ _)
      (λ text u.
        bind-Outcome Anything (λ r. Unit) (Good t) (path_join t.base (join next))
          (λ host. enter t w rest next (find t.tree next)) (join-Anything _ _)
          (λ host v.
            enter-Good t w rest next (find t.tree next) refl d p a o
              (All-append IsPlain w.done (name ∷ []) p (n, tt))
              (AllOpen-append t.tree [] w.done name a o)))

go_up-Good :
    (t : Target) (w : Walk) (rest : Bytes)
    → All IsPlain w.done
    → AllOpen t.tree [] w.done
    → Outcome Anything (Good t) (go_up w rest)
unfolding go_up Good
go_up-Good t w rest p a =
    die-Outcome Anything leaves_root (elim w.done [ [] ↦ true | m ∷ ms ↦ false ])
      (ok (record { done = parent w.done; todo = rest; hops = w.hops })) (Good t) tt
      (λ z.
        let (b, c) = AllOpen-parent t.tree [] w.done (ground arith) a in
        (parent-IsPlain w.done p, b, LastOk-open t.follow_last rest _ c))

advance-Good :
    (t : Target) (w : Walk)
    → is_dir t.tree ≡ true
    → w.todo ≢ []
    → Good t w
    → Outcome Anything (Good t) (advance t w)
unfolding advance Good
advance-Good t w d e (p, a, l) =
    let name = first_name w.todo in
    let rest = after_slash w.todo in
    let o : IsOpen (find t.tree w.done) = ground arith in
    if-Outcome Anything (is_empty name || str_eq name dot)
      (ok (record { done = w.done; todo = rest; hops = w.hops })) _ (Good t)
      (λ x. (p, a, LastOk-open t.follow_last rest _ o))
      (λ x.
        if-Outcome Anything (str_eq name dot_dot) (go_up w rest) (go_into t w rest name) (Good t)
          (λ y. go_up-Good t w rest p a)
          (λ y. go_into-Good t w rest name d p a o (plain name x y (first_name-NoSlash w.todo))))

-- A path below the root whose directories are no links.
abbrev pub IsResolved : Target → List Bytes → Type 0
IsResolved t ns = All IsPlain ns × AllOpen t.tree [] ns × LastOk t.follow_last [] (find t.tree ns)

last-IsResolved : (t : Target) (w : Walk) → is_empty w.todo ≡ true → Good t w → IsResolved t w.done
unfolding Good
last-IsResolved t w x (p, a, l) = (p, a, ground arith)

walk-IsResolved :
    (fuel : ℕ) (t : Target) (w : Walk)
    → is_dir t.tree ≡ true
    → Good t w
    → Outcome Anything (IsResolved t) (walk fuel t w)
unfolding walk
walk-IsResolved zero t w d g = tt
walk-IsResolved (suc fuel) t w d g =
    if-Outcome Anything (is_empty w.todo) (ok w.done) _ (IsResolved t)
      (λ x. last-IsResolved t w x g)
      (λ x.
        bind-Outcome Anything (Good t) (IsResolved t) (advance t w) (walk fuel t)
          (advance-Good t w d (λ e. is_empty-false w.todo x e) g)
          (λ w' g'. walk-IsResolved fuel t w' d g'))

-- In a root that is a directory, a resolved path has neither empty names nor "." nor "..", every
-- path above its last name is a directory or does not exist, and if the last name is to be
-- followed it is no link either.
pub resolve_target_path-IsResolved :
    (t : Target) (rel : Bytes) (ns : List Bytes)
    → is_dir t.tree ≡ true
    → resolve_target_path t rel ≡ ok ns
    → IsResolved t ns
unfolding resolve_target_path
resolve_target_path-IsResolved t rel ns d h =
    let fuel = suc (length rel + limit_symlink_hops * (length rel + path_max + 1)) in
    let w : Walk = record { done = []; todo = rel; hops = 0 } in
    Outcome-ok Anything (IsResolved t) (walk fuel t w) ns
      (walk-IsResolved fuel t w d
        (unfold Good in (tt, tt, LastOk-open t.follow_last rel _ (find_root t.tree d))))
      h
