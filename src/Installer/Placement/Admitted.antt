-- ===== src/Installer/Placement/Admitted.antt =====
-- What `preflight` of pkgs/installer/install.c has found of the root before anything is changed.
use mathlib.Core.Path.{subst}
use minidarwin.Prelude.{
  ◌≡◌, refl, sym, ◌⊎◌, inl, inr, Bool, true, false, not, ◌&&◌, List, [], ◌∷◌, Bytes, codes, All,
  arith,
}
use minidarwin.Installer.Result.{
  ok, bind-eq-ok, die-eq-ok, if-cases, ok-inj, replaces_file, no_runner, reserved_exists,
}
use minidarwin.Installer.Paths.{is_empty, path_join}
use minidarwin.Installer.Entries.{Entry, is_directory, ancestors}
use minidarwin.Installer.Tree.{is_dir, Found, missing, found, blocked}
use minidarwin.Installer.Resolve.{Target}
use minidarwin.Installer.Resolve.Open.{IsOpen}
use minidarwin.Installer.Package.{Component, Package}
use minidarwin.Installer.Placement.{
  receipts_dir, inventory_dir, scripts_dir, place_payload, look, check_open, check_parents,
  path_exists, record_path, check_record, check_records, would_replace, check_places, has_hook,
  skip_hooks, check_target, check_targets, preflight,
}

-- A place for the entry: nothing stands there, or it is a directory for a directory.
abbrev pub HasRoom : Entry → Found → Type 0
HasRoom e missing = Unit
HasRoom e blocked = Unit
HasRoom e (found node) = (is_directory e.mode ≡ true) × (is_dir node ≡ true)

abbrev pub AllLookOpen : Target → List Bytes → Type 0
AllLookOpen t paths = All (λ above. IsOpen (look t above)) paths

-- The entry of the location itself is passed over.
abbrev pub IsFree : Target → Entry → Type 0
IsFree t e = (e.path ≡ []) ⊎ (AllLookOpen t (ancestors e.path) × HasRoom e (look t e.path))

-- A file of the receipts that does not exist yet, below directories only.
abbrev pub IsUnwritten : Target → Bytes → Type 0
IsUnwritten t rel = AllLookOpen t (ancestors rel) × (look t rel ≡ missing)

pub record IsReady (t : Target) (skip runner : Bool) (c : Component) : Type 0 where
  pub hooks : (has_hook c.hooks ≡ false) ⊎ ((skip ≡ false) × ((runner ≡ true) ⊎ (t.live ≡ true)))
  pub receipt : IsUnwritten t (record_path receipts_dir c.identifier (codes ".plist"))
  pub bom : IsUnwritten t (record_path receipts_dir c.identifier (codes ".bom"))
  pub inventory : IsUnwritten t (record_path inventory_dir c.identifier (codes ".inventory.plist"))
  pub places : All (IsFree t) c.payload

check_open-IsOpen : (f : Found) → check_open f ≡ ok tt → IsOpen f
unfolding check_open
check_open-IsOpen missing h = tt
check_open-IsOpen blocked h = cc h
check_open-IsOpen (found node) h = ground arith

check_parents-Open :
    (t : Target) (paths : List Bytes) → check_parents t paths ≡ ok tt → AllLookOpen t paths
unfolding check_parents
check_parents-Open t [] h = tt
check_parents-Open t (above ∷ rest) h =
    let (_, _, a) = bind-eq-ok (path_join t.base above) _ h in
    let (_, here, b) = bind-eq-ok (check_open (look t above)) _ a in
    (check_open-IsOpen (look t above) here, check_parents-Open t rest b)

path_exists-missing : (f : Found) → path_exists f ≡ ok false → f ≡ missing
unfolding path_exists
path_exists-missing missing h = refl
path_exists-missing blocked h = cc h
path_exists-missing (found node) h = cc h

check_record-IsUnwritten :
    (t : Target) (rel : Bytes) → check_record t rel ≡ ok tt → IsUnwritten t rel
unfolding check_record
check_record-IsUnwritten t rel h =
    let (_, walked, a) = bind-eq-ok (check_parents t (ancestors rel)) _ h in
    let (_, _, b) = bind-eq-ok (path_join t.base rel) _ a in
    let (there, looked, d) = bind-eq-ok (path_exists (look t rel)) _ b in
    let fresh : there ≡ false = ground arith in
    (
      check_parents-Open t (ancestors rel) walked,
      path_exists-missing (look t rel) (rw fresh at looked),
    )

would_replace-HasRoom : (e : Entry) (f : Found) → would_replace e f ≡ false → HasRoom e f
unfolding would_replace
would_replace-HasRoom e missing h = tt
would_replace-HasRoom e blocked h = tt
would_replace-HasRoom e (found node) h = ground arith

check_places-IsFree :
    (t : Target) (payload : List Entry) → check_places t payload ≡ ok tt → All (IsFree t) payload
unfolding check_places
check_places-IsFree t [] h = tt
check_places-IsFree t (e ∷ payload) h = elim (if-cases (is_empty e.path) _ _ h) [
  | inl (blank, rest) ↦ (inl (ground arith), check_places-IsFree t payload rest)
  | inr (named, entered) ↦
      let (_, walked, a) = bind-eq-ok (check_parents t (ancestors e.path)) _ entered in
      let (_, _, b) = bind-eq-ok (path_join t.base e.path) _ a in
      let (room, d) = die-eq-ok (would_replace e (look t e.path)) replaces_file _ b in
      (
        inr (
          check_parents-Open t (ancestors e.path) walked,
          would_replace-HasRoom e (look t e.path) room,
        ),
        check_places-IsFree t payload d,
      )
]

hooks_allowed :
    (skip runner live : Bool) (c : Component)
    → (has_hook (skip_hooks skip c).hooks && (not runner && not live)) ≡ false
    → (has_hook (skip_hooks skip c).hooks ≡ false)
      ⊎ ((skip ≡ false) × ((runner ≡ true) ⊎ (live ≡ true)))
unfolding skip_hooks has_hook
hooks_allowed true runner live c h = inl refl
hooks_allowed false true live c h = inr (refl, inl refl)
hooks_allowed false false true c h = inr (refl, inr refl)
hooks_allowed false false false c h = inl (ground arith)

skip_hooks_same :
    (skip : Bool) (c : Component)
    → ((skip_hooks skip c).identifier ≡ c.identifier) × ((skip_hooks skip c).payload ≡ c.payload)
unfolding skip_hooks
skip_hooks_same true c = (refl, refl)
skip_hooks_same false c = (refl, refl)

check_target-IsReady :
    (t : Target) (skip runner : Bool) (c d : Component)
    → check_target t skip runner c ≡ ok d
    → IsReady t skip runner d × (d ≡ skip_hooks skip c)
unfolding check_target check_records
check_target-IsReady t skip runner c d h =
    let (allowed, a) =
      die-eq-ok (has_hook (skip_hooks skip c).hooks && (not runner && not t.live)) no_runner _ h in
    let (_, records, b) = bind-eq-ok (check_records t c.identifier) _ a in
    let (_, places, same) = bind-eq-ok (check_places t c.payload) _ b in
    let (_, one, more) =
      bind-eq-ok (check_record t (record_path receipts_dir c.identifier (codes ".plist"))) _
        records in
    let (_, two, three) =
      bind-eq-ok (check_record t (record_path receipts_dir c.identifier (codes ".bom"))) _ more in
    let (id, payload) = skip_hooks_same skip c in
    (
      subst (IsReady t skip runner) (ok-inj same) (record {
        hooks = hooks_allowed skip runner t.live c allowed;
        receipt = rw id (check_record-IsUnwritten t _ one);
        bom = rw id (check_record-IsUnwritten t _ two);
        inventory = rw id (check_record-IsUnwritten t _ three);
        places = rw payload (check_places-IsFree t c.payload places);
      }),
      sym (ok-inj same),
    )

abbrev pub skip_all : Bool → List Component → List Component
skip_all skip [] = []
skip_all skip (c ∷ components) = skip_hooks skip c ∷ skip_all skip components

check_targets-IsReady :
    (t : Target) (skip runner : Bool) (components out : List Component)
    → check_targets t skip runner components ≡ ok out
    → All (IsReady t skip runner) out × (out ≡ skip_all skip components)
unfolding check_targets
check_targets-IsReady t skip runner [] out h =
    subst (λ o. All (IsReady t skip runner) o × (o ≡ [])) (ok-inj h) (tt, refl)
check_targets-IsReady t skip runner (c ∷ components) out h =
    let (first, here, a) = bind-eq-ok (check_target t skip runner c) _ h in
    let (rest, later, same) = bind-eq-ok (check_targets t skip runner components) _ a in
    let (ready, one) = check_target-IsReady t skip runner c first here in
    let (others, more) = check_targets-IsReady t skip runner components rest later in
    subst (λ o. All (IsReady t skip runner) o × (o ≡ skip_hooks skip c ∷ skip_all skip components))
      (ok-inj same) ((ready, others), cc (one, more))

-- The package that `preflight` hands on, and the root that it has found.
pub record IsAdmitted (t : Target) (skip runner : Bool) (p q : Package) : Type 0 where
  pub placed : Package
  pub placing : place_payload t p ≡ ok placed
  pub same : q ≡ record placed { components = skip_all skip placed.components }
  pub ready : All (IsReady t skip runner) q.components
  pub scripts : look t scripts_dir ≡ missing

-- Where preflight succeeds, it hands on the package of place_payload, without its scripts if they
-- are skipped. Each component has then no script, or its scripts are not skipped and there is a
-- runner or a running root; its records do not exist; every entry with a path has directories
-- above it, as far as they exist, and stands on nothing, or is a directory where one stands.
-- Nothing stands at the directory of the scripts.
pub preflight-IsAdmitted :
    (t : Target) (skip runner : Bool) (p q : Package)
    → preflight t skip runner p ≡ ok q
    → IsAdmitted t skip runner p q
unfolding preflight
preflight-IsAdmitted t skip runner p q h =
    let (placed, placing, a) = bind-eq-ok (place_payload t p) _ h in
    let (checked, tests, b) = bind-eq-ok (check_targets t skip runner placed.components) _ a in
    let (_, _, d) = bind-eq-ok (path_join t.base scripts_dir) _ b in
    let (there, looked, e) = bind-eq-ok (path_exists (look t scripts_dir)) _ d in
    let (fresh, same) = die-eq-ok there reserved_exists _ e in
    let (ready, skipped) = check_targets-IsReady t skip runner placed.components checked tests in
    subst (IsAdmitted t skip runner p) (ok-inj same) (record {
      placed = placed;
      placing = placing;
      same = rw skipped refl;
      ready = ready;
      scripts = path_exists-missing (look t scripts_dir) (rw fresh at looked);
    })
