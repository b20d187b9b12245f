-- ===== src/Installer/Placement/Placed.antt =====
-- What `place_payload` of pkgs/installer/install.c makes of a package.
use mathlib.Core.Path.{subst}
use mathlib.Core.List.{append_assoc, append-nil}
use minidarwin.Prelude.{
  ◌≡◌, refl, sym, ◌∙◌, ◌⊎◌, inl, inr, true, false, none, some, List, [], ◌∷◌, ◌++◌, Bytes, All,
  Bool-cases, Option-cases,
}
use minidarwin.Installer.Result.{ok, bind-eq-ok, die-eq-ok, ok-inj, reserved_path}
use minidarwin.Installer.Paths.{str_eq, path_join, path_parent}
use minidarwin.Installer.Paths.Prefix.{str_eq_iff}
use minidarwin.Installer.Paths.Components.{join}
use minidarwin.Installer.Entries.{Entry, is_directory, entries_append, entries_check_paths}
use minidarwin.Installer.Cpio.Accepted.{append-ok}
use minidarwin.Installer.Tree.{is_dir}
use minidarwin.Installer.Resolve.{Target, resolve_target_path}
use minidarwin.Installer.Resolve.Inside.{IsResolved, resolve_target_path-IsResolved}
use minidarwin.Installer.Package.{Component, Package}
use minidarwin.Installer.Package.Selection.{all_payloads}
use minidarwin.Installer.Placement.Names.{HasName, base_name-HasName}
use minidarwin.Installer.Placement.{
  is_reserved, resolve_beneath, base_name, placed_path, moved, place_entry, place_list,
  place_components, place_payload, check_payload_symlinks,
}

-- Two lists of one length, whose elements agree in pairs.
abbrev pub Matched {ℓ} : {A : Type ℓ} → (A → A → Type 0) → List A → List A → Type 0
Matched R [] [] = Unit
Matched R [] (y ∷ ys) = ⊥
Matched R (x ∷ xs) [] = ⊥
Matched R (x ∷ xs) (y ∷ ys) = R x y × Matched R xs ys

abbrev pub following : Target → Target
following t = record t { follow_last = true }

-- What the resolution of a path gives, as a text.
abbrev pub IsText : Target → Bytes → Bytes → Type 0
IsText t rel path =
    (ns : List Bytes) × (resolve_target_path (following t) rel ≡ ok ns)
    × IsResolved (following t) ns
    × (path ≡ join ns)

-- A directory goes to where its own path leads, and everything else, under its own name, to where
-- the path of its parent leads.
abbrev pub Lands : Target → Entry → Bytes → Type 0
Lands t e path = elim (is_directory e.mode) [
  | true ↦ IsText t e.path path
  | false ↦
      (above name place : Bytes) × HasName e.path above name
      × IsText t above place
      × (path_join place name ≡ ok path)
]

-- The entry before and after: only its path differs, and the old one is then remembered.
pub record IsPlaced (t : Target) (e f : Entry) : Type 0 where
  pub lands : Lands t e f.path
  pub allowed : is_reserved f.path ≡ false
  pub rest : (f ≡ e) ⊎ (f ≡ record e { package_path = some e.path; path = f.path })

resolve_beneath-IsText :
    (t : Target) (rel path : Bytes)
    → is_dir t.tree ≡ true
    → resolve_beneath t rel ≡ ok path
    → IsText t rel path
unfolding resolve_beneath
resolve_beneath-IsText t rel path d h =
    let (ns, run, same) =
      bind-eq-ok (resolve_target_path (following t) rel) (λ ns. ok (join ns)) h in
    (ns, run, resolve_target_path-IsResolved (following t) rel ns d run, sym (ok-inj same))

placed_path-Lands :
    (t : Target) (e : Entry) (path : Bytes)
    → is_dir t.tree ≡ true
    → placed_path t e ≡ ok path
    → Lands t e path
unfolding placed_path
placed_path-Lands t e path d h = elim (Bool-cases (is_directory e.mode)) [
  | inl dir ↦ rw (Lands, dir) (resolve_beneath-IsText t e.path path d (rw dir at h))
  | inr other ↦
      let (above, run, joined) =
        bind-eq-ok (resolve_beneath t (path_parent e.path)) _ (rw other at h) in
      rw (Lands, other)
        (
          path_parent e.path,
          base_name e.path,
          above,
          base_name-HasName e.path,
          resolve_beneath-IsText t (path_parent e.path) above d run,
          joined,
        )
]

moved_path : (e : Entry) (path : Bytes) → (moved e path).path ≡ path
unfolding moved
moved_path e path = elim (Bool-cases (str_eq path e.path)) [
  | inl same ↦ rw same (sym ((str_eq_iff path e.path).0 same))
  | inr other ↦ rw other refl
]

moved_rest :
    (e : Entry) (path : Bytes)
    → (moved e path ≡ e)
      ⊎ (moved e path ≡ record e { package_path = some e.path; path = (moved e path).path })
unfolding moved
moved_rest e path = elim (Bool-cases (str_eq path e.path)) [
  | inl same ↦ inl (rw same refl)
  | inr other ↦ inr (rw other refl)
]

place_entry-IsPlaced :
    (t : Target) (e f : Entry) → is_dir t.tree ≡ true → place_entry t e ≡ ok f → IsPlaced t e f
unfolding place_entry
place_entry-IsPlaced t e f d h =
    let (path, run, a) = bind-eq-ok (placed_path t e) _ h in
    let (allowed, same) = die-eq-ok (is_reserved (moved e path).path) reserved_path _ a in
    subst (IsPlaced t e) (ok-inj same) (record {
      lands = subst (Lands t e) (sym (moved_path e path)) (placed_path-Lands t e path d run);
      allowed = allowed;
      rest = moved_rest e path;
    })

place_list-IsPlaced :
    (t : Target) (all payload : List Entry) (out : List Entry × List Entry)
    → is_dir t.tree ≡ true
    → place_list t all payload ≡ ok out
    → Matched (IsPlaced t) payload out.0 × (out.1 ≡ all ++ out.0)
unfolding place_list
place_list-IsPlaced t all [] out d h =
    subst (λ o. Matched (IsPlaced t) [] o.0 × (o.1 ≡ all ++ o.0)) (ok-inj h)
      (tt, sym (append-nil all))
place_list-IsPlaced t all (e ∷ payload) out d h =
    let (f, first, a) = bind-eq-ok (place_entry t e) _ h in
    let (longer, added, b) = bind-eq-ok (entries_append all f) _ a in
    let (rest, later, same) = bind-eq-ok (place_list t longer payload) _ b in
    let (matched, end) = place_list-IsPlaced t longer payload rest d later in
    subst (λ o. Matched (IsPlaced t) (e ∷ payload) o.0 × (o.1 ≡ all ++ o.0)) (ok-inj same)
      (
        (place_entry-IsPlaced t e f d first, matched),
        end ∙ (rw (append-ok all longer f added).0 (append_assoc all (f ∷ []) rest.0)),
      )

-- A component with its payload placed.
abbrev pub PlacedComponent : Target → Component → Component → Type 0
PlacedComponent t c d =
    Matched (IsPlaced t) c.payload d.payload × (d ≡ record c { payload = d.payload })

place_components-Placed :
    (t : Target) (all : List Entry) (components : List Component)
    (out : List Component × List Entry)
    → is_dir t.tree ≡ true
    → place_components t all components ≡ ok out
    → Matched (PlacedComponent t) components out.0 × (out.1 ≡ all ++ all_payloads out.0)
unfolding place_components
place_components-Placed t all [] out d h =
    subst (λ o. Matched (PlacedComponent t) [] o.0 × (o.1 ≡ all ++ all_payloads o.0)) (ok-inj h)
      (tt, sym (append-nil all))
place_components-Placed t all (c ∷ components) out d h =
    let (placed, first, a) = bind-eq-ok (place_list t all c.payload) _ h in
    let (rest, later, same) = bind-eq-ok (place_components t placed.1 components) _ a in
    let (one, longer) = place_list-IsPlaced t all c.payload placed d first in
    let (matched, end) = place_components-Placed t placed.1 components rest d later in
    subst (λ o. Matched (PlacedComponent t) (c ∷ components) o.0 × (o.1 ≡ all ++ all_payloads o.0))
      (ok-inj same)
      (((one, refl), matched), end ∙ (rw longer (append_assoc all placed.0 (all_payloads rest.0))))

-- What is known of a package whose payload has been placed.
pub record PayloadPlaced (t : Target) (p q : Package) : Type 0 where
  pub components : Matched (PlacedComponent t) p.components q.components
  pub same : q ≡ record p { components = q.components }
  pub checked : entries_check_paths (all_payloads q.components) true ≡ ok tt

-- In a root that is a directory, place_payload puts every directory of a payload where its path
-- leads, and everything else, under its own name, where the path of its parent leads, as
-- resolve_target_path follows the links of the root. It changes no more than the paths, remembers
-- those that it changes, leaves the rest of the package, and uses no reserved path. The new paths
-- of all components together pass entries_check_paths.
pub place_payload-PayloadPlaced :
    (t : Target) (p q : Package)
    → is_dir t.tree ≡ true
    → place_payload t p ≡ ok q
    → PayloadPlaced t p q
unfolding place_payload
place_payload-PayloadPlaced t p q d h =
    let (out, run, a) = bind-eq-ok (place_components t [] p.components) _ h in
    let (_, checked, same) = bind-eq-ok (entries_check_paths out.1 true) _ a in
    let (matched, all) = place_components-Placed t [] p.components out d run in
    let e : out.0 ≡ q.components = cc (ok-inj same) in
    record {
      components = subst (Matched (PlacedComponent t) p.components) e matched;
      same = cc (ok-inj same);
      checked = subst (λ l. entries_check_paths l true ≡ ok tt) (rw e at all) checked;
    }

-- The target of a link is the text of a resolved path.
abbrev pub LeadsInside : Target → Entry → Type 0
LeadsInside t e = elim e.link [
  | none ↦ Unit
  | some link ↦
      (target path : Bytes) × (path_join (path_parent e.path) link ≡ ok target)
      × (resolve_beneath t target ≡ ok path)
      × IsText t target path
]

-- In a root that is a directory, every link of a payload that check_payload_symlinks accepts
-- leads, from the directory that holds it, to a resolved path below the root.
pub check_payload_symlinks-LeadsInside :
    (t : Target) (payload : List Entry)
    → is_dir t.tree ≡ true
    → check_payload_symlinks t payload ≡ ok tt
    → All (LeadsInside t) payload
unfolding check_payload_symlinks
check_payload_symlinks-LeadsInside t [] d h = tt
check_payload_symlinks-LeadsInside t (e ∷ payload) d h = elim (Option-cases e.link) [
  | inl unlinked ↦ (
    rw (LeadsInside, unlinked) tt,
    check_payload_symlinks-LeadsInside t payload d (rw unlinked at h),
  )
  | inr (link, there) ↦
      let (target, joined, a) =
        bind-eq-ok (path_join (path_parent e.path) link) _ (rw there at h) in
      let (path, run, b) = bind-eq-ok (resolve_beneath t target) _ a in
      (
        rw (LeadsInside, there)
            (target, path, joined, run, resolve_beneath-IsText t target path d run),
        check_payload_symlinks-LeadsInside t payload d b,
      )
]
