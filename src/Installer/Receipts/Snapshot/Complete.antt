-- ===== src/Installer/Receipts/Snapshot/Complete.antt =====
-- Which objects of a tree the snapshot of pkgs/installer/receipts.c lists.
use mathlib.Core.Path.{subst}
use minidarwin.Prelude.{
  ℕ, ◌+◌, ◌≡◌, refl, sym, ap, false, List, [], ◌∷◌, Bytes, Any, Any-append, Any-map, ltb,
  Bool-cases, inl, inr,
}
use minidarwin.Installer.Result.{ok, err, bind-eq-ok, die-eq-ok, ok-inj, if-cases, nesting_limit}
use minidarwin.Installer.Paths.{limit_depth, str_eq, path_join}
use minidarwin.Installer.Paths.Prefix.{str_eq_iff}
use minidarwin.Installer.Entries.{Entry}
use minidarwin.Installer.Cpio.Accepted.{append-ok}
use minidarwin.Installer.Staging.{
  Object, directory, regular, symlink, special, Listing, empty, entry,
}
use minidarwin.Installer.Extraction.{located, locate, locate_in}
use minidarwin.Installer.Extraction.Standing.{located-inj}
use minidarwin.Installer.Receipts.Snapshot.{
  is_passed_over, snapshot_entry, snapshot_object, snapshot_walk, snapshot_listing, snapshot_tree,
}
use minidarwin.Installer.Receipts.Snapshot.Seen.{spelled, entry_path}

-- No name on the way is passed over.
abbrev pub IsVisited : Bytes → List Bytes → Type 0
IsVisited rel [] = Unit
IsVisited rel (name ∷ names) =
    (is_passed_over rel name ≡ false)
    × elim (path_join rel name) [ err fault ↦ ⊥ | ok child ↦ IsVisited child names ]

module _ (sha256 : Bytes → Bytes) (base : Bytes) where
  -- The entry of an object at the path that is spelled from these names.
  abbrev pub Describes : Bytes → List Bytes → Object → Entry → Type 0
  Describes rel names o e =
      (spelled rel names ≡ ok e.path) × (snapshot_entry sha256 base e.path o ≡ ok e)

  Describes-further :
      (rel name child : Bytes) (names : List Bytes) (o : Object) (list : List Entry)
      → path_join rel name ≡ ok child
      → Any (Describes child names o) list
      → Any (Describes rel (name ∷ names) o) list
  Describes-further rel name child names o list joined =
      Any-map (Describes child names o) (Describes rel (name ∷ names) o)
        (λ e d. (rw joined d.0, d.1)) list

  object-keeps :
      (P : Entry → Type 0) (depth : ℕ) (rel : Bytes) (o : Object) (out longer : List Entry)
      → snapshot_object sha256 base depth rel o out ≡ ok longer
      → Any P out
      → Any P longer
  unfolding snapshot_object
  object-keeps P depth rel o out longer h there =
      let (_, a) = die-eq-ok (ltb limit_depth depth) nesting_limit _ h in
      let (e, run, added) = bind-eq-ok (snapshot_entry sha256 base rel o) _ a in
      subst (Any P) (sym (append-ok out longer e added).0) (Any-append P out (e ∷ []) (inl there))

  object-Describes :
      (depth : ℕ) (rel : Bytes) (o : Object) (out longer : List Entry)
      → snapshot_object sha256 base depth rel o out ≡ ok longer
      → Any (Describes rel [] o) longer
  unfolding snapshot_object
  object-Describes depth rel o out longer h =
      let (_, a) = die-eq-ok (ltb limit_depth depth) nesting_limit _ h in
      let (e, run, added) = bind-eq-ok (snapshot_entry sha256 base rel o) _ a in
      let same = entry_path sha256 base rel o e run in
      subst (Any (Describes rel [] o)) (sym (append-ok out longer e added).0)
        (Any-append (Describes rel [] o) out (e ∷ []) (inr (inl (rw same refl, rw same run))))

  mutual
    unfolding snapshot_walk

    walk-keeps :
        (P : Entry → Type 0) (depth : ℕ) (rel : Bytes) (o : Object) (out longer : List Entry)
        → snapshot_walk sha256 base depth rel o out ≡ ok longer
        → Any P out
        → Any P longer
    walk-keeps P depth rel (directory m l) out longer h there =
        let (mid, first, a) =
          bind-eq-ok (snapshot_object sha256 base depth rel (directory m l) out) _ h in
        listing-keeps P (depth + 1) rel l mid longer a
          (object-keeps P depth rel (directory m l) out mid first there)
    walk-keeps P depth rel (regular m b) out longer h there =
        object-keeps P depth rel (regular m b) out longer h there
    walk-keeps P depth rel (symlink m b) out longer h there =
        object-keeps P depth rel (symlink m b) out longer h there
    walk-keeps P depth rel (special m) out longer h there =
        object-keeps P depth rel (special m) out longer h there

    listing-keeps :
        (P : Entry → Type 0) (depth : ℕ) (rel : Bytes) (l : Listing) (out longer : List Entry)
        → snapshot_listing sha256 base depth rel l out ≡ ok longer
        → Any P out
        → Any P longer
    listing-keeps P depth rel empty out longer h there = subst (Any P) (ok-inj h) there
    listing-keeps P depth rel (entry name o l) out longer h there =
        elim (if-cases (is_passed_over rel name) _ _ h) [
          | inl (_, rest) ↦ listing-keeps P depth rel l out longer rest there
          | inr (_, entered) ↦
              let (child, _, a) = bind-eq-ok (path_join rel name) _ entered in
              let (mid, walked, b) = bind-eq-ok (snapshot_walk sha256 base depth child o out) _ a in
              listing-keeps P depth rel l mid longer b
                (walk-keeps P depth child o out mid walked there)
        ]

  mutual
    unfolding snapshot_walk locate

    walk-Describes :
        (depth : ℕ) (rel : Bytes) (o : Object) (out longer : List Entry) (names : List Bytes)
        (q : Object)
        → snapshot_walk sha256 base depth rel o out ≡ ok longer
        → IsVisited rel names
        → locate o names ≡ located q
        → Any (Describes rel names q) longer
    walk-Describes depth rel (directory m l) out longer [] q h v e =
        let (mid, first, a) =
          bind-eq-ok (snapshot_object sha256 base depth rel (directory m l) out) _ h in
        listing-keeps (Describes rel [] q) (depth + 1) rel l mid longer a (
          subst (λ z. Any (Describes rel [] z) mid) (located-inj (directory m l) q e)
            (object-Describes depth rel (directory m l) out mid first))
    walk-Describes depth rel (directory m l) out longer (name ∷ names) q h v e =
        let (mid, first, a) =
          bind-eq-ok (snapshot_object sha256 base depth rel (directory m l) out) _ h in
        listing-Describes (depth + 1) rel l mid longer name names q a v e
    walk-Describes depth rel (regular m b) out longer [] q h v e =
        subst (λ z. Any (Describes rel [] z) longer) (located-inj (regular m b) q e)
          (object-Describes depth rel (regular m b) out longer h)
    walk-Describes depth rel (symlink m b) out longer [] q h v e =
        subst (λ z. Any (Describes rel [] z) longer) (located-inj (symlink m b) q e)
          (object-Describes depth rel (symlink m b) out longer h)
    walk-Describes depth rel (special m) out longer [] q h v e =
        subst (λ z. Any (Describes rel [] z) longer) (located-inj (special m) q e)
          (object-Describes depth rel (special m) out longer h)
    walk-Describes depth rel (regular m b) out longer (name ∷ names) q h v e = cc
    walk-Describes depth rel (symlink m b) out longer (name ∷ names) q h v e = cc
    walk-Describes depth rel (special m) out longer (name ∷ names) q h v e = cc

    listing-Describes :
        (depth : ℕ) (rel : Bytes) (l : Listing) (out longer : List Entry) (name : Bytes)
        (names : List Bytes) (q : Object)
        → snapshot_listing sha256 base depth rel l out ≡ ok longer
        → IsVisited rel (name ∷ names)
        → locate_in l name names ≡ located q
        → Any (Describes rel (name ∷ names) q) longer
    listing-Describes depth rel empty out longer name names q h v e = cc
    listing-Describes depth rel (entry own o l) out longer name names q h v e =
        elim (if-cases (is_passed_over rel own) _ _ h) [
          | inl (passed, rest) ↦ elim (Bool-cases (str_eq own name)) [
            | inl s ↦
                let same = (str_eq_iff own name).0 s in
                cc (ap (is_passed_over rel) same, passed, v.0)
            | inr s ↦ listing-Describes depth rel l out longer name names q rest v (rw s at e)
          ]
          | inr (_, entered) ↦
              let (child, joined, a) = bind-eq-ok (path_join rel own) _ entered in
              let (mid, walked, b) = bind-eq-ok (snapshot_walk sha256 base depth child o out) _ a in
              elim (Bool-cases (str_eq own name)) [
                | inl s ↦
                    let same = (str_eq_iff own name).0 s in
                    let at_name : path_join rel name ≡ ok child = rw (sym same) joined in
                    listing-keeps (Describes rel (name ∷ names) q) depth rel l mid longer b (
                      Describes-further rel name child names q mid at_name (
                        walk-Describes depth child o out mid names q walked (rw at_name at v.1)
                          (rw s at e)))
                | inr s ↦ listing-Describes depth rel l mid longer name names q b v (rw s at e)
              ]
        ]

  -- Where snapshot_tree succeeds, every object of the tree whose path passes through no name that is
  -- passed over has an entry, with the path that is joined from its names, and what snapshot_entry
  -- makes of it.
  pub snapshot_tree-Describes :
      (root : Object) (snapshot : List Entry) (names : List Bytes) (o : Object)
      → snapshot_tree sha256 base root ≡ ok snapshot
      → IsVisited [] names
      → locate root names ≡ located o
      → Any (Describes [] names o) snapshot
  unfolding snapshot_tree
  snapshot_tree-Describes root snapshot names o h v e =
      walk-Describes 0 [] root [] snapshot names o h v e
