-- ===== src/Installer/Receipts/Snapshot/Seen.antt =====
-- What the snapshot of pkgs/installer/receipts.c says of a tree.
use mathlib.Core.Path.{subst}
use minidarwin.Prelude.{
  ℕ, ◌+◌, ◌≡◌, refl, sym, ap, ◌∙◌, List, [], ◌∷◌, ◌++◌, Bytes, All, All-append, ltb, Bool-cases,
  inl, inr,
}
use minidarwin.Installer.Result.{
  Result, ok, ◌>>=◌, bind-eq-ok, die-eq-ok, ok-inj, if-cases, nesting_limit,
}
use minidarwin.Installer.Paths.{limit_depth, str_eq, path_join}
use minidarwin.Installer.Paths.Prefix.{str_eq_iff}
use minidarwin.Installer.Entries.{Entry}
use minidarwin.Installer.Cpio.Accepted.{append-ok}
use minidarwin.Installer.Staging.{
  Meta, Object, directory, regular, symlink, special, Listing, empty, entry,
}
use minidarwin.Installer.Staging.Restored.{NotThere}
use minidarwin.Installer.Extraction.{located, locate, locate_in}
use minidarwin.Installer.Extraction.Steps.{locate_self, locate_head, locate_tail, locate_below}
use minidarwin.Installer.Extraction.Standing.{located-inj}
use minidarwin.Installer.Receipts.Snapshot.{
  is_passed_over, describe, snapshot_entry, snapshot_object, snapshot_walk, snapshot_listing,
  snapshot_tree,
}

-- Names are different in each directory.
abbrev mutual
  pub Distinct : Object → Type 0
  Distinct (directory m l) = DistinctListing l
  Distinct (regular m b) = Unit {0}
  Distinct (symlink m b) = Unit {0}
  Distinct (special m) = Unit {0}

  pub DistinctListing : Listing → Type 0
  DistinctListing empty = Unit {0}
  DistinctListing (entry own o l) = NotThere own l × Distinct o × DistinctListing l

abbrev Each : (Bytes → Object → Type 0) → Listing → Type 0
Each P empty = Unit {0}
Each P (entry own o l) = P own o × Each P l

-- The text that path_join makes of names, from a text that is there.
abbrev pub spelled : Bytes → List Bytes → Result Bytes
spelled rel [] = ok rel
spelled rel (name ∷ names) = path_join rel name >>= λ child. spelled child names

spelled_append :
    (rel : Bytes) (names : List Bytes) (name text child : Bytes)
    → spelled rel names ≡ ok text
    → path_join text name ≡ ok child
    → spelled rel (names ++ name ∷ []) ≡ ok child
spelled_append rel [] name text child e j = rw (ok-inj e, j) refl
spelled_append rel (first ∷ names) name text child e j =
    let (next, a, b) = bind-eq-ok (path_join rel first) (λ r. spelled r names) e in
    rw a (spelled_append next names name text child b j)

-- Below what is found at a path.
mutual
  unfolding locate

  locate_append :
      (t q : Object) (names : List Bytes) (name : Bytes)
      → locate t names ≡ located q
      → locate t (names ++ name ∷ []) ≡ locate q (name ∷ [])
  locate_append t q [] name e =
      ap (λ z. locate z (name ∷ [])) (located-inj t q (sym (locate_self t) ∙ e))
  locate_append (directory m l) q (first ∷ names) name e = locate_in_append l q first names name e
  locate_append (regular m b) q (first ∷ names) name e = cc
  locate_append (symlink m b) q (first ∷ names) name e = cc
  locate_append (special m) q (first ∷ names) name e = cc

  locate_in_append :
      (l : Listing) (q : Object) (first : Bytes) (names : List Bytes) (name : Bytes)
      → locate_in l first names ≡ located q
      → locate_in l first (names ++ name ∷ []) ≡ locate q (name ∷ [])
  locate_in_append empty q first names name e = cc
  locate_in_append (entry own o l) q first names name e = elim (Bool-cases (str_eq own first)) [
    | inl s ↦ rw s (locate_append o q names name (rw s at e))
    | inr s ↦ rw s (locate_in_append l q first names name (rw s at e))
  ]

-- The first entry of another name does not hide an object.
tail-Each :
    (own : Bytes) (o : Object) (l k : Listing)
    → NotThere own k
    → Each (λ name x. locate_in l name [] ≡ located x) k
    → Each (λ name x. locate_in (entry own o l) name [] ≡ located x) k
tail-Each own o l empty n h = tt
tail-Each own o l (entry name x k) n h = elim (Bool-cases (str_eq own name)) [
  | inl same ↦ absurd (n.0 ((str_eq_iff own name).0 same))
  | inr other ↦ (locate_tail own name o l [] other ∙ h.0, tail-Each own o l k n.1 h.1)
]

listed : (l : Listing) → DistinctListing l → Each (λ name x. locate_in l name [] ≡ located x) l
listed empty d = tt
listed (entry own o l) d =
    (locate_head own o l [] ∙ locate_self o, tail-Each own o l l d.0 (listed l d.2))

Each-map :
    (P Q : Bytes → Object → Type 0) (l : Listing)
    → ((name : Bytes) (x : Object) → P name x → Q name x)
    → Each P l
    → Each Q l
Each-map P Q empty f h = tt
Each-map P Q (entry own o l) f h = (f own o h.0, Each-map P Q l f h.1)

described_path :
    (sha256 : Bytes → Bytes) (base rel : Bytes) (o : Object) (e : Entry)
    → describe sha256 base rel o ≡ ok e
    → e.path ≡ rel
unfolding describe
described_path sha256 base rel (directory m l) e h = ap (λ x. x.path) (sym (ok-inj h))
described_path sha256 base rel (regular m b) e h = ap (λ x. x.path) (sym (ok-inj h))
described_path sha256 base rel (symlink m b) e h = ap (λ x. x.path) (sym (ok-inj h))
described_path sha256 base rel (special m) e h = cc

pub entry_path :
    (sha256 : Bytes → Bytes) (base rel : Bytes) (o : Object) (e : Entry)
    → snapshot_entry sha256 base rel o ≡ ok e
    → e.path ≡ rel
unfolding snapshot_entry
entry_path sha256 base rel o e h =
    let (_, _, a) = bind-eq-ok (path_join base rel) (λ host. describe sha256 base rel o) h in
    described_path sha256 base rel o e a

module _ (sha256 : Bytes → Bytes) (base : Bytes) (root : Object) where
  -- An entry describes the object that is found at the names of its path.
  abbrev pub IsSeen : Entry → Type 0
  IsSeen e =
      (names : List Bytes) × (o : Object) × (locate root names ≡ located o)
      × (spelled [] names ≡ ok e.path)
      × (snapshot_entry sha256 base e.path o ≡ ok e)

  abbrev Below : List Bytes → Listing → Type 0
  Below names l = Each (λ name o. locate root (names ++ name ∷ []) ≡ located o) l

  children_located :
      (names : List Bytes) (m : Meta) (l : Listing)
      → DistinctListing l
      → locate root names ≡ located (directory m l)
      → Below names l
  children_located names m l d e =
      Each-map (λ name x. locate_in l name [] ≡ located x)
        (λ name x. locate root (names ++ name ∷ []) ≡ located x) l
        (λ name x h. locate_append root (directory m l) names name e ∙ locate_below m l name [] ∙ h)
        (listed l d)

  object-IsSeen :
      (depth : ℕ) (rel : Bytes) (names : List Bytes) (o : Object) (out longer : List Entry)
      → locate root names ≡ located o
      → spelled [] names ≡ ok rel
      → All IsSeen out
      → snapshot_object sha256 base depth rel o out ≡ ok longer
      → All IsSeen longer
  unfolding snapshot_object
  object-IsSeen depth rel names o out longer there text seen h =
      let (_, a) = die-eq-ok (ltb limit_depth depth) nesting_limit _ h in
      let (e, run, added) = bind-eq-ok (snapshot_entry sha256 base rel o) _ a in
      let same = entry_path sha256 base rel o e run in
      subst (All IsSeen) (sym (append-ok out longer e added).0)
        (All-append IsSeen out (e ∷ []) seen ((names, o, there, rw same text, rw same run), tt))

  mutual
    unfolding snapshot_walk

    walk-IsSeen :
        (depth : ℕ) (rel : Bytes) (names : List Bytes) (o : Object) (out longer : List Entry)
        → Distinct o
        → locate root names ≡ located o
        → spelled [] names ≡ ok rel
        → All IsSeen out
        → snapshot_walk sha256 base depth rel o out ≡ ok longer
        → All IsSeen longer
    walk-IsSeen depth rel names (directory m l) out longer d there text seen h =
        let (mid, first, a) =
          bind-eq-ok (snapshot_object sha256 base depth rel (directory m l) out) _ h in
        listing-IsSeen (depth + 1) rel names l mid longer d text
          (children_located names m l d there)
          (object-IsSeen depth rel names (directory m l) out mid there text seen first) a
    walk-IsSeen depth rel names (regular m b) out longer d there text seen h =
        object-IsSeen depth rel names (regular m b) out longer there text seen h
    walk-IsSeen depth rel names (symlink m b) out longer d there text seen h =
        object-IsSeen depth rel names (symlink m b) out longer there text seen h
    walk-IsSeen depth rel names (special m) out longer d there text seen h =
        object-IsSeen depth rel names (special m) out longer there text seen h

    listing-IsSeen :
        (depth : ℕ) (rel : Bytes) (names : List Bytes) (l : Listing) (out longer : List Entry)
        → DistinctListing l
        → spelled [] names ≡ ok rel
        → Below names l
        → All IsSeen out
        → snapshot_listing sha256 base depth rel l out ≡ ok longer
        → All IsSeen longer
    listing-IsSeen depth rel names empty out longer d text below seen h =
        subst (All IsSeen) (ok-inj h) seen
    listing-IsSeen depth rel names (entry name o l) out longer d text below seen h =
        elim (if-cases (is_passed_over rel name) _ _ h) [
          | inl (_, rest) ↦ listing-IsSeen depth rel names l out longer d.2 text below.1 seen rest
          | inr (_, entered) ↦
              let (child, joined, a) = bind-eq-ok (path_join rel name) _ entered in
              let (mid, walked, b) = bind-eq-ok (snapshot_walk sha256 base depth child o out) _ a in
              listing-IsSeen depth rel names l mid longer d.2 text below.1
                (walk-IsSeen depth child (names ++ name ∷ []) o out mid d.1 below.0
                  (spelled_append [] names name rel child text joined) seen walked)
                b
        ]

  -- In a tree whose directories hold no name twice, every entry of a snapshot is what snapshot_entry
  -- makes of the object that is found at the names of which its path is joined.
  pub snapshot_tree-IsSeen :
      (snapshot : List Entry)
      → Distinct root
      → snapshot_tree sha256 base root ≡ ok snapshot
      → All IsSeen snapshot
  unfolding snapshot_tree
  snapshot_tree-IsSeen snapshot d h =
      walk-IsSeen 0 [] [] root [] snapshot d (locate_self root) refl tt h
