-- ===== src/Installer/Extraction/Standing.antt =====
-- The objects of a tree that stand after a system call of the extraction in pkgs/installer.
use mathlib.Core.Path.{subst}
use minidarwin.Prelude.{
  ℕ, ◌≡◌, refl, sym, ap, ◌∙◌, true, false, List, [], ◌∷◌, Bytes, Bool-cases, inl, inr,
}
use minidarwin.Installer.Result.{ok, bind-eq-ok, ok-inj, if-cases}
use minidarwin.Installer.Paths.{str_eq}
use minidarwin.Installer.Staging.{
  Meta, Object, directory, regular, symlink, special, Listing, empty, entry, restore_directory,
  restore_entry,
}
use minidarwin.Installer.Extraction.{
  Located, absent, located, through_file, is_dir, locate, locate_in, create, create_in,
}

-- What is found is the object itself, or a directory where it was one.
abbrev pub Stands : Object → Located → Type 0
Stands o absent = ⊥
Stands o through_file = ⊥
Stands o (located r) = (is_dir o ≡ true → is_dir r ≡ true) × (is_dir o ≡ false → r ≡ o)

-- Every object of the one tree stands in the other.
abbrev pub Keeps : Object → Object → Type 0
Keeps t u = (q : List Bytes) (o : Object) → locate t q ≡ located o → Stands o (locate u q)

pub Stands-self : (o : Object) (r : Located) → r ≡ located o → Stands o r
Stands-self o r e = subst (Stands o) (sym e) ((λ d. d), (λ d. refl))

pub Keeps-refl : (t : Object) → Keeps t t
Keeps-refl t q o e = Stands-self o (locate t q) e

pub located-inj : (o r : Object) → located o ≡ located r → o ≡ r
located-inj o r e = cc

pub Stands-trans :
    (o : Object) (a b : Located)
    → Stands o a
    → ((r : Object) → a ≡ located r → Stands r b)
    → Stands o b
Stands-trans o absent b h k = absurd h
Stands-trans o through_file b h k = absurd h
Stands-trans o (located r) absent h k = absurd (k r refl)
Stands-trans o (located r) through_file h k = absurd (k r refl)
Stands-trans o (located r) (located s) h k =
    let (d, f) = k r refl in
    ((λ e. d (h.0 e)), (λ e. let same = h.1 e in f (ap is_dir same ∙ e) ∙ same))

pub Keeps-trans : (t u v : Object) → Keeps t u → Keeps u v → Keeps t v
Keeps-trans t u v h k q o e = Stands-trans o (locate u q) (locate v q) (h q o e) (λ r f. k q r f)

-- A listing in which the first entry of a name and what follows stand.
pub entry-Stands :
    (own : Bytes) (o p : Object) (l k : Listing) (name : Bytes) (names : List Bytes) (r : Object)
    → (str_eq own name ≡ true → locate o names ≡ located r → Stands r (locate p names))
    → (str_eq own name ≡ false
        → locate_in l name names ≡ located r
        → Stands r (locate_in k name names))
    → locate_in (entry own o l) name names ≡ located r
    → Stands r (locate_in (entry own p k) name names)
unfolding locate
entry-Stands own o p l k name names r h later e = elim (Bool-cases (str_eq own name)) [
  | inl s ↦ rw s (h s (rw s at e))
  | inr s ↦ rw s (later s (rw s at e))
]

pub root-Stands :
    (m n : Meta) (l k : Listing) (o : Object)
    → locate (directory m l) [] ≡ located o
    → Stands o (locate (directory n k) [])
unfolding locate
root-Stands m n l k o e =
    let same = located-inj (directory m l) o e in ((λ d. refl), (λ d. cc (ap is_dir same, d)))

directory-Stands :
    (m n : Meta) (l k : Listing) (q : List Bytes) (o : Object)
    → ((name : Bytes) (names : List Bytes) (r : Object)
        → locate_in l name names ≡ located r
        → Stands r (locate_in k name names))
    → locate (directory m l) q ≡ located o
    → Stands o (locate (directory n k) q)
unfolding locate
directory-Stands m n l k [] o h e = root-Stands m n l k o e
directory-Stands m n l k (name ∷ names) o h e = h name names o e

pub absent-located :
    (n : Bytes) (ns : List Bytes) (r : Object) → locate_in empty n ns ≡ located r → {A : Type 0} → A
unfolding locate
absent-located n ns r e = cc

mutual
  unfolding create

  pub create-Keeps :
      (t : Object) (path : List Bytes) (x u : Object) → create t path x ≡ ok u → Keeps t u
  create-Keeps (directory m l) [] x u e = cc
  create-Keeps (directory m l) (name ∷ names) x u e =
      let (k, made, same) = bind-eq-ok (create_in l name names x) _ e in
      subst (Keeps (directory m l)) (ok-inj same)
        (λ q o. directory-Stands m m l k q o (create_in-Keeps l name names x k made))
  create-Keeps (regular m b) path x u e = cc
  create-Keeps (symlink m b) path x u e = cc
  create-Keeps (special m) path x u e = cc

  create_in-Keeps :
      (l : Listing) (name : Bytes) (names : List Bytes) (x : Object) (k : Listing)
      → create_in l name names x ≡ ok k
      → (n : Bytes) (ns : List Bytes) (r : Object) → locate_in l n ns ≡ located r
      → Stands r (locate_in k n ns)
  create_in-Keeps empty name names x k e n ns r f = absent-located n ns r f
  create_in-Keeps (entry own o l) name names x k e n ns r f =
      elim (if-cases (str_eq own name) _ _ e) [
        | inl (_, a) ↦
            let (p, made, same) = bind-eq-ok (create o names x) _ a in
            subst (λ z. Stands r (locate_in z n ns)) (ok-inj same)
              (entry-Stands own o p l l n ns r (λ _. create-Keeps o names x p made ns r)
                (λ _ g. Stands-self r (locate_in l n ns) g) f)
        | inr (_, a) ↦
            let (p, made, same) = bind-eq-ok (create_in l name names x) _ a in
            subst (λ z. Stands r (locate_in z n ns)) (ok-inj same)
              (entry-Stands own o o l p n ns r (λ _ g. Stands-self r (locate o ns) g)
                (λ _. create_in-Keeps l name names x p made n ns r) f)
      ]

mutual
  unfolding restore_directory

  pub restore_directory-Keeps :
      (t : Object) (path : List Bytes) (mode mtime : ℕ) (u : Object)
      → restore_directory t path mode mtime ≡ ok u
      → Keeps t u
  restore_directory-Keeps (directory m l) [] mode mtime u e =
      subst (Keeps (directory m l)) (ok-inj e)
        (λ q o. directory-Stands m _ l l q o (λ n ns r. Stands-self r (locate_in l n ns)))
  restore_directory-Keeps (directory m l) (name ∷ names) mode mtime u e =
      let (k, made, same) = bind-eq-ok (restore_entry l name names mode mtime) _ e in
      subst (Keeps (directory m l)) (ok-inj same)
        (λ q o. directory-Stands m m l k q o (restore_entry-Keeps l name names mode mtime k made))
  restore_directory-Keeps (regular m b) path mode mtime u e = cc
  restore_directory-Keeps (symlink m b) path mode mtime u e = cc
  restore_directory-Keeps (special m) path mode mtime u e = cc

  restore_entry-Keeps :
      (l : Listing) (name : Bytes) (names : List Bytes) (mode mtime : ℕ) (k : Listing)
      → restore_entry l name names mode mtime ≡ ok k
      → (n : Bytes) (ns : List Bytes) (r : Object) → locate_in l n ns ≡ located r
      → Stands r (locate_in k n ns)
  restore_entry-Keeps empty name names mode mtime k e n ns r f = absent-located n ns r f
  restore_entry-Keeps (entry own o l) name names mode mtime k e n ns r f =
      elim (if-cases (str_eq own name) _ _ e) [
        | inl (_, a) ↦
            let (p, made, same) = bind-eq-ok (restore_directory o names mode mtime) _ a in
            subst (λ z. Stands r (locate_in z n ns)) (ok-inj same)
              (entry-Stands own o p l l n ns r
                (λ _. restore_directory-Keeps o names mode mtime p made ns r)
                (λ _ g. Stands-self r (locate_in l n ns) g) f)
        | inr (_, a) ↦
            let (p, made, same) = bind-eq-ok (restore_entry l name names mode mtime) _ a in
            subst (λ z. Stands r (locate_in z n ns)) (ok-inj same)
              (entry-Stands own o o l p n ns r (λ _ g. Stands-self r (locate o ns) g)
                (λ _. restore_entry-Keeps l name names mode mtime p made n ns r) f)
      ]
