-- ===== src/Installer/Extraction/Steps.antt =====
-- What one system call of the extraction in pkgs/installer does to the objects of a tree.
use mathlib.Core.Path.{subst}
use minidarwin.Prelude.{
  ◌≡◌, ◌≢◌, refl, sym, ◌∙◌, true, false, List, [], ◌∷◌, Bytes, Bool-cases, inl, inr,
}
use minidarwin.Installer.Result.{ok, bind-eq-ok, ok-inj, if-cases}
use minidarwin.Installer.Paths.{str_eq}
use minidarwin.Installer.Paths.Prefix.{str_eq_iff}
use minidarwin.Installer.Staging.{
  Meta, Object, directory, regular, symlink, special, Listing, empty, entry,
}
use minidarwin.Installer.Extraction.{
  located, locate, locate_in, create, create_in, is_vacant, remove_object, remove_in,
}
use minidarwin.Installer.Extraction.Standing.{
  Stands, Stands-self, absent-located, entry-Stands, root-Stands,
}

pub locate_self : (x : Object) → locate x [] ≡ located x
unfolding locate
locate_self (directory m l) = refl
locate_self (regular m b) = refl
locate_self (symlink m b) = refl
locate_self (special m) = refl

pub locate_head :
    (own : Bytes) (o : Object) (l : Listing) (names : List Bytes)
    → locate_in (entry own o l) own names ≡ locate o names
unfolding locate
locate_head own o l names = let same = (str_eq_iff own own).1 refl in rw same refl

pub locate_tail :
    (own name : Bytes) (o : Object) (l : Listing) (names : List Bytes)
    → str_eq own name ≡ false
    → locate_in (entry own o l) name names ≡ locate_in l name names
unfolding locate
locate_tail own name o l names e = rw e refl

pub locate_below :
    (m : Meta) (l : Listing) (name : Bytes) (names : List Bytes)
    → locate (directory m l) (name ∷ names) ≡ locate_in l name names
unfolding locate
locate_below m l name names = refl

mutual
  unfolding create

  -- What has been created is found.
  pub create-located :
      (t : Object) (path : List Bytes) (x u : Object)
      → create t path x ≡ ok u
      → locate u path ≡ located x
  create-located (directory m l) [] x u e = cc
  create-located (directory m l) (name ∷ names) x u e =
      let (k, made, same) = bind-eq-ok (create_in l name names x) _ e in
      subst (λ z. locate z (name ∷ names) ≡ located x) (ok-inj same)
        (locate_below m k name names ∙ create_in-located l name names x k made)
  create-located (regular m b) path x u e = cc
  create-located (symlink m b) path x u e = cc
  create-located (special m) path x u e = cc

  create_in-located :
      (l : Listing) (name : Bytes) (names : List Bytes) (x : Object) (k : Listing)
      → create_in l name names x ≡ ok k
      → locate_in k name names ≡ located x
  create_in-located empty name [] x k e =
      subst (λ z. locate_in z name [] ≡ located x) (ok-inj e)
        (locate_head name x empty [] ∙ locate_self x)
  create_in-located empty name (next ∷ names) x k e = cc
  create_in-located (entry own o l) name names x k e = elim (if-cases (str_eq own name) _ _ e) [
    | inl (s, a) ↦
        let (p, made, same) = bind-eq-ok (create o names x) _ a in
        subst (λ z. locate_in z name names ≡ located x) (ok-inj same)
          (subst (λ n. locate_in (entry own p l) n names ≡ located x) ((str_eq_iff own name).0 s)
            (locate_head own p l names ∙ create-located o names x p made))
    | inr (s, a) ↦
        let (p, made, same) = bind-eq-ok (create_in l name names x) _ a in
        subst (λ z. locate_in z name names ≡ located x) (ok-inj same)
          (locate_tail own name o p names s ∙ create_in-located l name names x p made)
  ]

-- Below a file, a link or an empty directory nothing is found.
vacant-locate :
    (o : Object) (name : Bytes) (names : List Bytes) (r : Object)
    → is_vacant o ≡ true
    → locate o (name ∷ names) ≢ located r
unfolding locate
vacant-locate (directory m empty) name names r v e = cc
vacant-locate (directory m (entry own o l)) name names r v e = cc
vacant-locate (regular m b) name names r v e = cc
vacant-locate (symlink m b) name names r v e = cc
vacant-locate (special m) name names r v e = cc

vacant-below :
    (own name : Bytes) (o : Object) (l : Listing) (k : Bytes) (ks : List Bytes) (r : Object)
    → own ≡ name
    → own ≡ k
    → is_vacant o ≡ true
    → (k ∷ ks) ≢ (name ∷ [])
    → locate_in (entry own o l) k ks ≡ located r
    → Stands r (locate_in l k ks)
vacant-below own name o l k [] r a b v n e = absurd (n (cc (a, b)))
vacant-below own name o l k (next ∷ ks) r a b v n e =
    let here = subst (λ z. locate_in (entry own o l) z (next ∷ ks) ≡ located r) (sym b) e in
    absurd (vacant-locate o next ks r v (sym (locate_head own o l (next ∷ ks)) ∙ here))

removed-Stands :
    (own name : Bytes) (o : Object) (l : Listing) (k : Bytes) (ks : List Bytes) (r : Object)
    → str_eq own name ≡ true
    → is_vacant o ≡ true
    → (k ∷ ks) ≢ (name ∷ [])
    → locate_in (entry own o l) k ks ≡ located r
    → Stands r (locate_in l k ks)
removed-Stands own name o l k ks r s v n e = elim (Bool-cases (str_eq own k)) [
  | inr f ↦ Stands-self r (locate_in l k ks) (sym (locate_tail own k o l ks f) ∙ e)
  | inl f ↦
      let a = (str_eq_iff own name).0 s in
      let b = (str_eq_iff own k).0 f in vacant-below own name o l k ks r a b v n e
]

mutual
  unfolding remove_object

  -- A removal takes away the one object, if it is vacant.
  pub remove_object-Stands :
      (t : Object) (path q : List Bytes) (o : Object)
      → q ≢ path
      → locate t q ≡ located o
      → Stands o (locate (remove_object t path) q)
  remove_object-Stands (directory m l) [] q o n e = Stands-self o (locate (directory m l) q) e
  remove_object-Stands (directory m l) (name ∷ names) [] o n e =
      root-Stands m m l (remove_in l name names) o e
  remove_object-Stands (directory m l) (name ∷ names) (k ∷ ks) o n e =
      subst (Stands o) (sym (locate_below m (remove_in l name names) k ks))
        (remove_in-Stands l name names k ks o n (sym (locate_below m l k ks) ∙ e))
  remove_object-Stands (regular m b) path q o n e = Stands-self o (locate (regular m b) q) e
  remove_object-Stands (symlink m b) path q o n e = Stands-self o (locate (symlink m b) q) e
  remove_object-Stands (special m) path q o n e = Stands-self o (locate (special m) q) e

  remove_in-Stands :
      (l : Listing) (name : Bytes) (names : List Bytes) (k : Bytes) (ks : List Bytes) (r : Object)
      → (k ∷ ks) ≢ (name ∷ names)
      → locate_in l k ks ≡ located r
      → Stands r (locate_in (remove_in l name names) k ks)
  remove_in-Stands empty name names k ks r n e = absent-located k ks r e
  remove_in-Stands (entry own o l) name [] k ks r n e = elim (Bool-cases (str_eq own name)) [
    | inr s ↦ rw s (
        entry-Stands own o o l (remove_in l name []) k ks r (λ _ g. Stands-self r (locate o ks) g)
          (λ _. remove_in-Stands l name [] k ks r n) e)
    | inl s ↦ elim (Bool-cases (is_vacant o)) [
      | inr v ↦ rw (s, v) (Stands-self r (locate_in (entry own o l) k ks) e)
      | inl v ↦ rw (s, v) (removed-Stands own name o l k ks r s v n e)
    ]
  ]
  remove_in-Stands (entry own o l) name (next ∷ names) k ks r n e =
      elim (Bool-cases (str_eq own name)) [
        | inr s ↦ rw s (
            entry-Stands own o o l (remove_in l name (next ∷ names)) k ks r
              (λ _ g. Stands-self r (locate o ks) g)
              (λ _. remove_in-Stands l name (next ∷ names) k ks r n) e)
        | inl s ↦ rw s (
            entry-Stands own o (remove_object o (next ∷ names)) l l k ks r
              (λ f. remove_object-Stands o (next ∷ names) ks r (λ g.
                let a = (str_eq_iff own name).0 s in
                let b = (str_eq_iff own k).0 f in n (cc (a, b, g))))
              (λ _ g. Stands-self r (locate_in l k ks) g) e)
      ]
