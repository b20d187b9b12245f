-- ===== src/Installer/Extraction/Grown.antt =====
-- A tree and a journal that have grown from a base, in the extraction of pkgs/installer.
use minidarwin.Prelude.{
  ◌≡◌, ◌≢◌, refl, ap, Bool, true, false, List, [], ◌∷◌, ◌++◌, Bytes, All, Bool-cases, inl, inr,
}
use minidarwin.Installer.Result.{Result-cases}
use minidarwin.Installer.Staging.{Object, directory, empty, Process}
use minidarwin.Installer.Extraction.{
  Attempt, failed, reached, and_then, Located, absent, located, through_file, is_dir, locate,
  create, Progress, journal_add, own_meta, add_object, check_parent, path_parents,
}
use minidarwin.Installer.Extraction.Steps.{create-located}
use minidarwin.Installer.Extraction.Standing.{Stands, Keeps, Keeps-refl, Keeps-trans, create-Keeps}

-- No object of the tree has the path.
abbrev pub IsNew : Object → List Bytes → Type 0
IsNew base path = (o : Object) → locate base path ≢ located o

-- The objects of the base stand, and the journal lists none of them.
pub record IsGrown (base : Object) (s : Progress) : Type 0 where
  pub keeps : Keeps base s.tree
  pub fresh : All (IsNew base) s.journal

Stands-absent : (o : Object) (r : Located) → Stands o r → (q : Object) × (r ≡ located q)
Stands-absent o absent h = absurd h
Stands-absent o through_file h = absurd h
Stands-absent o (located q) h = (q, refl)

-- A path at which nothing is found has never been one of the base.
Keeps-IsNew : (base t : Object) (path : List Bytes) → Keeps base t → IsNew t path → IsNew base path
Keeps-IsNew base t path k n o e = let (q, f) = Stands-absent o (locate t path) (k path o e) in n q f

added :
    (P : List Bytes → Type 0) (live : Bool) (path : List Bytes) (journal : List (List Bytes))
    → P path
    → All P journal
    → All P (journal_add live path journal)
added P true path journal h a = (h, a)
added P false path journal h a = a

pub Stands-file : (o : Object) (r : Located) → is_dir o ≡ false → Stands o r → r ≡ located o
Stands-file o absent f h = absurd h
Stands-file o through_file f h = absurd h
Stands-file o (located q) f h = ap (λ z. located z) (h.1 f)

pub Stands-dir :
    (o : Object) (r : Located)
    → is_dir o ≡ true
    → Stands o r
    → (q : Object) × (r ≡ located q) × (is_dir q ≡ true)
Stands-dir o absent d h = absurd h
Stands-dir o through_file d h = absurd h
Stands-dir o (located q) d h = (q, refl, h.0 d)

-- What an attempt leaves, and what holds where it goes on.
abbrev pub Leaves {ℓ} :
    {Value : Type ℓ} → (Progress → Type 0) → (Value → Progress → Type 0) → Attempt Value → Type 0
Leaves I Q (failed fault s) = I s
Leaves I Q (reached value s) = I s × Q value s

abbrev pub Anything {ℓ} : {Value : Type ℓ} → Value → Progress → Type 0
Anything value s = Unit

pub Leaves-map {ℓ} :
    {Value : Type ℓ} (I : Progress → Type 0) (P Q : Value → Progress → Type 0) (m : Attempt Value)
    → ((value : Value) (s : Progress) → P value s → Q value s)
    → Leaves I P m
    → Leaves I Q m
Leaves-map I P Q (failed fault s) f h = h
Leaves-map I P Q (reached value s) f h = (h.0, f value s h.1)

module _ (p : Process) (live : Bool) (base : Object) where
  unfoldable pub Grown : Progress → Progress → Type 0
  Grown s t = IsGrown base t × Keeps s.tree t.tree

  pub unchanged-Grown : (s : Progress) → IsGrown base s → Grown s s
  unfolding Grown
  unchanged-Grown s g = (g, Keeps-refl s.tree)

  Grown-trans : (s t u : Progress) → Grown s t → Grown t u → Grown s u
  unfolding Grown
  Grown-trans s t u a b = (b.0, Keeps-trans s.tree t.tree u.tree a.1 b.1)

  Leaves-later :
      {Value : Type 0} (s t : Progress) (Q : Value → Progress → Type 0) (m : Attempt Value)
      → Grown s t
      → Leaves (Grown t) Q m
      → Leaves (Grown s) Q m
  Leaves-later s t Q (failed fault u) g h = Grown-trans s t u g h
  Leaves-later s t Q (reached value u) g h = (Grown-trans s t u g h.0, h.1)

  pub and_then-Grown :
      {Value After : Type 0} (s : Progress) (P : Value → Progress → Type 0)
      (Q : After → Progress → Type 0) (first : Attempt Value)
      (next : Value → Progress → Attempt After)
      → Leaves (Grown s) P first
      → ((value : Value) (t : Progress)
          → IsGrown base t
          → Keeps s.tree t.tree
          → P value t
          → Leaves (Grown t) Q (next value t))
      → Leaves (Grown s) Q (and_then first next)
  unfolding Grown
  and_then-Grown s P Q (failed fault t) next h k = h
  and_then-Grown s P Q (reached value t) next h k =
      Leaves-later s t Q (next value t) h.0 (k value t h.0.0 h.0.1 h.1)

  pub add_object-Grown :
      (path : List Bytes) (x : Object) (s : Progress)
      → IsNew s.tree path
      → IsGrown base s
      → Leaves (Grown s) (λ _ t. locate t.tree path ≡ located x) (add_object p live path x s)
  unfolding add_object Grown
  add_object-Grown path x s n g = elim (Result-cases (create s.tree path x)) [
    | inl (fault, e) ↦ rw e (g, Keeps-refl s.tree)
    | inr (tree, e) ↦
        let keeps = create-Keeps s.tree path x tree e in
        rw e (
          (
            record {
              keeps = Keeps-trans base s.tree tree g.keeps keeps;
              fresh =
                  added (IsNew base) live path s.journal (Keeps-IsNew base s.tree path g.keeps n)
                    g.fresh;
            },
            keeps,
          ),
          create-located s.tree path x tree e,
        )
  ]

  check_parent-Grown :
      (path : List Bytes) (r : Located) (s : Progress)
      → locate s.tree path ≡ r
      → IsGrown base s
      → Leaves (Grown s) Anything (check_parent p live path r s)
  check_parent-Grown path absent s l g =
      let made = directory (own_meta p 0o755) empty in
      Leaves-map (Grown s) (λ _ t. locate t.tree path ≡ located made) Anything
        (add_object p live path made s) (λ _ _ _. tt)
        (add_object-Grown path made s (λ o f. cc (l, f)) g)
  check_parent-Grown path through_file s l g = unchanged-Grown s g
  check_parent-Grown path (located o) s l g = elim (Bool-cases (is_dir o)) [
    | inl d ↦ rw d (unchanged-Grown s g, tt)
    | inr d ↦ rw d (unchanged-Grown s g)
  ]

  pub path_parents-Grown :
      (before names : List Bytes) (s : Progress)
      → IsGrown base s
      → Leaves (Grown s) Anything (path_parents p live before names s)
  unfolding path_parents
  path_parents-Grown before [] s g = (unchanged-Grown s g, tt)
  path_parents-Grown before (name ∷ []) s g = (unchanged-Grown s g, tt)
  path_parents-Grown before (name ∷ next ∷ names) s g =
      let here = before ++ name ∷ [] in
      and_then-Grown s Anything Anything (check_parent p live here (locate s.tree here) s) _
        (check_parent-Grown here (locate s.tree here) s refl g)
        (λ made t h _ _. path_parents-Grown here (next ∷ names) t h)
