-- ===== src/Installer/Xar/Sorted.antt =====
-- The sorted members of xar.c in pkgs/installer, and `xar_open` as a whole.
use mathlib.Core.Path.{subst}
use minidarwin.Prelude.{
  ℕ, ◌+◌, ◌≤◌, ◌≡◌, refl, sym, Ordering, some, List, [], ◌∷◌, Bytes, All, All-map, All-zip, length,
  take, drop, arith, Bool-cases, inl, inr,
}
use minidarwin.Installer.Result.{ok, bind-eq-ok, ok-inj}
use minidarwin.Installer.Paths.{str_eq}
use minidarwin.Installer.Paths.Prefix.{str_eq_iff}
use minidarwin.Installer.Paths.Fixed.{IsNormal}
use minidarwin.Installer.Entries.{limit_entries}
use minidarwin.Installer.Decoding.{limit_decoded}
use minidarwin.Installer.Decoding.Bounds.{IsZlib}
use minidarwin.Installer.Xar.{
  Libraries, XarMember, Reading, str_compare, insert_member, sort_members, check_members,
  sorted_members, find_member, required_member, xar_open, read_toc, read_xar_header,
}
use minidarwin.Installer.Xar.Members.{IsSound, total_size, read_toc-IsSound}
use minidarwin.Installer.Xar.Ascending.{
  Below, IsIncreasing, Neighbours-IsIncreasing, check_members-Below, insert_cases, sort-Neighbours,
  str_compare_self,
}

module _ (P : XarMember → Type 0) where
  insert-All :
      (m : XarMember) (list : List XarMember) → P m → All P list → All P (insert_member m list)
  unfolding insert_member
  insert-All m [] h a = (h, tt)
  insert-All m (n ∷ list) h a = elim (insert_cases m n list) [
    | inl (_, e) ↦ subst (All P) (sym e) (h, a)
    | inr (_, e) ↦ subst (All P) (sym e) (a.0, insert-All m list h a.1)
  ]

  sort-All : (list : List XarMember) → All P list → All P (sort_members list)
  unfolding sort_members
  sort-All [] a = tt
  sort-All (m ∷ list) a = insert-All m (sort_members list) a.0 (sort-All list a.1)

insert_sums :
    (m : XarMember) (list : List XarMember)
    → (length (insert_member m list) ≡ length list + 1)
      × (total_size (insert_member m list) ≡ length m.contents + total_size list)
unfolding insert_member
insert_sums m [] = (omega arith, omega arith)
insert_sums m (n ∷ list) =
    let (a, b) = insert_sums m list in
    elim (insert_cases m n list) [
      | inl (_, e) ↦ rw e (omega arith, omega arith)
      | inr (_, e) ↦ rw e (omega arith, omega arith)
    ]

sort_sums :
    (list : List XarMember)
    → (length (sort_members list) ≡ length list)
      × (total_size (sort_members list) ≡ total_size list)
unfolding sort_members
sort_sums [] = (refl, refl)
sort_sums (m ∷ list) =
    let (a, b) = insert_sums m (sort_members list) in
    let (c, d) = sort_sums list in (omega arith, omega arith)

find_cons :
    (m o : XarMember) (list : List XarMember)
    → Below m o
    → find_member list o.name ≡ some o.contents
    → find_member (m ∷ list) o.name ≡ some o.contents
unfolding find_member
find_cons m o list h k =
    let self = str_compare_self m.name in
    elim (Bool-cases (str_eq m.name o.name)) [
      | inr e ↦ rw e k
      | inl e ↦
          let same = (str_eq_iff m.name o.name).0 e in
          let eq : str_compare m.name o.name ≡ Ordering.eq =
            subst (λ n. str_compare m.name n ≡ Ordering.eq) same self in
          cc (h, eq)
    ]

-- Among increasing names, a search finds each member.
increasing_found :
    (list : List XarMember)
    → IsIncreasing list
    → All (λ m. find_member list m.name ≡ some m.contents) list
unfolding find_member
increasing_found [] h = tt
increasing_found (m ∷ list) h =
    let same = (str_eq_iff m.name m.name).1 refl in
    (
      ground arith,
      All-zip (Below m) (λ o. find_member list o.name ≡ some o.contents) _ (λ o. find_cons m o list)
          list h.0 (increasing_found list h.1),
    )

sorted_members-IsSound :
    (total : ℕ) (r q : Reading)
    → IsSound total r
    → sorted_members r ≡ ok q
    → IsSound total q
      × IsIncreasing q.members
      × All (λ m. find_member q.members m.name ≡ some m.contents) q.members
unfolding sorted_members
sorted_members-IsSound total r q s e =
    let (_, passed, same) = bind-eq-ok (check_members (sort_members r.members)) _ e in
    let (a, b) = sort_sums r.members in
    let i =
      Neighbours-IsIncreasing (sort_members r.members)
        (check_members-Below (sort_members r.members) (sort-Neighbours r.members) passed) in
    subst
      (λ q.
        IsSound total q
        × IsIncreasing q.members
        × All (λ m. find_member q.members m.name ≡ some m.contents) q.members)
      (ok-inj same)
      (
        record {
          names = sort-All _ r.members s.names;
          count = omega (arith, s.count);
          sizes = sort-All _ r.members s.sizes;
          account = omega (arith, s.account);
          bounded = s.bounded;
        },
        i,
        increasing_found (sort_members r.members) i,
      )

found-required :
    (list : List XarMember) (name b : Bytes)
    → find_member list name ≡ some b
    → required_member list name ≡ ok b
unfolding required_member
found-required list name b e = rw (e, required_member) refl

-- With a zlib that behaves as documented and a total within its limit, the members of a container
-- that is opened have normalized names in strictly increasing order, are at most 100000, and are
-- each found by their name; the total and their sizes are not above the decoded bytes, nor those
-- above the limit.
pub xar_open-members :
    (lib : Libraries) (file : Bytes) (total : ℕ) (r : Reading)
    → IsZlib lib.zlib
    → total ≤ limit_decoded
    → xar_open lib file total ≡ ok r
    → All (λ m. IsNormal m.name) r.members
      × (length r.members ≤ limit_entries)
      × (total + total_size r.members ≤ r.decoded)
      × (r.decoded ≤ limit_decoded)
      × IsIncreasing r.members
      × All (λ m. required_member r.members m.name ≡ ok m.contents) r.members
unfolding xar_open
xar_open-members lib file total r documented h e =
    let (header, _, a) = bind-eq-ok (read_xar_header file) _ e in
    let (read, b, c) =
      bind-eq-ok
        (read_toc lib header file (take header.toc_packed (drop header.size file))
          (drop (header.size + header.toc_packed) file) total)
        _ a in
    let (taken, more, sound) = read_toc-IsSound lib documented header file _ _ total read h b in
    let (s, i, f) = sorted_members-IsSound taken read r sound c in
    (
      s.names,
      s.count,
      omega (arith, s.account),
      s.bounded,
      i,
      All-map (λ m. find_member r.members m.name ≡ some m.contents) _
          (λ m. found-required r.members m.name m.contents) r.members f,
    )
