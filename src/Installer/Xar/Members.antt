-- ===== src/Installer/Xar/Members.antt =====
-- The members that the walk of xar.c in pkgs/installer collects.
use mathlib.Core.Path.{subst}
use minidarwin.Prelude.{
  none, ◌||◌, ℕ, ◌+◌, ◌≤◌, ◌≡◌, ◌≢◌, false, not, List, [], ◌∷◌, ◌++◌, Bytes, All, All-append, codes,
  length, length-append, length-take, take, drop, leb, ltb, arith, Bool-cases, inl, inr,
}
use minidarwin.Installer.Result.{
  Result, missing_checksum, out_of_fuel, member_out_of_bounds, unsafe_member_name, nesting_limit,
  member_limit, ok, die_if, bind-eq-ok, Outcome-ok, ok-inj,
}
use minidarwin.Installer.Paths.{str_eq, path_join, limit_depth, is_empty, dot, dot_dot}
use minidarwin.Installer.Paths.Fixed.{IsNormal, path_normalize-IsNormal}
use minidarwin.Installer.Entries.{limit_entries}
use minidarwin.Installer.Xml.{
  XmlNode, null, element, text, other, xml_child, xml_is, xml_parse, xml_root, is_missing,
  children_of, limit_xml, xml_text, xml_attr, xml_child_uint,
}
use minidarwin.Installer.Decoding.{inflate_limited, decoded_account, limit_decoded}
use minidarwin.Installer.Decoding.Bounds.{IsZlib, inflate_limited_bounds}
use minidarwin.Installer.Xar.{
  Libraries, XarMember, Reading, has_slash, limit_member, visit, decode_member, read_member,
  member_path, add_member, toc_file, walk_files, XarHeader, read_toc, walk_toc, check_toc, in_heap,
  verify_checksum,
}

abbrev pub total_size : List XarMember → ℕ
total_size [] = 0
total_size (m ∷ list) = length m.contents + total_size list

-- The members are named by normalized paths and within the limits, and `decoded` has grown from
-- `total` by their sizes.
pub record IsSound (total : ℕ) (r : Reading) : Type 0 where
  pub names : All (λ m. IsNormal m.name) r.members
  pub count : length r.members ≤ limit_entries
  pub sizes : All (λ m. length m.contents ≤ limit_member) r.members
  pub account : r.decoded ≡ total + total_size r.members
  pub bounded : r.decoded ≤ limit_decoded

total_size-append : (a b : List XarMember) → total_size (a ++ b) ≡ total_size a + total_size b
total_size-append [] b = omega arith
total_size-append (m ∷ a) b = omega (arith, total_size-append a b)

-- A member as it comes out of the decoder.
abbrev IsDecoded : ℕ → Bytes × ℕ → Type 0
IsDecoded total out =
    (length out.0 ≤ limit_member) × (out.1 ≡ total + length out.0) × (out.1 ≤ limit_decoded)

module _ (lib : Libraries) (documented : IsZlib lib.zlib) where
  inflated-IsDecoded :
      (total : ℕ) (input : Bytes) (size : ℕ) (out : Bytes × ℕ)
      → total ≤ limit_decoded
      → inflate_limited lib.zlib total input 15 size limit_member ≡ ok out
      → IsDecoded total out
  inflated-IsDecoded total input size out h e =
      let (a, _, c, d) =
        Outcome-ok (λ fault. fault ≢ out_of_fuel) _
          (inflate_limited lib.zlib total input 15 size limit_member) out
          (inflate_limited_bounds lib.zlib documented total input 15 size limit_member h) e in
      (a, c, d)

  decode_member-IsDecoded :
      (total : ℕ) (encoding encoded : Bytes) (field size : ℕ) (out : Bytes × ℕ)
      → total ≤ limit_decoded
      → size ≤ limit_member
      → length encoded ≤ field
      → decode_member lib total encoding encoded field size ≡ ok out
      → IsDecoded total out
  unfolding decode_member decoded_account
  decode_member-IsDecoded total encoding encoded field size out h s l e =
      ground (arith, inflated-IsDecoded total encoded size out h)

  read_member-IsDecoded :
      (node : XmlNode) (heap : Bytes) (total : ℕ) (out : Bytes × ℕ)
      → total ≤ limit_decoded
      → read_member lib node heap total ≡ ok out
      → IsDecoded total out
  unfolding read_member
  read_member-IsDecoded node heap total out h e =
      let (offset, _, a) = bind-eq-ok (xml_child_uint lib.xml node (codes "offset")) _ e in
      let (n, _, b) = bind-eq-ok (xml_child_uint lib.xml node (codes "length")) _ a in
      let (size, _, c) = bind-eq-ok (xml_child_uint lib.xml node (codes "size")) _ b in
      let (_, guard, d) =
        bind-eq-ok
          (die_if (not (in_heap (length heap) offset n) || ltb limit_member size)
            member_out_of_bounds)
          _ c in
      let (_, _, f) =
        bind-eq-ok
          (verify_checksum lib (xml_child node (codes "archived-checksum"))
            (take n (drop offset heap)))
          _ d in
      let (encoding, _, g) =
        bind-eq-ok (xml_attr (xml_child node (codes "encoding")) (codes "style") none) _ f in
      let (o, decoded, i) =
        bind-eq-ok (decode_member lib total encoding (take n (drop offset heap)) n size) _ g in
      let (_, _, same) =
        bind-eq-ok (verify_checksum lib (xml_child node (codes "extracted-checksum")) o.0) _ i in
      let small : size ≤ limit_member = ground arith in
      let short = length-take n (drop offset heap) in
      let it =
        decode_member-IsDecoded total encoding (take n (drop offset heap)) n size o h small
          (omega arith) decoded in
      subst (IsDecoded total) (ok-inj same) it

  add_member-IsSound :
      (total : ℕ) (heap : Bytes) (node : XmlNode) (path : Bytes) (r q : Reading)
      → IsNormal path
      → IsSound total r
      → add_member lib heap node path r ≡ ok q
      → IsSound total q
  unfolding add_member
  add_member-IsSound total heap node path r q normal s e =
      let (_, room, a) =
        bind-eq-ok (die_if (leb limit_entries (length r.members)) member_limit) _ e in
      let (out, read, same) = bind-eq-ok (read_member lib node heap r.decoded) _ a in
      let (b, c, d) = read_member-IsDecoded node heap r.decoded out s.bounded read in
      let m : XarMember = record { name = path; contents = out.0 } in
      subst (IsSound total) (ok-inj same) (record {
        names = All-append _ r.members (m ∷ []) s.names (normal, tt);
        count = ground (arith, length-append r.members (m ∷ []));
        sizes = All-append _ r.members (m ∷ []) s.sizes (b, tt);
        account = omega (arith, s.account, total_size-append r.members (m ∷ []));
        bounded = d;
      })

  member_path-IsNormal :
      (prefix : Bytes) (n : XmlNode) (path : Bytes)
      → member_path lib prefix n ≡ ok path
      → IsNormal path
  unfolding member_path
  member_path-IsNormal prefix n path e =
      let (name, _, a) = bind-eq-ok (xml_text lib.xml (xml_child n (codes "name"))) _ e in
      let (_, _, b) =
        bind-eq-ok
          (die_if (is_empty name || has_slash name || str_eq name dot || str_eq name dot_dot)
            unsafe_member_name)
          _ a in
      let (joined, _, c) = bind-eq-ok (path_join prefix name) _ b in
      path_normalize-IsNormal joined false path c

  toc_file-IsSound :
      (total : ℕ) (heap : Bytes) (n : XmlNode) (path type : Bytes)
      (inside : Reading → Result Reading) (r q : Reading)
      → IsNormal path
      → IsSound total r
      → (inside r ≡ ok q → IsSound total q)
      → toc_file lib heap n path type inside r ≡ ok q
      → IsSound total q
  unfolding toc_file
  toc_file-IsSound total heap n path type inside r q normal s below e =
      ground (arith, add_member-IsSound total heap (xml_child n (codes "data")) path r q normal s)

  visit-IsSound :
      (total : ℕ) (heap prefix : Bytes) (n : XmlNode) (below : Bytes → Reading → Result Reading)
      (r q : Reading)
      → IsSound total r
      → ((path : Bytes) → below path r ≡ ok q → IsSound total q)
      → visit lib heap prefix n below r ≡ ok q
      → IsSound total q
  unfolding visit
  visit-IsSound total heap prefix n below r q s k e = elim (Bool-cases (xml_is n (codes "file"))) [
    | inr no_file ↦ subst (IsSound total) (ok-inj (rw no_file at e)) s
    | inl file ↦
        let (path, named, a) = bind-eq-ok (member_path lib prefix n) _ (rw file at e) in
        let (type, _, b) = bind-eq-ok (xml_text lib.xml (xml_child n (codes "type"))) _ a in
        toc_file-IsSound total heap n path type (below path) r q
          (member_path-IsNormal prefix n path named) s (k path) b
  ]

  walk_files-IsSound :
      (total : ℕ) (heap : Bytes) (depth : ℕ) (prefix : Bytes) (n : XmlNode) (r q : Reading)
      → IsSound total r
      → walk_files lib heap depth prefix n r ≡ ok q
      → IsSound total q
  unfolding walk_files
  walk_files-IsSound total heap depth prefix null r q s e = subst (IsSound total) (ok-inj e) s
  walk_files-IsSound total heap depth prefix (text t next) r q s e =
      walk_files-IsSound total heap depth prefix next r q s e
  walk_files-IsSound total heap depth prefix (other next) r q s e =
      walk_files-IsSound total heap depth prefix next r q s e
  walk_files-IsSound total heap depth prefix (element name attributes children next) r q s e =
      let (p, one, rest) =
        bind-eq-ok (visit lib heap prefix (element name attributes children next) _ r) _ e in
      let here =
        visit-IsSound total heap prefix (element name attributes children next) _ r p s
          (λ path c.
            let (_, _, d) = bind-eq-ok (die_if (ltb limit_depth (depth + 1)) nesting_limit) _ c in
            walk_files-IsSound total heap (depth + 1) path children r p s d)
          one in
      walk_files-IsSound total heap depth prefix next p q here rest

  pub read_toc-IsSound :
      (h : XarHeader) (file packed heap : Bytes) (total : ℕ) (r : Reading)
      → total ≤ limit_decoded
      → read_toc lib h file packed heap total ≡ ok r
      → (taken : ℕ) × (total ≤ taken) × IsSound taken r
  unfolding read_toc walk_toc
  read_toc-IsSound h file packed heap total r low e =
      let (out, inflated, a) =
        bind-eq-ok (inflate_limited lib.zlib total packed 15 h.toc_size limit_xml) _ e in
      let (_, _, sum, bound) =
        Outcome-ok (λ fault. fault ≢ out_of_fuel) _
          (inflate_limited lib.zlib total packed 15 h.toc_size limit_xml) out
          (inflate_limited_bounds lib.zlib documented total packed 15 h.toc_size limit_xml low)
          inflated in
      let (tree, _, b) = bind-eq-ok (xml_parse lib.xml out.0) _ a in
      let (root, _, c) = bind-eq-ok (xml_root tree (codes "xar")) _ b in
      let toc = xml_child root (codes "toc") in
      let (_, _, d) = bind-eq-ok (die_if (is_missing toc) missing_checksum) _ c in
      let (_, _, f) =
        bind-eq-ok (die_if (is_missing (xml_child toc (codes "checksum"))) missing_checksum) _ d in
      let (_, _, g) =
        bind-eq-ok (check_toc lib h file packed heap (xml_child toc (codes "checksum"))) _ f in
      (
        out.1,
        omega arith,
        walk_files-IsSound out.1 heap 0 [] (children_of toc)
            (record { members = []; decoded = out.1 }) r
            (record {
              names = tt;
              count = omega arith;
              sizes = tt;
              account = omega arith;
              bounded = bound;
            })
            g,
      )
