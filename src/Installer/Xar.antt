-- ===== src/Installer/Xar.antt =====
-- XAR containers, pkgs/installer/xar.c. The file is its bytes; zlib, OpenSSL and libxml2 are
-- parameters, and the total of decoded bytes, a static variable of the source, is passed on.
pub mod Members
pub mod Ascending
pub mod Sorted
use minidarwin.Prelude.{
  ℕ, zero, suc, ◌+◌, ◌-◌, ◌*◌, ◌≤◌, ◌≡◌, Ordering, compare, Bool, true, false, not, ◌&&◌, ◌||◌,
  Option, none, some, List, [], ◌∷◌, ◌++◌, Bytes, codes, length, take, drop, ltb, leb, ◌==◌,
  if◌then◌else◌,
}
use minidarwin.Installer.Result.{
  Fault, nesting_limit, size_mismatch, missing_checksum, checksum_mismatch, member_out_of_bounds,
  unsupported_encoding, unsafe_member_name, unsupported_member, member_limit, not_a_package,
  invalid_header, toc_checksum, duplicate_member, missing_member, Result, ok, err, ◌>>=◌, ◌>>◌,
  die_if,
}
use minidarwin.Installer.Paths.{
  is_empty, str_eq, path_join, path_normalize, dot, dot_dot, limit_depth,
}
use minidarwin.Installer.Entries.{limit_entries}
use minidarwin.Installer.Xml.{
  XmlNode, null, element, text, other, Libxml, is_missing, xml_parse, xml_root, xml_is, xml_child,
  xml_attr, xml_text, xml_child_uint, children_of, limit_xml,
}
use minidarwin.Installer.Decoding.{
  Zlib, Openssl, inflate_limited, decoded_account, digest, hex_encode, limit_decoded,
}

-- The libraries that a package is read with.
pub record Libraries : Type 1 where
  pub xml : Libxml
  pub zlib : Zlib
  pub evp : Openssl

-- `contents` is the source's `data`.
pub record XarMember : Type 0 where
  pub name : Bytes
  pub contents : Bytes

-- Members in a growing array, and the bytes decoded so far.
pub record Reading : Type 0 where
  pub members : List XarMember
  pub decoded : ℕ

abbrev pub limit_member : ℕ
limit_member = 536870912

-- v = (v << 8) | *p++, in 64 bits
unfoldable pub big_endian_onto : ℕ → Bytes → ℕ
big_endian_onto v [] = v
big_endian_onto v (c ∷ s) = big_endian_onto (v * 256 + c) s

-- The `n` bytes at `offset`; no more than eight are read.
unfoldable pub big_endian : Bytes → ℕ → ℕ → ℕ
big_endian file offset n = big_endian_onto 0 (take n (drop offset file))

abbrev pub lower : ℕ → ℕ
lower c = if leb b'A' c && leb c b'Z' then c + 32 else c

-- !strcasecmp(s, t)
unfoldable pub same_text : Bytes → Bytes → Bool
same_text [] [] = true
same_text [] (d ∷ t) = false
same_text (c ∷ s) [] = false
same_text (c ∷ s) (d ∷ t) = (lower c == lower d) && same_text s t

unfoldable pub verify_checksum : Libraries → XmlNode → Bytes → Result (Unit {0})
verify_checksum lib checksum b = do
  die_if (is_missing checksum) missing_checksum
  style ← xml_attr checksum (codes "style") none
  want ← xml_text lib.xml checksum
  hash ← digest lib.evp b style
  die_if (not (same_text want (hex_encode hash))) checksum_mismatch

-- The decoded member, with the new total of decoded bytes.
unfoldable pub decode_member : Libraries → ℕ → Bytes → Bytes → ℕ → ℕ → Result (Bytes × ℕ)
decode_member lib total encoding encoded length_field size =
    if str_eq encoding (codes "application/x-gzip")
    then inflate_limited lib.zlib total encoded 15 size limit_member
    else if str_eq encoding (codes "application/octet-stream")
    then (if not (length_field == size)
        then err size_mismatch
        else (decoded_account total (length encoded) >>= (λ sum. ok (encoded, sum))))
    else err unsupported_encoding

unfoldable pub in_heap : ℕ → ℕ → ℕ → Bool
in_heap heap offset n = leb offset heap && leb n (heap - offset)

unfoldable pub read_member : Libraries → XmlNode → Bytes → ℕ → Result (Bytes × ℕ)
read_member lib node heap total = do
  offset ← xml_child_uint lib.xml node (codes "offset")
  n ← xml_child_uint lib.xml node (codes "length")
  size ← xml_child_uint lib.xml node (codes "size")
  die_if (not (in_heap (length heap) offset n) || ltb limit_member size) member_out_of_bounds
  verify_checksum lib (xml_child node (codes "archived-checksum")) (take n (drop offset heap))
  encoding ← xml_attr (xml_child node (codes "encoding")) (codes "style") none
  out ← decode_member lib total encoding (take n (drop offset heap)) n size
  verify_checksum lib (xml_child node (codes "extracted-checksum")) out.0
  ok out

unfoldable pub has_slash : Bytes → Bool
has_slash [] = false
has_slash (c ∷ s) = c == b'/' || has_slash s

-- The path of a member, below the directories that it stands in.
unfoldable pub member_path : Libraries → Bytes → XmlNode → Result Bytes
member_path lib prefix n = do
  name ← xml_text lib.xml (xml_child n (codes "name"))
  die_if (is_empty name || has_slash name || str_eq name dot || str_eq name dot_dot)
      unsafe_member_name
  joined ← path_join prefix name
  path_normalize joined false

unfoldable pub add_member : Libraries → Bytes → XmlNode → Bytes → Reading → Result Reading
add_member lib heap node path r = do
  die_if (leb limit_entries (length r.members)) member_limit
  out ← read_member lib node heap r.decoded
  ok (record r {
    members = r.members ++ record { name = path; contents = out.0 } ∷ [];
    decoded = out.1;
  })

-- One file element; `inside` is the walk of its children.
unfoldable pub toc_file :
    Libraries
    → Bytes
    → XmlNode
    → Bytes
    → Bytes
    → (Reading → Result Reading)
    → Reading
    → Result Reading
toc_file lib heap n path type inside r =
    if str_eq type (codes "directory") && is_missing (xml_child n (codes "data"))
    then inside r
    else if str_eq type (codes "file") && not (is_missing (xml_child n (codes "data")))
    then add_member lib heap (xml_child n (codes "data")) path r
    else err unsupported_member

-- The body of the loop of `walk_toc`, for one of the siblings; `below` walks the children of a
-- directory.
unfoldable pub visit :
    Libraries
    → Bytes
    → Bytes
    → XmlNode
    → (Bytes → Reading → Result Reading)
    → Reading
    → Result Reading
visit lib heap prefix n below r = if not (xml_is n (codes "file")) then ok r else (do
  path ← member_path lib prefix n
  type ← xml_text lib.xml (xml_child n (codes "type"))
  toc_file lib heap n path type (below path) r)

-- The loop of `walk_toc`, from one of the siblings.
unfoldable pub walk_files : Libraries → Bytes → ℕ → Bytes → XmlNode → Reading → Result Reading
walk_files lib heap depth prefix null r = ok r
walk_files lib heap depth prefix (text t next) r = walk_files lib heap depth prefix next r
walk_files lib heap depth prefix (other next) r = walk_files lib heap depth prefix next r
walk_files lib heap depth prefix (element name attributes children next) r = do
  let below = λ (path : Bytes) (q : Reading).
      (die_if (ltb limit_depth (depth + 1)) nesting_limit
        >> walk_files lib heap (depth + 1) path children q)
  q ← visit lib heap prefix (element name attributes children next) below r
  walk_files lib heap depth prefix next q

-- `total` is what the table itself has taken.
unfoldable pub walk_toc : Libraries → Bytes → XmlNode → ℕ → Result Reading
walk_toc lib heap toc total =
    walk_files lib heap 0 [] (children_of toc) (record { members = []; decoded = total })

-- strcmp, on bytes
unfoldable pub str_compare : Bytes → Bytes → Ordering
str_compare [] [] = Ordering.eq
str_compare [] (d ∷ t) = Ordering.lt
str_compare (c ∷ s) [] = Ordering.gt
str_compare (c ∷ s) (d ∷ t) = elim (compare c d) [
  | Ordering.lt ↦ Ordering.lt
  | Ordering.gt ↦ Ordering.gt
  | Ordering.eq ↦ str_compare s t
]

unfoldable pub member_compare : XarMember → XarMember → Ordering
member_compare a b = str_compare a.name b.name

-- `qsort` by `member_compare`
unfoldable pub insert_member : XarMember → List XarMember → List XarMember
insert_member m [] = m ∷ []
insert_member m (n ∷ list) = elim (member_compare m n) [
  | Ordering.gt ↦ n ∷ insert_member m list
  | _ ↦ m ∷ n ∷ list
]

unfoldable pub sort_members : List XarMember → List XarMember
sort_members [] = []
sort_members (m ∷ list) = insert_member m (sort_members list)

-- Neighbours of the same name.
unfoldable pub check_members : List XarMember → Result (Unit {0})
check_members [] = ok tt
check_members (a ∷ []) = ok tt
check_members (a ∷ b ∷ list) = do
  die_if (str_eq a.name b.name) duplicate_member
  check_members (b ∷ list)

pub record XarHeader : Type 0 where
  pub size : ℕ
  pub toc_packed : ℕ
  pub toc_size : ℕ
  pub algorithm : ℕ

abbrev pub header_min : ℕ
header_min = 28

abbrev pub header_named : ℕ
header_named = 64

unfoldable pub is_xar : Bytes → Bool
is_xar file =
    (leb header_min (length file) && str_eq (take 4 file) (codes "xar!"))
    && big_endian file 6 2 == 1

unfoldable pub header_fits : XarHeader → Bytes → Bool
header_fits h file =
    ((leb header_min h.size && leb h.size (length file)) && leb h.toc_packed (length file - h.size))
    && (ltb 0 h.toc_size && leb h.toc_size limit_xml)

unfoldable pub header_of : Bytes → XarHeader
header_of file = record {
  size = big_endian file 4 2;
  toc_packed = big_endian file 8 8;
  toc_size = big_endian file 16 8;
  algorithm = big_endian file 24 4;
}

unfoldable pub read_xar_header : Bytes → Result XarHeader
read_xar_header file = do
  die_if (not (is_xar file)) not_a_package
  die_if (not (header_fits (header_of file) file)) invalid_header
  ok (header_of file)

unfoldable pub until_nul : Bytes → Bytes
until_nul [] = []
until_nul (c ∷ s) = let rest = until_nul s in if c == 0 then [] else c ∷ rest

-- The style that the header lets the table name; `none` is a header that names none.
unfoldable pub expected_style : XarHeader → Bytes → Bytes → Option Bytes
expected_style h file style =
    if h.algorithm == 1
    then some (codes "sha1")
    else if h.algorithm == 2
    then some (codes "md5")
    else if h.algorithm == 3
    then some (if leb header_named h.size then until_nul (take 36 (drop 28 file)) else style)
    else none

abbrev pub agrees : Option Bytes → Bytes → Bool
agrees none style = false
agrees (some expected) style = str_eq style expected

-- The checksum of the table, which stands in the heap.
unfoldable pub check_toc :
    Libraries → XarHeader → Bytes → Bytes → Bytes → XmlNode → Result (Unit {0})
check_toc lib h file packed heap checksum = do
  style ← xml_attr checksum (codes "style") none
  die_if (not (agrees (expected_style h file style) style)) toc_checksum
  offset ← xml_child_uint lib.xml checksum (codes "offset")
  size ← xml_child_uint lib.xml checksum (codes "size")
  hash ← digest lib.evp packed style
  die_if
      (not (in_heap (length heap) offset size)
        || not (size == length hash)
        || not (str_eq hash (take (length hash) (drop offset heap))))
      toc_checksum

unfoldable pub sorted_members : Reading → Result Reading
sorted_members r = do
  check_members (sort_members r.members)
  ok (record r { members = sort_members r.members })

-- The table of contents, then the members.
unfoldable pub read_toc : Libraries → XarHeader → Bytes → Bytes → Bytes → ℕ → Result Reading
read_toc lib h file packed heap total = do
  out ← inflate_limited lib.zlib total packed 15 h.toc_size limit_xml
  tree ← xml_parse lib.xml out.0
  root ← xml_root tree (codes "xar")
  die_if (is_missing (xml_child root (codes "toc"))) missing_checksum
  die_if (is_missing (xml_child (xml_child root (codes "toc")) (codes "checksum"))) missing_checksum
  check_toc lib h file packed heap (xml_child (xml_child root (codes "toc")) (codes "checksum"))
  walk_toc lib heap (xml_child root (codes "toc")) out.1

-- `total` is what has been decoded before, 0 in a run on one package.
unfoldable pub xar_open : Libraries → Bytes → ℕ → Result Reading
xar_open lib file total = do
  h ← read_xar_header file
  r ←
      read_toc lib h file (take h.toc_packed (drop h.size file)) (drop (h.size + h.toc_packed) file)
        total
  sorted_members r

-- `bsearch` by `member_compare`: a member of this name
unfoldable pub find_member : List XarMember → Bytes → Option Bytes
find_member [] name = none
find_member (m ∷ list) name =
    let rest = find_member list name in if str_eq m.name name then some m.contents else rest

-- A member that is required, or none.
unfoldable pub required_member : List XarMember → Bytes → Result Bytes
required_member list name = elim (find_member list name) [
  | none ↦ err missing_member
  | some b ↦ ok b
]
