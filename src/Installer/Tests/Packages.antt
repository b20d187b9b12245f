-- ===== src/Installer/Tests/Packages.antt =====
-- Concrete runs of pkgs/installer/package.c and xar.c.
use minidarwin.Installer.Number.{
  parse_uint, strtoull, whole, digit_value, finish, is_space, scan_digits, signed_part, skip_prefix,
  skip_spaces, unsigned_part,
}
use minidarwin.Prelude.{
  ℕ, ◌+◌, ◌-◌, ◌≤◌, ◌≡◌, ◌≢◌, refl, false, none, some, [], ◌∷◌, ◌++◌, Bytes, All, codes, length,
  take, drop, replicate, length-take, length-drop, leb, ◌==◌, arith, if◌then◌else◌,
}
use minidarwin.Installer.Result.{ok, Outcome, out_of_fuel}
use minidarwin.Installer.Paths.{
  str_eq, path_join, check_component, has_bad_character, normalize_body, normalize_onto,
  path_normalize, skipped, split_slash,
}
use minidarwin.Installer.Entries.{limit_entries}
use minidarwin.Installer.Paths.Fixed.{IsNormal}
use minidarwin.Installer.Xml.{
  XmlNode, null, element, text, other, Libxml, xml_is, property, child_named, holds_nul, xml_attr,
  xml_checked, xml_child, xml_child_uint, xml_parse, xml_root, xml_text,
}
use minidarwin.Installer.Decoding.{
  z_ok, z_stream_end, z_error, Step, Zlib, limit_decoded, inflate_limited, accepted, after_call,
  first_capacity, grow, inflate_from, inflate_loop, offered, rounds, decoded_account,
  algorithm_named, digest, hex_digit, hex_encode,
}
use minidarwin.Installer.Decoding.Bounds.{IsZlib, inflate_limited_bounds}
use minidarwin.Installer.Xar.{
  Libraries, XarMember, Reading, xar_open, required_member, big_endian, big_endian_onto,
  header_fits, header_of, is_xar, read_xar_header, read_toc, check_toc, expected_style, has_slash,
  in_heap, member_path, visit, walk_files, walk_toc, add_member, check_members, decode_member,
  read_member, same_text, sorted_members, toc_file, verify_checksum, insert_member, member_compare,
  sort_members, str_compare,
}
use minidarwin.Installer.Xar.Members.{total_size}
use minidarwin.Installer.Xar.Sorted.{xar_open-members}
use minidarwin.Installer.Xar.Ascending.{IsIncreasing}

-- A decompressor that copies its input, one room after another.
abbrev pub copies : Bytes → ℕ → Step Bytes
copies s room = record {
  status = if room == 0 then z_error else if leb (length s) room then z_stream_end else z_ok;
  written = take room s;
  avail_in = length s - room;
  stream = drop room s;
}

abbrev pub stored : Zlib
stored = record { State = Bytes; start = λ window input. some input; inflate = copies }

pub stored-IsZlib : IsZlib stored
stored-IsZlib = record {
  left = λ (s : Bytes). length s;
  starts = λ window input s e. ground arith;
  fits = λ s room. omega (arith, length-take room s);
  remains = λ s room. omega (arith, length-drop room s);
  progress = λ s room e. ground (arith, length-drop room s);
}

-- Three bytes that are expected.
inflate_limited_bounds_example :
    Outcome
      (λ fault. fault ≢ out_of_fuel)
      (λ (end : Bytes × ℕ).
        (length end.0 ≤ 100000)
        × (◌≢◌ {A = ℕ} 3 0 → length end.0 ≡ 3)
        × (end.1 ≡ 10 + length end.0)
        × (end.1 ≤ limit_decoded))
      (inflate_limited stored 10 (1 ∷ 2 ∷ 3 ∷ []) 15 3 100000)
inflate_limited_bounds_example =
    inflate_limited_bounds stored stored-IsZlib 10 (1 ∷ 2 ∷ 3 ∷ []) 15 3 100000 (omega arith)

abbrev pub leaf : Bytes → Bytes → XmlNode → XmlNode
leaf name s next = element name [] (text s null) next

abbrev pub styled : Bytes → Bytes → XmlNode → XmlNode → XmlNode
styled name style children next = element name ((codes "style", style) ∷ []) children next

abbrev pub file_node : Bytes → Bytes → Bytes → XmlNode → XmlNode
file_node name offset size next =
    element (codes "file") []
      (leaf (codes "name") name (
        leaf (codes "type") (codes "file") (
          element (codes "data") []
            (leaf (codes "offset") offset (
              leaf (codes "length") size (
                leaf (codes "size") size (
                  styled (codes "archived-checksum") (codes "sha1") (text (codes "07") null) (
                    styled (codes "encoding") (codes "application/octet-stream") null (
                      styled (codes "extracted-checksum") (codes "sha1") (text (codes "07") null)
                        null))))))
            null)))
      next

abbrev pub toc_node : XmlNode
toc_node =
    element (codes "xar") []
      (element (codes "toc") []
        (styled (codes "checksum") (codes "sha1")
          (leaf (codes "offset") (codes "0") (leaf (codes "size") (codes "1") null))
          (file_node (codes "PackageInfo") (codes "1") (codes "1")
            (file_node (codes "Bom") (codes "2") (codes "32") null)))
        null)
      null

abbrev pub info_node : XmlNode
info_node =
    element (codes "pkg-info")
      ((codes "format-version", codes "2")
        ∷ (codes "identifier", codes "a.b")
        ∷ (codes "version", codes "1")
        ∷ [])
      null null

-- The text of a node that has only text.
abbrev pub text_of : XmlNode → Bytes
text_of null = []
text_of (element name attributes children next) = text_of children
text_of (text t next) = t
text_of (other next) = []

abbrev pub libxml : Libxml
libxml = record {
  read = λ b.
      if str_eq b (5 ∷ [])
      then some (toc_node, false)
      else if str_eq b (6 ∷ [])
      then some (info_node, false)
      else none;
  content = text_of;
}

abbrev pub libraries : Libraries
libraries = record { xml = libxml; zlib = stored; evp = λ algorithm b. some (7 ∷ []) }

abbrev pub bom : Bytes
bom = codes "BOMStore" ++ replicate 24 0

-- The header, a table of one byte, and a heap with the checksum and two members.
abbrev pub file : Bytes
file =
    codes "xar!"
    ++ ((0 ∷ 28 ∷ 0 ∷ 1 ∷ [])
        ++ ((replicate 7 0 ++ 1 ∷ [])
            ++ ((replicate 7 0 ++ 1 ∷ []) ++ ((0 ∷ 0 ∷ 0 ∷ 1 ∷ []) ++ (5 ∷ 7 ∷ 6 ∷ bom)))))

abbrev pub info_member : XarMember
info_member = record { name = codes "PackageInfo"; contents = 6 ∷ [] }

abbrev pub bom_member : XarMember
bom_member = record { name = codes "Bom"; contents = bom }

abbrev pub reading : Reading
reading = record { members = bom_member ∷ info_member ∷ []; decoded = 34 }

xar_open_run : xar_open libraries file 0 ≡ ok reading
unfolding xar_open read_xar_header is_xar str_eq big_endian big_endian_onto header_fits header_of
    read_toc inflate_limited inflate_from first_capacity inflate_loop rounds grow after_call offered
    accepted decoded_account xml_parse holds_nul xml_checked xml_root xml_is xml_child child_named
    check_toc xml_attr property expected_style xml_child_uint xml_text parse_uint whole strtoull
    signed_part skip_spaces is_space unsigned_part finish scan_digits skip_prefix digit_value digest
    algorithm_named in_heap walk_toc walk_files visit member_path has_slash path_join path_normalize
    normalize_body normalize_onto split_slash skipped check_component has_bad_character toc_file
    add_member read_member verify_checksum same_text hex_encode hex_digit decode_member
    sorted_members check_members sort_members insert_member member_compare str_compare
xar_open_run = refl

xar_open-members_example :
    All (λ m. IsNormal m.name) reading.members
    × (length reading.members ≤ limit_entries)
    × (0 + total_size reading.members ≤ reading.decoded)
    × (reading.decoded ≤ limit_decoded)
    × IsIncreasing reading.members
    × All (λ m. required_member reading.members m.name ≡ ok m.contents) reading.members
xar_open-members_example =
    xar_open-members libraries file 0 reading stored-IsZlib (omega arith) xar_open_run
