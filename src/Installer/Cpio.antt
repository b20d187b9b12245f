-- ===== src/Installer/Cpio.antt =====
-- pkgs/installer/cpio.c: Payload and Scripts archives in the odc, newc and crc formats. The archive
-- is the list of its bytes; `b.data + pos` is the list without its first `pos` bytes.
pub mod Accepted
pub mod Archive
use minidarwin.Installer.CpioHeader.{
  c_string, header_field, Header, magic_odc, magic_newc, magic_crc, read_odc, read_newc,
  read_header,
}
use minidarwin.Prelude.{
  ℕ, zero, suc, ◌+◌, ◌-◌, ◌*◌, ◌/◌, ◌%◌, ◌^◌, ◌≡◌, Bool, true, false, not, ◌&&◌, ◌||◌, Option, none,
  some, List, [], ◌∷◌, ◌++◌, Bytes, length, take, drop, ltb, leb, ◌==◌, if◌then◌else◌,
}
use minidarwin.Installer.Result.{
  Fault, truncated_header, bad_format, field_too_long, name_out_of_bounds, invalid_name,
  data_out_of_bounds, truncated_padding, invalid_trailer, missing_trailer, data_after_trailer,
  apple_double, unsupported_type, root_not_directory, metadata_range, hardlink, set_id,
  directory_with_data, checksum_mismatch, invalid_symlink, Result, ok, err, ◌>>=◌, ◌>>◌, die_if,
}
use minidarwin.Installer.Paths.{
  path_max, is_empty, str_eq, split_slash, path_normalize, symlink_check_lexical,
}
use minidarwin.Installer.Number.{parse_uint}
use minidarwin.Installer.Entries.{
  Entry, file_type, type_directory, type_regular, type_link, entries_append, entries_check_paths,
}

-- "._…" or "__MACOSX" as a component
unfoldable pub is_double_name : Bytes → Bool
is_double_name n =
    str_eq (take 2 n) (b'.' ∷ b'_' ∷ [])
    || str_eq n (b'_' ∷ b'_' ∷ b'M' ∷ b'A' ∷ b'C' ∷ b'O' ∷ b'S' ∷ b'X' ∷ [])

unfoldable pub any_double : List Bytes → Bool
any_double [] = false
any_double (n ∷ ns) = is_double_name n || any_double ns

unfoldable pub is_appledouble : Bytes → Bool
is_appledouble path = any_double (split_slash path)

unfoldable pub has_nul : Bytes → Bool
has_nul [] = false
has_nul (c ∷ s) = c == 0 || has_nul s

-- the sum of the bytes in a uint32_t
unfoldable pub checksum : ℕ → Bytes → ℕ
checksum sum [] = sum
checksum sum (c ∷ s) = checksum ((sum + c) % 2 ^ 32) s

abbrev pub uint32_max : ℕ
uint32_max = 2 ^ 32 - 1

abbrev pub int64_max : ℕ
int64_max = 2 ^ 63 - 1

-- h->mode & (S_ISUID | S_ISGID)
unfoldable pub is_set_id : ℕ → Bool
is_set_id mode = not (mode / 1024 % 4 == 0)

-- The tests of `make_entry` on a header, in its order.
unfoldable pub check_entry : Header → Bytes → Bytes → Result (Unit {0})
check_entry h path contents = do
  let kind = file_type h.mode
  die_if (is_appledouble path) apple_double
  die_if (not (kind == type_regular) && (not (kind == type_directory) && not (kind == type_link)))
      unsupported_type
  die_if (is_empty path && not (kind == type_directory)) root_not_directory
  die_if
      (ltb 0o177777 h.mode
        || (ltb uint32_max h.uid || (ltb uint32_max h.gid || ltb int64_max h.mtime)))
      metadata_range
  die_if (kind == type_regular && ltb 1 h.nlink) hardlink
  die_if (is_set_id h.mode) set_id
  die_if (kind == type_directory && not (is_empty contents)) directory_with_data
  die_if (h.has_crc && not (checksum 0 contents == h.check)) checksum_mismatch

abbrev pub bare_entry : Header → Bytes → Entry
bare_entry h path = record {
  path = path;
  package_path = none;
  change = none;
  link = none;
  mode = h.mode;
  uid = h.uid;
  gid = h.gid;
  mtime = h.mtime;
  contents = [];
}

-- The link or the data that the entry gets by its type.
unfoldable pub fill_entry : Header → Bytes → Bytes → Result Entry
fill_entry h path contents =
    if file_type h.mode == type_link
    then (do
      die_if (is_empty contents || (has_nul contents || leb path_max (length contents)))
          invalid_symlink
      symlink_check_lexical path contents
      ok (record (bare_entry h path) { link = some contents }))
    else if file_type h.mode == type_regular
    then ok (record (bare_entry h path) { contents = contents })
    else ok (bare_entry h path)

unfoldable pub make_entry : Header → Bytes → Bytes → Result Entry
make_entry h name contents = do
  path ← path_normalize name false
  check_entry h path contents
  fill_entry h path contents

-- (n + 3) & ~(size_t)3
unfoldable pub align_up : Bool → ℕ → ℕ
align_up aligned n = if aligned then (n + 3) / 4 * 4 else n

abbrev pub trailer_name : Bytes
trailer_name = b'T' ∷ b'R' ∷ b'A' ∷ b'I' ∷ b'L' ∷ b'E' ∷ b'R' ∷ b'!' ∷ b'!' ∷ b'!' ∷ []

-- One record: its header, its name, its data, and the position behind it.
pub record Record : Type 0 where
  pub header : Header
  pub name : Bytes
  pub contents : Bytes
  pub next : ℕ

-- The part of the loop between the header at `pos` and the trailer's test.
unfoldable pub record_at : Bytes → ℕ → Header → Result Record
record_at b pos h = do
  let name_at = pos + h.header_len
  die_if (h.namesize == 0 || (leb path_max h.namesize || ltb (length b - name_at) h.namesize))
      name_out_of_bounds
  let name = take (h.namesize - 1) (drop name_at b)
  die_if (not (str_eq (take 1 (drop (name_at + h.namesize - 1) b)) (0 ∷ [])) || has_nul name)
      invalid_name
  let data_at = align_up h.aligned (name_at + h.namesize)
  die_if (ltb (length b) data_at || ltb (length b - data_at) h.filesize) data_out_of_bounds
  let next = align_up h.aligned (data_at + h.filesize)
  die_if (ltb (length b) next) truncated_padding
  ok (record { header = h; name = name; contents = take h.filesize (drop data_at b); next = next })

unfoldable pub read_record : Bytes → ℕ → Result Record
read_record b pos = do h ← read_header (drop pos b); record_at b pos h

unfoldable pub all_zero : Bytes → Bool
all_zero [] = true
all_zero (c ∷ s) = c == 0 && all_zero s

-- What follows the trailer.
unfoldable pub finish_archive : Bytes → Record → List Entry → Result (List Entry)
finish_archive b r out = do
  die_if (not (r.header.filesize == 0)) invalid_trailer
  die_if (not (all_zero (drop r.next b))) data_after_trailer
  ok out

-- The loop of `cpio_parse`. The fuel bounds the bytes left, so that at zero the loop has ended at
-- the end of the archive, with no trailer.
unfoldable pub parse_records : ℕ → Bytes → ℕ → List Entry → Result (List Entry)
parse_records zero b pos out = err missing_trailer
parse_records (suc fuel) b pos out = if not (ltb pos (length b)) then err missing_trailer else (do
  r ← read_record b pos
  let more = (do
    e ← make_entry r.header r.name r.contents
    out' ← entries_append out e
    parse_records fuel b r.next out')
  if str_eq r.name trailer_name then finish_archive b r out else more)

-- `inflate` stands for the decompression of a gzip stream, which zlib does.
unfoldable pub decode : (Bytes → Result Bytes) → Bytes → Result Bytes
decode inflate archive =
    if str_eq (take 2 archive) (0x1f ∷ 0x8b ∷ []) then inflate archive else ok archive

-- `cpio_parse` into an empty list, which is what its callers pass
unfoldable pub cpio_parse : (Bytes → Result Bytes) → Bytes → Result (List Entry)
cpio_parse inflate archive = do
  b ← decode inflate archive
  out ← parse_records (length b) b 0 []
  entries_check_paths out false
  ok out
