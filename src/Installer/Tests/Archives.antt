-- ===== src/Installer/Tests/Archives.antt =====
-- An archive of one directory and its trailer.
use minidarwin.Prelude.{
  ℕ, ◌≤◌, ◌≡◌, ◌↔◌, refl, false, none, [], ◌∷◌, ◌++◌, Bytes, replicate, All, arith,
}
use minidarwin.Installer.Result.{Result, ok, err, bad_format}
use minidarwin.Installer.Paths.{
  str_eq, path_normalize, normalize_body, normalize_onto, split_slash, append_component, skipped,
  check_component, has_bad_character,
}
use minidarwin.Installer.Number.{
  parse_uint, strtoull, digit_value, is_space, scan_digits, skip_spaces, skip_prefix, finish,
  unsigned_part, signed_part, whole, refused_start,
}
use minidarwin.Installer.Entries.{
  Entry, file_type, entries_append, path_compare, entry_compare, insert_entry, sort_entries,
  is_duplicate, check_neighbours, search_path, ancestors_from, ancestors, is_blocked,
  check_ancestors, check_beneath, entries_check_paths, limit_entries,
}
use minidarwin.Installer.Entries.Sorting.{Pairs}
use minidarwin.Installer.Entries.Check.{NothingBlocked, entries_check_paths_iff}
use minidarwin.Installer.Entries.Neighbours.{Compatible}
use minidarwin.Installer.CpioHeader.{c_string, header_field, read_odc, read_header, magic_odc}
use minidarwin.Installer.Cpio.{
  Record, is_double_name, any_double, is_appledouble, has_nul, is_set_id, check_entry, fill_entry,
  make_entry, align_up, record_at, read_record, all_zero, finish_archive, parse_records,
  trailer_name, decode, cpio_parse,
}
use minidarwin.Installer.Cpio.Accepted.{EntryOk, cpio_parse-Accepted}

abbrev zeros : ℕ → Bytes
zeros n = replicate n b'0'

-- an odc record of `type` (its six digits) with no data; the name's size in two octal digits
abbrev odc_record : Bytes → Bytes → Bytes → Bytes
odc_record type size name =
    magic_odc
    ++ (zeros 12
        ++ (type
            ++ (zeros 12
                ++ (b'0'
                    ∷ b'0'
                    ∷ b'0'
                    ∷ b'0'
                    ∷ b'0'
                    ∷ b'1'
                    ∷ (zeros 6
                        ++ (zeros 11
                            ++ (zeros 4 ++ (size ++ (zeros 11 ++ (name ++ (0 ∷ [])))))))))))

-- 040755
abbrev directory_mode : Bytes
directory_mode = b'0' ∷ b'4' ∷ b'0' ∷ b'7' ∷ b'5' ∷ b'5' ∷ []

abbrev archive : Bytes
archive =
    odc_record directory_mode (b'0' ∷ b'2' ∷ []) (b'a' ∷ [])
    ++ odc_record (zeros 6) (b'1' ∷ b'3' ∷ []) trailer_name

abbrev directory : Entry
directory = record {
  path = b'a' ∷ [];
  package_path = none;
  change = none;
  link = none;
  mode = 0o40755;
  uid = 0;
  gid = 0;
  mtime = 0;
  contents = [];
}

-- no archive here is compressed
abbrev no_gzip : Bytes → Result Bytes
no_gzip _ = err bad_format

archive_runs : cpio_parse no_gzip archive ≡ ok (directory ∷ [])
unfolding cpio_parse decode parse_records read_record record_at read_header read_odc header_field
    c_string parse_uint refused_start strtoull skip_spaces is_space signed_part unsigned_part
    skip_prefix scan_digits digit_value finish whole str_eq align_up has_nul make_entry
    path_normalize normalize_body normalize_onto split_slash append_component skipped
    check_component has_bad_character check_entry is_appledouble any_double is_double_name is_set_id
    fill_entry file_type entries_append finish_archive all_zero entries_check_paths sort_entries
    insert_entry entry_compare path_compare check_neighbours check_beneath check_ancestors ancestors
    ancestors_from search_path is_blocked is_duplicate
archive_runs = refl

cpio_parse-Accepted_example :
    All EntryOk (directory ∷ [])
    × (1 ≤ limit_entries)
    × Pairs (Compatible false) (directory ∷ [])
    × NothingBlocked (directory ∷ [])
cpio_parse-Accepted_example = cpio_parse-Accepted no_gzip archive (directory ∷ []) archive_runs

entries_check_paths_iff_example :
    (entries_check_paths (directory ∷ []) false ≡ ok tt)
    ↔ (Pairs (Compatible false) (directory ∷ []) × NothingBlocked (directory ∷ []))
entries_check_paths_iff_example = entries_check_paths_iff (directory ∷ []) false (omega arith, tt)

abbrev first_record : Record
first_record = record {
  header = record {
    mode = 0o40755;
    uid = 0;
    gid = 0;
    nlink = 1;
    mtime = 0;
    namesize = 2;
    filesize = 0;
    check = 0;
    header_len = 76;
    aligned = false;
    has_crc = false;
  };
  name = b'a' ∷ [];
  contents = [];
  next = 78;
}

first_record_runs : read_record archive 0 ≡ ok first_record
unfolding read_record record_at read_header read_odc header_field c_string parse_uint refused_start
    strtoull skip_spaces is_space signed_part unsigned_part skip_prefix scan_digits digit_value
    finish whole str_eq align_up has_nul
first_record_runs = refl
