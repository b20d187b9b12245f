-- ===== src/Installer/CpioHeader.antt =====
-- The headers of pkgs/installer/cpio.c, in the odc, newc and crc formats.
use minidarwin.Prelude.{
  ℕ, Bool, true, false, ◌||◌, [], ◌∷◌, Bytes, length, take, drop, ltb, leb, ◌==◌, if◌then◌else◌,
}
use minidarwin.Installer.Result.{
  truncated_header, bad_format, field_too_long, Result, ok, err, ◌>>=◌,
}
use minidarwin.Installer.Paths.{str_eq}
use minidarwin.Installer.Number.{parse_uint}

-- a C string in a buffer: the bytes before the first NUL
unfoldable pub c_string : Bytes → Bytes
c_string [] = []
c_string (c ∷ s) = let rest = c_string s in if c == 0 then [] else c ∷ rest

-- `p` is the buffer from the field on
unfoldable pub header_field : Bytes → ℕ → ℕ → Result ℕ
header_field p n base =
    if leb 24 n then err field_too_long else parse_uint (c_string (take n p)) base

pub record Header : Type 0 where
  pub mode : ℕ
  pub uid : ℕ
  pub gid : ℕ
  pub nlink : ℕ
  pub mtime : ℕ
  pub namesize : ℕ
  pub filesize : ℕ
  pub check : ℕ
  pub header_len : ℕ
  pub aligned : Bool
  pub has_crc : Bool

abbrev pub magic_odc : Bytes
magic_odc = b'0' ∷ b'7' ∷ b'0' ∷ b'7' ∷ b'0' ∷ b'7' ∷ []

abbrev pub magic_newc : Bytes
magic_newc = b'0' ∷ b'7' ∷ b'0' ∷ b'7' ∷ b'0' ∷ b'1' ∷ []

abbrev pub magic_crc : Bytes
magic_crc = b'0' ∷ b'7' ∷ b'0' ∷ b'7' ∷ b'0' ∷ b'2' ∷ []

unfoldable pub read_odc : Bytes → Result Header
read_odc h = do
  mode ← header_field (drop 18 h) 6 8
  uid ← header_field (drop 24 h) 6 8
  gid ← header_field (drop 30 h) 6 8
  nlink ← header_field (drop 36 h) 6 8
  mtime ← header_field (drop 48 h) 11 8
  namesize ← header_field (drop 59 h) 6 8
  filesize ← header_field (drop 65 h) 11 8
  ok (record {
    mode = mode;
    uid = uid;
    gid = gid;
    nlink = nlink;
    mtime = mtime;
    namesize = namesize;
    filesize = filesize;
    check = 0;
    header_len = 76;
    aligned = false;
    has_crc = false;
  })

unfoldable pub read_newc : Bytes → Bool → Result Header
read_newc h crc = do
  mode ← header_field (drop 14 h) 8 16
  uid ← header_field (drop 22 h) 8 16
  gid ← header_field (drop 30 h) 8 16
  nlink ← header_field (drop 38 h) 8 16
  mtime ← header_field (drop 46 h) 8 16
  filesize ← header_field (drop 54 h) 8 16
  namesize ← header_field (drop 94 h) 8 16
  check ← header_field (drop 102 h) 8 16
  ok (record {
    mode = mode;
    uid = uid;
    gid = gid;
    nlink = nlink;
    mtime = mtime;
    namesize = namesize;
    filesize = filesize;
    check = check;
    header_len = 110;
    aligned = true;
    has_crc = crc;
  })

unfoldable pub read_header : Bytes → Result Header
read_header h =
    let magic = take 6 h in
    if ltb (length h) 6
    then err truncated_header
    else if str_eq magic magic_odc
    then (if ltb (length h) 76 then err truncated_header else read_odc h)
    else if str_eq magic magic_newc || str_eq magic magic_crc
    then (if ltb (length h) 110 then err truncated_header else read_newc h (str_eq magic magic_crc))
    else err bad_format
