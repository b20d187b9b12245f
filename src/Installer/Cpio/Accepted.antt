-- ===== src/Installer/Cpio/Accepted.antt =====
-- The entries that `cpio_parse` of pkgs/installer/cpio.c returns.
use minidarwin.Prelude.{
  ℕ, zero, suc, ◌^◌, ◌≤◌, ◌<◌, ◌≡◌, ◌≢◌, ◌⊎◌, inl, inr, refl, sym, false, some, List, [], ◌∷◌, ◌++◌,
  Bytes, All, All-append, All-map, length, length-append, ltb, arith, Bool-cases,
}
use minidarwin.Installer.Result.{Result, ok, ◌>>◌, bind-eq-ok, ok-inj}
use minidarwin.Installer.Paths.{str_eq, path_normalize, symlink_check_lexical}
use minidarwin.Installer.Paths.Fixed.{IsNormal, path_normalize-IsNormal}
use minidarwin.Installer.Entries.{
  Entry, file_type, type_directory, type_regular, type_link, entries_append, limit_entries,
  entries_check_paths,
}
use minidarwin.Installer.Paths.Components.{join}
use minidarwin.Installer.Paths.Normal.{IsName}
use minidarwin.Installer.Entries.Order.{Printable}
use minidarwin.Installer.Entries.Sorting.{Pairs}
use minidarwin.Installer.Entries.Check.{NothingBlocked, entries_check_paths_iff}
use minidarwin.Installer.Entries.Neighbours.{Compatible}
use minidarwin.Installer.CpioHeader.{Header}
use minidarwin.Installer.Cpio.{
  Record, is_set_id, is_appledouble, check_entry, bare_entry, fill_entry, make_entry, read_record,
  parse_records, finish_archive, trailer_name, decode, cpio_parse, uint32_max, int64_max,
}

-- An entry that may be installed.
pub record EntryOk (e : Entry) : Type 0 where
  pub normal : IsNormal e.path
  pub not_double : is_appledouble e.path ≡ false
  pub known_type :
      (file_type e.mode ≡ type_regular)
      ⊎ (file_type e.mode ≡ type_directory)
      ⊎ (file_type e.mode ≡ type_link)
  pub root_is_directory : e.path ≡ [] → file_type e.mode ≡ type_directory
  pub mode_fits : e.mode < 2 ^ 16
  pub not_set_id : is_set_id e.mode ≡ false
  pub uid_fits : e.uid ≤ uint32_max
  pub gid_fits : e.gid ≤ uint32_max
  pub mtime_fits : e.mtime ≤ int64_max
  pub link_type : (t : Bytes) → e.link ≡ some t → file_type e.mode ≡ type_link
  pub link_stays : (t : Bytes) → e.link ≡ some t → symlink_check_lexical e.path t ≡ ok tt
  pub type_has_link : file_type e.mode ≡ type_link → (t : Bytes) × (e.link ≡ some t)
  pub data_type : e.contents ≢ [] → file_type e.mode ≡ type_regular

check_entry_tests :
    (h : Header) (path contents : Bytes)
    → check_entry h path contents ≡ ok tt
    → (is_appledouble path ≡ false)
      × ((file_type h.mode ≡ type_regular)
          ⊎ (file_type h.mode ≡ type_directory)
          ⊎ (file_type h.mode ≡ type_link))
      × (path ≡ [] → file_type h.mode ≡ type_directory)
      × (h.mode < 2 ^ 16)
      × (is_set_id h.mode ≡ false)
      × (h.uid ≤ uint32_max)
      × (h.gid ≤ uint32_max)
      × (h.mtime ≤ int64_max)
unfolding check_entry
check_entry_tests h path contents e = ground arith

-- What `fill_entry` makes of the entry, in each of its cases.
Filled : Header → Bytes → Bytes → Entry → Type 0
Filled h path contents e =
    ((file_type h.mode ≡ type_link)
      × (symlink_check_lexical path contents ≡ ok tt)
      × (e ≡ record (bare_entry h path) { link = some contents }))
    ⊎ ((file_type h.mode ≡ type_regular) × (e ≡ record (bare_entry h path) { contents = contents }))
    ⊎ ((file_type h.mode ≢ type_link) × (e ≡ bare_entry h path))

fill_entry-Filled :
    (h : Header) (path contents : Bytes) (e : Entry)
    → fill_entry h path contents ≡ ok e
    → Filled h path contents e
unfolding fill_entry Filled
fill_entry-Filled h path contents e f = ground arith

make_entry-parts :
    (h : Header) (name contents : Bytes) (e : Entry)
    → make_entry h name contents ≡ ok e
    → (path : Bytes) × (path_normalize name false ≡ ok path)
      × (check_entry h path contents ≡ ok tt)
      × (fill_entry h path contents ≡ ok e)
unfolding make_entry
make_entry-parts h name contents e m =
    let (path, a, rest) =
      bind-eq-ok (path_normalize name false)
        (λ p. check_entry h p contents >> fill_entry h p contents) m in
    let (u, b, c) =
      bind-eq-ok (check_entry h path contents) (λ _. fill_entry h path contents) rest in
    (path, a, b, c)

-- Every entry that is made is one that may be installed.
pub make_entry-EntryOk :
    (h : Header) (name contents : Bytes) (e : Entry) → make_entry h name contents ≡ ok e → EntryOk e
unfolding Filled
make_entry-EntryOk h name contents e m =
    let (path, n, c, f) = make_entry-parts h name contents e m in
    let (double, kind, root, mode, setid, uid, gid, mtime) = check_entry_tests h path contents c in
    let normal = path_normalize-IsNormal name false path n in
    elim (fill_entry-Filled h path contents e f) [
      | inl (t, s, same) ↦ rw same (record {
        normal = normal;
        not_double = double;
        known_type = kind;
        root_is_directory = root;
        mode_fits = mode;
        not_set_id = setid;
        uid_fits = uid;
        gid_fits = gid;
        mtime_fits = mtime;
        link_type = λ l x. t;
        link_stays = λ l x. ground arith;
        type_has_link = λ x. (contents, refl);
        data_type = λ x. absurd (x refl);
      })
      | inr (inl (t, same)) ↦ rw same (record {
        normal = normal;
        not_double = double;
        known_type = kind;
        root_is_directory = root;
        mode_fits = mode;
        not_set_id = setid;
        uid_fits = uid;
        gid_fits = gid;
        mtime_fits = mtime;
        link_type = λ l x. cc x;
        link_stays = λ l x. cc x;
        type_has_link = λ x. absurd (omega arith);
        data_type = λ x. t;
      })
      | inr (inr (t, same)) ↦ rw same (record {
        normal = normal;
        not_double = double;
        known_type = kind;
        root_is_directory = root;
        mode_fits = mode;
        not_set_id = setid;
        uid_fits = uid;
        gid_fits = gid;
        mtime_fits = mtime;
        link_type = λ l x. cc x;
        link_stays = λ l x. cc x;
        type_has_link = λ x. absurd (t x);
        data_type = λ x. absurd (x refl);
      })
    ]

pub append-ok :
    (out out' : List Entry) (e : Entry)
    → entries_append out e ≡ ok out'
    → (out' ≡ out ++ e ∷ []) × (length out < limit_entries)
unfolding entries_append
append-ok out out' e h = ground arith

append-EntryOk :
    (out out' : List Entry) (e : Entry)
    → entries_append out e ≡ ok out'
    → EntryOk e
    → All EntryOk out
    → All EntryOk out' × (length out' ≤ limit_entries)
append-EntryOk out out' e h k a =
    let (same, short) = append-ok out out' e h in
    rw same
      (All-append EntryOk out (e ∷ []) a (k, tt), omega (arith, length-append out (e ∷ []), short))

-- The list of entries kept by the loop.
abbrev Accepted : List Entry → Type 0
Accepted out = All EntryOk out × (length out ≤ limit_entries)

finish_archive-ok :
    (b : Bytes) (r : Record) (out out' : List Entry) → finish_archive b r out ≡ ok out' → out' ≡ out
unfolding finish_archive
finish_archive-ok b r out out' h = ground arith

parse_records-Accepted :
    (fuel : ℕ) (b : Bytes) (pos : ℕ) (out out' : List Entry)
    → parse_records fuel b pos out ≡ ok out'
    → Accepted out
    → Accepted out'
unfolding parse_records
parse_records-Accepted zero b pos out out' h a = cc
parse_records-Accepted (suc fuel) b pos out out' h a = elim (Bool-cases (ltb pos (length b))) [
  | inl inside ↦
      let (r, _, rest) = bind-eq-ok (read_record b pos) _ (rw inside at h) in
      elim (Bool-cases (str_eq r.name trailer_name)) [
        | inl t ↦ rw (finish_archive-ok b r out out' (rw t at rest)) a
        | inr t ↦
            let (e, made, rest') =
              bind-eq-ok (make_entry r.header r.name r.contents) _ (rw t at rest) in
            let (out'', app, last) = bind-eq-ok (entries_append out e) _ rest' in
            parse_records-Accepted fuel b r.next out'' out' last
              (append-EntryOk out out'' e app (make_entry-EntryOk _ _ _ e made) a.0)
      ]
  | inr outside ↦ absurd (let h' = rw outside at h in cc h')
]

join-Printable : (ns : List Bytes) → All IsName ns → Printable (join ns)
join-Printable [] h = tt
join-Printable (n ∷ []) h = All-map _ _ (λ c x. x.0) n h.0.printable
join-Printable (n ∷ m ∷ ns) h =
    All-append (λ c. 32 ≤ c) n (b'/' ∷ join (m ∷ ns)) (All-map _ _ (λ c x. x.0) n h.0.printable)
      (omega arith, join-Printable (m ∷ ns) h.1)

EntryOk-Printable : (e : Entry) → EntryOk e → Printable e.path
EntryOk-Printable e h = rw h.normal.joined (join-Printable h.normal.names h.normal.all_names)

-- Whatever the decompression yields, an archive that cpio_parse accepts gives at most 100000
-- entries, each of which may be installed, with no path twice and nothing beneath an entry that is
-- not a directory.
pub cpio_parse-Accepted :
    (inflate : Bytes → Result Bytes) (archive : Bytes) (out : List Entry)
    → cpio_parse inflate archive ≡ ok out
    → All EntryOk out
      × (length out ≤ limit_entries)
      × Pairs (Compatible false) out
      × NothingBlocked out
unfolding cpio_parse
cpio_parse-Accepted inflate archive out h =
    let (b, _, decoded) = bind-eq-ok (decode inflate archive) _ h in
    let (out', parsed, rest) = bind-eq-ok (parse_records (length b) b 0 []) _ decoded in
    let (u, checked, same) = bind-eq-ok (entries_check_paths out' false) _ rest in
    let (all, short) = parse_records-Accepted (length b) b 0 [] out' parsed (tt, omega arith) in
    let p = All-map EntryOk (λ e. Printable e.path) EntryOk-Printable out' all in
    let (pairs, free) = (entries_check_paths_iff out' false p).0 checked in
    rw (sym (ok-inj same)) (all, short, pairs, free)
