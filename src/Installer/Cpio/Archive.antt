-- ===== src/Installer/Cpio/Archive.antt =====
-- The loop of `cpio_parse` of pkgs/installer/cpio.c: the positions it reads at, and its fuel.
use minidarwin.Prelude.{
  ℕ, zero, suc, ◌+◌, ◌≤◌, ◌<◌, ◌≡◌, inl, inr, refl, sym, ap, Bool, true, false, List, Bytes, length,
  take, drop, ltb, ltb-false, ltb_ge, ◌||◌, arith, Bool-cases, if◌then◌else◌,
}
use minidarwin.Installer.Result.{truncated_header, bind-ext, ok, bind-eq-ok, unless-ok, ok-inj}
use minidarwin.Installer.Paths.{str_eq}
use minidarwin.Installer.Entries.{Entry, entries_append}
use minidarwin.Installer.CpioHeader.{
  header_field, magic_odc, magic_crc, magic_newc, Header, read_odc, read_newc, read_header,
}
use minidarwin.Installer.Cpio.{
  Record, align_up, record_at, read_record, parse_records, finish_archive, trailer_name, make_entry,
}

read_odc-len : (h : Bytes) (r : Header) → read_odc h ≡ ok r → r.header_len ≡ 76
unfolding read_odc
read_odc-len h r e =
    let (_, _, e0) = bind-eq-ok (header_field _ _ _) _ e in
    let (_, _, e1) = bind-eq-ok (header_field _ _ _) _ e0 in
    let (_, _, e2) = bind-eq-ok (header_field _ _ _) _ e1 in
    let (_, _, e3) = bind-eq-ok (header_field _ _ _) _ e2 in
    let (_, _, e4) = bind-eq-ok (header_field _ _ _) _ e3 in
    let (_, _, e5) = bind-eq-ok (header_field _ _ _) _ e4 in
    let (_, _, e6) = bind-eq-ok (header_field _ _ _) _ e5 in
    ap (λ x. x.header_len) (sym (ok-inj e6))

read_newc-len : (h : Bytes) (crc : Bool) (r : Header) → read_newc h crc ≡ ok r → r.header_len ≡ 110
unfolding read_newc
read_newc-len h crc r e =
    let (_, _, e0) = bind-eq-ok (header_field _ _ _) _ e in
    let (_, _, e1) = bind-eq-ok (header_field _ _ _) _ e0 in
    let (_, _, e2) = bind-eq-ok (header_field _ _ _) _ e1 in
    let (_, _, e3) = bind-eq-ok (header_field _ _ _) _ e2 in
    let (_, _, e4) = bind-eq-ok (header_field _ _ _) _ e3 in
    let (_, _, e5) = bind-eq-ok (header_field _ _ _) _ e4 in
    let (_, _, e6) = bind-eq-ok (header_field _ _ _) _ e5 in
    let (_, _, e7) = bind-eq-ok (header_field _ _ _) _ e6 in
    ap (λ x. x.header_len) (sym (ok-inj e7))

-- The header is inside the buffer.
read_header-len :
    (h : Bytes) (r : Header) → read_header h ≡ ok r → 0 < r.header_len × r.header_len ≤ length h
unfolding read_header
read_header-len h r e = elim (Bool-cases (str_eq (take 6 h) magic_odc)) [
  | inl odc ↦
      let (_, e') = unless-ok (ltb (length h) 6) truncated_header _ (rw odc at e) in
      let (long, e'') = unless-ok (ltb (length h) 76) truncated_header _ e' in
      let n = read_odc-len h r e'' in omega (arith, n, ltb-false _ _ long)
  | inr other ↦
      let (_, e') = unless-ok (ltb (length h) 6) truncated_header _ (rw other at e) in
      elim (Bool-cases (str_eq (take 6 h) magic_newc || str_eq (take 6 h) magic_crc)) [
        | inl newc ↦
            let (long, e'') = unless-ok (ltb (length h) 110) truncated_header _ (rw newc at e') in
            let n = read_newc-len h _ r e'' in omega (arith, n, ltb-false _ _ long)
        | inr bad ↦ absurd (let e'' = rw bad at e' in cc e'')
      ]
]

align_up-le : (a : Bool) (n : ℕ) → n ≤ align_up a n
unfolding align_up
align_up-le true n = omega arith
align_up-le false n = omega arith

record_at-next :
    (b : Bytes) (pos : ℕ) (h : Header) (r : Record)
    → record_at b pos h ≡ ok r
    → pos + h.header_len < r.next × r.next ≤ length b
unfolding record_at
record_at-next b pos h r e =
    let data_at = align_up h.aligned (pos + h.header_len + h.namesize) in
    let a = align_up-le h.aligned (pos + h.header_len + h.namesize) in
    let c = align_up-le h.aligned (data_at + h.filesize) in ground arith

-- A record that is read ends inside the archive and behind the position at which it began.
pub read_record-next :
    (b : Bytes) (pos : ℕ) (r : Record) → read_record b pos ≡ ok r → pos < r.next × r.next ≤ length b
unfolding read_record
read_record-next b pos r e =
    let (h, head, rest) = bind-eq-ok (read_header (drop pos b)) _ e in
    let (n, m) = record_at-next b pos h r rest in (omega arith, m)

-- With fuel for the bytes that are left of an archive, more fuel does not change what the loop
-- over the records returns.
pub parse_records-fuel :
    (n m : ℕ) (b : Bytes) (pos : ℕ) (out : List Entry)
    → length b ≤ pos + n
    → n ≤ m
    → parse_records m b pos out ≡ parse_records n b pos out
unfolding parse_records
parse_records-fuel zero zero b pos out h k = refl
parse_records-fuel zero (suc m) b pos out h k = rw (ltb_ge pos (length b) (omega arith)) refl
parse_records-fuel (suc n) zero b pos out h k = absurd (omega arith)
parse_records-fuel (suc n) (suc m) b pos out h k = elim (Bool-cases (ltb pos (length b))) [
  | inl inside ↦ rw inside (
      bind-ext (read_record b pos) _ _ (λ r read.
        let (next, _) = read_record-next b pos r read in
        ap (λ rest. if str_eq r.name trailer_name then finish_archive b r out else rest)
          (bind-ext (make_entry r.header r.name r.contents) _ _ (λ e made.
            bind-ext (entries_append out e) _ _
              (λ out' app. parse_records-fuel n m b r.next out' (omega arith) (omega arith))))))
  | inr outside ↦ rw outside refl
]
