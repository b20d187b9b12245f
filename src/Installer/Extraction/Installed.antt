-- ===== src/Installer/Extraction/Installed.antt =====
-- An entry of a payload that stands in the tree, in the extraction of pkgs/installer.
use mathlib.Core.Path.{subst}
use minidarwin.Prelude.{
  ℕ, ◌%◌, ◌≡◌, refl, ◌⊎◌, inl, inr, true, false, some, Bool-cases, Option-cases,
}
use minidarwin.Installer.Result.{ok, err, ok-inj}
use minidarwin.Installer.Paths.{is_empty, split_slash}
use minidarwin.Installer.Entries.{Entry, is_directory, is_link}
use minidarwin.Installer.Staging.{
  Time, Meta, Object, directory, regular, symlink, special, Process, apply_ownership,
}
use minidarwin.Installer.Extraction.{located, is_dir, locate, finished_meta, file_object}
use minidarwin.Installer.Extraction.Standing.{Keeps}
use minidarwin.Installer.Extraction.Grown.{Stands-file, Stands-dir}

-- The owner that the entry asks for, in an install by root; the process itself otherwise.
abbrev pub IsOwned : Process → Entry → Meta → Type 0
IsOwned p e m = elim p.privileged [
  | true ↦ (m.uid ≡ e.uid) × (m.gid ≡ e.gid)
  | false ↦ (m.uid ≡ p.euid) × (m.gid ≡ p.egid)
]

-- The time of the entry, in whole seconds.
abbrev pub IsAt : ℕ → Time → Type 0
IsAt seconds t = (t.seconds ≡ seconds) × (t.nanoseconds ≡ 0)

abbrev pub IsStamped : Process → Entry → Meta → Type 0
IsStamped p e m = IsOwned p e m × IsAt e.mtime m.atime × IsAt e.mtime m.mtime

-- A file with the content and the permissions of the entry, or a link with its target and the
-- permissions of a new link.
abbrev pub Carries : Process → Entry → Object → Type 0
Carries p e (directory m l) = ⊥
Carries p e (regular m b) =
    (is_link e.mode ≡ false) × (b ≡ e.contents) × (m.mode ≡ e.mode % 4096) × IsStamped p e m
Carries p e (symlink m b) =
    (is_link e.mode ≡ true) × (e.link ≡ some b) × (m.mode ≡ p.link_mode) × IsStamped p e m
Carries p e (special m) = ⊥

abbrev pub Represents : Process → Entry → Object → Type 0
Represents p e o = elim (is_directory e.mode) [ true ↦ is_dir o ≡ true | false ↦ Carries p e o ]

-- The object at the path of an entry that has one.
abbrev pub IsInstalled : Process → Object → Entry → Type 0
IsInstalled p tree e =
    (is_empty e.path ≡ true)
    ⊎ ((o : Object) × (locate tree (split_slash e.path) ≡ located o) × Represents p e o)

finished_meta-IsStamped :
    (p : Process) (e : Entry) (mode : ℕ)
    → ((finished_meta p e mode).mode ≡ mode) × IsStamped p e (finished_meta p e mode)
unfolding apply_ownership
finished_meta-IsStamped p e mode = elim (Bool-cases p.privileged) [
  | inl root ↦ rw root (refl, ((refl, refl), (refl, refl), (refl, refl)))
  | inr user ↦ rw user (refl, ((refl, refl), (refl, refl), (refl, refl)))
]

pub file_object-Carries :
    (p : Process) (e : Entry) (o : Object) → file_object p e ≡ ok o → Carries p e o
unfolding file_object
file_object-Carries p e o h = elim (Bool-cases (is_link e.mode)) [
  | inl link ↦ elim (Option-cases e.link) [
    | inl unlinked ↦ let refused : err _ ≡ ok o = rw (link, unlinked) at h in cc
    | inr (target, there) ↦
        let (mode, stamped) = finished_meta-IsStamped p e p.link_mode in
        subst (Carries p e) (ok-inj (rw (link, there) at h)) (link, there, mode, stamped)
  ]
  | inr file ↦
      let (mode, stamped) = finished_meta-IsStamped p e (e.mode % 4096) in
      subst (Carries p e) (ok-inj (rw file at h)) (file, refl, mode, stamped)
]

Carries-file : (p : Process) (e : Entry) (o : Object) → Carries p e o → is_dir o ≡ false
Carries-file p e (directory m l) c = absurd c
Carries-file p e (regular m b) c = refl
Carries-file p e (symlink m b) c = refl
Carries-file p e (special m) c = refl

-- What stands in one tree stands in every tree that keeps it.
pub Keeps-IsInstalled :
    (p : Process) (t u : Object) (e : Entry) → Keeps t u → IsInstalled p t e → IsInstalled p u e
Keeps-IsInstalled p t u e k (inl blank) = inl blank
Keeps-IsInstalled p t u e k (inr (o, there, is)) =
    let path = split_slash e.path in
    elim (Bool-cases (is_directory e.mode)) [
      | inl d ↦
          let dir : is_dir o ≡ true = rw (Represents, d) at is in
          let (q, found, same) = Stands-dir o (locate u path) dir (k path o there) in
          inr (q, found, rw (Represents, d) same)
      | inr d ↦
          let file : Carries p e o = rw (Represents, d) at is in
          inr (
            o,
            Stands-file o (locate u path) (Carries-file p e o file) (k path o there),
            rw (Represents, d) file,
          )
    ]
