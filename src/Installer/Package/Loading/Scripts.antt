-- ===== src/Installer/Package/Loading/Scripts.antt =====
-- The scripts of a component, `read_scripts` of pkgs/installer/package.c.
use mathlib.Core.Path.{subst}
use minidarwin.Prelude.{
  ◌≡◌, ◌⊎◌, inl, inr, true, false, not, Option, none, some, List, Bytes, codes, arith,
}
use minidarwin.Installer.Result.{unsupported_script, missing_script, ok, die_if, bind-eq-ok, ok-inj}
use minidarwin.Installer.Paths.{path_normalize}
use minidarwin.Installer.Paths.Fixed.{IsNormal, path_normalize-IsNormal}
use minidarwin.Installer.Entries.{Entry, entries_find}
use minidarwin.Installer.Xml.{XmlNode, null, element, text, other, xml_attr}
use minidarwin.Installer.Package.{
  Hook, preflight, preinstall, postinstall, postflight, Hooks, hook_path, set_hook, no_hooks,
}
use minidarwin.Installer.Package.Loading.{is_set, runs, hook_named, add_hook, read_scripts}

-- Each script of the component is a regular, executable entry of its archive.
abbrev pub HasScripts : List Entry → Hooks → Type 0
HasScripts scripts h =
    (hook : Hook) (path : Bytes)
    → hook_path h hook ≡ some path
    → IsNormal path × (runs (entries_find scripts path) ≡ true)

set_hook_cases :
    (h : Hooks) (hook other_hook : Hook) (path q : Bytes)
    → hook_path (set_hook h hook path) other_hook ≡ some q
    → (path ≡ q) ⊎ (hook_path h other_hook ≡ some q)
set_hook_cases h hook other_hook path q e = ground arith

pub no_hooks-HasScripts : (scripts : List Entry) → HasScripts scripts no_hooks
no_hooks-HasScripts scripts preflight path e = cc
no_hooks-HasScripts scripts preinstall path e = cc
no_hooks-HasScripts scripts postinstall path e = cc
no_hooks-HasScripts scripts postflight path e = cc

add_hook-HasScripts :
    (scripts : List Entry) (n : XmlNode) (named : Option Hook) (h k : Hooks)
    → HasScripts scripts h
    → add_hook scripts n named h ≡ ok k
    → HasScripts scripts k
unfolding add_hook
add_hook-HasScripts scripts n none h k s e = cc
add_hook-HasScripts scripts n (some hook) h k s e =
    let (_, _, a) = bind-eq-ok (die_if (is_set (hook_path h hook)) unsupported_script) _ e in
    let (file, _, b) = bind-eq-ok (xml_attr n (codes "file") none) _ a in
    let (path, normal, c) = bind-eq-ok (path_normalize file false) _ b in
    let (_, found, same) =
      bind-eq-ok (die_if (not (runs (entries_find scripts path))) missing_script) _ c in
    let good : runs (entries_find scripts path) ≡ true = ground arith in
    subst (HasScripts scripts) (ok-inj same) (λ j q f. elim (set_hook_cases h hook j path q f) [
      | inl p ↦ (
        subst IsNormal p (path_normalize-IsNormal file false path normal),
        subst (λ r. runs (entries_find scripts r) ≡ true) p good,
      )
      | inr o ↦ s j q o
    ])

pub read_scripts-HasScripts :
    (scripts : List Entry) (n : XmlNode) (h k : Hooks)
    → HasScripts scripts h
    → read_scripts scripts n h ≡ ok k
    → HasScripts scripts k
unfolding read_scripts
read_scripts-HasScripts scripts null h k s e = subst (HasScripts scripts) (ok-inj e) s
read_scripts-HasScripts scripts (text t next) h k s e = read_scripts-HasScripts scripts next h k s e
read_scripts-HasScripts scripts (other next) h k s e = read_scripts-HasScripts scripts next h k s e
read_scripts-HasScripts scripts (element name attributes children next) h k s e =
    let n = element name attributes children next in
    let (m, one, rest) = bind-eq-ok (add_hook scripts n (hook_named name) h) _ e in
    read_scripts-HasScripts scripts next m k
      (add_hook-HasScripts scripts n (hook_named name) h m s one) rest
