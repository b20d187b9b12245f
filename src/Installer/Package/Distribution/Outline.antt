-- ===== src/Installer/Package/Distribution/Outline.antt =====
-- The choices that `outline_choices` and `check_choices` of pkgs/installer/package.c let pass.
use mathlib.Core.Path.{subst}
use minidarwin.Prelude.{
  ℕ, ◌+◌, ◌≤◌, ◌≡◌, ◌≢◌, inl, inr, true, false, not, none, some, List, [], ◌∷◌, ◌++◌, Bytes, codes,
  All, All-append, length, length-append, leb, ltb, arith, if◌then◌else◌,
}
use minidarwin.Installer.Result.{
  unsupported_element, repeated_choice, choice_limit, outline_nesting, missing_choice, ok, die_if,
  bind-eq-ok, ok-inj, if-cases,
}
use minidarwin.Installer.Paths.{str_eq, limit_depth}
use minidarwin.Installer.Paths.Prefix.{str_eq_iff}
use minidarwin.Installer.Xml.{
  XmlNode, null, element, text, other, Libxml, property, attributes_of, xml_attr, children_of,
}
use minidarwin.Installer.Package.Distribution.{
  find_choice, Choice, has_choice, add_line, outline_lines, outline_choices, check_choice,
  check_choices,
}

abbrev pub DistinctIds : List Choice → Type 0
DistinctIds [] = Unit {0}
DistinctIds (c ∷ choices) = All (λ d. c.id ≢ d.id) choices × DistinctIds choices

-- No choice twice, no more than there may be, and each with the one node that it names.
pub record IsOutline (dist : XmlNode) (choices : List Choice) : Type 0 where
  pub distinct : DistinctIds choices
  pub count : length choices ≤ 1024
  pub nodes : All (λ c. find_choice dist c.id ≡ ok c.node) choices

DistinctIds-append :
    (choices : List Choice) (c : Choice)
    → DistinctIds choices
    → All (λ d. d.id ≢ c.id) choices
    → DistinctIds (choices ++ c ∷ [])
DistinctIds-append [] c d a = (tt, tt)
DistinctIds-append (b ∷ choices) c d a =
    (All-append _ choices (c ∷ []) d.0 (a.0, tt), DistinctIds-append choices c d.1 a.1)

has_choice-false :
    (choices : List Choice) (id : Bytes)
    → has_choice choices id ≡ false
    → All (λ c. c.id ≢ id) choices
unfolding has_choice
has_choice-false [] id h = tt
has_choice-false (c ∷ choices) id h =
    let iff = str_eq_iff c.id id in
    ((λ e. ground arith), has_choice-false choices id (ground arith))

add_line-IsOutline :
    (dist line : XmlNode) (name : Bytes) (choices after : List Choice)
    → IsOutline dist choices
    → add_line dist line name choices ≡ ok after
    → IsOutline dist after
unfolding add_line
add_line-IsOutline dist line name choices after o e =
    let (_, _, a) =
      bind-eq-ok (die_if (not (str_eq name (codes "line"))) unsupported_element) _ e in
    let (id, _, b) = bind-eq-ok (xml_attr line (codes "choice") none) _ a in
    let (_, new, c) = bind-eq-ok (die_if (has_choice choices id) repeated_choice) _ b in
    let (_, room, d) = bind-eq-ok (die_if (leb 1024 (length choices)) choice_limit) _ c in
    let (node, found, same) = bind-eq-ok (find_choice dist id) _ d in
    let it : Choice = record { id = id; node = node } in
    subst (IsOutline dist) (ok-inj same) (record {
      distinct =
          DistinctIds-append choices it o.distinct (has_choice-false choices id (ground arith));
      count = ground (arith, length-append choices (it ∷ []));
      nodes = All-append _ choices (it ∷ []) o.nodes (found, tt);
    })

outline_lines-IsOutline :
    (dist : XmlNode) (depth : ℕ) (n : XmlNode) (choices after : List Choice)
    → IsOutline dist choices
    → outline_lines dist depth n choices ≡ ok after
    → IsOutline dist after
unfolding outline_lines
outline_lines-IsOutline dist depth null choices after o e = subst (IsOutline dist) (ok-inj e) o
outline_lines-IsOutline dist depth (text t next) choices after o e =
    outline_lines-IsOutline dist depth next choices after o e
outline_lines-IsOutline dist depth (other next) choices after o e =
    outline_lines-IsOutline dist depth next choices after o e
outline_lines-IsOutline dist depth (element name attributes children next) choices after o e =
    let n = element name attributes children next in
    let (here, one, a) = bind-eq-ok (add_line dist n name choices) _ e in
    let (_, _, b) = bind-eq-ok (die_if (ltb limit_depth (depth + 1)) outline_nesting) _ a in
    let (below, two, three) = bind-eq-ok (outline_lines dist (depth + 1) children here) _ b in
    let first = add_line-IsOutline dist n name choices here o one in
    let second = outline_lines-IsOutline dist (depth + 1) children here below first two in
    outline_lines-IsOutline dist depth next below after second three

pub outline_choices-IsOutline :
    (dist outline : XmlNode) (choices : List Choice)
    → outline_choices dist outline ≡ ok choices
    → IsOutline dist choices
unfolding outline_choices
outline_choices-IsOutline dist outline choices e =
    outline_lines-IsOutline dist 0 (children_of outline) [] choices
      (record { distinct = tt; count = omega arith; nodes = tt }) e

-- Every choice among the siblings is in the list.
abbrev pub Listed : List Choice → XmlNode → Type 0
Listed choices null = Unit {0}
Listed choices (text t next) = Listed choices next
Listed choices (other next) = Listed choices next
Listed choices (element name attributes children next) =
    (name ≡ codes "choice"
      → (id : Bytes) × (property attributes (codes "id") ≡ some id)
        × (has_choice choices id ≡ true))
    × Listed choices next

check_choice-listed :
    (lib : Libxml) (dist : XmlNode) (choices : List Choice) (n : XmlNode)
    → check_choice lib dist choices n ≡ ok tt
    → (id : Bytes) × (property (attributes_of n) (codes "id") ≡ some id)
      × (has_choice choices id ≡ true)
unfolding check_choice xml_attr
check_choice-listed lib dist choices n e =
    let (id, own, a) = bind-eq-ok (xml_attr n (codes "id") none) _ e in
    let (_, _, b) = bind-eq-ok (find_choice dist id) _ a in
    let (_, listed, _) = bind-eq-ok (die_if (not (has_choice choices id)) missing_choice) _ b in
    (id, ground arith, ground arith)

check_choices-Listed :
    (lib : Libxml) (dist : XmlNode) (choices : List Choice) (n : XmlNode)
    → check_choices lib dist choices n ≡ ok tt
    → Listed choices n
unfolding check_choices
check_choices-Listed lib dist choices null e = tt
check_choices-Listed lib dist choices (text t next) e = check_choices-Listed lib dist choices next e
check_choices-Listed lib dist choices (other next) e = check_choices-Listed lib dist choices next e
check_choices-Listed lib dist choices (element name attributes children next) e =
    let n = element name attributes children next in
    let (u, one, rest) =
      bind-eq-ok (if str_eq name (codes "choice") then check_choice lib dist choices n else ok tt) _
        e in
    (
      λ named. elim (if-cases (str_eq name (codes "choice")) _ _ one) [
        | inl (_, checked) ↦ check_choice-listed lib dist choices n checked
        | inr (differs, _) ↦
            let iff = (str_eq_iff name (codes "choice")).1 named in cc (differs, iff)
      ],
      check_choices-Listed lib dist choices next rest,
    )

-- Where outline_choices and check_choices succeed, the outline names no choice twice and at most
-- 1024 of them, each is the one choice of its identifier in the document, and every choice of the
-- document is named.
pub outlined_exactly :
    (lib : Libxml) (dist outline : XmlNode) (choices : List Choice)
    → outline_choices dist outline ≡ ok choices
    → check_choices lib dist choices (children_of dist) ≡ ok tt
    → IsOutline dist choices × Listed choices (children_of dist)
outlined_exactly lib dist outline choices e f = (
  outline_choices-IsOutline dist outline choices e,
  check_choices-Listed lib dist choices (children_of dist) f,
)
