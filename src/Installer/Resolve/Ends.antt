-- ===== src/Installer/Resolve/Ends.antt =====
-- The fuel of `resolve_target_path` of pkgs/installer/install.c.
use Prim.Native.Nat.mul
use minidarwin.Prelude.{
  ℕ, zero, suc, ◌+◌, ◌-◌, ◌*◌, ◌≤◌, ◌<◌, ◌≡◌, ◌≢◌, refl, true, false, not, ◌||◌, List, [], ◌∷◌,
  ◌++◌, Bytes, length, length-take, length-append, ltb, arith, ltb-false, inl, inr, ◌⊎◌,
}
use minidarwin.Installer.Result.{
  Fault, out_of_fuel, Result, ok, err, bind-Outcome, Outcome, die-Outcome, Outcome-err, if-Outcome,
  leaves_root, too_many_symlinks,
}
use minidarwin.Installer.Paths.{
  path_max, is_empty, str_eq, dot, dot_dot, path_join, starts_with_slash, skip_slashes,
  ends_in_slash,
}
use minidarwin.Installer.Paths.Components.{join}
use minidarwin.Installer.Tree.{symlink, Found, found, find}
use minidarwin.Installer.Resolve.{
  first_name, after_slash, parent, Target, Walk, limit_symlink_hops, read_link, splice, follow_link,
  enter, go_up, go_into, advance, walk, resolve_target_path,
}

abbrev NotFuel : Fault → Type 0
NotFuel fault = fault ≢ out_of_fuel

-- What the program does but run out of fuel.
abbrev Ends {ℓ} : {Value : Type ℓ} → (Value → Type 0) → Result Value → Type 0
Ends P r = Outcome NotFuel P r

path_join-Ends :
    (a b : Bytes) (n : ℕ)
    → length a < path_max
    → length b ≤ n
    → path_max ≤ n
    → Ends (λ r. length r ≤ n) (path_join a b)
unfolding path_join ends_in_slash
path_join-Ends a b n h k l = ground (arith, length-append a b, length-append a (b'/' ∷ b))

path_join-Avoids : (a b : Bytes) → Ends (λ r. Unit) (path_join a b)
unfolding path_join
path_join-Avoids a b = ground arith

after_slash-length : (c : ℕ) (s : Bytes) → length (after_slash (c ∷ s)) ≤ length s
unfolding after_slash
after_slash-length c [] = ground arith
after_slash-length c (d ∷ s) = ground (arith, after_slash-length d s)

skip_slashes-length : (s : Bytes) → length (skip_slashes s) ≤ length s
unfolding skip_slashes
skip_slashes-length [] = omega arith
skip_slashes-length (c ∷ s) = ground (arith, skip_slashes-length s)

-- A turn of the loop: the text gets shorter, or a link is followed.
Turns : ℕ → Walk → Walk → Type 0
Turns n w w' =
    (length w'.todo ≤ n)
    × (w'.hops ≤ limit_symlink_hops)
    × (((w'.hops ≡ w.hops) × (length w'.todo < length w.todo)) ⊎ (w'.hops ≡ suc w.hops))

splice-Ends :
    (w : Walk) (rest : Bytes) (done : List Bytes) (relative : Bytes) (n : ℕ)
    → length relative < path_max
    → length rest ≤ n
    → path_max ≤ n
    → w.hops + 1 ≤ limit_symlink_hops
    → Ends (Turns n w) (splice w rest done relative)
unfolding splice Turns
splice-Ends w rest done relative n r h k few =
    bind-Outcome NotFuel (λ s. length s ≤ n) (Turns n w) (path_join relative rest) _
      (path_join-Ends relative rest n r h k) (λ s short. (short, few, inr (omega arith)))

follow_link-Ends :
    (t : Target) (w : Walk) (rest text : Bytes) (n : ℕ)
    → length text < path_max
    → length rest ≤ n
    → path_max ≤ n
    → Ends (Turns n w) (follow_link t w rest text)
unfolding follow_link
follow_link-Ends t w rest text n s h k =
    die-Outcome NotFuel too_many_symlinks (ltb limit_symlink_hops (w.hops + 1)) _ (Turns n w)
      (λ e. cc e)
      (λ few.
        let few' = ltb-false _ _ few in
        if-Outcome NotFuel (starts_with_slash text) _ _ (Turns n w)
          (λ x.
            if-Outcome NotFuel t.live _ _ (Turns n w)
              (λ y.
                splice-Ends w rest [] (skip_slashes text) n
                  (omega (arith, skip_slashes-length text)) h k few')
              (λ y e. cc e))
          (λ x. splice-Ends w rest w.done text n s h k few'))

enter-Ends :
    (t : Target) (w : Walk) (rest : Bytes) (next : List Bytes) (f : Found) (n : ℕ)
    → length rest < length w.todo
    → length w.todo ≤ n
    → path_max ≤ n
    → w.hops ≤ limit_symlink_hops
    → Ends (Turns n w) (enter t w rest next f)
unfolding enter Turns
enter-Ends t w rest next (found (symlink link)) n h k l m =
    if-Outcome NotFuel (not (is_empty rest) || t.follow_last) _ _ (Turns n w)
      (λ x.
        follow_link-Ends t w rest (read_link link) n
          (omega (arith, length-take (path_max - 1) link)) (omega arith) l)
      (λ x. (omega arith, m, inl (refl, h)))
enter-Ends t w rest next f n h k l m = ground arith

shorter : (s : Bytes) → s ≢ [] → length (after_slash s) < length s
shorter [] e = absurd (e refl)
shorter (c ∷ s) e = omega (arith, after_slash-length c s)

go_into-Ends :
    (t : Target) (w : Walk) (rest name : Bytes) (n : ℕ)
    → length rest < length w.todo
    → length w.todo ≤ n
    → path_max ≤ n
    → w.hops ≤ limit_symlink_hops
    → Ends (Turns n w) (go_into t w rest name)
unfolding go_into
go_into-Ends t w rest name n less h k l =
    let next = w.done ++ name ∷ [] in
    bind-Outcome NotFuel (λ r. Unit) (Turns n w) (path_join (join w.done) name) _
      (path_join-Avoids _ _)
      (λ text u.
        bind-Outcome NotFuel (λ r. Unit) (Turns n w) (path_join t.base (join next))
          (λ host. enter t w rest next (find t.tree next)) (path_join-Avoids _ _)
          (λ host v. enter-Ends t w rest next (find t.tree next) n less h k l))

go_up-Ends :
    (w : Walk) (rest : Bytes) (n : ℕ)
    → length rest < length w.todo
    → length w.todo ≤ n
    → w.hops ≤ limit_symlink_hops
    → Ends (Turns n w) (go_up w rest)
unfolding go_up Turns
go_up-Ends w rest n less h l =
    die-Outcome NotFuel leaves_root (elim w.done [ [] ↦ true | m ∷ ms ↦ false ])
      (ok (record { done = parent w.done; todo = rest; hops = w.hops })) (Turns n w) (λ z. cc z)
      (λ z. (omega arith, l, inl (refl, less)))

advance-Ends :
    (t : Target) (w : Walk) (n : ℕ)
    → w.todo ≢ []
    → length w.todo ≤ n
    → path_max ≤ n
    → w.hops ≤ limit_symlink_hops
    → Ends (Turns n w) (advance t w)
unfolding advance Turns
advance-Ends t w n e h k l =
    let less = shorter w.todo e in
    let name = first_name w.todo in
    let rest = after_slash w.todo in
    if-Outcome NotFuel (is_empty name || str_eq name dot)
      (ok (record { done = w.done; todo = rest; hops = w.hops })) _ (Turns n w)
      (λ x. (omega arith, l, inl (refl, less)))
      (λ x.
        if-Outcome NotFuel (str_eq name dot_dot) (go_up w rest) (go_into t w rest name) (Turns n w)
          (λ y. go_up-Ends w rest n less h l) (λ y. go_into-Ends t w rest name n less h k l))

pub is_empty-false : (s : Bytes) → is_empty s ≡ false → s ≢ []
is_empty-false s e x = ground arith

-- What is left to do.
abbrev measure : ℕ → Walk → ℕ
measure n w = length w.todo + (limit_symlink_hops - w.hops) * (n + 1)

turn_less :
    (n : ℕ) (w w' : Walk) (fuel : ℕ) → Turns n w w' → measure n w ≤ fuel → measure n w' < fuel
unfolding Turns
turn_less n w w' fuel (a, b, inl (same, less)) m = rw same (omega arith)
turn_less n w w' fuel (a, b, inr more) m =
    let left : limit_symlink_hops - w.hops ≡ suc (limit_symlink_hops - w'.hops) = omega arith in
    let m' = rw (left, mul.suc (limit_symlink_hops - w'.hops) (n + 1)) at m in omega arith

walk-Ends :
    (fuel : ℕ) (t : Target) (w : Walk) (n : ℕ)
    → length w.todo ≤ n
    → path_max ≤ n
    → w.hops ≤ limit_symlink_hops
    → measure n w < fuel
    → Ends (λ r. Unit) (walk fuel t w)
unfolding walk Turns
walk-Ends zero t w n h k l m = absurd (omega arith)
walk-Ends (suc fuel) t w n h k l m =
    if-Outcome NotFuel (is_empty w.todo) _ _ (λ r. Unit) (λ x. tt)
      (λ x.
        bind-Outcome NotFuel (Turns n w) (λ r. Unit) (advance t w) _
          (advance-Ends t w n (λ e. is_empty-false w.todo x e) h k l)
          (λ w' turn.
            walk-Ends fuel t w' n turn.0 k turn.1 (turn_less n w w' fuel turn (omega arith))))

-- The resolution of a path ends, whatever links the tree holds: the fuel that it is given is
-- enough.
pub resolve_target_path_ends :
    (t : Target) (rel : Bytes) → resolve_target_path t rel ≢ err out_of_fuel
unfolding resolve_target_path
resolve_target_path_ends t rel e =
    let fuel = suc (length rel + limit_symlink_hops * (length rel + path_max + 1)) in
    let w : Walk = record { done = []; todo = rel; hops = 0 } in
    Outcome-err NotFuel (λ r. Unit) (walk fuel t w) out_of_fuel
      (walk-Ends fuel t w (length rel + path_max) (omega arith) (omega arith) (omega arith)
        (omega arith))
      e refl
