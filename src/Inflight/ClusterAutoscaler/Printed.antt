-- ===== src/Inflight/ClusterAutoscaler/Printed.antt =====
-- `parseCAStatus` on statuses of its format.
use Prim.Native.String as S
use Prim.Native.String.append
use text.Mathlib.TextLemmas.{append_assoc}
use kompakt.Prelude.{
  ℕ, ◌-◌, ◌^◌, ◌<◌, String, ◌==◌, ◌≡◌, refl, ap, ◌∙◌, true, false, some, List, [], ◌∷◌, ◌++◌, All,
  arith,
}
use kompakt.Int.{pos, pos_part, sub64}
use kompakt.Text.{
  ◌+++◌, has_prefix, is_space, trim_left, trim_right, trim_space, behind, trim_prefix, split,
}
use kompakt.Text.Laws.{
  occurs, occurs-append, split-append, trim_right-append, trim_space-append, trim_space-skip,
  empty-append, behind-append, has_prefix-here,
}
use kompakt.Controller.Conditions.{show}
use kompakt.Controller.Conditions.Decimal.{show-filled}
use kompakt.Inflight.{InflightNode}
use kompakt.Inflight.ClusterAutoscaler.{pending_nodes, health_nodes, status_loop, parse_ca_status}
use kompakt.Inflight.ClusterAutoscaler.Health.{
  health_line, trim_show, occurs-show, parse_health_line-health_line,
}

-- A node group of the status.
pub record Group : Type 0 where
  pub name : String
  pub ready : ℕ
  pub target : ℕ

-- Its first line.
abbrev pub name_line : String → String
name_line name = "Name: " +++ name

-- The status, two lines for each group.
abbrev pub status_text : List Group → String
status_text [] = ""
status_text (g ∷ gs) =
    name_line g.name +++ ("\n" +++ (health_line g.ready g.target +++ ("\n" +++ status_text gs)))

-- A name is not empty, begins and ends with no white space, and stands on one line; the counts fit.
pub record IsPlain (g : Group) : Type 0 where
  pub filled : (g.name == "") ≡ false
  pub left : trim_left g.name ≡ g.name
  pub right : trim_right g.name ≡ g.name
  pub one_line : occurs b'\n' g.name ≡ false
  pub ready_fits : g.ready < 2 ^ 63
  pub target_fits : g.target < 2 ^ 63

turn_name :
    (raw line : String) (lines : List String) (group : String)
    → trim_space raw ≡ line
    → has_prefix line "Name:" ≡ true
    → status_loop (raw ∷ lines) group ≡ status_loop lines (trim_space (trim_prefix line "Name:"))
unfolding status_loop
turn_name raw line lines group h k = rw (h, k) refl

turn_health :
    (raw line : String) (lines : List String) (group : String)
    → trim_space raw ≡ line
    → has_prefix line "Name:" ≡ false
    → has_prefix line "Health:" ≡ true
    → (group == "") ≡ false
    → status_loop (raw ∷ lines) group ≡ health_nodes group line ++ status_loop lines ""
unfolding status_loop
turn_health raw line lines group h k m e = rw (h, k, m, e) refl

trim_prefix-found : (s p rest : String) → behind s p ≡ some rest → trim_prefix s p ≡ rest
unfolding trim_prefix
trim_prefix-found s p rest h = ground arith

trim_name : (g : Group) → IsPlain g → trim_space (name_line g.name) ≡ name_line g.name
unfolding is_space
trim_name g p = trim_space-append "N" "ame: " g.name refl p.right p.filled

name_apart : (name : String) → name_line name ≡ "Name:" +++ (" " +++ name)
name_apart name = append_assoc "Name:" " " name

behind_name : (g : Group) → IsPlain g → trim_space (trim_prefix (name_line g.name) "Name:") ≡ g.name
unfolding trim_prefix is_space trim_space
behind_name g p =
    let found = behind-append "Name:" (" " +++ g.name) in
    let rest : trim_prefix (name_line g.name) "Name:" ≡ " " +++ g.name =
      ap (λ s. trim_prefix s "Name:") (name_apart g.name)
      ∙ trim_prefix-found ("Name:" +++ (" " +++ g.name)) "Name:" (" " +++ g.name) found in
    ap trim_space rest
    ∙ ap trim_space (append.cons " " "" g.name ∙ ap (λ s. S.◌∷◌ " " s) (append.nil g.name))
    ∙ trim_space-skip " " g.name refl
    ∙ rw (p.left, p.right) refl

abbrev count_tail : ℕ → ℕ → String
count_tail ready target = show ready +++ ("," +++ (" cloudProviderTarget=" +++ show target))

trim_line : (ready target : ℕ) → trim_space (health_line ready target) ≡ health_line ready target
unfolding is_space
trim_line ready target =
    let end = " cloudProviderTarget=" +++ show target in
    let e1 = empty-append " cloudProviderTarget=" (show target) (show-filled target) in
    let e2 = empty-append "," end e1 in
    let t1 =
      trim_right-append " cloudProviderTarget=" (show target) (trim_show target)
        (show-filled target) in
    let t2 = trim_right-append "," end t1 e1 in
    trim_space-append "H" "ealth: ready=" (count_tail ready target) refl
      (trim_right-append (show ready) ("," +++ end) t2 e2)
      (empty-append (show ready) ("," +++ end) e2)

line_is_health :
    (ready target : ℕ)
    → (has_prefix (health_line ready target) "Name:" ≡ false)
      × (has_prefix (health_line ready target) "Health:" ≡ true)
unfolding has_prefix
line_is_health ready target = (
  rw (append.cons "H" "ealth: ready=" (count_tail ready target)) refl,
  ap (λ s. has_prefix s "Health:") (append_assoc "Health:" " ready=" (count_tail ready target))
      ∙ has_prefix-here "Health:" (" ready=" +++ count_tail ready target),
)

difference :
    (ready target : ℕ)
    → ready < 2 ^ 63
    → target < 2 ^ 63
    → pos_part (sub64 (pos target) (pos ready)) ≡ target - ready
unfolding sub64
difference ready target hr ht = ground arith

-- The nodes of a group that are on their way.
abbrev pub missing_nodes : Group → List InflightNode
missing_nodes g = pending_nodes g.name 0 (g.target - g.ready)

abbrev pub all_missing : List Group → List InflightNode
all_missing [] = []
all_missing (g ∷ gs) = missing_nodes g ++ all_missing gs

group_turn :
    (g : Group) (lines : List String) (group : String)
    → IsPlain g
    → status_loop (name_line g.name ∷ health_line g.ready g.target ∷ lines) group
      ≡ missing_nodes g ++ status_loop lines ""
unfolding health_nodes
group_turn g lines group p =
    let line = health_line g.ready g.target in
    let (not_name, is_health) = line_is_health g.ready g.target in
    let named : has_prefix (name_line g.name) "Name:" ≡ true =
      ap (λ s. has_prefix s "Name:") (name_apart g.name)
      ∙ has_prefix-here "Name:" (" " +++ g.name) in
    let counts = parse_health_line-health_line g.ready g.target p.ready_fits p.target_fits in
    turn_name (name_line g.name) (name_line g.name) (line ∷ lines) group (trim_name g p) named
    ∙ ap (status_loop (line ∷ lines)) (behind_name g p)
    ∙ turn_health line line lines g.name (trim_line g.ready g.target) not_name is_health p.filled
    ∙ rw (counts, difference g.ready g.target p.ready_fits p.target_fits) refl

lines_apart :
    (line rest : String)
    → occurs b'\n' line ≡ false
    → split (line +++ ("\n" +++ rest)) b'\n' ≡ line ∷ split rest b'\n'
lines_apart line rest h =
    ap (λ s. split (line +++ s) b'\n')
      (append.cons "\n" "" rest ∙ ap (λ t. S.◌∷◌ "\n" t) (append.nil rest))
    ∙ split-append line rest "\n" h

one_line :
    (g : Group)
    → IsPlain g
    → (occurs b'\n' (name_line g.name) ≡ false)
      × (occurs b'\n' (health_line g.ready g.target) ≡ false)
unfolding occurs
one_line g p = (
  occurs-append b'\n' "Name: " g.name ∙ p.one_line,
  ground (
    arith,
    occurs-append b'\n' "Health: ready=" (count_tail g.ready g.target),
    occurs-append b'\n' (show g.ready) ("," +++ (" cloudProviderTarget=" +++ show g.target)),
    occurs-append b'\n' "," (" cloudProviderTarget=" +++ show g.target),
    occurs-append b'\n' " cloudProviderTarget=" (show g.target),
    occurs-show b'\n' g.ready refl,
    occurs-show b'\n' g.target refl,
  ),
)

status_loop-status_text :
    (gs : List Group)
    → All IsPlain gs
    → status_loop (split (status_text gs) b'\n') "" ≡ all_missing gs
unfolding status_loop split trim_space has_prefix
status_loop-status_text [] h = refl
status_loop-status_text (g ∷ gs) (p, h) =
    let (o1, o2) = one_line g p in
    let line = health_line g.ready g.target in
    let rest = status_text gs in
    let parts =
      lines_apart (name_line g.name) (line +++ ("\n" +++ rest)) o1
      ∙ ap (λ ss. name_line g.name ∷ ss) (lines_apart line rest o2) in
    ap (λ ss. status_loop ss "") parts
    ∙ group_turn g (split rest b'\n') "" p
    ∙ ap (λ ns. missing_nodes g ++ ns) (status_loop-status_text gs h)

-- Of a status with two lines for each group, `Name: ` with the name and `Health: ready=` with the ready
-- count and `, cloudProviderTarget=` with the target, `parseCAStatus` gives for each group in turn as many nodes as its target is above its ready
-- count, and none where it is not above. The names are not empty, have no white space at their ends
-- and no line break, and the counts are below 2^63.
pub parse_ca_status-status_text :
    (gs : List Group) → All IsPlain gs → parse_ca_status (status_text gs) ≡ all_missing gs
unfolding parse_ca_status
parse_ca_status-status_text gs h = status_loop-status_text gs h
