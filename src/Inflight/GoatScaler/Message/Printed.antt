-- ===== src/Inflight/GoatScaler/Message/Printed.antt =====
-- `parseProvisionNodeMessage` on messages of its format.
use Prim.Native.String as S
use Prim.Native.String.append
use kompakt.Prelude.{
  String, ◌≡◌, refl, sym, ap, ◌∙◌, true, Option, none, some, List, [], ◌∷◌, arith,
}
use text.Mathlib.TextLemmas.{append-nil}
use kompakt.Text.{◌+++◌, behind}
use kompakt.Regex.{
  nonspace, any_but_newline, accepts, Item, literal, group, plus, match_at, find_submatch,
}
use kompakt.Regex.Words.{
  is_word, plus-refused, plus-stuck, match_at-literal, match_at-group, find_submatch-here,
}
use kompakt.Inflight.GoatScaler.Message.{
  provision_node_regex, groups_provision, parse_provision_node_message,
}

-- Behind a word stands a space.
space_stuck :
    (rest : String → Option (List String)) (p s : String)
    → plus rest nonspace ((S.◌∷◌ " " p) +++ s) ≡ none
unfolding accepts
space_stuck rest p s = rw (append.cons " " p s) (plus-refused rest nonspace " " (p +++ s) refl)

in_zone_stuck :
    (rest : String → Option (List String)) (s : String)
    → plus rest nonspace (" in Zone: " +++ s) ≡ none
in_zone_stuck rest s = space_stuck rest "in Zone: " s

comma_fails :
    (items : List Item) (s : String)
    → match_at (literal ", Triggered time " ∷ items) (" Triggered time " +++ s) ≡ none
unfolding match_at behind
comma_fails items s = rw (append.cons " " "Triggered time " s) refl

comma_stuck :
    (items : List Item) (s : String)
    → plus (match_at (literal ", Triggered time " ∷ items)) nonspace (", Triggered time " +++ s)
      ≡ none
comma_stuck items s = rw (append.cons "," " Triggered time " s) (
    plus-stuck (match_at (literal ", Triggered time " ∷ items)) nonspace ","
      (" Triggered time " +++ s) (space_stuck _ "Triggered time " s) (comma_fails items s))

-- The message of a `ProvisionNode` event.
abbrev pub message : String → String → String → String → String
message node_name zone instance_type time =
    "Provision node "
    +++ (node_name
        +++ (" in Zone: "
            +++ (zone
                +++ (" with InstanceType: "
                    +++ (instance_type +++ (", Triggered time " +++ time))))))

match_at-time :
    (time : String)
    → is_word any_but_newline time ≡ true
    → match_at (group any_but_newline ∷ []) time ≡ some (time ∷ [])
unfolding plus match_at
match_at-time time h =
    ap (match_at (group any_but_newline ∷ [])) (sym (append-nil time))
    ∙ match_at-group [] any_but_newline time "" [] refl refl h

parse_provision_node_message-found :
    (msg : String) (groups : List String)
    → find_submatch provision_node_regex msg ≡ some groups
    → parse_provision_node_message msg ≡ groups_provision groups
unfolding parse_provision_node_message
parse_provision_node_message-found msg groups h = ground arith

-- A message of the format gives back the name of the node, the zone and the instance type: they are
-- words without white space, and the time is a line.
pub parse_provision_node_message-message :
    (node_name zone instance_type time : String)
    → is_word nonspace node_name ≡ true
    → is_word nonspace zone ≡ true
    → is_word nonspace instance_type ≡ true
    → is_word any_but_newline time ≡ true
    → parse_provision_node_message (message node_name zone instance_type time)
      ≡ some (record { node_name = node_name; zone = zone; instance_type = instance_type })
parse_provision_node_message-message n z t time hn hz ht hd =
    let i1 = literal ", Triggered time " ∷ group any_but_newline ∷ [] in
    let i2 = literal " with InstanceType: " ∷ group nonspace ∷ i1 in
    let i3 = literal " in Zone: " ∷ group nonspace ∷ i2 in
    let s1 = ", Triggered time " +++ time in
    let s2 = " with InstanceType: " +++ (t +++ s1) in
    let s3 = " in Zone: " +++ (z +++ s2) in
    let m1 =
      match_at-literal (group any_but_newline ∷ []) ", Triggered time " time
      ∙ match_at-time time hd in
    let m2 =
      match_at-literal (group nonspace ∷ i1) " with InstanceType: " (t +++ s1)
      ∙ match_at-group i1 nonspace t s1 (time ∷ []) (comma_stuck (group any_but_newline ∷ []) time)
          m1 ht in
    let m3 =
      match_at-literal (group nonspace ∷ i2) " in Zone: " (z +++ s2)
      ∙ match_at-group i2 nonspace z s2 (t ∷ time ∷ [])
          (space_stuck (match_at i2) "with InstanceType: " (t +++ s1)) m2 hz in
    let whole =
      match_at-literal (group nonspace ∷ i3) "Provision node " (n +++ s3)
      ∙ match_at-group i3 nonspace n s3 (z ∷ t ∷ time ∷ [])
          (space_stuck (match_at i3) "in Zone: " (z +++ s2)) m3 hn in
    parse_provision_node_message-found (message n z t time) (n ∷ z ∷ t ∷ time ∷ [])
      (find_submatch-here provision_node_regex (message n z t time) (n ∷ z ∷ t ∷ time ∷ []) whole)
