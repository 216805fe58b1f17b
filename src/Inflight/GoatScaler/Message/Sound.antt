-- ===== src/Inflight/GoatScaler/Message/Sound.antt =====
-- `parseProvisionNodeMessage`: what a message that it accepts is.
use mathlib.Core.Path.{subst}
use kompakt.Prelude.{
  String, ◌≡◌, refl, sym, ap, ◌∙◌, true, Option, none, some, List, [], ◌∷◌, Option-cases, inl, inr,
  arith,
}
use kompakt.Text.{◌+++◌}
use kompakt.Regex.{nonspace, any_but_newline, find_submatch}
use kompakt.Regex.Words.{is_word}
use kompakt.Regex.Sound.{Spells, find_submatch-Spells}
use kompakt.Inflight.GoatScaler.{Provision}
use kompakt.Inflight.GoatScaler.Message.{
  provision_node_regex, groups_provision, parse_provision_node_message,
}
use kompakt.Inflight.GoatScaler.Message.Printed.{message}

-- The message holds a text of the format with that node, zone and instance type.
pub record Announces (msg : String) (p : Provision) : Type 0 where
  pub front : String
  pub time : String
  pub back : String
  pub node_name : is_word nonspace p.node_name ≡ true
  pub zone : is_word nonspace p.zone ≡ true
  pub instance_type : is_word nonspace p.instance_type ≡ true
  pub line : is_word any_but_newline time ≡ true
  pub whole : msg ≡ front +++ message p.node_name p.zone p.instance_type (time +++ back)

-- The groups of the expression.
record Groups (s : String) (groups : List String) : Type 0 where
  node_name : String
  zone : String
  instance_type : String
  time : String
  back : String
  listed : groups ≡ node_name ∷ zone ∷ instance_type ∷ time ∷ []
  node_name_word : is_word nonspace node_name ≡ true
  zone_word : is_word nonspace zone ≡ true
  instance_type_word : is_word nonspace instance_type ≡ true
  line : is_word any_but_newline time ≡ true
  whole : s ≡ message node_name zone instance_type (time +++ back)

spelled :
    (s : String) (groups : List String) → Spells provision_node_regex groups s → Groups s groups
spelled s [] (_, _, h) = absurd h
spelled s (n ∷ []) (_, _, (_, _, _, (_, _, h))) = absurd h
spelled s (n ∷ z ∷ []) (_, _, (_, _, _, (_, _, (_, _, _, (_, _, h))))) = absurd h
spelled s (n ∷ z ∷ t ∷ []) (_, _, (_, _, _, (_, _, (_, _, _, (_, _, (_, _, _, (_, _, h))))))) =
    absurd h
spelled s (n ∷ z ∷ t ∷ d ∷ [])
      (_, e1, (_, wn, e2, (_, e3, (_, wz, e4, (_, e5, (_, wt, e6, (_, e7, (back, wd, e8, _)))))))) =
    record {
      node_name = n;
      zone = z;
      instance_type = t;
      time = d;
      back = back;
      listed = refl;
      node_name_word = wn;
      zone_word = wz;
      instance_type_word = wt;
      line = wd;
      whole = rw (e1, e2, e3, e4, e5, e6, e7, e8) refl;
    }
spelled s (n ∷ z ∷ t ∷ d ∷ x ∷ gs)
      (_, _, (_, _, _, (_, _, (_, _, _, (_, _, (_, _, _, (_, _, (_, _, _, h)))))))) =
    absurd h

found_in :
    (msg : String) (groups : List String) (p : Provision)
    → find_submatch provision_node_regex msg ≡ some groups
    → groups_provision groups ≡ some p
    → Announces msg p
found_in msg groups p e h =
    let (front, back, whole, spells) = find_submatch-Spells provision_node_regex msg groups e in
    let g = spelled back groups spells in
    let q : Provision = record {
      node_name = g.node_name;
      zone = g.zone;
      instance_type = g.instance_type;
    } in
    let same : some q ≡ some p = sym (ap groups_provision g.listed) ∙ h in
    subst (Announces msg) (ap (λ (o : Option Provision). elim o [ none ↦ q | some r ↦ r ]) same)
      (record {
        front = front;
        time = g.time;
        back = g.back;
        node_name = g.node_name_word;
        zone = g.zone_word;
        instance_type = g.instance_type_word;
        line = g.line;
        whole = whole ∙ ap (λ u. front +++ u) g.whole;
      })

-- A message that is accepted holds a text of the format, with the node, the zone and the instance type
-- that are returned; each is a word without white space, and not empty.
pub parse_provision_node_message-Announces :
    (msg : String) (p : Provision) → parse_provision_node_message msg ≡ some p → Announces msg p
unfolding parse_provision_node_message
parse_provision_node_message-Announces msg p h =
    elim (Option-cases (find_submatch provision_node_regex msg)) [
      | inl e ↦ absurd (ground arith)
      | inr (groups, e) ↦ found_in msg groups p e (ground arith)
    ]
