-- ===== src/Controller/Conditions/Reading.antt =====
-- What `setCondition` leaves to be read.
use kompakt.Prelude.{
  String, ◌==◌, eq_iff, ◌≡◌, refl, false, Option, none, some, List, [], ◌∷◌, ◌&&◌, arith,
  if◌then◌else◌,
}
use kompakt.Int.{ℤ}
use kompakt.Api.{Condition, PackingProfile}
use kompakt.Controller.Conditions.{put_condition, set_condition, is_true_in, condition_is_true}

-- The first condition of a kind.
abbrev pub find_condition : String → List Condition → Option Condition
find_condition kind [] = none
find_condition kind (c ∷ cs) = if c.kind == kind then some c else find_condition kind cs

-- What becomes of a condition that is set: it is made, or changed where its status or its reason is
-- another, and else stays as it was, its message too.
abbrev pub revised : String → String → String → String → ℤ → Option Condition → Condition
revised kind status reason message now none = record {
  kind = kind;
  status = status;
  reason = reason;
  message = message;
  last_transition = now;
}
revised kind status reason message now (some c) =
    if c.status == status && c.reason == reason
    then c
    else record c { status = status; reason = reason; message = message; last_transition = now }

revised-status :
    (kind status reason message : String) (now : ℤ) (o : Option Condition)
    → (revised kind status reason message now o).status ≡ status
revised-status kind status reason message now none = refl
revised-status kind status reason message now (some c) = ground (arith, eq_iff c.status status)

module _ (kind status reason message : String) (now : ℤ) where
  put_condition-find :
      (other : String) (cs : List Condition)
      → find_condition other (put_condition kind status reason message now cs) ≡ (
          if kind == other
          then some (revised kind status reason message now (find_condition kind cs))
          else find_condition other cs)
  unfolding put_condition
  put_condition-find other [] = ground arith
  put_condition-find other (c ∷ cs) = ground (
    arith,
    eq_iff c.kind kind,
    eq_iff c.kind other,
    eq_iff kind other,
    put_condition-find other cs,
  )

  -- After a condition is set, it is the revised one; each other is as it was.
  pub set_condition-find :
      (profile : PackingProfile) (other : String)
      → find_condition other
          (set_condition now profile kind status reason message).status.conditions
        ≡ (if kind == other
            then some (
                revised kind status reason message now
                  (find_condition kind profile.status.conditions))
            else find_condition other profile.status.conditions)
  unfolding set_condition
  set_condition-find profile other = put_condition-find other profile.status.conditions

pub is_true_in-find :
    (kind : String) (cs : List Condition)
    → is_true_in kind cs
      ≡ (elim (find_condition kind cs) [ none ↦ false | some c ↦ c.status == "True" ])
unfolding is_true_in
is_true_in-find kind [] = refl
is_true_in-find kind (c ∷ cs) = ground (arith, is_true_in-find kind cs)

-- A condition that was just set reads as its status says; setting it leaves the others' reading.
pub set_condition-is_true :
    (now : ℤ) (profile : PackingProfile) (kind status reason message other : String)
    → condition_is_true (set_condition now profile kind status reason message) other
      ≡ (if kind == other then status == "True" else condition_is_true profile other)
unfolding condition_is_true
set_condition-is_true now profile kind status reason message other = ground (
  arith,
  is_true_in-find other (set_condition now profile kind status reason message).status.conditions,
  is_true_in-find other profile.status.conditions,
  set_condition-find kind status reason message now profile other,
  revised-status kind status reason message now (find_condition kind profile.status.conditions),
)
