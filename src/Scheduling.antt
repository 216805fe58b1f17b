-- ===== src/Scheduling.antt =====
-- internal/scheduling/tolerations.go: whether a list of tolerations covers a taint.
use kompakt.Prelude.{◌==◌, Bool, true, ◌&&◌, ◌||◌, any, List, if◌then◌else◌}
use kompakt.Kube.{Taint, Toleration}

-- The test of the toleration's effect, which both branches make.
abbrev effect_matches : Taint → Toleration → Bool
effect_matches taint t = t.effect == "" || t.effect == taint.effect

-- One round of the loop: whether it returns true at this toleration.
unfoldable pub tolerates : Taint → Toleration → Bool
tolerates taint t =
    if t.operator == "Exists" && (t.key == "" || t.key == taint.key) && effect_matches taint t
    then true
    else t.key == taint.key && t.value == taint.value && effect_matches taint t

-- `TolerateTaint`
unfoldable pub tolerate_taint : List Toleration → Taint → Bool
unfolding tolerates
tolerate_taint tolerations taint = any (tolerates taint) tolerations
