-- ===== src/Inflight/ClusterAutoscaler/Health.antt =====
-- `parseHealthLine` on lines of its format.
use Prim.Native.String as S
use Prim.Native.String.append
use text.Mathlib.TextLemmas.{append_assoc}
use kompakt.Prelude.{
  ℕ, ◌^◌, ◌<◌, String, ◌≡◌, refl, sym, ap, ◌∙◌, true, false, ◌&&◌, some, List, [], ◌∷◌, leb, arith,
  if◌then◌else◌,
}
use kompakt.Int.{ℤ, pos}
use kompakt.Text.{◌+++◌, contains, is_space, trim_right, trim_space, after_first, split}
use kompakt.Text.Laws.{
  occurs, occurs-append, split-append, split_last, contains-occurs, contains-append,
  after_first-append, trim_space-append, trim_space-skip, is_digits, is_digits-occurs,
  trim_right-is_digits, trim_left-is_digits,
}
use kompakt.Strconv.{atoi}
use kompakt.Controller.Conditions.{show}
use kompakt.Controller.Conditions.Decimal.{show-is_digits, show-filled, atoi-show}
use kompakt.Inflight.ClusterAutoscaler.{extract_value, health_loop, parse_health_line}

-- The second line of a group.
abbrev pub health_line : ℕ → ℕ → String
health_line ready target =
    "Health: ready=" +++ (show ready +++ ("," +++ (" cloudProviderTarget=" +++ show target)))

digits_trim : (s : String) → is_digits s ≡ true → trim_space s ≡ s
unfolding trim_space
digits_trim s h = rw (trim_left-is_digits s h) (trim_right-is_digits s h)

extract_value-found :
    (s p rest : String)
    → after_first s p ≡ some rest
    → trim_space rest ≡ rest
    → extract_value s p ≡ rest
unfolding extract_value
extract_value-found s p rest h k = ground arith

-- The two parts of a health line.
abbrev ready_part : ℕ → String
ready_part n = "Health: ready=" +++ show n

abbrev target_part : ℕ → String
target_part n = "cloudProviderTarget=" +++ show n

ready_apart : (n : ℕ) → ready_part n ≡ "Health: " +++ ("ready=" +++ show n)
ready_apart n = append_assoc "Health: " "ready=" (show n)

extract_ready : (n : ℕ) → extract_value (ready_part n) "ready=" ≡ show n
unfolding occurs
extract_ready n =
    extract_value-found (ready_part n) "ready=" (show n)
      (ap (λ s. after_first s "ready=") (ready_apart n)
        ∙ after_first-append "Health: " "eady=" (show n) "r" refl)
      (digits_trim (show n) (show-is_digits n))

extract_target : (n : ℕ) → extract_value (target_part n) "cloudProviderTarget=" ≡ show n
unfolding occurs
extract_target n =
    extract_value-found (target_part n) "cloudProviderTarget=" (show n)
      (ap (λ s. after_first s "cloudProviderTarget=") (sym (append.nil (target_part n)))
        ∙ after_first-append "" "loudProviderTarget=" (show n) "c" refl)
      (digits_trim (show n) (show-is_digits n))

pub occurs-show : (d : ℕ) (n : ℕ) → (leb b'0' d && leb d b'9') ≡ false → occurs d (show n) ≡ false
occurs-show d n h = is_digits-occurs (show n) d h (show-is_digits n)

ready_holds : (n : ℕ) → contains (ready_part n) "ready=" ≡ true
ready_holds n =
    ap (λ s. contains s "ready=") (ready_apart n) ∙ contains-append "Health: " "ready=" (show n)

target_holds : (n : ℕ) → contains (target_part n) "cloudProviderTarget=" ≡ true
target_holds n =
    ap (λ s. contains s "cloudProviderTarget=") (sym (append.nil (target_part n)))
    ∙ contains-append "" "cloudProviderTarget=" (show n)

ready_lacks : (n : ℕ) → contains (ready_part n) "cloudProviderTarget=" ≡ false
unfolding occurs
ready_lacks n =
    contains-occurs (ready_part n) "cloudProviderTarget=" b'c' refl
      (occurs-append b'c' "Health: ready=" (show n) ∙ occurs-show b'c' n refl)

target_lacks : (n : ℕ) → contains (target_part n) "ready=" ≡ false
unfolding occurs
target_lacks n =
    contains-occurs (target_part n) "ready=" b'y' refl
      (occurs-append b'y' "cloudProviderTarget=" (show n) ∙ occurs-show b'y' n refl)

pub trim_show : (n : ℕ) → trim_right (show n) ≡ show n
trim_show n = trim_right-is_digits (show n) (show-is_digits n)

trim_ready : (n : ℕ) → trim_space (ready_part n) ≡ ready_part n
unfolding is_space
trim_ready n = trim_space-append "H" "ealth: ready=" (show n) refl (trim_show n) (show-filled n)

trim_target : (n : ℕ) → trim_space (" cloudProviderTarget=" +++ show n) ≡ target_part n
unfolding is_space
trim_target n =
    ap trim_space (append.cons " " "cloudProviderTarget=" (show n))
    ∙ trim_space-skip " " (target_part n) refl
    ∙ trim_space-append "c" "loudProviderTarget=" (show n) refl (trim_show n) (show-filled n)

comma : (s : String) → "," +++ s ≡ S.◌∷◌ "," s
comma s = append.cons "," "" s ∙ ap (λ t. S.◌∷◌ "," t) (append.nil s)

line_apart :
    (ready target : ℕ)
    → health_line ready target
      ≡ ready_part ready +++ (S.◌∷◌ "," (" cloudProviderTarget=" +++ show target))
line_apart ready target =
    sym (
      append_assoc "Health: ready=" (show ready)
        ("," +++ (" cloudProviderTarget=" +++ show target)))
    ∙ ap (λ s. ready_part ready +++ s) (comma (" cloudProviderTarget=" +++ show target))

-- A line is taken apart at the comma.
split_line :
    (ready target : ℕ)
    → split (health_line ready target) b','
      ≡ ready_part ready ∷ (" cloudProviderTarget=" +++ show target) ∷ []
unfolding occurs
split_line ready target =
    ap (λ s. split s b',') (line_apart ready target)
    ∙ split-append (ready_part ready) (" cloudProviderTarget=" +++ show target) ","
        (occurs-append b',' "Health: ready=" (show ready) ∙ occurs-show b',' ready refl)
    ∙ ap (λ ss. ready_part ready ∷ ss)
        (split_last (" cloudProviderTarget=" +++ show target) b','
          (occurs-append b',' " cloudProviderTarget=" (show target) ∙ occurs-show b',' target refl))

-- One turn of the loop over the parts.
health_turn :
    (part p : String) (parts : List String) (ready target : ℤ)
    → trim_space part ≡ p
    → health_loop (part ∷ parts) (ready, target)
      ≡ health_loop parts (
        (if contains p "ready=" then atoi (extract_value p "ready=") else ready),
        (if contains p "cloudProviderTarget="
            then atoi (extract_value p "cloudProviderTarget=")
            else target),
      )
unfolding health_loop
health_turn part p parts ready target h = rw h refl

-- A health line gives back its two counts.
pub parse_health_line-health_line :
    (ready target : ℕ)
    → ready < 2 ^ 63
    → target < 2 ^ 63
    → parse_health_line (health_line ready target) ≡ (pos ready, pos target)
unfolding parse_health_line health_loop
parse_health_line-health_line ready target hr ht =
    ap (λ ss. health_loop ss (pos 0, pos 0)) (split_line ready target)
    ∙ health_turn (ready_part ready) (ready_part ready)
        ((" cloudProviderTarget=" +++ show target) ∷ []) (pos 0) (pos 0) (trim_ready ready)
    ∙ rw (ready_holds ready, ready_lacks ready, extract_ready ready, atoi-show ready hr)
        (health_turn (" cloudProviderTarget=" +++ show target) (target_part target) [] (pos ready)
            (pos 0) (trim_target target)
          ∙ rw
              (target_holds target, target_lacks target, extract_target target, atoi-show target ht)
              refl)
