-- ===== src/Controller/Conditions/Decimal.antt =====
-- The decimal digits of a number, read back by the `strconv` package.
use Prim.Native.Char.{Char, code}
use Prim.Native.String as S
use Prim.Native.String.append
use text.Mathlib.TextLemmas.{append_assoc, append-nil}
use kompakt.Prelude.{
  ℕ, zero, suc, ◌+◌, ◌-◌, ◌*◌, ◌/◌, ◌%◌, ◌^◌, ◌<◌, String, ◌==◌, ◌≡◌, refl, sym, ap, ◌∙◌, true,
  false, Bool-cases, inl, inr, ltb, arith,
}
use kompakt.Int.{pos}
use kompakt.Text.{◌+++◌}
use kompakt.Text.Laws.{is_digits, is_digits-append, empty-append}
use kompakt.Strconv.{value, parse_digits, parse_uint64, split_sign, signed, parse_int, atoi}
use kompakt.Controller.Conditions.{digit, decimal, show}

digit-is_digits : (n : ℕ) → is_digits (digit n) ≡ true
unfolding is_digits
digit-is_digits zero = refl
digit-is_digits (suc zero) = refl
digit-is_digits (suc (suc zero)) = refl
digit-is_digits (suc (suc (suc zero))) = refl
digit-is_digits (suc (suc (suc (suc zero)))) = refl
digit-is_digits (suc (suc (suc (suc (suc zero))))) = refl
digit-is_digits (suc (suc (suc (suc (suc (suc zero)))))) = refl
digit-is_digits (suc (suc (suc (suc (suc (suc (suc zero))))))) = refl
digit-is_digits (suc (suc (suc (suc (suc (suc (suc (suc zero)))))))) = refl
digit-is_digits (suc (suc (suc (suc (suc (suc (suc (suc (suc n))))))))) = refl

digit-filled : (n : ℕ) → (digit n == "") ≡ false
digit-filled zero = refl
digit-filled (suc zero) = refl
digit-filled (suc (suc zero)) = refl
digit-filled (suc (suc (suc zero))) = refl
digit-filled (suc (suc (suc (suc zero)))) = refl
digit-filled (suc (suc (suc (suc (suc zero))))) = refl
digit-filled (suc (suc (suc (suc (suc (suc zero)))))) = refl
digit-filled (suc (suc (suc (suc (suc (suc (suc zero))))))) = refl
digit-filled (suc (suc (suc (suc (suc (suc (suc (suc zero)))))))) = refl
digit-filled (suc (suc (suc (suc (suc (suc (suc (suc (suc n))))))))) = refl

-- The same as a character.
abbrev char : ℕ → Char
char zero = "0"
char (suc zero) = "1"
char (suc (suc zero)) = "2"
char (suc (suc (suc zero))) = "3"
char (suc (suc (suc (suc zero)))) = "4"
char (suc (suc (suc (suc (suc zero))))) = "5"
char (suc (suc (suc (suc (suc (suc zero)))))) = "6"
char (suc (suc (suc (suc (suc (suc (suc zero))))))) = "7"
char (suc (suc (suc (suc (suc (suc (suc (suc zero)))))))) = "8"
char _ = "9"

char-digit : (n : ℕ) → digit n ≡ S.◌∷◌ (char n) ""
char-digit zero = refl
char-digit (suc zero) = refl
char-digit (suc (suc zero)) = refl
char-digit (suc (suc (suc zero))) = refl
char-digit (suc (suc (suc (suc zero)))) = refl
char-digit (suc (suc (suc (suc (suc zero))))) = refl
char-digit (suc (suc (suc (suc (suc (suc zero)))))) = refl
char-digit (suc (suc (suc (suc (suc (suc (suc zero))))))) = refl
char-digit (suc (suc (suc (suc (suc (suc (suc (suc zero)))))))) = refl
char-digit (suc (suc (suc (suc (suc (suc (suc (suc (suc n))))))))) = refl

code-char : (n : ℕ) → n < 10 → code (char n) ≡ b'0' + n
code-char zero h = refl
code-char (suc zero) h = refl
code-char (suc (suc zero)) h = refl
code-char (suc (suc (suc zero))) h = refl
code-char (suc (suc (suc (suc zero)))) h = refl
code-char (suc (suc (suc (suc (suc zero))))) h = refl
code-char (suc (suc (suc (suc (suc (suc zero)))))) h = refl
code-char (suc (suc (suc (suc (suc (suc (suc zero))))))) h = refl
code-char (suc (suc (suc (suc (suc (suc (suc (suc zero)))))))) h = refl
code-char (suc (suc (suc (suc (suc (suc (suc (suc (suc n))))))))) h = omega arith

parse_digits-char :
    (c : Char) (s : String) (acc n : ℕ)
    → code c ≡ b'0' + n
    → n < 10
    → acc * 10 + n < 2 ^ 64
    → parse_digits (S.◌∷◌ c s) acc ≡ parse_digits s (acc * 10 + n)
unfolding parse_digits
parse_digits-char c s acc n e h k =
    let same : acc * 10 + (code c - b'0') ≡ acc * 10 + n = omega arith in
    let rest = ap (parse_digits s) same in ground (arith, rest)

parse_digits-digit :
    (n : ℕ) (s : String) (acc : ℕ)
    → n < 10
    → acc * 10 + n < 2 ^ 64
    → parse_digits (digit n +++ s) acc ≡ parse_digits s (acc * 10 + n)
parse_digits-digit n s acc h k =
    rw (char-digit n, append.cons (char n) "" s, append.nil s)
      (parse_digits-char (char n) s acc n (code-char n h) h k)

-- The digits of a number, with something behind them, are read as the number.
parse_digits-decimal :
    (fuel n : ℕ) (s : String)
    → n < fuel
    → n < 2 ^ 64
    → parse_digits (decimal fuel n +++ s) 0 ≡ parse_digits s n
unfolding decimal
parse_digits-decimal zero n s h k = absurd (omega arith)
parse_digits-decimal (suc fuel) n s h k = elim (Bool-cases (ltb n 10)) [
  | inl e ↦
      let same : 0 * 10 + n ≡ n = omega arith in
      rw e (parse_digits-digit n s 0 (ground arith) (omega arith) ∙ ap (parse_digits s) same)
  | inr e ↦
      let front =
        parse_digits-decimal fuel (n / 10) (digit (n % 10) +++ s) (ground arith) (omega arith) in
      let last = parse_digits-digit (n % 10) s (n / 10) (omega arith) (omega arith) in
      let whole : n / 10 * 10 + n % 10 ≡ n = omega arith in
      rw (e, append_assoc (decimal fuel (n / 10)) (digit (n % 10)) s)
        (front ∙ last ∙ ap (parse_digits s) whole)
]

pub decimal-is_digits : (fuel n : ℕ) → is_digits (decimal fuel n) ≡ true
unfolding decimal is_digits
decimal-is_digits zero n = refl
decimal-is_digits (suc fuel) n = elim (Bool-cases (ltb n 10)) [
  | inl e ↦ rw e (digit-is_digits n)
  | inr e ↦
      rw
        (
          e,
          is_digits-append (decimal fuel (n / 10)) (digit (n % 10)),
          decimal-is_digits fuel (n / 10),
        )
        (digit-is_digits (n % 10))
]

decimal-filled : (fuel n : ℕ) → (decimal (suc fuel) n == "") ≡ false
unfolding decimal
decimal-filled fuel n = elim (Bool-cases (ltb n 10)) [
  | inl e ↦ rw e (digit-filled n)
  | inr e ↦ rw e (empty-append (decimal fuel (n / 10)) (digit (n % 10)) (digit-filled (n % 10)))
]

pub show-is_digits : (n : ℕ) → is_digits (show n) ≡ true
unfolding show
show-is_digits n = decimal-is_digits (suc n) n

pub show-filled : (n : ℕ) → (show n == "") ≡ false
unfolding show
show-filled n = decimal-filled n n

parse_digits-show : (n : ℕ) → n < 2 ^ 64 → parse_digits (show n) 0 ≡ value n
unfolding show parse_digits
parse_digits-show n h =
    ap (λ s. parse_digits s 0) (sym (append-nil (decimal (suc n) n)))
    ∙ parse_digits-decimal (suc n) n "" (omega arith) h

signless : (s : String) → is_digits s ≡ true → split_sign s ≡ (false, s)
unfolding split_sign is_digits
signless S.[] h = refl
signless (S.◌∷◌ c s) h = ground arith

-- `Atoi` reads the digits that `%d` prints of a number below 2^63.
pub atoi-show : (n : ℕ) → n < 2 ^ 63 → atoi (show n) ≡ pos n
unfolding atoi parse_int parse_uint64 signed
atoi-show n h =
    ground (
      arith,
      signless (show n) (show-is_digits n),
      show-filled n,
      parse_digits-show n (omega arith),
    )
