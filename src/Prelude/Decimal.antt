-- ===== src/Prelude/Decimal.antt =====
-- Python's `str` of a whole number that is not negative, and that no two have the same one.
use llm_sca_tooling.Prelude.{ltb→lt}
use Prim.Native.Nat.{ℕ, zero, suc, ◌+◌, ◌-◌, ◌*◌, ◌/◌, ◌%◌, ◌≤◌, ◌<◌}
use Prim.Native.Char.{Char, code, IsScalar}
use Prim.Native.String.{String, ◌++◌ as append}
use Prim.Native.String.append.{nil as string_nil, cons as string_cons}
use mathlib.Core.Path.{◌≡◌, refl, sym, ap, ◌∙◌}
use mathlib.Core.Logic.{inl, inr}
use native.Mathlib.Omega.{arith}
use llm_sca_tooling.Prelude.Tests.{ltb, ltb→lt, if◌then◌else◌, Bool-cases}

append_nil : (t : String) → append "" t ≡ t
append_nil t i = string_nil t i

append_cons : (c : Char) (s t : String) → append (String.◌∷◌ c s) t ≡ String.◌∷◌ c (append s t)
append_cons c s t i = string_cons c s t i

pub ascii-IsScalar : (n : ℕ) → n < 128 → IsScalar n
ascii-IsScalar n h = ground arith

-- The text of one digit.
unfoldable pub digit : ℕ → String
digit d = String.◌∷◌ (Char.char (b'0' + d % 10) (ascii-IsScalar (b'0' + d % 10) (omega arith))) ""

-- Each round divides by ten, so the number itself is fuel enough.
unfoldable pub digits : (fuel : ℕ) → ℕ → String
unfolding digit
digits zero n = digit n
digits (suc fuel) n =
    let front = digits fuel (n / 10) in if ltb n 10 then digit n else append front (digit (n % 10))

unfoldable pub decimal : ℕ → String
unfolding digits
decimal n = digits n n

-- The number that a text of digits stands for, behind those that are read.
unfoldable read_digits : ℕ → String → ℕ
read_digits n String.[] = n
read_digits n (String.◌∷◌ c s) = read_digits (n * 10 + (code c - 48)) s

read_digits-append :
    (n : ℕ) (s t : String) → read_digits n (append s t) ≡ read_digits (read_digits n s) t
unfolding read_digits
read_digits-append n String.[] t = ap (read_digits n) (append_nil t)
read_digits-append n (String.◌∷◌ c s) t =
    ap (read_digits n) (append_cons c s t) ∙ read_digits-append (n * 10 + (code c - 48)) s t

read_digits-digit : (n d : ℕ) → d < 10 → read_digits n (digit d) ≡ n * 10 + d
unfolding read_digits digit
read_digits-digit n d h = omega arith

read_digits-digits : (fuel n : ℕ) → n ≤ fuel → read_digits 0 (digits fuel n) ≡ n
unfolding digits
read_digits-digits zero n h = omega (arith, read_digits-digit 0 n (omega arith))
read_digits-digits (suc fuel) n h = elim (Bool-cases (ltb n 10)) [
  | inl e ↦ rw e (omega (arith, ltb→lt n 10 e, read_digits-digit 0 n (ltb→lt n 10 e)))
  | inr e ↦
      let smaller : n / 10 ≤ fuel = ground (arith, e) in
      rw e (
        read_digits-append 0 (digits fuel (n / 10)) (digit (n % 10))
        ∙ read_digits-digit (read_digits 0 (digits fuel (n / 10))) (n % 10) (omega arith)
        ∙ omega (arith, read_digits-digits fuel (n / 10) smaller))
]

pub decimal-injective : (i j : ℕ) → decimal i ≡ decimal j → i ≡ j
unfolding decimal
decimal-injective i j e = omega (
  arith,
  ap (read_digits 0) e,
  read_digits-digits i i (omega arith),
  read_digits-digits j j (omega arith),
)

-- `s[:n]`
unfoldable pub text_take : ℕ → String → String
text_take zero s = ""
text_take (suc n) String.[] = ""
text_take (suc n) (String.◌∷◌ c s) = String.◌∷◌ c (text_take n s)

tail : String → String
tail String.[] = ""
tail (String.◌∷◌ c s) = s

-- A text in front does not make two texts equal.
pub append-cancel : (p s t : String) → append p s ≡ append p t → s ≡ t
unfolding tail
append-cancel String.[] s t e = sym (append_nil s) ∙ e ∙ append_nil t
append-cancel (String.◌∷◌ c p) s t e =
    append-cancel p s t (ap tail (sym (append_cons c p s) ∙ e ∙ append_cons c p t))

decimals : (decimal 0 ≡ "0") × (decimal 7 ≡ "7") × (decimal 120 ≡ "120")
unfolding decimal
decimals = (refl, refl, refl)
