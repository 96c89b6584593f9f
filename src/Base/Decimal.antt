-- ===== src/Base/Decimal.antt =====
-- `%d` of a number that is not negative, and that two numbers never print alike.
use Prim.Native.Nat.{ℕ, zero, suc, ◌+◌, ◌-◌, ◌*◌, ◌/◌, ◌%◌, ◌<◌}
use Prim.Native.Char.{Char, code}
use Prim.Native.String.{String}
use mathlib.Core.Path.{◌≡◌, refl, ap, sym, ◌∙◌}
use mathlib.Core.Logic.{inl, inr}
use native.Mathlib.Omega.{arith}
use chaos_kvs.Base.Tests.{ltb, if◌then◌else◌, Bool-cases}

abbrev digit : ℕ → Char
digit zero = "0"
digit (suc zero) = "1"
digit (suc (suc zero)) = "2"
digit (suc (suc (suc zero))) = "3"
digit (suc (suc (suc (suc zero)))) = "4"
digit (suc (suc (suc (suc (suc zero))))) = "5"
digit (suc (suc (suc (suc (suc (suc zero)))))) = "6"
digit (suc (suc (suc (suc (suc (suc (suc zero))))))) = "7"
digit (suc (suc (suc (suc (suc (suc (suc (suc zero)))))))) = "8"
digit _ = "9"

code-digit : (d : ℕ) → d < 10 → code (digit d) ≡ d + 48
code-digit zero h = refl
code-digit (suc zero) h = refl
code-digit (suc (suc zero)) h = refl
code-digit (suc (suc (suc zero))) h = refl
code-digit (suc (suc (suc (suc zero)))) h = refl
code-digit (suc (suc (suc (suc (suc zero))))) h = refl
code-digit (suc (suc (suc (suc (suc (suc zero)))))) h = refl
code-digit (suc (suc (suc (suc (suc (suc (suc zero))))))) h = refl
code-digit (suc (suc (suc (suc (suc (suc (suc (suc zero)))))))) h = refl
code-digit (suc (suc (suc (suc (suc (suc (suc (suc (suc zero))))))))) h = refl
code-digit (suc (suc (suc (suc (suc (suc (suc (suc (suc (suc d)))))))))) h = omega arith

-- The digits of `n` before `s`, the last one first.
format : ℕ → ℕ → String → String
format zero n s = s
format (suc f) n s =
    let rest = format f (n / 10) (String.◌∷◌ (digit (n % 10)) s) in
    if ltb n 10 then String.◌∷◌ (digit n) s else rest

unfoldable pub decimal : ℕ → String
unfolding format
decimal n = format (suc n) n ""

-- The number that digits stand for, after those that make up `a`.
parse : ℕ → String → ℕ
parse a String.[] = a
parse a (String.◌∷◌ c s) = parse (a * 10 + (code c - 48)) s

parse-format : (f n : ℕ) (s : String) → n < f → parse 0 (format f n s) ≡ parse n s
unfolding format parse
parse-format zero n s h = elim h [ ]
parse-format (suc f) n s h = elim (Bool-cases (ltb n 10)) [
  | inl small ↦
      let lt : n < 10 = ground arith in rw small (ap (λ k. parse k s) (omega (arith, code-digit n)))
  | inr large ↦ rw large (
      parse-format f (n / 10) (String.◌∷◌ (digit (n % 10)) s) (ground arith)
      ∙ ap (λ k. parse k s) (omega (arith, code-digit (n % 10))))
]

pub decimal_inj : (m n : ℕ) → decimal m ≡ decimal n → m ≡ n
unfolding decimal parse
decimal_inj m n e =
    sym (parse-format (suc m) m "" (omega arith))
    ∙ (ap (parse 0) e ∙ parse-format (suc n) n "" (omega arith))
