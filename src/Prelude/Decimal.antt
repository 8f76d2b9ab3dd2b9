-- ===== src/Prelude/Decimal.antt =====
-- `String(n)` of a natural number, as in the template `conf-${n}`.
use Prim.Native.Nat.{ℕ, zero, suc, ◌+◌, ◌-◌, ◌*◌, ◌/◌, ◌%◌, ◌<◌}
use Prim.Native.Char.{code}
use Prim.Native.String.{String, ◌++◌, slice}
use mathlib.Core.Path.{◌≡◌, refl, sym, ap, ◌∙◌}
use mathlib.Core.Logic.{inl, inr}
use native.Mathlib.Omega.{arith}
use text.Mathlib.TextLemmas.{nil-append, cons-append, append_cancel_left}
use dsh_assistant.Prelude.Tests.{ltb, if◌then◌else◌, Bool-cases}

digit : ℕ → String
digit d = slice "0123456789" d (d + 1)

show_fuel : ℕ → ℕ → String
unfolding digit
show_fuel zero n = ""
show_fuel (suc f) n =
    let rest = show_fuel f (n / 10) in if ltb n 10 then digit n else rest ++ digit (n % 10)

-- the fuel `n + 1` is enough: each round divides `n` by ten
unfoldable pub show : ℕ → String
unfolding show_fuel
show n = show_fuel (suc n) n

-- The number that a text of digits stands for, read onto a number that stands before it.
read_onto : ℕ → String → ℕ
read_onto acc String.[] = acc
read_onto acc (String.◌∷◌ c s) = read_onto (acc * 10 + (code c - 48)) s

read_onto-append : (acc : ℕ) (s t : String) → read_onto acc (s ++ t) ≡ read_onto (read_onto acc s) t
unfolding read_onto
read_onto-append acc String.[] t = rw nil-append
read_onto-append acc (String.◌∷◌ c s) t =
    rw cons-append (read_onto-append (acc * 10 + (code c - 48)) s t)

read_onto-digit : (acc d : ℕ) → d < 10 → read_onto acc (digit d) ≡ acc * 10 + d
unfolding read_onto digit
read_onto-digit acc zero h = refl
read_onto-digit acc (suc zero) h = refl
read_onto-digit acc (suc (suc zero)) h = refl
read_onto-digit acc (suc (suc (suc zero))) h = refl
read_onto-digit acc (suc (suc (suc (suc zero)))) h = refl
read_onto-digit acc (suc (suc (suc (suc (suc zero))))) h = refl
read_onto-digit acc (suc (suc (suc (suc (suc (suc zero)))))) h = refl
read_onto-digit acc (suc (suc (suc (suc (suc (suc (suc zero))))))) h = refl
read_onto-digit acc (suc (suc (suc (suc (suc (suc (suc (suc zero)))))))) h = refl
read_onto-digit acc (suc (suc (suc (suc (suc (suc (suc (suc (suc zero))))))))) h = refl
read_onto-digit acc (suc (suc (suc (suc (suc (suc (suc (suc (suc (suc d)))))))))) h =
    absurd (omega arith)

read_onto-show_fuel : (f n : ℕ) → n < f → read_onto 0 (show_fuel f n) ≡ n
unfolding show_fuel
read_onto-show_fuel zero n h = elim h [ ]
read_onto-show_fuel (suc f) n h = elim (Bool-cases (ltb n 10)) [
  | inl small ↦ rw small (omega (arith, read_onto-digit 0 n (ground arith)))
  | inr large ↦
      rw (large, read_onto-append 0 (show_fuel f (n / 10)) (digit (n % 10)))
        (rw (read_onto-show_fuel f (n / 10) (ground arith))
          (omega (arith, read_onto-digit (n / 10) (n % 10) (omega arith))))
]

-- Two numbers that print alike are equal, also behind a common prefix.
pub show_injective : (prefix : String) (m n : ℕ) → prefix ++ show m ≡ prefix ++ show n → m ≡ n
unfolding show
show_injective prefix m n h =
    sym (read_onto-show_fuel (suc m) m (omega arith))
    ∙ ap (read_onto 0) (append_cancel_left prefix (show m) (show n) h)
    ∙ read_onto-show_fuel (suc n) n (omega arith)

show_twelve : show 1207 ≡ "1207"
unfolding show
show_twelve = refl
