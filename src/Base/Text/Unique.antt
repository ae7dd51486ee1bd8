-- ===== src/Base/Text/Unique.antt =====
-- A number is told by its decimal digits.
use Prim.Native.Nat.{ℕ, zero, suc, ◌+◌, ◌/◌, ◌%◌, ◌<◌}
use Prim.Native.String.{String, ◌++◌, count}
use mathlib.Core.Logic.{◌⊎◌, inl, inr}
use mathlib.Core.Path.{◌≡◌, refl, ap, sym, ◌∙◌}
use mathlib.Core.Bool.{Bool, true, false}
use native.Mathlib.Omega.{arith}
use text.Mathlib.TextLemmas.{append_inj, length-append}
use elasticell_operator.Base.Tests.{ltb, ◌==◌, if◌then◌else◌}
use elasticell_operator.Base.Text.{digit, decimal_fuel, decimal}

abbrev value : String → ℕ
value s =
    if s == "0"
    then 0
    else if s == "1"
    then 1
    else if s == "2"
    then 2
    else if s == "3"
    then 3
    else if s == "4"
    then 4
    else if s == "5"
    then 5
    else if s == "6"
    then 6
    else if s == "7"
    then 7
    else if s == "8"
    then 8
    else 9

below_ten :
    (P : ℕ → Type 0)
    → P 0 × P 1 × P 2 × P 3 × P 4 × P 5 × P 6 × P 7 × P 8 × P 9
    → (d : ℕ) → d < 10
    → P d
below_ten P (a, b, c, d, e, f, g, i, j, k) zero h = a
below_ten P (a, b, c, d, e, f, g, i, j, k) (suc zero) h = b
below_ten P (a, b, c, d, e, f, g, i, j, k) (suc (suc zero)) h = c
below_ten P (a, b, c, d, e, f, g, i, j, k) (suc (suc (suc zero))) h = d
below_ten P (a, b, c, d, e, f, g, i, j, k) (suc (suc (suc (suc zero)))) h = e
below_ten P (a, b, c, d, e, f, g, i, j, k) (suc (suc (suc (suc (suc zero))))) h = f
below_ten P (a, b, c, d, e, f, g, i, j, k) (suc (suc (suc (suc (suc (suc zero)))))) h = g
below_ten P (a, b, c, d, e, f, g, i, j, k) (suc (suc (suc (suc (suc (suc (suc zero))))))) h = i
below_ten P (a, b, c, d, e, f, g, i, j, k) (suc (suc (suc (suc (suc (suc (suc (suc zero)))))))) h =
    j
below_ten P (a, b, c, d, e, f, g, i, j, k) (suc (suc (suc (suc (suc (suc (suc (suc (suc n)))))))))
      h =
    elim n
        as (λ n.
          suc (suc (suc (suc (suc (suc (suc (suc (suc n)))))))) < 10
          → P (suc (suc (suc (suc (suc (suc (suc (suc (suc n)))))))))) [
            | zero ↦ λ l. k
            | suc m ↦ λ l. absurd (omega arith)
          ]
      h

value-digit : (d : ℕ) → d < 10 → value (digit d) ≡ d
value-digit =
    below_ten (λ d. value (digit d) ≡ d)
      (refl, refl, refl, refl, refl, refl, refl, refl, refl, refl)

count-digit : (d : ℕ) → d < 10 → count (digit d) ≡ 1
count-digit =
    below_ten (λ d. count (digit d) ≡ 1)
      (refl, refl, refl, refl, refl, refl, refl, refl, refl, refl)

digit_inj : (d e : ℕ) → d < 10 → e < 10 → digit d ≡ digit e → d ≡ e
digit_inj d e h k same = sym (value-digit d h) ∙ ap value same ∙ value-digit e k

decimal_small : (f n : ℕ) → ltb n 10 ≡ true → decimal_fuel (suc f) n ≡ digit n
unfolding decimal_fuel
decimal_small f n h = ground arith

decimal_large :
    (f n : ℕ)
    → ltb n 10 ≡ false
    → decimal_fuel (suc f) n ≡ decimal_fuel f (n / 10) ++ digit (n % 10)
unfolding decimal_fuel
decimal_large f n h = ground arith

count-small : (f n : ℕ) → ltb n 10 ≡ true → count (decimal_fuel (suc f) n) ≡ 1
count-small f n h = rw (decimal_small f n h) (count-digit n (ground arith))

count-large :
    (f n : ℕ)
    → ltb n 10 ≡ false
    → count (decimal_fuel (suc f) n) ≡ count (decimal_fuel f (n / 10)) + 1
count-large f n h = rw (decimal_large f n h) (
    length-append (decimal_fuel f (n / 10)) (digit (n % 10))
    ∙ ap (λ c. count (decimal_fuel f (n / 10)) + c) (count-digit (n % 10) (omega arith)))

Bool-cases : (b : Bool) → (b ≡ true) ⊎ (b ≡ false)
Bool-cases true = inl refl
Bool-cases false = inr refl

count-decimal_fuel : (f n : ℕ) → n < f → 0 < count (decimal_fuel f n)
count-decimal_fuel zero n h = absurd (omega arith)
count-decimal_fuel (suc f) n h = elim (Bool-cases (ltb n 10)) [
  | inl s ↦ omega (arith, count-small f n s)
  | inr l ↦ omega (arith, count-large f n l)
]

decimal_fuel_inj : (f g n m : ℕ) → n < f → m < g → decimal_fuel f n ≡ decimal_fuel g m → n ≡ m
decimal_fuel_inj zero g n m h k same = absurd (omega arith)
decimal_fuel_inj (suc f) zero n m h k same = absurd (omega arith)
decimal_fuel_inj (suc f) (suc g) n m h k same =
    let counts = ap count same in
    elim (Bool-cases (ltb n 10)) [
      | inl a ↦ elim (Bool-cases (ltb m 10)) [
        | inl b ↦
            digit_inj n m (ground arith) (ground arith)
              (sym (decimal_small f n a) ∙ same ∙ decimal_small g m b)
        | inr b ↦
            let positive = count-decimal_fuel g (m / 10) (ground arith) in
            absurd (omega (arith, counts, count-small f n a, count-large g m b, positive))
      ]
      | inr a ↦
          let smaller : n / 10 < f = ground arith in
          elim (Bool-cases (ltb m 10)) [
            | inl b ↦
                let positive = count-decimal_fuel f (n / 10) smaller in
                absurd (omega (arith, counts, count-small g m b, count-large f n a, positive))
            | inr b ↦
                let less : m / 10 < g = ground arith in
                let (tens, units) =
                  append_inj (sym (decimal_large f n a) ∙ same ∙ decimal_large g m b)
                    (omega (arith, counts, count-large f n a, count-large g m b)) in
                let t = decimal_fuel_inj f g (n / 10) (m / 10) smaller less tens in
                let u = digit_inj (n % 10) (m % 10) (omega arith) (omega arith) units in
                omega (arith, t, u)
          ]
    ]

pub decimal_inj : (n m : ℕ) → decimal n ≡ decimal m → n ≡ m
unfolding decimal
decimal_inj n m same = decimal_fuel_inj (suc n) (suc m) n m (omega arith) (omega arith) same
