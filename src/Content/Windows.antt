-- ===== src/Content/Windows.antt =====
-- The positions that one block of a file and one entry of it cover, as `cpmRead` and `cpmWrite` of cpmfs.c
-- compute them.
use cpmtools.Base.{ℕ, suc, ◌+◌, ◌-◌, ◌*◌, ◌/◌, ◌%◌, ◌≤◌, ◌<◌, ◌≡◌, ap, ◌∙◌, arith}
use native.Mathlib.Nat.{
  div-add-mod', mod-lt, mul-le-mul_right, lt_of_mul-lt-mul_right, div-mul-le_self, lt-div-mul-add,
}
use cpmtools.Block.Address.{div-mod_unique}

pub div_unique : (p n q : ℕ) → q * n ≤ p → p < q * n + n → (p / n ≡ q) × (p % n ≡ p - q * n)
div_unique p n q h k = div-mod_unique p n q (p - q * n) (omega (arith, h, k)) (omega (arith, h))

-- A block lies in one window of `c` bytes, if `c` is a number of blocks.
pub block-window :
    (c b k pos : ℕ)
    → 0 < b
    → 0 < c
    → c ≡ k * b
    → (pos / c * c ≤ pos / b * b) × (pos / b * b + b ≤ pos / c * c + c) × (pos / c * k ≤ pos / b)
block-window c b k pos h h' e =
    let x = pos / c in
    let n = pos / b in
    let same : x * c ≡ x * k * b = ap (λ m. x * m) e ∙ omega arith in
    let low = div-mul-le_self pos c in
    let high = lt-div-mul-add {a = pos} {b = c} h' in
    let low' = div-mul-le_self pos b in
    let high' = lt-div-mul-add {a = pos} {b = b} h in
    let first : x * k < suc n = lt_of_mul-lt-mul_right b (omega (arith, low, high', same)) in
    let last : n < x * k + k = lt_of_mul-lt-mul_right b (omega (arith, low', high, same, e)) in
    let first' : x * k * b ≤ n * b = mul-le-mul_right b (omega (arith, first)) in
    let last' : suc n * b ≤ (x * k + k) * b = mul-le-mul_right b (omega (arith, last)) in
    (omega (arith, first', same), omega (arith, last', same, e), omega (arith, first))

-- The pointer of a position depends on its block only.
pub pointer-block :
    (c b k p x n : ℕ)
    → 0 < b
    → c ≡ k * b
    → x * k ≤ n
    → p / c ≡ x
    → p / b ≡ n
    → p % c / b ≡ n - x * k
pointer-block c b k p x n h e below px pn =
    let whole = div-add-mod' p c in
    let part = div-add-mod' p b in
    let same : p / c * c ≡ x * k * b = ap (λ m. m * c) px ∙ ap (λ m. x * m) e ∙ omega arith in
    let up : p / b * b ≡ n * b = ap (λ m. m * b) pn in
    let split : n * b ≡ (x * k + (n - x * k)) * b = ap (λ m. m * b) (omega (arith, below)) in
    (div-mod_unique (p % c) b (n - x * k) (p % b) (mod-lt p h)
      (omega (arith, whole, part, same, up, split))).0
