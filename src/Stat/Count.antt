-- ===== src/Stat/Count.antt =====
-- Counting the numbers below a bound that pass a test.
use cpmtools.Base.{
  ℕ, zero, suc, ◌+◌, ◌<◌, ◌≡◌, ◌≢◌, refl, ap, ◌∙◌, Bool, true, false, not, arith, if◌then◌else◌,
}

abbrev pub count : (ℕ → Bool) → ℕ → ℕ
count p zero = 0
count p (suc n) = (if p 0 then 1 else 0) + count (λ j. p (suc j)) n

pub count_cong : (p q : ℕ → Bool) (n : ℕ) → ((j : ℕ) → j < n → p j ≡ q j) → count p n ≡ count q n
count_cong p q zero h = refl
count_cong p q (suc n) h =
    let head = h 0 (omega arith) in
    let tail = count_cong (λ j. p (suc j)) (λ j. q (suc j)) n (λ j l. h (suc j) (omega arith)) in
    rw (head, tail) refl

pub count_add : (p : ℕ → Bool) (m n : ℕ) → count p (m + n) ≡ count p m + count (λ j. p (m + j)) n
count_add p zero n =
    ap (count p) (omega arith)
    ∙ count_cong p (λ j. p (0 + j)) n (λ j l. ap p (omega arith))
    ∙ omega arith
count_add p (suc m) n =
    let e : suc m + n ≡ suc (m + n) = omega arith in
    let later =
      count_cong (λ j. p (suc (m + j))) (λ j. p (suc m + j)) n (λ j l. ap p (omega arith)) in
    ap (count p) e ∙ omega (arith, count_add (λ j. p (suc j)) m n, later)

pub count_none : (p : ℕ → Bool) (n : ℕ) → ((j : ℕ) → j < n → p j ≡ false) → count p n ≡ 0
count_none p zero h = refl
count_none p (suc n) h =
    let head = h 0 (omega arith) in
    let tail = count_none (λ j. p (suc j)) n (λ j l. h (suc j) (omega arith)) in
    rw (head, tail) refl

pub count-not : (p : ℕ → Bool) (n : ℕ) → count p n + count (λ j. not (p j)) n ≡ n
count-not p zero = refl
count-not p (suc n) = ground (arith, count-not (λ j. p (suc j)) n)

-- A test that fails at one more number counts one less.
pub count_less :
    (p q : ℕ → Bool) (b n : ℕ)
    → b < n
    → p b ≡ true
    → q b ≡ false
    → ((j : ℕ) → b ≢ j → p j ≡ q j)
    → count p n ≡ suc (count q n)
count_less p q b zero l t f same = absurd (omega arith)
count_less p q zero (suc n) l t f same =
    let tail = count_cong (λ j. p (suc j)) (λ j. q (suc j)) n (λ j k. same (suc j) (omega arith)) in
    rw (t, f, tail) (omega arith)
count_less p q (suc b) (suc n) l t f same =
    let tail =
      count_less (λ j. p (suc j)) (λ j. q (suc j)) b n (omega arith) t f
        (λ j k. same (suc j) (omega arith)) in
    rw (same 0 (omega arith), tail) (omega arith)
