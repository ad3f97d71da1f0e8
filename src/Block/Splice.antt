-- ===== src/Block/Splice.antt =====
-- The buffer that `readBlock` of cpmfs.c fills sector by sector.
use cpmtools.Base.{
  ℕ, zero, suc, ◌+◌, ◌≤◌, ◌≡◌, refl, ap, ◌∙◌, List, [], ◌∷◌, ◌++◌, arith, length, take, drop,
}
use cpmtools.Block.{splice}

pub length-take : (n : ℕ) (xs : List ℕ) → n ≤ length xs → length (take n xs) ≡ n
length-take zero xs h = refl
length-take (suc n) [] h = absurd (omega arith)
length-take (suc n) (x ∷ xs) h = ap suc (length-take n xs (omega arith))

-- The first `k` bytes of one buffer, with the rest of another.
abbrev pub filled : ℕ → List ℕ → List ℕ → List ℕ
filled k target old = take k target ++ drop k old

-- One more sector from the target.
pub splice-filled :
    (k n : ℕ) (target old : List ℕ)
    → k + n ≤ length target
    → length old ≡ length target
    → splice (filled k target old) k (take n (drop k target)) ≡ filled (k + n) target old
splice-filled zero n target old h e =
    let len = length-take n target (omega arith) in
    ap (λ m. take n target ++ drop m old) (omega (arith, len))
    ∙ ap (λ m. filled m target old) (omega arith)
splice-filled (suc k) n [] old h e = absurd (omega arith)
splice-filled (suc k) n (x ∷ target) [] h e = absurd (omega arith)
splice-filled (suc k) n (x ∷ target) (y ∷ old) h e =
    let e1 : suc k + length (take n (drop k target)) ≡ suc (k + length (take n (drop k target))) =
      omega arith in
    let e2 : suc k + n ≡ suc (k + n) = omega arith in
    rw (e1, e2) (ap (λ xs. x ∷ xs) (splice-filled k n target old (omega arith) (omega arith)))

pub filled-all :
    (target old : List ℕ) → length old ≡ length target → filled (length target) target old ≡ target
filled-all [] [] e = refl
filled-all [] (y ∷ old) e = absurd (omega arith)
filled-all (x ∷ target) [] e = absurd (omega arith)
filled-all (x ∷ target) (y ∷ old) e = ap (λ xs. x ∷ xs) (filled-all target old (omega arith))
