-- ===== src/Alv/Blocks.antt =====
-- One bit of the allocation vector of cpmfs.c: what marking a block changes.
use cpmtools.Base.{
  ℕ, zero, suc, ◌+◌, ◌*◌, ◌/◌, ◌%◌, ◌<◌, ◌≡◌, ◌≢◌, refl, ap, false, ◌||◌, List, [], ◌∷◌, arith,
  ◌==◌, length, get_or, modify, replicate, length-modify, get_or-replicate, test_bit, or_bit,
  test_bit-or_bit, test_bit-zero,
}
use native.Mathlib.Decide.{ℕ_discrete}
use cpmtools.Alv.{mark, is_used}

get_or-modify_self :
    (ws : List ℕ) (i : ℕ) (f : ℕ → ℕ)
    → i < length ws
    → get_or (modify ws i f) i 0 ≡ f (get_or ws i 0)
get_or-modify_self [] i f h = absurd (omega arith)
get_or-modify_self (w ∷ ws) zero f h = refl
get_or-modify_self (w ∷ ws) (suc i) f h = get_or-modify_self ws i f (omega arith)

get_or-modify_ne :
    (ws : List ℕ) (i j : ℕ) (f : ℕ → ℕ) → i ≢ j → get_or (modify ws i f) j 0 ≡ get_or ws j 0
get_or-modify_ne [] i j f h = refl
get_or-modify_ne (w ∷ ws) zero zero f h = absurd (h refl)
get_or-modify_ne (w ∷ ws) zero (suc j) f h = refl
get_or-modify_ne (w ∷ ws) (suc i) zero f h = refl
get_or-modify_ne (w ∷ ws) (suc i) (suc j) f h = get_or-modify_ne ws i j f (λ e. h (ap suc e))

pub length-mark : (alv : List ℕ) (b : ℕ) → length (mark alv b) ≡ length alv
unfolding mark
length-mark alv b = length-modify alv (b / 32) (λ w. or_bit w (b % 32))

pub is_used-mark :
    (alv : List ℕ) (b c : ℕ)
    → b < 32 * length alv
    → is_used (mark alv b) c ≡ (b == c || is_used alv c)
unfolding mark is_used
is_used-mark alv b c h = elim (ℕ_discrete (b / 32) (c / 32)) [
  | yes same ↦
      rw
        (
          same,
          get_or-modify_self alv (c / 32) (λ w. or_bit w (b % 32)) (omega arith),
          test_bit-or_bit (get_or alv (c / 32) 0) (b % 32) (c % 32),
        )
        (ground arith)
  | no other ↦
      rw (get_or-modify_ne alv (b / 32) (c / 32) (λ w. or_bit w (b % 32)) other) (ground arith)
]

pub is_used-replicate : (n c : ℕ) → is_used (replicate n 0) c ≡ false
unfolding is_used
is_used-replicate n c = rw (get_or-replicate {A = ℕ} n (c / 32) 0) (test_bit-zero (c % 32))

-- the bits of the first word, and those of the words behind it
pub is_used-head : (w : ℕ) (ws : List ℕ) (b : ℕ) → b < 32 → is_used (w ∷ ws) b ≡ test_bit w b
unfolding is_used
is_used-head w ws b h =
    let q : b / 32 ≡ 0 = omega arith in let r : b % 32 ≡ b = omega arith in rw (q, r)

pub is_used-tail : (w : ℕ) (ws : List ℕ) (b : ℕ) → is_used (w ∷ ws) (b + 32) ≡ is_used ws b
unfolding is_used
is_used-tail w ws b =
    let q : (b + 32) / 32 ≡ suc (b / 32) = omega arith in
    let r : (b + 32) % 32 ≡ b % 32 = omega arith in rw (q, r)

pub mark-head : (w : ℕ) (ws : List ℕ) (b : ℕ) → b < 32 → mark (w ∷ ws) b ≡ or_bit w b ∷ ws
unfolding mark
mark-head w ws b h =
    let q : b / 32 ≡ 0 = omega arith in let r : b % 32 ≡ b = omega arith in rw (q, r)

pub mark-tail : (w : ℕ) (ws : List ℕ) (b : ℕ) → mark (w ∷ ws) (b + 32) ≡ w ∷ mark ws b
unfolding mark
mark-tail w ws b =
    let q : (b + 32) / 32 ≡ suc (b / 32) = omega arith in
    let r : (b + 32) % 32 ≡ b % 32 = omega arith in rw (q, r)
