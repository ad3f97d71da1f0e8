-- ===== src/Skew/Pigeonhole.antt =====
-- A list that holds every number below a bound is not shorter than the bound; so the search of
-- `cpmReadSuper` for a free sector ends.
use cpmtools.Base.{
  ℕ, zero, suc, ◌+◌, ◌-◌, ◌%◌, ◌≤◌, ◌<◌, ◌≡◌, ◌≢◌, ◌⊎◌, inl, inr, ap, ◌∙◌, true, false, List, [],
  ◌∷◌, arith, ◌==◌, if◌then◌else◌, Bool-cases, length,
}
use native.Mathlib.Nat.{mod-add-mod, mod-eq_of_lt, mod-lt, mod-eq-sub-mod}
use native.Mathlib.Decide.{dec_le}
use cpmtools.Skew.{contains, free_slot}

-- The list without its first `x`.
remove : ℕ → List ℕ → List ℕ
remove x [] = []
remove x (y ∷ ys) = if y == x then ys else y ∷ remove x ys

length-remove :
    (x : ℕ) (ys : List ℕ) → contains ys x ≡ true → length ys ≡ suc (length (remove x ys))
unfolding remove
length-remove x [] h = cc
length-remove x (y ∷ ys) h = ground (arith, length-remove x ys)

contains-remove :
    (x z : ℕ) (ys : List ℕ) → z ≢ x → contains ys z ≡ true → contains (remove x ys) z ≡ true
unfolding remove
contains-remove x z [] d h = h
contains-remove x z (y ∷ ys) d h = ground (arith, contains-remove x z ys d)

pub le-length : (n : ℕ) (tab : List ℕ) → ((x : ℕ) → x < n → contains tab x ≡ true) → n ≤ length tab
le-length zero tab h = omega arith
le-length (suc n) tab h =
    let shorter =
      le-length n (remove n tab)
        (λ x p. contains-remove n x tab (omega arith) (h x (omega arith))) in
    omega (arith, shorter, length-remove n tab (h n (omega arith)))

module _ (n : ℕ) (tab : List ℕ) where
  pub free_slot-lt : (fuel j : ℕ) → j < n → free_slot fuel n tab j < n
  unfolding free_slot
  free_slot-lt zero j h = h
  free_slot-lt (suc fuel) j h = elim (Bool-cases (contains tab j)) [
    | inl y ↦ rw (y, free_slot) (free_slot-lt fuel ((j + 1) % n) (mod-lt (j + 1) (omega arith)))
    | inr y ↦ rw (y, free_slot) h
  ]

  -- The search finds a free sector, or the sectors that it has tried are all in use.
  free_slot-or :
      (fuel j : ℕ)
      → j < n
      → (contains tab (free_slot fuel n tab j) ≡ false)
        ⊎ ((i : ℕ) → i < fuel → contains tab ((j + i) % n) ≡ true)
  unfolding free_slot
  free_slot-or zero j h = inr (λ i p. absurd (omega arith))
  free_slot-or (suc fuel) j h = elim (Bool-cases (contains tab j)) [
    | inr free ↦ inl (rw (free, free_slot) free)
    | inl used ↦ elim (free_slot-or fuel ((j + 1) % n) (mod-lt (j + 1) (omega arith))) [
      | inl found ↦ inl (rw (used, free_slot) found)
      | inr all ↦ inr (tried used all)
    ]
  ]
    where
      tried :
          contains tab j ≡ true
          → ((i : ℕ) → i < fuel → contains tab (((j + 1) % n + i) % n) ≡ true)
          → (i : ℕ) → i < suc fuel
          → contains tab ((j + i) % n) ≡ true
      tried used all zero p =
          let e : (j + 0) % n ≡ j = ap (λ k. k % n) (omega arith) ∙ mod-eq_of_lt h in rw e used
      tried used all (suc i) p =
          let e : ((j + 1) % n + i) % n ≡ (j + suc i) % n =
            mod-add-mod (j + 1) n i ∙ ap (λ k. k % n) (omega arith) in
          rw (← e) (all i (omega arith))

  -- With fewer sectors in the table than there are, the search finds a free one.
  pub free_slot-free : (j : ℕ) → j < n → length tab < n → contains tab (free_slot n n tab j) ≡ false
  free_slot-free j h short = elim (free_slot-or n j h) [
    | inl found ↦ found
    | inr all ↦ absurd (omega (arith, le-length n tab (everywhere all)))
  ]
    where
      everywhere :
          ((i : ℕ) → i < n → contains tab ((j + i) % n) ≡ true)
          → (x : ℕ) → x < n
          → contains tab x ≡ true
      everywhere all x p = elim (dec_le j x) [
        | yes low ↦
            let e : (j + (x - j)) % n ≡ x = ap (λ k. k % n) (omega arith) ∙ mod-eq_of_lt p in
            rw (← e) (all (x - j) (omega arith))
        | no high ↦
            let sum : j + (x + n - j) ≡ x + n = omega arith in
            let e : (j + (x + n - j)) % n ≡ x =
              ap (λ k. k % n) sum
              ∙ mod-eq-sub-mod {n = x + n} {m = n} (omega arith)
              ∙ ap (λ k. k % n) (omega arith)
              ∙ mod-eq_of_lt p in
            rw (← e) (all (x + n - j) (omega arith))
      ]
