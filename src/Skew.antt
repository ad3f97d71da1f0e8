-- ===== src/Skew.antt =====
-- src/cpmfs.c: the sector skew table that `cpmReadSuper` computes where the format gives none.
pub mod Pigeonhole
pub mod Table
use cpmtools.Base.{ℕ, zero, suc, ◌+◌, ◌%◌, Bool, true, false, ◌||◌, List, [], ◌∷◌, ◌++◌, ◌==◌}

-- the loop `for (k = 0; k < i && d->skewtab[k] != j; ++k)`, ended by a match
abbrev pub contains : List ℕ → ℕ → Bool
contains [] j = false
contains (s ∷ tab) j = s == j || contains tab j

-- The loop `while (1)`: the next sector from `j` on, round the track of `n` sectors, that the table
-- does not hold. Fuel `n` is enough, since the table holds fewer than `n` sectors.
pub free_slot : ℕ → ℕ → List ℕ → ℕ → ℕ
free_slot zero n tab j = j
free_slot (suc fuel) n tab j = elim (contains tab j) [
  | true ↦ free_slot fuel n tab ((j + 1) % n)
  | false ↦ j
]

-- The loop over the sectors; `tab` is the part of the table that is filled.
pub skew_from : ℕ → ℕ → ℕ → List ℕ → ℕ → List ℕ
skew_from zero n skew tab j = tab
skew_from (suc rounds) n skew tab j =
    let s = free_slot n n tab j in skew_from rounds n skew (tab ++ s ∷ []) ((s + skew) % n)

-- The table for `sectrk` sectors.
unfoldable pub skew_table : ℕ → ℕ → List ℕ
unfolding skew_from free_slot
skew_table sectrk skew = skew_from sectrk sectrk skew [] 0
