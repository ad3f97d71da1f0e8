-- ===== src/Skew/Table.antt =====
-- The skew table that `cpmReadSuper` of cpmfs.c computes maps the sectors of a track one to one.
use cpmtools.Base.{
  ◌≢◌, ℕ, zero, suc, ◌+◌, ◌%◌, ◌<◌, ◌≡◌, refl, ap, ◌∙◌, true, false, ◌||◌, List, [], ◌∷◌, ◌++◌,
  arith, ◌==◌, length, get_or, All,
}
use native.Mathlib.Nat.{mod-lt}
use cpmtools.Skew.{contains, free_slot, skew_from, skew_table}
use cpmtools.Skew.Pigeonhole.{free_slot-lt, free_slot-free}

-- No sector stands twice in the table.
abbrev Distinct : List ℕ → Type 0
Distinct [] = Unit {0}
Distinct (s ∷ tab) = (contains tab s ≡ false) × Distinct tab

contains-append : (xs : List ℕ) (s j : ℕ) → contains (xs ++ s ∷ []) j ≡ (contains xs j || s == j)
contains-append [] s j = ground arith
contains-append (x ∷ xs) s j = ground (arith, contains-append xs s j)

Distinct-append :
    (xs : List ℕ) (s : ℕ) → Distinct xs → contains xs s ≡ false → Distinct (xs ++ s ∷ [])
Distinct-append [] s d h = (refl, tt)
Distinct-append (x ∷ xs) s d h =
    (contains-append xs s x ∙ ground (arith, d.0), Distinct-append xs s d.1 (ground arith))

length-concat : (xs : List ℕ) (s : ℕ) → length (xs ++ s ∷ []) ≡ suc (length xs)
length-concat [] s = refl
length-concat (x ∷ xs) s = ap suc (length-concat xs s)

All-concat :
    (n : ℕ) (xs : List ℕ) (s : ℕ) → All (λ x. x < n) xs → s < n → All (λ x. x < n) (xs ++ s ∷ [])
All-concat n [] s a h = (h, tt)
All-concat n (x ∷ xs) s a h = (a.0, All-concat n xs s a.1 h)

-- What the loop keeps: the sectors are on the track, and distinct.
record IsTable (n : ℕ) (tab : List ℕ) : Type 0 where
  on_track : All (λ x. x < n) tab
  distinct : Distinct tab

skew_from-IsTable :
    (rounds n skew : ℕ) (tab : List ℕ) (j : ℕ)
    → length tab + rounds ≡ n
    → j < n
    → IsTable n tab
    → IsTable n (skew_from rounds n skew tab j) × (length (skew_from rounds n skew tab j) ≡ n)
unfolding skew_from
skew_from-IsTable zero n skew tab j e h t = (t, omega arith)
skew_from-IsTable (suc rounds) n skew tab j e h t =
    let s = free_slot n n tab j in
    let low = free_slot-lt n tab n j h in
    let free = free_slot-free n tab j h (omega arith) in
    skew_from-IsTable rounds n skew (tab ++ s ∷ []) ((s + skew) % n)
      (omega (arith, length-concat tab s)) (mod-lt (s + skew) (omega arith))
      (record {
        on_track = All-concat n tab s t.on_track low;
        distinct = Distinct-append tab s t.distinct free;
      })

contains-get_or : (xs : List ℕ) (i : ℕ) → i < length xs → contains xs (get_or xs i 0) ≡ true
contains-get_or [] i h = absurd (omega arith)
contains-get_or (x ∷ xs) zero h = ground arith
contains-get_or (x ∷ xs) (suc i) h = ground (arith, contains-get_or xs i (omega arith))

get_or-injective :
    (xs : List ℕ) (i j : ℕ)
    → Distinct xs
    → i < length xs
    → j < length xs
    → get_or xs i 0 ≡ get_or xs j 0
    → i ≡ j
get_or-injective [] i j d p q e = absurd (omega arith)
get_or-injective (x ∷ xs) zero zero d p q e = refl
get_or-injective (x ∷ xs) zero (suc j) d p q e =
    cc (contains-get_or xs j (omega arith), d.0, ap (contains xs) e)
get_or-injective (x ∷ xs) (suc i) zero d p q e =
    cc (contains-get_or xs i (omega arith), d.0, ap (contains xs) e)
get_or-injective (x ∷ xs) (suc i) (suc j) d p q e =
    ap suc (get_or-injective xs i j d.1 (omega arith) (omega arith) e)

All-get_or : (n : ℕ) (xs : List ℕ) (i : ℕ) → All (λ x. x < n) xs → i < length xs → get_or xs i 0 < n
All-get_or n [] i a h = absurd (omega arith)
All-get_or n (x ∷ xs) zero a h = a.0
All-get_or n (x ∷ xs) (suc i) a h = All-get_or n xs i a.1 (omega arith)

table :
    (sectrk skew : ℕ)
    → 0 < sectrk
    → IsTable sectrk (skew_table sectrk skew) × (length (skew_table sectrk skew) ≡ sectrk)
unfolding skew_table
table sectrk skew h =
    skew_from-IsTable sectrk sectrk skew [] 0 (omega arith) h
      (record { on_track = tt; distinct = tt })

-- The skew table has an entry for each sector of a track, each a sector of the track, whatever the
-- skew factor is.
pub skew_table_bounds :
    (sectrk skew i : ℕ)
    → i < sectrk
    → (length (skew_table sectrk skew) ≡ sectrk) × (get_or (skew_table sectrk skew) i 0 < sectrk)
skew_table_bounds sectrk skew i h =
    let (t, len) = table sectrk skew (omega arith) in
    (len, All-get_or sectrk (skew_table sectrk skew) i t.on_track (omega (arith, len)))

pub skew_table_injective :
    (sectrk skew i j : ℕ)
    → i < sectrk
    → j < sectrk
    → get_or (skew_table sectrk skew) i 0 ≡ get_or (skew_table sectrk skew) j 0
    → i ≡ j
skew_table_injective sectrk skew i j p q e =
    let (t, len) = table sectrk skew (omega arith) in
    get_or-injective (skew_table sectrk skew) i j t.distinct (omega (arith, len))
      (omega (arith, len)) e

-- The skew table sends two sectors of a track to different ones, whatever the skew factor is.
pub skew_table_apart :
    (sectrk skew i j : ℕ)
    → i < sectrk
    → j < sectrk
    → i ≢ j
    → get_or (skew_table sectrk skew) i 0 ≢ get_or (skew_table sectrk skew) j 0
skew_table_apart sectrk skew i j p q d e = d (skew_table_injective sectrk skew i j p q e)
