-- ===== src/Lookup/Extents.antt =====
-- The search of `cpmNamei` of cpmfs.c finds the entries with the highest and the lowest extent number.
use cpmtools.Base.{
  ℕ, zero, suc, ◌+◌, ◌≤◌, ◌<◌, ◌≡◌, inl, inr, refl, Bool, true, false, List, arith, Option, none,
  some, Option-cases, Bool-cases, ltb, length, get_elem?, lt_of_get_elem?, if◌then◌else◌,
}
use mathlib.Core.Path.{subst}
use native.Mathlib.Decide.{dec_lt, ℕ_discrete}
use cpmtools.Entry.{Entry, extent}
use cpmtools.Super.{Drive}
use cpmtools.Dir.{extent_no, is_extent_of, find_from}
use cpmtools.Dir.Find.{find_from-some, find_from-none}
use cpmtools.Lookup.{Extremes, raise, note_extent, extremes_from, file_extents}

extent_no-lt : (e : Entry) → extent_no e < 2049
unfolding extent_no extent
extent_no-lt e = omega arith

-- The entries before index `start` that pass, with a bound on their extent numbers.
abbrev pub AllBefore : (Entry → Bool) → List Entry → ℕ → (ℕ → Type 0) → Type 0
AllBefore p es start bound =
    (j : ℕ) (e : Entry) → j < start → get_elem? es j ≡ some e → p e ≡ true → bound (extent_no e)

-- Index `i` holds an entry that passes, of extent number `n`.
abbrev pub Holds : (Entry → Bool) → List Entry → ℕ → ℕ → Type 0
Holds p es i n = (e : Entry) × (get_elem? es i ≡ some e) × (p e ≡ true) × (extent_no e ≡ n)

-- What the loop knows when it goes on at `start`: no entry passes, or the one with the highest, the
-- lowest, extent number.
abbrev pub High : (Entry → Bool) → List Entry → ℕ → Option (ℕ × ℕ) → Type 0
High p es start none = AllBefore p es start (λ m. ⊥)
High p es start (some (n, i)) = Holds p es i n × AllBefore p es start (λ m. m ≤ n)

abbrev pub Low : (Entry → Bool) → List Entry → ℕ → ℕ → Option ℕ → Type 0
Low p es start n none = (n ≡ 2049) × AllBefore p es start (λ m. ⊥)
Low p es start n (some i) = Holds p es i n × AllBefore p es start (λ m. n ≤ m)

module _ (p : Entry → Bool) (es : List Entry) where
  module _ (start i : ℕ) (e : Entry) (le : start ≤ i) (at : get_elem? es i ≡ some e)
      (y : p e ≡ true)
      (gap : (j : ℕ) (e' : Entry)
        → start ≤ j
        → j < i
        → get_elem? es j ≡ some e'
        → p e' ≡ false) where
    AllBefore-next :
        (bound bound' : ℕ → Type 0)
        → ((m : ℕ) → bound m → bound' m)
        → bound' (extent_no e)
        → AllBefore p es start bound
        → AllBefore p es (suc i) bound'
    AllBefore-next bound bound' weaker here all j e' l at' y' = elim (dec_lt j start) [
      | yes before ↦ weaker (extent_no e') (all j e' before at' y')
      | no after ↦ elim (ℕ_discrete j i) [
        | yes now ↦ let same : e ≡ e' = cc in subst (λ x. bound' (extent_no x)) same here
        | no not_yet ↦ absurd (cc (gap j e' (omega arith) (omega arith) at'))
      ]
    ]

    High-raise : (h : Option (ℕ × ℕ)) → High p es start h → High p es (suc i) (raise e i h)
    unfolding raise
    High-raise none all = (
      (e, at, y, refl),
      AllBefore-next (λ m. ⊥) (λ m. m ≤ extent_no e) (λ m b. absurd b) (omega arith) all,
    )
    High-raise (some (n, k)) (found, all) = elim (Bool-cases (ltb n (extent_no e))) [
      | inl more ↦
          rw (more, raise)
            (
              (e, at, y, refl),
              AllBefore-next (λ m. m ≤ n) (λ m. m ≤ extent_no e) (λ m b. ground arith) (omega arith)
                  all,
            )
      | inr less ↦
          rw (less, raise)
            (found, AllBefore-next (λ m. m ≤ n) (λ m. m ≤ n) (λ m b. b) (ground arith) all)
    ]

    Low-next :
        (n : ℕ) (l : Option ℕ)
        → Low p es start n l
        → Low p es
            (suc i)
            (if ltb (extent_no e) n then extent_no e else n)
            (if ltb (extent_no e) n then some i else l)
    Low-next n none (top, all) =
        let less : ltb (extent_no e) n ≡ true = ground (arith, extent_no-lt e, top) in
        rw less (
          (e, at, y, refl),
          AllBefore-next (λ m. ⊥) (λ m. extent_no e ≤ m) (λ m b. absurd b) (omega arith) all,
        )
    Low-next n (some k) (found, all) = elim (Bool-cases (ltb (extent_no e) n)) [
      | inl less ↦ rw less (
        (e, at, y, refl),
        AllBefore-next (λ m. n ≤ m) (λ m. extent_no e ≤ m) (λ m b. ground arith) (omega arith) all,
      )
      | inr more ↦
          rw more (found, AllBefore-next (λ m. n ≤ m) (λ m. n ≤ m) (λ m b. b) (ground arith) all)
    ]

  -- Every entry that passes lies before `start`.
  abbrev Covered : ℕ → Type 0
  Covered start = (j : ℕ) (e : Entry) → get_elem? es j ≡ some e → p e ≡ true → j < start

  Covered-end : (start : ℕ) → find_from p es start ≡ none → Covered start
  Covered-end start h j e at y = elim (dec_lt j start) [
    | yes before ↦ before
    | no after ↦ absurd (cc (find_from-none p es start h j e (omega arith) at))
  ]

  High-end :
      (start end : ℕ) (h : Option (ℕ × ℕ)) → Covered start → High p es start h → High p es end h
  High-end start end none c all = λ j e l at y. all j e (c j e at y) at y
  High-end start end (some (n, i)) c (found, all) = (found, λ j e l at y. all j e (c j e at y) at y)

  Low-end : (start end n : ℕ) (l : Option ℕ) → Covered start → Low p es start n l → Low p es end n l
  Low-end start end n none c (top, all) = (top, λ j e l at y. all j e (c j e at y) at y)
  Low-end start end n (some i) c (found, all) = (found, λ j e l at y. all j e (c j e at y) at y)

  -- The loop ends with every entry seen, if it has a round for each entry from `start` on and one
  -- more.
  extremes_from_lem :
      (fuel start : ℕ) (x : Extremes)
      → length es < fuel + start
      → High p es start x.highest
      → Low p es start x.lowest_extno x.lowest
      → High p es (length es) (extremes_from fuel p es start x).highest
        × Low p es
            (length es)
            (extremes_from fuel p es start x).lowest_extno
            (extremes_from fuel p es start x).lowest
  unfolding extremes_from note_extent
  extremes_from_lem zero start x h high low =
      let c : Covered start = λ j e at y. omega (arith, lt_of_get_elem? es j at, h) in
      (
        High-end start (length es) x.highest c high,
        Low-end start (length es) x.lowest_extno x.lowest c low,
      )
  extremes_from_lem (suc fuel) start x h high low = elim (Option-cases (find_from p es start)) [
    | inl nothing ↦
        let c = Covered-end start nothing in
        rw (nothing, extremes_from)
          (
            High-end start (length es) x.highest c high,
            Low-end start (length es) x.lowest_extno x.lowest c low,
          )
    | inr (i, found) ↦
        let first = find_from-some p es start found in
        rw (found, first.there, extremes_from)
          (extremes_from_lem fuel (suc i) (note_extent first.entry i x) (omega (arith, first.from))
            (High-raise start i first.entry first.from first.there first.passes first.before
              x.highest high)
            (Low-next start i first.entry first.from first.there first.passes first.before
              x.lowest_extno x.lowest low))
  ]

-- What `cpmNamei` finds is the entry of the file with the lowest and the one with the highest extent
-- number; it finds neither exactly if the directory has no entry of the file.
pub file_extents-extreme :
    (d : Drive) (user : ℕ) (name ext : List ℕ)
    → High
        (is_extent_of d user name ext none)
        d.dir
        (length d.dir)
        (file_extents d user name ext).highest
      × Low
          (is_extent_of d user name ext none)
          d.dir
          (length d.dir)
          (file_extents d user name ext).lowest_extno
          (file_extents d user name ext).lowest
unfolding file_extents
file_extents-extreme d user name ext =
    extremes_from_lem (is_extent_of d user name ext none) d.dir (suc (length d.dir)) 0
      (record { highest = none; lowest_extno = 2049; lowest = none }) (omega arith)
      (λ j e l at y. absurd (omega arith)) (refl, λ j e l at y. absurd (omega arith))
