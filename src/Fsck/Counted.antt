-- ===== src/Fsck/Counted.antt =====
-- The count of used pointers of fsck.cpm.c, whose loop goes by one pointer or by two: it is the number of
-- blocks in the entry's share of the pointers.
use native.Mathlib.Nat.{mod-lt, div-lt_iff_lt-mul}
use cpmtools.Base.{
  ℕ, zero, suc, ◌+◌, ◌-◌, ◌*◌, ◌/◌, ◌%◌, ◌≤◌, ◌<◌, ◌≡◌, refl, sym, ap, ◌∙◌, Bool, true, false, not,
  ◌||◌, List, [], ◌∷◌, arith, ltb, ◌==◌, take, drop, get_or, if◌then◌else◌, inl, inr, ◌⊎◌,
  Bool-cases,
}
use cpmtools.Entry.{Entry}
use cpmtools.Super.{Drive}
use cpmtools.Alv.{pointer_blocks}
use cpmtools.Fsck.Fields.{wide, count_used, records_min, records_max}

-- how many are not 0
abbrev pub in_use : List ℕ → ℕ
in_use [] = 0
in_use (b ∷ bs) = if b == 0 then in_use bs else suc (in_use bs)

-- The blocks of the entry's last logical extent: the pointers are shared out evenly among the extents.
-- Of two bytes it is a block if the first of them belongs to the extent.
abbrev pub share : Drive → Entry → List ℕ
share d e =
    let first = e.extnol % d.extents * 16 / d.extents in
    let count = (e.extnol % d.extents + 1) * 16 / d.extents - first in
    if ltb 256 d.size
    then take ((count + 1) / 2) (pointer_blocks true (drop first e.pointers))
    else take count (drop first e.pointers)

drop-nil : (i : ℕ) → drop {A = ℕ} i [] ≡ []
drop-nil zero = refl
drop-nil (suc i) = refl

-- What lies at an index, and behind it.
drop-cases :
    (i : ℕ) (ps : List ℕ)
    → ((get_or ps i 0 ≡ 0) × (drop i ps ≡ []) × (drop (suc i) ps ≡ []))
      ⊎ (drop i ps ≡ get_or ps i 0 ∷ drop (suc i) ps)
drop-cases i [] = inl (refl, drop-nil i, refl)
drop-cases zero (p ∷ ps) = inr refl
drop-cases (suc i) (p ∷ ps) = drop-cases i ps

in_use-take_nil : (n : ℕ) → in_use (take n []) ≡ 0
in_use-take_nil zero = refl
in_use-take_nil (suc n) = refl

abbrev narrow : ℕ → ℕ → List ℕ → ℕ
narrow i max ps = in_use (take (max - i) (drop i ps))

narrow-suc :
    (i max : ℕ) (ps : List ℕ)
    → i < max
    → narrow i max ps
      ≡ (if get_or ps i 0 == 0 then narrow (suc i) max ps else suc (narrow (suc i) max ps))
narrow-suc i max ps h =
    let step : max - i ≡ suc (max - suc i) = omega arith in
    elim (drop-cases i ps) [
      | inl (z, here, next) ↦
          let both : ((in_use (take (max - i) (drop i ps)) ≡ 0)
              × (in_use (take (max - suc i) (drop (suc i) ps)) ≡ 0)) =
            (
              ap (λ xs. in_use (take (max - i) xs)) here ∙ in_use-take_nil (max - i),
              ap (λ xs. in_use (take (max - suc i) xs)) next ∙ in_use-take_nil (max - suc i),
            ) in
          ground (arith, z, both)
      | inr here ↦
          ap (λ xs. in_use (take (max - i) xs)) here
          ∙ ap (λ (n : ℕ). in_use (take n (get_or ps i 0 ∷ drop (suc i) ps))) step
    ]

count_used-narrow :
    (rounds i max : ℕ) (ps : List ℕ)
    → max ≤ i + rounds
    → count_used rounds false i max ps ≡ narrow i max ps
unfolding count_used
count_used-narrow zero i max ps h =
    ap (λ (n : ℕ). in_use (take n (drop i ps))) {x = 0} {y = max - i} (omega arith)
count_used-narrow (suc rounds) i max ps h =
    let rest : count_used rounds false (i + 1) max ps ≡ narrow (suc i) max ps =
      ap (λ (n : ℕ). count_used rounds false n max ps) {x = i + 1} {y = suc i} (omega arith)
      ∙ count_used-narrow rounds (suc i) max ps (omega (arith, h)) in
    elim (Bool-cases (ltb i max)) [
      | inl y ↦ ground (arith, y, rest, narrow-suc i max ps (ground (arith, y)))
      | inr n ↦
          (ground (
            arith,
            n,
            ap (λ (k : ℕ). in_use (take k (drop i ps))) {x = 0} {y = max - i} (ground (arith, n)),
          ))
    ]

abbrev paired : ℕ → ℕ → List ℕ → ℕ
paired i max ps = in_use (take ((max - i + 1) / 2) (pointer_blocks true (drop i ps)))

get_or-drop : (i k : ℕ) (ps : List ℕ) → get_or (drop i ps) k 0 ≡ get_or ps (i + k) 0
get_or-drop zero k ps = ap (λ (n : ℕ). get_or ps n 0) {x = k} {y = 0 + k} (omega arith)
get_or-drop (suc i) k [] = refl
get_or-drop (suc i) k (p ∷ ps) =
    get_or-drop i k ps
    ∙ ap (λ (n : ℕ). get_or (p ∷ ps) n 0) {x = suc (i + k)} {y = suc i + k} (omega arith)

drop-drop : (i k : ℕ) (ps : List ℕ) → drop k (drop i ps) ≡ drop (i + k) ps
drop-drop zero k ps = ap (λ (n : ℕ). drop n ps) {x = k} {y = 0 + k} (omega arith)
drop-drop (suc i) k [] = drop-nil k ∙ sym (drop-nil (suc i + k))
drop-drop (suc i) k (p ∷ ps) =
    drop-drop i k ps
    ∙ ap (λ (n : ℕ). drop n (p ∷ ps)) {x = suc (i + k)} {y = suc i + k} (omega arith)

-- One more block of two bytes.
take_pair :
    (n : ℕ) (xs : List ℕ)
    → in_use (take (suc n) (pointer_blocks true xs)) ≡ (
        if not (get_or xs 0 0 == 0) || not (get_or xs 1 0 == 0)
        then suc (in_use (take n (pointer_blocks true (drop 2 xs))))
        else in_use (take n (pointer_blocks true (drop 2 xs))))
unfolding pointer_blocks
take_pair n [] = sym (in_use-take_nil n)
take_pair n (x ∷ []) = ground (arith, in_use-take_nil n)
take_pair n (x ∷ y ∷ xs) = ground arith

paired-suc :
    (i max : ℕ) (ps : List ℕ)
    → i < max
    → paired i max ps ≡ (
        if not (get_or ps i 0 == 0) || not (get_or ps (i + 1) 0 == 0)
        then suc (paired (i + 2) max ps)
        else paired (i + 2) max ps)
paired-suc i max ps h =
    let step : (max - i + 1) / 2 ≡ suc ((max - (i + 2) + 1) / 2) = omega arith in
    let first : get_or (drop i ps) 0 0 ≡ get_or ps i 0 =
      get_or-drop i 0 ps ∙ ap (λ (n : ℕ). get_or ps n 0) {x = i + 0} {y = i} (omega arith) in
    let next = λ (a : ℕ) (b : ℕ) (xs : List ℕ).
      if not (a == 0) || not (b == 0)
      then suc (in_use (take ((max - (i + 2) + 1) / 2) (pointer_blocks true xs)))
      else in_use (take ((max - (i + 2) + 1) / 2) (pointer_blocks true xs)) in
    ap (λ (n : ℕ). in_use (take n (pointer_blocks true (drop i ps)))) step
    ∙ take_pair ((max - (i + 2) + 1) / 2) (drop i ps)
    ∙ ap (λ (a : ℕ). next a (get_or (drop i ps) 1 0) (drop 2 (drop i ps))) first
    ∙ ap (λ (b : ℕ). next (get_or ps i 0) b (drop 2 (drop i ps))) (get_or-drop i 1 ps)
    ∙ ap (next (get_or ps i 0) (get_or ps (i + 1) 0)) (drop-drop i 2 ps)

count_used-paired :
    (rounds i max : ℕ) (ps : List ℕ)
    → max ≤ i + rounds
    → count_used rounds true i max ps ≡ paired i max ps
unfolding count_used
count_used-paired zero i max ps h =
    ap (λ (n : ℕ). in_use (take n (pointer_blocks true (drop i ps)))) {x = 0}
      {y = (max - i + 1) / 2} (omega arith)
count_used-paired (suc rounds) i max ps h =
    let rest = count_used-paired rounds (i + 2) max ps (omega (arith, h)) in
    elim (Bool-cases (ltb i max)) [
      | inl y ↦ ground (arith, y, rest, paired-suc i max ps (ground (arith, y)))
      | inr n ↦
          (ground (
            arith,
            n,
            ap (λ (k : ℕ). in_use (take k (pointer_blocks true (drop i ps)))) {x = 0}
                {y = (max - i + 1) / 2} (ground (arith, n)),
          ))
    ]

-- The share ends with the 16 pointers.
records_max-le : (d : Drive) (e : Entry) → records_max d e ≤ 16
records_max-le d e = bound d.extents
  where
    bound : (x : ℕ) → (e.extnol % x + 1) * 16 / x ≤ 16
    bound zero = omega arith
    bound (suc x) =
        let low = mod-lt e.extnol {m = suc x} (omega arith) in
        let less =
          (div-lt_iff_lt-mul {k = suc x} {x = (e.extnol % suc x + 1) * 16} {y = 17} (omega arith)).1
            (omega (arith, low)) in
        omega (arith, less)

pub count_used-share :
    (d : Drive) (e : Entry)
    → count_used 16 (wide d) (records_min d e) (records_max d e) e.pointers ≡ in_use (share d e)
count_used-share d e =
    let i = records_min d e in
    let max = records_max d e in
    let fits : max ≤ i + 16 = omega (arith, records_max-le d e) in
    let spec = λ (b : Bool). in_use (
      if b
      then take ((max - i + 1) / 2) (pointer_blocks true (drop i e.pointers))
      else take (max - i) (drop i e.pointers)) in
    let code = λ (b : Bool). count_used 16 b i max e.pointers in
    elim (Bool-cases (wide d)) [
      | inl y ↦ ap code y ∙ (count_used-paired 16 i max e.pointers fits) ∙ sym (ap spec y)
      | inr n ↦ ap code n ∙ (count_used-narrow 16 i max e.pointers fits) ∙ sym (ap spec n)
    ]
