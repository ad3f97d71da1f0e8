-- ===== src/Alv/Alloc.antt =====
-- What `allocBlock` of cpmfs.c returns, and what it does to the allocation vector.
use cpmtools.Base.{
  ℕ, zero, suc, ◌+◌, ◌*◌, ◌/◌, ◌%◌, ◌≤◌, ◌<◌, ◌≡◌, ◌≢◌, refl, sym, ap, ◌∙◌, inl, inr, ◌-◌, true,
  false, List, [], ◌∷◌, arith, none, some, Option-cases, length, test_bit, or_bit,
}
use native.Mathlib.Decide.{ℕ_discrete, dec_lt}
use cpmtools.Super.{Drive, Boo, ok, err, device_full, user_limit}
use cpmtools.Alv.{mark, is_used, free_bit, alloc_from, alloc_block, alv_init}
use cpmtools.Alv.Init.{belongs, is_used-alv_init, size-alv_init}
use cpmtools.Alv.Blocks.{is_used-head, is_used-tail, mark-head, mark-tail}

-- The first clear bit of a word.
record IsFirstClear (n j w k : ℕ) : Type 0 where
  at : ℕ
  found : k ≡ j + at
  within : at < n
  clear : test_bit w at ≡ false
  below : (i : ℕ) → i < at → test_bit w i ≡ true

all_set_below :
    (w m : ℕ)
    → w % 2 ≢ 0
    → ((i : ℕ) → i < m → test_bit (w / 2) i ≡ true)
    → (i : ℕ) → i < suc m
    → test_bit w i ≡ true
unfolding test_bit
all_set_below w m odd set zero p = ground arith
all_set_below w m odd set (suc i) p = set i (omega arith)

free_bit-some : (n j w k : ℕ) → free_bit n j w ≡ some k → IsFirstClear n j w k
unfolding free_bit test_bit
free_bit-some zero j w k h = cc
free_bit-some (suc n) j w k h = elim (ℕ_discrete (w % 2) 0) [
  | yes e ↦ record {
    at = 0;
    found = ground arith;
    within = omega arith;
    clear = ground arith;
    below = λ i p. absurd (omega arith);
  }
  | no e ↦
      let r : IsFirstClear n (suc j) (w / 2) k = free_bit-some n (suc j) (w / 2) k (ground arith) in
      record {
        at = suc r.at;
        found = omega (arith, r.found);
        within = omega (arith, r.within);
        clear = r.clear;
        below = all_set_below w r.at e r.below;
      }
]

free_bit-none : (n j w i : ℕ) → free_bit n j w ≡ none → i < n → test_bit w i ≡ true
unfolding free_bit test_bit
free_bit-none zero j w i h p = absurd (omega arith)
free_bit-none (suc n) j w zero h p = ground arith
free_bit-none (suc n) j w (suc i) h p = ground (arith, free_bit-none n (suc j) (w / 2) i)

-- What a successful search of the words from index `i` on gives.
record IsAlloc (size i : ℕ) (ws : List ℕ) (b : ℕ) (ws' : List ℕ) : Type 0 where
  at : ℕ
  found : b ≡ i * 32 + at
  within : at < 32 * length ws
  in_size : b < size
  free : is_used ws at ≡ false
  below : (c : ℕ) → c < at → is_used ws c ≡ true
  marked : ws' ≡ mark ws at

-- A search that goes on after a full word.
IsAlloc-after :
    (size i w : ℕ) (ws : List ℕ) (b : ℕ) (ws' : List ℕ)
    → free_bit 32 0 w ≡ none
    → IsAlloc size (suc i) ws b ws'
    → IsAlloc size i (w ∷ ws) b (w ∷ ws')
IsAlloc-after size i w ws b ws' full r = record {
  at = r.at + 32;
  found = omega (arith, r.found);
  within = omega (arith, r.within);
  in_size = r.in_size;
  free = is_used-tail w ws r.at ∙ r.free;
  below = λ c p. elim (dec_lt c 32) [
    | yes low ↦ is_used-head w ws c low ∙ free_bit-none 32 0 w c full low
    | no high ↦
        let e : c ≡ c - 32 + 32 = omega arith in
        rw e (is_used-tail w ws (c - 32) ∙ r.below (c - 32) (omega arith))
  ];
  marked = ap (◌∷◌ w) r.marked ∙ sym (mark-tail w ws r.at);
}

-- A search that ends in its first word.
IsAlloc-here :
    (size i w j : ℕ) (ws : List ℕ)
    → free_bit 32 0 w ≡ some j
    → i * 32 + j < size
    → IsAlloc size i (w ∷ ws) (i * 32 + j) (or_bit w j ∷ ws)
IsAlloc-here size i w j ws e small =
    let r = free_bit-some 32 0 w j e in
    let same : j ≡ r.at = omega (arith, r.found) in
    let low : j < 32 = omega (arith, r.within) in
    record {
      at = j;
      found = refl;
      within = omega arith;
      in_size = small;
      free = is_used-head w ws j low ∙ rw same r.clear;
      below = λ c p. is_used-head w ws c (omega arith) ∙ r.below c (omega arith);
      marked = sym (mark-head w ws j low);
    }

alloc_from-some :
    (size i : ℕ) (ws : List ℕ) {b : ℕ} {ws' : List ℕ}
    → alloc_from size i ws ≡ some (b, ws')
    → IsAlloc size i ws b ws'
unfolding alloc_from
alloc_from-some size i [] h = cc
alloc_from-some size i (w ∷ ws) {b} {ws'} h = elim (Option-cases (free_bit 32 0 w)) [
  | inl full ↦ elim (Option-cases (alloc_from size (suc i) ws)) [
    | inl nothing ↦ absurd (ground arith)
    | inr ((c, vs), e) ↦
        let same_b : b ≡ c = ground arith in
        let same_ws : ws' ≡ w ∷ vs = ground arith in
        rw (same_b, same_ws)
          (IsAlloc-after size i w ws c vs full (alloc_from-some size (suc i) ws e))
  ]
  | inr (j, e) ↦
      let small : i * 32 + j < size = ground arith in
      let same_b : b ≡ i * 32 + j = ground arith in
      let same_ws : ws' ≡ or_bit w j ∷ ws = ground arith in
      rw (same_b, same_ws) (IsAlloc-here size i w j ws e small)
]

alloc_from-none :
    (size i : ℕ) (ws : List ℕ) (c : ℕ)
    → alloc_from size i ws ≡ none
    → c < 32 * length ws
    → i * 32 + c < size
    → is_used ws c ≡ true
unfolding alloc_from
alloc_from-none size i [] c h p q = absurd (omega arith)
alloc_from-none size i (w ∷ ws) c h p q = elim (Option-cases (free_bit 32 0 w)) [
  | inl full ↦ elim (dec_lt c 32) [
    | yes low ↦ is_used-head w ws c low ∙ free_bit-none 32 0 w c full low
    | no high ↦
        let e : c ≡ c - 32 + 32 = omega arith in
        let nothing : alloc_from size (suc i) ws ≡ none = ground arith in
        rw e (
          is_used-tail w ws (c - 32)
          ∙ alloc_from-none size (suc i) ws (c - 32) nothing (omega arith) (omega arith))
  ]
  | inr (j, e) ↦
      let r = free_bit-some 32 0 w j e in
      let big : size ≤ i * 32 + j = ground arith in
      is_used-head w ws c (omega (arith, r.found, r.within)) ∙ r.below c (omega (arith, r.found))
]

-- A block that `allocBlock` returns lies on the disk, was free, and is the lowest free block; the
-- vector has its bit set in addition, and nothing else of the drive changes.
pub alloc_block-lowest :
    (d : Drive) {b : ℕ} {d' : Drive}
    → alloc_block d ≡ (ok b, d')
    → (b < d.size)
      × (is_used d.alv b ≡ false)
      × ((c : ℕ) → c < b → is_used d.alv c ≡ true)
      × (d' ≡ record d { alv = mark d.alv b })
unfolding alloc_block
alloc_block-lowest d {b} {d'} h = elim (Option-cases (alloc_from d.size 0 d.alv)) [
  | inl nothing ↦ absurd (ground arith)
  | inr ((c, ws), e) ↦
      let r = alloc_from-some d.size 0 d.alv e in
      let same : b ≡ r.at = ground (arith, r.found) in
      let after : d' ≡ record d { alv = mark d.alv r.at } = ground (arith, r.marked) in
      rw (same, after) (omega (arith, r.found, r.in_size), r.free, r.below, refl)
]

-- `allocBlock` fails only with "device full", when every block of the disk is in use, and then
-- changes nothing.
pub alloc_block-full :
    (d : Drive) {why : Boo} {d' : Drive}
    → d.size ≤ 32 * length d.alv
    → alloc_block d ≡ (err why, d')
    → (why ≡ device_full) × (d' ≡ d) × ((c : ℕ) → c < d.size → is_used d.alv c ≡ true)
unfolding alloc_block
alloc_block-full d {why} {d'} cover h = elim (Option-cases (alloc_from d.size 0 d.alv)) [
  | inl nothing ↦ (
    ground arith,
    ground arith,
    λ c p. alloc_from-none d.size 0 d.alv c nothing (omega arith) (omega arith),
  )
  | inr ((c, ws), e) ↦ absurd (ground arith)
]

-- Allocation never hands out a live block: what `allocBlock` returns on a vector that `alvInit`
-- has rebuilt lies behind the directory, on the disk, and in no entry of a user number.
pub alloc_block-alv_init :
    (d : Drive) {b : ℕ} {d' : Drive}
    → d.size ≤ 32 * length d.alv
    → d.dirblks ≤ 32 * length d.alv
    → alloc_block (alv_init d) ≡ (ok b, d')
    → (d.dirblks ≤ b) × (b < d.size) × (belongs (user_limit d) d.size d.dir b ≡ false)
alloc_block-alv_init d {b} covers directory h =
    let r = alloc_block-lowest (alv_init d) h in
    let bit = is_used-alv_init d b covers directory in
    let on_disk : b < d.size = rw (size-alv_init d) at r.0 in
    (ground (arith, r.1, bit), on_disk, ground (arith, r.1, bit))
