-- ===== src/Stat/Blocks.antt =====
-- `cpmStatFS` of cpmfs.c counts the blocks that the vector has as free and as used, and agrees with
-- `allocBlock`.
use cpmtools.Base.{
  ◌⊎◌, ◌↔◌, ℕ, zero, suc, ◌+◌, ◌-◌, ◌*◌, ◌/◌, ◌%◌, ◌≤◌, ◌<◌, ◌≡◌, refl, sym, ap, ◌∙◌, Bool, not,
  ◌&&◌, List, [], ◌∷◌, arith, ltb, ◌==◌, length, test_bit, Bool-cases, inl, inr, if◌then◌else◌,
}
use cpmtools.Super.{Drive, Result, ok, err, Boo}
use cpmtools.Alv.{is_used, mark, alloc_block}
use cpmtools.Alv.Blocks.{length-mark, is_used-head, is_used-tail, is_used-mark}
use cpmtools.Alv.Alloc.{alloc_block-lowest, alloc_block-full}
use cpmtools.Stat.{ℤ, diff, succ, tally, count_bits, count_words, stat_fs}
use cpmtools.Stat.Count.{count, count_cong, count_add, count_none, count-not, count_less}

succ-diff : (a b : ℕ) → succ (diff a b) ≡ diff (suc a) b
unfolding succ diff
succ-diff a zero = refl
succ-diff zero (suc zero) = refl
succ-diff zero (suc (suc b)) = refl
succ-diff (suc a) (suc b) = succ-diff a b

-- Bit `j` of a word, for a block on the disk, set or not.
abbrev used_bit : ℕ → ℕ → ℕ → ℕ → Bool
used_bit size block temp j = ltb (block + j) size && test_bit temp j

abbrev free_bit_at : ℕ → ℕ → ℕ → ℕ → Bool
free_bit_at size block temp j = ltb (block + j) size && not (test_bit temp j)

same_counts : (k u u' f f' : ℕ) → u ≡ u' → f ≡ f' → ◌≡◌ {A = ℤ × ℕ} (diff u k, f) (diff u' k, f')
same_counts k u u' f f' e h = rw (e, h) refl

tally_lem :
    (size block temp u k f : ℕ)
    → tally size block temp (diff u k, f) ≡ (
      diff ((if used_bit size block temp 0 then 1 else 0) + u) k,
      (if free_bit_at size block temp 0 then 1 else 0) + f,
    )
unfolding tally test_bit
tally_lem size block temp u k f =
    let z : block + 0 ≡ block = omega arith in
    elim (Bool-cases (ltb block size)) [
      | inr out ↦ rw (z, out, tally) (same_counts k u (0 + u) f (0 + f) (omega arith) (omega arith))
      | inl in_range ↦ elim (Bool-cases (temp % 2 == 1)) [
        | inl set ↦
            rw (z, in_range, set, tally, succ-diff u k)
              (same_counts k (suc u) (1 + u) f (0 + f) (omega arith) (omega arith))
        | inr clear ↦
            rw (z, in_range, clear, tally)
              (same_counts k u (0 + u) (suc f) (1 + f) (omega arith) (omega arith))
      ]
    ]

-- The bits of the rest of a word.
used_bit-suc :
    (size block temp j : ℕ)
    → used_bit size (suc block) (temp / 2) j ≡ used_bit size block temp (suc j)
unfolding test_bit
used_bit-suc size block temp j = ap (λ b. ltb b size && test_bit (temp / 2) j) (omega arith)

free_bit_at-suc :
    (size block temp j : ℕ)
    → free_bit_at size (suc block) (temp / 2) j ≡ free_bit_at size block temp (suc j)
unfolding test_bit
free_bit_at-suc size block temp j =
    ap (λ b. ltb b size && not (test_bit (temp / 2) j)) (omega arith)

count_bits_lem :
    (size n block temp u k f : ℕ)
    → count_bits size n block temp (diff u k, f)
      ≡ (diff (count (used_bit size block temp) n + u) k, count (free_bit_at size block temp) n + f)
unfolding count_bits
count_bits_lem size zero block temp u k f =
    same_counts k u (0 + u) f (0 + f) (omega arith) (omega arith)
count_bits_lem size (suc n) block temp u k f =
    let u1 = (if used_bit size block temp 0 then 1 else 0) + u in
    let f1 = (if free_bit_at size block temp 0 then 1 else 0) + f in
    let used =
      count_cong (used_bit size (suc block) (temp / 2)) (λ j. used_bit size block temp (suc j)) n
        (λ j l. used_bit-suc size block temp j) in
    let free =
      count_cong (free_bit_at size (suc block) (temp / 2))
        (λ j. free_bit_at size block temp (suc j)) n (λ j l. free_bit_at-suc size block temp j) in
    ap (count_bits size n (suc block) (temp / 2)) (tally_lem size block temp u k f)
    ∙ count_bits_lem size n (suc block) (temp / 2) u1 k f1
    ∙ same_counts k (count (used_bit size (suc block) (temp / 2)) n + u1)
        (count (used_bit size block temp) (suc n) + u)
        (count (free_bit_at size (suc block) (temp / 2)) n + f1)
        (count (free_bit_at size block temp) (suc n) + f) (omega (arith, used))
        (omega (arith, free))

-- A block of the words from word `i` on that lies on the disk, used or free.
abbrev used_block : ℕ → ℕ → List ℕ → ℕ → Bool
used_block size i ws b = ltb (i * 32 + b) size && is_used ws b

abbrev free_block : ℕ → ℕ → List ℕ → ℕ → Bool
free_block size i ws b = ltb (i * 32 + b) size && not (is_used ws b)

-- The blocks of a word, and of the words behind it.
count-words :
    (size i w : ℕ) (ws : List ℕ) (p : Bool → Bool)
    → count (λ b. ltb (i * 32 + b) size && p (is_used (w ∷ ws) b)) (32 * length (w ∷ ws))
      ≡ count (λ j. ltb (i * 32 + j) size && p (test_bit w j)) 32
        + count (λ b. ltb (suc i * 32 + b) size && p (is_used ws b)) (32 * length ws)
count-words size i w ws p =
    let whole : ℕ → Bool = λ b. ltb (i * 32 + b) size && p (is_used (w ∷ ws) b) in
    let head =
      count_cong whole (λ j. ltb (i * 32 + j) size && p (test_bit w j)) 32
        (λ j l. ap (λ x. ltb (i * 32 + j) size && p x) (is_used-head w ws j l)) in
    let tail =
      count_cong (λ b. whole (32 + b)) (λ b. ltb (suc i * 32 + b) size && p (is_used ws b))
        (32 * length ws)
        (λ b l.
          ap (λ x. ltb x size && p (is_used (w ∷ ws) (32 + b))) {x = i * 32 + (32 + b)}
            {y = suc i * 32 + b} (omega arith)
          ∙ ap (λ x. ltb (suc i * 32 + b) size && p x)
              (ap (is_used (w ∷ ws)) (omega arith) ∙ is_used-tail w ws b)) in
    ap (count whole) {x = 32 * length (w ∷ ws)} {y = 32 + 32 * length ws} (omega arith)
    ∙ count_add whole 32 (32 * length ws)
    ∙ omega (arith, head, tail)

count_words_lem :
    (size i : ℕ) (ws : List ℕ) (u k f : ℕ)
    → count_words size i ws (diff u k, f) ≡ (
      diff (count (used_block size i ws) (32 * length ws) + u) k,
      count (free_block size i ws) (32 * length ws) + f,
    )
unfolding count_words
count_words_lem size i [] u k f = same_counts k u (0 + u) f (0 + f) (omega arith) (omega arith)
count_words_lem size i (w ∷ ws) u k f =
    let u1 = count (used_bit size (i * 32) w) 32 + u in
    let f1 = count (free_bit_at size (i * 32) w) 32 + f in
    ap (count_words size (suc i) ws) (count_bits_lem size 32 (i * 32) w u k f)
    ∙ count_words_lem size (suc i) ws u1 k f1
    ∙ same_counts k (count (used_block size (suc i) ws) (32 * length ws) + u1)
        (count (used_block size i (w ∷ ws)) (32 * length (w ∷ ws)) + u)
        (count (free_block size (suc i) ws) (32 * length ws) + f1)
        (count (free_block size i (w ∷ ws)) (32 * length (w ∷ ws)) + f)
        (omega (arith, count-words size i w ws (λ b. b)))
        (omega (arith, count-words size i w ws not))

-- Blocks behind the end of the disk are not counted.
count-size :
    (size : ℕ) (ws : List ℕ) (p : Bool → Bool)
    → size ≤ 32 * length ws
    → count (λ b. ltb (0 * 32 + b) size && p (is_used ws b)) (32 * length ws)
      ≡ count (λ b. p (is_used ws b)) size
count-size size ws p h =
    let whole : ℕ → Bool = λ b. ltb (0 * 32 + b) size && p (is_used ws b) in
    let rest = 32 * length ws - size in
    let head = count_cong whole (λ b. p (is_used ws b)) size (λ b l. ground arith) in
    let tail = count_none (λ b. whole (size + b)) rest (λ b l. ground arith) in
    ap (count whole) {x = 32 * length ws} {y = size + rest} (omega arith)
    ∙ count_add whole size rest
    ∙ omega (arith, head, tail)

-- The free blocks of a drive.
abbrev pub free_blocks : Drive → ℕ
free_blocks d = count (λ b. not (is_used d.alv b)) d.size

-- `cpmStatFS` reports as free the blocks of the disk whose bit is clear, and as used the others
-- less the blocks of the directory, if the vector has a bit for each block.
pub stat_fs-blocks :
    (d : Drive)
    → d.size ≤ 32 * length d.alv
    → ((stat_fs d).f_bfree ≡ free_blocks d)
      × ((stat_fs d).f_bused ≡ diff (d.size - free_blocks d) d.dirblks)
unfolding stat_fs
stat_fs-blocks d h =
    let counts = count_words_lem d.size 0 d.alv 0 d.dirblks 0 in
    let free = count-size d.size d.alv not h in
    let used = count-size d.size d.alv (λ b. b) h in
    let all = count-not (is_used d.alv) d.size in
    (
      ap (λ c. c.1) counts ∙ omega (arith, free),
      ap (λ c. c.0) counts ∙ ap (λ n. diff n d.dirblks) (omega (arith, used, all)),
    )

-- A block that `allocBlock` hands out is one less in the free blocks that `cpmStatFS` reports, if
-- the vector has a bit for each block.
pub stat_fs-alloc_block :
    (d : Drive) {b : ℕ} {d' : Drive}
    → d.size ≤ 32 * length d.alv
    → alloc_block d ≡ (ok b, d')
    → (stat_fs d).f_bfree ≡ suc (stat_fs d').f_bfree
stat_fs-alloc_block d {b} {d'} h e =
    let (inside, clear, below, same) = alloc_block-lowest d e in
    let after : Drive = record d { alv = mark d.alv b } in
    let less =
      count_less (λ c. not (is_used d.alv c)) (λ c. not (is_used (mark d.alv b) c)) b d.size inside
        (rw clear refl) (ap not (is_used-mark d.alv b b (omega (arith, inside))) ∙ ground arith)
        (λ j differ.
          sym (ap not (is_used-mark d.alv b j (omega (arith, inside))) ∙ ground arith)) in
    (stat_fs-blocks d h).0
    ∙ less
    ∙ ap suc (sym (stat_fs-blocks after (omega (arith, length-mark d.alv b))).0)
    ∙ ap (λ x. suc (stat_fs x).f_bfree) (sym same)

Result-cases : (r : Result ℕ) → ((b : ℕ) × (r ≡ ok b)) ⊎ ((why : Boo) × (r ≡ err why))
Result-cases (ok b) = inl (b, refl)
Result-cases (err why) = inr (why, refl)

-- `allocBlock` hands out a block exactly if `cpmStatFS` reports a free one, if the vector has a bit
-- for each block.
pub alloc_block-stat_fs :
    (d : Drive)
    → d.size ≤ 32 * length d.alv
    → ((b : ℕ) × ((alloc_block d).0 ≡ ok b)) ↔ (0 < (stat_fs d).f_bfree)
alloc_block-stat_fs d h =
    let left = (alloc_block d).1 in
    (
      λ (b, e). omega (arith, stat_fs-alloc_block d h (ap (λ r. (r, left)) e)),
      λ some_free. elim (Result-cases (alloc_block d).0) [
        | inl found ↦ found
        | inr (why, e) ↦
            let full = (alloc_block-full d h (ap (λ r. (r, left)) e)).2 in
            let none_free =
              count_none (λ b. not (is_used d.alv b)) d.size (λ b l. ap not (full b l)) in
            absurd (omega (arith, (stat_fs-blocks d h).0, none_free, some_free))
      ],
    )
