-- ===== src/Make/Fresh.antt =====
-- The entries of a directory of nothing but 0xe5, as `mkfs` of mkfs.cpm.c leaves it, of which fsck.cpm.c
-- has nothing to say.
use cpmtools.Base.{
  ℕ, zero, suc, ◌+◌, ◌-◌, ◌*◌, ◌≤◌, ◌≡◌, refl, sym, ap, ◌∙◌, List, [], ◌∷◌, ◌++◌, arith, some, none,
  length, take, drop, replicate, All, get_elem?,
}
use cpmtools.Entry.{Entry}
use cpmtools.Super.{Drive}
use cpmtools.Dir.{unused}
use cpmtools.Layout.{of_bytes}
use cpmtools.Sync.{entries_of}
use cpmtools.Fsck.Connected.{FileAt}
use cpmtools.Fsck.Consistent.{IsConsistent, IsGoodEntry, of_nothing}

pub length-replicate : (n x : ℕ) → length (replicate n x) ≡ n
length-replicate zero x = refl
length-replicate (suc n) x = ap suc (length-replicate n x)

pub chunk-replicate : (k n m x : ℕ) → k + n ≤ m → take n (drop k (replicate m x)) ≡ replicate n x
chunk-replicate zero zero m x h = refl
chunk-replicate zero (suc n) zero x h = absurd (omega arith)
chunk-replicate zero (suc n) (suc m) x h =
    ap (λ xs. x ∷ xs) (chunk-replicate zero n m x (omega arith))
chunk-replicate (suc k) n zero x h = absurd (omega arith)
chunk-replicate (suc k) n (suc m) x h = chunk-replicate k n m x (omega arith)

pub replicate-append : (n m x : ℕ) → replicate n x ++ replicate m x ≡ replicate (n + m) x
replicate-append zero m x = ap (λ (k : ℕ). replicate k x) {x = m} {y = 0 + m} (omega arith)
replicate-append (suc n) m x =
    ap (λ xs. x ∷ xs) (replicate-append n m x)
    ∙ ap (λ (k : ℕ). replicate k x) {x = suc (n + m)} {y = suc n + m} (omega arith)

pub drop-replicate : (n m x : ℕ) → drop n (replicate m x) ≡ replicate (m - n) x
drop-replicate zero m x = ap (λ (k : ℕ). replicate k x) {x = m} {y = m - 0} (omega arith)
drop-replicate (suc n) zero x = ap (λ (k : ℕ). replicate k x) {x = 0} {y = 0 - suc n} (omega arith)
drop-replicate (suc n) (suc m) x =
    drop-replicate n m x
    ∙ ap (λ (k : ℕ). replicate k x) {x = m - n} {y = suc m - suc n} (omega arith)

-- the entry of 32 bytes 0xe5
abbrev pub blank_entry : Entry
blank_entry = of_bytes (replicate 32 unused)

-- several of them
abbrev pub blank_entries : ℕ → List Entry
blank_entries zero = []
blank_entries (suc n) = blank_entry ∷ blank_entries n

pub entries_of-replicate :
    (n k : ℕ) → n * 32 ≤ k → entries_of n (replicate k unused) ≡ blank_entries n
entries_of-replicate zero k h = refl
entries_of-replicate (suc n) k h =
    ap (λ b. of_bytes b ∷ entries_of n (drop 32 (replicate k unused)))
      (chunk-replicate 0 32 k unused (omega arith))
    ∙ ap (λ b. blank_entry ∷ entries_of n b) (drop-replicate 32 k unused)
    ∙ ap (λ es. blank_entry ∷ es) (entries_of-replicate n (k - 32) (omega arith))

module _ (d : Drive) where
  blank_entries-IsGoodEntry : (n : ℕ) → All (IsGoodEntry d) (blank_entries n)
  blank_entries-IsGoodEntry zero = tt
  blank_entries-IsGoodEntry (suc n) = (of_nothing refl, blank_entries-IsGoodEntry n)

  blank_entries-status :
      (n i : ℕ) (e : Entry) → get_elem? (blank_entries n) i ≡ some e → e.status ≡ unused
  blank_entries-status zero i e h = ground arith
  blank_entries-status (suc n) zero e h = ap (λ o. elim o [ none ↦ 0 | some x ↦ x.status ]) (sym h)
  blank_entries-status (suc n) (suc i) e h = blank_entries-status n i e h

  no_file : (n i : ℕ) (e : Entry) → ¬ FileAt d (blank_entries n) i e
  no_file n i e at = omega (arith, blank_entries-status n i e at.0, at.1)

  pub blank_entries-IsConsistent : (n : ℕ) → IsConsistent d (blank_entries n)
  blank_entries-IsConsistent n = record {
    entries = blank_entries-IsGoodEntry n;
    no_shared = λ k k' i i' b e e' at at' p p' used. absurd (no_file n k e at);
    no_duplicate = λ k k' e e' at at' p q r t. absurd (no_file n k e at);
  }
