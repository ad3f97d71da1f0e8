-- ===== src/Stat.antt =====
-- src/cpmfs.c, `cpmStatFS`: the blocks and directory entries in use. `f_bused` starts below 0, so it
-- is an integer.
pub mod Count
pub mod Blocks
use cpmtools.Base.{
  ℕ, zero, suc, ◌+◌, ◌-◌, ◌*◌, ◌/◌, ◌%◌, Bool, true, false, List, [], ◌∷◌, ◌==◌, ltb, if◌then◌else◌,
}
use cpmtools.Entry.{Entry}
use cpmtools.Super.{Drive}
use cpmtools.Alv.{int_bits}
use cpmtools.Dir.{unused}

-- The integers: a number, or the negative of a successor.
pub data ℤ : Type 0 where
  pos : ℕ → ℤ
  negsuc : ℕ → ℤ

-- `a - b`
unfoldable pub diff : ℕ → ℕ → ℤ
diff a zero = pos a
diff zero (suc b) = negsuc b
diff (suc a) (suc b) = diff a b

-- `++` on an integer
unfoldable pub succ : ℤ → ℤ
succ (pos n) = pos (suc n)
succ (negsuc zero) = pos 0
succ (negsuc (suc n)) = negsuc n

-- `struct cpmStatFS`
pub record StatFs : Type 0 where
  pub f_bsize : ℕ
  pub f_blocks : ℕ
  pub f_bfree : ℕ
  pub f_bused : ℤ
  pub f_bavail : ℕ
  pub f_files : ℕ
  pub f_ffree : ℕ
  pub f_namelen : ℕ

-- `if (1 & temp) ++f_bused; else ++f_bfree;` for a block on the disk
unfoldable pub tally : ℕ → ℕ → ℕ → ℤ × ℕ → ℤ × ℕ
tally size block temp (used, free) =
    if ltb block size
    then (if temp % 2 == 1 then (succ used, free) else (used, suc free))
    else (used, free)

-- the loop over the bits of a word, from `block` for `n` rounds
pub count_bits : ℕ → ℕ → ℕ → ℕ → ℤ × ℕ → ℤ × ℕ
count_bits size zero block temp c = c
count_bits size (suc n) block temp c =
    count_bits size n (suc block) (temp / 2) (tally size block temp c)

-- the loop over the words, from word `i`
pub count_words : ℕ → ℕ → List ℕ → ℤ × ℕ → ℤ × ℕ
count_words size i [] c = c
count_words size i (w ∷ ws) c =
    count_words size (suc i) ws (count_bits size int_bits (i * int_bits) w c)

-- the loop over the directory entries
pub free_entries : List Entry → ℕ
free_entries [] = 0
free_entries (e ∷ es) = if e.status == unused then suc (free_entries es) else free_entries es

-- `cpmStatFS`
unfoldable pub stat_fs : Drive → StatFs
unfolding count_words count_bits tally free_entries diff succ
stat_fs d =
    let c = count_words d.size 0 d.alv (diff 0 d.dirblks, 0) in
    record {
      f_bsize = d.blksiz;
      f_blocks = d.size;
      f_bfree = c.1;
      f_bused = c.0;
      f_bavail = c.1;
      f_files = d.maxdir;
      f_ffree = free_entries d.dir;
      f_namelen = 11;
    }
