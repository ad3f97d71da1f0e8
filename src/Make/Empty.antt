-- ===== src/Make/Empty.antt =====
-- The directory of a new disk: what `cpmReadSuper` of cpmfs.c reads of the image file that `mkfs` of
-- mkfs.cpm.c wrote.
use cpmtools.Base.{
  Bool, ℕ, zero, suc, ◌+◌, ◌-◌, ◌*◌, ◌/◌, ◌≤◌, ◌<◌, ◌≡◌, sym, ap, ◌∙◌, false, List, [], ◌∷◌, ◌++◌,
  arith, leb, some, none, ◌==◌, length, take, drop, replicate,
}
use native.Mathlib.Nat.{mul-le-mul_right, lt-div-mul-add}
use cpmtools.Entry.{Entry}
use cpmtools.Super.{Drive, Result, ok, err}
use cpmtools.Dir.{unused}
use cpmtools.Clock.{Tm}
use cpmtools.Block.{per_block, read_block}
use cpmtools.Block.Address.{track_of, sector_of}
use cpmtools.Block.Linear.{read_block-linear}
use cpmtools.Block.Splice.{length-take, filled, filled-all}
use cpmtools.Block.Storage.{read_linear_fills}
use cpmtools.Sync.{dir_blocks, entries_of, read_blocks, read_directory}
use cpmtools.Sync.Bytes.{take-append, drop-append, length-drop}
use cpmtools.Sync.ReadBack.{IsWhole}
use cpmtools.Posix.{image, read_sector}
use cpmtools.Posix.Sectors.{image-Keeps}
use cpmtools.Fsck.Special.{dr3}
use cpmtools.Make.{track_bytes, directory_bytes, in_directory, mkfs}
use cpmtools.Make.Blank.{system_bytes, mkfs-unused}
use cpmtools.Make.Places.{sector-unused}
use cpmtools.Make.Fresh.{
  length-replicate, chunk-replicate, replicate-append, drop-replicate, blank_entries,
  entries_of-replicate, blank_entries-IsConsistent,
}
use cpmtools.Fsck.Consistent.{IsConsistent}

-- The directory's blocks have room for its entries.
blocks_enough : (d : Drive) → 0 < d.blksiz → d.maxdir * 32 ≤ dir_blocks d * d.blksiz
unfolding dir_blocks
blocks_enough d positive =
    let high = lt-div-mul-add {a = d.maxdir * 32 + d.blksiz - 1} {b = d.blksiz} positive in
    omega (arith, high)

module _ (d : Drive) (whole : IsWhole d) (s : List ℕ) where
  -- the sectors of the directory hold nothing but 0xe5
  abbrev HasBlankSectors : Type 0
  HasBlankSectors =
      (b c : ℕ)
      → b < dir_blocks d
      → c < per_block d
      → read_sector d s (track_of d b c) (sector_of d b c) ≡ some (replicate d.sec_length unused)

  read_block-blank :
      (b : ℕ) (old : List ℕ)
      → HasBlankSectors
      → b < dir_blocks d
      → dir_blocks d ≤ d.size
      → length old ≡ d.blksiz
      → read_block (image d) d b old 0 none s ≡ (ok tt, replicate d.blksiz unused)
  read_block-blank b old blank h on_disk len =
      let target = replicate d.blksiz unused in
      let size = length-replicate d.blksiz unused in
      let l = d.sec_length in
      let inside : leb d.size b ≡ false = ground arith in
      let same = len ∙ sym size in
      let fills =
        read_linear_fills (image d) (image-Keeps d) d b (per_block d) 0 s target old
          (omega (arith, size, whole.whole_sectors)) same
          (λ i p q.
            let up = mul-le-mul_right {m = suc i} {n = per_block d} l (omega (arith, q)) in
            blank b i h (omega (arith, q))
            ∙ ap some (
                sym (
                  chunk-replicate (l * i) l d.blksiz unused
                    (omega (arith, up, whole.whole_sectors))))) in
      let start : filled (l * 0) target old ≡ old =
        ap (λ k. filled k target old) {x = l * 0} {y = 0} (omega arith) in
      let end : filled (l * (0 + per_block d)) target old ≡ target =
        ap (λ k. filled k target old) (omega (arith, size, whole.whole_sectors))
        ∙ filled-all target old same in
      rw (read_block-linear (image d) d b old 0 none s whole.sectors_positive, inside)
        (rw (start, end) at fills)

  read_blocks-blank :
      (n i : ℕ) (memory : List ℕ)
      → HasBlankSectors
      → i + n ≤ dir_blocks d
      → dir_blocks d ≤ d.size
      → length memory ≡ n * d.blksiz
      → read_blocks (image d) d n d.blksiz i memory s ≡ ok (replicate (n * d.blksiz) unused)
  unfolding read_blocks
  read_blocks-blank zero i [] blank h on_disk len =
      ap (λ (k : ℕ). ok (replicate k unused)) {x = 0} {y = 0 * d.blksiz} (omega arith)
  read_blocks-blank zero i (x ∷ memory) blank h on_disk len = absurd (omega (arith, len))
  read_blocks-blank (suc n) i memory blank h on_disk len =
      let b = d.blksiz in
      let block = replicate b unused in
      let rest = drop b memory in
      let size = length-replicate b unused in
      let reads =
        read_block-blank i (take b memory) blank (omega arith) on_disk
          (length-take b memory (omega (arith, len))) in
      let next =
        read_blocks-blank n (suc i) rest blank (omega (arith, h)) on_disk
          (omega (arith, length-drop b memory, len)) in
      let after : read_blocks (image d) d n b (suc i) (drop b (block ++ rest)) s
          ≡ ok (replicate (n * b) unused) =
        ap (λ m. read_blocks (image d) d n b (suc i) m s) (drop-append b block rest size) ∙ next in
      let join : List ℕ → Result (List ℕ) → Result (List ℕ) =
        λ all r. elim r [ err why ↦ err why | ok rest' ↦ ok (take b all ++ rest') ] in
      let on : Result (Unit {0}) × List ℕ → Result (List ℕ) = λ r. elim r.0 [
        | err why ↦ err why
        | ok done ↦
            join (r.1 ++ rest) (read_blocks (image d) d n b (suc i) (drop b (r.1 ++ rest)) s)
      ] in
      ap on reads
      ∙ ap (join (block ++ rest)) after
      ∙ ap (λ t. ok (t ++ replicate (n * b) unused)) (take-append b block rest size)
      ∙ ap ok (replicate-append b (n * b) unused)
      ∙ ap (λ (k : ℕ). ok (replicate k unused)) {x = b + n * b} {y = suc n * b} (omega arith)

  read_directory-blank :
      (memory : List ℕ)
      → HasBlankSectors
      → 0 < d.blksiz
      → dir_blocks d ≤ d.size
      → length memory ≡ dir_blocks d * d.blksiz
      → read_directory (image d) d memory s
        ≡ ok (blank_entries d.maxdir, replicate (dir_blocks d * d.blksiz - d.maxdir * 32) unused)
  unfolding read_directory
  read_directory-blank memory blank positive on_disk len =
      let step : d.blksiz / 32 * 32 ≡ d.blksiz = omega (arith, whole.whole_entries) in
      let all = dir_blocks d * d.blksiz in
      let reads =
        ap (λ m. read_blocks (image d) d (dir_blocks d) m 0 memory s) step
        ∙ read_blocks-blank (dir_blocks d) 0 memory blank (omega arith) on_disk len in
      let split : List ℕ → List Entry × List ℕ =
        λ bytes. (entries_of d.maxdir bytes, drop (d.maxdir * 32) bytes) in
      let on : Result (List ℕ) → Result (List Entry × List ℕ) =
        λ r. elim r [ err why ↦ err why | ok bytes ↦ ok (split bytes) ] in
      ap on reads
      ∙ ap (λ es. ok (es, drop (d.maxdir * 32) (replicate all unused)))
          (entries_of-replicate d.maxdir all (blocks_enough d positive))
      ∙ ap (λ bs. ok (blank_entries d.maxdir, bs)) (drop-replicate (d.maxdir * 32) all unused)

-- The image that `mkfs` writes on a disk without a label and without time stamps in the directory is
-- one of which `cpmReadSuper` reads a directory without a file, whatever the file held before: every
-- byte of its entries is 0xe5, and so are those behind them up to the end of the last block; and
-- such a directory is one that `fsck` has nothing to say against. Sectors, tracks and blocks are not
-- empty, blocks are of whole sectors and entries, the skew table is that of `cpmReadSuper`, the disk
-- starts with the file and has room for the directory, whose blocks lie in the tracks that `mkfs`
-- writes, and the system tracks are given whole, as is the memory that the directory is read into.
pub read_directory-mkfs :
    (d : Drive) (label boot_tracks old memory : List ℕ) (stamps : Bool) (now : Tm)
    → IsWhole d
    → d.offset ≡ 0
    → 0 < d.sec_length
    → 0 < d.blksiz
    → dir_blocks d ≤ d.size
    → dir_blocks d * d.blksiz ≤ directory_bytes d
    → track_bytes d * d.boottrk + directory_bytes d ≤ track_bytes d * d.tracks
    → system_bytes d ≤ length boot_tracks
    → length memory ≡ dir_blocks d * d.blksiz
    → d.type == dr3 ≡ false
    → in_directory d stamps ≡ false
    → (read_directory (image d) d memory (mkfs d label boot_tracks stamps now old)
        ≡ ok (blank_entries d.maxdir, replicate (dir_blocks d * d.blksiz - d.maxdir * 32) unused))
      × IsConsistent d (blank_entries d.maxdir)
read_directory-mkfs d label boot_tracks old memory stamps now whole start long positive on_disk
      written room enough len no_label no_stamps =
    let s = mkfs d label boot_tracks stamps now old in
    (
      read_directory-blank d whole s memory
          (λ b c h i. sector-unused d whole b c h i s long start written room (λ j low high.
            mkfs-unused d label boot_tracks old stamps now j no_label no_stamps enough low high))
          positive on_disk len,
      blank_entries-IsConsistent d d.maxdir,
    )
