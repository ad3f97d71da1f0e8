-- ===== src/Sync/ReadBack.antt =====
-- The directory that `cpmSync` of cpmfs.c writes is the one that `cpmReadSuper` reads.
use cpmtools.Base.{
  ℕ, zero, suc, ◌+◌, ◌*◌, ◌/◌, ◌≤◌, ◌<◌, ◌≡◌, inl, inr, refl, sym, ap, ◌∙◌, true, false, not, List,
  [], ◌∷◌, ◌++◌, arith, leb, none, Option-cases, length, take, drop, All, if◌then◌else◌,
}
use cpmtools.Super.{Drive, Result, ok, err, beyond_end, has_flag, ds_dates}
use cpmtools.Layout.Views.{HasShape}
use cpmtools.Skew.{skew_table}
use cpmtools.Block.{Device, per_block, read_block, write_block}
use cpmtools.Block.Address.{track_of, sector_of}
use cpmtools.Block.Linear.{read_linear, read_block-linear}
use cpmtools.Block.Splice.{length-take}
use cpmtools.Block.Storage.{Keeps, read_block-write_block, write_block-other}
use cpmtools.Sync.{
  dir_blocks, dir_bytes, entries_of, write_blocks, read_blocks, read_directory, sync_directory,
  sync_ds, sync,
}
use cpmtools.Sync.Bytes.{
  length-drop, take-append, drop-append, take-drop, entries_of-dir_bytes, length-dir_bytes,
}

-- A format that the round trip needs: blocks of whole sectors and of whole entries, and the skew table
-- that `cpmReadSuper` computes.
pub record IsWhole (d : Drive) : Type 0 where
  pub sectors_positive : 0 < d.sectrk
  pub skew_eq : d.skewtab ≡ skew_table d.sectrk d.skew
  pub whole_sectors : d.blksiz ≡ d.sec_length * per_block d
  pub entries : ℕ
  pub whole_entries : d.blksiz ≡ entries * 32

module _ {S : Type 0} (dev : Device S) (d : Drive) where
  -- Reading looks at the sectors of the block only.
  read_linear-same :
      (block n c : ℕ) (s s' : S) (buffer : List ℕ)
      → ((i : ℕ)
          → c ≤ i
          → i < c + n
          → dev.read_sector s' (track_of d block i) (sector_of d block i)
            ≡ dev.read_sector s (track_of d block i) (sector_of d block i))
      → read_linear dev d block n c 0 s' buffer ≡ read_linear dev d block n c 0 s buffer
  unfolding read_linear
  read_linear-same block zero c s s' buffer same = refl
  read_linear-same block (suc n) c s s' buffer same =
      let always : leb 0 c ≡ true = ground arith in
      let here = same c (omega arith) (omega arith) in
      elim (Option-cases (dev.read_sector s (track_of d block c) (sector_of d block c))) [
        | inl fails ↦ rw (always, read_linear, here ∙ fails, fails) refl
        | inr (bytes, reads) ↦
            rw (always, read_linear, here ∙ reads, reads)
              (read_linear-same block n (suc c) s s' _
                (λ i p q. same i (omega arith) (omega arith)))
      ]

  -- A round of the loop that writes has written its block.
  write_blocks-suc :
      (n step i : ℕ) (bytes : List ℕ) (s s' : S)
      → write_blocks dev d (suc n) step i bytes s ≡ (ok tt, s')
      → (s1 : S) × (write_block dev d i (take d.blksiz bytes) 0 none s ≡ (ok tt, s1))
        × (write_blocks dev d n step (suc i) (drop step bytes) s1 ≡ (ok tt, s'))
  unfolding write_blocks
  write_blocks-suc n step i bytes s s' e =
      from (write_block dev d i (take d.blksiz bytes) 0 none s) refl
    where
      from :
          (w : Result (Unit {0}) × S)
          → write_block dev d i (take d.blksiz bytes) 0 none s ≡ w
          → (s1 : S) × (write_block dev d i (take d.blksiz bytes) 0 none s ≡ (ok tt, s1))
            × (write_blocks dev d n step (suc i) (drop step bytes) s1 ≡ (ok tt, s'))
      from (ok done, s1) w = (
        s1,
        w,
        ap (λ r. write_blocks dev d n step (suc i) (drop step bytes) r.1) (sym w)
            ∙ rw (w, write_blocks) at e,
      )
      from (err why, s1) w = absurd (ground (arith, ap (λ r. r.0) (rw (w, write_blocks) at e)))

module _ {S : Type 0} (dev : Device S) (keeps : Keeps dev) (d : Drive) (whole : IsWhole d) where
  -- Writing the blocks from `i` on changes no sector of a block before.
  write_blocks_other :
      (n step i : ℕ) (bytes : List ℕ) (s s' : S) (other c : ℕ)
      → other < i
      → c < per_block d
      → write_blocks dev d n step i bytes s ≡ (ok tt, s')
      → dev.read_sector s' (track_of d other c) (sector_of d other c)
        ≡ dev.read_sector s (track_of d other c) (sector_of d other c)
  write_blocks_other zero step i bytes s s' other c h k e =
      unfold write_blocks in
      ap (λ p. dev.read_sector p.1 (track_of d other c) (sector_of d other c)) (sym e)
  write_blocks_other (suc n) step i bytes s s' other c h k e =
      let (s1, writes, rest) = write_blocks-suc dev d n step i bytes s s' e in
      write_blocks_other n step (suc i) (drop step bytes) s1 s' other c (omega arith) k rest
      ∙ write_block-other dev keeps d i other c (take d.blksiz bytes) s s1 whole.sectors_positive
          whole.skew_eq (λ q. omega (arith, q, h)) k writes

  -- A block that is written is read, whatever is written behind it.
  read_block-written :
      (n step i : ℕ) (bytes block old : List ℕ) (s s1 s' : S)
      → i < d.size
      → length block ≡ d.blksiz
      → length old ≡ d.blksiz
      → write_block dev d i block 0 none s ≡ (ok tt, s1)
      → write_blocks dev d n step (suc i) bytes s1 ≡ (ok tt, s')
      → read_block dev d i old 0 none s' ≡ (ok tt, block)
  read_block-written n step i bytes block old s s1 s' inside len len' writes rest =
      let on_disk : leb d.size i ≡ false = ground (arith, inside) in
      let now =
        read_block-write_block dev keeps d i block old s s1 whole.sectors_positive whole.skew_eq
          inside (len ∙ whole.whole_sectors) (len' ∙ sym len) writes in
      let same = read_linear-same dev d i (per_block d) 0 s1 s' old (λ c p q.
        write_blocks_other n step (suc i) bytes s1 s' i c (omega arith) (omega (arith, q)) rest) in
      read_block-linear dev d i old 0 none s' whole.sectors_positive
      ∙ ap (λ r. if leb d.size i then (err beyond_end, old) else r) same
      ∙ sym (read_block-linear dev d i old 0 none s1 whole.sectors_positive)
      ∙ now

  -- The blocks that are written are read.
  read_blocks-write_blocks :
      (n i : ℕ) (bytes memory : List ℕ) (s s' : S)
      → i + n ≤ d.size
      → length bytes ≡ n * d.blksiz
      → length memory ≡ n * d.blksiz
      → write_blocks dev d n d.blksiz i bytes s ≡ (ok tt, s')
      → read_blocks dev d n d.blksiz i memory s' ≡ ok bytes
  unfolding read_blocks
  read_blocks-write_blocks zero i [] [] s s' h len len' e = refl
  read_blocks-write_blocks zero i (x ∷ bytes) memory s s' h len len' e = absurd (omega (arith, len))
  read_blocks-write_blocks zero i [] (x ∷ memory) s s' h len len' e = absurd (omega (arith, len'))
  read_blocks-write_blocks (suc n) i bytes memory s s' h len len' e =
      let b = d.blksiz in
      let (s1, writes, rest) = write_blocks-suc dev d n b i bytes s s' e in
      let block = take b bytes in
      let size = length-take b bytes (omega (arith, len)) in
      let size' = length-take b memory (omega (arith, len')) in
      let behind = drop-append b block (drop b memory) size in
      let front = take-append b block (drop b memory) size in
      let reads =
        read_block-written n b i (drop b bytes) block (take b memory) s s1 s' (omega (arith, h))
          size size' writes rest in
      let next =
        read_blocks-write_blocks n (suc i) (drop b bytes) (drop b memory) s1 s' (omega (arith, h))
          (omega (arith, length-drop b bytes, len)) (omega (arith, length-drop b memory, len'))
          rest in
      let after : read_blocks dev d n b (suc i) (drop b (block ++ drop b memory)) s'
          ≡ ok (drop b bytes) =
        ap (λ m. read_blocks dev d n b (suc i) m s') behind ∙ next in
      let join : List ℕ → Result (List ℕ) → Result (List ℕ) =
        λ all r. elim r [ err why ↦ err why | ok rest' ↦ ok (take b all ++ rest') ] in
      let on : Result (Unit {0}) × List ℕ → Result (List ℕ) = λ r. elim r.0 [
        | err why ↦ err why
        | ok done ↦
            join (r.1 ++ drop b memory)
              (read_blocks dev d n b (suc i) (drop b (r.1 ++ drop b memory)) s')
      ] in
      ap on reads
      ∙ ap (join (block ++ drop b memory)) after
      ∙ ap (λ t. ok (t ++ drop b bytes)) front
      ∙ ap ok (take-drop b bytes)

module _ {S : Type 0} (dev : Device S) (d : Drive) (rest ds_rest : List ℕ) (s : S) where
  abbrev Synced : Type 0
  Synced = Result (Unit {0}) × Drive × S

  -- What `cpmSync` does with the result of the loop, and after the directory.
  abbrev after_loop : Result (Unit {0}) × S → Synced
  after_loop r = elim r.0 [
    | err why ↦ (err why, d, r.1)
    | ok done ↦ (ok tt, record d { dirty_directory = false }, r.1)
  ]

  abbrev with_ds : Synced → Synced
  with_ds r = (ok tt, (sync_ds dev r.1 ds_rest r.2).1, (sync_ds dev r.1 ds_rest r.2).2)

  abbrev after_directory : Synced → Synced
  after_directory r = elim r.0 [
    | err why ↦ (err why, r.1, r.2)
    | ok done ↦ if has_flag r.1.type ds_dates then with_ds r else (ok tt, r.1, r.2)
  ]

  abbrev loop : Result (Unit {0}) × S
  loop = write_blocks dev d (dir_blocks d) (d.blksiz / 32 * 32) 0 (dir_bytes d.dir ++ rest) s

  sync_lem :
      d.dirty_directory ≡ true → sync dev d rest ds_rest s ≡ after_directory (after_loop loop)
  unfolding sync sync_directory
  sync_lem dirty =
      ap (λ b. after_directory (if not b then (ok tt, d, s) else after_loop loop)) dirty

  sync-written :
      (s' : S) (d' : Drive)
      → d.dirty_directory ≡ true
      → has_flag d.type ds_dates ≡ false
      → sync dev d rest ds_rest s ≡ (ok tt, d', s')
      → loop ≡ (ok tt, s')
  sync-written s' d' dirty plain e = from loop refl
    where
      from : (w : Result (Unit {0}) × S) → loop ≡ w → loop ≡ (ok tt, s')
      from (err why, s1) w = absurd (
          ground (
            arith,
            ap (λ r. r.0)
                (sym (ap (λ x. after_directory (after_loop x)) w) ∙ sym (sync_lem dirty) ∙ e),
          ))
      from (ok done, s1) w =
          let cleared : Drive = record d { dirty_directory = false } in
          let stays : after_directory (after_loop (ok tt, s1)) ≡ (ok tt, cleared, s1) =
            ap (λ b. if b then with_ds (ok tt, cleared, s1) else (ok tt, cleared, s1)) plain in
          let all =
            sym stays
            ∙ sym (ap (λ x. after_directory (after_loop x)) w)
            ∙ sym (sync_lem dirty)
            ∙ e in
          w ∙ ap (λ r. (ok tt, r.2)) all

-- The directory that `cpmSync` writes without an error, on a disk without the file of DateStamper, is the one
-- that `cpmReadSuper` then reads, with the bytes behind it, whatever the memory held that it reads
-- into. Blocks are of whole sectors and entries, the directory lies on the disk, and the device
-- keeps what is written.
pub read_directory-sync :
    {S : Type 0} (dev : Device S) (keeps : Keeps dev) (d : Drive) (rest ds_rest memory : List ℕ)
    (s s' : S) (d' : Drive)
    → IsWhole d
    → dir_blocks d ≤ d.size
    → length d.dir ≡ d.maxdir
    → All HasShape d.dir
    → length (dir_bytes d.dir ++ rest) ≡ dir_blocks d * d.blksiz
    → length memory ≡ dir_blocks d * d.blksiz
    → d.dirty_directory ≡ true
    → has_flag d.type ds_dates ≡ false
    → sync dev d rest ds_rest s ≡ (ok tt, d', s')
    → read_directory dev d memory s' ≡ ok (d.dir, rest)
unfolding read_directory
read_directory-sync dev keeps d rest ds_rest memory s s' d' whole on_disk all shapes len len' dirty
      plain e =
    let step : d.blksiz / 32 * 32 ≡ d.blksiz = omega (arith, whole.whole_entries) in
    let bytes = dir_bytes d.dir ++ rest in
    let written =
      ap (λ m. write_blocks dev d (dir_blocks d) m 0 bytes s) (sym step)
      ∙ sync-written dev d rest ds_rest s s' d' dirty plain e in
    let reads =
      ap (λ m. read_blocks dev d (dir_blocks d) m 0 memory s') step
      ∙ read_blocks-write_blocks dev keeps d whole (dir_blocks d) 0 bytes memory s s'
          (omega (arith, on_disk)) len len' written in
    let size = length-dir_bytes d.dir shapes in
    let same : entries_of d.maxdir bytes ≡ d.dir =
      ap (λ n. entries_of n bytes) (sym all) ∙ entries_of-dir_bytes d.dir rest shapes in
    let behind : drop (d.maxdir * 32) bytes ≡ rest =
      drop-append (d.maxdir * 32) (dir_bytes d.dir) rest (size ∙ ap (λ n. n * 32) all) in
    rw (reads, read_directory)
      (ap (λ es. ok (es, drop (d.maxdir * 32) bytes)) same ∙ ap (λ r. ok (d.dir, r)) behind)
