-- ===== src/Block/Storage.antt =====
-- Blocks as storage: on a device that keeps what is written to it, `readBlock` of cpmfs.c returns
-- what `writeBlock` stored, and no block is changed by a write to another.
use cpmtools.Base.{
  ℕ, zero, suc, ◌+◌, ◌*◌, ◌≤◌, ◌<◌, ◌≡◌, ◌≢◌, ◌⊎◌, inl, inr, sym, ap, ◌∙◌, true, false, List, arith,
  leb, none, some, Option-cases, length, take, drop,
}
use native.Mathlib.Decide.{ℕ_discrete}
use cpmtools.Super.{Drive, Result, ok, err, device_error}
use cpmtools.Skew.{skew_table}
use cpmtools.Block.{Device, per_block, read_block, write_block}
use cpmtools.Block.Address.{track_of, sector_of, places_apart}
use cpmtools.Block.Linear.{read_linear, write_linear, read_block-linear, write_block-linear}
use cpmtools.Block.Splice.{filled, splice-filled, filled-all}

-- A device keeps the bytes of a sector until that sector is written again.
pub record Keeps {S : Type 0} (dev : Device S) : Type 0 where
  pub written :
      (s s' : S) (t r : ℕ) (bytes : List ℕ)
      → dev.write_sector s t r bytes ≡ some s'
      → dev.read_sector s' t r ≡ some bytes
  pub unwritten :
      (s s' : S) (t r t' r' : ℕ) (bytes : List ℕ)
      → dev.write_sector s t r bytes ≡ some s'
      → (t ≢ t') ⊎ (r ≢ r')
      → dev.read_sector s' t' r' ≡ dev.read_sector s t' r'

-- Sector `c` of a buffer.
abbrev pub chunk : Drive → List ℕ → ℕ → List ℕ
chunk d buffer c = take d.sec_length (drop (d.sec_length * c) buffer)

module _ {S : Type 0} (dev : Device S) (keeps : Keeps dev) (d : Drive) (blockno : ℕ) where
  -- A round of the loop that returns has written its sector.
  write_linear-suc :
      (n c : ℕ) (buffer : List ℕ) (s s' : S)
      → write_linear dev d blockno (suc n) c 0 buffer s ≡ (ok tt, s')
      → (s1 : S) × (dev.write_sector s
            (track_of d blockno c)
            (sector_of d blockno c)
            (chunk d buffer c)
          ≡ some s1)
        × (write_linear dev d blockno n (suc c) 0 buffer s1 ≡ (ok tt, s'))
  unfolding write_linear
  write_linear-suc n c buffer s s' e =
      let always : leb 0 c ≡ true = ground arith in
      elim (Option-cases
        (dev.write_sector s (track_of d blockno c) (sector_of d blockno c) (chunk d buffer c))) [
          | inl fails ↦ absurd (failed (rw (always, fails, write_linear) at e))
          | inr (s1, writes) ↦ (s1, writes, rw (always, writes, write_linear) at e)
        ]
    where
      failed : ¬ (◌≡◌ {A = Result (Unit {0}) × S} (err device_error, s) (ok tt, s'))
      failed p = ground (arith, ap (λ q. q.0) p)

  -- Writing sectors `c` and on changes no sector that lies elsewhere.
  write_linear_other :
      (n c : ℕ) (buffer : List ℕ) (s s' : S) (t r : ℕ)
      → ((i : ℕ) → c ≤ i → i < c + n → (track_of d blockno i ≢ t) ⊎ (sector_of d blockno i ≢ r))
      → write_linear dev d blockno n c 0 buffer s ≡ (ok tt, s')
      → dev.read_sector s' t r ≡ dev.read_sector s t r
  write_linear_other zero c buffer s s' t r apart e =
      unfold write_linear in ap (λ p. dev.read_sector p.1 t r) (sym e)
  write_linear_other (suc n) c buffer s s' t r apart e =
      let (s1, writes, rest) = write_linear-suc n c buffer s s' e in
      write_linear_other n (suc c) buffer s1 s' t r (λ i p q. apart i (omega arith) (omega arith))
        rest
      ∙ keeps.unwritten s s1 (track_of d blockno c) (sector_of d blockno c) t r (chunk d buffer c)
          writes (apart c (omega arith) (omega arith))

  -- After the loop each sector that it passed holds its part of the buffer.
  write_linear_holds :
      (n c : ℕ) (buffer : List ℕ) (s s' : S) (i : ℕ)
      → 0 < d.sectrk
      → d.skewtab ≡ skew_table d.sectrk d.skew
      → c + n ≤ per_block d
      → c ≤ i
      → i < c + n
      → write_linear dev d blockno n c 0 buffer s ≡ (ok tt, s')
      → dev.read_sector s' (track_of d blockno i) (sector_of d blockno i) ≡ some (chunk d buffer i)
  write_linear_holds zero c buffer s s' i h skew end p q e = absurd (omega arith)
  write_linear_holds (suc n) c buffer s s' i h skew end p q e =
      let (s1, writes, rest) = write_linear-suc n c buffer s s' e in
      elim (ℕ_discrete c i) [
        | no later ↦
            write_linear_holds n (suc c) buffer s1 s' i h skew (omega arith) (omega arith)
              (omega arith) rest
        | yes now ↦ rw (← now) (
            write_linear_other n (suc c) buffer s1 s' (track_of d blockno c) (sector_of d blockno c)
              (λ j u v.
                places_apart d blockno j blockno c h skew (omega arith) (omega arith)
                  (inr (omega arith)))
              rest
            ∙ keeps.written s s1 (track_of d blockno c) (sector_of d blockno c) (chunk d buffer c)
                writes)
      ]

  -- Reading sectors that hold parts of a target fills the buffer with the target.
  pub read_linear_fills :
      (n c : ℕ) (s : S) (target old : List ℕ)
      → d.sec_length * (c + n) ≤ length target
      → length old ≡ length target
      → ((i : ℕ)
          → c ≤ i
          → i < c + n
          → dev.read_sector s (track_of d blockno i) (sector_of d blockno i)
            ≡ some (chunk d target i))
      → read_linear dev d blockno n c 0 s (filled (d.sec_length * c) target old)
        ≡ (ok tt, filled (d.sec_length * (c + n)) target old)
  unfolding read_linear
  read_linear_fills zero c s target old long same holds =
      ap (λ m. (ok tt, filled (d.sec_length * m) target old)) (omega arith)
  read_linear_fills (suc n) c s target old long same holds =
      let always : leb 0 c ≡ true = ground arith in
      let l = d.sec_length in
      let up : l * c + l ≡ l * suc c = omega arith in
      let fits : l * c + l ≤ length target = omega arith in
      let next = splice-filled (l * c) l target old fits same in
      let rest =
        read_linear_fills n (suc c) s target old (omega arith) same
          (λ i p q. holds i (omega arith) (omega arith)) in
      rw (always, holds c (omega arith) (omega arith), read_linear, next, up)
        (rest ∙ ap (λ m. (ok tt, filled (l * m) target old)) (omega arith))

-- The buffer that `writeBlock` has stored without an error is what `readBlock` then
-- returns, whatever the buffer it reads into held, for a block on the disk, a buffer of the block's
-- size, the skew table of `cpmReadSuper` and a device that keeps what is written.
pub read_block-write_block :
    {S : Type 0} (dev : Device S) (keeps : Keeps dev) (d : Drive) (blockno : ℕ)
    (buffer old : List ℕ) (s s' : S)
    → 0 < d.sectrk
    → d.skewtab ≡ skew_table d.sectrk d.skew
    → blockno < d.size
    → length buffer ≡ d.sec_length * per_block d
    → length old ≡ length buffer
    → write_block dev d blockno buffer 0 none s ≡ (ok tt, s')
    → read_block dev d blockno old 0 none s' ≡ (ok tt, buffer)
read_block-write_block dev keeps d blockno buffer old s s' h skew inside full same e =
    let written : write_linear dev d blockno (per_block d) 0 0 buffer s ≡ (ok tt, s') =
      sym (write_block-linear dev d blockno buffer 0 none s h) ∙ e in
    let on_disk : leb d.size blockno ≡ false = ground arith in
    let fills =
      read_linear_fills dev keeps d blockno (per_block d) 0 s' buffer old (omega arith) same
        (λ i p q.
          write_linear_holds dev keeps d blockno (per_block d) 0 buffer s s' i h skew (omega arith)
            p q written) in
    let empty : filled (d.sec_length * 0) buffer old ≡ old =
      ap (λ k. filled k buffer old) {x = d.sec_length * 0} {y = 0} (omega arith) in
    let whole : filled (d.sec_length * (0 + per_block d)) buffer old ≡ buffer =
      ap (λ k. filled k buffer old) (omega arith) ∙ filled-all buffer old same in
    rw (read_block-linear dev d blockno old 0 none s' h, on_disk) (rw (empty, whole) at fills)

-- A `writeBlock` of a whole block that reports no error changes no sector of another block, with the
-- skew table of `cpmReadSuper` and a device that keeps what is written.
pub write_block-other :
    {S : Type 0} (dev : Device S) (keeps : Keeps dev) (d : Drive) (blockno other c : ℕ)
    (buffer : List ℕ) (s s' : S)
    → 0 < d.sectrk
    → d.skewtab ≡ skew_table d.sectrk d.skew
    → other ≢ blockno
    → c < per_block d
    → write_block dev d blockno buffer 0 none s ≡ (ok tt, s')
    → dev.read_sector s' (track_of d other c) (sector_of d other c)
      ≡ dev.read_sector s (track_of d other c) (sector_of d other c)
write_block-other dev keeps d blockno other c buffer s s' h skew differ within e =
    write_linear_other dev keeps d blockno (per_block d) 0 buffer s s' (track_of d other c)
      (sector_of d other c)
      (λ i p q. places_apart d blockno i other c h skew (omega arith) within (inl (omega arith)))
      (sym (write_block-linear dev d blockno buffer 0 none s h) ∙ e)
