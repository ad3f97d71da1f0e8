-- ===== src/Tests/Blocks.antt =====
-- The skew table and blocks on a device that is a function of the track and the sector.
use cpmtools.Base.{
  sym, ap, ◌∙◌, ◌≢◌, ℕ, ◌≡◌, refl, ◌==◌, ◌&&◌, List, [], ◌∷◌, if◌then◌else◌, some, none, arith,
  get_or,
}
use cpmtools.Super.{Drive, ok}
use cpmtools.Skew.{skew_table}
use cpmtools.Skew.Table.{skew_table_apart}
use cpmtools.Block.{Device, read_block, write_block}
use cpmtools.Block.Address.{track_of, sector_of}
use cpmtools.Block.Storage.{Keeps, read_block-write_block, write_block-other}
use cpmtools.Tests.Sample.{disk}

-- A disk of 4 sectors of 2 bytes on a track, blocks of 3 sectors, skewed by 2.
abbrev small : Drive
small = record disk {
  sec_length = 2;
  sectrk = 4;
  blksiz = 6;
  skew = 2;
  boottrk = 1;
  size = 5;
  skewtab = 0 ∷ 2 ∷ 1 ∷ 3 ∷ [];
}

abbrev pub Store : Type 0
Store = ℕ → ℕ → List ℕ

abbrev pub store : Device Store
store = record {
  read_sector = λ s t r. some (s t r);
  write_sector = λ s t r bytes. some (λ t' r'. if t' == t && r' == r then bytes else s t' r');
}

abbrev pub filled : Store
filled t r = t ∷ r ∷ []

small_table : skew_table 4 2 ≡ 0 ∷ 2 ∷ 1 ∷ 3 ∷ []
unfolding skew_table
small_table = refl

skew_table_apart_example : get_or (skew_table 4 2) 1 0 ≢ get_or (skew_table 4 2) 2 0
skew_table_apart_example = skew_table_apart 4 2 1 2 (omega arith) (omega arith) (omega arith)

-- What `store` does to a sector.
store-eq :
    (s s' : Store) (t r : ℕ) (bytes : List ℕ)
    → store.write_sector s t r bytes ≡ some s'
    → (λ t' r'. if t' == t && r' == r then bytes else s t' r') ≡ s'
store-eq s s' t r bytes e = ap (λ o. elim o [ none ↦ s | some f ↦ f ]) e

pub store-Keeps : Keeps store
store-Keeps = record {
  written = λ s s' t r bytes e.
      ap some (sym (ap (λ f. f t r) (store-eq s s' t r bytes e)) ∙ ground arith);
  unwritten = λ s s' t r t' r' bytes e apart.
      ap some (sym (ap (λ f. f t' r') (store-eq s s' t r bytes e)) ∙ ground arith);
}

abbrev six : List ℕ
six = 1 ∷ 2 ∷ 3 ∷ 4 ∷ 5 ∷ 6 ∷ []

-- The device after `six` is written to block 1.
abbrev after_six : Store
after_six = (write_block store small 1 six 0 none filled).1

write_six : write_block store small 1 six 0 none filled ≡ (ok tt, after_six)
unfolding write_block
write_six = refl

read_block-write_block_example :
    read_block store small 1 (0 ∷ 0 ∷ 0 ∷ 0 ∷ 0 ∷ 0 ∷ []) 0 none after_six ≡ (ok tt, six)
unfolding skew_table
read_block-write_block_example =
    read_block-write_block store store-Keeps small 1 six (0 ∷ 0 ∷ 0 ∷ 0 ∷ 0 ∷ 0 ∷ []) filled
      after_six (omega arith) refl (omega arith) refl refl write_six

write_block-other_example :
    store.read_sector after_six (track_of small 2 1) (sector_of small 2 1)
    ≡ store.read_sector filled (track_of small 2 1) (sector_of small 2 1)
unfolding skew_table
write_block-other_example =
    write_block-other store store-Keeps small 1 2 1 six filled after_six (omega arith) refl
      (omega arith) (omega arith) write_six
