-- ===== src/Content/Bytes.antt =====
-- The bytes of a file as its entries and the blocks on the disk give them, position by position: what
-- `cpmRead` of cpmfs.c promises to read.
use cpmtools.Base.{
  ℕ, zero, suc, ◌*◌, ◌/◌, ◌%◌, ◌<◌, ◌≡◌, sym, ap, ◌∙◌, List, [], ◌∷◌, ◌==◌, ◌&&◌, leb,
  if◌then◌else◌, Option, none, some, get_elem?, Option-cases, inl, inr, refl,
}
use native.Mathlib.Nat.{div-div-eq-div-mul}
use cpmtools.Entry.{Entry}
use cpmtools.Super.{Drive, user_limit}
use cpmtools.Inode.{Inode}
use cpmtools.Dir.{extent_no, is_matching, is_extent_of, find_from, find_file_extent}
use cpmtools.Dir.Find.{find_file_extent-IsFirst}
use cpmtools.Block.{Device, per_block}
use cpmtools.Block.Partial.{disk_byte}
use cpmtools.Content.{extcap, pointer_index, pointer_at, extent_at}

-- A format as CP/M has them: blocks are whole numbers of sectors, and an entry has the pointers for
-- `extents` times 16 KiB.
pub record IsFormat (d : Drive) : Type 0 where
  pub sectors_positive : 0 < d.sectrk
  pub bytes_positive : 0 < d.sec_length
  pub block_positive : 0 < d.blksiz
  pub extents_positive : 0 < d.extents
  pub whole_sectors : d.sec_length * per_block d ≡ d.blksiz
  pub capacity : extcap d ≡ 16384 * d.extents
  pub pointers : ℕ
  pub whole_blocks : extcap d ≡ pointers * d.blksiz

abbrev pub entry_of : Drive → Option ℕ → Option Entry
entry_of d none = none
entry_of d (some x) = get_elem? d.dir x

module _ {S : Type 0} (dev : Device S) (d : Drive) (ino : Inode) (s : S) where
  -- The byte at a position of which the entry is known. A pointer that is 0 stands for zeros.
  abbrev pub entry_byte : Option Entry → ℕ → ℕ
  entry_byte none p = 0
  entry_byte (some e) p =
      let block = pointer_at d e (pointer_index d p) in
      if block == 0 then 0 else disk_byte dev d s block (p % d.blksiz)

  -- The byte of the file at a position.
  abbrev pub file_byte : ℕ → ℕ
  file_byte p = entry_byte (entry_of d (extent_at d ino p)) p

  -- The `n` bytes of the file from a position on.
  abbrev pub contents : ℕ → ℕ → List ℕ
  contents p zero = []
  contents p (suc n) = file_byte p ∷ contents (suc p) n

module _ (d : Drive) (ino : Inode) where
  -- Positions in one entry's window have the same entry.
  pub extent_at-window :
      (p q : ℕ) → IsFormat d → p / extcap d ≡ q / extcap d → extent_at d ino p ≡ extent_at d ino q
  unfolding extent_at find_file_extent is_extent_of
  extent_at-window p q format e =
      let cap = format.capacity in
      let same : p / 16384 / d.extents ≡ q / 16384 / d.extents =
        div-div-eq-div-mul p 16384 d.extents
        ∙ ap (λ c. p / c) (sym cap)
        ∙ e
        ∙ ap (λ c. q / c) cap
        ∙ sym (div-div-eq-div-mul q 16384 d.extents) in
      elim (Option-cases (get_elem? d.dir ino.ino)) [
        | inl nothing ↦ rw (nothing, extent_at) refl
        | inr (own, there) ↦
            rw (there, extent_at)
              (ap
                (λ n.
                  find_from
                    (λ x.
                      leb x.status (user_limit d)
                      && (extent_no x / d.extents == n)
                      && is_matching own.status own.name own.ext x.status x.name x.ext)
                    d.dir 0)
                same)
      ]

  -- The entry that is found is in the directory.
  pub extent_at-there :
      (p : ℕ) {x : ℕ} → extent_at d ino p ≡ some x → (e : Entry) × (get_elem? d.dir x ≡ some e)
  unfolding extent_at
  extent_at-there p h = elim (Option-cases (get_elem? d.dir ino.ino)) [
    | inl nothing ↦ absurd (cc (rw (nothing, extent_at) at h))
    | inr (own, there) ↦
        let first =
          find_file_extent-IsFirst d own.status own.name own.ext 0 (some (p / 16384))
            (rw (there, extent_at) at h) in
        (first.entry, first.there)
  ]
