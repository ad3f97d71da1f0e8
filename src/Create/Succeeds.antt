-- ===== src/Create/Succeeds.antt =====
-- When `cpmCreat` of cpmfs.c makes a file, on a format without XFCBs.
use cpmtools.Base.{
  ℕ, ◌≡◌, ◌↔◌, inl, inr, refl, true, false, List, arith, none, some, Option-cases, Bool-cases, ◌==◌,
  get_elem?,
}
use cpmtools.Entry.{Entry}
use cpmtools.Super.{Drive, Result, ok, has_flag, has_xfcbs}
use cpmtools.Inode.{Inode}
use cpmtools.Name.{split_filename}
use cpmtools.Dir.{is_extent_of, find_file_extent, find_free_extent, unused}
use cpmtools.Dir.Find.{find_file_extent-none, find_file_extent-IsFirst, find_from-exists}
use cpmtools.File.{is_dir}
use cpmtools.Clock.{Clock}
use cpmtools.Create.{make_xfcb, creat_at, creat}
use cpmtools.Create.Keeps.{find_free_extent-IsFirst}
use cpmtools.Create.Made.{failed, creat-IsCreated}

-- a result without an error
abbrev pub Succeeds : {S : Type 0} → Result Inode × Drive × S → Type 0
Succeeds {S} r = (ino : Inode) × (d' : Drive) × (s' : S) × (r ≡ (ok ino, d', s'))

module _ (d : Drive) where
  find_free_extent-exists :
      (i : ℕ) (e : Entry)
      → get_elem? d.dir i ≡ some e
      → e.status ≡ unused
      → (k : ℕ) × (find_free_extent d ≡ some k)
  unfolding find_free_extent
  find_free_extent-exists i e at free =
      let (k, found, low) =
        find_from-exists (λ x. x.status == unused) d.dir i e at (ground (arith, free)) in
      (k, found)

  find_file_extent-missing :
      (user : ℕ) (name ext : List ℕ)
      → ((j : ℕ) (e : Entry)
          → get_elem? d.dir j ≡ some e
          → is_extent_of d user name ext none e ≡ false)
      → find_file_extent d user name ext 0 none ≡ none
  find_file_extent-missing user name ext fresh =
      elim (Option-cases (find_file_extent d user name ext 0 none)) [
        | inl missing ↦ missing
        | inr (i, found) ↦
            let first = find_file_extent-IsFirst d user name ext 0 none found in
            absurd (cc (first.passes, fresh i first.entry first.there))
      ]

creat_at-Succeeds :
    {S : Type 0} (clock : Clock S) (d : Drive) (user : ℕ) (name ext : List ℕ) (extent : ℕ)
    (i : Inode) (mode : ℕ) (s : S)
    → has_flag d.type has_xfcbs ≡ false
    → Succeeds (creat_at clock d user name ext extent i mode s)
unfolding creat_at make_xfcb
creat_at-Succeeds clock d user name ext extent i mode s plain =
    rw (plain, creat_at, make_xfcb) (_, _, _, refl)

-- On a format without XFCBs `cpmCreat` makes a file of a legal name if and only if it is given a
-- directory, no entry of that file is there, and an entry of the directory is not used.
pub creat_iff :
    {S : Type 0} (clock : Clock S) (d : Drive) (dir : Inode) (fname : List ℕ) (i : Inode) (mode : ℕ)
    (s : S) {user : ℕ} {name ext : List ℕ}
    → split_filename fname d.type ≡ some (user, name, ext)
    → has_flag d.type has_xfcbs ≡ false
    → Succeeds (creat clock d dir fname i mode s) ↔ (
        (is_dir dir.mode ≡ true)
        × ((j : ℕ) (e : Entry)
            → get_elem? d.dir j ≡ some e
            → is_extent_of d user name ext none e ≡ false)
        × (k : ℕ) × (e : Entry) × (get_elem? d.dir k ≡ some e)
        × (e.status ≡ unused))
unfolding creat
creat_iff clock d dir fname i mode s {user} {name} {ext} split plain = (
  λ made.
      let (ino, d', s', h) = made in
      let c = creat-IsCreated clock d dir fname i mode s split h in
      let first = find_free_extent-IsFirst d c.free in
      (
        elim (Bool-cases (is_dir dir.mode)) [
          | inl y ↦ y
          | inr other ↦ absurd (failed clock d (rw (other, creat) at h))
        ],
        λ j e at. find_file_extent-none d user name ext 0 none j e c.fresh (omega arith) at,
        c.extent,
        first.entry,
        first.there,
        ground (arith, first.passes),
      ),
  λ all.
      let (given, fresh, k, e, at, free) = all in
      let missing = find_file_extent-missing d user name ext fresh in
      let (extent, found) = find_free_extent-exists d k e at free in
      rw (given, split, missing, found, creat)
        (creat_at-Succeeds clock d user name ext extent i mode s plain),
)
