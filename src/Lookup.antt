-- ===== src/Lookup.antt =====
-- src/cpmfs.c, `cpmNamei`: the search for the entries of a file with the highest and the lowest extent
-- number, of which the index of the latter becomes the inode number, and the entries that
-- `cpmReaddir` lists.
pub mod Extents
pub mod Listed
use cpmtools.Base.{
  leb, not, ◌&&◌, ◌==◌, [], ◌∷◌, ℕ, zero, suc, Bool, true, false, List, Option, none, some, ltb,
  if◌then◌else◌, length, get_elem?,
}
use cpmtools.Entry.{Entry}
use cpmtools.Super.{Drive, user_limit}
use cpmtools.Dir.{is_matching, extent_no, is_extent_of, find_from}

-- `highestExtno` and `highestExt`, `none` for -1 in both, `lowestExtno`, and `lowestExt`, `none` for
-- -1.
pub record Extremes : Type 0 where
  pub highest : Option (ℕ × ℕ)
  pub lowest_extno : ℕ
  pub lowest : Option ℕ

-- `if (extno > highestExtno) …`
unfoldable pub raise : Entry → ℕ → Option (ℕ × ℕ) → Option (ℕ × ℕ)
raise e i none = some (extent_no e, i)
raise e i (some (n, k)) = if ltb n (extent_no e) then some (extent_no e, i) else some (n, k)

-- The body of the loop, for the entry at index `i`.
unfoldable pub note_extent : Entry → ℕ → Extremes → Extremes
unfolding raise
note_extent e i x =
    let lower = ltb (extent_no e) x.lowest_extno in
    record {
      highest = raise e i x.highest;
      lowest_extno = if lower then extent_no e else x.lowest_extno;
      lowest = if lower then some i else x.lowest;
    }

-- `while ((extent = findFileExtent(…, extent + 1, -1)) != -1)`: each round starts at a higher index,
-- so one more than the number of entries is fuel enough.
pub extremes_from : ℕ → (Entry → Bool) → List Entry → ℕ → Extremes → Extremes
extremes_from zero p es start x = x
extremes_from (suc fuel) p es start x = elim (find_from p es start) [
  | none ↦ x
  | some i ↦ elim (get_elem? es i) [
    | none ↦ x
    | some e ↦ extremes_from fuel p es (suc i) (note_extent e i x)
  ]
]

-- The part of `cpmNamei` that looks up the entries of a file; it returns -1 where `highest` is `none`.
unfoldable pub file_extents : Drive → ℕ → List ℕ → List ℕ → Extremes
unfolding extremes_from note_extent
file_extents d user name ext =
    extremes_from (suc (length d.dir)) (is_extent_of d user name ext none) d.dir 0
      (record { highest = none; lowest_extno = 2049; lowest = none })

-- `cpmReaddir`, "determine first extent for the current file": the loop over the directory, of which
-- `es` is the part from index `i` on, for the entry `cur` at index `pos`.
pub first_from : Entry → ℕ → List Entry → ℕ → ℕ → ℕ
first_from cur pos [] i first = first
first_from cur pos (e ∷ es) i first =
    let lower =
      not (i == pos)
      && is_matching cur.status cur.name cur.ext e.status e.name e.ext
      && ltb (extent_no e) (extent_no cur) in
    first_from cur pos es (suc i) (if lower then i else first)

-- Whether `cpmReaddir` lists the entry at an index.
unfoldable pub is_listed : Drive → ℕ → Entry → Bool
unfolding first_from
is_listed d pos cur = leb cur.status (user_limit d) && first_from cur pos d.dir 0 pos == pos
