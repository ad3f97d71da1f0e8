-- ===== src/Dir.antt =====
-- src/cpmfs.c: copying and comparing names in the directory, the searches of "directory
-- management", and the loop `do … while ((extent = findFileExtent(…)) != -1)` by which unlink,
-- rename and the attribute call go through the extents of a file.
pub mod Match
pub mod Find
pub mod Each
use cpmtools.Base.{
  ℕ, zero, suc, ◌+◌, ◌*◌, ◌/◌, ◌%◌, Bool, true, false, not, ◌&&◌, ◌||◌, List, [], ◌∷◌, Option, none,
  some, ◌==◌, leb, if◌then◌else◌, length, get_elem?, modify, drop,
}
use cpmtools.Entry.{Entry, extent}
use cpmtools.Super.{Drive, user_limit}

-- `memcpy7`: the low seven bits of the source, the eighth bit of the destination.
unfoldable pub memcpy7 : List ℕ → List ℕ → List ℕ
memcpy7 [] src = []
memcpy7 (d ∷ ds) [] = d ∷ ds
memcpy7 (d ∷ ds) (s ∷ ss) = (d / 128 * 128 + s % 128) ∷ memcpy7 ds ss

-- One loop of `isMatching`. Both arrays have the length of the loop.
unfoldable pub same7 : List ℕ → List ℕ → Bool
same7 [] [] = true
same7 (a ∷ as') (b ∷ bs) = (a % 128 == b % 128) && same7 as' bs
same7 _ _ = false

-- `isMatching`
unfoldable pub is_matching : ℕ → List ℕ → List ℕ → ℕ → List ℕ → List ℕ → Bool
is_matching user1 name1 ext1 user2 name2 ext2 =
    user1 == user2 && same7 name1 name2 && same7 ext1 ext2

-- The number of an entry's last logical extent.
unfoldable pub extent_no : Entry → ℕ
unfolding extent
extent_no e = extent e.extnol e.extnoh

-- The test of `findFileExtent` on one entry; `none` stands for the extent number -1.
unfoldable pub is_extent_of : Drive → ℕ → List ℕ → List ℕ → Option ℕ → Entry → Bool
is_extent_of sb user name ext extno e =
    leb e.status (user_limit sb)
    && (elim extno [ none ↦ true | some n ↦ extent_no e / sb.extents == n / sb.extents ])
    && is_matching user name ext e.status e.name e.ext

-- A loop over the entries from index `i` on, up to the first that passes a test.
pub scan : (Entry → Bool) → List Entry → ℕ → Option ℕ
scan p [] i = none
scan p (e ∷ es) i = if p e then some i else scan p es (suc i)

-- The loop of `findFileExtent`, from index `start` on.
unfoldable pub find_from : (Entry → Bool) → List Entry → ℕ → Option ℕ
unfolding scan
find_from p es start = scan p (drop start es) start

-- `findFileExtent`; `none` is -1, with "file not found" in `boo`.
unfoldable pub find_file_extent : Drive → ℕ → List ℕ → List ℕ → ℕ → Option ℕ → Option ℕ
find_file_extent sb user name ext start extno =
    find_from (is_extent_of sb user name ext extno) sb.dir start

abbrev pub unused : ℕ
unused = 0xe5

-- `findFreeExtent`; `none` is -1, with "directory full" in `boo`.
unfoldable pub find_free_extent : Drive → Option ℕ
unfolding find_from
find_free_extent drive = find_from (λ e. e.status == unused) drive.dir 0

-- `do { update; extent = find(extent + 1); } while (extent != -1)`: each round starts at a higher
-- index, so the number of entries is fuel enough.
pub each_from : ℕ → (Entry → Bool) → (Entry → Entry) → List Entry → ℕ → List Entry
each_from zero p update es i = es
each_from (suc fuel) p update es i =
    let es' = modify es i update in
    elim (find_from p es' (suc i)) [ none ↦ es' | some j ↦ each_from fuel p update es' j ]

unfoldable pub each_extent : (Entry → Bool) → (Entry → Entry) → List Entry → ℕ → List Entry
unfolding each_from
each_extent p update es i = each_from (length es) p update es i
