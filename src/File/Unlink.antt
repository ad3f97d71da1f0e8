-- ===== src/File/Unlink.antt =====
-- What `cpmUnlink` of cpmfs.c leaves in the directory.
use cpmtools.Base.{
  ℕ, ◌+◌, ◌≡◌, ◌≢◌, ◌↔◌, refl, sym, ◌∙◌, Bool, true, false, List, map, arith, none, some,
  Bool-cases, Option-cases, inl, inr, get_elem?, All, All-map, All-modify, get_elem?-map,
}
use cpmtools.Entry.{Entry}
use cpmtools.Super.{Drive, ok, user_limit}
use cpmtools.Inode.{Inode}
use cpmtools.Name.{split_filename}
use cpmtools.Dir.{is_extent_of, find_file_extent}
use cpmtools.Dir.Each.{update_if, each_extent-map}
use cpmtools.Dir.Find.{find_from-exists, find_file_extent_lem, find_file_extent-IsFirst}
use cpmtools.File.Xfcb.{ChangesXfcb, ChangesXfcb-other, update_xfcb_lem, dir-alv_init}
use cpmtools.File.{is_dir, erase, unlink_extents, unlink}

-- A successful call found the file, and did what follows.
unlink-eq-ok :
    (d : Drive) (dir : Inode) (fname : List ℕ) {d' : Drive} {user : ℕ} {name ext : List ℕ}
    → split_filename fname d.type ≡ some (user, name, ext)
    → unlink d dir fname ≡ (ok tt, d')
    → (first : ℕ) × (find_file_extent d user name ext 0 none ≡ some first)
      × (d' ≡ unlink_extents d user name ext first)
unfolding unlink
unlink-eq-ok d dir fname {d'} {user} {name} {ext} s h = elim (Bool-cases (is_dir dir.mode)) [
  | inr n ↦ absurd (ground arith)
  | inl y ↦ elim (Option-cases (find_file_extent d user name ext 0 none)) [
    | inl nothing ↦ absurd (ground arith)
    | inr (first, found) ↦ (first, found, ground arith)
  ]
]

module _ (d : Drive) (user : ℕ) (name ext : List ℕ) where
  -- The test for the file's entries.
  abbrev of_file : Entry → Bool
  of_file = is_extent_of d user name ext none

  -- An erased entry is no file's.
  of_file-erase : (e : Entry) → of_file (erase e) ≡ false
  unfolding is_extent_of erase user_limit
  of_file-erase e = ground arith

  of_file-update_if : (e : Entry) → of_file (update_if of_file erase e) ≡ false
  of_file-update_if e = elim (Bool-cases (of_file e)) [
    | inl y ↦ rw y (of_file-erase e)
    | inr n ↦ rw n n
  ]

  -- The directory after the loop of `cpmUnlink`.
  abbrev survivors : List Entry
  survivors = map (update_if of_file erase) d.dir

  survivors-gone : All (λ e. of_file e ≡ false) survivors
  survivors-gone = All-map (λ e. of_file e ≡ false) _ d.dir of_file-update_if

  -- The directory that `cpmUnlink` leaves.
  dir-unlink_extents :
      {first : ℕ}
      → find_file_extent d user name ext 0 none ≡ some first
      → ChangesXfcb d user name ext erase survivors (unlink_extents d user name ext first).dir
  unfolding unlink_extents
  dir-unlink_extents {first} h =
      rw
        (
          dir-alv_init,
          each_extent-map of_file erase d.dir
              (sym (find_file_extent_lem d user name ext 0 none) ∙ h),
        )
        (update_xfcb_lem d user name ext survivors erase)

  gone :
      {after : List Entry}
      → ChangesXfcb d user name ext erase survivors after
      → All (λ e. of_file e ≡ false) after
  gone (inl e) = rw e survivors-gone
  gone (inr (i, first, e)) = rw e (
      All-modify (λ e. of_file e ≡ false) survivors i erase (λ x h. of_file-erase x) survivors-gone)

  kept :
      (j : ℕ) (e : Entry)
      → get_elem? d.dir j ≡ some e
      → of_file e ≡ false
      → get_elem? survivors j ≡ some e
  kept j e at other = get_elem?-map (update_if of_file erase) d.dir j at ∙ rw other refl

-- After a successful `cpmUnlink` no directory entry belongs to the file that was named.
pub unlink-gone :
    (d : Drive) (dir : Inode) (fname : List ℕ) {d' : Drive} {user : ℕ} {name ext : List ℕ}
    → split_filename fname d.type ≡ some (user, name, ext)
    → unlink d dir fname ≡ (ok tt, d')
    → All (λ e. is_extent_of d user name ext none e ≡ false) d'.dir
unlink-gone d dir fname {d'} {user} {name} {ext} s h =
    let (first, found, e) = unlink-eq-ok d dir fname s h in
    rw e (gone d user name ext (dir-unlink_extents d user name ext found))

-- A successful `cpmUnlink` keeps, in its place, every entry that is neither one of the file nor an
-- XFCB of it.
pub unlink_keeps :
    (d : Drive) (dir : Inode) (fname : List ℕ) {d' : Drive} {user : ℕ} {name ext : List ℕ} (j : ℕ)
    (e : Entry)
    → split_filename fname d.type ≡ some (user, name, ext)
    → unlink d dir fname ≡ (ok tt, d')
    → get_elem? d.dir j ≡ some e
    → is_extent_of d user name ext none e ≡ false
    → is_extent_of d (user + 16) name ext none e ≡ false
    → get_elem? d'.dir j ≡ some e
unlink_keeps d dir fname {d'} {user} {name} {ext} j e s h at other no_xfcb =
    let (first, found, same) = unlink-eq-ok d dir fname s h in
    rw same (
      ChangesXfcb-other d user name ext erase j e (kept d user name ext j e at other) no_xfcb
        (dir-unlink_extents d user name ext found))

-- `cpmUnlink` succeeds on a legal name of which the directory has an entry.
pub unlink_succeeds :
    (d : Drive) (dir : Inode) (fname : List ℕ) {user : ℕ} {name ext : List ℕ} (j : ℕ) (e : Entry)
    → is_dir dir.mode ≡ true
    → split_filename fname d.type ≡ some (user, name, ext)
    → get_elem? d.dir j ≡ some e
    → is_extent_of d user name ext none e ≡ true
    → (unlink d dir fname).0 ≡ ok tt
unfolding unlink
unlink_succeeds d dir fname {user} {name} {ext} j e y s at matches =
    let (first, found, low) =
      find_from-exists (is_extent_of d user name ext none) d.dir j e at matches in
    ground (arith, find_file_extent_lem d user name ext 0 none, found)

-- An entry of the file that a legal name stands for.
abbrev pub HasFile : Drive → List ℕ → Type 0
HasFile d fname =
    (user : ℕ) × (name : List ℕ) × (ext : List ℕ) × (split_filename fname d.type
      ≡ some (user, name, ext))
    × (j : ℕ) × (e : Entry) × (get_elem? d.dir j ≡ some e)
    × (is_extent_of d user name ext none e ≡ true)

-- `cpmUnlink` succeeds exactly if it is given a directory and a legal name of which the directory has an
-- entry, and leaves the super block as it was if it does not.
pub unlink_iff :
    (d : Drive) (dir : Inode) (fname : List ℕ)
    → (((unlink d dir fname).0 ≡ ok tt) ↔ ((is_dir dir.mode ≡ true) × HasFile d fname))
      × ((unlink d dir fname).0 ≢ ok tt → (unlink d dir fname).1 ≡ d)
unfolding unlink
unlink_iff d dir fname = ((there, back), unchanged)
  where
    there : (unlink d dir fname).0 ≡ ok tt → (is_dir dir.mode ≡ true) × HasFile d fname
    there h = elim (Bool-cases (is_dir dir.mode)) [
      | inr n ↦ absurd (ground arith)
      | inl y ↦ elim (Option-cases (split_filename fname d.type)) [
        | inl bad ↦ absurd (ground arith)
        | inr ((user, name, ext), s) ↦
            elim (Option-cases (find_file_extent d user name ext 0 none)) [
              | inl nothing ↦ absurd (ground arith)
              | inr (i, found) ↦
                  let first = find_file_extent-IsFirst d user name ext 0 none found in
                  (y, (user, name, ext, s, i, first.entry, first.there, first.passes))
            ]
      ]
    ]

    back : (is_dir dir.mode ≡ true) × HasFile d fname → (unlink d dir fname).0 ≡ ok tt
    back (y, (user, name, ext, s, j, e, at, matches)) =
        unlink_succeeds d dir fname j e y s at matches

    unchanged : (unlink d dir fname).0 ≢ ok tt → (unlink d dir fname).1 ≡ d
    unchanged h = elim (Bool-cases (is_dir dir.mode)) [
      | inr n ↦ ground arith
      | inl y ↦ elim (Option-cases (split_filename fname d.type)) [
        | inl bad ↦ ground arith
        | inr ((user, name, ext), s) ↦
            elim (Option-cases (find_file_extent d user name ext 0 none)) [
              | inl nothing ↦ ground arith
              | inr (i, found) ↦ absurd (h (ground arith))
            ]
      ]
    ]
