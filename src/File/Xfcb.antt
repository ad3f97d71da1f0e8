-- ===== src/File/Xfcb.antt =====
-- The extended control block (XFCB) of a file, which `cpmUnlink` and `cpmRename` change with it.
use cpmtools.Base.{
  ℕ, ◌+◌, ◌≡◌, ◌⊎◌, inl, inr, refl, true, List, none, some, Bool-cases, Option-cases, modify,
  get_elem?, get_elem?-modify_keeps, false, ap,
}
use cpmtools.Entry.{Entry}
use cpmtools.Super.{Drive, has_flag, has_xfcbs, user_limit}
use cpmtools.Alv.{alv_init}
use cpmtools.Dir.{is_extent_of, find_file_extent}
use cpmtools.Dir.Find.{IsFirst, find_file_extent-IsFirst}
use cpmtools.File.{update_xfcb}

-- `alvInit` changes the vector alone.
pub dir-alv_init : (d : Drive) → (alv_init d).dir ≡ d.dir
unfolding alv_init
dir-alv_init d = refl

-- The directory `after` is `es`, or `es` with the first XFCB of the file changed.
abbrev pub ChangesXfcb :
    Drive → ℕ → List ℕ → List ℕ → (Entry → Entry) → List Entry → List Entry → Type 0
ChangesXfcb d user name ext update es after =
    (after ≡ es)
    ⊎ ((i : ℕ) × IsFirst (is_extent_of d (user + 16) name ext none) es 0 i
        × (after ≡ modify es i update))

module _ (d : Drive) (user : ℕ) (name ext : List ℕ) (es : List Entry) (update : Entry → Entry) where
  abbrev changed : Drive
  changed = record d { dirty_directory = true; dir = es }

  -- The test for an entry does not read the directory.
  is_extent_of-changed :
      is_extent_of changed (user + 16) name ext none ≡ is_extent_of d (user + 16) name ext none
  unfolding is_extent_of user_limit
  is_extent_of-changed = refl

  pub update_xfcb_lem :
      ChangesXfcb d user name ext update es (update_xfcb changed user name ext update).dir
  unfolding update_xfcb
  update_xfcb_lem = elim (Bool-cases (has_flag d.type has_xfcbs)) [
    | inr n ↦ rw n (inl refl)
    | inl y ↦ elim (Option-cases (find_file_extent changed (user + 16) name ext 0 none)) [
      | inl nothing ↦ rw (y, nothing) (inl refl)
      | inr (i, found) ↦
          rw (y, found)
            (inr (
              i,
              rw is_extent_of-changed at
                  (find_file_extent-IsFirst changed (user + 16) name ext 0 none found),
              refl,
            ))
    ]
  ]

-- An entry that is no XFCB of the file stays.
pub ChangesXfcb-other :
    (d : Drive) (user : ℕ) (name ext : List ℕ) (update : Entry → Entry) {es after : List Entry}
    (j : ℕ) (e : Entry)
    → get_elem? es j ≡ some e
    → is_extent_of d (user + 16) name ext none e ≡ false
    → ChangesXfcb d user name ext update es after
    → get_elem? after j ≡ some e
ChangesXfcb-other d user name ext update j e at no_xfcb (inl same) = rw same at
ChangesXfcb-other d user name ext update {es} j e at no_xfcb (inr (i, first, same)) = rw same (
    get_elem?-modify_keeps es i j update
      (λ at_i. cc (first.passes, first.there, ap (get_elem? es) at_i, at)) at)
