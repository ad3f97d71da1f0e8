-- ===== src/Fsck/Phases.antt =====
-- src/fsck.cpm.c: phase 1, over the entries by their status, and phase 2, over pairs of entries.
use cpmtools.Base.{
  ℕ, suc, Bool, true, false, not, ◌&&◌, ◌||◌, List, [], ◌∷◌, Option, none, some, ◌==◌, leb,
  if◌then◌else◌,
}
use cpmtools.Entry.{Entry}
use cpmtools.Super.{Drive, has_flag, has_xfcbs}
use cpmtools.Alv.{pointer_blocks}
use cpmtools.Dir.{unused, is_matching, extent_no}
use cpmtools.Fsck.Ask.{Case, repair_each, remove}
use cpmtools.Fsck.Fields.{wide, check_file}
use cpmtools.Fsck.Special.{p2dos, dr3, mpm, check_label, check_xfcb}

-- what an entry is by its status
pub data Sort : Type 0 where
  file stamps label xfcb free bad : Sort

-- the highest user number of a file's entry
unfoldable pub last_user : Drive → ℕ
last_user d = if d.type == p2dos then 31 else 15

-- the conditions of the chain of branches
unfoldable pub sort_of : Drive → ℕ → Sort
unfolding last_user
sort_of d status =
    if leb status (last_user d)
    then file
    else if (d.type == p2dos || d.type == dr3) && status == 0x21
    then stamps
    else if (d.type == dr3 || d.type == mpm) && status == 0x20
    then label
    else if has_flag d.type has_xfcbs && leb 16 status && leb status 31
    then xfcb
    else if status == unused
    then free
    else bad

unfoldable pub check_as : Sort → Bool → Drive → Case → Option Case
check_as file norepair d c = check_file norepair d c
check_as stamps norepair d c = some c
check_as label norepair d c = check_label norepair d c
check_as xfcb norepair d c = check_xfcb norepair c
check_as free norepair d c = some c
check_as bad norepair d c = repair_each norepair remove (true ∷ []) c

-- the body of the loop of phase 1
unfoldable pub check_entry : Bool → Drive → Case → Option Case
unfolding check_as check_file check_label check_xfcb repair_each
check_entry norepair d c = check_as (sort_of d c.entry.status) norepair d c

-- What a phase leaves: the directory, the lines still to be read, and the bits of `ret`.
pub record Outcome : Type 0 where
  pub dir : List Entry
  pub input : List ℕ
  pub modified : Bool
  pub broken : Bool

-- the entry that was checked, in front of what the rest of the loop leaves
abbrev pub with_entry : Entry → Option Outcome → Option Outcome
with_entry e none = none
with_entry e (some o) = some (record o { dir = e ∷ o.dir })

-- phase 1
unfoldable pub check_entries : Bool → Drive → List Entry → List ℕ → Bool → Bool → Option Outcome
check_entries norepair d [] input modified broken =
    some (record { dir = []; input = input; modified = modified; broken = broken })
check_entries norepair d (e ∷ es) input modified broken =
    elim (check_entry norepair d
      (record { entry = e; input = input; modified = modified; broken = broken })) [
        | none ↦ none
        | some c ↦ with_entry c.entry (check_entries norepair d es c.input c.modified c.broken)
      ]

-- a loop that sets a bit where a test holds at some index and element
unfoldable pub any_at {ℓ} : {A : Type ℓ} → (ℕ → A → Bool) → ℕ → List A → Bool
any_at test i [] = false
any_at test i (x ∷ xs) = test i x || any_at test (suc i) xs

-- The innermost test of the first part of phase 2: block `b`, pointer `i` of entry `n`, against
-- block `b'`, pointer `i'` of entry `n'`. Two-byte pointers are counted as one.
abbrev pub is_shared : ℕ → ℕ → ℕ → ℕ → ℕ → ℕ → Bool
is_shared n i b n' i' b' = not (b == 0) && not (b' == 0) && b == b' && not (n == n' && i == i')

-- "check multiple allocated blocks"
unfoldable pub has_shared : Drive → List Entry → Bool
unfolding any_at pointer_blocks last_user
has_shared d dir =
    any_at
      (λ n e.
        leb e.status (last_user d)
        && any_at
            (λ i b.
              any_at
                (λ n' e'.
                  leb e'.status (last_user d)
                  && any_at (λ i' b'. is_shared n i b n' i' b') 0
                      (pointer_blocks (wide d) e'.pointers))
                0 dir)
            0 (pointer_blocks (wide d) e.pointers))
      0 dir

-- the same extent of the same file
unfoldable pub is_duplicate : Entry → Entry → Bool
unfolding is_matching extent_no
is_duplicate e e' =
    extent_no e == extent_no e' && is_matching e.status e.name e.ext e'.status e'.name e'.ext

-- "check multiple extents"
unfoldable pub has_duplicate : Drive → List Entry → Bool
unfolding any_at is_duplicate last_user
has_duplicate d dir =
    any_at
      (λ n e.
        leb e.status (last_user d)
        && any_at (λ n' e'. leb e'.status (last_user d) && not (n == n') && is_duplicate e e') 0
            dir)
      0 dir

-- `fsck`
unfoldable pub fsck : Bool → Drive → List ℕ → Option Outcome
unfolding check_entries check_entry has_shared has_duplicate
fsck norepair d input = elim (check_entries norepair d d.dir input false false) [
  | none ↦ none
  | some o ↦ some (record o { broken = o.broken || has_shared d o.dir || has_duplicate d o.dir })
]
