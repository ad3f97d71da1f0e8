-- ===== src/File/Renamed.antt =====
-- One call of `cpmRename` of cpmfs.c that succeeds: the names that it was given, and the directory
-- that it leaves.
use cpmtools.Base.{
  ℕ, ◌+◌, ◌≤◌, ◌≡◌, ◌≢◌, refl, sym, ◌∙◌, Bool, true, false, List, map, arith, none, some,
  Bool-cases, Option-cases, inl, inr, length, get_elem?, All, All-map_of, All-×, All-of, All-modify,
  get_elem?-map,
}
use cpmtools.Entry.{Entry, IsEntry, low7}
use cpmtools.Super.{Drive, ok, user_limit}
use cpmtools.Inode.{Inode}
use cpmtools.Name.{split_filename}
use cpmtools.Name.Split.{split_filename-IsField}
use cpmtools.Dir.{is_extent_of, find_file_extent}
use cpmtools.Dir.Match.{is_extent_of_iff, low7-memcpy7}
use cpmtools.Dir.Each.{update_if, each_extent-map}
use cpmtools.Dir.Find.{find_file_extent_lem, find_file_extent-none}
use cpmtools.File.Xfcb.{ChangesXfcb, ChangesXfcb-other, update_xfcb_lem}
use cpmtools.File.{is_dir, retarget, rename_extents, rename}

-- The file names that a call was given, as `splitFilename` reads them.
pub record Names (d : Drive) (old new : List ℕ) : Type 0 where
  pub olduser : ℕ
  pub oldname : List ℕ
  pub oldext : List ℕ
  pub newuser : ℕ
  pub newname : List ℕ
  pub newext : List ℕ
  pub split_old : split_filename old d.type ≡ some (olduser, oldname, oldext)
  pub split_new : split_filename new d.type ≡ some (newuser, newname, newext)

abbrev pub names :
    (d : Drive) (old new : List ℕ) {olduser newuser : ℕ} {oldname oldext newname newext : List ℕ}
    → split_filename old d.type ≡ some (olduser, oldname, oldext)
    → split_filename new d.type ≡ some (newuser, newname, newext)
    → Names d old new
names d old new {olduser} {newuser} {oldname} {oldext} {newname} {newext} s t = record {
  olduser = olduser;
  oldname = oldname;
  oldext = oldext;
  newuser = newuser;
  newname = newname;
  newext = newext;
  split_old = s;
  split_new = t;
}

module _ (d : Drive) (dir : Inode) (old new : List ℕ) (n : Names d old new) where
  open n use {olduser, oldname, oldext, newuser, newname, newext, split_old, split_new}

  abbrev pub of_old : Entry → Bool
  of_old = is_extent_of d olduser oldname oldext none

  abbrev pub of_new : Entry → Bool
  of_new = is_extent_of d newuser newname newext none

  -- A successful call found the old name and not the new one, and did what follows.
  rename-eq-ok :
      {d' : Drive}
      → rename d dir old new ≡ (ok tt, d')
      → (first : ℕ) × (find_file_extent d olduser oldname oldext 0 none ≡ some first)
        × (find_file_extent d newuser newname newext 0 none ≡ none)
        × (d' ≡ rename_extents d olduser oldname oldext newuser newname newext first)
  unfolding rename
  rename-eq-ok h = elim (Bool-cases (is_dir dir.mode)) [
    | inr other ↦ absurd (ground (arith, split_old, split_new))
    | inl y ↦ elim (Option-cases (find_file_extent d olduser oldname oldext 0 none)) [
      | inl nothing ↦ absurd (ground (arith, split_old, split_new))
      | inr (first, found) ↦
          elim (Option-cases (find_file_extent d newuser newname newext 0 none)) [
            | inr (other, taken) ↦ absurd (ground (arith, split_old, split_new))
            | inl free ↦ (first, found, free, ground (arith, split_old, split_new))
          ]
    ]
  ]

  -- The directory after the loop of `cpmRename`.
  abbrev moved : List Entry
  moved = map (update_if of_old (retarget newuser newname newext)) d.dir

  dir-rename_extents :
      {first : ℕ}
      → find_file_extent d olduser oldname oldext 0 none ≡ some first
      → ChangesXfcb d olduser oldname oldext
          (retarget (newuser + 16) newname newext)
          moved
          (rename_extents d olduser oldname oldext newuser newname newext first).dir
  unfolding rename_extents
  dir-rename_extents {first} h =
      rw
        (each_extent-map of_old (retarget newuser newname newext) d.dir
          (sym (find_file_extent_lem d olduser oldname oldext 0 none) ∙ h))
        (update_xfcb_lem d olduser oldname oldext moved (retarget (newuser + 16) newname newext))

  -- The new name is one that an entry can hold.
  legal : (newuser ≤ user_limit d) × (length newname ≡ 8) × (length newext ≡ 3)
  unfolding user_limit
  legal =
      let (low, name, ext) = split_filename-IsField new d.type split_new in
      (ground arith, name.0, ext.0)

  limit-le : user_limit d ≤ 31
  unfolding user_limit
  limit-le = ground arith

  low7-retarget :
      (user : ℕ) (e : Entry)
      → IsEntry e
      → (low7 (retarget user newname newext e).name ≡ low7 newname)
        × (low7 (retarget user newname newext e).ext ≡ low7 newext)
  unfolding retarget
  low7-retarget user e v = (
    low7-memcpy7 e.name newname (omega (arith, v.name_length, legal.1)),
    low7-memcpy7 e.ext newext (omega (arith, v.ext_length, legal.2)),
  )

  status-retarget : (user : ℕ) (e : Entry) → (retarget user newname newext e).status ≡ user
  unfolding retarget
  status-retarget user e = refl

  -- A renamed entry answers to the new name.
  pub of_new-retarget : (e : Entry) → IsEntry e → of_new (retarget newuser newname newext e) ≡ true
  of_new-retarget e v =
      let (name, ext) = low7-retarget newuser e v in
      (is_extent_of_iff d newuser newname newext (retarget newuser newname newext e)).1
        (legal.0, sym (status-retarget newuser e), sym name, sym ext)

  -- It no longer answers to the old one, of which the new one differs.
  of_old-retarget :
      (e : Entry)
      → IsEntry e
      → of_old e ≡ true
      → of_new e ≡ false
      → of_old (retarget newuser newname newext e) ≡ false
  of_old-retarget e v is_old not_new =
      elim (Bool-cases (of_old (retarget newuser newname newext e))) [
        | inr n ↦ n
        | inl y ↦
            let after = retarget newuser newname newext e in
            let (name, ext) = low7-retarget newuser e v in
            let a = (is_extent_of_iff d olduser oldname oldext after).0 y in
            let b = (is_extent_of_iff d olduser oldname oldext e).0 is_old in
            let user : newuser ≡ e.status = sym (status-retarget newuser e) ∙ sym a.1 ∙ b.1 in
            let c =
              (is_extent_of_iff d newuser newname newext e).1
                (legal.0, user, sym name ∙ sym a.2 ∙ b.2, sym ext ∙ sym a.3 ∙ b.3) in
            cc c
      ]

  -- A renamed XFCB is no entry of the old name.
  of_old-retarget_xfcb :
      (e : Entry)
      → olduser + 16 ≤ user_limit d
      → of_old (retarget (newuser + 16) newname newext e) ≡ false
  of_old-retarget_xfcb e low =
      elim (Bool-cases (of_old (retarget (newuser + 16) newname newext e))) [
        | inr n ↦ n
        | inl y ↦
            let a =
              (is_extent_of_iff d olduser oldname oldext
                  (retarget (newuser + 16) newname newext e)).0
                y in
            absurd (omega (arith, a.1, status-retarget (newuser + 16) e, limit-le))
      ]

  update_if-old :
      (e : Entry)
      → IsEntry e × (of_new e ≡ false)
      → of_old (update_if of_old (retarget newuser newname newext) e) ≡ false
  update_if-old e (v, not_new) = elim (Bool-cases (of_old e)) [
    | inl y ↦ rw y (of_old-retarget e v y not_new)
    | inr n ↦ rw n n
  ]

  gone :
      {after : List Entry}
      → All IsEntry d.dir
      → All (λ e. of_new e ≡ false) d.dir
      → ChangesXfcb d olduser oldname oldext (retarget (newuser + 16) newname newext) moved after
      → All (λ e. of_old e ≡ false) after
  gone valid free changes =
      let none_left : All (λ e. of_old e ≡ false) moved =
        All-map_of (λ e. IsEntry e × (of_new e ≡ false)) (λ e. of_old e ≡ false) _ d.dir
          (All-× IsEntry (λ e. of_new e ≡ false) d.dir valid free) update_if-old in
      elim changes [
        | inl same ↦ rw same none_left
        | inr (i, first, same) ↦
            let low : olduser + 16 ≤ user_limit d =
              ((is_extent_of_iff d (olduser + 16) oldname oldext first.entry).0 first.passes).0 in
            rw same (
              All-modify (λ e. of_old e ≡ false) moved i (retarget (newuser + 16) newname newext)
                (λ x h. of_old-retarget_xfcb x low) none_left)
      ]

  pub no_old :
      {d' : Drive}
      → All IsEntry d.dir
      → rename d dir old new ≡ (ok tt, d')
      → All (λ e. of_old e ≡ false) d'.dir
  no_old valid h =
      let (first, found, free, e) = rename-eq-ok h in
      let not_new =
        All-of (λ e. of_new e ≡ false) d.dir
          (λ i x at.
            find_file_extent-none d newuser newname newext 0 none i x free (omega arith) at) in
      rw e (gone valid not_new (dir-rename_extents found))

  -- With a new user number other than that of the old file's XFCBs the changed XFCB is none of the
  -- renamed entries.
  pub moved_entry :
      {d' : Drive} (j : ℕ) (e : Entry)
      → newuser ≢ olduser + 16
      → rename d dir old new ≡ (ok tt, d')
      → get_elem? d.dir j ≡ some e
      → of_old e ≡ true
      → get_elem? d'.dir j ≡ some (retarget newuser newname newext e)
  moved_entry j e apart h at y =
      let (first, found, free, same) = rename-eq-ok h in
      let target = retarget newuser newname newext e in
      let after : get_elem? moved j ≡ some target =
        get_elem?-map (update_if of_old (retarget newuser newname newext)) d.dir j at ∙ rw y refl in
      let no_xfcb : is_extent_of d (olduser + 16) oldname oldext none target ≡ false =
        elim (Bool-cases (is_extent_of d (olduser + 16) oldname oldext none target)) [
          | inr n ↦ n
          | inl x ↦ absurd (
              apart (
                sym (status-retarget newuser e)
                ∙ sym ((is_extent_of_iff d (olduser + 16) oldname oldext target).0 x).1))
        ] in
      rw same (
        ChangesXfcb-other d olduser oldname oldext (retarget (newuser + 16) newname newext) j target
          after no_xfcb (dir-rename_extents found))

  pub kept_entry :
      {d' : Drive} (j : ℕ) (e : Entry)
      → rename d dir old new ≡ (ok tt, d')
      → get_elem? d.dir j ≡ some e
      → of_old e ≡ false
      → is_extent_of d (olduser + 16) oldname oldext none e ≡ false
      → get_elem? d'.dir j ≡ some e
  kept_entry j e h at n no_xfcb =
      let (first, found, free, same) = rename-eq-ok h in
      let after : get_elem? moved j ≡ some e =
        get_elem?-map (update_if of_old (retarget newuser newname newext)) d.dir j at ∙ rw n refl in
      rw same (
        ChangesXfcb-other d olduser oldname oldext (retarget (newuser + 16) newname newext) j e
          after no_xfcb (dir-rename_extents found))
