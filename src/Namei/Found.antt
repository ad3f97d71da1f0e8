-- ===== src/Namei/Found.antt =====
-- The inode that `cpmNamei` of cpmfs.c returns for a file name is that of the file's entries.
use cpmtools.Base.{
  ℕ, ◌≤◌, ◌≡◌, inl, inr, refl, sym, ap, ◌∙◌, true, false, List, [], ◌∷◌, arith, none, some,
  Option-cases, Bool-cases, get_elem?, lt_of_get_elem?,
}
use mathlib.Core.Path.{subst}
use cpmtools.Entry.{Entry}
use cpmtools.Super.{Drive, Result, ok, err, Boo, has_flag, ds_dates}
use cpmtools.Inode.{regular, Inode, attr_of}
use cpmtools.Name.{split_filename}
use cpmtools.Dir.{extent_no, is_extent_of}
use cpmtools.File.{is_dir}
use cpmtools.Lookup.{file_extents}
use cpmtools.Lookup.Extents.{file_extents-extreme}
use cpmtools.Listing.{passwd_name, label_name}
use cpmtools.Clock.{Clock}
use cpmtools.Stamp.{read_time_stamps, read_ds_stamps}
use cpmtools.Namei.{is_same, file_size, mode_bits, fill_inode, namei_file, namei}

is_same-eq : (a b : List ℕ) → is_same a b ≡ true → a ≡ b
is_same-eq [] [] h = refl
is_same-eq [] (y ∷ ys) h = cc
is_same-eq (x ∷ xs) [] h = cc
is_same-eq (x ∷ xs) (y ∷ ys) h =
    let head : x ≡ y = ground (arith, h) in
    let tail : xs ≡ ys = is_same-eq xs ys (ground (arith, h)) in rw (head, tail) refl

-- The name of a file is none of the reserved names, which have no user number.
not_reserved :
    (filename reserved : List ℕ) (type : ℕ) {parts : ℕ × List ℕ × List ℕ}
    → split_filename filename type ≡ some parts
    → split_filename reserved type ≡ none
    → is_same filename reserved ≡ false
not_reserved filename reserved type h none_there = elim (Bool-cases (is_same filename reserved)) [
  | inr other ↦ other
  | inl same ↦
      let e = is_same-eq filename reserved same in
      absurd (cc (ap (λ f. split_filename f type) e, h, none_there))
]

-- An inode for the entries of a file: the entry with the lowest extent number, of which it has the
-- index and the attributes, and the one with the highest, which gives the size.
pub record IsFound (d : Drive) (user : ℕ) (name ext : List ℕ) (r : Inode) : Type 0 where
  pub lowest : Entry
  pub there : get_elem? d.dir r.ino ≡ some lowest
  pub passes : is_extent_of d user name ext none lowest ≡ true
  pub least :
      (j : ℕ) (e : Entry)
      → get_elem? d.dir j ≡ some e
      → is_extent_of d user name ext none e ≡ true
      → extent_no lowest ≤ extent_no e
  pub highest_index : ℕ
  pub highest : Entry
  pub highest_there : get_elem? d.dir highest_index ≡ some highest
  pub highest_passes : is_extent_of d user name ext none highest ≡ true
  pub most :
      (j : ℕ) (e : Entry)
      → get_elem? d.dir j ≡ some e
      → is_extent_of d user name ext none e ≡ true
      → extent_no e ≤ extent_no highest
  pub size_eq : r.size ≡ file_size d (extent_no highest) highest
  pub protect_mode : ℕ
  pub attr_eq : r.attr ≡ attr_of lowest protect_mode
  pub bits_eq : r.mode.bits ≡ mode_bits lowest ext

module _ {S : Type 0} (clock : Clock S) (d : Drive) where
  -- Reading DateStamper times changes the times only.
  record SameFile (i i' : Inode) : Type 0 where
    ino_eq : i'.ino ≡ i.ino
    size_eq : i'.size ≡ i.size
    attr_eq : i'.attr ≡ i.attr
    mode_eq : i'.mode ≡ i.mode

  read_ds_stamps-SameFile :
      (i : Inode) (lowest_ext : ℕ) → SameFile i (read_ds_stamps clock d i lowest_ext)
  unfolding read_ds_stamps
  read_ds_stamps-SameFile i lowest_ext = elim (Bool-cases (has_flag d.type ds_dates)) [
    | inr without ↦
        rw (without, read_ds_stamps)
          (record { ino_eq = refl; size_eq = refl; attr_eq = refl; mode_eq = refl })
    | inl dated ↦ elim (Option-cases (get_elem? d.ds lowest_ext)) [
      | inl nothing ↦
          rw (dated, nothing, read_ds_stamps)
            (record { ino_eq = refl; size_eq = refl; attr_eq = refl; mode_eq = refl })
      | inr (stamp, there) ↦
          rw (dated, there, read_ds_stamps)
            (record { ino_eq = refl; size_eq = refl; attr_eq = refl; mode_eq = refl })
    ]
  ]

  abbrev Outcome : Type 0
  Outcome = Result Inode × S

  failed : {why : Boo} {r : Inode} {s s' : S} → ¬ (◌≡◌ {A = Outcome} (err why, s) (ok r, s'))
  failed h = ground (arith, ap (λ q. q.0) h)

  fill_inode-IsFound :
      (user : ℕ) (name ext : List ℕ) (i : Inode) (s : S) (hi lo : ℕ) (highest lowest : Entry)
      → get_elem? d.dir lo ≡ some lowest
      → is_extent_of d user name ext none lowest ≡ true
      → ((j : ℕ) (e : Entry)
          → get_elem? d.dir j ≡ some e
          → is_extent_of d user name ext none e ≡ true
          → extent_no lowest ≤ extent_no e)
      → get_elem? d.dir hi ≡ some highest
      → is_extent_of d user name ext none highest ≡ true
      → ((j : ℕ) (e : Entry)
          → get_elem? d.dir j ≡ some e
          → is_extent_of d user name ext none e ≡ true
          → extent_no e ≤ extent_no highest)
      → IsFound d user name ext (fill_inode clock d i (extent_no highest) highest lo lowest ext s).0
  unfolding fill_inode read_time_stamps
  fill_inode-IsFound user name ext i s hi lo highest lowest there passes least there' passes' most =
      let i1 : Inode = record i {
        size = file_size d (extent_no highest) highest;
        ino = lo;
        mode = record { kind = regular; bits = 0 };
      } in
      let read = read_time_stamps clock d i1 lo s in
      let i3 : Inode = record (read.1) {
        attr = attr_of lowest read.0;
        mode = record { kind = regular; bits = mode_bits lowest ext };
      } in
      let same = read_ds_stamps-SameFile i3 lo in
      record {
        lowest = lowest;
        there = ap (get_elem? d.dir) same.ino_eq ∙ there;
        passes = passes;
        least = least;
        highest_index = hi;
        highest = highest;
        highest_there = there';
        highest_passes = passes';
        most = most;
        size_eq = same.size_eq;
        protect_mode = read.0;
        attr_eq = same.attr_eq;
        bits_eq = ap (λ m. m.bits) same.mode_eq;
      }

  namei_file-IsFound :
      (user : ℕ) (name ext : List ℕ) (i : Inode) (s : S) {r : Inode} {s' : S}
      → namei_file clock d user name ext i s ≡ (ok r, s')
      → IsFound d user name ext r
  unfolding namei_file
  namei_file-IsFound user name ext i s {r} {s'} h =
      let x = file_extents d user name ext in
      let best = file_extents-extreme d user name ext in
      elim (Option-cases x.highest) [
        | inl nothing ↦ absurd (failed (rw (nothing, namei_file) at h))
        | inr ((n, hi), found) ↦ elim (Option-cases x.lowest) [
          | inl nothing ↦ absurd (failed (rw (found, nothing, namei_file) at h))
          | inr (lo, least) ↦
              let ((highest, at_hi, passes', number), most) = rw found at best.0 in
              let ((lowest, at_lo, passes, number'), fewest) = rw least at best.1 in
              let h' = rw (found, least, at_hi, at_lo, namei_file) at h in
              let filled = (fill_inode clock d i n highest lo lowest ext s).0 in
              let same : filled ≡ r = ap (λ q. elim q.0 [ ok y ↦ y | err why ↦ filled ]) h' in
              subst (IsFound d user name ext)
                (ap (λ m. (fill_inode clock d i m highest lo lowest ext s).0) number ∙ same)
                (fill_inode-IsFound user name ext i s hi lo highest lowest at_lo passes
                  (λ j e at y. omega (arith, number', fewest j e (lt_of_get_elem? d.dir j at) at y))
                  at_hi passes'
                  (λ j e at y. omega (arith, number, most j e (lt_of_get_elem? d.dir j at) at y)))
        ]
      ]

  -- The search succeeds if there is an entry of the file.
  namei_file_succeeds :
      (user : ℕ) (name ext : List ℕ) (i : Inode) (s : S) (j : ℕ) (e : Entry)
      → get_elem? d.dir j ≡ some e
      → is_extent_of d user name ext none e ≡ true
      → (r : Inode) × (s' : S) × (namei_file clock d user name ext i s ≡ (ok r, s'))
  unfolding namei_file
  namei_file_succeeds user name ext i s j e at y =
      let x = file_extents d user name ext in
      let best = file_extents-extreme d user name ext in
      let inside = lt_of_get_elem? d.dir j at in
      elim (Option-cases x.highest) [
        | inl nothing ↦ absurd ((rw nothing at best.0) j e inside at y)
        | inr ((n, hi), found) ↦ elim (Option-cases x.lowest) [
          | inl nothing ↦ absurd ((rw nothing at best.1).1 j e inside at y)
          | inr (lo, least) ↦
              let ((highest, at_hi, passes', number), most) = rw found at best.0 in
              let ((lowest, at_lo, passes, number'), fewest) = rw least at best.1 in
              let filled = fill_inode clock d i n highest lo lowest ext s in
              (filled.0, filled.1, rw (found, least, at_hi, at_lo, namei_file) refl)
        ]
      ]

  -- The name of a file in a directory goes to the search.
  namei-file :
      (dir : Inode) (filename : List ℕ) (i : Inode) (s : S) {user : ℕ} {name ext : List ℕ}
      → is_dir dir.mode ≡ true
      → split_filename filename d.type ≡ some (user, name, ext)
      → namei clock d dir filename i s ≡ namei_file clock d user name ext i s
  unfolding namei split_filename
  namei-file dir filename i s y split =
      let dot = not_reserved filename (b'.' ∷ []) d.type split refl in
      let dots = not_reserved filename (b'.' ∷ b'.' ∷ []) d.type split refl in
      let passwd = not_reserved filename passwd_name d.type split refl in
      let label = not_reserved filename label_name d.type split refl in
      rw (y, dot, dots, passwd, label, split, namei) refl

-- What `cpmNamei` returns for the name of a file is an inode of that file: it has the index and the
-- attributes of the entry with the lowest extent number, and the size that the entry with the highest
-- one gives.
pub namei-IsFound :
    {S : Type 0} (clock : Clock S) (d : Drive) (dir : Inode) (filename : List ℕ) (i : Inode) (s : S)
    {user : ℕ} {name ext : List ℕ} {r : Inode} {s' : S}
    → split_filename filename d.type ≡ some (user, name, ext)
    → namei clock d dir filename i s ≡ (ok r, s')
    → IsFound d user name ext r
unfolding namei
namei-IsFound clock d dir filename i s {user} {name} {ext} split h =
    elim (Bool-cases (is_dir dir.mode)) [
      | inr other ↦ absurd (failed clock d (rw (other, namei) at h))
      | inl y ↦
          namei_file-IsFound clock d user name ext i s
            (sym (namei-file clock d dir filename i s y split) ∙ h)
    ]

-- `cpmNamei` finds each file that has an entry in the directory, by its name: the inode has the
-- index and the attributes of the entry of the file with the lowest extent number, and the size
-- that the entry of the file with the highest gives, which is in the directory too.
pub namei_finds :
    {S : Type 0} (clock : Clock S) (d : Drive) (dir : Inode) (filename : List ℕ) (i : Inode) (s : S)
    {user : ℕ} {name ext : List ℕ} (j : ℕ) (e : Entry)
    → is_dir dir.mode ≡ true
    → split_filename filename d.type ≡ some (user, name, ext)
    → get_elem? d.dir j ≡ some e
    → is_extent_of d user name ext none e ≡ true
    → (r : Inode) × (s' : S) × (namei clock d dir filename i s ≡ (ok r, s'))
      × IsFound d user name ext r
namei_finds clock d dir filename i s {user} {name} {ext} j e y split at passes =
    let (r, s', h) = namei_file_succeeds clock d user name ext i s j e at passes in
    let found = namei-file clock d dir filename i s y split ∙ h in
    (r, s', found, namei-IsFound clock d dir filename i s split found)
