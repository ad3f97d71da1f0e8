-- ===== src/Create/Made.antt =====
-- `cpmCreat` of cpmfs.c makes the entry of the file that was named and leaves the other files alone.
use cpmtools.Base.{
  ℕ, ◌+◌, ◌≤◌, ◌<◌, ◌≡◌, ◌≢◌, ◌⊎◌, inl, inr, refl, sym, ap, ◌∙◌, true, false, List, arith, Option,
  none, some, Option-cases, Bool-cases, get_elem?, modify, get_elem?-modify_self,
  get_elem?-modify_ne,
}
use cpmtools.Entry.{Entry}
use cpmtools.Super.{Drive, Result, ok, err, Boo, user_limit}
use cpmtools.Inode.{Inode, regular}
use cpmtools.Name.{split_filename}
use cpmtools.Name.Split.{split_filename-IsField}
use cpmtools.Dir.{is_extent_of, find_file_extent, find_free_extent, unused}
use cpmtools.Dir.Match.{is_extent_of_iff}
use cpmtools.Dir.Find.{find_file_extent-none}
use cpmtools.File.{is_dir}
use cpmtools.Clock.{Clock}
use cpmtools.Create.{new_entry, make_xfcb, update_stamps, creat_at, creat}
use cpmtools.Create.Keeps.{find_free_extent-IsFirst, update_stamps_keeps, Made, make_xfcb-IsXfcb}

-- What a successful `cpmCreat` has gone through.
pub record IsCreated {S : Type 0} (clock : Clock S) (d : Drive) (user : ℕ) (name ext : List ℕ)
    (ino : Inode) (d' : Drive) : Type 0 where
  pub extent : ℕ
  xfcb : Option ℕ
  before : Drive
  pub fresh : find_file_extent d user name ext 0 none ≡ none
  pub free : find_free_extent d ≡ some extent
  made :
      make_xfcb
        (record d {
          dirty_directory = true;
          dir = modify d.dir extent (λ e. new_entry user name ext);
        })
        user
        name
        ext
      ≡ (ok xfcb, before)
  number : ino.ino ≡ extent
  own_xfcb : ino.xfcb ≡ xfcb
  stamped : d' ≡ update_stamps clock before ino extent

Made-cases :
    (m : Made)
    → ((xfcb : Option ℕ) × (d : Drive) × (m ≡ (ok xfcb, d)))
      ⊎ ((why : Boo) × (d : Drive) × (m ≡ (err why, d)))
Made-cases (ok xfcb, d) = inl (xfcb, d, refl)
Made-cases (err why, d) = inr (why, d, refl)

module _ {S : Type 0} (clock : Clock S) (d : Drive) where
  abbrev Outcome : Type 0
  Outcome = Result Inode × Drive × S

  pub failed :
      {why : Boo} {ino : Inode} {d1 d2 : Drive} {s1 s2 : S}
      → ¬ (◌≡◌ {A = Outcome} (err why, d1, s1) (ok ino, d2, s2))
  failed h = ground (arith, ap (λ r. r.0) h)

  creat_at-IsCreated :
      (user : ℕ) (name ext : List ℕ) (extent : ℕ) (i : Inode) (mode : ℕ) (s : S) {ino : Inode}
      {d' : Drive} {s' : S}
      → find_file_extent d user name ext 0 none ≡ none
      → find_free_extent d ≡ some extent
      → creat_at clock d user name ext extent i mode s ≡ (ok ino, d', s')
      → IsCreated clock d user name ext ino d'
  unfolding creat_at
  creat_at-IsCreated user name ext extent i mode s {ino} {d'} {s'} fresh free h =
      let d1 : Drive = record d {
        dirty_directory = true;
        dir = modify d.dir extent (λ e. new_entry user name ext);
      } in
      elim (Made-cases (make_xfcb d1 user name ext)) [
        | inr (why, d2, made) ↦ absurd (failed (rw (made, creat_at) at h))
        | inl (xfcb, d2, made) ↦
            let h' = rw (made, creat_at) at h in
            let own : Inode = record i {
              ino = extent;
              mode = record { kind = regular; bits = mode };
              size = 0;
              atime = (clock.time s).0;
              mtime = (clock.time (clock.time s).1).0;
              ctime = (clock.time (clock.time (clock.time s).1).1).0;
              xfcb = xfcb;
            } in
            let same : own ≡ ino = ap (λ r. elim r.0 [ ok x ↦ x | err why ↦ own ]) h' in
            record {
              extent = extent;
              xfcb = xfcb;
              before = d2;
              fresh = fresh;
              free = free;
              made = made;
              number = ap (λ x. x.ino) (sym same);
              own_xfcb = ap (λ x. x.xfcb) (sym same);
              stamped =
                  sym (ap (λ r. r.1) h')
                  ∙ ap (λ m. update_stamps clock m.1 own extent) made
                  ∙ ap (λ x. update_stamps clock d2 x extent) same;
            }
      ]

  pub creat-IsCreated :
      (dir : Inode) (fname : List ℕ) (i : Inode) (mode : ℕ) (s : S) {user : ℕ} {name ext : List ℕ}
      {ino : Inode} {d' : Drive} {s' : S}
      → split_filename fname d.type ≡ some (user, name, ext)
      → creat clock d dir fname i mode s ≡ (ok ino, d', s')
      → IsCreated clock d user name ext ino d'
  unfolding creat
  creat-IsCreated dir fname i mode s {user} {name} {ext} {ino} {d'} {s'} split h =
      elim (Bool-cases (is_dir dir.mode)) [
        | inr other ↦ absurd (failed (rw (other, creat) at h))
        | inl y ↦ elim (Option-cases (find_file_extent d user name ext 0 none)) [
          | inr (x, found) ↦ absurd (failed (rw (y, split, found, creat) at h))
          | inl fresh ↦ elim (Option-cases (find_free_extent d)) [
            | inl full ↦ absurd (failed (rw (y, split, fresh, full, creat) at h))
            | inr (extent, free) ↦
                creat_at-IsCreated user name ext extent i mode s fresh free
                  (rw (y, split, fresh, free, creat) at h)
          ]
        ]
      ]

user_number :
    (fname : List ℕ) (d : Drive) {user : ℕ} {name ext : List ℕ}
    → split_filename fname d.type ≡ some (user, name, ext)
    → (user ≤ user_limit d) × (user < 32)
unfolding user_limit
user_number fname d h =
    let low = (split_filename-IsField fname d.type h).0 in
    (ground (arith, low), ground (arith, low))

other_user :
    (d : Drive) (user : ℕ) (name ext : List ℕ)
    → is_extent_of d (user + 16) name ext none (new_entry user name ext) ≡ false
unfolding new_entry
other_user d user name ext =
    elim (Bool-cases (is_extent_of d (user + 16) name ext none (new_entry user name ext))) [
      | inr no_match ↦ no_match
      | inl match ↦ absurd (
          omega (
            arith,
            ((is_extent_of_iff d (user + 16) name ext (new_entry user name ext)).0 match).1,
          ))
    ]

-- After a successful `cpmCreat` the entry that the inode names is that of a new, empty file of the
-- name that was given, and the directory had no entry of that file before.
pub creat_makes :
    {S : Type 0} (clock : Clock S) (d : Drive) (dir : Inode) (fname : List ℕ) (i : Inode) (mode : ℕ)
    (s : S) {user : ℕ} {name ext : List ℕ} {ino : Inode} {d' : Drive} {s' : S}
    → split_filename fname d.type ≡ some (user, name, ext)
    → creat clock d dir fname i mode s ≡ (ok ino, d', s')
    → ((j : ℕ) (e : Entry)
        → get_elem? d.dir j ≡ some e
        → is_extent_of d user name ext none e ≡ false)
      × (get_elem? d'.dir ino.ino ≡ some (new_entry user name ext))
      × (is_extent_of d user name ext none (new_entry user name ext) ≡ true)
unfolding new_entry
creat_makes clock d dir fname i mode s {user} {name} {ext} {ino} {d'} split h =
    let c = creat-IsCreated clock d dir fname i mode s split h in
    let own = new_entry user name ext in
    let (allowed, low) = user_number fname d split in
    let d1 : Drive = record d {
      dirty_directory = true;
      dir = modify d.dir c.extent (λ e. new_entry user name ext);
    } in
    let first = find_free_extent-IsFirst d c.free in
    let other : is_extent_of d1 (user + 16) name ext none own ≡ false =
      other_user d1 user name ext in
    let x =
      make_xfcb-IsXfcb d1 user name ext c.extent own c.made
        (get_elem?-modify_self d.dir c.extent (λ e. new_entry user name ext) first.there)
        (omega arith) other in
    (
      λ j e at. find_file_extent-none d user name ext 0 none j e c.fresh (omega arith) at,
      ap (get_elem? d'.dir) c.number
          ∙ ap (λ y. get_elem? y.dir c.extent) c.stamped
          ∙ update_stamps_keeps clock c.before ino c.extent c.extent own x.still (omega arith)
              (λ q. x.other (sym c.own_xfcb ∙ q)),
      (is_extent_of_iff d user name ext own).1 (allowed, refl, refl, refl),
    )

-- A successful `cpmCreat` keeps, in its place, every entry that is in use and neither holds dates nor is
-- an XFCB of the new file.
pub creat_keeps :
    {S : Type 0} (clock : Clock S) (d : Drive) (dir : Inode) (fname : List ℕ) (i : Inode) (mode : ℕ)
    (s : S) {user : ℕ} {name ext : List ℕ} {ino : Inode} {d' : Drive} {s' : S} (j : ℕ) (e : Entry)
    → split_filename fname d.type ≡ some (user, name, ext)
    → creat clock d dir fname i mode s ≡ (ok ino, d', s')
    → get_elem? d.dir j ≡ some e
    → e.status ≢ unused
    → e.status ≢ 0x21
    → is_extent_of d (user + 16) name ext none e ≡ false
    → get_elem? d'.dir j ≡ some e
unfolding is_extent_of user_limit
creat_keeps clock d dir fname i mode s {user} {name} {ext} {ino} {d'} j e split h at used dated
      apart =
    let c = creat-IsCreated clock d dir fname i mode s split h in
    let first = find_free_extent-IsFirst d c.free in
    let differ : c.extent ≢ j = λ q.
      let own : e ≡ first.entry = cc (at, first.there, q) in
      used (ap (λ y. y.status) own ∙ ground (arith, first.passes)) in
    let x =
      make_xfcb-IsXfcb
        (record d {
          dirty_directory = true;
          dir = modify d.dir c.extent (λ y. new_entry user name ext);
        })
        user name ext j e c.made (get_elem?-modify_ne d.dir c.extent j _ differ ∙ at) used apart in
    ap (λ y. get_elem? y.dir j) c.stamped
    ∙ update_stamps_keeps clock c.before ino c.extent j e x.still dated
        (λ q. x.other (sym c.own_xfcb ∙ q))
