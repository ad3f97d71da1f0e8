-- ===== src/Create/Keeps.antt =====
-- src/cpmfs.c: what stamping a file and making its XFCB leave of the directory.
use cpmtools.Base.{
  ℕ, ◌+◌, ◌*◌, ◌/◌, ◌≡◌, ◌≢◌, inl, inr, sym, ap, ◌∙◌, Bool, false, not, List, arith, Option, none,
  some, Option-cases, Bool-cases, ◌==◌, if◌then◌else◌, get_elem?, modify, get_elem?-modify_ne,
}
use cpmtools.Entry.{Entry}
use cpmtools.Super.{Drive, Result, ok, err, Boo, has_flag, has_xfcbs, mpm_dates}
use cpmtools.Inode.{Inode}
use cpmtools.Dir.{is_extent_of, find_file_extent, find_free_extent, unused}
use cpmtools.Dir.Find.{IsFirst, find_from-some, find_file_extent-IsFirst}
use cpmtools.Clock.{Clock}
use cpmtools.Stamp.{is_reg, date_entry, stamp_offset, update_time_stamps, update_ds_stamps}
use cpmtools.Stamp.ReadBack.{date_entry-some}
use cpmtools.Create.{new_entry, new_xfcb, make_xfcb, update_stamps}

pub find_free_extent-IsFirst :
    (d : Drive) {i : ℕ} → find_free_extent d ≡ some i → IsFirst (λ e. e.status == unused) d.dir 0 i
unfolding find_free_extent
find_free_extent-IsFirst d h = find_from-some (λ e. e.status == unused) d.dir 0 h

dir-update_ds_stamps :
    {S : Type 0} (clock : Clock S) (d : Drive) (ino : Inode) (extent : ℕ)
    → (update_ds_stamps clock d ino extent).dir ≡ d.dir
unfolding update_ds_stamps
dir-update_ds_stamps clock d ino extent = ground arith

-- Stamping a file changes no entry but one of dates and the XFCB of the inode.
update_time_stamps_keeps :
    {S : Type 0} (clock : Clock S) (d : Drive) (ino : Inode) (extent j : ℕ) (e : Entry)
    → get_elem? d.dir j ≡ some e
    → e.status ≢ 0x21
    → ino.xfcb ≢ some j
    → get_elem? (update_time_stamps clock d ino extent).dir j ≡ some e
unfolding update_time_stamps
update_time_stamps_keeps clock d ino extent j e at dated own = elim (Bool-cases (is_reg ino.mode)) [
  | inr other ↦ rw (other, update_time_stamps) at
  | inl reg ↦ elim (Option-cases (date_entry d extent)) [
    | inr (date, found) ↦
        let r = date_entry-some d extent found in
        let apart : extent / 4 * 4 + 3 ≢ j = λ q.
          let same : date ≡ e = cc (r.there, q, at) in
          dated (ap (λ x. x.status) (sym same) ∙ r.marked) in
        elim (Option-cases (stamp_offset extent)) [
          | inl nothing ↦ rw (reg, found, nothing, update_time_stamps) at
          | inr (fld, place) ↦
              rw (reg, found, place, update_time_stamps)
                (get_elem?-modify_ne d.dir (extent / 4 * 4 + 3) j _ apart ∙ at)
        ]
    | inl nothing ↦ elim (Bool-cases (has_flag d.type mpm_dates)) [
      | inr without ↦ rw (reg, nothing, without, update_time_stamps) at
      | inl mpm ↦ elim (Option-cases ino.xfcb) [
        | inl no_xfcb ↦ rw (reg, nothing, mpm, no_xfcb, update_time_stamps) at
        | inr (x, xfcb) ↦
            rw (reg, nothing, mpm, xfcb, update_time_stamps)
              (get_elem?-modify_ne d.dir x j _ (λ q. own (xfcb ∙ ap some q)) ∙ at)
      ]
    ]
  ]
]

pub update_stamps_keeps :
    {S : Type 0} (clock : Clock S) (d : Drive) (ino : Inode) (extent j : ℕ) (e : Entry)
    → get_elem? d.dir j ≡ some e
    → e.status ≢ 0x21
    → ino.xfcb ≢ some j
    → get_elem? (update_stamps clock d ino extent).dir j ≡ some e
unfolding update_stamps
update_stamps_keeps clock d ino extent j e at dated own =
    ap (λ es. get_elem? es j)
      (dir-update_ds_stamps clock (update_time_stamps clock d ino extent) ino extent)
    ∙ update_time_stamps_keeps clock d ino extent j e at dated own

-- The XFCB of a new file is not an entry that holds something else.
pub record IsXfcb (d d' : Drive) (xfcb : Option ℕ) (j : ℕ) (e : Entry) : Type 0 where
  pub still : get_elem? d'.dir j ≡ some e
  pub other : xfcb ≢ some j

abbrev pub Made : Type 0
Made = Result (Option ℕ) × Drive

result_eq :
    {a b : Option ℕ} {d d' : Drive} → ◌≡◌ {A = Made} (ok a, d) (ok b, d') → (a ≡ b) × (d ≡ d')
result_eq {a} h = (ap (λ r. elim r.0 [ ok x ↦ x | err why ↦ a ]) h, ap (λ r. r.1) h)

no_result : {why : Boo} {b : Option ℕ} {d d' : Drive} → ¬ (◌≡◌ {A = Made} (err why, d) (ok b, d'))
no_result h = ground (arith, ap (λ r. r.0) h)

IsXfcb-made :
    (d d1 d' : Drive) (made xfcb : Option ℕ) (j : ℕ) (e : Entry)
    → get_elem? d1.dir j ≡ some e
    → made ≢ some j
    → ◌≡◌ {A = Made} (ok made, d1) (ok xfcb, d')
    → IsXfcb d d' xfcb j e
IsXfcb-made d d1 d' made xfcb j e at apart h =
    let (same, after) = result_eq h in
    record { still = ap (λ x. get_elem? x.dir j) (sym after) ∙ at; other = λ q. apart (same ∙ q) }

new_xfcb-IsXfcb :
    (d : Drive) (user : ℕ) (name ext : List ℕ) {xfcb : Option ℕ} {d' : Drive} (j : ℕ) (e : Entry)
    → new_xfcb d user name ext ≡ (ok xfcb, d')
    → get_elem? d.dir j ≡ some e
    → e.status ≢ unused
    → IsXfcb d d' xfcb j e
unfolding new_xfcb
new_xfcb-IsXfcb d user name ext {xfcb} {d'} j e h at used =
    elim (Option-cases (find_free_extent d)) [
      | inl full ↦ absurd (no_result (rw (full, new_xfcb) at h))
      | inr (x, free) ↦
          let first = find_free_extent-IsFirst d free in
          let differ : x ≢ j = λ q.
            let own : e ≡ first.entry = cc (at, first.there, q) in
            used (ap (λ y. y.status) own ∙ ground (arith, first.passes)) in
          IsXfcb-made d (record d { dir = modify d.dir x (λ y. new_entry (user + 16) name ext) }) d'
            (some x) xfcb j e (get_elem?-modify_ne d.dir x j _ differ ∙ at) (λ q. differ (cc q))
            (rw (free, new_xfcb) at h)
    ]

pub make_xfcb-IsXfcb :
    (d : Drive) (user : ℕ) (name ext : List ℕ) {xfcb : Option ℕ} {d' : Drive} (j : ℕ) (e : Entry)
    → make_xfcb d user name ext ≡ (ok xfcb, d')
    → get_elem? d.dir j ≡ some e
    → e.status ≢ unused
    → is_extent_of d (user + 16) name ext none e ≡ false
    → IsXfcb d d' xfcb j e
unfolding make_xfcb
make_xfcb-IsXfcb d user name ext {xfcb} {d'} j e h at used apart =
    elim (Bool-cases (has_flag d.type has_xfcbs)) [
      | inr without ↦ IsXfcb-made d d d' none xfcb j e at (λ q. cc q) (rw (without, make_xfcb) at h)
      | inl with_xfcbs ↦ elim (Option-cases (find_file_extent d (user + 16) name ext 0 none)) [
        | inr (x, found) ↦
            let first = find_file_extent-IsFirst d (user + 16) name ext 0 none found in
            IsXfcb-made d d d' (some x) xfcb j e at
              (λ q.
                let same : x ≡ j = cc q in
                let own : e ≡ first.entry = cc (at, first.there, same) in
                cc (apart, first.passes, own))
              (rw (with_xfcbs, found, make_xfcb) at h)
        | inl nothing ↦
            let choice : Bool → Made =
              λ b. if not b then (ok none, d) else new_xfcb d user name ext in
            let h' : choice d.cmakexfcbs ≡ (ok xfcb, d') =
              rw (with_xfcbs, nothing, make_xfcb) at h in
            elim (Bool-cases d.cmakexfcbs) [
              | inr not_made ↦
                  IsXfcb-made d d d' none xfcb j e at (λ q. cc q) (sym (ap choice not_made) ∙ h')
              | inl made ↦ new_xfcb-IsXfcb d user name ext j e (sym (ap choice made) ∙ h') at used
            ]
      ]
    ]
