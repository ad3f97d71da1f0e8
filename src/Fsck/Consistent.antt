-- ===== src/Fsck/Consistent.antt =====
-- What fsck.cpm.c asks of a directory, said without its loops and questions.
use cpmtools.Base.{
  ℕ, ◌+◌, ◌-◌, ◌*◌, ◌/◌, ◌%◌, ◌≤◌, ◌<◌, ◌≡◌, ◌≢◌, ◌↔◌, refl, sym, Bool, true, false, not, ◌||◌,
  List, [], ◌∷◌, map, arith, ◌⊎◌, inl, inr, ◌&&◌, leb, Bool-cases, ltb, ◌==◌, take, test_bit, All,
}
use mathlib.Core.Path.{subst}
use cpmtools.Entry.{Entry, is_file_char}
use cpmtools.Super.{Drive, has_flag, has_xfcbs}
use cpmtools.Dir.{unused}
use cpmtools.Alv.{pointer_blocks}
use cpmtools.Fsck.Fields.{
  is_bad_char, bad_chars, is_bad_block, wide, count_used, records_min, records_max, is_bad_count,
}
use cpmtools.Fsck.Special.{
  p2dos, mpm, dr3, pwd_check, is_bad_password, is_bad_label, is_bad_label_password,
  is_bad_xfcb_password,
}
use cpmtools.Fsck.Phases.{Sort, file, stamps, label, xfcb, free, bad, last_user, sort_of}
use cpmtools.Fsck.Reported.{any_bad, or_none, is_bad_name, is_bad_ext, has_bad_block, bad_as}
use cpmtools.Fsck.Connected.{
  HasNoShared, HasNoDuplicate, IsUser, user_leb, leb-IsUser, or_false_parts,
}
use cpmtools.Fsck.Counted.{in_use, share, count_used-share}

-- Characters that may stand in a name, none of them a small letter.
abbrev pub GoodChars : Bool → List ℕ → Type 0
GoodChars not_first [] = Unit
GoodChars not_first (c ∷ cs) =
    (is_file_char not_first (c % 128) ≡ true)
    × ((c % 128 < b'a') ⊎ (b'z' < c % 128))
    × GoodChars true cs

pub record IsGoodFile (d : Drive) (e : Entry) : Type 0 where
  pub name_chars : GoodChars false e.name
  pub ext_chars : GoodChars true e.ext
  pub low_bits : e.extnol ≤ 31
  pub high_bits : e.extnoh ≤ 63
  pub last_record : e.lrc ≤ 128
  pub blocks :
      All (λ b. b ≢ 0 → (d.dirblks ≤ b) × (b < d.size)) (pointer_blocks (ltb 256 d.size) e.pointers)
  pub records : (e.blkcnt * 128 + d.blksiz - 1) / d.blksiz ≡ in_use (share d e)

-- What is asked of an entry of each sort. Of time stamps nothing is: what
-- `bcdCheck` prints about them does not change the result. An entry of no sort is never good.
abbrev pub GoodAs : Sort → Drive → Entry → Type 0
GoodAs file d e = IsGoodFile d e
GoodAs stamps d e = Unit
GoodAs label d e =
    ((d.type ≡ dr3) → test_bit e.extnol 6 ≡ true → test_bit e.extnol 4 ≡ false)
    × (test_bit e.extnol 7 ≡ true → pwd_check (take 8 e.pointers) e.lrc ≡ true)
GoodAs xfcb d e =
    GoodChars false e.name
    × GoodChars true e.ext
    × (test_bit e.extnol 7 || test_bit e.extnol 6 || test_bit e.extnol 5 ≡ true
        → pwd_check (take 8 e.pointers) e.lrc ≡ true)
GoodAs free d e = Unit
GoodAs bad d e = ⊥

-- What a good entry is: one of five sorts, by its status and the type of the disk.
pub data IsGoodEntry (d : Drive) (e : Entry) : Type 0 where
  of_file : IsUser d e.status → GoodAs file d e → IsGoodEntry d e
  of_stamps : (d.type ≡ p2dos) ⊎ (d.type ≡ dr3) → e.status ≡ 0x21 → IsGoodEntry d e
  of_label : (d.type ≡ dr3) ⊎ (d.type ≡ mpm) → e.status ≡ 0x20 → GoodAs label d e → IsGoodEntry d e
  of_xfcb :
      has_flag d.type has_xfcbs ≡ true
      → ¬ IsUser d e.status
      → 16 ≤ e.status
      → e.status ≤ 31
      → GoodAs xfcb d e
      → IsGoodEntry d e
  of_nothing : e.status ≡ 0xe5 → IsGoodEntry d e

-- A directory whose entries are good, and that claims no block and no extent twice.
pub record IsConsistent (d : Drive) (dir : List Entry) : Type 0 where
  pub entries : All (IsGoodEntry d) dir
  pub no_shared : HasNoShared d dir
  pub no_duplicate : HasNoDuplicate d dir

type_cases :
    (t a b : ℕ) (r : Bool) → ((t == a || t == b) && r) ≡ true → ((t ≡ a) ⊎ (t ≡ b)) × (r ≡ true)
type_cases t a b r h = elim (Bool-cases (t == a)) [
  | inl y ↦ (inl (ground (arith, y)), ground (arith, h))
  | inr n ↦ (inr (ground (arith, n, h)), ground (arith, h))
]

module _ (d : Drive) (e : Entry) where
  sort_of-cases : GoodAs (sort_of d e.status) d e → IsGoodEntry d e
  unfolding sort_of
  sort_of-cases good = elim (Bool-cases (leb e.status (last_user d))) [
    | inl c ↦ of_file (leb-IsUser d e.status c) (rw (c, sort_of) at good)
    | inr c ↦ elim (Bool-cases ((d.type == p2dos || d.type == dr3) && e.status == 0x21)) [
      | inl c1 ↦
          of_stamps (type_cases d.type p2dos dr3 _ c1).0
            (ground (arith, (type_cases d.type p2dos dr3 _ c1).1))
      | inr c1 ↦ elim (Bool-cases ((d.type == dr3 || d.type == mpm) && e.status == 0x20)) [
        | inl c2 ↦
            of_label (type_cases d.type dr3 mpm _ c2).0
              (ground (arith, (type_cases d.type dr3 mpm _ c2).1)) (rw (c, c1, c2, sort_of) at good)
        | inr c2 ↦
            elim (Bool-cases (has_flag d.type has_xfcbs && leb 16 e.status && leb e.status 31)) [
              | inl c3 ↦
                  of_xfcb (ground (arith, c3)) (λ u. absurd (cc (user_leb d e.status u, c)))
                    (ground (arith, c3)) (ground (arith, c3)) (rw (c, c1, c2, c3, sort_of) at good)
              | inr c3 ↦ elim (Bool-cases (e.status == unused)) [
                | inl c4 ↦ of_nothing (ground arith)
                | inr c4 ↦ absurd (rw (c, c1, c2, c3, c4, sort_of) at good)
              ]
            ]
      ]
    ]
  ]

  -- The code takes an entry for the sort that it is.
  sort_of-GoodAs : IsGoodEntry d e → GoodAs (sort_of d e.status) d e
  unfolding sort_of last_user
  sort_of-GoodAs (of_file user good) =
      let sort : sort_of d e.status ≡ file = ground (arith, user_leb d e.status user) in
      subst (λ x. GoodAs x d e) (sym sort) good
  sort_of-GoodAs (of_stamps type status) =
      let sort : sort_of d e.status ≡ stamps = ground (arith, type, status) in
      subst (λ x. GoodAs x d e) (sym sort) tt
  sort_of-GoodAs (of_label type status good) =
      let sort : sort_of d e.status ≡ label = ground (arith, type, status) in
      subst (λ x. GoodAs x d e) (sym sort) good
  sort_of-GoodAs (of_xfcb flag other low high good) =
      let sort : sort_of d e.status ≡ xfcb = elim (Bool-cases (leb e.status (last_user d))) [
        | inl user ↦ absurd (other (leb-IsUser d e.status user))
        | inr c ↦ ground (arith, c, flag)
      ] in
      subst (λ x. GoodAs x d e) (sym sort) good
  sort_of-GoodAs (of_nothing status) =
      let sort : sort_of d e.status ≡ free = ground (arith, status) in
      subst (λ x. GoodAs x d e) (sym sort) tt

  pub entry_iff : GoodAs (sort_of d e.status) d e ↔ IsGoodEntry d e
  entry_iff = (sort_of-cases, sort_of-GoodAs)

chars_iff :
    (not_first : Bool) (cs : List ℕ)
    → (any_bad (bad_chars not_first cs) ≡ false) ↔ GoodChars not_first cs
unfolding bad_chars is_bad_char
chars_iff not_first [] = (λ _. tt, λ _. refl)
chars_iff not_first (c ∷ cs) =
    let rest = chars_iff true cs in (λ h. ground (arith, rest), λ h. ground (arith, rest))

blocks_iff :
    (d : Drive) (bs : List ℕ)
    → (any_bad (map (is_bad_block d) bs) ≡ false)
      ↔ All (λ b. b ≢ 0 → (d.dirblks ≤ b) × (b < d.size)) bs
blocks_iff d [] = (λ _. tt, λ _. refl)
blocks_iff d (b ∷ bs) =
    let rest = blocks_iff d bs in (λ h. ground (arith, rest), λ h. ground (arith, rest))

not_eq_iff : (a b : ℕ) → (not (a == b) ≡ false) ↔ (a ≡ b)
not_eq_iff a b = (λ h. ground arith, λ h. ground arith)

count_iff :
    (d : Drive) (e : Entry)
    → (is_bad_count d e ≡ false) ↔ ((e.blkcnt * 128 + d.blksiz - 1) / d.blksiz ≡ in_use (share d e))
unfolding is_bad_count
count_iff d e =
    let all = (e.blkcnt * 128 + d.blksiz - 1) / d.blksiz in
    subst (λ (n : ℕ). (is_bad_count d e ≡ false) ↔ (all ≡ n)) (count_used-share d e)
      (not_eq_iff all (count_used 16 (wide d) (records_min d e) (records_max d e) e.pointers))

pub file_iff : (d : Drive) (e : Entry) → (bad_as file d e ≡ false) ↔ IsGoodFile d e
unfolding bad_as
file_iff d e = (
  λ h.
      let (p, count) = or_false_parts _ (is_bad_count d e) h in
      let (p, block) = or_false_parts _ (has_bad_block d e) p in
      let (p, lrc) = or_false_parts _ (ltb 128 e.lrc) p in
      let (p, high) = or_false_parts _ (ltb 0x3f e.extnoh) p in
      let (p, low) = or_false_parts _ (ltb 0x1f e.extnol) p in
      let (name, ext) = or_false_parts (is_bad_name e) (is_bad_ext e) p in
      record {
        name_chars = (chars_iff false e.name).0 name;
        ext_chars = (chars_iff true e.ext).0 ext;
        low_bits = ground arith;
        high_bits = ground arith;
        last_record = ground arith;
        blocks = (blocks_iff d (pointer_blocks (wide d) e.pointers)).0 block;
        records = (count_iff d e).0 count;
      },
  λ good.
      or_none
        (or_none
          (or_none
            (or_none
              (or_none
                (or_none ((chars_iff false e.name).1 good.name_chars)
                  ((chars_iff true e.ext).1 good.ext_chars))
                (ground (arith, good.low_bits)))
              (ground (arith, good.high_bits)))
            (ground (arith, good.last_record)))
          ((blocks_iff d (pointer_blocks (wide d) e.pointers)).1 good.blocks))
        ((count_iff d e).1 good.records),
)

pub label_iff : (d : Drive) (e : Entry) → (bad_as label d e ≡ false) ↔ GoodAs label d e
unfolding bad_as is_bad_label is_bad_label_password is_bad_password
label_iff d e = (λ h. ground arith, λ h. ground arith)

pub xfcb_iff : (d : Drive) (e : Entry) → (bad_as xfcb d e ≡ false) ↔ GoodAs xfcb d e
unfolding bad_as is_bad_xfcb_password is_bad_password
xfcb_iff d e =
    let name = chars_iff false e.name in
    let ext = chars_iff true e.ext in
    (λ h. ground (arith, name, ext), λ h. ground (arith, name, ext))
