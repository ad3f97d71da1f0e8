-- ===== src/Fsck/Reported.antt =====
-- fsck.cpm.c without repairs: every check leaves the entry and the input alone, and sets the bit
-- BROKEN where it finds something bad.
use native.Mathlib.Nat.{le-div_iff_mul-le, div-mul-le_self}
use cpmtools.Base.{
  ℕ, suc, ◌*◌, ◌/◌, ◌%◌, ◌≤◌, ◌<◌, ◌≡◌, ◌≢◌, refl, sym, ap, ◌∙◌, Bool, true, false, ◌||◌, List, [],
  ◌∷◌, map, Option, none, some, arith, ◌==◌, ltb, if◌then◌else◌, lt→ltb, ==_iff, Bool-cases, inl,
  inr,
}
use cpmtools.Entry.{Entry}
use cpmtools.Super.{Drive}
use cpmtools.Alv.{pointer_blocks}
use cpmtools.Dir.{unused}
use cpmtools.Fsck.Ask.{Case, ask, act, repair_each, ◌>>=◌, ◌and_then◌, remove}
use cpmtools.Fsck.Fields.{
  bad_chars, clear_lrc, check_name, check_ext, check_extnol, check_extnoh, check_lrc, is_bad_block,
  wide, check_blocks, records_min, records_max, is_bad_count, check_records, check_file,
}
use cpmtools.Fsck.Special.{
  set_password, is_bad_label, check_exclusive, is_bad_label_password, check_label_password,
  check_label, is_bad_xfcb_password, check_xfcb_password, check_xfcb,
}
use cpmtools.Fsck.Phases.{
  Sort, file, stamps, label, xfcb, free, bad, last_user, sort_of, check_as, check_entry,
  check_entries, Outcome, with_entry,
}

abbrev pub any_bad : List Bool → Bool
any_bad [] = false
any_bad (b ∷ bs) = b || any_bad bs

abbrev pub flag : Bool → Case → Case
flag b c = record c { broken = c.broken || b }

or_assoc : (a b c : Bool) → ((a || b) || c) ≡ (a || (b || c))
or_assoc true b c = refl
or_assoc false b c = refl

or_true : (a : Bool) → (a || true) ≡ true
or_true true = refl
or_true false = refl

or_false : (a : Bool) → (a || false) ≡ a
or_false true = refl
or_false false = refl

pub or_none : {a b : Bool} → a ≡ false → b ≡ false → (a || b) ≡ false
or_none {a} {b} h k = ap (λ t. t || b) h ∙ k

pub repair_each-reports :
    (repair : Entry → Entry) (tests : List Bool) (c : Case)
    → repair_each true repair tests c ≡ some (flag (any_bad tests) c)
unfolding repair_each ask act
repair_each-reports repair [] c = ap (λ b. some (record c { broken = b })) (sym (or_false c.broken))
repair_each-reports repair (false ∷ tests) c = repair_each-reports repair tests c
repair_each-reports repair (true ∷ tests) c =
    repair_each-reports repair tests (record c { broken = true })
    ∙ ap (λ b. some (record c { broken = b })) (sym (or_true c.broken))

repair_one-reports :
    (repair : Entry → Entry) (b : Bool) (c : Case)
    → repair_each true repair (b ∷ []) c ≡ some (flag b c)
repair_one-reports repair b c =
    repair_each-reports repair (b ∷ []) c ∙ ap (λ t. some (flag t c)) (or_false b)

-- one more check, where the entry is in use
then_reports :
    {m : Option Case} (check : Case → Option Case) (b b' : Bool) (c : Case)
    → c.entry.status == unused ≡ false
    → m ≡ some (flag b c)
    → check (flag b c) ≡ some (flag b' (flag b c))
    → (m >>= check) ≡ some (flag (b || b') c)
then_reports {m} check b b' c used e f =
    ap (λ o. o >>= check) e
    ∙ ap (λ t. if t then some (flag b c) else check (flag b c)) used
    ∙ f
    ∙ ap (λ t. some (record c { broken = t })) (or_assoc c.broken b b')

-- What the checks of a file's entry find bad, in their order.
abbrev pub is_bad_name : Entry → Bool
is_bad_name e = any_bad (bad_chars false e.name)

abbrev pub is_bad_ext : Entry → Bool
is_bad_ext e = any_bad (bad_chars true e.ext)

abbrev pub has_bad_block : Drive → Entry → Bool
has_bad_block d e = any_bad (map (is_bad_block d) (pointer_blocks (wide d) e.pointers))

abbrev pub is_bad_file : Drive → Entry → Bool
is_bad_file d e =
    (((((is_bad_name e || is_bad_ext e) || ltb 0x1f e.extnol) || ltb 0x3f e.extnoh)
        || ltb 128 e.lrc)
      || has_bad_block d e)
    || is_bad_count d e

-- The assertion of the code holds.
pub records_min-lt-records_max :
    (d : Drive) (e : Entry) → 0 < d.extents → d.extents ≤ 16 → records_min d e < records_max d e
records_min-lt-records_max d e some_extents few =
    let a = e.extnol % d.extents * 16 in
    let low = div-mul-le_self a d.extents in
    (le-div_iff_mul-le {x = suc (a / d.extents)} some_extents).1 (grind arith)

-- What phase 1 finds bad in an entry.
unfoldable pub bad_as : Sort → Drive → Entry → Bool
bad_as file d e = is_bad_file d e
bad_as stamps d e = false
bad_as label d e = is_bad_label d e || is_bad_label_password e
bad_as xfcb d e = (is_bad_name e || is_bad_ext e) || is_bad_xfcb_password e
bad_as free d e = false
bad_as bad d e = true

abbrev pub is_bad_entry : Drive → Entry → Bool
is_bad_entry d e = bad_as (sort_of d e.status) d e

-- An unused entry is free whatever the type of the disk.
pub sort_of-unused : (d : Drive) → sort_of d unused ≡ free
unfolding sort_of last_user
sort_of-unused d = ground arith

sort-used :
    (d : Drive) (status : ℕ) {s : Sort} → sort_of d status ≡ s → s ≢ free → status == unused ≡ false
sort-used d status e used = elim (Bool-cases (status == unused)) [
  | inl same ↦
      let at : status ≡ unused = (==_iff status unused).0 same in
      absurd (used (sym e ∙ ap (sort_of d) at ∙ sort_of-unused d))
  | inr other ↦ other
]

module _ (d : Drive) (some_extents : 0 < d.extents) (few : d.extents ≤ 16) where
  check_records-reports :
      (c : Case) → check_records true d c ≡ some (flag (is_bad_count d c.entry) c)
  unfolding check_records
  check_records-reports c =
      let e = c.entry in
      let go = repair_each true remove (is_bad_count d e ∷ []) c in
      ap (λ t. if t then go else none)
        (lt→ltb (records_min d e) (records_max d e)
          (records_min-lt-records_max d e some_extents few))
      ∙ repair_one-reports remove (is_bad_count d e) c

  check_file-reports :
      (c : Case)
      → c.entry.status == unused ≡ false
      → check_file true d c ≡ some (flag (is_bad_file d c.entry) c)
  unfolding check_file check_name check_ext check_extnol check_extnoh check_lrc check_blocks
  check_file-reports c used =
      let e = c.entry in
      let s1 = repair_each-reports remove (bad_chars false e.name) c in
      let b1 = is_bad_name e in
      let s2 =
        then_reports (check_ext true) b1 (is_bad_ext e) c used s1
          (repair_each-reports remove (bad_chars true e.ext) (flag b1 c)) in
      let b2 = b1 || is_bad_ext e in
      let s3 =
        then_reports (check_extnol true) b2 (ltb 0x1f e.extnol) c used s2
          (repair_one-reports remove (ltb 0x1f e.extnol) (flag b2 c)) in
      let b3 = b2 || ltb 0x1f e.extnol in
      let s4 =
        then_reports (check_extnoh true) b3 (ltb 0x3f e.extnoh) c used s3
          (repair_one-reports remove (ltb 0x3f e.extnoh) (flag b3 c)) in
      let b4 = b3 || ltb 0x3f e.extnoh in
      let s5 =
        then_reports (check_lrc true) b4 (ltb 128 e.lrc) c used s4
          (repair_one-reports clear_lrc (ltb 128 e.lrc) (flag b4 c)) in
      let b5 = b4 || ltb 128 e.lrc in
      let tests = map (is_bad_block d) (pointer_blocks (wide d) e.pointers) in
      let s6 =
        then_reports (check_blocks true d) b5 (has_bad_block d e) c used s5
          (repair_each-reports remove tests (flag b5 c)) in
      let b6 = b5 || has_bad_block d e in
      then_reports (check_records true d) b6 (is_bad_count d e) c used s6
        (check_records-reports (flag b6 c))

  check_exclusive-reports :
      (c : Case) → check_exclusive true d c ≡ some (flag (is_bad_label d c.entry) c)
  unfolding check_exclusive ask
  check_exclusive-reports c =
      let branch = λ (t : Bool). if t then some (record c { broken = true }) else some c in
      let broken_by = λ (t : Bool). some (record c { broken = t }) in
      elim (Bool-cases (is_bad_label d c.entry)) [
        | inl conflict ↦
            ap branch conflict
            ∙ ap broken_by (sym (or_true c.broken))
            ∙ ap (λ t. some (flag t c)) (sym conflict)
        | inr fine ↦
            ap branch fine
            ∙ ap broken_by (sym (or_false c.broken))
            ∙ ap (λ t. some (flag t c)) (sym fine)
      ]

  check_label-reports :
      (c : Case)
      → check_label true d c
        ≡ some (flag (is_bad_label d c.entry || is_bad_label_password c.entry) c)
  unfolding check_label
  check_label-reports c =
      let b = is_bad_label d c.entry in
      ap (λ o. o and_then check_label_password true) (check_exclusive-reports c)
      ∙ repair_one-reports set_password (is_bad_label_password c.entry) (flag b c)
      ∙ ap (λ t. some (record c { broken = t }))
          (or_assoc c.broken b (is_bad_label_password c.entry))

  check_xfcb-reports :
      (c : Case)
      → c.entry.status == unused ≡ false
      → check_xfcb true c
        ≡ some
            (flag ((is_bad_name c.entry || is_bad_ext c.entry) || is_bad_xfcb_password c.entry) c)
  unfolding check_xfcb check_name check_ext check_xfcb_password
  check_xfcb-reports c used =
      let e = c.entry in
      let b1 = is_bad_name e in
      let s1 = repair_each-reports remove (bad_chars false e.name) c in
      let s2 =
        then_reports (check_ext true) b1 (is_bad_ext e) c used s1
          (repair_each-reports remove (bad_chars true e.ext) (flag b1 c)) in
      let b2 = b1 || is_bad_ext e in
      then_reports (check_xfcb_password true) b2 (is_bad_xfcb_password e) c used s2
        (repair_one-reports set_password (is_bad_xfcb_password e) (flag b2 c))

  check_as-reports :
      (s : Sort) (c : Case)
      → sort_of d c.entry.status ≡ s
      → check_as s true d c ≡ some (flag (bad_as s d c.entry) c)
  unfolding check_as bad_as
  check_as-reports file c e = check_file-reports c (sort-used d c.entry.status e (λ p. cc))
  check_as-reports stamps c e = ap (λ t. some (record c { broken = t })) (sym (or_false c.broken))
  check_as-reports label c e = check_label-reports c
  check_as-reports xfcb c e = check_xfcb-reports c (sort-used d c.entry.status e (λ p. cc))
  check_as-reports free c e = ap (λ t. some (record c { broken = t })) (sym (or_false c.broken))
  check_as-reports bad c e = repair_each-reports remove (true ∷ []) c

  -- Without repairs the check of an entry sets the bit BROKEN where it finds something bad, and
  -- changes nothing else.
  pub check_entry-reports :
      (c : Case)
      → check_entry true d c ≡ some (flag (bad_as (sort_of d c.entry.status) d c.entry) c)
  unfolding check_entry
  check_entry-reports c = check_as-reports (sort_of d c.entry.status) c refl

  -- Phase 1 without repairs goes through the whole directory and leaves it as it is.
  pub check_entries-reports :
      (es : List Entry) (input : List ℕ) (modified broken : Bool)
      → check_entries true d es input modified broken
        ≡ some (record {
          dir = es;
          input = input;
          modified = modified;
          broken = broken || any_bad (map (is_bad_entry d) es);
        })
  unfolding check_entries
  check_entries-reports [] input modified broken =
      ap (λ t. some (record { dir = []; input = input; modified = modified; broken = t }))
        (sym (or_false broken))
  check_entries-reports (e ∷ es) input modified broken =
      let c : Case = record { entry = e; input = input; modified = modified; broken = broken } in
      let b = is_bad_entry d e in
      let onward = λ (m : Option Case). elim m as (λ _. Option Outcome) [
        | none ↦ none
        | some c' ↦ with_entry c'.entry (check_entries true d es c'.input c'.modified c'.broken)
      ] in
      ap onward (check_entry-reports c)
      ∙ ap (with_entry e) (check_entries-reports es input modified (broken || b))
      ∙ ap (λ t. some (record { dir = e ∷ es; input = input; modified = modified; broken = t }))
          (or_assoc broken b (any_bad (map (is_bad_entry d) es)))
