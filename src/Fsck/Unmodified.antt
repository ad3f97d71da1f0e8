-- ===== src/Fsck/Unmodified.antt =====
-- fsck.cpm.c: the bit MODIFIED. Where it is not set, an entry is as it was.
use cpmtools.Base.{
  ℕ, ◌≡◌, sym, ap, ◌∙◌, Bool, true, false, List, [], ◌∷◌, map, Option, none, some, arith, inl, inr,
  Option-cases, Bool-cases, ◌==◌, ltb, if◌then◌else◌,
}
use cpmtools.Entry.{Entry}
use cpmtools.Super.{Drive}
use cpmtools.Alv.{pointer_blocks}
use cpmtools.Dir.{unused}
use cpmtools.Fsck.Ask.{Case, ask, act, repair_each, ◌>>=◌, ◌and_then◌, remove}
use cpmtools.Fsck.Fields.{
  bad_chars, clear_lrc, check_name, check_ext, check_extnol, check_extnoh, check_lrc, is_bad_block,
  wide, check_blocks, records_min, records_max, is_bad_count, check_records, check_file,
}
use cpmtools.Fsck.Special.{
  set_password, is_bad_label, clear_access, clear_creation, check_exclusive, is_bad_label_password,
  check_label_password, check_label, is_bad_xfcb_password, check_xfcb_password, check_xfcb,
}
use cpmtools.Fsck.Runs.{case_of, check_entries-cons, fsck-eq-some}
use cpmtools.Fsck.Phases.{
  Sort, file, stamps, label, xfcb, free, bad, sort_of, check_as, check_entry, check_entries,
  Outcome, fsck,
}

-- Where MODIFIED is not set after a step, it was not set before, and the entry is the same.
abbrev Keeps : (Case → Option Case) → Type 0
Keeps step =
    (c c' : Case)
    → step c ≡ some c'
    → c'.modified ≡ false
    → (c.modified ≡ false) × (c'.entry ≡ c.entry)

each-Keeps :
    (norepair : Bool) (repair : Entry → Entry) (tests : List Bool)
    → Keeps (repair_each norepair repair tests)
unfolding repair_each act
each-Keeps norepair repair [] c c' h kept =
    let same : c' ≡ c = cc in (sym (ap (λ k. k.modified) same) ∙ kept, ap (λ k. k.entry) same)
each-Keeps norepair repair (false ∷ tests) c c' h kept =
    each-Keeps norepair repair tests c c' h kept
each-Keeps norepair repair (true ∷ tests) c c' h kept = elim (Option-cases (ask norepair c.input)) [
  | inl over ↦ absurd (ground arith)
  | inr ((true, rest), e) ↦
      let same : c' ≡ act repair c true rest = ground arith in
      let wrong : true ≡ false = sym (ap (λ k. k.modified) same) ∙ kept in absurd (cc)
  | inr ((false, rest), e) ↦
      let onward : repair_each norepair repair tests (act repair c false rest) ≡ some c' =
        ground arith in
      each-Keeps norepair repair tests (act repair c false rest) c' onward kept
]

then-Keeps :
    (first second : Case → Option Case)
    → Keeps first
    → Keeps second
    → Keeps (λ c. first c >>= second)
then-Keeps first second f s c c' h kept = elim (Option-cases (first c)) [
  | inl over ↦ absurd (ground arith)
  | inr (c1, e) ↦ elim (Bool-cases (c1.entry.status == unused)) [
    | inl removed ↦
        let same : c' ≡ c1 = ground arith in
        let (before, entry) = f c c1 e (sym (ap (λ k. k.modified) same) ∙ kept) in
        (before, ap (λ k. k.entry) same ∙ entry)
    | inr used ↦
        let onward : second c1 ≡ some c' = ground arith in
        let (between, entry') = s c1 c' onward kept in
        let (before, entry) = f c c1 e between in (before, entry' ∙ entry)
  ]
]

same-Keeps : Keeps (λ c. some c)
same-Keeps c c' h kept =
    let same : c' ≡ c = cc in (sym (ap (λ k. k.modified) same) ∙ kept, ap (λ k. k.entry) same)

module _ (norepair : Bool) (d : Drive) where
  name-Keeps : Keeps (check_name norepair)
  unfolding check_name
  name-Keeps c = each-Keeps norepair remove (bad_chars false c.entry.name) c

  ext-Keeps : Keeps (check_ext norepair)
  unfolding check_ext
  ext-Keeps c = each-Keeps norepair remove (bad_chars true c.entry.ext) c

  extnol-Keeps : Keeps (check_extnol norepair)
  unfolding check_extnol
  extnol-Keeps c = each-Keeps norepair remove (ltb 0x1f c.entry.extnol ∷ []) c

  extnoh-Keeps : Keeps (check_extnoh norepair)
  unfolding check_extnoh
  extnoh-Keeps c = each-Keeps norepair remove (ltb 0x3f c.entry.extnoh ∷ []) c

  lrc-Keeps : Keeps (check_lrc norepair)
  unfolding check_lrc
  lrc-Keeps c = each-Keeps norepair clear_lrc (ltb 128 c.entry.lrc ∷ []) c

  blocks-Keeps : Keeps (check_blocks norepair d)
  unfolding check_blocks
  blocks-Keeps c =
      each-Keeps norepair remove (map (is_bad_block d) (pointer_blocks (wide d) c.entry.pointers)) c

  records-Keeps : Keeps (check_records norepair d)
  unfolding check_records
  records-Keeps c c' h kept =
      let go = repair_each norepair remove (is_bad_count d c.entry ∷ []) c in
      let split = λ (t : Bool). if t then go else none in
      elim (Bool-cases (ltb (records_min d c.entry) (records_max d c.entry))) [
        | inl holds ↦
            each-Keeps norepair remove (is_bad_count d c.entry ∷ []) c c' (sym (ap split holds) ∙ h)
              kept
        | inr fails ↦ let stop : Option.none ≡ some c' = sym (ap split fails) ∙ h in absurd (cc)
      ]

  file-Keeps : Keeps (check_file norepair d)
  unfolding check_file
  file-Keeps =
      let chain = then-Keeps in
      let ext = λ (c : Case). check_name norepair c >>= check_ext norepair in
      let low = λ (c : Case). ext c >>= check_extnol norepair in
      let high = λ (c : Case). low c >>= check_extnoh norepair in
      let lrc = λ (c : Case). high c >>= check_lrc norepair in
      let blocks = λ (c : Case). lrc c >>= check_blocks norepair d in
      chain blocks (check_records norepair d)
        (chain lrc (check_blocks norepair d)
          (chain high (check_lrc norepair)
            (chain low (check_extnoh norepair)
              (chain ext (check_extnol norepair)
                (chain (check_name norepair) (check_ext norepair) name-Keeps ext-Keeps)
                extnol-Keeps)
              extnoh-Keeps)
            lrc-Keeps)
          blocks-Keeps)
        records-Keeps

  xfcb-Keeps : Keeps (check_xfcb norepair)
  unfolding check_xfcb check_xfcb_password
  xfcb-Keeps =
      then-Keeps (λ c. check_name norepair c >>= check_ext norepair) (check_xfcb_password norepair)
        (then-Keeps (check_name norepair) (check_ext norepair) name-Keeps ext-Keeps)
        (λ c. each-Keeps norepair set_password (is_bad_xfcb_password c.entry ∷ []) c)

  exclusive-Keeps : Keeps (check_exclusive norepair d)
  unfolding check_exclusive
  exclusive-Keeps c c' h kept = elim (Bool-cases (is_bad_label d c.entry)) [
    | inl conflict ↦ elim (Option-cases (ask norepair c.input)) [
      | inl over ↦ absurd (ground arith)
      | inr ((true, rest), e) ↦
          let same : c' ≡ act clear_access c true rest = ground (arith, act) in
          let wrong : true ≡ false = sym (ap (λ k. k.modified) same) ∙ kept in absurd (cc)
      | inr ((false, rest), e) ↦
          let again : Case = record c { input = rest } in
          let onward : repair_each norepair clear_creation (true ∷ []) again ≡ some c' =
            ground arith in
          each-Keeps norepair clear_creation (true ∷ []) again c' onward kept
    ]
    | inr good ↦ let same : some c ≡ some c' = ground arith in same-Keeps c c' same kept
  ]

  label-Keeps : Keeps (check_label norepair d)
  unfolding check_label check_label_password
  label-Keeps c c' h kept = elim (Option-cases (check_exclusive norepair d c)) [
    | inl over ↦ absurd (ground arith)
    | inr (c1, e) ↦
        let onward = sym (ap (λ o. o and_then check_label_password norepair) e) ∙ h in
        let (between, entry') =
          each-Keeps norepair set_password (is_bad_label_password c1.entry ∷ []) c1 c' onward
            kept in
        let (before, entry) = exclusive-Keeps c c1 e between in (before, entry' ∙ entry)
  ]

  as-Keeps : (s : Sort) → Keeps (check_as s norepair d)
  unfolding check_as
  as-Keeps file = file-Keeps
  as-Keeps stamps = same-Keeps
  as-Keeps label = label-Keeps
  as-Keeps xfcb = xfcb-Keeps
  as-Keeps free = same-Keeps
  as-Keeps bad = each-Keeps norepair remove (true ∷ [])

  entry-Keeps : Keeps (check_entry norepair d)
  unfolding check_entry
  entry-Keeps c = as-Keeps (sort_of d c.entry.status) c

  entries-Keeps :
      (es : List Entry) (input : List ℕ) (modified broken : Bool) (o : Outcome)
      → check_entries norepair d es input modified broken ≡ some o
      → o.modified ≡ false
      → (modified ≡ false) × (o.dir ≡ es)
  unfolding check_entries
  entries-Keeps [] input modified broken o h kept =
      let left : Outcome = record {
        dir = [];
        input = input;
        modified = modified;
        broken = broken;
      } in
      let same : left ≡ o = cc in (ap (λ k. k.modified) same ∙ kept, sym (ap (λ k. k.dir) same))
  entries-Keeps (e ∷ es) input modified broken o h kept =
      let (c, o', first, rest, same) =
        check_entries-cons norepair d e es input modified broken o h in
      let (between, tail) =
        entries-Keeps es c.input c.modified c.broken o' rest (ap (λ k. k.modified) same ∙ kept) in
      let (before, head) = entry-Keeps (case_of e input modified broken) c first between in
      (before, sym (ap (λ k. k.dir) same) ∙ ap (λ t. c.entry ∷ t) tail ∙ ap (λ t. t ∷ es) head)

-- A run of fsck whose result does not have the bit MODIFIED leaves the directory as it was, so
-- nothing is lost when it is not written back.
pub fsck_unmodified :
    (norepair : Bool) (d : Drive) (input : List ℕ) (o : Outcome)
    → fsck norepair d input ≡ some o
    → o.modified ≡ false
    → o.dir ≡ d.dir
fsck_unmodified norepair d input o h kept =
    let (o', first, same) = fsck-eq-some norepair d input o h in
    let (_, dir) =
      entries-Keeps norepair d d.dir input false false o' first
        (ap (λ k. k.modified) same ∙ kept) in
    sym (ap (λ k. k.dir) same) ∙ dir
