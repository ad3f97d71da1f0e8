-- ===== src/Fsck/Checked.antt =====
-- fsck.cpm.c with repairs: what the checks of a file's entry, of an XFCB and of the label leave.
use cpmtools.Base.{
  ℕ, ◌-◌, ◌≡◌, refl, sym, ap, ◌∙◌, Bool, true, false, ◌&&◌, ◌||◌, List, [], ◌∷◌, map, Option, none,
  some, arith, inl, inr, Option-cases, Bool-cases, ltb, test_bit, if◌then◌else◌,
}
use mathlib.Core.Path.{subst}
use cpmtools.Entry.{Entry}
use cpmtools.Super.{Drive}
use cpmtools.Alv.{pointer_blocks}
use cpmtools.Fsck.Ask.{Case, ask, act, repair_each, ◌>>=◌, ◌and_then◌, remove}
use cpmtools.Fsck.Fields.{
  bad_chars, clear_lrc, check_name, check_ext, check_extnol, check_extnoh, check_lrc, is_bad_block,
  wide, check_blocks, records_min, records_max, is_bad_count, check_records, check_file,
}
use cpmtools.Fsck.Special.{
  set_password, is_bad_password, is_bad_label, clear_access, clear_creation, check_exclusive,
  is_bad_label_password, check_label_password, check_label, is_bad_xfcb_password,
  check_xfcb_password, check_xfcb,
}
use cpmtools.Fsck.Phases.{Sort, file, label, xfcb, sort_of}
use cpmtools.Fsck.Reported.{any_bad}
use cpmtools.Fsck.Post.{Post, repair_each-repairs, each-Post, remove-Post, then-Post}

-- the entries with `P` that a check finds nothing bad in
abbrev pub And : (Entry → Type 0) → (Entry → List Bool) → Entry → Type 0
And P tests e = P e × (any_bad (tests e) ≡ false)

abbrev pub name_tests : Entry → List Bool
name_tests e = bad_chars false e.name

abbrev pub ext_tests : Entry → List Bool
ext_tests e = bad_chars true e.ext

abbrev pub low_tests : Entry → List Bool
low_tests e = ltb 0x1f e.extnol ∷ []

abbrev pub high_tests : Entry → List Bool
high_tests e = ltb 0x3f e.extnoh ∷ []

abbrev pub lrc_tests : Entry → List Bool
lrc_tests e = ltb 128 e.lrc ∷ []

abbrev pub block_tests : Drive → Entry → List Bool
block_tests d e = map (is_bad_block d) (pointer_blocks (wide d) e.pointers)

abbrev pub count_tests : Drive → Entry → List Bool
count_tests d e = is_bad_count d e ∷ []

records-Post :
    (P : Entry → Type 0) (norepair : Bool) (d : Drive)
    → Post P (And P (count_tests d)) (check_records norepair d)
unfolding check_records
records-Post P norepair d c c' h fine =
    let go = repair_each norepair remove (count_tests d c.entry) c in
    elim (Bool-cases (ltb (records_min d c.entry) (records_max d c.entry))) [
      | inl holds ↦
          let run : go ≡ some c' = sym (ap (λ t. if t then go else none) holds) ∙ h in
          remove-Post P norepair (count_tests d) c c' run fine
      | inr fails ↦
          let stop : Option.none ≡ some c' = sym (ap (λ t. if t then go else none) fails) ∙ h in
          absurd (ground (arith, stop))
    ]

-- The password that the repair sets is printable.
set_password-printable : (e : Entry) → is_bad_password (set_password e) ≡ false
unfolding is_bad_password
set_password-printable e = refl

and_false : (b : Bool) → ((b && false) || false) ≡ false
and_false true = refl
and_false false = refl

clear_bit : (x : ℕ) → test_bit x 6 ≡ true → test_bit (x - 0x40) 6 ≡ false
unfolding test_bit
clear_bit x h = ground arith

clear_bit4 : (x : ℕ) → test_bit x 4 ≡ true → test_bit (x - 0x10) 4 ≡ false
unfolding test_bit
clear_bit4 x h = ground arith

-- After either answer the two bits of the label byte do not exclude each other any more.
clear_access-mends :
    (d : Drive) (e : Entry) → is_bad_label d e ≡ true → is_bad_label d (clear_access e) ≡ false
unfolding is_bad_label
clear_access-mends d e h = ground (arith, clear_bit e.extnol)

clear_creation-mends :
    (d : Drive) (e : Entry) → is_bad_label d e ≡ true → is_bad_label d (clear_creation e) ≡ false
unfolding is_bad_label
clear_creation-mends d e h = ground (arith, clear_bit4 e.extnol)

module _ (norepair : Bool) (d : Drive) where
  abbrev pub IsOf : Sort → Entry → Type 0
  IsOf s e = sort_of d e.status ≡ s

  abbrev pub Named : Sort → Entry → Type 0
  Named s = And (And (IsOf s) name_tests) ext_tests

  abbrev pub Numbered : Entry → Type 0
  Numbered = And (And (Named file) low_tests) high_tests

  Named-Post :
      (s : Sort) → Post (IsOf s) (Named s) (λ c. check_name norepair c >>= check_ext norepair)
  unfolding check_name check_ext
  Named-Post s =
      then-Post (IsOf s) (And (IsOf s) name_tests) (Named s) (check_name norepair)
        (check_ext norepair) (remove-Post (IsOf s) norepair name_tests)
        (remove-Post (And (IsOf s) name_tests) norepair ext_tests)

  abbrev named : Case → Option Case
  named c = check_name norepair c >>= check_ext norepair

  abbrev numbered : Case → Option Case
  numbered c = named c >>= check_extnol norepair >>= check_extnoh norepair

  numbered-Post : Post (IsOf file) Numbered numbered
  unfolding check_extnol check_extnoh
  numbered-Post =
      let low = And (Named file) low_tests in
      then-Post (IsOf file) low Numbered (λ c. named c >>= check_extnol norepair)
        (check_extnoh norepair)
        (then-Post (IsOf file) (Named file) low named (check_extnol norepair) (Named-Post file)
          (remove-Post (Named file) norepair low_tests))
        (remove-Post low norepair high_tests)

  abbrev pub Counted : Entry → Type 0
  Counted = And (And (And Numbered lrc_tests) (block_tests d)) (count_tests d)

  lrc-Post : Post Numbered (And Numbered lrc_tests) (check_lrc norepair)
  unfolding check_lrc
  lrc-Post = each-Post Numbered norepair clear_lrc lrc_tests (λ e p. inr (p, refl))

  pub check_file-Post : Post (IsOf file) Counted (check_file norepair d)
  unfolding check_file check_blocks
  check_file-Post =
      let sized = And Numbered lrc_tests in
      let blocked = And sized (block_tests d) in
      let lrc = λ (c : Case). numbered c >>= check_lrc norepair in
      let blocks = λ (c : Case). lrc c >>= check_blocks norepair d in
      then-Post (IsOf file) blocked Counted blocks (check_records norepair d)
        (then-Post (IsOf file) sized blocked lrc (check_blocks norepair d)
          (then-Post (IsOf file) Numbered sized numbered (check_lrc norepair) numbered-Post
            lrc-Post)
          (remove-Post sized norepair (block_tests d)))
        (records-Post blocked norepair d)

  abbrev pub xfcb_tests : Entry → List Bool
  xfcb_tests e = is_bad_xfcb_password e ∷ []

  abbrev pub label_tests : Entry → List Bool
  label_tests e = is_bad_label_password e ∷ []

  xfcb_password-mended : (e : Entry) → any_bad (xfcb_tests (set_password e)) ≡ false
  unfolding is_bad_xfcb_password
  xfcb_password-mended e =
      let asked = test_bit e.extnol 7 || test_bit e.extnol 6 || test_bit e.extnol 5 in
      ap (λ t. (asked && t) || false) (set_password-printable e) ∙ and_false asked

  label_password-mended : (e : Entry) → any_bad (label_tests (set_password e)) ≡ false
  unfolding is_bad_label_password
  label_password-mended e =
      ap (λ t. (test_bit e.extnol 7 && t) || false) (set_password-printable e)
      ∙ and_false (test_bit e.extnol 7)

  pub check_xfcb-Post : Post (IsOf xfcb) (And (Named xfcb) xfcb_tests) (check_xfcb norepair)
  unfolding check_xfcb check_xfcb_password
  check_xfcb-Post =
      then-Post (IsOf xfcb) (Named xfcb) (And (Named xfcb) xfcb_tests) named
        (check_xfcb_password norepair) (Named-Post xfcb)
        (each-Post (Named xfcb) norepair set_password xfcb_tests
          (λ e p. inr (p, xfcb_password-mended e)))

  -- the questions about the label byte
  abbrev pub Labelled : Entry → Type 0
  Labelled e = IsOf label e × (is_bad_label d e ≡ false)

  check_exclusive_post :
      (c c' : Case)
      → check_exclusive norepair d c ≡ some c'
      → c'.broken ≡ false
      → (c.broken ≡ false) × (IsOf label c.entry → Labelled c'.entry)
  unfolding check_exclusive
  check_exclusive_post c c' h fine = elim (Bool-cases (is_bad_label d c.entry)) [
    | inl conflict ↦ elim (Option-cases (ask norepair c.input)) [
      | inl over ↦ absurd (ground arith)
      | inr ((true, rest), e) ↦
          let same : c' ≡ act clear_access c true rest = ground (arith, act) in
          (
            sym (ap (λ k. k.broken) same) ∙ fine,
            λ p.
                subst (λ k. Labelled k.entry) (sym same) (p, clear_access-mends d c.entry conflict),
          )
      | inr ((false, rest), e) ↦
          let again : Case = record c { input = rest } in
          let onward : repair_each norepair clear_creation (true ∷ []) again ≡ some c' =
            ground arith in
          let (before, after) =
            repair_each-repairs norepair clear_creation (true ∷ []) again c' onward fine in
          (
            before,
            λ p. elim after [
              | inl (_, wrong) ↦ absurd (ground arith)
              | inr mended ↦
                  subst Labelled (sym mended) (p, clear_creation-mends d c.entry conflict)
            ],
          )
    ]
    | inr good ↦
        let same : c' ≡ c = ground arith in
        (
          sym (ap (λ k. k.broken) same) ∙ fine,
          λ p. subst (λ k. Labelled k.entry) (sym same) (p, good),
        )
  ]

  pub check_label-Post : Post (IsOf label) (And Labelled label_tests) (check_label norepair d)
  unfolding check_label check_label_password is_bad_label
  check_label-Post c c' h fine = elim (Option-cases (check_exclusive norepair d c)) [
    | inl over ↦ absurd (ground arith)
    | inr (c1, e) ↦
        let onward : repair_each norepair set_password (label_tests c1.entry) c1 ≡ some c' =
          sym (ap (λ o. o and_then check_label_password norepair) e) ∙ h in
        let step =
          each-Post Labelled norepair set_password label_tests
            (λ e p. inr (p, label_password-mended e)) in
        let (between, after) = step c1 c' onward fine in
        let (before, good) = check_exclusive_post c c1 e between in (before, λ p. after (good p))
  ]
