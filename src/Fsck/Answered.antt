-- ===== src/Fsck/Answered.antt =====
-- fsck.cpm.c with a yes to every question: phase 1 comes to its end and never sets the bit BROKEN.
-- The checks of one entry ask at most seven questions.
use cpmtools.Base.{
  ℕ, zero, suc, ◌+◌, ◌*◌, ◌≤◌, ◌<◌, ◌≡◌, refl, ap, ◌∙◌, Bool, true, false, List, [], ◌∷◌, map,
  Option, none, some, arith, inl, inr, Bool-cases, ◌==◌, ltb, lt→ltb, if◌then◌else◌, length,
  replicate,
}
use cpmtools.Entry.{Entry}
use cpmtools.Super.{Drive}
use cpmtools.Alv.{pointer_blocks}
use cpmtools.Dir.{unused}
use cpmtools.Fsck.Ask.{Case, ask, act, repair_each, ◌>>=◌, ◌and_then◌, remove}
use cpmtools.Fsck.Fields.{
  bad_chars, clear_lrc, check_name, check_ext, check_extnol, check_extnoh, check_lrc, is_bad_block,
  wide, check_blocks, records_min, records_max, is_bad_count, check_records, check_file,
}
use cpmtools.Fsck.Special.{
  set_password, is_bad_label, clear_access, check_exclusive, is_bad_label_password,
  check_label_password, check_label, is_bad_xfcb_password, check_xfcb_password, check_xfcb,
}
use cpmtools.Fsck.Phases.{
  Sort, file, stamps, label, xfcb, free, bad, sort_of, check_as, check_entry, check_entries,
  Outcome, with_entry,
}
use cpmtools.Fsck.Runs.{case_of, onward}
use cpmtools.Fsck.Reported.{records_min-lt-records_max}

abbrev pub yeses : ℕ → List ℕ
yeses n = replicate n b'Y'

ask_yes : (input : List ℕ) (k : ℕ) → input ≡ yeses (suc k) → ask false input ≡ some (true, yeses k)
unfolding ask
ask_yes input k e = ap (ask false) e

-- A step that asks at most `cost` questions, all answered by yes, comes to its end and leaves the
-- bit BROKEN as it was.
record Ends (cost k : ℕ) (c : Case) (m : Option Case) : Type 0 where
  after : Case
  left : ℕ
  runs : m ≡ some after
  input : after.input ≡ yeses left
  enough : k ≤ left + cost
  broken : after.broken ≡ c.broken

abbrev Yes : ℕ → (Case → Option Case) → Type 0
Yes cost step = (c : Case) (k : ℕ) → c.input ≡ yeses k → cost ≤ k → Ends cost k c (step c)

each-Yes : (repair : Entry → Entry) (tests : List Bool) → Yes 1 (repair_each false repair tests)
unfolding repair_each act
each-Yes repair [] c k e h = record {
  after = c;
  left = k;
  runs = refl;
  input = e;
  enough = omega arith;
  broken = refl;
}
each-Yes repair (false ∷ tests) c k e h = each-Yes repair tests c k e h
each-Yes repair (true ∷ tests) c zero e h = absurd (omega arith)
each-Yes repair (true ∷ tests) c (suc k) e h = record {
  after = act repair c true (yeses k);
  left = k;
  runs = ground (arith, ask_yes c.input k e);
  input = refl;
  enough = omega arith;
  broken = refl;
}

same-Yes : Yes 0 (λ c. some c)
same-Yes c k e h = record {
  after = c;
  left = k;
  runs = refl;
  input = e;
  enough = omega arith;
  broken = refl;
}

then-Yes :
    (a b : ℕ) (first second : Case → Option Case)
    → Yes a first
    → Yes b second
    → Yes (a + b) (λ c. first c >>= second)
then-Yes a b first second f s c k e h =
    let r = f c k e (omega arith) in
    elim (Bool-cases (r.after.entry.status == unused)) [
      | inl removed ↦ record {
        after = r.after;
        left = r.left;
        runs = ground (arith, r.runs);
        input = r.input;
        enough = omega (arith, r.enough);
        broken = r.broken;
      }
      | inr used ↦
          let q = s r.after r.left r.input (omega (arith, r.enough)) in
          record {
            after = q.after;
            left = q.left;
            runs = ground (arith, r.runs, q.runs);
            input = q.input;
            enough = omega (arith, r.enough, q.enough);
            broken = q.broken ∙ r.broken;
          }
    ]

at_most : (a b : ℕ) (step : Case → Option Case) → a ≤ b → Yes a step → Yes b step
at_most a b step le s c k e h =
    let r = s c k e (omega arith) in
    record {
      after = r.after;
      left = r.left;
      runs = r.runs;
      input = r.input;
      enough = omega (arith, r.enough);
      broken = r.broken;
    }

module _ (d : Drive) (some_extents : 0 < d.extents) (few : d.extents ≤ 16) where
  name-Yes : Yes 1 (check_name false)
  unfolding check_name
  name-Yes c = each-Yes remove (bad_chars false c.entry.name) c

  ext-Yes : Yes 1 (check_ext false)
  unfolding check_ext
  ext-Yes c = each-Yes remove (bad_chars true c.entry.ext) c

  extnol-Yes : Yes 1 (check_extnol false)
  unfolding check_extnol
  extnol-Yes c = each-Yes remove (ltb 0x1f c.entry.extnol ∷ []) c

  extnoh-Yes : Yes 1 (check_extnoh false)
  unfolding check_extnoh
  extnoh-Yes c = each-Yes remove (ltb 0x3f c.entry.extnoh ∷ []) c

  lrc-Yes : Yes 1 (check_lrc false)
  unfolding check_lrc
  lrc-Yes c = each-Yes clear_lrc (ltb 128 c.entry.lrc ∷ []) c

  blocks-Yes : Yes 1 (check_blocks false d)
  unfolding check_blocks
  blocks-Yes c = each-Yes remove (map (is_bad_block d) (pointer_blocks (wide d) c.entry.pointers)) c

  records-Yes : Yes 1 (check_records false d)
  unfolding check_records
  records-Yes c k e h =
      let go = repair_each false remove (is_bad_count d c.entry ∷ []) c in
      let holds =
        ap (λ t. if t then go else none)
          (lt→ltb (records_min d c.entry) (records_max d c.entry)
            (records_min-lt-records_max d c.entry some_extents few)) in
      let r = each-Yes remove (is_bad_count d c.entry ∷ []) c k e h in
      record {
        after = r.after;
        left = r.left;
        runs = holds ∙ r.runs;
        input = r.input;
        enough = r.enough;
        broken = r.broken;
      }

  file-Yes : Yes 7 (check_file false d)
  unfolding check_file
  file-Yes =
      let ext = λ (c : Case). check_name false c >>= check_ext false in
      let low = λ (c : Case). ext c >>= check_extnol false in
      let high = λ (c : Case). low c >>= check_extnoh false in
      let lrc = λ (c : Case). high c >>= check_lrc false in
      let blocks = λ (c : Case). lrc c >>= check_blocks false d in
      then-Yes 6 1 blocks (check_records false d)
        (then-Yes 5 1 lrc (check_blocks false d)
          (then-Yes 4 1 high (check_lrc false)
            (then-Yes 3 1 low (check_extnoh false)
              (then-Yes 2 1 ext (check_extnol false)
                (then-Yes 1 1 (check_name false) (check_ext false) name-Yes ext-Yes) extnol-Yes)
              extnoh-Yes)
            lrc-Yes)
          blocks-Yes)
        records-Yes

  xfcb-Yes : Yes 3 (check_xfcb false)
  unfolding check_xfcb check_xfcb_password
  xfcb-Yes =
      then-Yes 2 1 (λ c. check_name false c >>= check_ext false) (check_xfcb_password false)
        (then-Yes 1 1 (check_name false) (check_ext false) name-Yes ext-Yes)
        (λ c. each-Yes set_password (is_bad_xfcb_password c.entry ∷ []) c)

  exclusive-Yes : Yes 1 (check_exclusive false d)
  unfolding check_exclusive
  exclusive-Yes c zero e h = absurd (omega arith)
  exclusive-Yes c (suc k) e h = elim (Bool-cases (is_bad_label d c.entry)) [
    | inl conflict ↦ record {
      after = act clear_access c true (yeses k);
      left = k;
      runs = ground (arith, ask_yes c.input k e);
      input = ap (λ _. yeses k) e;
      enough = omega arith;
      broken = ap (λ _. c.broken) e;
    }
    | inr good ↦ record {
      after = c;
      left = suc k;
      runs = ground arith;
      input = e;
      enough = omega arith;
      broken = refl;
    }
  ]

  label-Yes : Yes 2 (check_label false d)
  unfolding check_label check_label_password
  label-Yes c k e h =
      let r = exclusive-Yes c k e (omega arith) in
      let q =
        each-Yes set_password (is_bad_label_password r.after.entry ∷ []) r.after r.left r.input
          (omega (arith, r.enough)) in
      record {
        after = q.after;
        left = q.left;
        runs = ap (λ o. o and_then check_label_password false) r.runs ∙ q.runs;
        input = q.input;
        enough = omega (arith, r.enough, q.enough);
        broken = q.broken ∙ r.broken;
      }

  as-Yes : (s : Sort) → Yes 7 (check_as s false d)
  unfolding check_as
  as-Yes file = file-Yes
  as-Yes stamps = at_most 0 7 (λ c. some c) (omega arith) same-Yes
  as-Yes label = at_most 2 7 (check_label false d) (omega arith) label-Yes
  as-Yes xfcb = at_most 3 7 (check_xfcb false) (omega arith) xfcb-Yes
  as-Yes free = at_most 0 7 (λ c. some c) (omega arith) same-Yes
  as-Yes bad =
      at_most 1 7 (repair_each false remove (true ∷ [])) (omega arith) (each-Yes remove (true ∷ []))

  entry-Yes : Yes 7 (check_entry false d)
  unfolding check_entry
  entry-Yes c = as-Yes (sort_of d c.entry.status) c

  -- With seven yeses for each entry, phase 1 comes to its end with BROKEN as it was.
  pub check_entries_yes :
      (es : List Entry) (input : List ℕ) (modified broken : Bool) (k : ℕ)
      → input ≡ yeses k
      → 7 * length es ≤ k
      → (o : Outcome) × (check_entries false d es input modified broken ≡ some o)
        × (o.broken ≡ broken)
  unfolding check_entries
  check_entries_yes [] input modified broken k e h =
      (record { dir = []; input = input; modified = modified; broken = broken }, refl, refl)
  check_entries_yes (x ∷ xs) input modified broken k e h =
      let r = entry-Yes (case_of x input modified broken) k e (omega arith) in
      let c = r.after in
      let (o, rest, fine) =
        check_entries_yes xs c.input c.modified c.broken r.left r.input (omega (arith, r.enough)) in
      (
        record o { dir = c.entry ∷ o.dir },
        ap (onward false d xs) r.runs ∙ ap (with_entry c.entry) rest,
        fine ∙ r.broken,
      )
