-- ===== src/Fsck/Repaired.antt =====
-- fsck.cpm.c with repairs: an entry that leaves phase 1 without the bit BROKEN is one that phase 1
-- finds nothing bad in.
use cpmtools.Base.{
  ℕ, ◌≡◌, refl, sym, ap, ◌∙◌, Bool, true, false, List, [], ◌∷◌, map, Option, some, arith, inl, inr,
}
use mathlib.Core.Path.{subst}
use cpmtools.Entry.{Entry}
use cpmtools.Super.{Drive}
use cpmtools.Dir.{unused}
use cpmtools.Fsck.Ask.{Case, repair_each, remove}
use cpmtools.Fsck.Fields.{check_file}
use cpmtools.Fsck.Special.{check_label, check_xfcb}
use cpmtools.Fsck.Runs.{case_of, check_entries-cons}
use cpmtools.Fsck.Phases.{
  Sort, file, stamps, label, xfcb, free, bad, sort_of, check_as, check_entry, check_entries,
  Outcome,
}
use cpmtools.Fsck.Reported.{any_bad, or_none, bad_as, is_bad_entry, sort_of-unused}
use cpmtools.Fsck.Post.{Post, remove-Post}
use cpmtools.Fsck.Checked.{
  And, IsOf, Named, Counted, Labelled, xfcb_tests, label_tests, check_file-Post, check_xfcb-Post,
  check_label-Post,
}

module _ (norepair : Bool) (d : Drive) where
  abbrev IsGood : Entry → Type 0
  IsGood e = is_bad_entry d e ≡ false

  unused-IsGood : (e : Entry) → e.status ≡ unused → IsGood e
  unfolding bad_as
  unused-IsGood e removed = ap (λ s. bad_as s d e) (ap (sort_of d) removed ∙ sort_of-unused d)

  -- What a check leaves is good, removed or checked.
  IsGood-Post :
      (P Q : Entry → Type 0) (step : Case → Option Case)
      → Post P Q step
      → ((e : Entry) → Q e → IsGood e)
      → Post P IsGood step
  IsGood-Post P Q step post enough c c' h fine =
      let (before, after) = post c c' h fine in
      (
        before,
        λ p. inr (elim (after p) [
          | inl removed ↦ unused-IsGood c'.entry removed
          | inr q ↦ enough c'.entry q
        ]),
      )

  Counted-IsGood : (e : Entry) → Counted norepair d e → IsGood e
  unfolding bad_as
  Counted-IsGood e p = ap (λ s. bad_as s d e) p.0.0.0.0.0.0.0 ∙ ground arith

  xfcb-IsGood : (e : Entry) → And (Named norepair d xfcb) (xfcb_tests norepair d) e → IsGood e
  unfolding bad_as
  xfcb-IsGood e p = ap (λ s. bad_as s d e) p.0.0.0 ∙ ground arith

  label-IsGood : (e : Entry) → And (Labelled norepair d) (label_tests norepair d) e → IsGood e
  unfolding bad_as
  label-IsGood e p = ap (λ s. bad_as s d e) p.0.0 ∙ ground arith

  -- where nothing is checked
  same-Post : (s : Sort) → bad_as s d ≡ (λ _. false) → Post (IsOf norepair d s) IsGood (λ c. some c)
  same-Post s nothing c c' h fine =
      let same : c' ≡ c = cc in
      (
        sym (ap (λ k. k.broken) same) ∙ fine,
        λ p. inr (
            subst (λ k. IsGood k.entry) (sym same)
              (ap (λ t. bad_as t d c.entry) p ∙ ap (λ f. f c.entry) nothing)),
      )

  check_as-Post : (s : Sort) → Post (IsOf norepair d s) IsGood (check_as s norepair d)
  unfolding check_as bad_as
  check_as-Post file =
      IsGood-Post (IsOf norepair d file) (Counted norepair d) (check_file norepair d)
        (check_file-Post norepair d) Counted-IsGood
  check_as-Post stamps = same-Post stamps refl
  check_as-Post label =
      IsGood-Post (IsOf norepair d label) (And (Labelled norepair d) (label_tests norepair d))
        (check_label norepair d) (check_label-Post norepair d) label-IsGood
  check_as-Post xfcb =
      IsGood-Post (IsOf norepair d xfcb) (And (Named norepair d xfcb) (xfcb_tests norepair d))
        (check_xfcb norepair) (check_xfcb-Post norepair d) xfcb-IsGood
  check_as-Post free = same-Post free refl
  check_as-Post bad =
      let tests = λ (_ : Entry). true ∷ [] in
      IsGood-Post (IsOf norepair d bad) (And (IsOf norepair d bad) tests)
        (λ c. repair_each norepair remove (tests c.entry) c)
        (remove-Post (IsOf norepair d bad) norepair tests) (λ e p. absurd (ground arith))

  -- An entry that phase 1 leaves without the bit BROKEN is one that it finds nothing bad in.
  pub check_entry-repairs :
      (c c' : Case)
      → check_entry norepair d c ≡ some c'
      → c'.broken ≡ false
      → (c.broken ≡ false) × IsGood c'.entry
  unfolding check_entry
  check_entry-repairs c c' h fine =
      let (before, after) = check_as-Post (sort_of d c.entry.status) c c' h fine in
      (before, elim (after refl) [ inl removed ↦ unused-IsGood c'.entry removed | inr good ↦ good ])

  -- A directory that phase 1 leaves without the bit BROKEN has nothing bad in it.
  pub check_entries-repairs :
      (es : List Entry) (input : List ℕ) (modified broken : Bool) (o : Outcome)
      → check_entries norepair d es input modified broken ≡ some o
      → o.broken ≡ false
      → (broken ≡ false) × (any_bad (map (is_bad_entry d) o.dir) ≡ false)
  unfolding check_entries
  check_entries-repairs [] input modified broken o h fine =
      let left : Outcome = record {
        dir = [];
        input = input;
        modified = modified;
        broken = broken;
      } in
      let same : left ≡ o = cc in
      (ap (λ k. k.broken) same ∙ fine, sym (ap (λ k. any_bad (map (is_bad_entry d) k.dir)) same))
  check_entries-repairs (e ∷ es) input modified broken o h fine =
      let (c, o', first, rest, same) =
        check_entries-cons norepair d e es input modified broken o h in
      let (between, later) =
        check_entries-repairs es c.input c.modified c.broken o' rest
          (ap (λ k. k.broken) same ∙ fine) in
      let (before, good) = check_entry-repairs (case_of e input modified broken) c first between in
      (before, sym (ap (λ k. any_bad (map (is_bad_entry d) k.dir)) same) ∙ or_none good later)
