-- ===== src/Fsck/Runs.antt =====
-- fsck.cpm.c: what a run that comes to its end went through.
use cpmtools.Base.{
  ℕ, ◌≡◌, sym, ap, ◌∙◌, Bool, false, ◌||◌, List, ◌∷◌, Option, none, some, arith, inl, inr,
  Option-cases,
}
use cpmtools.Entry.{Entry}
use cpmtools.Super.{Drive}
use cpmtools.Fsck.Ask.{Case}
use cpmtools.Fsck.Phases.{
  check_entry, check_entries, Outcome, with_entry, has_shared, has_duplicate, fsck,
}

-- the case of an entry at its turn
abbrev pub case_of : Entry → List ℕ → Bool → Bool → Case
case_of e input modified broken = record {
  entry = e;
  input = input;
  modified = modified;
  broken = broken;
}

module _ (norepair : Bool) (d : Drive) where
  -- the rest of the loop of phase 1 after an entry
  abbrev pub onward : List Entry → Option Case → Option Outcome
  onward es none = none
  onward es (some c) = with_entry c.entry (check_entries norepair d es c.input c.modified c.broken)

  -- A loop that ends has checked its first entry and gone through the others.
  pub check_entries-cons :
      (e : Entry) (es : List Entry) (input : List ℕ) (modified broken : Bool) (o : Outcome)
      → check_entries norepair d (e ∷ es) input modified broken ≡ some o
      → (c : Case) × (o' : Outcome) × (check_entry norepair d (case_of e input modified broken)
          ≡ some c)
        × (check_entries norepair d es c.input c.modified c.broken ≡ some o')
        × (record o' { dir = c.entry ∷ o'.dir } ≡ o)
  unfolding check_entries
  check_entries-cons e es input modified broken o h =
      elim (Option-cases (check_entry norepair d (case_of e input modified broken))) [
        | inl over ↦ let stop : Option.none ≡ some o = sym (ap (onward es) over) ∙ h in absurd (cc)
        | inr (c, first) ↦
            elim (Option-cases (check_entries norepair d es c.input c.modified c.broken)) [
              | inl over ↦
                  let stop : Option.none ≡ some o =
                    sym (ap (onward es) first ∙ ap (with_entry c.entry) over) ∙ h in
                  absurd (cc)
              | inr (o', rest) ↦
                  let both : with_entry c.entry (some o') ≡ some o =
                    sym (ap (onward es) first ∙ ap (with_entry c.entry) rest) ∙ h in
                  (c, o', first, rest, cc)
            ]
      ]

  -- what phase 2 makes of what phase 1 leaves
  abbrev pub connect : Outcome → Outcome
  connect o = record o { broken = o.broken || has_shared d o.dir || has_duplicate d o.dir }

  pub fsck-some :
      (input : List ℕ) (o : Outcome)
      → check_entries norepair d d.dir input false false ≡ some o
      → fsck norepair d input ≡ some (connect o)
  unfolding fsck
  fsck-some input o h = ground (arith, h)

  pub fsck-eq-some :
      (input : List ℕ) (o : Outcome)
      → fsck norepair d input ≡ some o
      → (o' : Outcome) × (check_entries norepair d d.dir input false false ≡ some o')
        × (connect o' ≡ o)
  unfolding fsck
  fsck-eq-some input o h = elim (Option-cases (check_entries norepair d d.dir input false false)) [
    | inl over ↦ absurd (ground (arith, over))
    | inr (o', first) ↦
        let both : some (connect o') ≡ some o = sym (fsck-some input o' first) ∙ h in
        (o', first, cc)
  ]
