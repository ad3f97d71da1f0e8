-- ===== src/Fsck/Correct.antt =====
-- fsck of fsck.cpm.c as a whole: what its result says of the directory.
use cpmtools.Base.{
  ℕ, ◌≤◌, ◌<◌, ◌≡◌, ◌↔◌, refl, ap, ◌∙◌, Bool, true, false, ◌||◌, List, [], ◌∷◌, map, some, All, ◌*◌,
  length,
}
use mathlib.Core.Path.{subst}
use cpmtools.Entry.{Entry}
use cpmtools.Super.{Drive}
use cpmtools.Fsck.Runs.{connect, fsck-some, fsck-eq-some}
use cpmtools.Fsck.Answered.{yeses, check_entries_yes}
use cpmtools.Fsck.Phases.{
  Sort, file, stamps, label, xfcb, free, bad, sort_of, Outcome, has_shared, has_duplicate, fsck,
}
use cpmtools.Fsck.Reported.{any_bad, or_none, bad_as, is_bad_entry, check_entries-reports}
use cpmtools.Fsck.Repaired.{check_entries-repairs}
use cpmtools.Fsck.Connected.{
  HasNoShared, HasNoDuplicate, has_shared-false, has_duplicate-false, or_false_parts,
}
use cpmtools.Fsck.Consistent.{
  GoodAs, IsGoodEntry, IsConsistent, entry_iff, file_iff, label_iff, xfcb_iff,
}

as_iff : (s : Sort) (d : Drive) (e : Entry) → (bad_as s d e ≡ false) ↔ GoodAs s d e
unfolding bad_as
as_iff file d e = file_iff d e
as_iff stamps d e = (λ _. tt, λ _. refl)
as_iff label d e = label_iff d e
as_iff xfcb d e = xfcb_iff d e
as_iff free d e = (λ _. tt, λ _. refl)
as_iff bad d e = (λ h. absurd (cc), λ h. absurd h)

entries_iff :
    (d : Drive) (es : List Entry)
    → (any_bad (map (is_bad_entry d) es) ≡ false) ↔ All (IsGoodEntry d) es
entries_iff d [] = (λ _. tt, λ _. refl)
entries_iff d (e ∷ es) =
    let here = as_iff (sort_of d e.status) d e in
    let good_entry = entry_iff d e in
    let rest = entries_iff d es in
    (
      λ h.
          let (first, others) = or_false_parts (is_bad_entry d e) _ h in
          (good_entry.0 (here.0 first), rest.0 others),
      λ good. or_none (here.1 (good_entry.1 good.0)) (rest.1 good.1),
    )

-- the final value of the bit BROKEN, without the questions
abbrev verdict : Drive → List Entry → Bool
verdict d dir = any_bad (map (is_bad_entry d) dir) || has_shared d dir || has_duplicate d dir

verdict_iff : (d : Drive) (dir : List Entry) → (verdict d dir ≡ false) ↔ IsConsistent d dir
verdict_iff d dir = (
  λ h.
      let (p, duplicate) = or_false_parts _ (has_duplicate d dir) h in
      let (fields, shared) = or_false_parts _ (has_shared d dir) p in
      record {
        entries = (entries_iff d dir).0 fields;
        no_shared = (has_shared-false d dir).0 shared;
        no_duplicate = (has_duplicate-false d dir).0 duplicate;
      },
  λ good.
      or_none
        (or_none ((entries_iff d dir).1 good.entries) ((has_shared-false d dir).1 good.no_shared))
        ((has_duplicate-false d dir).1 good.no_duplicate),
)

-- With `-n` and at most sixteen extents to an entry, fsck goes through to the end, changes nothing
-- and reads no answer, and its result is OK exactly when the directory is consistent: every entry
-- is one of the known sorts by its status and good as such, no block is claimed by two pointers,
-- and no extent is there twice. Time stamps may be anything, since their checks do not change the
-- result.
pub fsck-IsConsistent :
    (d : Drive) (input : List ℕ)
    → 0 < d.extents
    → d.extents ≤ 16
    → (o : Outcome) × (fsck true d input ≡ some o)
      × (o.dir ≡ d.dir)
      × (o.input ≡ input)
      × (o.modified ≡ false)
      × ((o.broken ≡ false) ↔ IsConsistent d d.dir)
fsck-IsConsistent d input some_extents few =
    let reports = check_entries-reports d some_extents few d.dir input false false in
    (
      record { dir = d.dir; input = input; modified = false; broken = verdict d d.dir },
      fsck-some true d input _ reports,
      refl,
      refl,
      refl,
      verdict_iff d d.dir,
    )

-- Whatever is answered, a run of fsck whose result does not have the bit BROKEN leaves a consistent
-- directory behind.
pub fsck_repairs :
    (norepair : Bool) (d : Drive) (input : List ℕ) (o : Outcome)
    → fsck norepair d input ≡ some o
    → o.broken ≡ false
    → IsConsistent d o.dir
fsck_repairs norepair d input o h fine =
    let (o', first, same) = fsck-eq-some norepair d input o h in
    let (p, duplicate) =
      or_false_parts _ (has_duplicate d o'.dir) (ap (λ k. k.broken) same ∙ fine) in
    let (phase1, shared) = or_false_parts _ (has_shared d o'.dir) p in
    let (_, good) = check_entries-repairs norepair d d.dir input false false o' first phase1 in
    subst (λ k. IsConsistent d k.dir) same
      ((verdict_iff d o'.dir).0 (or_none (or_none good shared) duplicate))

-- With at most sixteen extents to an entry, and a yes to every question, fsck goes through to the
-- end, and leaves a directory in which every entry is one of the known sorts by its status and good
-- as such. Its result has the bit BROKEN only where two pointers of that directory claim one block,
-- or two entries are one extent.
pub fsck_answered :
    (d : Drive) (n : ℕ)
    → 0 < d.extents
    → d.extents ≤ 16
    → 7 * length d.dir ≤ n
    → (o : Outcome) × (fsck false d (yeses n) ≡ some o)
      × All (IsGoodEntry d) o.dir
      × ((o.broken ≡ false) ↔ (HasNoShared d o.dir × HasNoDuplicate d o.dir))
fsck_answered d n some_extents few enough =
    let (o, first, fine) =
      check_entries_yes d some_extents few d.dir (yeses n) false false n refl enough in
    let (_, good) = check_entries-repairs false d d.dir (yeses n) false false o first fine in
    let double = has_duplicate d o.dir in
    (
      connect false d o,
      fsck-some false d (yeses n) o first,
      (entries_iff d o.dir).0 good,
      (
        λ h.
            let (p, duplicate) = or_false_parts (o.broken || has_shared d o.dir) double h in
            let (_, shared) = or_false_parts o.broken (has_shared d o.dir) p in
            ((has_shared-false d o.dir).0 shared, (has_duplicate-false d o.dir).0 duplicate),
        λ apart.
            or_none (or_none fine ((has_shared-false d o.dir).1 apart.0))
              ((has_duplicate-false d o.dir).1 apart.1),
      ),
    )
