-- ===== src/Fsck/Post.antt =====
-- fsck.cpm.c with repairs: what one check leaves, and a chain of checks, where the bit BROKEN is not set.
use cpmtools.Base.{
  ◌≡◌, refl, sym, ap, ◌∙◌, Bool, true, false, List, [], ◌∷◌, Option, some, arith, ◌⊎◌, inl, inr,
  Option-cases, Bool-cases, ◌==◌,
}
use mathlib.Core.Path.{subst}
use cpmtools.Entry.{Entry}
use cpmtools.Dir.{unused}
use cpmtools.Fsck.Ask.{Case, ask, act, repair_each, ◌>>=◌, remove}
use cpmtools.Fsck.Fields.{}
use cpmtools.Fsck.Special.{}
use cpmtools.Fsck.Phases.{}
use cpmtools.Fsck.Reported.{any_bad}

pub repair_each-repairs :
    (norepair : Bool) (repair : Entry → Entry) (tests : List Bool) (c c' : Case)
    → repair_each norepair repair tests c ≡ some c'
    → c'.broken ≡ false
    → (c.broken ≡ false)
      × (((c'.entry ≡ c.entry) × (any_bad tests ≡ false)) ⊎ (c'.entry ≡ repair c.entry))
unfolding repair_each act
repair_each-repairs norepair repair [] c c' h fine =
    let same : c' ≡ c = cc in
    (sym (ap (λ k. k.broken) same) ∙ fine, inl (ap (λ k. k.entry) same, refl))
repair_each-repairs norepair repair (false ∷ tests) c c' h fine =
    repair_each-repairs norepair repair tests c c' h fine
repair_each-repairs norepair repair (true ∷ tests) c c' h fine =
    elim (Option-cases (ask norepair c.input)) [
      | inl over ↦ absurd (ground arith)
      | inr ((true, rest), e) ↦
          let same : c' ≡ act repair c true rest = ground arith in
          (sym (ap (λ k. k.broken) same) ∙ fine, inr (ap (λ k. k.entry) same))
      | inr ((false, rest), e) ↦
          let onward : repair_each norepair repair tests (act repair c false rest) ≡ some c' =
            ground arith in
          let later =
            repair_each-repairs norepair repair tests (act repair c false rest) c' onward fine in
          absurd (ground (arith, later.0))
    ]

-- A step that does not leave BROKEN behind did not find it set, and turns an entry with `P` into an
-- unused one or one with `Q`.
abbrev pub Post : (Entry → Type 0) → (Entry → Type 0) → (Case → Option Case) → Type 0
Post P Q step =
    (c c' : Case)
    → step c ≡ some c'
    → c'.broken ≡ false
    → (c.broken ≡ false) × (P c.entry → (c'.entry.status ≡ unused) ⊎ Q c'.entry)

-- A check by a list of tests, with a repair that removes the entry or mends it.
pub each-Post :
    (P : Entry → Type 0) (norepair : Bool) (repair : Entry → Entry) (tests : Entry → List Bool)
    → ((e : Entry)
        → P e
        → ((repair e).status ≡ unused) ⊎ (P (repair e) × (any_bad (tests (repair e)) ≡ false)))
    → Post P
        (λ e. P e × (any_bad (tests e) ≡ false))
        (λ c. repair_each norepair repair (tests c.entry) c)
each-Post P norepair repair tests mends c c' h fine =
    let (before, after) = repair_each-repairs norepair repair (tests c.entry) c c' h fine in
    let Q = λ (e : Entry). (e.status ≡ unused) ⊎ (P e × (any_bad (tests e) ≡ false)) in
    (
      before,
      λ p. elim after [
        | inl (same, good) ↦ subst Q (sym same) (inr (p, good))
        | inr mended ↦ subst Q (sym mended) (mends c.entry p)
      ],
    )

pub remove-Post :
    (P : Entry → Type 0) (norepair : Bool) (tests : Entry → List Bool)
    → Post P
        (λ e. P e × (any_bad (tests e) ≡ false))
        (λ c. repair_each norepair remove (tests c.entry) c)
remove-Post P norepair tests = each-Post P norepair remove tests (λ e p. inl refl)

-- a check, and the next where the entry is in use
pub then-Post :
    (P Q R : Entry → Type 0) (first second : Case → Option Case)
    → Post P Q first
    → Post Q R second
    → Post P R (λ c. first c >>= second)
then-Post P Q R first second f s c c' h fine = elim (Option-cases (first c)) [
  | inl over ↦ absurd (ground arith)
  | inr (c1, e) ↦ elim (Bool-cases (c1.entry.status == unused)) [
    | inl removed ↦
        let same : c' ≡ c1 = ground arith in
        ((f c c1 e (sym (ap (λ k. k.broken) same) ∙ fine)).0, λ p. inl (ground arith))
    | inr used ↦
        let onward : second c1 ≡ some c' = ground arith in
        let (between, after) = s c1 c' onward fine in
        let (before, good) = f c c1 e between in
        (before, λ p. elim (good p) [ inl removed ↦ absurd (ground arith) | inr q ↦ after q ])
  ]
]
