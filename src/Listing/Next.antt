-- ===== src/Listing/Next.antt =====
-- A call of `cpmReaddir` of cpmfs.c returns the next entry that is listed, and passes over no other.
use cpmtools.Base.{
  ℕ, zero, suc, ◌+◌, ◌-◌, ◌≤◌, ◌<◌, ◌≡◌, inl, inr, sym, ap, ◌∙◌, arith, Option, none, some,
  Option-cases, Bool-cases, ltb,
}
use native.Mathlib.Decide.{ℕ_discrete}
use cpmtools.Super.{Drive, Result, ok, err, not_a_directory}
use cpmtools.Inode.{Inode}
use cpmtools.File.{is_dir}
use cpmtools.Listing.{Dirent, dirent_at, readdir_from, readdir, reserved_entries}

-- The first position from `pos` on at which an entry is listed.
pub record IsNext (d : Drive) (pos : ℕ) (ent : Dirent) (next : ℕ) : Type 0 where
  pub at : ℕ
  pub next_eq : next ≡ suc at
  pub from : pos ≤ at
  pub inside : at < d.maxdir + reserved_entries
  pub listed : dirent_at d at ≡ some ent
  pub before : (j : ℕ) → pos ≤ j → j < at → dirent_at d j ≡ none

IsNext-suc :
    (d : Drive) (pos : ℕ) (ent : Dirent) (next : ℕ)
    → dirent_at d pos ≡ none
    → IsNext d (suc pos) ent next
    → IsNext d pos ent next
IsNext-suc d pos ent next nothing n = record {
  at = n.at;
  next_eq = n.next_eq;
  from = omega (arith, n.from);
  inside = n.inside;
  listed = n.listed;
  before = λ j p q. elim (ℕ_discrete pos j) [
    | yes here ↦ rw (← here) nothing
    | no later ↦ n.before j (omega arith) q
  ];
}

abbrev Outcome : Type 0
Outcome = Option Dirent × ℕ

no_entry : {ent : Dirent} {m n : ℕ} → ¬ (◌≡◌ {A = Outcome} (none, m) (some ent, n))
no_entry h = cc (ap (λ r. r.0) h)

same_entry :
    {found ent : Dirent} {m n : ℕ}
    → ◌≡◌ {A = Outcome} (some found, m) (some ent, n)
    → (found ≡ ent) × (m ≡ n)
same_entry h = (cc (ap (λ r. r.0) h), ap (λ r. r.1) h)

readdir_from-some :
    (fuel : ℕ) (d : Drive) (pos : ℕ) {ent : Dirent} {next : ℕ}
    → readdir_from fuel d pos ≡ (some ent, next)
    → IsNext d pos ent next
unfolding readdir_from
readdir_from-some zero d pos h = absurd (no_entry h)
readdir_from-some (suc fuel) d pos {ent} {next} h =
    elim (Bool-cases (ltb pos (d.maxdir + reserved_entries))) [
      | inr past ↦ absurd (no_entry (rw (past, readdir_from) at h))
      | inl more ↦ elim (Option-cases (dirent_at d pos)) [
        | inl nothing ↦
            IsNext-suc d pos ent next nothing
              (readdir_from-some fuel d (suc pos) (rw (more, nothing, readdir_from) at h))
        | inr (found, e) ↦
            let (same, now) = same_entry (rw (more, e, readdir_from) at h) in
            record {
              at = pos;
              next_eq = sym now;
              from = omega arith;
              inside = ground (arith, more);
              listed = e ∙ ap some same;
              before = λ j p q. absurd (omega arith);
            }
      ]
    ]

readdir_from-none :
    (fuel : ℕ) (d : Drive) (pos : ℕ) {next : ℕ}
    → d.maxdir + reserved_entries ≤ fuel + pos
    → readdir_from fuel d pos ≡ (none, next)
    → (j : ℕ) → pos ≤ j
    → j < d.maxdir + reserved_entries
    → dirent_at d j ≡ none
unfolding readdir_from
readdir_from-none zero d pos enough h j p q = absurd (omega arith)
readdir_from-none (suc fuel) d pos {next} enough h j p q =
    elim (Bool-cases (ltb pos (d.maxdir + reserved_entries))) [
      | inr past ↦ absurd (ground arith)
      | inl more ↦ elim (Option-cases (dirent_at d pos)) [
        | inl nothing ↦ elim (ℕ_discrete pos j) [
          | yes here ↦ rw (← here) nothing
          | no later ↦
              readdir_from-none fuel d (suc pos) (omega arith)
                (rw (more, nothing, readdir_from) at h) j (omega arith) q
        ]
        | inr (found, e) ↦ absurd (no_entry (sym (rw (more, e, readdir_from) at h)))
      ]
    ]

abbrev Listing : Type 0
Listing = Result (Option Dirent) × ℕ

opened :
    {a o : Option Dirent} {m n : ℕ}
    → ◌≡◌ {A = Listing} (ok a, m) (ok o, n)
    → ◌≡◌ {A = Outcome} (a, m) (o, n)
opened {a} {o} {m} {n} h =
    let first : a ≡ o = ap (λ q. elim q.0 [ ok x ↦ x | err why ↦ a ]) h in
    ap (λ x. (x, m)) first ∙ ap (λ k. (o, k)) (ap (λ q. q.1) h)

-- A call that returns no error comes from the loop.
readdir-loop :
    (d : Drive) (dir : Inode) (pos : ℕ) {o : Option Dirent} {next : ℕ}
    → readdir d dir pos ≡ (ok o, next)
    → readdir_from (d.maxdir + reserved_entries - pos) d pos ≡ (o, next)
unfolding readdir
readdir-loop d dir pos {o} {next} h = elim (Bool-cases (is_dir dir.mode)) [
  | inr other ↦ absurd (failed (rw (other, readdir) at h))
  | inl y ↦ opened (rw (y, readdir) at h)
]
  where
    failed : ¬ (◌≡◌ {A = Listing} (err not_a_directory, pos) (ok o, next))
    failed p = ground (arith, ap (λ q. q.0) p)

-- What `cpmReaddir` returns is the entry at the first position from the directory's position on at
-- which one is listed, and the position moves behind it.
pub readdir-IsNext :
    (d : Drive) (dir : Inode) (pos : ℕ) {ent : Dirent} {next : ℕ}
    → readdir d dir pos ≡ (ok (some ent), next)
    → IsNext d pos ent next
readdir-IsNext d dir pos h =
    readdir_from-some (d.maxdir + reserved_entries - pos) d pos (readdir-loop d dir pos h)

-- `cpmReaddir` reports the end of the directory only if no entry is listed from the directory's
-- position on.
pub readdir-end :
    (d : Drive) (dir : Inode) (pos j : ℕ) {next : ℕ}
    → readdir d dir pos ≡ (ok none, next)
    → pos ≤ j
    → j < d.maxdir + reserved_entries
    → dirent_at d j ≡ none
readdir-end d dir pos j h p q =
    readdir_from-none (d.maxdir + reserved_entries - pos) d pos (omega arith)
      (readdir-loop d dir pos h) j p q
