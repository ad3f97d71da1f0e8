-- ===== src/Fsck/Connected.antt =====
-- Phase 2 of fsck.cpm.c: its nested loops find every block that two pointers claim, and every extent
-- that two entries are.
use cpmtools.Base.{
  ℕ, zero, suc, ◌+◌, ◌≤◌, ◌≡◌, ◌≢◌, ◌↔◌, refl, sym, ap, ◌∙◌, Bool, true, false, not, ◌&&◌, ◌||◌,
  List, [], ◌∷◌, ltb, ◌⊎◌, some, arith, inl, inr, leb, Bool-cases, ◌==◌, get_elem?,
}
use native.Mathlib.Decide.{ℕ_discrete}
use cpmtools.Entry.{Entry, low7}
use cpmtools.Super.{Drive}
use cpmtools.Alv.{pointer_blocks}
use cpmtools.Dir.{extent_no}
use cpmtools.Dir.Match.{is_matching_iff}
use cpmtools.Fsck.Special.{p2dos}
use cpmtools.Fsck.Phases.{last_user, any_at, is_shared, has_shared, is_duplicate, has_duplicate}

pub or_false_parts : (a b : Bool) → (a || b) ≡ false → (a ≡ false) × (b ≡ false)
or_false_parts a b h = ground arith

-- A guarded test fails, or its guard.
guarded : (a b : Bool) → (a && b) ≡ false → a ≡ true → b ≡ false
guarded a b h k = ground arith

guard_false : (a b : Bool) → (a ≡ true → b ≡ false) → (a && b) ≡ false
guard_false true b h = h refl
guard_false false b h = refl

-- A loop that never sets its bit.
module _ {ℓ} {A : Type ℓ} where
  none_of :
      (test : ℕ → A → Bool) (i : ℕ) (xs : List A) (k : ℕ) (x : A)
      → any_at test i xs ≡ false
      → get_elem? xs k ≡ some x
      → test (i + k) x ≡ false
  unfolding any_at
  none_of test i [] k x h e = cc
  none_of test i (y ∷ ys) zero x h e =
      let same : y ≡ x = cc in
      ap (λ (n : ℕ). test n x) (omega arith)
      ∙ ap (test i) (sym same)
      ∙ (or_false_parts (test i y) (any_at test (suc i) ys) h).0
  none_of test i (y ∷ ys) (suc k) x h e =
      ap (λ (n : ℕ). test n x) {x = i + suc k} {y = suc i + k} (omega arith)
      ∙ none_of test (suc i) ys k x (or_false_parts (test i y) (any_at test (suc i) ys) h).1 e

  of_none :
      (test : ℕ → A → Bool) (i : ℕ) (xs : List A)
      → ((k : ℕ) (x : A) → get_elem? xs k ≡ some x → test (i + k) x ≡ false)
      → any_at test i xs ≡ false
  unfolding any_at
  of_none test i [] h = refl
  of_none test i (y ∷ ys) h =
      let here : test i y ≡ false =
        ap (λ (n : ℕ). test n y) {x = i} {y = i + 0} (omega arith) ∙ h 0 y refl in
      ap (λ t. t || any_at test (suc i) ys) here
      ∙ of_none test (suc i) ys (λ k x e.
        ap (λ (n : ℕ). test n x) {x = suc i + k} {y = i + suc k} (omega arith) ∙ h (suc k) x e)

  any_at-false :
      (test : ℕ → A → Bool) (xs : List A)
      → (any_at test 0 xs ≡ false) ↔ ((k : ℕ) (x : A) → get_elem? xs k ≡ some x → test k x ≡ false)
  any_at-false test xs = (
    λ h k x e.
        ap (λ (n : ℕ). test n x) {x = k} {y = 0 + k} (omega arith) ∙ none_of test 0 xs k x h e,
    λ h.
        of_none test 0 xs
          (λ k x e. ap (λ (n : ℕ). test n x) {x = 0 + k} {y = k} (omega arith) ∙ h k x e),
  )

-- The user number of a file: up to 15, or up to 31 with the time stamps of P2DOS.
abbrev pub IsUser : Drive → ℕ → Type 0
IsUser d n = (n ≤ 15) ⊎ ((d.type ≡ p2dos) × (n ≤ 31))

pub user_leb : (d : Drive) (n : ℕ) → IsUser d n → leb n (last_user d) ≡ true
unfolding last_user
user_leb d n h = ground arith

pub leb-IsUser : (d : Drive) (n : ℕ) → leb n (last_user d) ≡ true → IsUser d n
unfolding last_user
leb-IsUser d n h = elim (Bool-cases (d.type == p2dos)) [
  | inl p ↦ inr (ground arith, ground (arith, p))
  | inr p ↦ inl (ground (arith, p))
]

-- An entry of a file, at an index of the directory.
abbrev pub FileAt : Drive → List Entry → ℕ → Entry → Type 0
FileAt d dir n e = (get_elem? dir n ≡ some e) × IsUser d e.status

-- No block is claimed twice: two pointers of files' entries to one block are the same pointer.
abbrev pub HasNoShared : Drive → List Entry → Type 0
HasNoShared d dir =
    (n n' i i' b : ℕ) (e e' : Entry)
    → FileAt d dir n e
    → FileAt d dir n' e'
    → get_elem? (pointer_blocks (ltb 256 d.size) e.pointers) i ≡ some b
    → get_elem? (pointer_blocks (ltb 256 d.size) e'.pointers) i' ≡ some b
    → b ≢ 0
    → (n ≡ n') × (i ≡ i')

-- No extent is there twice: two entries of one user, name, extension and extent are the same entry.
abbrev pub HasNoDuplicate : Drive → List Entry → Type 0
HasNoDuplicate d dir =
    (n n' : ℕ) (e e' : Entry)
    → FileAt d dir n e
    → FileAt d dir n' e'
    → extent_no e ≡ extent_no e'
    → e.status ≡ e'.status
    → low7 e.name ≡ low7 e'.name
    → low7 e.ext ≡ low7 e'.ext
    → n ≡ n'

not_shared :
    (n i b n' i' b' : ℕ) → (b ≢ 0 → b ≡ b' → (n ≡ n') × (i ≡ i')) → is_shared n i b n' i' b' ≡ false
not_shared n i b n' i' b' same = elim (ℕ_discrete b 0) [
  | yes zero_block ↦ ground arith
  | no used ↦ elim (ℕ_discrete b b') [
    | yes e ↦ ground (arith, same used e)
    | no other ↦ ground arith
  ]
]

-- The first part of phase 2 finds nothing exactly when no block is claimed twice.
pub has_shared-false :
    (d : Drive) (dir : List Entry) → (has_shared d dir ≡ false) ↔ HasNoShared d dir
unfolding has_shared
has_shared-false d dir = (none_shared, shared_none)
  where
    blocks : Entry → List ℕ
    blocks e = pointer_blocks (ltb 256 d.size) e.pointers

    per_entry : ℕ → ℕ → ℕ → ℕ → Entry → Bool
    per_entry n i b n' e' =
        leb e'.status (last_user d)
        && any_at (λ i' b'. is_shared n i b n' i' b') 0
            (pointer_blocks (ltb 256 d.size) e'.pointers)

    per_pointer : ℕ → ℕ → ℕ → Bool
    per_pointer n i b = any_at (per_entry n i b) 0 dir

    outer : ℕ → Entry → Bool
    outer n e =
        leb e.status (last_user d)
        && any_at (per_pointer n) 0 (pointer_blocks (ltb 256 d.size) e.pointers)

    none_shared : any_at outer 0 dir ≡ false → HasNoShared d dir
    none_shared h n n' i i' b e e' at at' p p' used =
        let h1 =
          guarded (leb e.status (last_user d)) (any_at (per_pointer n) 0 (blocks e))
            ((any_at-false outer dir).0 h n e at.0) (user_leb d e.status at.1) in
        let h2 = (any_at-false (per_pointer n) (blocks e)).0 h1 i b p in
        let h3 = (any_at-false (per_entry n i b) dir).0 h2 n' e' at'.0 in
        let h4 =
          guarded (leb e'.status (last_user d))
            (any_at (λ i'' b'. is_shared n i b n' i'' b') 0 (blocks e')) h3
            (user_leb d e'.status at'.1) in
        let h5 = (any_at-false (λ i'' b'. is_shared n i b n' i'' b') (blocks e')).0 h4 i' b p' in
        ground arith

    shared_none : HasNoShared d dir → any_at outer 0 dir ≡ false
    shared_none good = (any_at-false outer dir).1 (λ n e at.
        guard_false (leb e.status (last_user d)) (any_at (per_pointer n) 0 (blocks e)) (λ file.
          (any_at-false (per_pointer n) (blocks e)).1 (λ i b p.
            (any_at-false (per_entry n i b) dir).1 (λ n' e' at'.
              guard_false (leb e'.status (last_user d))
                (any_at (λ i' b'. is_shared n i b n' i' b') 0 (blocks e'))
                (λ file'.
                  (any_at-false (λ i' b'. is_shared n i b n' i' b') (blocks e')).1 (λ i' b' p'.
                    not_shared n i b n' i' b' (λ used same.
                      good n n' i i' b e e' (at, leb-IsUser d _ file) (at', leb-IsUser d _ file') p
                        (p' ∙ ap some (sym same)) used)))))))

is_duplicate_iff :
    (e e' : Entry)
    → (is_duplicate e e' ≡ true) ↔ (
        (extent_no e ≡ extent_no e')
        × (e.status ≡ e'.status)
        × (low7 e.name ≡ low7 e'.name)
        × (low7 e.ext ≡ low7 e'.ext))
unfolding is_duplicate
is_duplicate_iff e e' =
    let same = is_matching_iff e.status e.name e.ext e'.status e'.name e'.ext in
    (λ h. ground (arith, same), λ h. ground (arith, same))

-- The second part of phase 2 finds nothing exactly when no extent is there twice.
pub has_duplicate-false :
    (d : Drive) (dir : List Entry) → (has_duplicate d dir ≡ false) ↔ HasNoDuplicate d dir
unfolding has_duplicate
has_duplicate-false d dir = (none_double, double_none)
  where
    per_entry : ℕ → Entry → ℕ → Entry → Bool
    per_entry n e n' e' = leb e'.status (last_user d) && not (n == n') && is_duplicate e e'

    outer : ℕ → Entry → Bool
    outer n e = leb e.status (last_user d) && any_at (per_entry n e) 0 dir

    none_double : any_at outer 0 dir ≡ false → HasNoDuplicate d dir
    none_double h n n' e e' at at' extent user name ext =
        let h1 =
          guarded (leb e.status (last_user d)) (any_at (per_entry n e) 0 dir)
            ((any_at-false outer dir).0 h n e at.0) (user_leb d e.status at.1) in
        let h2 = (any_at-false (per_entry n e) dir).0 h1 n' e' at'.0 in
        let double = is_duplicate_iff e e' in
        let file' = user_leb d e'.status at'.1 in
        ground (arith, file', double.1 (extent, user, name, ext))

    double_none : HasNoDuplicate d dir → any_at outer 0 dir ≡ false
    double_none good = (any_at-false outer dir).1 (λ n e at.
        guard_false (leb e.status (last_user d)) (any_at (per_entry n e) 0 dir) (λ file.
          (any_at-false (per_entry n e) dir).1 (λ n' e' at'.
            guard_false (leb e'.status (last_user d) && not (n == n')) (is_duplicate e e') (λ other.
              elim (Bool-cases (is_duplicate e e')) [
                | inl double ↦
                    let (extent, user, name, ext) = (is_duplicate_iff e e').0 double in
                    let file' : leb e'.status (last_user d) ≡ true = ground arith in
                    let same : n ≡ n' =
                      good n n' e e' (at, leb-IsUser d _ file) (at', leb-IsUser d _ file') extent
                        user name ext in
                    absurd (ground arith)
                | inr single ↦ single
              ]))))
