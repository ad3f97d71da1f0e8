-- ===== src/Dir/Find.antt =====
-- The searches of cpmfs.c for a directory entry: the first index that passes the test.
use cpmtools.Base.{
  ℕ, zero, suc, ◌≤◌, ◌<◌, ◌≡◌, refl, sym, ◌∙◌, Bool, true, false, List, [], ◌∷◌, arith, Option,
  none, some, Bool-cases, inl, inr, Option-cases, get_elem?,
}
use native.Mathlib.Decide.{dec_lt}
use cpmtools.Entry.{Entry}
use cpmtools.Super.{Drive}
use cpmtools.Dir.{find_from, is_extent_of, find_file_extent}
use cpmtools.Dir.Each.{
  find_from-suc, find_from-passes, find_from-fails, find_from-nil, map-eq-some, map-eq-none,
}

-- The first index, not below the start, of an entry that passes.
pub record IsFirst (p : Entry → Bool) (es : List Entry) (start i : ℕ) : Type 0 where
  pub entry : Entry
  pub from : start ≤ i
  pub there : get_elem? es i ≡ some entry
  pub passes : p entry ≡ true
  pub before : (j : ℕ) (e : Entry) → start ≤ j → j < i → get_elem? es j ≡ some e → p e ≡ false

module _ (p : Entry → Bool) where
  pub find_from-none :
      (es : List Entry) (s : ℕ)
      → find_from p es s ≡ none
      → (j : ℕ) (e : Entry) → s ≤ j
      → get_elem? es j ≡ some e
      → p e ≡ false
  find_from-none [] s h j e le at = cc
  find_from-none (x ∷ es) (suc s) h zero e le at = absurd (omega arith)
  find_from-none (x ∷ es) (suc s) h (suc j) e le at =
      find_from-none es s (map-eq-none _ (sym (find_from-suc p x es s) ∙ h)) j e (omega arith) at
  find_from-none (x ∷ es) zero h j e le at = elim (Bool-cases (p x)) [
    | inl y ↦ cc (find_from-passes p x es y)
    | inr n ↦
        after j (find_from-none es 0 (map-eq-none _ (sym (find_from-fails p x es n) ∙ h))) n at
  ]
    where
      after :
          (j : ℕ)
          → ((j : ℕ) (e : Entry) → 0 ≤ j → get_elem? es j ≡ some e → p e ≡ false)
          → p x ≡ false
          → get_elem? (x ∷ es) j ≡ some e
          → p e ≡ false
      after zero rest n at = cc
      after (suc j) rest n at = rest j e (omega arith) at

  -- A search in the tail is a search from behind the head.
  IsFirst-suc :
      (x : Entry) (es : List Entry) (s i : ℕ)
      → IsFirst p es s i
      → IsFirst p (x ∷ es) (suc s) (suc i)
  IsFirst-suc x es s i r = record {
    entry = r.entry;
    from = omega (arith, r.from);
    there = r.there;
    passes = r.passes;
    before = before;
  }
    where
      before :
          (j : ℕ) (e : Entry) → suc s ≤ j → j < suc i → get_elem? (x ∷ es) j ≡ some e → p e ≡ false
      before zero e low high at = absurd (omega arith)
      before (suc j) e low high at = r.before j e (omega arith) (omega arith) at

  -- A head that fails is skipped.
  IsFirst-fails :
      (x : Entry) (es : List Entry) (i : ℕ)
      → p x ≡ false
      → IsFirst p es 0 i
      → IsFirst p (x ∷ es) 0 (suc i)
  IsFirst-fails x es i n r = record {
    entry = r.entry;
    from = omega arith;
    there = r.there;
    passes = r.passes;
    before = before;
  }
    where
      before : (j : ℕ) (e : Entry) → 0 ≤ j → j < suc i → get_elem? (x ∷ es) j ≡ some e → p e ≡ false
      before zero e low high at = cc
      before (suc j) e low high at = r.before j e (omega arith) (omega arith) at

  pub find_from-some :
      (es : List Entry) (s : ℕ) {i : ℕ} → find_from p es s ≡ some i → IsFirst p es s i
  find_from-some [] s h = absurd (cc (find_from-nil p s))
  find_from-some (x ∷ es) (suc s) {i} h =
      let (k, found, same) =
        map-eq-some (find_from p es s) {j = i} (sym (find_from-suc p x es s) ∙ h) in
      rw same (IsFirst-suc x es s k (find_from-some es s found))
  find_from-some (x ∷ es) zero {i} h = elim (Bool-cases (p x)) [
    | inl y ↦
        let same : i ≡ 0 = cc (find_from-passes p x es y) in
        rw same (record {
          entry = x;
          from = omega arith;
          there = refl;
          passes = y;
          before = λ j e low high at. absurd (omega arith);
        })
    | inr n ↦
        let (k, found, same) =
          map-eq-some (find_from p es 0) {j = i} (sym (find_from-fails p x es n) ∙ h) in
        rw same (IsFirst-fails x es k n (find_from-some es 0 found))
  ]

  -- An entry that passes is found, or one before it.
  pub find_from-exists :
      (es : List Entry) (i : ℕ) (e : Entry)
      → get_elem? es i ≡ some e
      → p e ≡ true
      → (k : ℕ) × (find_from p es 0 ≡ some k) × (k ≤ i)
  find_from-exists es i e at y = elim (Option-cases (find_from p es 0)) [
    | inl nothing ↦ absurd (cc (find_from-none es 0 nothing i e (omega arith) at))
    | inr (k, found) ↦
        let r = find_from-some es 0 found in
        (
          k,
          found,
          elim (dec_lt i k) [
            | yes low ↦ cc (r.before i e (omega arith) low at)
            | no high ↦ omega arith
          ],
        )
  ]

pub find_file_extent_lem :
    (sb : Drive) (user : ℕ) (name ext : List ℕ) (start : ℕ) (extno : Option ℕ)
    → find_file_extent sb user name ext start extno
      ≡ find_from (is_extent_of sb user name ext extno) sb.dir start
unfolding find_file_extent
find_file_extent_lem sb user name ext start extno = refl

-- The index that `findFileExtent` returns is the first, from `start` on, of an entry of the file,
-- and of the extent number asked for, if there is one.
pub find_file_extent-IsFirst :
    (sb : Drive) (user : ℕ) (name ext : List ℕ) (start : ℕ) (extno : Option ℕ) {i : ℕ}
    → find_file_extent sb user name ext start extno ≡ some i
    → IsFirst (is_extent_of sb user name ext extno) sb.dir start i
unfolding find_file_extent
find_file_extent-IsFirst sb user name ext start extno h = find_from-some _ sb.dir start h

-- `findFileExtent` fails only if no entry from `start` on is one of the file, and of the extent
-- number asked for, if there is one.
pub find_file_extent-none :
    (sb : Drive) (user : ℕ) (name ext : List ℕ) (start : ℕ) (extno : Option ℕ) (j : ℕ) (e : Entry)
    → find_file_extent sb user name ext start extno ≡ none
    → start ≤ j
    → get_elem? sb.dir j ≡ some e
    → is_extent_of sb user name ext extno e ≡ false
unfolding find_file_extent
find_file_extent-none sb user name ext start extno j e h low at =
    find_from-none _ sb.dir start h j e low at
