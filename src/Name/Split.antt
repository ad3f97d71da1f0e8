-- ===== src/Name/Split.antt =====
-- What `splitFilename` of cpmfs.c returns for any string.
use cpmtools.Base.{
  ℕ, zero, suc, ◌<◌, ◌≡◌, refl, Bool, true, false, List, [], ◌∷◌, arith, inl, inr, some,
  Option-cases, Bool-cases, ◌==◌, if◌then◌else◌, length, drop, get_or, replicate, length-replicate,
  All,
}
use cpmtools.Entry.{is_file_char}
use cpmtools.Super.{has_flag, hi_user}
use cpmtools.Name.{to_upper, split_name, split_ext, split_dot, split_fields, split_filename}

-- A character that may stand in a field of a directory entry: upper case, 7 bits, no separator.
abbrev pub IsNameChar : ℕ → Type 0
IsNameChar c = (is_file_char true c ≡ true) × (to_upper c ≡ c)

pub blank-IsNameChar : IsNameChar b' '
unfolding is_file_char to_upper
blank-IsNameChar = (refl, refl)

pub to_upper-IsNameChar :
    (not_first : Bool) (c : ℕ) → is_file_char not_first c ≡ true → IsNameChar (to_upper c)
unfolding is_file_char to_upper
to_upper-IsNameChar not_first c h = (ground arith, ground arith)

pub replicate-IsNameChar : (n : ℕ) → All IsNameChar (replicate n b' ')
replicate-IsNameChar zero = tt
replicate-IsNameChar (suc n) = (blank-IsNameChar, replicate-IsNameChar n)

-- A field of `n` such characters.
abbrev pub IsField : ℕ → List ℕ → Type 0
IsField n xs = (length xs ≡ n) × All IsNameChar xs

replicate-IsField : (n : ℕ) → IsField n (replicate n b' ')
replicate-IsField n = (length-replicate {A = ℕ} n b' ', replicate-IsNameChar n)

split_name-IsField :
    (n : ℕ) (not_first : Bool) (cs : List ℕ) {name rest : List ℕ}
    → split_name n not_first cs ≡ some (name, rest)
    → IsField n name
unfolding split_name
split_name-IsField zero not_first cs {name} h = let e : name ≡ [] = cc in rw e (refl, tt)
split_name-IsField (suc n) not_first [] {name} h =
    let e : name ≡ replicate (suc n) b' ' = cc in rw e (replicate-IsField (suc n))
split_name-IsField (suc n) not_first (c ∷ cs) {name} h = elim (Bool-cases (c == b'.')) [
  | inl y ↦ let e : name ≡ replicate (suc n) b' ' = ground arith in rw e (replicate-IsField (suc n))
  | inr y ↦ elim (Bool-cases (is_file_char not_first c)) [
    | inr bad ↦ absurd (ground arith)
    | inl good ↦ elim (Option-cases (split_name n true cs)) [
      | inl nothing ↦ absurd (ground arith)
      | inr ((name', rest'), e) ↦
          let same : name ≡ to_upper c ∷ name' = ground arith in
          let r = split_name-IsField n true cs e in
          rw same (omega (arith, r.0), (to_upper-IsNameChar not_first c good, r.1))
    ]
  ]
]

split_ext-IsField : (n : ℕ) (cs : List ℕ) {ext : List ℕ} → split_ext n cs ≡ some ext → IsField n ext
unfolding split_ext
split_ext-IsField zero cs {ext} h = let e : ext ≡ [] = cc in rw e (refl, tt)
split_ext-IsField (suc n) [] {ext} h =
    let e : ext ≡ replicate (suc n) b' ' = cc in rw e (replicate-IsField (suc n))
split_ext-IsField (suc n) (c ∷ cs) {ext} h = elim (Bool-cases (is_file_char true c)) [
  | inr bad ↦ absurd (ground arith)
  | inl good ↦ elim (Option-cases (split_ext n cs)) [
    | inl nothing ↦ absurd (ground arith)
    | inr (ext', e) ↦
        let same : ext ≡ to_upper c ∷ ext' = ground arith in
        let r = split_ext-IsField n cs e in
        rw same (omega (arith, r.0), (to_upper-IsNameChar true c good, r.1))
  ]
]

split_dot-IsField :
    (first : ℕ) (cs : List ℕ) {ext : List ℕ} → split_dot first cs ≡ some ext → IsField 3 ext
unfolding split_dot
split_dot-IsField first [] {ext} h =
    let e : ext ≡ replicate 3 b' ' = cc in rw e (replicate-IsField 3)
split_dot-IsField first (c ∷ cs) {ext} h = elim (Bool-cases (c == b'.')) [
  | inl y ↦ split_ext-IsField 3 cs (ground arith)
  | inr y ↦ let e : ext ≡ replicate 3 b' ' = ground arith in rw e (replicate-IsField 3)
]

split_fields-IsField :
    (cs : List ℕ) {name ext : List ℕ}
    → split_fields cs ≡ some (name, ext)
    → IsField 8 name × IsField 3 ext
unfolding split_fields
split_fields-IsField cs {name} {ext} h = elim (Option-cases (split_name 8 false cs)) [
  | inl nothing ↦ absurd (ground arith)
  | inr ((name', rest), e) ↦ elim (Option-cases (split_dot (get_or cs 0 0) rest)) [
    | inl nothing ↦ absurd (ground arith)
    | inr (ext', f) ↦
        let same_name : name ≡ name' = ground arith in
        let same_ext : ext ≡ ext' = ground arith in
        rw (same_name, same_ext)
          (split_name-IsField 8 false cs e, split_dot-IsField (get_or cs 0 0) rest f)
  ]
]

-- A name that `splitFilename` accepts gives a user number that the format allows, a name of 8 and
-- an extension of 3 characters, all of them upper case and legal in a file name.
pub split_filename-IsField :
    (s : List ℕ) (type : ℕ) {user : ℕ} {name ext : List ℕ}
    → split_filename s type ≡ some (user, name, ext)
    → (user < (if has_flag type hi_user then 32 else 16)) × IsField 8 name × IsField 3 ext
unfolding split_filename
split_filename-IsField s type {user} {name} {ext} h =
    elim (Option-cases (split_fields (drop 2 s))) [
      | inl nothing ↦ absurd (ground arith)
      | inr ((name', ext'), e) ↦
          let low : user < (if has_flag type hi_user then 32 else 16) = ground arith in
          let same_name : name ≡ name' = ground arith in
          let same_ext : ext ≡ ext' = ground arith in
          let r = split_fields-IsField (drop 2 s) e in rw (same_name, same_ext) (low, r.0, r.1)
    ]
