-- ===== src/Glob.antt =====
-- src/cpmfs.c: file name patterns, `recmatch` and `match`. A C string is the list of the characters
-- before its NUL, so the tests on `*a` read 0 at the end of the list.
pub mod Correct
use cpmtools.Base.{
  ℕ, ◌+◌, ◌-◌, ◌*◌, ◌/◌, ◌%◌, Bool, true, false, ◌&&◌, List, [], ◌∷◌, ◌==◌, if◌then◌else◌, get_or,
  drop, leb,
}
use cpmtools.Name.{to_lower, is_digit}

-- The case `'*'`: the loop `while (*a)`, where `rest` is the recursive call on the pattern behind
-- the star, and the way on with nothing left of the name.
pub star : (List ℕ → Bool) → Bool → List ℕ → Bool
star rest at_end [] = at_end
star rest at_end (c ∷ cs) = if rest (c ∷ cs) then true else star rest at_end cs

-- `recmatch`. The loop goes on with the rest of the pattern, the flag `first` cleared; the
-- recursive call sets it again.
pub recmatch : Bool → List ℕ → List ℕ → Bool
recmatch first [] [] = true
recmatch first (c ∷ cs) [] = false
recmatch first a (p ∷ ps) = elim (p == b'*') [
  | true ↦ elim (get_or a 0 0 == b'.' && first) [
    | true ↦ true
    | false ↦ star (λ s. recmatch true s ps) (recmatch false [] ps) a
  ]
  | false ↦ elim a [
    | [] ↦ false
    | c ∷ cs ↦ elim (p == b'?') [
      | true ↦ recmatch false cs ps
      | false ↦ elim (to_lower c == to_lower p) [ true ↦ recmatch false cs ps | false ↦ false ]
    ]
  ]
]

-- `sprintf(pat, "%02d%s", user, pattern)`, for a user number below 100
pub two_digits : ℕ → List ℕ → List ℕ
two_digits user rest = (b'0' + user / 10) ∷ (b'0' + user % 10) ∷ rest

-- The pattern `pat` of `match`: a user number before a colon in two digits, or two question marks.
unfoldable pub with_user : List ℕ → List ℕ
unfolding two_digits
with_user pattern =
    let c0 = get_or pattern 0 0 in
    let c1 = get_or pattern 1 0 in
    let c2 = get_or pattern 2 0 in
    if is_digit c0 && c1 == b':'
    then two_digits (c0 - b'0') (drop 2 pattern)
    else if is_digit c0 && is_digit c1 && c2 == b':'
    then two_digits (10 * (c0 - b'0') + (c1 - b'0')) (drop 3 pattern)
    else b'?' ∷ b'?' ∷ pattern

-- `match`, of a pattern of fewer than 255 characters, as the assertion demands
unfoldable pub match : List ℕ → List ℕ → Bool
unfolding recmatch star to_lower
match a pattern = recmatch true a (with_user pattern)
