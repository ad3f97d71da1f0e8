-- ===== src/Name.antt =====
-- src/cpmfs.c, "file name conversions": the UNIX spelling `00name.ext` of a CP/M file name, read by
-- `splitFilename` and printed by `cpmReaddir`. A C string is the list of the characters before
-- its NUL; `toupper` and `tolower` are those of the C locale.
pub mod Split
pub mod RoundTrip
use cpmtools.Base.{
  ℕ, zero, suc, ◌+◌, ◌-◌, ◌*◌, ◌/◌, ◌%◌, Bool, true, false, not, ◌&&◌, ◌||◌, List, [], ◌∷◌, ◌++◌,
  Option, none, some, ◌==◌, ltb, leb, if◌then◌else◌, get_or, drop, replicate,
}
use cpmtools.Entry.{Entry, is_file_char}
use cpmtools.Super.{has_flag, hi_user}

unfoldable pub to_upper : ℕ → ℕ
to_upper c = if leb b'a' c && leb c b'z' then c - 32 else c

unfoldable pub to_lower : ℕ → ℕ
to_lower c = if leb b'A' c && leb c b'Z' then c + 32 else c

abbrev pub is_digit : ℕ → Bool
is_digit c = leb b'0' c && leb c b'9'

-- The loop over the name: at most `n` characters, up to the end or a dot; the rest of the field
-- holds the blanks of `memset`. The field and the characters left; `none` for a bad character.
pub split_name : ℕ → Bool → List ℕ → Option (List ℕ × List ℕ)
split_name zero not_first cs = some ([], cs)
split_name (suc n) not_first [] = some (replicate (suc n) b' ', [])
split_name (suc n) not_first (c ∷ cs) =
    if c == b'.'
    then some (replicate (suc n) b' ', c ∷ cs)
    else if is_file_char not_first c
    then (elim (split_name n true cs) [
      | none ↦ none
      | some (name, rest) ↦ some (to_upper c ∷ name, rest)
    ])
    else none

-- The loop over the extension: at most `n` characters, up to the end.
pub split_ext : ℕ → List ℕ → Option (List ℕ)
split_ext zero cs = some []
split_ext (suc n) [] = some (replicate (suc n) b' ')
split_ext (suc n) (c ∷ cs) =
    if is_file_char true c
    then (elim (split_ext n cs) [ none ↦ none | some ext ↦ some (to_upper c ∷ ext) ])
    else none

-- From the dot on, `first` being the character that follows the user number. A dot that stands
-- first (`i == 1`) and last (`j == 0`) is refused.
pub split_dot : ℕ → List ℕ → Option (List ℕ)
split_dot first [] = some (replicate 3 b' ')
split_dot first (c ∷ cs) =
    if c == b'.'
    then (if first == b'.' && get_or cs 0 0 == 0 then none else split_ext 3 cs)
    else some (replicate 3 b' ')

-- Both fields, from the character behind the user number on.
unfoldable pub split_fields : List ℕ → Option (List ℕ × List ℕ)
unfolding split_name split_dot split_ext is_file_char to_upper
split_fields cs = elim (split_name 8 false cs) [
  | none ↦ none
  | some (name, rest) ↦ elim (split_dot (get_or cs 0 0) rest) [
    | none ↦ none
    | some ext ↦ some (name, ext)
  ]
]

-- `splitFilename`: the user number, the name and the extension; `none` is -1, with "illegal CP/M
-- filename" in `boo`.
unfoldable pub split_filename : List ℕ → ℕ → Option (ℕ × List ℕ × List ℕ)
split_filename fullname type =
    let c0 = get_or fullname 0 0 in
    let c1 = get_or fullname 1 0 in
    let user = 10 * (c0 - b'0') + (c1 - b'0') in
    let rest = drop 2 fullname in
    if not (is_digit c0) || not (is_digit c1)
    then none
    else if get_or rest 0 0 == 0 || leb (if has_flag type hi_user then 32 else 16) user
    then none
    else (elim (split_fields rest) [ none ↦ none | some (name, ext) ↦ some (user, name, ext) ])

-- `uppercase ? c & 0x7f : tolower(c & 0x7f)`
pub print_char : Bool → ℕ → ℕ
print_char uppercase c = if uppercase then c % 128 else to_lower (c % 128)

-- The loop over a field, up to its first blank.
pub print_field : Bool → List ℕ → List ℕ
print_field uppercase [] = []
print_field uppercase (c ∷ cs) =
    if c % 128 == b' ' then [] else print_char uppercase c ∷ print_field uppercase cs

-- The loop over the extension puts the dot before the first character.
pub print_ext : Bool → List ℕ → List ℕ
print_ext uppercase [] = []
print_ext uppercase (c ∷ cs) = if c % 128 == b' ' then [] else b'.' ∷ print_field uppercase (c ∷ cs)

-- the part of `cpmReaddir` that converts a file name to UNIX style
unfoldable pub print_name : Bool → Entry → List ℕ
unfolding print_field print_ext print_char to_lower
print_name uppercase e =
    (b'0' + e.status / 10)
    ∷ (b'0' + e.status % 10)
    ∷ (print_field uppercase e.name ++ print_ext uppercase e.ext)
