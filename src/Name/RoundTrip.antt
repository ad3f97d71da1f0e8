-- ===== src/Name/RoundTrip.antt =====
-- Names that `cpmReaddir` prints, and what `splitFilename` reads from them.
use cpmtools.Base.{
  ℕ, zero, suc, ◌%◌, ◌<◌, ◌≡◌, ◌≢◌, ◌⊎◌, refl, ap, Bool, true, false, not, ◌&&◌, ◌||◌, List, [],
  ◌∷◌, ◌++◌, arith, inl, inr, some, ◌==◌, if◌then◌else◌, get_or, replicate, below, below_lem,
}
use cpmtools.Entry.{Entry, low7, is_file_char}
use cpmtools.Super.{has_flag, hi_user}
use cpmtools.Name.{
  to_upper, to_lower, split_name, split_ext, split_dot, split_fields, split_filename, print_char,
  print_field, print_ext, print_name,
}
use cpmtools.Name.Split.{IsNameChar}

-- A field of `n` characters whose blanks all stand at its end.
pub data Padded : ℕ → List ℕ → Type 0 where
  blanks : {n : ℕ} {xs : List ℕ} → xs ≡ replicate n b' ' → Padded n xs
  char :
      {n : ℕ} {c : ℕ} {cs : List ℕ}
      → c ≢ b' '
      → IsNameChar c
      → Padded n cs
      → Padded (suc n) (c ∷ cs)

-- What may follow a printed name: nothing, or a dot.
abbrev AtDot : List ℕ → Type 0
AtDot [] = Unit {0}
AtDot (c ∷ r) = c ≡ b'.'

record ReadsBack (not_first : Bool) (c : ℕ) (c' : ℕ) : Type 0 where
  legal : is_file_char not_first c' ≡ true
  no_dot : (c' == b'.') ≡ false
  no_end : (c' == 0) ≡ false
  upper : to_upper c' ≡ c

-- whether a character, if it may stand in a field, reads back from its printed form
reads_back : Bool → Bool → ℕ → Bool
reads_back u not_first c =
    let c' = print_char u c in
    not (is_file_char true c && to_upper c == c && not (c == b' '))
    || (is_file_char not_first c' && not (c' == b'.') && not (c' == 0) && to_upper c' == c)

reads_back_table : (u not_first : Bool) → below 128 (λ c. reads_back u not_first c) ≡ true
unfolding below reads_back is_file_char to_upper to_lower print_char
reads_back_table true true = refl
reads_back_table true false = refl
reads_back_table false true = refl
reads_back_table false false = refl

IsNameChar-lt : (c : ℕ) → IsNameChar c → c < 128
unfolding is_file_char
IsNameChar-lt c h = ground arith

print_char-ReadsBack :
    (u not_first : Bool) (c : ℕ) → c ≢ b' ' → IsNameChar c → ReadsBack not_first c (print_char u c)
print_char-ReadsBack u not_first c h k =
    let row = below_lem 128 _ c (reads_back_table u not_first) (IsNameChar-lt c k) in
    unfold reads_back in ground arith

print_field-low7 : (u : Bool) (xs : List ℕ) → print_field u (low7 xs) ≡ print_field u xs
unfolding print_field print_char
print_field-low7 u [] = refl
print_field-low7 u (c ∷ cs) =
    let e : c % 128 % 128 ≡ c % 128 = omega arith in rw (e, print_field-low7 u cs)

print_ext-low7 : (u : Bool) (xs : List ℕ) → print_ext u (low7 xs) ≡ print_ext u xs
unfolding print_ext
print_ext-low7 u [] = refl
print_ext-low7 u (c ∷ cs) =
    let e : c % 128 % 128 ≡ c % 128 = omega arith in
    rw e (ap (λ r. if c % 128 == b' ' then [] else b'.' ∷ r) (print_field-low7 u (c ∷ cs)))

print_field-blanks : (u : Bool) (n : ℕ) → print_field u (replicate n b' ') ≡ []
unfolding print_field
print_field-blanks u zero = refl
print_field-blanks u (suc n) = refl

print_field-char :
    (u : Bool) (c : ℕ) (cs : List ℕ)
    → c ≢ b' '
    → IsNameChar c
    → print_field u (c ∷ cs) ≡ print_char u c ∷ print_field u cs
unfolding print_field is_file_char
print_field-char u c cs h k = ground arith

split_name-end :
    (n : ℕ) (not_first : Bool) (rest : List ℕ)
    → AtDot rest
    → split_name n not_first rest ≡ some (replicate n b' ', rest)
unfolding split_name
split_name-end zero not_first rest h = refl
split_name-end (suc n) not_first [] h = refl
split_name-end (suc n) not_first (c ∷ r) h = ground arith

split_name-print_field :
    {n : ℕ} {xs : List ℕ} (u not_first : Bool) (rest : List ℕ)
    → Padded n xs
    → AtDot rest
    → split_name n not_first (print_field u xs ++ rest) ≡ some (xs, rest)
unfolding split_name
split_name-print_field {n} u not_first rest (blanks e) dot =
    rw (e, print_field-blanks u n) (split_name-end n not_first rest dot)
split_name-print_field u not_first rest (char {n} {c} {cs} h k p) dot =
    let r = print_char-ReadsBack u not_first c h k in
    rw (
      print_field-char u c cs h k,
      r.no_dot,
      r.legal,
      split_name-print_field u true rest p dot,
      r.upper,
    )

split_ext-nil : (n : ℕ) → split_ext n [] ≡ some (replicate n b' ')
unfolding split_ext
split_ext-nil zero = refl
split_ext-nil (suc n) = refl

split_ext-print_field :
    {n : ℕ} {xs : List ℕ} (u : Bool) → Padded n xs → split_ext n (print_field u xs) ≡ some xs
unfolding split_ext
split_ext-print_field u (blanks {n} e) = rw (e, print_field-blanks u n) (split_ext-nil n)
split_ext-print_field u (char {n} {c} {cs} h k p) =
    let r = print_char-ReadsBack u true c h k in
    rw (print_field-char u c cs h k, r.legal, split_ext-print_field u p, r.upper)

-- A field holds more than blanks.
abbrev NotBlank : List ℕ → Type 0
NotBlank [] = ⊥
NotBlank (c ∷ cs) = c ≢ b' '

print_ext-char :
    (u : Bool) (c : ℕ) (cs : List ℕ)
    → c ≢ b' '
    → IsNameChar c
    → print_ext u (c ∷ cs) ≡ b'.' ∷ print_char u c ∷ print_field u cs
unfolding print_ext is_file_char
print_ext-char u c cs h k = ground (arith, print_field-char u c cs h k)

split_dot-print_ext :
    {xs : List ℕ} (u : Bool) (first : ℕ) → Padded 3 xs → split_dot first (print_ext u xs) ≡ some xs
unfolding split_dot print_ext
split_dot-print_ext u first (blanks e) = rw e refl
split_dot-print_ext u first (char {n} {c} {cs} h k p) =
    let r = print_char-ReadsBack u true c h k in
    let text = rw (print_field-char u c cs h k) at (split_ext-print_field u (char h k p)) in
    rw (print_ext-char u c cs h k) (ground (arith, r.no_end, text))

AtDot-print_ext : {n : ℕ} {xs : List ℕ} (u : Bool) → Padded n xs → AtDot (print_ext u xs)
unfolding print_ext
AtDot-print_ext {n = zero} u (blanks e) = rw e tt
AtDot-print_ext {n = suc n} u (blanks e) = rw e tt
AtDot-print_ext {n = suc _} u (char {n} {c} {cs} h k p) = rw (print_ext-char u c cs h k) refl

-- The text behind the user number is read back.
split_fields-print :
    {name ext : List ℕ} (u : Bool)
    → Padded 8 name
    → Padded 3 ext
    → split_fields (print_field u name ++ print_ext u ext) ≡ some (name, ext)
unfolding split_fields
split_fields-print {name} {ext} u p q = ground (
  arith,
  split_name-print_field u false (print_ext u ext) p (AtDot-print_ext u q),
  split_dot-print_ext u (get_or (print_field u name ++ print_ext u ext) 0 0) q,
)

blank-absurd : (n : ℕ) (xs : List ℕ) → xs ≡ replicate n b' ' → NotBlank xs → ⊥
blank-absurd n [] e k = k
blank-absurd zero (c ∷ cs) e k = cc
blank-absurd (suc n) (c ∷ cs) e k = k (ground arith)

-- Something follows the user number, unless both fields are blank.
print_nonempty :
    {name ext : List ℕ} (u : Bool)
    → Padded 8 name
    → Padded 3 ext
    → NotBlank name ⊎ NotBlank ext
    → (get_or (print_field u name ++ print_ext u ext) 0 0 == 0) ≡ false
print_nonempty u (char {n} {c} {cs} h k p) q b =
    rw (print_field-char u c cs h k) (print_char-ReadsBack u true c h k).no_end
print_nonempty {name} {ext} u (blanks e) (blanks f) b = elim b [
  | inl k ↦ absurd (blank-absurd 8 name e k)
  | inr k ↦ absurd (blank-absurd 3 ext f k)
]
print_nonempty u (blanks e) (char {n} {c} {cs} h k p) b =
    rw (e, print_field-blanks u 8, print_ext-char u c cs h k) refl

-- The name that `cpmReaddir` prints for a directory entry is read back by `splitFilename` as the
-- entry's user number, name and extension, without the attribute bits, in either case setting.
-- The entry's user number must be one that the format allows, blanks may stand only at the ends of
-- the fields, the other characters must be upper case and legal, and not all may be blank.
pub split_filename-print_name :
    (u : Bool) (type : ℕ) (e : Entry)
    → e.status < (if has_flag type hi_user then 32 else 16)
    → Padded 8 (low7 e.name)
    → Padded 3 (low7 e.ext)
    → NotBlank (low7 e.name) ⊎ NotBlank (low7 e.ext)
    → split_filename (print_name u e) type ≡ some (e.status, low7 e.name, low7 e.ext)
unfolding split_filename print_name
split_filename-print_name u type e h p q b =
    let fields =
      rw (print_field-low7 u e.name, print_ext-low7 u e.ext) at (split_fields-print u p q) in
    let some_text =
      rw (print_field-low7 u e.name, print_ext-low7 u e.ext) at (print_nonempty u p q b) in
    ground (arith, fields, some_text)
