-- ===== src/Dir/Match.antt =====
-- Two names match if they agree below the attribute bits.
use cpmtools.Base.{
  ℕ, ◌*◌, ◌+◌, ◌/◌, ◌%◌, ◌≤◌, ◌≡◌, ◌↔◌, refl, ap, true, List, [], ◌∷◌, map, arith, none, length,
  suc,
}
use cpmtools.Entry.{Entry, low7}
use cpmtools.Super.{Drive, user_limit}
use cpmtools.Dir.{memcpy7, same7, is_matching, is_extent_of}

head-eq : {x y : ℕ} {xs ys : List ℕ} → ◌≡◌ {A = List ℕ} (x ∷ xs) (y ∷ ys) → (x ≡ y) × (xs ≡ ys)
head-eq h = (cc, cc)

pub same7-low7 : (a b : List ℕ) → same7 a b ≡ true → low7 a ≡ low7 b
unfolding same7
same7-low7 [] [] h = refl
same7-low7 [] (y ∷ ys) h = cc
same7-low7 (x ∷ xs) [] h = cc
same7-low7 (x ∷ xs) (y ∷ ys) h = ground (arith, same7-low7 xs ys)

pub low7-same7 : (a b : List ℕ) → low7 a ≡ low7 b → same7 a b ≡ true
unfolding same7
low7-same7 [] [] h = refl
low7-same7 [] (y ∷ ys) h = cc
low7-same7 (x ∷ xs) [] h = cc
low7-same7 (x ∷ xs) (y ∷ ys) h = ground (arith, (head-eq h).0, low7-same7 xs ys (head-eq h).1)

-- `isMatching` holds exactly of equal user numbers, names and extensions, the attribute bits left
-- out.
pub is_matching_iff :
    (user1 : ℕ) (name1 ext1 : List ℕ) (user2 : ℕ) (name2 ext2 : List ℕ)
    → (is_matching user1 name1 ext1 user2 name2 ext2 ≡ true)
      ↔ ((user1 ≡ user2) × (low7 name1 ≡ low7 name2) × (low7 ext1 ≡ low7 ext2))
unfolding is_matching
is_matching_iff user1 name1 ext1 user2 name2 ext2 = (
  λ h. ground (arith, same7-low7 name1 name2, same7-low7 ext1 ext2),
  λ h. ground (arith, low7-same7 name1 name2 h.1, low7-same7 ext1 ext2 h.2, h.0),
)

-- An entry belongs to a file if it has the file's user number, of those in use, and its name.
pub is_extent_of_iff :
    (d : Drive) (user : ℕ) (name ext : List ℕ) (e : Entry)
    → (is_extent_of d user name ext none e ≡ true) ↔ (
        (user ≤ user_limit d)
        × (user ≡ e.status)
        × (low7 name ≡ low7 e.name)
        × (low7 ext ≡ low7 e.ext))
unfolding is_extent_of
is_extent_of_iff d user name ext e =
    let m = is_matching_iff user name ext e.status e.name e.ext in
    (λ h. ground (arith, m.0), λ h. ground (arith, m.1 (h.1, h.2, h.3), h))

-- What is copied is read back, below the attribute bits.
pub low7-memcpy7 :
    (dest src : List ℕ) → length dest ≡ length src → low7 (memcpy7 dest src) ≡ low7 src
unfolding memcpy7
low7-memcpy7 [] [] h = refl
low7-memcpy7 [] (s ∷ ss) h = absurd (omega arith)
low7-memcpy7 (d ∷ ds) [] h = absurd (omega arith)
low7-memcpy7 (d ∷ ds) (s ∷ ss) h =
    let e : (d / 128 * 128 + s % 128) % 128 ≡ s % 128 = omega arith in
    rw (e, low7-memcpy7 ds ss (omega arith))

pub length-memcpy7 : (dest src : List ℕ) → length (memcpy7 dest src) ≡ length dest
unfolding memcpy7
length-memcpy7 [] src = refl
length-memcpy7 (d ∷ ds) [] = refl
length-memcpy7 (d ∷ ds) (s ∷ ss) = ap suc (length-memcpy7 ds ss)

-- The attribute bits of a name: the eighth bit of each character.
abbrev pub high_bits : List ℕ → List ℕ
high_bits = map (λ c. c / 128)

-- The attribute bits of the destination stay.
pub high_bits-memcpy7 : (dest src : List ℕ) → high_bits (memcpy7 dest src) ≡ high_bits dest
unfolding memcpy7
high_bits-memcpy7 [] src = refl
high_bits-memcpy7 (d ∷ ds) [] = refl
high_bits-memcpy7 (d ∷ ds) (s ∷ ss) =
    let e : (d / 128 * 128 + s % 128) / 128 ≡ d / 128 = omega arith in
    rw (e, high_bits-memcpy7 ds ss)
