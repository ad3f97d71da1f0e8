-- ===== src/Lookup/Listed.antt =====
-- `cpmReaddir` of cpmfs.c lists of each file the entries with the lowest extent number.
use cpmtools.Base.{
  ℕ, zero, suc, ◌+◌, ◌≤◌, ◌<◌, ◌≡◌, ◌≢◌, ◌↔◌, inl, inr, refl, sym, ap, ◌∙◌, Bool, true, false, not,
  ◌&&◌, List, [], ◌∷◌, arith, ◌==◌, some, Bool-cases, ltb, get_elem?, if◌then◌else◌,
}
use cpmtools.Entry.{Entry}
use cpmtools.Super.{Drive, user_limit}
use cpmtools.Dir.{extent_no, is_matching}
use cpmtools.Lookup.{first_from, is_listed}

-- Entries from index `i` on other than the one at `pos` that are of the file of `cur` have no lower
-- extent number.
abbrev pub NoLower : Entry → ℕ → List Entry → ℕ → Type 0
NoLower cur pos es i =
    (j : ℕ) (e : Entry)
    → get_elem? es j ≡ some e
    → i + j ≢ pos
    → is_matching cur.status cur.name cur.ext e.status e.name e.ext ≡ true
    → extent_no cur ≤ extent_no e

module _ (cur : Entry) (pos : ℕ) where
  -- The test of the loop on the entry at index `i`.
  abbrev is_lower : Entry → ℕ → Bool
  is_lower x i =
      not (i == pos)
      && is_matching cur.status cur.name cur.ext x.status x.name x.ext
      && ltb (extent_no x) (extent_no cur)

  NoLower-cons :
      (x : Entry) (es : List Entry) (i : ℕ)
      → is_lower x i ≡ false
      → NoLower cur pos es (suc i)
      → NoLower cur pos (x ∷ es) i
  NoLower-cons x es i fails rest zero e at away same =
      let here : x ≡ e = cc in
      let moved : is_lower e i ≡ false = ap (λ y. is_lower y i) (sym here) ∙ fails in
      let apart : i ≢ pos = λ q. away (omega (arith, q)) in ground (arith, moved, apart, same)
  NoLower-cons x es i fails rest (suc j) e at away same =
      rest j e at (λ q. away (omega (arith, q))) same

  NoLower-head :
      (x : Entry) (es : List Entry) (i : ℕ) → NoLower cur pos (x ∷ es) i → is_lower x i ≡ false
  NoLower-head x es i h = elim (Bool-cases (is_lower x i)) [
    | inr fails ↦ fails
    | inl lower ↦
        let apart : i ≢ pos = ground (arith, lower) in
        let same : is_matching cur.status cur.name cur.ext x.status x.name x.ext ≡ true =
          ground (arith, lower) in
        let less : extent_no x < extent_no cur = ground (arith, lower) in
        absurd (omega (arith, less, h 0 x refl (λ q. apart (omega (arith, q))) same))
  ]

  first_from-pos :
      (es : List Entry) (i first : ℕ)
      → first_from cur pos es i first ≡ pos
      → (first ≡ pos) × NoLower cur pos es i
  unfolding first_from
  first_from-pos [] i first h = (h, λ j e at. absurd (cc at))
  first_from-pos (x ∷ es) i first h =
      let (now, rest) = first_from-pos es (suc i) (if is_lower x i then i else first) h in
      elim (Bool-cases (is_lower x i)) [
        | inl lower ↦ absurd (ground (arith, now, lower))
        | inr not_lower ↦ (ground (arith, now, not_lower), NoLower-cons x es i not_lower rest)
      ]

  pos-first_from :
      (es : List Entry) (i : ℕ) → NoLower cur pos es i → first_from cur pos es i pos ≡ pos
  unfolding first_from
  pos-first_from [] i h = refl
  pos-first_from (x ∷ es) i h = rw (NoLower-head x es i h) (
      pos-first_from es (suc i)
        (λ j e at away same. h (suc j) e at (λ q. away (omega (arith, q))) same))

-- `cpmReaddir` lists an entry exactly if its user number is allowed and no other entry of the same
-- file has a lower extent number.
pub is_listed_iff :
    (d : Drive) (pos : ℕ) (cur : Entry)
    → (is_listed d pos cur ≡ true) ↔ ((cur.status ≤ user_limit d) × NoLower cur pos d.dir 0)
unfolding is_listed
is_listed_iff d pos cur = (
  λ h. (ground (arith, h), (first_from-pos cur pos d.dir 0 pos (ground (arith, h))).1),
  λ (low, none_lower). ground (arith, low, pos-first_from cur pos d.dir 0 none_lower),
)
