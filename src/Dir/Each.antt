-- ===== src/Dir/Each.antt =====
-- The loop through the extents of a file updates exactly the entries that match.
use cpmtools.Base.{
  ℕ, zero, suc, ◌+◌, ◌≤◌, ◌<◌, ◌≡◌, refl, sym, ap, ◌∙◌, Bool, true, false, List, [], ◌∷◌, map,
  arith, Option, none, some, if◌then◌else◌, leb, get_elem?, Bool-cases, Option-cases, inl, inr,
  length, drop, modify, length-modify,
}
use mathlib.Core.Option
use cpmtools.Entry.{Entry}
use cpmtools.Dir.{scan, find_from, each_from, each_extent}

module _ (p : Entry → Bool) (update : Entry → Entry) where
  abbrev pub update_if : Entry → Entry
  update_if e = if p e then update e else e

  -- The matching entries updated, from index `i` on.
  abbrev pub map_from : ℕ → List Entry → List Entry
  map_from i [] = []
  map_from zero (e ∷ es) = update_if e ∷ map_from zero es
  map_from (suc i) (e ∷ es) = e ∷ map_from i es

  map_from-zero : (es : List Entry) → map_from zero es ≡ map update_if es
  map_from-zero [] = refl
  map_from-zero (e ∷ es) = ap (◌∷◌ (update_if e)) (map_from-zero es)

scan-suc :
    (p : Entry → Bool) (es : List Entry) (i : ℕ) → scan p es (suc i) ≡ Option.map suc (scan p es i)
unfolding scan
scan-suc p [] i = refl
scan-suc p (e ∷ es) i = elim (Bool-cases (p e)) [
  | inl y ↦ rw y
  | inr n ↦ rw n (scan-suc p es (suc i))
]

-- The search from an index behind the head, and from the head.
pub find_from-suc :
    (p : Entry → Bool) (e : Entry) (es : List Entry) (s : ℕ)
    → find_from p (e ∷ es) (suc s) ≡ Option.map suc (find_from p es s)
unfolding find_from
find_from-suc p e es s = scan-suc p (drop s es) s

pub find_from-passes :
    (p : Entry → Bool) (e : Entry) (es : List Entry) → p e ≡ true → find_from p (e ∷ es) 0 ≡ some 0
unfolding find_from scan
find_from-passes p e es y = rw y

pub find_from-fails :
    (p : Entry → Bool) (e : Entry) (es : List Entry)
    → p e ≡ false
    → find_from p (e ∷ es) 0 ≡ Option.map suc (find_from p es 0)
unfolding find_from scan
find_from-fails p e es n = rw n (scan-suc p es 0)

pub find_from-nil : (p : Entry → Bool) (s : ℕ) → find_from p [] s ≡ none
unfolding find_from scan
find_from-nil p zero = refl
find_from-nil p (suc s) = refl

pub map-eq-some :
    (o : Option ℕ) {j : ℕ} → Option.map suc o ≡ some j → (k : ℕ) × (o ≡ some k) × (j ≡ suc k)
map-eq-some none h = cc
map-eq-some (some k) h = (k, refl, cc)

pub map-eq-none : (o : Option ℕ) → Option.map suc o ≡ none → o ≡ none
map-eq-none none h = refl
map-eq-none (some k) h = cc

module _ (p : Entry → Bool) (update : Entry → Entry) where
  -- Where the search finds nothing there is nothing to update.
  map_from-none : (es : List Entry) (s : ℕ) → find_from p es s ≡ none → map_from p update s es ≡ es
  map_from-none [] s h = refl
  map_from-none (e ∷ es) (suc s) h =
      ap (◌∷◌ e) (map_from-none es s (map-eq-none _ (sym (find_from-suc p e es s) ∙ h)))
  map_from-none (e ∷ es) zero h = elim (Bool-cases (p e)) [
    | inl y ↦ cc (find_from-passes p e es y)
    | inr n ↦
        rw n (ap (◌∷◌ e) (map_from-none es 0 (map-eq-none _ (sym (find_from-fails p e es n) ∙ h))))
  ]

  -- Up to the index that the search finds nothing is updated.
  map_from-some :
      (es : List Entry) (s : ℕ) {j : ℕ}
      → find_from p es s ≡ some j
      → (map_from p update s es ≡ map_from p update (suc j) (modify es j update))
        × (s ≤ j)
        × (j < length es)
  map_from-some [] s h = absurd (cc (find_from-nil p s))
  map_from-some (e ∷ es) (suc s) {j} h =
      let (k, found, same) =
        map-eq-some (find_from p es s) {j = j} (sym (find_from-suc p e es s) ∙ h) in
      let (q, low, high) = map_from-some es s found in
      rw same (ap (◌∷◌ e) q, omega arith, omega arith)
  map_from-some (e ∷ es) zero {j} h = elim (Bool-cases (p e)) [
    | inl y ↦
        let same : j ≡ 0 = cc (find_from-passes p e es y) in
        rw same (rw y refl, omega arith, omega arith)
    | inr n ↦
        let (k, found, same) =
          map-eq-some (find_from p es 0) {j = j} (sym (find_from-fails p e es n) ∙ h) in
        let (q, low, high) = map_from-some es 0 found in
        rw (same, n) (ap (◌∷◌ e) q, omega arith, omega arith)
  ]

  each_from-map_from :
      (fuel : ℕ) (es : List Entry) (i : ℕ)
      → i < length es
      → length es ≤ fuel + i
      → each_from fuel p update es i ≡ map_from p update (suc i) (modify es i update)
  unfolding each_from
  each_from-map_from zero es i h f = absurd (omega arith)
  each_from-map_from (suc fuel) es i h f =
      let es' : List Entry = modify es i update in
      elim (Option-cases (find_from p es' (suc i))) [
        | inl nothing ↦ rw (nothing, each_from) (sym (map_from-none es' (suc i) nothing))
        | inr (j, found) ↦
            let (q, low, high) = map_from-some es' (suc i) found in
            rw (found, each_from)
              (each_from-map_from fuel es' j high (omega (arith, length-modify es i update))
                ∙ sym q)
      ]

  -- The loop updates the entry that it is entered at, and the matching ones behind it.
  pub each_extent-map_from :
      (es : List Entry) (i : ℕ)
      → i < length es
      → each_extent p update es i ≡ map_from p update (suc i) (modify es i update)
  unfolding each_extent
  each_extent-map_from es i h = each_from-map_from (length es) es i h (omega arith)

  pub get_elem?-map_from :
      (es : List Entry) (i j : ℕ) {e : Entry}
      → get_elem? es j ≡ some e
      → get_elem? (map_from p update i es) j ≡ some (if leb i j then update_if p update e else e)
  get_elem?-map_from [] i j h = cc
  get_elem?-map_from (x ∷ es) zero zero h = ap (λ o. Option.map (update_if p update) o) h
  get_elem?-map_from (x ∷ es) zero (suc j) h = get_elem?-map_from es zero j h ∙ ground arith
  get_elem?-map_from (x ∷ es) (suc i) zero h = h ∙ ground arith
  get_elem?-map_from (x ∷ es) (suc i) (suc j) h = get_elem?-map_from es i j h ∙ ground arith

  -- The loop entered at the first matching entry updates every matching entry, and no other.
  pub each_extent-map :
      (es : List Entry) {i : ℕ}
      → find_from p es 0 ≡ some i
      → each_extent p update es i ≡ map (update_if p update) es
  unfolding each_extent
  each_extent-map es {i} h =
      let (q, low, high) = map_from-some es 0 h in
      each_from-map_from (length es) es i high (omega arith) ∙ sym q ∙ map_from-zero p update es
