-- ===== src/Format/Read.antt =====
-- What `diskdefReadSuper` of cpmfs.c makes of a file in which the format is defined.
use cpmtools.Base.{
  ℕ, ◌≡◌, refl, sym, ap, ◌∙◌, Bool, true, false, ◌||◌, List, [], ◌∷◌, ◌++◌, Option, none, some,
  arith, inl, inr, Bool-cases, Option-cases, if◌then◌else◌, All,
}
use cpmtools.Super.{Drive}
use cpmtools.Format.{Line, diskdef, end_word, Format, defaults, setting, complete}
use cpmtools.Format.Diskdef.{
  Reader, same_name, Next, goes, stops, exits, after, is_end, set_format, inside_step, outside_step,
  step, read_lines, fill, conclude, start, diskdef_read_super,
}

same_name_refl : (name : List ℕ) → same_name name name ≡ true
unfolding same_name
same_name_refl [] = refl
same_name_refl (c ∷ cs) = ground (arith, same_name_refl cs)

-- one setting after another
abbrev pub and_set : Option Format → (Format → Option Format) → Option Format
and_set none rest = none
and_set (some f) rest = rest f

-- The settings of a definition, one after the other.
unfoldable pub settings : List Line → Format → Option Format
settings [] f = some f
settings (line ∷ lines) f = and_set (setting line f) (settings lines)

-- lines of a definition, none of them its end
abbrev pub IsBody : List Line → Type 0
IsBody = All (λ line. is_end line ≡ false)

abbrev inner : Bool → Format → Reader
inner found f = record { inside = true; found = found; format = f }

-- where the loop goes on behind a definition's lines
abbrev onward : List ℕ → List Line → Bool → Option Format → Option Reader
onward name rest found none = none
onward name rest found (some f) = read_lines name rest (inner found f)

-- Inside a definition the lines up to its end are its settings.
read_lines-body :
    (name : List ℕ) (body rest : List Line) (found : Bool) (f : Format)
    → IsBody body
    → read_lines name (body ++ rest) (inner found f) ≡ onward name rest found (settings body f)
unfolding read_lines step inside_step set_format settings after
read_lines-body name [] rest found f h = refl
read_lines-body name (line ∷ lines) rest found f h =
    let r = inner found f in
    let closed : Reader = record r { inside = false; format = complete f } in
    let k = read_lines name (lines ++ rest) in
    let ending = if found then stops closed else goes closed in
    let set = set_format (setting line f) r in
    ap (λ (b : Bool). after (if b then ending else set) k) h.0
    ∙ elim (Option-cases (setting line f)) [
      | inl wrong ↦
          ap (λ o. after (set_format o r) k) wrong
          ∙ ap (λ o. onward name rest found (and_set o (settings lines))) (sym wrong)
      | inr (f', e) ↦
          ap (λ o. after (set_format o r) k) e
          ∙ read_lines-body name lines rest found f' h.1
          ∙ ap (λ o. onward name rest found (and_set o (settings lines))) (sym e)
    ]

outside_goes :
    (name : List ℕ) (line : Line) (r r' : Reader) → ¬ (outside_step name line r ≡ stops r')
unfolding outside_step
outside_goes name (diskdef other) r r' h = cc
outside_goes name _ r r' h = cc

set_goes : (o : Option Format) (r r' : Reader) → ¬ (set_format o r ≡ stops r')
unfolding set_format
set_goes none r r' h = cc
set_goes (some f) r r' h = cc

-- The loop is left before the end of the file only where the format was found.
stops_found :
    (name : List ℕ) (line : Line) (r r' : Reader) → step name line r ≡ stops r' → r'.found ≡ true
unfolding step inside_step
stops_found name line r r' h =
    let closed : Reader = record r { inside = false; format = complete r.format } in
    let ending = λ (b : Bool). if b then stops closed else goes closed in
    let set = set_format (setting line r.format) r in
    let inside = λ (b : Bool). if b then ending r.found else set in
    let whole = λ (b : Bool). if b then inside (is_end line) else outside_step name line r in
    elim (Bool-cases r.inside) [
      | inr outside ↦ absurd (outside_goes name line r r' (sym (ap whole outside) ∙ h))
      | inl in_def ↦ elim (Bool-cases (is_end line)) [
        | inr more ↦ absurd (
            set_goes (setting line r.format) r r'
              (sym (ap inside more) ∙ sym (ap whole in_def) ∙ h))
        | inl over ↦ elim (Bool-cases r.found) [
          | inl found ↦
              let last : stops closed ≡ stops r' =
                sym (ap whole in_def ∙ ap inside over ∙ ap ending found) ∙ h in
              let same : closed ≡ r' = cc in sym (ap (λ k. k.found) same) ∙ found
          | inr other ↦
              let last : goes closed ≡ stops r' =
                sym (ap whole in_def ∙ ap inside over ∙ ap ending other) ∙ h in
              absurd (cc)
        ]
      ]
    ]

-- A loop that comes through some lines without finding the format goes on behind them.
read_lines-append :
    (name : List ℕ) (pre rest : List Line) (r r0 : Reader)
    → read_lines name pre r ≡ some r0
    → r0.found ≡ false
    → read_lines name (pre ++ rest) r ≡ read_lines name rest r0
unfolding read_lines after
read_lines-append name [] rest r r0 h fresh = ap (read_lines name rest) (cc)
read_lines-append name (line ∷ lines) rest r r0 h fresh =
    from (step name line r) refl h (λ r' g. read_lines-append name lines rest r' r0 g fresh)
  where
    from :
        (s : Next)
        → step name line r ≡ s
        → after s (read_lines name lines) ≡ some r0
        → ((r' : Reader)
            → read_lines name lines r' ≡ some r0
            → read_lines name (lines ++ rest) r' ≡ read_lines name rest r0)
        → after s (read_lines name (lines ++ rest)) ≡ read_lines name rest r0
    from (goes r') e g ih = ih r' g
    from (stops r') e g ih =
        let same : r' ≡ r0 = cc in
        let wrong : true ≡ false =
          sym (stops_found name line r r' e) ∙ ap (λ k. k.found) same ∙ fresh in
        absurd (cc)
    from exits e g ih = cc

-- the drive that a definition gives
abbrev pub defined : Option Format → Drive → Option Drive
defined none d = none
defined (some f) d = fill (complete f) d

opening :
    (name : List ℕ) (r : Reader)
    → r.inside ≡ false
    → r.found ≡ false
    → step name (diskdef name) r ≡ goes (inner true (defaults r.format.size))
unfolding step outside_step
opening name r outside fresh =
    ap
      (λ (b : Bool). if b then inside_step (diskdef name) r else outside_step name (diskdef name) r)
      outside
    ∙ ap (λ b. goes (inner b (defaults r.format.size)))
        (ap (λ t. r.found || t) (same_name_refl name) ∙ ap (λ t. t || true) fresh)

-- `diskdefReadSuper` fills in the settings of the first definition of the format, from its line
-- `diskdef` to its line `end`, and the size and the extents that `end` computes; other definitions
-- before it and everything behind it do not matter. The lines before it are read without an error, and
-- leave no definition open.
pub diskdef_read_super-definition :
    (name : List ℕ) (pre body rest : List Line) (d : Drive) (r : Reader)
    → read_lines name pre (start d) ≡ some r
    → r.inside ≡ false
    → r.found ≡ false
    → IsBody body
    → diskdef_read_super name (pre ++ diskdef name ∷ (body ++ end_word ∷ rest)) d
      ≡ defined (settings body (defaults r.format.size)) d
unfolding diskdef_read_super
diskdef_read_super-definition name pre body rest d r before outside fresh inner_lines =
    ap (λ o. conclude o d)
      (read_lines-append name pre (diskdef name ∷ (body ++ end_word ∷ rest)) (start d) r before
          fresh
        ∙ ap (λ t. after t (read_lines name (body ++ end_word ∷ rest)))
            (opening name r outside fresh)
        ∙ read_lines-body name body (end_word ∷ rest) true (defaults r.format.size) inner_lines)
    ∙ concluded (settings body (defaults r.format.size))
  where
    concluded :
        (o : Option Format) → conclude (onward name (end_word ∷ rest) true o) d ≡ defined o d
    concluded none = refl
    concluded (some f) = refl
