-- ===== src/Glob/Correct.antt =====
-- Patterns of cpmfs.c mean what they should: a relation between names and patterns, and the matcher
-- that decides it.
use cpmtools.Base.{
  ℕ, ◌≡◌, ◌≢◌, ◌↔◌, refl, sym, ◌∙◌, Bool, true, false, ◌&&◌, List, [], ◌∷◌, arith, inl, inr,
  Bool-cases, ◌==◌, get_or,
}
use native.Mathlib.Decide.{ℕ_discrete}
use cpmtools.Name.{to_lower}
use cpmtools.Glob.{star, recmatch, with_user, match}

-- A star stands for any characters, a question mark for one, any other character for itself in
-- either case.
pub data Glob : List ℕ → List ℕ → Type 0 where
  done : Glob [] []
  none_left : {a ps : List ℕ} {p : ℕ} → p ≡ b'*' → Glob a ps → Glob a (p ∷ ps)
  one_more : {a ps : List ℕ} {c p : ℕ} → p ≡ b'*' → Glob a (p ∷ ps) → Glob (c ∷ a) (p ∷ ps)
  any : {a ps : List ℕ} {c p : ℕ} → p ≡ b'?' → Glob a ps → Glob (c ∷ a) (p ∷ ps)
  same :
      {a ps : List ℕ} {c p : ℕ}
      → p ≢ b'*'
      → p ≢ b'?'
      → to_lower c ≡ to_lower p
      → Glob a ps
      → Glob (c ∷ a) (p ∷ ps)

-- No two stars stand side by side.
abbrev pub NoStars : List ℕ → Type 0
NoStars [] = Unit {0}
NoStars (p ∷ ps) = (p ≡ b'*' → get_or ps 0 0 ≢ b'*') × NoStars ps

-- The flag matters only before a star.
recmatch_first :
    (first : Bool) (a ps : List ℕ)
    → get_or ps 0 0 ≢ b'*'
    → recmatch first a ps ≡ recmatch false a ps
unfolding recmatch
recmatch_first first [] [] h = refl
recmatch_first first (c ∷ cs) [] h = refl
recmatch_first first a (p ∷ ps) h = ground arith

recmatch-star :
    (a ps : List ℕ) {p : ℕ}
    → p ≡ b'*'
    → recmatch false a (p ∷ ps) ≡ star (λ s. recmatch true s ps) (recmatch false [] ps) a
unfolding recmatch
recmatch-star [] ps e = rw e refl
recmatch-star (c ∷ cs) ps e = ground arith

star_sound :
    (a ps : List ℕ) {p : ℕ}
    → p ≡ b'*'
    → ((s : List ℕ) → recmatch false s ps ≡ true → Glob s ps)
    → get_or ps 0 0 ≢ b'*'
    → star (λ s. recmatch true s ps) (recmatch false [] ps) a ≡ true
    → Glob a (p ∷ ps)
unfolding star
star_sound [] ps e sound h y = none_left e (sound [] y)
star_sound (c ∷ cs) ps e sound h y = elim (Bool-cases (recmatch true (c ∷ cs) ps)) [
  | inl now ↦ none_left e (sound (c ∷ cs) (sym (recmatch_first true (c ∷ cs) ps h) ∙ now))
  | inr later ↦ one_more e (star_sound cs ps e sound h (rw later at y))
]

recmatch_end : (ps : List ℕ) {p : ℕ} → p ≢ b'*' → recmatch false [] (p ∷ ps) ≡ false
unfolding recmatch
recmatch_end ps h = ground arith

recmatch_any :
    (c : ℕ) (cs ps : List ℕ) {p : ℕ}
    → p ≡ b'?'
    → recmatch false (c ∷ cs) (p ∷ ps) ≡ recmatch false cs ps
unfolding recmatch
recmatch_any c cs ps e = ground arith

recmatch_same :
    (c : ℕ) (cs ps : List ℕ) {p : ℕ}
    → p ≢ b'*'
    → p ≢ b'?'
    → recmatch false (c ∷ cs) (p ∷ ps) ≡ ((to_lower c == to_lower p) && recmatch false cs ps)
unfolding recmatch
recmatch_same c cs ps h k = ground arith

sound : (a ps : List ℕ) → NoStars ps → recmatch false a ps ≡ true → Glob a ps
sound [] [] n h = done
sound (c ∷ cs) [] n h = unfold recmatch in cc
sound [] (p ∷ ps) n h = elim (ℕ_discrete p b'*') [
  | yes e ↦ star_sound [] ps e (λ s y. sound s ps n.1 y) (n.0 e) (sym (recmatch-star [] ps e) ∙ h)
  | no d ↦ cc (recmatch_end ps d)
]
sound (c ∷ cs) (p ∷ ps) n h = elim (ℕ_discrete p b'*') [
  | yes e ↦
      star_sound (c ∷ cs) ps e (λ s y. sound s ps n.1 y) (n.0 e)
        (sym (recmatch-star (c ∷ cs) ps e) ∙ h)
  | no d ↦ elim (ℕ_discrete p b'?') [
    | yes q ↦ any q (sound cs ps n.1 (sym (recmatch_any c cs ps q) ∙ h))
    | no k ↦
        let both = sym (recmatch_same c cs ps d k) ∙ h in
        same d k (ground (arith, both)) (sound cs ps n.1 (ground (arith, both)))
  ]
]

star_complete :
    (a ps : List ℕ)
    → get_or ps 0 0 ≢ b'*'
    → recmatch false a ps ≡ true
    → star (λ s. recmatch true s ps) (recmatch false [] ps) a ≡ true
unfolding star
star_complete [] ps h y = y
star_complete (c ∷ cs) ps h y = rw (recmatch_first true (c ∷ cs) ps h ∙ y) refl

star_more :
    (c : ℕ) (cs ps : List ℕ)
    → star (λ s. recmatch true s ps) (recmatch false [] ps) cs ≡ true
    → star (λ s. recmatch true s ps) (recmatch false [] ps) (c ∷ cs) ≡ true
unfolding star
star_more c cs ps y = ground arith

complete : {a ps : List ℕ} → Glob a ps → NoStars ps → recmatch false a ps ≡ true
complete done n = unfold recmatch in refl
complete (none_left {a} {ps} e g) n =
    recmatch-star a ps e ∙ star_complete a ps (n.0 e) (complete g n.1)
complete (one_more {a} {ps} {c} e g) n =
    recmatch-star (c ∷ a) ps e ∙ star_more c a ps (sym (recmatch-star a ps e) ∙ complete g n)
complete (any {a} {ps} {c} e g) n = recmatch_any c a ps e ∙ complete g n.1
complete (same {a} {ps} {c} {p} h k e g) n =
    recmatch_same c a ps h k ∙ ground (arith, e, complete g n.1)

-- What `match` makes of a pattern never begins with a star.
with_user-head : (pattern : List ℕ) → get_or (with_user pattern) 0 0 ≢ b'*'
unfolding with_user
with_user-head pattern = ground arith

-- `match` accepts a name exactly if the pattern, with its user number in two digits or two
-- question marks before it, describes the name, for a pattern that has no two stars side by side.
pub match_iff :
    (a pattern : List ℕ)
    → NoStars (with_user pattern)
    → (match a pattern ≡ true) ↔ Glob a (with_user pattern)
unfolding match
match_iff a pattern n =
    let same_flag = recmatch_first true a (with_user pattern) (with_user-head pattern) in
    (λ h. sound a (with_user pattern) n (sym same_flag ∙ h), λ g. same_flag ∙ complete g n)
