-- ===== src/Expand/Names.antt =====
-- What `cpmglob` of cpmfs.c gives: the listed names that a pattern accepts.
use cpmtools.Base.{
  ℕ, zero, suc, ◌+◌, ◌-◌, ◌≤◌, ◌<◌, ◌≡◌, ◌↔◌, ◌⊎◌, inl, inr, refl, sym, ap, ◌∙◌, true, false, List,
  [], ◌∷◌, ◌++◌, arith, Option, none, some, Option-cases, Bool-cases, lt→ltb,
}
use mathlib.Core.Path.{subst}
use native.Mathlib.Decide.{ℕ_discrete}
use cpmtools.Super.{Drive, Result, ok}
use cpmtools.Inode.{Inode}
use cpmtools.File.{is_dir}
use cpmtools.Glob.{match}
use cpmtools.Listing.{Dirent, dirent_at, readdir_from, readdir, reserved_entries}
use cpmtools.Expand.{with_dirent, go_on, dirents_from, matching, expand, glob}

-- An element of a list.
abbrev pub In : {A : Type 0} → A → List A → Type 0
In x [] = ⊥
In x (y ∷ ys) = (y ≡ x) ⊎ In x ys

In-append : {A : Type 0} (x : A) (xs ys : List A) → In x (xs ++ ys) ↔ (In x xs ⊎ In x ys)
In-append x [] ys = (inr, λ h. elim h [ inl none_here ↦ absurd none_here | inr h ↦ h ])
In-append x (z ∷ zs) ys =
    let rest = In-append x zs ys in
    (
      λ h. elim h [
        | inl here ↦ inl (inl here)
        | inr later ↦ elim (rest.0 later) [ inl a ↦ inl (inr a) | inr b ↦ inr b ]
      ],
      λ h. elim h [
        | inl first ↦ elim first [ inl here ↦ inl here | inr a ↦ inr (rest.1 (inl a)) ]
        | inr b ↦ inr (rest.1 (inr b))
      ],
    )

-- an optional element in front of a list
abbrev prepend : Option Dirent → List Dirent → List Dirent
prepend none es = es
prepend (some e) es = e ∷ es

In-prepend :
    (e : Dirent) (o : Option Dirent) (es : List Dirent)
    → In e (prepend o es) ↔ ((o ≡ some e) ⊎ In e es)
In-prepend e none es = (inr, λ h. elim h [ inl wrong ↦ absurd (cc) | inr later ↦ later ])
In-prepend e (some x) es = (
  λ h. elim h [ inl same ↦ inl (ap some same) | inr later ↦ inr later ],
  λ h. elim h [ inl same ↦ inl (cc) | inr later ↦ inr later ],
)

-- The entries listed at `n` positions from `pos` on.
listed : Drive → ℕ → ℕ → List Dirent
listed d zero pos = []
listed d (suc n) pos = prepend (dirent_at d pos) (listed d n (suc pos))

-- An entry listed at one of `n` positions from `pos` on.
abbrev ListedIn : Drive → ℕ → ℕ → Dirent → Type 0
ListedIn d n pos e = (j : ℕ) × (pos ≤ j) × (j < n + pos) × (dirent_at d j ≡ some e)

In-listed : (d : Drive) (n pos : ℕ) (e : Dirent) → In e (listed d n pos) ↔ ListedIn d n pos e
unfolding listed
In-listed d zero pos e = (λ h. absurd h, λ (j, low, high, at). absurd (omega arith))
In-listed d (suc n) pos e =
    let here = In-prepend e (dirent_at d pos) (listed d n (suc pos)) in
    let rest = In-listed d n (suc pos) e in
    (
      λ h. elim (here.0 h) [
        | inl at ↦ (pos, omega arith, omega arith, at)
        | inr later ↦ let (j, low, high, at) = rest.0 later in (j, omega arith, omega arith, at)
      ],
      λ (j, low, high, at). here.1 (elim (ℕ_discrete pos j) [
        | yes same ↦ inl (ap (dirent_at d) same ∙ at)
        | no other ↦ inr (rest.1 (j, omega arith, omega arith, at))
      ]),
    )

-- one round of the loop of `cpmReaddir`
readdir_from-none :
    (d : Drive) (n pos : ℕ)
    → pos < d.maxdir + reserved_entries
    → dirent_at d pos ≡ none
    → readdir_from (suc n) d pos ≡ readdir_from n d (suc pos)
unfolding readdir_from
readdir_from-none d n pos h nothing =
    let inside = lt→ltb pos (d.maxdir + reserved_entries) h in
    rw (inside, nothing, readdir_from) refl

readdir_from-some :
    (d : Drive) (n pos : ℕ) (x : Dirent)
    → pos < d.maxdir + reserved_entries
    → dirent_at d pos ≡ some x
    → readdir_from (suc n) d pos ≡ (some x, suc pos)
unfolding readdir_from
readdir_from-some d n pos x h found =
    let inside = lt→ltb pos (d.maxdir + reserved_entries) h in rw (inside, found, readdir_from) refl

module _ (d : Drive) (root : Inode) (is_root : is_dir root.mode ≡ true) where
  abbrev loop : ℕ → Option Dirent × ℕ
  loop pos = readdir_from (d.maxdir + reserved_entries - pos) d pos

  abbrev wrap : Option Dirent × ℕ → Result (Option Dirent) × ℕ
  wrap r = (ok r.0, r.1)

  readdir-directory : (pos : ℕ) → readdir d root pos ≡ wrap (loop pos)
  unfolding readdir
  readdir-directory pos = rw is_root refl

  dirents_from-listed :
      (n rounds pos : ℕ)
      → n + pos ≡ d.maxdir + reserved_entries
      → n < rounds
      → dirents_from rounds d root pos ≡ some (listed d n pos)
  unfolding dirents_from go_on listed readdir_from
  dirents_from-listed n zero pos e h = absurd (omega arith)
  dirents_from-listed zero (suc rounds) pos e h =
      let over : d.maxdir + reserved_entries - pos ≡ 0 = omega arith in
      ap (go_on (dirents_from rounds d root))
        (readdir-directory pos ∙ ap (λ k. wrap (readdir_from k d pos)) over)
  dirents_from-listed (suc n) (suc rounds) pos e h =
      let fewer : n ≡ d.maxdir + reserved_entries - suc pos = omega arith in
      let more : d.maxdir + reserved_entries - pos ≡ suc n = omega arith in
      let inside : pos < d.maxdir + reserved_entries = omega arith in
      let rest = dirents_from rounds d root in
      elim (Option-cases (dirent_at d pos)) [
        | inl nothing ↦
            ap (go_on rest) (
              readdir-directory pos
              ∙ ap wrap (
                  ap (λ k. readdir_from k d pos) more
                  ∙ readdir_from-none d n pos inside nothing
                  ∙ ap (λ k. readdir_from k d (suc pos)) fewer)
              ∙ sym (readdir-directory (suc pos)))
            ∙ dirents_from-listed n (suc rounds) (suc pos) (omega arith) (omega arith)
            ∙ ap (λ o. some (prepend o (listed d n (suc pos)))) (sym nothing)
        | inr (x, found) ↦
            ap (go_on rest) (
              readdir-directory pos
              ∙ ap wrap
                  (ap (λ k. readdir_from k d pos) more ∙ readdir_from-some d n pos x inside found))
            ∙ ap (with_dirent x)
                (dirents_from-listed n rounds (suc pos) (omega arith) (omega arith))
            ∙ ap (λ o. some (prepend o (listed d n (suc pos)))) (sym found)
      ]

-- A name among the entries, which the pattern accepts.
abbrev Accepted : List ℕ → List ℕ → List Dirent → Type 0
Accepted pattern name es = (e : Dirent) × In e es × (e.name ≡ name) × (match name pattern ≡ true)

In-matching :
    (pattern name : List ℕ) (es : List Dirent)
    → In name (matching pattern es) ↔ Accepted pattern name es
unfolding matching
In-matching pattern name [] = (λ h. absurd h, λ (e, none_here, same, accepts). absurd none_here)
In-matching pattern name (x ∷ xs) =
    let rest = In-matching pattern name xs in
    elim (Bool-cases (match x.name pattern)) [
      | inl accepts ↦ rw accepts (
        λ h. elim h [
          | inl same ↦ (x, inl refl, same, ap (λ t. match t pattern) (sym same) ∙ accepts)
          | inr later ↦ let (e, at, same, ok_name) = rest.0 later in (e, inr at, same, ok_name)
        ],
        λ (e, at, same, ok_name). elim at [
          | inl here ↦ inl (ap (λ k. k.name) here ∙ same)
          | inr later ↦ inr (rest.1 (e, later, same, ok_name))
        ],
      )
      | inr refuses ↦ rw refuses (
        λ h. let (e, at, same, ok_name) = rest.0 h in (e, inr at, same, ok_name),
        λ (e, at, same, ok_name). elim at [
          | inl here ↦
              let wrong : false ≡ true =
                sym refuses ∙ ap (λ t. match t pattern) (ap (λ k. k.name) here ∙ same) ∙ ok_name in
              absurd (cc)
          | inr later ↦ rest.1 (e, later, same, ok_name)
        ],
      )
    ]

In-expand :
    (name : List ℕ) (es : List Dirent) (patterns : List (List ℕ))
    → In name (expand es patterns)
      ↔ ((pattern : List ℕ) × In pattern patterns × Accepted pattern name es)
unfolding expand
In-expand name es [] = (λ h. absurd h, λ (pattern, none_here, accepted). absurd none_here)
In-expand name es (p ∷ ps) =
    let here = In-matching p name es in
    let rest = In-expand name es ps in
    let both = In-append name (matching p es) (expand es ps) in
    (
      λ h. elim (both.0 h) [
        | inl first ↦ (p, inl refl, here.0 first)
        | inr later ↦ let (pattern, at, accepted) = rest.0 later in (pattern, inr at, accepted)
      ],
      λ (pattern, at, accepted). both.1 (elim at [
        | inl same ↦ inl (here.1 (subst (λ t. Accepted t name es) (sym same) accepted))
        | inr later ↦ inr (rest.1 (pattern, later, accepted))
      ]),
    )

-- A position at which an entry is listed.
abbrev pub ListedAt : Drive → Dirent → ℕ → Type 0
ListedAt d e j = (j < d.maxdir + reserved_entries) × (dirent_at d j ≡ some e)

-- `cpmglob` of a directory comes to its end, and gives exactly the names of the entries that
-- `cpmReaddir` lists at some position and that `match` accepts for some of the patterns.
pub glob_iff :
    (d : Drive) (root : Inode) (patterns : List (List ℕ))
    → is_dir root.mode ≡ true
    → (names : List (List ℕ)) × (glob d root patterns ≡ some names)
      × ((name : List ℕ)
          → In name names ↔ (
              (pattern : List ℕ) × In pattern patterns
              × (e : Dirent) × (j : ℕ) × ListedAt d e j
              × (e.name ≡ name)
              × (match name pattern ≡ true)))
unfolding glob
glob_iff d root patterns is_root =
    let n = d.maxdir + reserved_entries in
    let es = listed d n 0 in
    let run = dirents_from-listed d root is_root n (n + 1) 0 (omega arith) (omega arith) in
    (
      expand es patterns,
      rw (run, glob) refl,
      λ name.
          let names = In-expand name es patterns in
          (
            λ h.
                let (pattern, at, (e, among, same, accepts)) = names.0 h in
                let (j, low, high, found) = (In-listed d n 0 e).0 among in
                (pattern, at, e, j, (omega arith, found), same, accepts),
            λ (pattern, at, e, j, (inside, found), same, accepts). names.1 (
              pattern,
              at,
              (e, (In-listed d n 0 e).1 (j, omega arith, omega arith, found), same, accepts),
            ),
          ),
    )
