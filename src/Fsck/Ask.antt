-- ===== src/Fsck/Ask.antt =====
-- src/fsck.cpm.c: the questions, and what an answer does to an entry and to `ret`. The answers are the
-- first characters of the lines that `fgets` reads; `none` is `exit(1)` at the end of the input.
use cpmtools.Base.{
  ℕ, Bool, true, false, ◌||◌, List, [], ◌∷◌, Option, none, some, ◌==◌, if◌then◌else◌,
}
use cpmtools.Entry.{Entry}
use cpmtools.Dir.{unused}
use cpmtools.Name.{to_upper}

-- What phase 1 works on: the entry at hand, the lines still to be read, and the bits of `ret`.
pub record Case : Type 0 where
  pub entry : Entry
  pub input : List ℕ
  pub modified : Bool
  pub broken : Bool

-- the loop of `ask`, which goes on until a line is an answer
unfoldable pub answer : List ℕ → Option (Bool × List ℕ)
answer [] = none
answer (c ∷ cs) =
    let again = answer cs in
    if c == 10 || to_upper c == b'Y'
    then some (true, cs)
    else if to_upper c == b'N'
    then some (false, cs)
    else again

-- `ask`
unfoldable pub ask : Bool → List ℕ → Option (Bool × List ℕ)
unfolding answer to_upper
ask norepair input = if norepair then some (false, input) else answer input

-- `if (ask(…)) { …; ret |= MODIFIED; } else { ret |= BROKEN; }`
unfoldable pub act : (Entry → Entry) → Case → Bool → List ℕ → Case
act repair c true rest = record c { entry = repair c.entry; input = rest; modified = true }
act repair c false rest = record c { input = rest; broken = true }

-- A loop over tests, true where something is bad: a repair ends the loop. A single test is a loop
-- of one round.
unfoldable pub repair_each : Bool → (Entry → Entry) → List Bool → Case → Option Case
repair_each norepair repair [] c = some c
repair_each norepair repair (false ∷ tests) c = repair_each norepair repair tests c
repair_each norepair repair (true ∷ tests) c = elim (ask norepair c.input) [
  | none ↦ none
  | some (reply, rest) ↦
      let next = repair_each norepair repair tests (act repair c reply rest) in
      if reply then some (act repair c reply rest) else next
]

-- `if (*status == 0xe5) continue;` between two checks
infixl 5 ◌>>=◌
abbrev pub ◌>>=◌ : Option Case → (Case → Option Case) → Option Case
none >>= check = none
some c >>= check = if c.entry.status == unused then some c else check c

-- one step after another, with no such test
infixl 5 ◌and_then◌
abbrev pub ◌and_then◌ : Option Case → (Case → Option Case) → Option Case
none and_then step = none
some c and_then step = step c

-- `*status = 0xE5`
abbrev pub remove : Entry → Entry
remove e = record e { status = unused }
