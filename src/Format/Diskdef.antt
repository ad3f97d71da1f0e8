-- ===== src/Format/Diskdef.antt =====
-- src/cpmfs.c, `diskdefReadSuper`: the loop over the lines and what stands behind it.
use cpmtools.Base.{
  ℕ, Bool, true, false, ◌&&◌, ◌||◌, List, [], ◌∷◌, Option, none, some, ◌==◌, if◌then◌else◌,
}
use cpmtools.Super.{Drive}
use cpmtools.Format.{Line, diskdef, end_word, Format, defaults, setting, complete}

-- the variables of the loop
pub record Reader : Type 0 where
  pub inside : Bool
  pub found : Bool
  pub format : Format

-- `strcmp(argv[1], format) == 0`
unfoldable pub same_name : List ℕ → List ℕ → Bool
same_name [] [] = true
same_name (a ∷ as') (b ∷ bs) = a == b && same_name as' bs
same_name _ _ = false

-- what a round of the loop does
pub data Next : Type 0 where
  goes : Reader → Next
  stops : Reader → Next
  exits : Next

unfoldable pub is_end : Line → Bool
is_end end_word = true
is_end _ = false

unfoldable pub set_format : Option Format → Reader → Next
set_format none r = exits
set_format (some f) r = goes (record r { format = f })

-- a line inside a definition
unfoldable pub inside_step : Line → Reader → Next
unfolding is_end set_format setting complete
inside_step line r =
    let closed : Reader = record r { inside = false; format = complete r.format } in
    if is_end line
    then (if r.found then stops closed else goes closed)
    else set_format (setting line r.format) r

-- a line outside, where only `diskdef` counts
unfoldable pub outside_step : List ℕ → Line → Reader → Next
outside_step format (diskdef name) r = goes (record {
  inside = true;
  found = r.found || same_name name format;
  format = defaults r.format.size;
})
outside_step format _ r = goes r

unfoldable pub step : List ℕ → Line → Reader → Next
unfolding inside_step outside_step same_name
step format line r = if r.inside then inside_step line r else outside_step format line r

-- the way on after a round
unfoldable pub after : Next → (Reader → Option Reader) → Option Reader
after (goes r) rest = rest r
after (stops r) rest = some r
after exits rest = none

-- `while (fgets(line, sizeof(line), fp) != NULL)`
unfoldable pub read_lines : List ℕ → List Line → Reader → Option Reader
unfolding after
read_lines format [] r = some r
read_lines format (line ∷ lines) r = after (step format line r) (read_lines format lines)

-- the tests of the fields behind the loop, in their order
unfoldable pub fill : Format → Drive → Option Drive
fill f d = elim f.boottrk [
  | none ↦ none
  | some boottrk ↦ elim f.sec_length [
    | none ↦ none
    | some len ↦ elim f.sectrk [
      | none ↦ none
      | some sectrk ↦ elim f.tracks [
        | none ↦ none
        | some tracks ↦ elim f.blksiz [
          | none ↦ none
          | some blksiz ↦ elim f.maxdir [
            | none ↦ none
            | some maxdir ↦ some (record d {
              boottrk = boottrk;
              sec_length = len;
              sectrk = sectrk;
              tracks = tracks;
              blksiz = blksiz;
              maxdir = maxdir;
              dirblks = f.dirblks;
              skew = f.skew;
              skewtab = f.skewtab;
              offset = f.offset;
              extents = f.extents;
              type = f.type;
              size = f.size;
            })
          ]
        ]
      ]
    ]
  ]
]

-- behind the loop
unfoldable pub conclude : Option Reader → Drive → Option Drive
conclude none d = none
conclude (some r) d = if r.found then fill r.format d else none

-- What the super block holds when the loop starts; only its size can be seen later.
abbrev pub start : Drive → Reader
start d = record { inside = false; found = false; format = defaults d.size }

-- `diskdefReadSuper`, with the lines of the file that was opened
unfoldable pub diskdef_read_super : List ℕ → List Line → Drive → Option Drive
unfolding read_lines step conclude fill
diskdef_read_super format lines d = conclude (read_lines format lines (start d)) d
