-- ===== src/Tests/Expands.antt =====
-- Patterns expanded over the sample disk.
use cpmtools.Base.{ℕ, ◌≡◌, ◌↔◌, refl, List, [], ◌∷◌, some, true}
use cpmtools.Entry.{extent}
use cpmtools.Super.{has_flag, user_limit}
use cpmtools.Dir.{same7, extent_no, is_matching}
use cpmtools.Lookup.{is_listed}
use cpmtools.Name.{print_name}
use cpmtools.Listing.{c_string, Dirent, readdir}
use cpmtools.Glob.{match, with_user}
use cpmtools.Expand.{glob}
use cpmtools.Expand.Names.{In, ListedAt, glob_iff}
use cpmtools.Tests.Sample.{codes, disk, root}

abbrev patterns : List (List ℕ)
patterns = codes "*.com" ∷ codes "0:f??.*" ∷ []

glob-disk : glob disk root patterns ≡ some (codes "00bar.com" ∷ codes "00foo.txt" ∷ [])
unfolding glob readdir is_listed print_name is_matching same7 user_limit has_flag extent_no extent
    match with_user c_string
glob-disk = refl

glob_iff_example :
    (names : List (List ℕ)) × (glob disk root patterns ≡ some names)
    × ((name : List ℕ)
        → In name names ↔ (
            (pattern : List ℕ) × In pattern patterns
            × (e : Dirent) × (j : ℕ) × ListedAt disk e j
            × (e.name ≡ name)
            × (match name pattern ≡ true)))
glob_iff_example = glob_iff disk root patterns refl
