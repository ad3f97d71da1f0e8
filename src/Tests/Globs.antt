-- ===== src/Tests/Globs.antt =====
-- File name patterns on small names.
use cpmtools.Base.{◌≡◌, ◌↔◌, refl, true, false, arith}
use cpmtools.Glob.{match, with_user}
use cpmtools.Glob.Correct.{Glob, match_iff}
use cpmtools.Tests.Sample.{codes}

match_any_user : match (codes "05foo.txt") (codes "*.TXT") ≡ true
unfolding match with_user
match_any_user = refl

match_other_user : match (codes "05foo.txt") (codes "3:*.txt") ≡ false
unfolding match with_user
match_other_user = refl

match_iff_example :
    (match (codes "05foo.txt") (codes "5:*.txt") ≡ true)
    ↔ Glob (codes "05foo.txt") (codes "05*.txt")
unfolding with_user
match_iff_example = match_iff (codes "05foo.txt") (codes "5:*.txt") (omega arith)
