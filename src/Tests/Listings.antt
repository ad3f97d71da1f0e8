-- ===== src/Tests/Listings.antt =====
-- The listing of the sample disk.
use cpmtools.Base.{◌≡◌, refl, none, some}
use cpmtools.Entry.{extent}
use cpmtools.Super.{ok, has_flag, user_limit}
use cpmtools.Dir.{same7, extent_no, is_matching}
use cpmtools.Lookup.{is_listed}
use cpmtools.Name.{print_name}
use cpmtools.Listing.{Dirent, dirent, readdir}
use cpmtools.Listing.Next.{IsNext, readdir-IsNext}
use cpmtools.Tests.Sample.{codes, disk, root}

abbrev bar_dirent : Dirent
bar_dirent = dirent 2 (codes "00bar.com") 5

readdir_bar : readdir disk root 5 ≡ (ok (some bar_dirent), 6)
unfolding readdir is_listed print_name is_matching same7 user_limit has_flag extent_no extent
readdir_bar = refl

readdir-IsNext_example : IsNext disk 5 bar_dirent 6
readdir-IsNext_example = readdir-IsNext disk root 5 readdir_bar

readdir_end : readdir disk root 6 ≡ (ok none, 8)
unfolding readdir is_listed print_name is_matching same7 user_limit has_flag extent_no extent
readdir_end = refl
