-- ===== src/Tests/Images.antt =====
-- An image file of four sectors of two bytes.
use cpmtools.Base.{◌≡◌, refl, [], ◌∷◌, none, some}
use cpmtools.Super.{Drive}
use cpmtools.Block.Storage.{Keeps}
use cpmtools.Posix.{image, read_sector, write_sector}
use cpmtools.Posix.Sectors.{image-Keeps}
use cpmtools.Tests.Sample.{disk}

abbrev small : Drive
small = record disk { sec_length = 2; sectrk = 2; tracks = 2; offset = 1 }

-- A write behind the end leaves a gap of zeros, and a read across the end is filled with them.
write-gap : write_sector small (7 ∷ 8 ∷ []) 1 0 (5 ∷ 6 ∷ []) ≡ some (7 ∷ 8 ∷ 0 ∷ 0 ∷ 0 ∷ 5 ∷ 6 ∷ [])
unfolding write_sector
write-gap = refl

read-short : read_sector small (7 ∷ 8 ∷ []) 0 0 ≡ some (8 ∷ 0 ∷ [])
unfolding read_sector
read-short = refl

read-beyond : read_sector small (7 ∷ 8 ∷ []) 0 2 ≡ none
unfolding read_sector
read-beyond = refl

image-Keeps_example : Keeps (image small)
image-Keeps_example = image-Keeps small
