-- ===== src/Tests/Alv.antt =====
-- The allocation vector of the sample disk.
use cpmtools.Base.{ℕ, ◌≤◌, ◌<◌, ◌≡◌, refl, true, false, ◌||◌, [], ◌∷◌, arith, ltb, or_bit}
use cpmtools.Super.{device_full, user_limit, Drive, has_flag}
use cpmtools.Alv.{mark, is_used, alv_init, alloc_block}
use cpmtools.Alv.Init.{belongs, is_used-alv_init}
use cpmtools.Alv.Alloc.{alloc_block-lowest, alloc_block-full, alloc_block-alv_init}
use cpmtools.Tests.Sample.{disk}

-- The disk with every block in use.
abbrev full_disk : Drive
full_disk = record disk { alv = 0xffff ∷ [] }

alv_init-disk : (alv_init disk).alv ≡ 0x6f ∷ []
unfolding alv_init user_limit has_flag or_bit
alv_init-disk = refl

alloc_block-lowest_example :
    (4 < 16)
    × (is_used (0x6f ∷ []) 4 ≡ false)
    × ((c : ℕ) → c < 4 → is_used (0x6f ∷ []) c ≡ true)
    × (record disk { alv = 0x7f ∷ [] } ≡ record disk { alv = mark (0x6f ∷ []) 4 })
unfolding alloc_block or_bit
alloc_block-lowest_example = alloc_block-lowest disk refl

alloc_block-full_example :
    (device_full ≡ device_full)
    × (full_disk ≡ full_disk)
    × ((c : ℕ) → c < 16 → is_used (0xffff ∷ []) c ≡ true)
unfolding alloc_block
alloc_block-full_example = alloc_block-full full_disk (omega arith) refl

is_used-alv_init_example :
    is_used (alv_init disk).alv 6 ≡ (ltb 6 2 || belongs (user_limit disk) 16 disk.dir 6)
is_used-alv_init_example = is_used-alv_init disk 6 (omega arith) (omega arith)

alloc_block-alv_init_example :
    (2 ≤ 4) × (4 < 16) × (belongs (user_limit disk) 16 disk.dir 4 ≡ false)
unfolding alloc_block alv_init user_limit has_flag or_bit
alloc_block-alv_init_example = alloc_block-alv_init disk (omega arith) (omega arith) refl
