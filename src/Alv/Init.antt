-- ===== src/Alv/Init.antt =====
-- What `alvInit` of cpmfs.c leaves in the allocation vector.
use cpmtools.Base.{
  ℕ, zero, suc, ◌+◌, ◌*◌, ◌≤◌, ◌≡◌, refl, Bool, false, not, ◌&&◌, ◌||◌, List, [], ◌∷◌, arith, ◌==◌,
  ltb, leb, length, replicate, length-replicate,
}
use cpmtools.Entry.{Entry}
use cpmtools.Super.{Drive, user_limit}
use cpmtools.Alv.{
  mark, is_used, mark_directory, mark_blocks, mark_entries, pointer_blocks, alv_init,
}
use cpmtools.Alv.Blocks.{length-mark, is_used-mark, is_used-replicate}

abbrev pub contains : List ℕ → ℕ → Bool
contains [] c = false
contains (b ∷ bs) c = b == c || contains bs c

-- Block `c` is a data block that some pointer of the entry names.
abbrev pub refers : ℕ → Entry → ℕ → Bool
refers size e c =
    not (c == 0) && ltb c size && contains (pointer_blocks (ltb 256 size) e.pointers) c

-- Block `c` belongs to an entry of a user number up to `limit`.
abbrev pub belongs : ℕ → ℕ → List Entry → ℕ → Bool
belongs limit size [] c = false
belongs limit size (e ∷ es) c = (leb e.status limit && refers size e c) || belongs limit size es c

mark_directory_lem :
    (n block : ℕ) (alv : List ℕ) (c : ℕ)
    → block + n ≤ 32 * length alv
    → is_used (mark_directory n block alv) c ≡ ((leb block c && ltb c (block + n)) || is_used alv c)
unfolding mark_directory
mark_directory_lem zero block alv c h = ground arith
mark_directory_lem (suc n) block alv c h = ground (
  arith,
  length-mark alv block,
  mark_directory_lem n (suc block) (mark alv block) c,
  is_used-mark alv block c,
)

length-mark_directory :
    (n block : ℕ) (alv : List ℕ) → length (mark_directory n block alv) ≡ length alv
unfolding mark_directory
length-mark_directory zero block alv = refl
length-mark_directory (suc n) block alv =
    ground (arith, length-mark alv block, length-mark_directory n (suc block) (mark alv block))

length-mark_blocks : (size : ℕ) (bs alv : List ℕ) → length (mark_blocks size bs alv) ≡ length alv
unfolding mark_blocks
length-mark_blocks size [] alv = refl
length-mark_blocks size (b ∷ bs) alv = ground (
  arith,
  length-mark alv b,
  length-mark_blocks size bs (mark alv b),
  length-mark_blocks size bs alv,
)

mark_blocks_lem :
    (size : ℕ) (bs alv : List ℕ) (c : ℕ)
    → size ≤ 32 * length alv
    → is_used (mark_blocks size bs alv) c
      ≡ ((not (c == 0) && ltb c size && contains bs c) || is_used alv c)
unfolding mark_blocks
mark_blocks_lem size [] alv c h = ground arith
mark_blocks_lem size (b ∷ bs) alv c h = ground (
  arith,
  length-mark alv b,
  mark_blocks_lem size bs (mark alv b) c,
  mark_blocks_lem size bs alv c,
  is_used-mark alv b c,
)

mark_entries_lem :
    (limit size : ℕ) (es : List Entry) (alv : List ℕ) (c : ℕ)
    → size ≤ 32 * length alv
    → is_used (mark_entries limit size es alv) c ≡ (belongs limit size es c || is_used alv c)
unfolding mark_entries
mark_entries_lem limit size [] alv c h = refl
mark_entries_lem limit size (e ∷ es) alv c h =
    let bs = pointer_blocks (ltb 256 size) e.pointers in
    ground (
      arith,
      length-mark_blocks size bs alv,
      mark_entries_lem limit size es (mark_blocks size bs alv) c,
      mark_entries_lem limit size es alv c,
      mark_blocks_lem size bs alv c,
    )

-- After `alvInit` the bit of a block is set exactly if the block is one of the directory or
-- belongs to an entry of a user number, whatever the vector held before; the vector keeps its
-- length. The vector must have a bit for each block and for each directory block.
pub is_used-alv_init :
    (d : Drive) (c : ℕ)
    → d.size ≤ 32 * length d.alv
    → d.dirblks ≤ 32 * length d.alv
    → (is_used (alv_init d).alv c ≡ (ltb c d.dirblks || belongs (user_limit d) d.size d.dir c))
unfolding alv_init
is_used-alv_init d c covers directory =
    let clear : List ℕ = replicate (length d.alv) 0 in
    ground (
      arith,
      length-replicate {A = ℕ} (length d.alv) 0,
      length-mark_directory d.dirblks 0 clear,
      mark_directory_lem d.dirblks 0 clear c,
      mark_entries_lem (user_limit d) d.size d.dir (mark_directory d.dirblks 0 clear) c,
      is_used-replicate (length d.alv) c,
    )

pub size-alv_init : (d : Drive) → (alv_init d).size ≡ d.size
unfolding alv_init
size-alv_init d = refl
