-- ===== src/Alv.antt =====
-- src/cpmfs.c, "allocation vector bitmap functions". The vector is a list of `INTBITS` = 32 bit
-- words, read as unsigned; block `b` is bit `b % 32` of word `b / 32`.
pub mod Blocks
pub mod Init
pub mod Alloc
use cpmtools.Base.{
  ℕ, zero, suc, ◌+◌, ◌*◌, ◌/◌, ◌%◌, Bool, true, false, not, ◌&&◌, List, [], ◌∷◌, Option, none, some,
  ◌==◌, ltb, leb, if◌then◌else◌, length, get_or, modify, replicate, test_bit, or_bit,
}
use cpmtools.Entry.{Entry}
use cpmtools.Super.{Drive, Result, ok, err, device_full, user_limit}

abbrev pub int_bits : ℕ
int_bits = 32

-- `alv[block / INTBITS] |= 1 << (block % INTBITS)`
pub mark : List ℕ → ℕ → List ℕ
mark alv block = modify alv (block / int_bits) (λ w. or_bit w (block % int_bits))

-- whether the bit of a block is set
pub is_used : List ℕ → ℕ → Bool
is_used alv block = test_bit (get_or alv (block / int_bits) 0) (block % int_bits)

-- the loop `for (block = 0; block < d->dirblks; ++block)`, from `block` for `n` rounds
pub mark_directory : ℕ → ℕ → List ℕ → List ℕ
mark_directory zero block alv = alv
mark_directory (suc n) block alv = mark_directory n (suc block) (mark alv block)

-- The block numbers that the pointers hold: bytes, or pairs of bytes where `size > 256`.
unfoldable pub pointer_blocks : Bool → List ℕ → List ℕ
pointer_blocks wide [] = []
pointer_blocks false (p ∷ ps) = p ∷ pointer_blocks false ps
pointer_blocks true (low ∷ []) = low ∷ []
pointer_blocks true (low ∷ high ∷ ps) = (low + high * 256) ∷ pointer_blocks true ps

-- the loop over the pointers of one entry
pub mark_blocks : ℕ → List ℕ → List ℕ → List ℕ
mark_blocks size [] alv = alv
mark_blocks size (b ∷ bs) alv =
    mark_blocks size bs (if not (b == 0) && ltb b size then mark alv b else alv)

-- the loop over the directory entries, of user numbers up to `limit`
pub mark_entries : ℕ → ℕ → List Entry → List ℕ → List ℕ
mark_entries limit size [] alv = alv
mark_entries limit size (e ∷ es) alv = mark_entries limit size es (
    if leb e.status limit
    then mark_blocks size (pointer_blocks (ltb 256 size) e.pointers) alv
    else alv)

-- `alvInit`
unfoldable pub alv_init : Drive → Drive
unfolding mark_entries mark_directory mark_blocks pointer_blocks mark
alv_init d = record d {
  alv =
      mark_entries (user_limit d) d.size d.dir
        (mark_directory d.dirblks 0 (replicate (length d.alv) 0));
}

-- the inner loop of `allocBlock`: `bits & 1`, then `bits >>= 1`
pub free_bit : ℕ → ℕ → ℕ → Option ℕ
free_bit zero j bits = none
free_bit (suc n) j bits = if bits % 2 == 0 then some j else free_bit n (suc j) (bits / 2)

-- The outer loop, from word `i`: the block and the words after it is marked.
pub alloc_from : ℕ → ℕ → List ℕ → Option (ℕ × List ℕ)
alloc_from size i [] = none
alloc_from size i (w ∷ ws) = elim (free_bit int_bits 0 w) [
  | none ↦ elim (alloc_from size (suc i) ws) [ none ↦ none | some (b, ws') ↦ some (b, w ∷ ws') ]
  | some j ↦ if leb size (i * int_bits + j) then none else some (i * int_bits + j, or_bit w j ∷ ws)
]

-- `allocBlock`
unfoldable pub alloc_block : Drive → Result ℕ × Drive
unfolding alloc_from free_bit
alloc_block d = elim (alloc_from d.size 0 d.alv) [
  | none ↦ (err device_full, d)
  | some (b, alv') ↦ (ok b, record d { alv = alv' })
]
