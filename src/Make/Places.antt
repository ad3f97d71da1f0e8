-- ===== src/Make/Places.antt =====
-- Where the directory that `mkfs` of mkfs.cpm.c wrote lies on the disk: the sectors of the directory's
-- blocks lie behind the system tracks and before the end of what it wrote.
use cpmtools.Base.{
  Bool, ℕ, zero, suc, ◌+◌, ◌*◌, ◌/◌, ◌%◌, ◌≤◌, ◌<◌, ◌≡◌, inl, inr, refl, sym, ap, ◌∙◌, true, List,
  ◌∷◌, arith, some, none, Bool-cases, ltb, ◌&&◌, if◌then◌else◌, ◌==◌, get_or, replicate,
}
use mathlib.Core.Path.{subst}
use native.Mathlib.Nat.{
  lt-div-mul-add, mul-le-mul_right, mod-lt, le-div_iff_mul-le, div-lt_iff_lt-mul,
  lt_of_mul-lt-mul_left, div-add-mod',
}
use cpmtools.Super.{Drive}
use cpmtools.Dir.{unused}
use cpmtools.Skew.Table.{skew_table_bounds}
use cpmtools.Block.{per_block}
use cpmtools.Block.Address.{base, track_of, sector_of}
use cpmtools.Sync.{dir_blocks}
use cpmtools.Sync.ReadBack.{IsWhole}
use cpmtools.Posix.{position, read_sector}
use cpmtools.Posix.Sectors.{window, read_sector-window}
use cpmtools.Make.{track_bytes, directory_bytes}
use cpmtools.Make.Blank.{system_bytes}

window-unused :
    (n p : ℕ) (s : List ℕ)
    → ((i : ℕ) → p ≤ i → i < p + n → get_or s i 0 ≡ unused)
    → window n p s ≡ replicate n unused
unfolding window
window-unused zero p s all = refl
window-unused (suc n) p s all =
    ap (λ x. x ∷ window n (suc p) s) (all p (omega arith) (omega arith))
    ∙ ap (λ xs. unused ∷ xs)
        (window-unused n (suc p) s (λ i a b. all i (omega arith) (omega arith)))

-- The directory is whole tracks.
whole_tracks :
    (d : Drive)
    → 0 < track_bytes d
    → (k : ℕ) × (directory_bytes d ≡ k * track_bytes d) × (d.maxdir * 32 ≤ directory_bytes d)
unfolding directory_bytes
whole_tracks d h =
    let bytes = d.maxdir * 32 in
    let size = track_bytes d in
    let round = λ (b : Bool). if b then bytes else (bytes + size) / size * size in
    elim (Bool-cases (bytes % size == 0)) [
      | inl fits ↦
          let parts = div-add-mod' bytes size in
          let exact : directory_bytes d ≡ bytes = ap round fits in
          let none_left : bytes % size ≡ 0 = ground (arith, fits) in
          (bytes / size, exact ∙ omega (arith, parts, none_left), omega (arith, exact))
      | inr exceeds ↦
          let more : directory_bytes d ≡ (bytes + size) / size * size = ap round exceeds in
          let high = lt-div-mul-add {a = bytes + size} {b = size} h in
          ((bytes + size) / size, more, omega (arith, more, high))
    ]

-- A sector of the directory's blocks lies in the directory.
module _ (d : Drive) (whole : IsWhole d) (b c : ℕ) (h : b < dir_blocks d)
    (i : c < per_block d) where
  inside_directory :
      (k : ℕ)
      → 0 < d.sec_length
      → dir_blocks d * d.blksiz ≤ k * track_bytes d
      → (d.boottrk ≤ track_of d b c) × (track_of d b c < d.boottrk + k)
  inside_directory k long room =
      let m = per_block d in
      let linear = b * m + c in
      let blocks = mul-le-mul_right {m = suc b} {n = dir_blocks d} m h in
      let below : suc linear ≤ dir_blocks d * m = omega (arith, blocks, i) in
      let sized = mul-le-mul_right {m = suc linear} {n = dir_blocks d * m} d.sec_length below in
      let same = ap (λ (z : ℕ). dir_blocks d * z) whole.whole_sectors in
      let less =
        lt_of_mul-lt-mul_left d.sec_length {m = linear} {n = k * d.sectrk}
          (omega (arith, sized, same, room, long)) in
      (
        (le-div_iff_mul-le whole.sectors_positive).1 (omega arith),
        (div-lt_iff_lt-mul whole.sectors_positive).1 (omega (arith, less)),
      )

  -- Its bytes in the file.
  inside_file :
      (k : ℕ)
      → 0 < d.sec_length
      → d.offset ≡ 0
      → dir_blocks d * d.blksiz ≤ k * track_bytes d
      → (sector_of d b c < d.sectrk)
        × (system_bytes d ≤ position d (track_of d b c) (sector_of d b c))
        × (position d (track_of d b c) (sector_of d b c) + d.sec_length
            ≤ system_bytes d + k * track_bytes d)
  unfolding position
  inside_file k long start room =
      let (low, high) = inside_directory k long room in
      let t = track_of d b c in
      let r = sector_of d b c in
      let rest = mod-lt (base d b + c) whole.sectors_positive in
      let bounds = skew_table_bounds d.sectrk d.skew ((base d b + c) % d.sectrk) rest in
      let on_track : r < d.sectrk =
        subst (λ (tab : List ℕ). get_or tab ((base d b + c) % d.sectrk) 0 < d.sectrk)
          (sym whole.skew_eq) bounds.1 in
      let from_low = mul-le-mul_right {m = d.boottrk} {n = t} d.sectrk low in
      let from_low' =
        mul-le-mul_right {m = d.boottrk * d.sectrk} {n = r + t * d.sectrk} d.sec_length
          (omega (arith, from_low)) in
      let to_high = mul-le-mul_right {m = suc t} {n = d.boottrk + k} d.sectrk high in
      let to_high' =
        mul-le-mul_right {m = suc (r + t * d.sectrk)} {n = (d.boottrk + k) * d.sectrk} d.sec_length
          (omega (arith, to_high, on_track)) in
      (on_track, omega (arith, from_low', start), omega (arith, to_high', start))

  -- A file with 0xe5 throughout the directory has 0xe5 in the sector.
  pub sector-unused :
      (s : List ℕ)
      → 0 < d.sec_length
      → d.offset ≡ 0
      → dir_blocks d * d.blksiz ≤ directory_bytes d
      → track_bytes d * d.boottrk + directory_bytes d ≤ track_bytes d * d.tracks
      → ((j : ℕ)
          → system_bytes d ≤ j
          → j < system_bytes d + directory_bytes d
          → get_or s j 0 ≡ unused)
      → read_sector d s (track_of d b c) (sector_of d b c) ≡ some (replicate d.sec_length unused)
  sector-unused s long start exact room all =
      let positive = mul-le-mul_right {m = 1} {n = d.sec_length} d.sectrk long in
      let size = track_bytes d in
      let some_track : 0 < size = omega (arith, positive, whole.sectors_positive) in
      let (k, tracks, up) = whole_tracks d some_track in
      let fits : dir_blocks d * d.blksiz ≤ k * track_bytes d = omega (arith, tracks, up, exact) in
      let (low, high) = inside_directory k long fits in
      let (on_track, from, to) = inside_file k long start fits in
      let t = track_of d b c in
      let r = sector_of d b c in
      let in_size = mul-le-mul_right {m = suc t} {n = d.boottrk + k} size high in
      let on_disk : t < d.tracks =
        lt_of_mul-lt-mul_left size {m = t} {n = d.tracks}
          (omega (arith, in_size, room, tracks, some_track)) in
      let guard : (ltb r d.sectrk && ltb t d.tracks) ≡ true = ground (arith, on_track, on_disk) in
      read_sector-window d s t r
      ∙ ap (λ (g : Bool). if g then some (window d.sec_length (position d t r) s) else none) guard
      ∙ ap some (
          window-unused d.sec_length (position d t r) s
            (λ j a e. all j (omega (arith, a, from)) (omega (arith, e, to, tracks))))
