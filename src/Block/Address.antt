-- ===== src/Block/Address.antt =====
-- Where the sectors of a block lie: the track and the sector that `readBlock` and `writeBlock` of
-- cpmfs.c step to, by division, and that no two sectors of the data area lie at one place.
use cpmtools.Base.{
  ◌≢◌, ◌⊎◌, inl, inr, ℕ, suc, ◌+◌, ◌*◌, ◌/◌, ◌%◌, ◌<◌, ◌≡◌, refl, sym, ap, ◌∙◌, arith, get_or,
}
use native.Mathlib.Nat.{
  div-add-mod', mul-add-div_right, div-eq_of_lt, mul-add-mod_self_right, mod-eq_of_lt, mod-lt,
  add-mul-mod_self_left, add-mul-div_left,
}
use native.Mathlib.Decide.{ℕ_discrete, dec_lt}
use cpmtools.Super.{Drive}
use cpmtools.Skew.{skew_table}
use cpmtools.Skew.Table.{skew_table_injective}
use cpmtools.Block.{next_sect, next_track, per_block}

pub div-mod_unique : (x n q r : ℕ) → r < n → x ≡ q * n + r → (x / n ≡ q) × (x % n ≡ r)
div-mod_unique x n q r h e =
    let small : r / n ≡ 0 = div-eq_of_lt h in
    (
      ap (λ k. k / n) e ∙ mul-add-div_right {m = n} (omega arith) q r ∙ omega arith,
      ap (λ k. k % n) e ∙ mul-add-mod_self_right q n r ∙ mod-eq_of_lt h,
    )

-- One step of the loops is one sector further on.
pub next_linear :
    (n x : ℕ)
    → 0 < n
    → (next_sect n (x % n) ≡ suc x % n) × (next_track n (x % n) (x / n) ≡ suc x / n)
next_linear n x h = elim (dec_lt (suc (x % n)) n) [
  | yes p ↦
      let u = div-mod_unique (suc x) n (x / n) (suc (x % n)) p (omega (arith, div-add-mod' x n)) in
      (ground (arith, u.1), ground (arith, u.0))
  | no p ↦
      let u =
        div-mod_unique (suc x) n (suc (x / n)) 0 h (grind (arith, div-add-mod' x n, mod-lt x h)) in
      (ground (arith, u.1), ground (arith, u.0))
]

-- The number of a block's first sector, counted from the start of the disk.
abbrev pub base : Drive → ℕ → ℕ
base d blockno = blockno * per_block d + d.sectrk * d.boottrk

-- The track and the physical sector of sector `c` of a block.
abbrev pub track_of : Drive → ℕ → ℕ → ℕ
track_of d blockno c = (base d blockno + c) / d.sectrk

abbrev pub sector_of : Drive → ℕ → ℕ → ℕ
sector_of d blockno c = get_or d.skewtab ((base d blockno + c) % d.sectrk) 0

-- `writeBlock` starts where `readBlock` does.
pub write_start :
    (d : Drive) (blockno : ℕ)
    → 0 < d.sectrk
    → ((blockno * per_block d) % d.sectrk ≡ base d blockno % d.sectrk)
      × ((blockno * per_block d) / d.sectrk + d.boottrk ≡ base d blockno / d.sectrk)
write_start d blockno h = (
  sym (add-mul-mod_self_left (blockno * per_block d) d.sectrk d.boottrk),
  sym (add-mul-div_left (blockno * per_block d) d.boottrk h),
)

linear-eq : (n x y : ℕ) → x / n ≡ y / n → x % n ≡ y % n → x ≡ y
linear-eq n x y e f =
    sym (div-add-mod' x n)
    ∙ ap (λ q. q * n + x % n) e
    ∙ ap (λ r. y / n * n + r) f
    ∙ div-add-mod' y n

pub sector_of-injective :
    (d : Drive) (b1 c1 b2 c2 : ℕ)
    → 0 < d.sectrk
    → d.skewtab ≡ skew_table d.sectrk d.skew
    → c1 < per_block d
    → c2 < per_block d
    → track_of d b1 c1 ≡ track_of d b2 c2
    → sector_of d b1 c1 ≡ sector_of d b2 c2
    → (b1 ≡ b2) × (c1 ≡ c2)
sector_of-injective d b1 c1 b2 c2 h skew p q e f =
    let k = per_block d in
    let x = base d b1 + c1 in
    let y = base d b2 + c2 in
    let same : x % d.sectrk ≡ y % d.sectrk =
      skew_table_injective d.sectrk d.skew (x % d.sectrk) (y % d.sectrk) (mod-lt x h) (mod-lt y h)
        (rw skew at f) in
    let linear : x ≡ y = linear-eq d.sectrk x y e same in
    let sum : b1 * k + c1 ≡ b2 * k + c2 = omega arith in
    let u = div-mod_unique (b1 * k + c1) k b1 c1 p refl in
    let v = div-mod_unique (b1 * k + c1) k b2 c2 q sum in (sym u.0 ∙ v.0, sym u.1 ∙ v.1)

-- Two sectors of blocks lie at different places, a track and a sector, unless they are the same
-- sector of the same block, if the skew table is the one that `cpmReadSuper` computes.
pub places_apart :
    (d : Drive) (b1 c1 b2 c2 : ℕ)
    → 0 < d.sectrk
    → d.skewtab ≡ skew_table d.sectrk d.skew
    → c1 < per_block d
    → c2 < per_block d
    → (b1 ≢ b2) ⊎ (c1 ≢ c2)
    → (track_of d b1 c1 ≢ track_of d b2 c2) ⊎ (sector_of d b1 c1 ≢ sector_of d b2 c2)
places_apart d b1 c1 b2 c2 h skew p q apart =
    elim (ℕ_discrete (track_of d b1 c1) (track_of d b2 c2)) [
      | no t ↦ inl t
      | yes t ↦ inr (λ s.
          let same = sector_of-injective d b1 c1 b2 c2 h skew p q t s in
          elim apart [ inl b ↦ b same.0 | inr c ↦ c same.1 ])
    ]
