-- ===== src/Posix/Sectors.antt =====
-- The sectors of device_posix.c are kept apart in the image file, so the device keeps what is written.
use cpmtools.Base.{
  ℕ, zero, suc, ◌+◌, ◌-◌, ◌*◌, ◌≤◌, ◌<◌, ◌≡◌, ◌≢◌, ◌⊎◌, inl, inr, refl, Bool, sym, ap, ◌∙◌, true,
  ◌&&◌, List, [], ◌∷◌, ◌++◌, arith, none, some, Bool-cases, ◌==◌, ltb, if◌then◌else◌, length,
  get_or, take, drop, replicate,
}
use mathlib.Core.Path.{subst}
use native.Mathlib.Decide.{ℕ_discrete, dec_lt}
use native.Mathlib.Nat.{mul-le-mul_right}
use cpmtools.Super.{Drive}
use cpmtools.Block.Storage.{Keeps}
use cpmtools.Block.Address.{div-mod_unique}
use cpmtools.Posix.{over, write_at, position, zero_fill, read_sector, write_sector, image}

-- `n` bytes of a file from a position on, zeros behind its end
unfoldable pub window : ℕ → ℕ → List ℕ → List ℕ
window zero p s = []
window (suc n) p s = get_or s p 0 ∷ window n (suc p) s

window-cons : (n p x : ℕ) (s : List ℕ) → window n (suc p) (x ∷ s) ≡ window n p s
unfolding window
window-cons zero p x s = refl
window-cons (suc n) p x s = ap (λ t. get_or s p 0 ∷ t) (window-cons n (suc p) x s)

window-nil : (n p : ℕ) → window n p [] ≡ replicate n 0
unfolding window
window-nil zero p = refl
window-nil (suc n) p = ap (λ t. 0 ∷ t) (window-nil n (suc p))

drop-nil : (p : ℕ) → drop {A = ℕ} p [] ≡ []
drop-nil zero = refl
drop-nil (suc p) = refl

zero_fill-window : (n p : ℕ) (s : List ℕ) → zero_fill n (take n (drop p s)) ≡ window n p s
unfolding window
zero_fill-window zero p s = refl
zero_fill-window (suc n) p [] =
    ap (λ t. zero_fill (suc n) (take (suc n) t)) (drop-nil p)
    ∙ ap (λ k. replicate k 0) {x = suc n - 0} {y = suc n} (omega arith)
    ∙ sym (window-nil (suc n) p)
zero_fill-window (suc n) zero (x ∷ s) =
    ap (λ t. x ∷ t)
      (ap (λ k. take n s ++ replicate k 0) {x = suc n - suc (length (take n s))}
          {y = n - length (take n s)} (omega arith)
        ∙ zero_fill-window n 0 s
        ∙ sym (window-cons n 0 x s))
zero_fill-window (suc n) (suc p) (x ∷ s) =
    zero_fill-window (suc n) p s ∙ sym (window-cons (suc n) p x s)

get_or-over :
    (s bytes : List ℕ) (i : ℕ) → length bytes ≤ i → get_or (over s bytes) i 0 ≡ get_or s i 0
unfolding over
get_or-over s [] i h = refl
get_or-over [] (b ∷ bs) zero h = absurd (omega arith)
get_or-over [] (b ∷ bs) (suc i) h = get_or-over [] bs i (omega arith)
get_or-over (x ∷ s) (b ∷ bs) zero h = absurd (omega arith)
get_or-over (x ∷ s) (b ∷ bs) (suc i) h = get_or-over s bs i (omega arith)

-- A byte that is not among those written is as it was.
get_or-write_at :
    (s : List ℕ) (p : ℕ) (bytes : List ℕ) (i : ℕ)
    → (i < p) ⊎ (p + length bytes ≤ i)
    → get_or (write_at s p bytes) i 0 ≡ get_or s i 0
unfolding write_at
get_or-write_at s zero bytes i h = get_or-over s bytes i (omega arith)
get_or-write_at [] (suc p) bytes zero h = refl
get_or-write_at [] (suc p) bytes (suc i) h = get_or-write_at [] p bytes i (omega arith)
get_or-write_at (x ∷ s) (suc p) bytes zero h = refl
get_or-write_at (x ∷ s) (suc p) bytes (suc i) h = get_or-write_at s p bytes i (omega arith)

window-over : (s bytes : List ℕ) → window (length bytes) 0 (over s bytes) ≡ bytes
unfolding window over
window-over s [] = refl
window-over [] (b ∷ bs) =
    ap (λ t. b ∷ t) (window-cons (length bs) 0 b (over [] bs) ∙ window-over [] bs)
window-over (x ∷ s) (b ∷ bs) =
    ap (λ t. b ∷ t) (window-cons (length bs) 0 b (over s bs) ∙ window-over s bs)

window-write_at :
    (s : List ℕ) (p : ℕ) (bytes : List ℕ) → window (length bytes) p (write_at s p bytes) ≡ bytes
unfolding write_at
window-write_at s zero bytes = window-over s bytes
window-write_at [] (suc p) bytes =
    window-cons (length bytes) p 0 (write_at [] p bytes) ∙ window-write_at [] p bytes
window-write_at (x ∷ s) (suc p) bytes =
    window-cons (length bytes) p x (write_at s p bytes) ∙ window-write_at s p bytes

window-write_at_apart :
    (n q : ℕ) (s : List ℕ) (p : ℕ) (bytes : List ℕ)
    → (q + n ≤ p) ⊎ (p + length bytes ≤ q)
    → window n q (write_at s p bytes) ≡ window n q s
unfolding window
window-write_at_apart zero q s p bytes h = refl
window-write_at_apart (suc n) q s p bytes h =
    ap (λ t. t ∷ window n (suc q) (write_at s p bytes)) (get_or-write_at s p bytes q (omega arith))
    ∙ ap (λ t. get_or s q 0 ∷ t) (window-write_at_apart n (suc q) s p bytes (omega arith))

module _ (d : Drive) where
  pub read_sector-window :
      (s : List ℕ) (t r : ℕ)
      → read_sector d s t r ≡ (
          if ltb r d.sectrk && ltb t d.tracks
          then some (window d.sec_length (position d t r) s)
          else none)
  unfolding read_sector
  read_sector-window s t r =
      ap (λ w. if ltb r d.sectrk && ltb t d.tracks then some w else none)
        (zero_fill-window d.sec_length (position d t r) s)

  -- What a write that succeeds has done.
  write_sector-eq-some :
      (s s' : List ℕ) (t r : ℕ) (bytes : List ℕ)
      → write_sector d s t r bytes ≡ some s'
      → (r < d.sectrk)
        × (t < d.tracks)
        × (length bytes ≡ d.sec_length)
        × (write_at s (position d t r) bytes ≡ s')
  unfolding write_sector
  write_sector-eq-some s s' t r bytes h =
      let guard = ltb r d.sectrk && ltb t d.tracks && length bytes == d.sec_length in
      elim (Bool-cases guard) [
        | inl holds ↦ (ground arith, ground arith, ground arith, ground arith)
        | inr fails ↦ absurd (ground arith)
      ]

  -- Different sectors lie apart in the file.
  positions_apart :
      (t r t' r' : ℕ)
      → r < d.sectrk
      → r' < d.sectrk
      → (t ≢ t') ⊎ (r ≢ r')
      → (position d t' r' + d.sec_length ≤ position d t r)
        ⊎ (position d t r + d.sec_length ≤ position d t' r')
  unfolding position
  positions_apart t r t' r' h h' apart =
      let a = r + t * d.sectrk in
      let b = r' + t' * d.sectrk in
      elim (dec_lt a b) [
        | yes before ↦
            let step = mul-le-mul_right {m = suc a} {n = b} d.sec_length before in
            inr (omega (arith, step))
        | no after ↦ elim (ℕ_discrete a b) [
          | yes same ↦
              let u = div-mod_unique a d.sectrk t r h (omega arith) in
              let u' = div-mod_unique a d.sectrk t' r' h' (omega arith) in
              let same_t : t ≡ t' = sym u.0 ∙ u'.0 in
              let same_r : r ≡ r' = sym u.1 ∙ u'.1 in
              elim apart [ inl other ↦ absurd (other same_t) | inr other ↦ absurd (other same_r) ]
          | no other ↦
              let less : suc b ≤ a = omega arith in
              let step = mul-le-mul_right {m = suc b} {n = a} d.sec_length less in
              inl (omega (arith, step))
        ]
      ]

  sector-written :
      (s s' : List ℕ) (t r : ℕ) (bytes : List ℕ)
      → write_sector d s t r bytes ≡ some s'
      → read_sector d s' t r ≡ some bytes
  sector-written s s' t r bytes h =
      let (in_track, on_disk, whole, stored) = write_sector-eq-some s s' t r bytes h in
      let p = position d t r in
      let guard : (ltb r d.sectrk && ltb t d.tracks) ≡ true = ground arith in
      read_sector-window s' t r
      ∙ ap (λ g. if g then some (window d.sec_length p s') else none) guard
      ∙ ap some (
          ap (window d.sec_length p) (sym stored)
          ∙ ap (λ n. window n p (write_at s p bytes)) (sym whole)
          ∙ window-write_at s p bytes)

  sector-unwritten :
      (s s' : List ℕ) (t r t' r' : ℕ) (bytes : List ℕ)
      → write_sector d s t r bytes ≡ some s'
      → (t ≢ t') ⊎ (r ≢ r')
      → read_sector d s' t' r' ≡ read_sector d s t' r'
  sector-unwritten s s' t r t' r' bytes h apart =
      let (in_track, on_disk, whole, stored) = write_sector-eq-some s s' t r bytes h in
      let n = d.sec_length in
      let p = position d t r in
      let p' = position d t' r' in
      let guard = ltb r' d.sectrk && ltb t' d.tracks in
      let read = λ (g : Bool) (w : List ℕ). if g then some w else none in
      elim (Bool-cases guard) [
        | inl holds ↦
            let in_track' : r' < d.sectrk = ground arith in
            let clear = positions_apart t r t' r' in_track in_track' apart in
            let behind : (p' + n ≤ p) ⊎ (p + length bytes ≤ p') =
              subst (λ k. (p' + n ≤ p) ⊎ (p + k ≤ p')) (sym whole) clear in
            read_sector-window s' t' r'
            ∙ ap (read guard)
                (ap (window n p') (sym stored) ∙ window-write_at_apart n p' s p bytes behind)
            ∙ sym (read_sector-window s t' r')
        | inr fails ↦
            read_sector-window s' t' r'
            ∙ ap (λ g. read g (window n p' s')) fails
            ∙ ap (λ g. read g (window n p' s)) (sym fails)
            ∙ sym (read_sector-window s t' r')
      ]

-- The device of an image file keeps the bytes of a sector until that sector is written again, as
-- the reading and writing of blocks relies on.
pub image-Keeps : (d : Drive) → Keeps (image d)
image-Keeps d = record { written = sector-written d; unwritten = sector-unwritten d }
