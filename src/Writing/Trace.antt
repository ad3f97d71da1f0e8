-- ===== src/Writing/Trace.antt =====
-- What `cpmWrite` of cpmfs.c does to the world beyond the program: calls of `time`, and calls of
-- `writeBlock` with a buffer that holds the next bytes at their place in the block.
use cpmtools.Base.{
  ℕ, zero, suc, ◌+◌, ◌-◌, ◌*◌, ◌%◌, ◌≤◌, ◌<◌, ◌≡◌, ◌≢◌, inl, inr, refl, sym, ap, ◌∙◌, List, [], ◌∷◌,
  ◌++◌, arith, ◌==◌, some, set, length-set, get_or, get_or-set_self, get_or-set_ne, length,
  Bool-cases,
}
use mathlib.Core.Path.{subst}
use native.Mathlib.Nat.{mod-lt}
use cpmtools.Super.{Drive}
use cpmtools.Clock.{Clock}
use cpmtools.Block.{Device, write_block}
use cpmtools.Writing.{copy_bytes}
use cpmtools.Block.Address.{div-mod_unique}
use cpmtools.Sync.Bytes.{append_assoc, length-append}

-- Calls of `time` lead from one state of the world to another.
pub data Later {S : Type 0} (clock : Clock S) : S → S → Type 0 where
  at_once : {s : S} → Later clock s s
  tick : {s s' : S} → Later clock (clock.time s).1 s' → Later clock s s'

pub Later-trans :
    {S : Type 0} {clock : Clock S} {s s' s2 : S}
    → Later clock s s'
    → Later clock s' s2
    → Later clock s s2
Later-trans at_once q = q
Later-trans (tick p) q = tick (Later-trans p q)

-- The buffer of a block holds the bytes from a position on at their offsets in the block.
abbrev pub HasBytes : ℕ → ℕ → List ℕ → List ℕ → Type 0
HasBytes size pos new buffer =
    (k : ℕ) → k < length new → get_or buffer ((pos + k) % size) 0 ≡ get_or new k 0

-- The bytes from a position on are handed to `writeBlock`, in their order, by rounds of one byte at least,
-- each within a block.
pub data Written {S : Type 0} (clock : Clock S) (dev : Device S) (size : ℕ)
    : ℕ → List ℕ → S → S → Type 0 where
  nothing : {pos : ℕ} {s : S} → Written clock dev size pos [] s s
  wait :
      {pos : ℕ} {bytes : List ℕ} {s s' : S}
      → Written clock dev size pos bytes (clock.time s).1 s'
      → Written clock dev size pos bytes s s'
  put :
      {pos : ℕ} {s s' : S} (new rest : List ℕ) (d : Drive) (block start end : ℕ) (buffer : List ℕ)
      → 0 < length new
      → HasBytes size pos new buffer
      → Written clock dev size
          (pos + length new)
          rest
          (write_block dev d block buffer start (some end) s).1
          s'
      → Written clock dev size pos (new ++ rest) s s'

pub Later-Written :
    {S : Type 0} {clock : Clock S} {dev : Device S} {size pos : ℕ} {bytes : List ℕ} {s s' s2 : S}
    → Later clock s s'
    → Written clock dev size pos bytes s' s2
    → Written clock dev size pos bytes s s2
Later-Written at_once q = q
Later-Written (tick p) q = wait (Later-Written p q)

pub Written-append :
    {S : Type 0} {clock : Clock S} {dev : Device S} {size pos : ℕ} {xs ys : List ℕ} {s s' s2 : S}
    → Written clock dev size pos xs s s'
    → Written clock dev size (pos + length xs) ys s' s2
    → Written clock dev size pos (xs ++ ys) s s2
Written-append {clock = clock} {dev = dev} {size = size} {ys = ys} {s2 = s2} (nothing {pos} {s}) q =
    subst (λ (n : ℕ). Written clock dev size n ys s s2) (omega arith) q
Written-append (wait p) q = wait (Written-append p q)
Written-append {clock = clock} {dev = dev} {size = size} {ys = ys} {s2 = s2}
      (put {pos} {s} {s'} new rest d block start end buffer some_new has p) q =
    subst (λ bs. Written clock dev size pos bs s s2) (sym (append_assoc new rest ys))
      (put new (rest ++ ys) d block start end buffer some_new has (
        Written-append p (
          subst (λ (n : ℕ). Written clock dev size n ys s' s2)
            (omega (arith, length-append new rest)) q)))

-- What the loop that fills the buffer leaves: it has taken the bytes `new`, which are at their offsets.
pub record Placed (size next pos : ℕ) (buffer bytes : List ℕ) (c : List ℕ × ℕ × List ℕ × ℕ)
    : Type 0 where
  pub new : List ℕ
  pub split : bytes ≡ new ++ c.2
  pub moved : c.1 ≡ pos + length new
  pub same_length : length c.0 ≡ length buffer
  pub has : HasBytes size pos new c.0
  pub others :
      (i : ℕ) → ((j : ℕ) → pos ≤ j → j < next → j % size ≢ i) → get_or c.0 i 0 ≡ get_or buffer i 0

HasBytes-cons :
    (size pos b : ℕ) (new final : List ℕ)
    → get_or final (pos % size) 0 ≡ b
    → HasBytes size (suc pos) new final
    → HasBytes size pos (b ∷ new) final
HasBytes-cons size pos b new final first others zero h =
    subst (λ (n : ℕ). get_or final (n % size) 0 ≡ b) {x = pos} {y = pos + 0} (omega arith) first
HasBytes-cons size pos b new final first others (suc k) h =
    subst (λ (n : ℕ). get_or final (n % size) 0 ≡ get_or new k 0) {x = suc pos + k}
      {y = pos + suc k} (omega arith) (others k (omega (arith, h)))

-- Offsets within one block differ.
offsets_differ :
    (size next q i j : ℕ)
    → next ≡ q * size + size
    → q * size ≤ i
    → i < next
    → q * size ≤ j
    → j < next
    → i ≢ j
    → i % size ≢ j % size
offsets_differ size next q i j whole low high low' high' differ same =
    let u = div-mod_unique i size q (i - q * size) (omega (arith, whole)) (omega arith) in
    let v = div-mod_unique j size q (j - q * size) (omega (arith, whole)) (omega arith) in
    differ (omega (arith, u.1, v.1, same))

pub copy_bytes-Placed :
    (size next q : ℕ) (buffer bytes : List ℕ) (pos got : ℕ)
    → next ≡ q * size + size
    → q * size ≤ pos
    → pos ≤ next
    → size ≤ length buffer
    → Placed size next pos buffer bytes (copy_bytes size next buffer bytes pos got)
unfolding copy_bytes
copy_bytes-Placed size next q buffer [] pos got whole low high long = record {
  new = [];
  split = refl;
  moved = omega arith;
  same_length = refl;
  has = λ k p. absurd (omega (arith, p));
  others = λ i apart. refl;
}
copy_bytes-Placed size next q buffer (b ∷ bytes) pos got whole low high long =
    elim (Bool-cases (pos == next)) [
      | inl over ↦
          rw (over, copy_bytes)
            (record {
              new = [];
              split = refl;
              moved = omega arith;
              same_length = refl;
              has = λ k p. absurd (omega (arith, p));
              others = λ i apart. refl;
            })
      | inr inside ↦
          let less : pos < next = ground (arith, inside) in
          let at = pos % size in
          let same = length-set buffer at b in
          let c =
            copy_bytes-Placed size next q (set buffer at b) bytes (suc pos) (suc got) whole
              (omega (arith, low)) (omega arith) (omega (arith, same, long)) in
          let final = (copy_bytes size next (set buffer at b) bytes (suc pos) (suc got)).0 in
          let offset = mod-lt pos {m = size} (omega (arith, whole, low, less)) in
          let here : get_or final at 0 ≡ b =
            c.others at (λ j p r.
              offsets_differ size next q j pos whole (omega (arith, p, low)) r low less
                (omega (arith, p)))
            ∙ get_or-set_self buffer at b 0 (omega (arith, offset, long)) in
          let all = HasBytes-cons size pos b c.new final here c.has in
          rw (inside, copy_bytes)
            (record {
              new = b ∷ c.new;
              split = ap (λ xs. b ∷ xs) c.split;
              moved = omega (arith, c.moved);
              same_length = c.same_length ∙ same;
              has = all;
              others = λ i apart.
                  c.others i (λ j p r. apart j (omega (arith, p)) r)
                  ∙ get_or-set_ne buffer at i b 0 (apart pos (omega arith) less);
            })
    ]
