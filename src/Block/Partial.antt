-- ===== src/Block/Partial.antt =====
-- What `readBlock` of cpmfs.c reads when it is given a first and a last sector of a block.
use cpmtools.Base.{
  ℕ, zero, suc, ◌+◌, ◌-◌, ◌*◌, ◌/◌, ◌%◌, ◌≤◌, ◌<◌, ◌≡◌, inl, inr, refl, sym, ap, ◌∙◌, false, List,
  [], ◌∷◌, ◌++◌, arith, leb, Option, none, some, Bool-cases, length, take, drop, get_or,
}
use native.Mathlib.Nat.{mul-le-mul_left}
use native.Mathlib.Decide.{dec_lt}
use cpmtools.Super.{Drive, Result, ok}
use cpmtools.Block.{Device, splice, per_block, read_block}
use cpmtools.Block.Address.{track_of, sector_of, div-mod_unique}
use cpmtools.Block.Linear.{read_linear, read_block-linear}

get_or-append : (xs ys : List ℕ) (i : ℕ) → i < length xs → get_or (xs ++ ys) i 0 ≡ get_or xs i 0
get_or-append [] ys i h = absurd (omega arith)
get_or-append (x ∷ xs) ys zero h = refl
get_or-append (x ∷ xs) ys (suc i) h = get_or-append xs ys i (omega arith)

length-append_drop :
    (xs buffer : List ℕ)
    → length xs ≤ length buffer
    → length (xs ++ drop (length xs) buffer) ≡ length buffer
length-append_drop [] buffer h = refl
length-append_drop (x ∷ xs) [] h = absurd (omega arith)
length-append_drop (x ∷ xs) (y ∷ ys) h = ap suc (length-append_drop xs ys (omega arith))

splice-cons :
    (x : ℕ) (buffer : List ℕ) (k : ℕ) (bytes : List ℕ)
    → splice (x ∷ buffer) (suc k) bytes ≡ x ∷ splice buffer k bytes
splice-cons x buffer k bytes =
    ap (λ m. x ∷ (take k buffer ++ (bytes ++ drop m (x ∷ buffer)))) {x = suc k + length bytes}
      {y = suc (k + length bytes)} (omega arith)

splice-zero : (buffer bytes : List ℕ) → splice buffer 0 bytes ≡ bytes ++ drop (length bytes) buffer
splice-zero buffer bytes =
    ap (λ m. bytes ++ drop m buffer) {x = 0 + length bytes} {y = length bytes} (omega arith)

pub length-splice :
    (buffer : List ℕ) (k : ℕ) (bytes : List ℕ)
    → k + length bytes ≤ length buffer
    → length (splice buffer k bytes) ≡ length buffer
length-splice buffer zero bytes h =
    ap length (splice-zero buffer bytes) ∙ length-append_drop bytes buffer (omega arith)
length-splice [] (suc k) bytes h = absurd (omega arith)
length-splice (x ∷ buffer) (suc k) bytes h =
    ap length (splice-cons x buffer k bytes) ∙ ap suc (length-splice buffer k bytes (omega arith))

pub get_or-splice_in :
    (buffer : List ℕ) (k : ℕ) (bytes : List ℕ) (i : ℕ)
    → k ≤ length buffer
    → i < length bytes
    → get_or (splice buffer k bytes) (k + i) 0 ≡ get_or bytes i 0
get_or-splice_in buffer zero bytes i h p =
    ap (λ xs. get_or xs (0 + i) 0) (splice-zero buffer bytes)
    ∙ ap (λ m. get_or (bytes ++ drop (length bytes) buffer) m 0) {x = 0 + i} {y = i} (omega arith)
    ∙ get_or-append bytes (drop (length bytes) buffer) i p
get_or-splice_in [] (suc k) bytes i h p = absurd (omega arith)
get_or-splice_in (x ∷ buffer) (suc k) bytes i h p =
    ap (λ xs. get_or xs (suc k + i) 0) (splice-cons x buffer k bytes)
    ∙ ap (λ m. get_or (x ∷ splice buffer k bytes) m 0) {x = suc k + i} {y = suc (k + i)}
        (omega arith)
    ∙ get_or-splice_in buffer k bytes i (omega arith) p

pub get_or-splice_before :
    (buffer : List ℕ) (k : ℕ) (bytes : List ℕ) (i : ℕ)
    → k ≤ length buffer
    → i < k
    → get_or (splice buffer k bytes) i 0 ≡ get_or buffer i 0
get_or-splice_before buffer zero bytes i h p = absurd (omega arith)
get_or-splice_before [] (suc k) bytes i h p = absurd (omega arith)
get_or-splice_before (x ∷ buffer) (suc k) bytes zero h p =
    ap (λ xs. get_or xs 0 0) (splice-cons x buffer k bytes)
get_or-splice_before (x ∷ buffer) (suc k) bytes (suc i) h p =
    ap (λ xs. get_or xs (suc i) 0) (splice-cons x buffer k bytes)
    ∙ get_or-splice_before buffer k bytes i (omega arith) (omega arith)

abbrev byte_in : Option (List ℕ) → ℕ → ℕ
byte_in none i = 0
byte_in (some bytes) i = get_or bytes i 0

module _ {S : Type 0} (dev : Device S) (d : Drive) (s : S) where
  -- What the device returns for sector `c` of a block.
  abbrev sector_at : ℕ → ℕ → Option (List ℕ)
  sector_at block c = dev.read_sector s (track_of d block c) (sector_of d block c)

  -- The byte at an offset of a block; 0 where its sector cannot be read.
  abbrev pub disk_byte : ℕ → ℕ → ℕ
  disk_byte block o = byte_in (sector_at block (o / d.sec_length)) (o % d.sec_length)

  -- The sectors of the blocks can be read and have the length of a sector.
  pub record IsReadable : Type 0 where
    pub sector : ℕ → ℕ → List ℕ
    pub reads :
        (b c : ℕ)
        → b < d.size
        → c < per_block d
        → dev.read_sector s (track_of d b c) (sector_of d b c) ≡ some (sector b c)
    pub sector_length :
        (b c : ℕ) → b < d.size → c < per_block d → length (sector b c) ≡ d.sec_length

  -- A buffer that holds the bytes of a block from one offset to another.
  pub record Holds (block low high : ℕ) (size : ℕ) (r : Result (Unit {0}) × List ℕ) : Type 0 where
    pub buffer : List ℕ
    pub result : r ≡ (ok tt, buffer)
    pub length_eq : length buffer ≡ size
    pub bytes : (o : ℕ) → low ≤ o → o < high → get_or buffer o 0 ≡ disk_byte block o

  resized :
      {block low high high' size size' : ℕ} {r : Result (Unit {0}) × List ℕ}
      → Holds block low high size r
      → high ≡ high'
      → size ≡ size'
      → Holds block low high' size' r
  resized h p q = record {
    buffer = h.buffer;
    result = h.result;
    length_eq = h.length_eq ∙ q;
    bytes = λ o a b. h.bytes o a (omega (arith, b, p));
  }

  module _ (readable : IsReadable) (block : ℕ) (inside : block < d.size) where
    disk_byte_in :
        (c i : ℕ)
        → c < per_block d
        → i < d.sec_length
        → disk_byte block (d.sec_length * c + i) ≡ get_or (readable.sector block c) i 0
    disk_byte_in c i p q =
        let u = div-mod_unique (d.sec_length * c + i) d.sec_length c i q (omega arith) in
        ap (λ x. byte_in (sector_at block x) ((d.sec_length * c + i) % d.sec_length)) u.0
        ∙ ap (byte_in (sector_at block c)) u.1
        ∙ ap (λ r. byte_in r i) (readable.reads block c inside p)

    early : (c start o : ℕ) → c < start → d.sec_length * start ≤ o → ¬ (o < d.sec_length * suc c)
    early c start o h p q = omega (arith, mul-le-mul_left d.sec_length h, p, q)

    -- Sectors `c` to `c + n`, where the buffer has those from `start` to `c`.
    read_linear_range :
        (n c start : ℕ) (buffer : List ℕ)
        → c + n ≤ per_block d
        → d.sec_length * per_block d ≤ length buffer
        → ((o : ℕ)
            → d.sec_length * start ≤ o
            → o < d.sec_length * c
            → get_or buffer o 0 ≡ disk_byte block o)
        → Holds block
            (d.sec_length * start)
            (d.sec_length * (c + n))
            (length buffer)
            (read_linear dev d block n c start s buffer)
    unfolding read_linear
    read_linear_range zero c start buffer end room before = record {
      buffer = buffer;
      result = refl;
      length_eq = refl;
      bytes = λ o p q. before o p (omega arith);
    }
    read_linear_range (suc n) c start buffer end room before = elim (Bool-cases (leb start c)) [
      | inr low ↦
          let h : c < start = ground (arith, low) in
          let r =
            read_linear_range n (suc c) start buffer (omega arith) room
              (λ o p q. absurd (early c start o h p q)) in
          rw (low, read_linear)
            (resized r (ap (λ m. d.sec_length * m) {x = suc c + n} {y = c + suc n} (omega arith))
              refl)
      | inl high ↦
          let h : start ≤ c = ground (arith, high) in
          let l = d.sec_length in
          let k = per_block d in
          let bytes = readable.sector block c in
          let long = readable.sector_length block c inside (omega arith) in
          let fits : l * c + length bytes ≤ length buffer =
            omega (arith, long, room, mul-le-mul_left {m = suc c} {n = k} l (omega arith)) in
          let next = splice buffer (l * c) bytes in
          let same = length-splice buffer (l * c) bytes fits in
          let r =
            read_linear_range n (suc c) start next (omega arith) (omega (arith, same, room))
              (λ o p q. elim (dec_lt o (l * c)) [
                | yes below ↦
                    get_or-splice_before buffer (l * c) bytes o (omega arith) below
                    ∙ before o p below
                | no above ↦
                    let i = o - l * c in
                    let small : i < l = omega arith in
                    let whole : l * c + i ≡ o = omega arith in
                    ap (λ m. get_or next m 0) (sym whole)
                    ∙ get_or-splice_in buffer (l * c) bytes i (omega arith) (omega arith)
                    ∙ sym (disk_byte_in c i (omega arith) small)
                    ∙ ap (disk_byte block) whole
              ]) in
          rw (high, readable.reads block c inside (omega arith), read_linear)
            (resized r (ap (λ m. l * m) {x = suc c + n} {y = c + suc n} (omega arith)) same)
    ]

    -- `readBlock` from sector `start` to sector `end` of the block
    pub read_block-Holds :
        (buffer : List ℕ) (start end : ℕ)
        → 0 < d.sectrk
        → end < per_block d
        → d.sec_length * per_block d ≤ length buffer
        → Holds block
            (d.sec_length * start)
            (d.sec_length * suc end)
            (length buffer)
            (read_block dev d block buffer start (some end) s)
    read_block-Holds buffer start end h last room =
        let on_disk : leb d.size block ≡ false = ground (arith, inside) in
        let r =
          read_linear_range (suc end) 0 start buffer (omega arith) room
            (λ o p q. absurd (omega (arith, p, q))) in
        rw (read_block-linear dev d block buffer start (some end) s h, on_disk)
          (resized r (ap (λ m. d.sec_length * m) {x = 0 + suc end} {y = suc end} (omega arith))
            refl)
