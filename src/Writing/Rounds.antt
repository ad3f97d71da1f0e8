-- ===== src/Writing/Rounds.antt =====
-- The loop of `cpmWrite` of cpmfs.c takes the bytes of the caller's buffer in their order and hands them to
-- `writeBlock`.
use cpmtools.Base.{
  ◌∙◌, ℕ, zero, suc, ◌+◌, ◌%◌, ◌≤◌, ◌<◌, ◌≡◌, ◌≢◌, ◌⊎◌, inl, inr, refl, sym, ap, true, not, ◌&&◌,
  List, [], ◌∷◌, ◌++◌, ◌/◌, arith, ◌==◌, set, length, Bool-cases,
}
use mathlib.Core.Path.{subst}
use cpmtools.Clock.{Clock}
use cpmtools.Block.{Device}
use cpmtools.Writing.{
  Writing, Step, go, stop, copy_bytes, find_extent, find_block, store, write_loop,
}
use cpmtools.Writing.Trace.{
  HasBytes, Written, nothing, wait, put, Later-Written, Written-append, copy_bytes-Placed,
}
use cpmtools.Sync.Bytes.{append_assoc, length-append}
use native.Mathlib.Nat.{lt-div-mul-add, div-mul-le_self}
use cpmtools.Writing.Same.{
  IsInBlock, itself, blksiz-update_stamps, OnStep, IsSame, IsSame-trans, IsReady,
}
use cpmtools.Writing.Progress.{Sought, HasRoom, find_extent-Sought, find_block-HasRoom}

-- What the loop that fills the buffer leaves: the bytes are counted, and it ends with none left or at the
-- end of the block.
record Copied (next pos got : ℕ) (bytes : List ℕ) (c : List ℕ × ℕ × List ℕ × ℕ) : Type 0 where
  counted : c.3 + length c.2 ≡ got + length bytes
  moved : c.1 + got ≡ pos + c.3
  not_longer : length c.2 ≤ length bytes
  shorter : pos ≢ next → 0 < length bytes → length c.2 < length bytes
  ended : (c.2 ≡ []) ⊎ (c.1 ≡ next)

copy_bytes-Copied :
    (size next : ℕ) (buffer bytes : List ℕ) (pos got : ℕ)
    → Copied next pos got bytes (copy_bytes size next buffer bytes pos got)
unfolding copy_bytes
copy_bytes-Copied size next buffer [] pos got = record {
  counted = refl;
  moved = refl;
  not_longer = omega arith;
  shorter = λ p q. absurd (omega (arith, q));
  ended = inl refl;
}
copy_bytes-Copied size next buffer (b ∷ bytes) pos got = elim (Bool-cases (pos == next)) [
  | inl over ↦
      let at : pos ≡ next = ground (arith, over) in
      rw (over, copy_bytes)
        (record {
          counted = refl;
          moved = refl;
          not_longer = omega arith;
          shorter = λ p q. absurd (p at);
          ended = inr at;
        })
  | inr inside ↦
      let c = copy_bytes-Copied size next (set buffer (pos % size) b) bytes (suc pos) (suc got) in
      rw (inside, copy_bytes)
        (record {
          counted = omega (arith, c.counted);
          moved = omega (arith, c.moved);
          not_longer = omega (arith, c.not_longer);
          shorter = λ p q. omega (arith, c.not_longer);
          ended = c.ended;
        })
]

append_nil : (xs : List ℕ) → xs ++ [] ≡ xs
append_nil [] = refl
append_nil (x ∷ xs) = ap (λ ys. x ∷ ys) (append_nil xs)

module _ {S : Type 0} (clock : Clock S) (dev : Device S) (size : ℕ) (positive : 0 < size) where
  -- The bytes that are taken on the way are handed to `writeBlock`.
  abbrev Trace : Writing S → Writing S → Type 0
  Trace w w' =
      (new : List ℕ) × (w.left ≡ new ++ w'.left)
      × (w'.pos ≡ w.pos + length new)
      × Written clock dev size w.pos new w.world w'.world

  Trace-trans : (w w' w2 : Writing S) → Trace w w' → Trace w' w2 → Trace w w2
  Trace-trans w w' w2 (new, split, moved, written) (new', split', moved', written') = (
    new ++ new',
    split ∙ ap (λ bs. new ++ bs) split' ∙ sym (append_assoc new new' w2.left),
    omega (arith, moved, moved', length-append new new'),
    Written-append written
        (subst (λ (n : ℕ). Written clock dev size n new' w'.world w2.world) moved written'),
  )

  -- What a round that stores bytes leaves.
  record Stored (w w' : Writing S) : Type 0 where
    counted : w'.got + length w'.left ≡ w.got + length w.left
    moved : w'.pos + w.got ≡ w.pos + w'.got
    shorter : 0 < length w.left → length w'.left < length w.left
    same_blksiz : w'.drive.blksiz ≡ w.drive.blksiz
    same_length : length w'.buffer ≡ length w.buffer
    trace : 0 < length w.left → Trace w w'
    ready : (w'.left ≡ []) ⊎ ((w'.findext ≡ true) ⊎ IsReady w')

  flags :
      {X : Type 0} (p e n : ℕ)
      → p ≡ n
      → ((p == e) ≡ true) ⊎ (((not (p == e) && (p == n)) ≡ true) ⊎ X)
  flags p e n h = elim (Bool-cases (p == e)) [
    | inl over ↦ inl over
    | inr inside ↦ inr (inl (ground (arith, inside, h)))
  ]

  store-Stored :
      (w : Writing S)
      → w.drive.blksiz ≡ size
      → IsInBlock w
      → size ≤ length w.buffer
      → Stored w (store clock dev w)
  unfolding store
  store-Stored w same_size in_block long =
      let b = w.drive.blksiz in
      let c = copy_bytes-Copied b w.nextblockpos w.buffer w.left w.pos w.got in
      let high = lt-div-mul-add {a = w.pos} {b = b} (omega (arith, same_size, positive)) in
      let room : w.pos ≢ w.nextblockpos = λ e. omega (arith, e, in_block, high) in
      let p =
        copy_bytes-Placed b w.nextblockpos (w.pos / b) w.buffer w.left w.pos w.got in_block
          (div-mul-le_self w.pos b) (omega (arith, in_block, high))
          (omega (arith, same_size, long)) in
      let after = copy_bytes b w.nextblockpos w.buffer w.left w.pos w.got in
      record {
        counted = c.counted;
        moved = c.moved;
        shorter = c.shorter room;
        same_blksiz = blksiz-update_stamps clock _ _ w.extent;
        same_length = p.same_length;
        trace = λ some_left.
            let len = ap length p.split ∙ length-append p.new after.2 in
            let some_new : 0 < length p.new = omega (arith, len, c.shorter room some_left) in
            (
              p.new,
              p.split,
              p.moved,
              subst (λ bs. Written clock dev size w.pos bs w.world (store clock dev w).world)
                  (append_nil p.new)
                  (put p.new [] w.drive w.block w.start w.end after.0 some_new
                    (subst (λ (n : ℕ). HasBytes n w.pos p.new after.0) same_size p.has)
                    (wait nothing)),
            );
        ready = elim c.ended [
          | inl none_left ↦ inl none_left
          | inr at ↦ inr (flags _ w.nextextpos w.nextblockpos at)
        ];
      }

  -- The bytes are counted, the position is behind the last of them, and they are handed to `writeBlock`.
  abbrev pub Counts : Writing S → Writing S → Type 0
  Counts w w' =
      (w'.got + length w'.left ≡ w.got + length w.left)
      × (w'.pos + w.got ≡ w.pos + w'.got)
      × Trace w w'

  Counts-IsSame : (w w' : Writing S) → IsSame clock w w' → Counts w w'
  Counts-IsSame w w' h =
      let same = ap length h.same_left in
      (
        omega (arith, h.same_got, same),
        omega (arith, h.same_pos, h.same_got),
        ([], sym h.same_left, omega (arith, h.same_pos), Later-Written h.later nothing),
      )

  -- How the loop ends: with all bytes written, or at a step that fails.
  abbrev pub Ends : Writing S → Step (Writing S) → Type 0
  Ends w = OnStep (λ w'. Counts w w' × (w'.left ≡ [])) (Counts w)

  Ends-Counts : (w w' : Writing S) (st : Step (Writing S)) → Counts w w' → Ends w' st → Ends w st
  Ends-Counts w w' (go v) c e =
      ((omega (arith, c.0, e.0.0), omega (arith, c.1, e.0.1), Trace-trans w w' v c.2 e.0.2), e.1)
  Ends-Counts w w' (stop why v) c e =
      (omega (arith, c.0, e.0), omega (arith, c.1, e.1), Trace-trans w w' v c.2 e.2)

  abbrev after_block : ℕ → Step (Writing S) → Step (Writing S)
  after_block fuel st = elim st [
    | stop why w2 ↦ stop why w2
    | go w2 ↦ write_loop clock dev fuel (store clock dev w2)
  ]

  abbrev after_extent : ℕ → Step (Writing S) → Step (Writing S)
  after_extent fuel st = elim st [
    | stop why w1 ↦ stop why w1
    | go w1 ↦ after_block fuel (find_block clock dev w1)
  ]

  abbrev Rounds : ℕ → Type 0
  Rounds fuel =
      (w : Writing S)
      → length w.left ≤ fuel
      → w.drive.blksiz ≡ size
      → size ≤ length w.buffer
      → (w.left ≡ []) ⊎ ((w.findext ≡ true) ⊎ IsReady w)
      → Ends w (write_loop clock dev fuel w)

  after_block-Ends :
      (fuel : ℕ) (w w1 : Writing S) (st : Step (Writing S))
      → Rounds fuel
      → IsSame clock w w1
      → 0 < length w.left
      → length w.left ≤ suc fuel
      → w.drive.blksiz ≡ size
      → size ≤ length w.buffer
      → OnStep (HasRoom clock dev w1) (IsSame clock w1) st
      → Ends w (after_block fuel st)
  after_block-Ends fuel w w1 (stop why w2) rounds p some_left enough size_eq long q =
      Counts-IsSame w w2 (IsSame-trans p q)
  after_block-Ends fuel w w1 (go w2) rounds p some_left enough size_eq long (q, room) =
      let all = IsSame-trans p q in
      let len = ap length all.same_left in
      let same_size : w2.drive.blksiz ≡ size = all.same_blksiz ∙ size_eq in
      let t = store-Stored w2 same_size room (omega (arith, long, all.longer)) in
      let less = t.shorter (omega (arith, len, some_left)) in
      Ends-Counts w (store clock dev w2) (write_loop clock dev fuel (store clock dev w2))
        (
          omega (arith, t.counted, len, all.same_got),
          omega (arith, t.moved, all.same_pos, all.same_got),
          Trace-trans w w2 (store clock dev w2) (Counts-IsSame w w2 all).2
              (t.trace (omega (arith, len, some_left))),
        )
        (rounds (store clock dev w2) (omega (arith, less, len, enough)) (t.same_blksiz ∙ same_size)
          (omega (arith, t.same_length, long, all.longer)) t.ready)

  after_extent-Ends :
      (fuel : ℕ) (w : Writing S) (st : Step (Writing S))
      → Rounds fuel
      → 0 < length w.left
      → length w.left ≤ suc fuel
      → w.drive.blksiz ≡ size
      → size ≤ length w.buffer
      → OnStep (Sought clock dev w) (IsSame clock w) st
      → Ends w (after_extent fuel st)
  after_extent-Ends fuel w (stop why w1) rounds some_left enough size_eq long q =
      Counts-IsSame w w1 q
  after_extent-Ends fuel w (go w1) rounds some_left enough size_eq long (q, ready) =
      after_block-Ends fuel w w1 (find_block clock dev w1) rounds q some_left enough size_eq long
        (find_block-HasRoom clock dev w1 (omega (arith, size_eq, q.same_blksiz, positive)) ready)

  abbrev round_on : ℕ → Writing S → List ℕ → Step (Writing S)
  round_on fuel w l = elim l [ [] ↦ go w | b ∷ bs ↦ after_extent fuel (find_extent clock dev w) ]

  next_round :
      (fuel : ℕ) (w : Writing S) (l : List ℕ)
      → Rounds fuel
      → length w.left ≤ suc fuel
      → w.drive.blksiz ≡ size
      → size ≤ length w.buffer
      → (w.left ≡ []) ⊎ ((w.findext ≡ true) ⊎ IsReady w)
      → w.left ≡ l
      → Ends w (round_on fuel w w.left)
  next_round fuel w [] rounds enough size_eq long ready e =
      subst (Ends w) (sym (ap (round_on fuel w) e)) (Counts-IsSame w w (itself clock dev w), e)
  next_round fuel w (b ∷ bs) rounds enough size_eq long ready e =
      let len = ap length e in
      let ready' : (w.findext ≡ true) ⊎ IsReady w = elim ready [
        | inl none_left ↦ absurd (cc (none_left, e))
        | inr r ↦ r
      ] in
      subst (Ends w) (sym (ap (round_on fuel w) e)) (
        after_extent-Ends fuel w (find_extent clock dev w) rounds (omega (arith, len)) enough
          size_eq long (find_extent-Sought clock dev w ready'))

  empty : (l : List ℕ) → length l ≤ 0 → l ≡ []
  empty [] h = refl
  empty (b ∷ bs) h = absurd (omega (arith, h))

  pub write_loop-Ends : (fuel : ℕ) → Rounds fuel
  unfolding write_loop
  write_loop-Ends zero w enough size_eq long ready =
      (Counts-IsSame w w (itself clock dev w), empty w.left enough)
  write_loop-Ends (suc fuel) w enough size_eq long ready =
      next_round fuel w w.left (write_loop-Ends fuel) enough size_eq long ready refl
