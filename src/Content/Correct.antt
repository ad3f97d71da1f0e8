-- ===== src/Content/Correct.antt =====
-- `cpmRead` of cpmfs.c reads the bytes of the file.
use cpmtools.Base.{
  ℕ, zero, suc, ◌+◌, ◌-◌, ◌*◌, ◌≤◌, ◌<◌, ◌≡◌, ◌⊎◌, inl, inr, refl, sym, ap, ◌∙◌, true, false, List,
  [], ◌∷◌, ◌++◌, arith, ltb, ◌==◌, ◌&&◌, if◌then◌else◌, none, length,
}
use native.Mathlib.Decide.{dec_lt}
use cpmtools.Super.{Drive, Result, ok}
use cpmtools.Inode.{Inode}
use cpmtools.Block.{Device}
use cpmtools.Content.{Reading, find_extent, find_block, next_byte, read_loop, read_file}
use cpmtools.Content.Bytes.{file_byte, contents}
use cpmtools.Content.Fetch.{IsSound, HasRoom}
use cpmtools.Content.Find.{Seeking, Loaded}
use cpmtools.Content.Rounds.{Sought, sought, emitted, found-Loaded, Loaded-Sought, turned}

append_cons : (xs : List ℕ) (b : ℕ) (ys : List ℕ) → (xs ++ (b ∷ [])) ++ ys ≡ xs ++ (b ∷ ys)
append_cons [] b ys = refl
append_cons (x ∷ xs) b ys = ap (λ zs. x ∷ zs) (append_cons xs b ys)

append_nil : (xs : List ℕ) → xs ++ [] ≡ xs
append_nil [] = refl
append_nil (x ∷ xs) = ap (λ zs. x ∷ zs) (append_nil xs)

module _ {S : Type 0} (dev : Device S) (d : Drive) (ino : Inode) (s : S) where
  -- What the loop leaves after `n` more bytes.
  record Reads (r : Reading) (n : ℕ) (f : Result Reading) : Type 0 where
    final : Reading
    result : f ≡ ok final
    pos_eq : final.pos ≡ r.pos + n
    got_eq : final.got ≡ r.got ++ contents dev d ino s r.pos n

  -- `n` is the number of bytes that are left to read.
  record Left (r : Reading) (n : ℕ) : Type 0 where
    asked : n ≤ r.count
    inside : 0 < n → r.pos + n ≤ ino.size
    all : (r.count ≤ n) ⊎ (ino.size ≤ r.pos + n)

  loop_ends : (fuel : ℕ) (r : Reading) → Left r 0 → Reads r 0 (read_loop dev d ino s fuel r)
  unfolding read_loop
  loop_ends zero r left = record {
    final = r;
    result = refl;
    pos_eq = omega arith;
    got_eq = sym (append_nil r.got);
  }
  loop_ends (suc fuel) r left =
      let all = left.all in
      let over : (ltb 0 r.count && ltb r.pos ino.size) ≡ false = ground (arith, all) in
      record {
        final = r;
        result = rw (over, read_loop) refl;
        pos_eq = omega arith;
        got_eq = sym (append_nil r.got);
      }

  -- A round that puts out a byte, and the rounds after it.
  after_byte :
      (r next : Reading) (n : ℕ) {f f' : Result Reading}
      → next.pos ≡ suc r.pos
      → next.got ≡ r.got ++ (file_byte dev d ino s r.pos ∷ [])
      → f' ≡ f
      → Reads next n f
      → Reads r (suc n) f'
  after_byte r next n p g e rest = record {
    final = rest.final;
    result = e ∙ rest.result;
    pos_eq = omega (arith, rest.pos_eq, p);
    got_eq =
        rest.got_eq
        ∙ ap (λ xs. xs ++ contents dev d ino s next.pos n) g
        ∙ ap (λ q. (r.got ++ (file_byte dev d ino s r.pos ∷ [])) ++ contents dev d ino s q n) p
        ∙ append_cons r.got (file_byte dev d ino s r.pos) (contents dev d ino s (suc r.pos) n);
  }

  -- Two rounds for a byte are enough, and one less where something is looked for at once.
  abbrev Enough : Reading → ℕ → ℕ → Type 0
  Enough r n fuel =
      (Loaded dev d ino s r × (2 * n ≤ fuel))
      ⊎ (((r.findext ≡ true) ⊎ (Seeking dev d ino s r × (r.findext ≡ false))) × (2 * n ≤ suc fuel))

  Left-after :
      (r next : Reading) (n : ℕ)
      → next.pos ≡ suc r.pos
      → next.count ≡ r.count - 1
      → Left r (suc n)
      → Left next n
  Left-after r next n p c left = record {
    asked = omega (arith, left.asked, c);
    inside = λ h. omega (arith, left.inside (omega arith), p);
    all = elim left.all [ inl q ↦ inl (omega (arith, q, c)) | inr q ↦ inr (omega (arith, q, p)) ];
  }

  round_loop :
      (r next : Reading) (fuel : ℕ)
      → (ltb 0 r.count && ltb r.pos ino.size) ≡ true
      → find_block dev d ino s (find_extent dev d ino s r) ≡ ok next
      → read_loop dev d ino s (suc fuel) r ≡ read_loop dev d ino s fuel (next_byte dev d ino s next)
  unfolding read_loop
  round_loop r next fuel more found = rw (more, found, read_loop) refl

  more-Left : (r : Reading) (n : ℕ) → Left r (suc n) → (ltb 0 r.count && ltb r.pos ino.size) ≡ true
  more-Left r n left =
      let inside = left.inside (omega arith) in
      let asked = left.asked in ground (arith, inside, asked)

  -- A round that puts out a byte.
  record Byte (r : Reading) (n fuel : ℕ) : Type 0 where
    next : Reading
    result : read_loop dev d ino s (suc fuel) r ≡ read_loop dev d ino s fuel next
    loaded : Loaded dev d ino s next
    room : HasRoom dev d ino s next
    left : Left next n
    next_pos : next.pos ≡ suc r.pos
    next_got : next.got ≡ r.got ++ (file_byte dev d ino s r.pos ∷ [])

  Byte-round : (r : Reading) (n fuel : ℕ) → Sought dev d ino s r → Left r (suc n) → Byte r n fuel
  Byte-round r n fuel f left =
      let asked = left.asked in
      let e =
        emitted dev d ino s f.next f.loaded f.room (omega (arith, f.same_count, asked)) f.before in
      let pos = e.same_pos ∙ ap suc f.same_pos in
      record {
        next = e.next;
        result =
            round_loop r f.next fuel (more-Left r n left) f.result
            ∙ ap (read_loop dev d ino s fuel) e.result;
        loaded = e.loaded;
        room = e.room;
        left = Left-after r e.next n pos (e.same_count ∙ ap (λ m. m - 1) f.same_count) left;
        next_pos = pos;
        next_got =
            e.same_got
            ∙ ap (λ xs. xs ++ (file_byte dev d ino s f.next.pos ∷ [])) f.same_got
            ∙ ap (λ p. r.got ++ (file_byte dev d ino s p ∷ [])) f.same_pos;
      }

  read_loop-Reads :
      (sound : IsSound dev d ino s) (fuel : ℕ) (r : Reading) (n : ℕ)
      → Enough r n fuel
      → HasRoom dev d ino s r
      → Left r n
      → Reads r n (read_loop dev d ino s fuel r)
  read_loop-Reads sound fuel r zero enough room left = loop_ends fuel r left
  read_loop-Reads sound zero r (suc n) (inl (l, p)) room left = absurd (omega (arith, p))
  read_loop-Reads sound zero r (suc n) (inr (l, p)) room left = absurd (omega (arith, p))
  read_loop-Reads sound (suc fuel) r (suc n) (inr (seeks, p)) room left =
      let inside = left.inside (omega arith) in
      let asked = left.asked in
      let b =
        Byte-round r n fuel
          (sought dev d ino s sound r seeks room (omega (arith, asked)) (omega (arith, inside)))
          left in
      after_byte r b.next n b.next_pos b.next_got b.result
        (read_loop-Reads sound fuel b.next n (inl (b.loaded, omega (arith, p))) b.room b.left)
  read_loop-Reads sound (suc fuel) r (suc n) (inl (l, p)) room left =
      elim (dec_lt r.pos r.nextblockpos) [
        | yes before ↦
            let b = Byte-round r n fuel (Loaded-Sought dev d ino s r l room before) left in
            after_byte r b.next n b.next_pos b.next_got b.result
              (read_loop-Reads sound fuel b.next n (inl (b.loaded, omega (arith, p))) b.room b.left)
        | no after ↦
            let t = turned dev d ino s r sound.format l after in
            let rest =
              read_loop-Reads sound fuel t.next (suc n) (inr (t.ready, omega (arith, p)))
                (omega (arith, room, ap length t.same_buffer))
                (record {
                  asked = omega (arith, left.asked, t.same_count);
                  inside = λ h. omega (arith, left.inside h, t.same_pos);
                  all = elim left.all [
                    | inl q ↦ inl (omega (arith, q, t.same_count))
                    | inr q ↦ inr (omega (arith, q, t.same_pos))
                  ];
                }) in
            record {
              final = rest.final;
              result =
                  round_loop r r fuel (more-Left r n left) (found-Loaded dev d ino s r l)
                  ∙ ap (read_loop dev d ino s fuel) t.result
                  ∙ rest.result;
              pos_eq = rest.pos_eq ∙ ap (λ q. q + suc n) t.same_pos;
              got_eq =
                  rest.got_eq
                  ∙ ap (λ xs. xs ++ contents dev d ino s t.next.pos (suc n)) t.same_got
                  ∙ ap (λ q. r.got ++ contents dev d ino s q (suc n)) t.same_pos;
            }
      ]

-- The number of bytes that `cpmRead` can read from a position.
abbrev pub readable_count : Inode → ℕ → ℕ → ℕ
readable_count ino pos count = if ltb (ino.size - pos) count then ino.size - pos else count

-- `cpmRead` of a file reads the bytes that the entries and blocks of the file hold, from the position on, as
-- many as are asked for and the file has, and moves the position behind them. The disk has a format
-- of CP/M, its sectors can be read, the pointers of the file lie on it, and the buffer has room for
-- a block.
pub read_file-contents :
    {S : Type 0} (dev : Device S) (d : Drive) (ino : Inode) (s : S) (stack : List ℕ) (pos count : ℕ)
    → IsSound dev d ino s
    → ino.ino ≤ d.maxdir
    → d.blksiz ≤ length stack
    → let n = readable_count ino pos count in
      read_file dev d ino s stack pos count ≡ ok (contents dev d ino s pos n, pos + n)
unfolding read_file
read_file-contents dev d ino s stack pos count sound inside room =
    let n = readable_count ino pos count in
    let r0 : Reading = record {
      findext = true;
      findblock = true;
      extent = none;
      nextblockpos = 0;
      nextextpos = 0;
      buffer = stack;
      pos = pos;
      count = count;
      got = [];
    } in
    let small : n ≤ count = ground arith in
    let f =
      read_loop-Reads dev d ino s sound (2 * count) r0 n (inr (inl refl, omega (arith, small))) room
        (record { asked = small; inside = λ h. ground (arith, h); all = ground arith }) in
    let no_passwd : (ino.ino == d.maxdir + 1) ≡ false = ground (arith, inside) in
    let no_label : (ino.ino == d.maxdir + 2) ≡ false = ground (arith, inside) in
    rw (no_passwd, no_label, f.result, read_file)
      (ap (λ g. ok (g, f.final.pos)) f.got_eq
        ∙ ap (λ p. ok (contents dev d ino s pos n, p)) f.pos_eq)
