-- ===== src/Content/Rounds.antt =====
-- The rounds of the loop of `cpmRead` of cpmfs.c: each puts out a byte of the file, or turns to the next block.
use cpmtools.Base.{
  suc, ◌+◌, ◌-◌, ◌*◌, ◌%◌, ◌<◌, ◌≡◌, ◌≢◌, ◌⊎◌, inl, inr, refl, sym, ap, ◌∙◌, true, false, not, [],
  ◌∷◌, ◌++◌, arith, ltb, ◌==◌, if◌then◌else◌, length, Bool-cases,
}
use cpmtools.Super.{Drive, ok}
use cpmtools.Inode.{Inode}
use cpmtools.Block.{Device}
use cpmtools.Content.{extcap, Reading, find_extent, find_block, load, next_byte, from_buffer}
use cpmtools.Content.Bytes.{IsFormat, file_byte}
use cpmtools.Content.Windows.{div_unique}
use cpmtools.Content.Fetch.{IsSound, HasRoom}
use cpmtools.Content.Find.{
  Seeking, Loaded, find_extent-known, find_extent-Seeking, find_block-Found,
}

module _ {S : Type 0} (dev : Device S) (d : Drive) (ino : Inode) (s : S) where
  -- A round that looks for an entry or a block.
  pub record Sought (r : Reading) : Type 0 where
    pub next : Reading
    pub result : find_block dev d ino s (find_extent dev d ino s r) ≡ ok next
    pub loaded : Loaded dev d ino s next
    pub room : HasRoom dev d ino s next
    pub same_pos : next.pos ≡ r.pos
    pub same_count : next.count ≡ r.count
    pub same_got : next.got ≡ r.got
    pub before : next.pos < next.nextblockpos

  pub sought :
      (sound : IsSound dev d ino s) (r : Reading)
      → (r.findext ≡ true) ⊎ (Seeking dev d ino s r × (r.findext ≡ false))
      → HasRoom dev d ino s r
      → 0 < r.count
      → r.pos < ino.size
      → Sought r
  sought sound r (inr (seeking, known)) room asked inside =
      let f = find_block-Found dev d ino s sound r seeking room asked inside in
      record {
        next = f.next;
        result = ap (find_block dev d ino s) (find_extent-known dev d ino s r known) ∙ f.result;
        loaded = f.loaded;
        room = f.room;
        same_pos = f.same_pos;
        same_count = f.same_count;
        same_got = f.same_got;
        before = f.before;
      }
  sought sound r (inl unknown) room asked inside =
      let (r1, found, seeking, pos, count, got, buffer) =
        find_extent-Seeking dev d ino s r sound.format unknown in
      let f =
        find_block-Found dev d ino s sound r1 seeking (omega (arith, room, ap length buffer))
          (omega (arith, count, asked)) (omega (arith, pos, inside)) in
      record {
        next = f.next;
        result = ap (find_block dev d ino s) found ∙ f.result;
        loaded = f.loaded;
        room = f.room;
        same_pos = f.same_pos ∙ pos;
        same_count = f.same_count ∙ count;
        same_got = f.same_got ∙ got;
        before = f.before;
      }

  -- A round with the block in the buffer puts out a byte of the file.
  pub record Emitted (r : Reading) : Type 0 where
    pub next : Reading
    pub result : next_byte dev d ino s r ≡ next
    pub loaded : Loaded dev d ino s next
    pub room : HasRoom dev d ino s next
    pub same_pos : next.pos ≡ suc r.pos
    pub same_count : next.count ≡ r.count - 1
    pub same_got : next.got ≡ r.got ++ (file_byte dev d ino s r.pos ∷ [])

  pub emitted :
      (r : Reading)
      → Loaded dev d ino s r
      → HasRoom dev d ino s r
      → 0 < r.count
      → r.pos < r.nextblockpos
      → Emitted r
  unfolding next_byte
  emitted r l room asked before =
      let early : ltb r.pos r.nextblockpos ≡ true = ground (arith, before) in
      let byte = from_buffer r.extent r.buffer (r.pos % d.blksiz) in
      let next : Reading = record r {
        got = r.got ++ (byte ∷ []);
        pos = suc r.pos;
        count = r.count - 1;
      } in
      record {
        next = next;
        result = rw (early, next_byte) refl;
        loaded = record {
          found = l.found;
          extno = l.extno;
          knows = record {
            no_ext = l.knows.no_ext;
            next_ext = l.knows.next_ext;
            extent_eq = l.knows.extent_eq;
          };
          blockno = l.blockno;
          next_block = l.next_block;
          low = omega (arith, l.low);
          high = omega (arith, before, l.next_block);
          window_low = l.window_low;
          window_high = l.window_high;
          bytes = λ p h k m. l.bytes p (omega arith) k (omega (arith, asked, m));
        };
        room = room;
        same_pos = refl;
        same_count = refl;
        same_got =
            ap (λ b. r.got ++ (b ∷ []))
              (l.bytes r.pos (omega arith) (omega (arith, before, l.next_block))
                (omega (arith, asked)));
      }

  -- With the block in the buffer, nothing is looked for.
  pub found-Loaded :
      (r : Reading)
      → Loaded dev d ino s r
      → find_block dev d ino s (find_extent dev d ino s r) ≡ ok r
  unfolding find_block
  found-Loaded r l =
      ap (find_block dev d ino s) (find_extent-known dev d ino s r l.knows.no_ext)
      ∙ ap (λ b. if not b then ok r else load dev d ino s r r.extent) l.found

  pub Loaded-Sought :
      (r : Reading)
      → Loaded dev d ino s r
      → HasRoom dev d ino s r
      → r.pos < r.nextblockpos
      → Sought r
  Loaded-Sought r l room before = record {
    next = r;
    result = found-Loaded r l;
    loaded = l;
    room = room;
    same_pos = refl;
    same_count = refl;
    same_got = refl;
    before = before;
  }

  -- A round at the end of a block looks for the next one, or for the next entry.
  pub record Turned (r : Reading) : Type 0 where
    pub next : Reading
    pub result : next_byte dev d ino s r ≡ next
    pub ready : (next.findext ≡ true) ⊎ (Seeking dev d ino s next × (next.findext ≡ false))
    pub same_buffer : next.buffer ≡ r.buffer
    pub same_pos : next.pos ≡ r.pos
    pub same_count : next.count ≡ r.count
    pub same_got : next.got ≡ r.got

  pub turned :
      (r : Reading) → IsFormat d → Loaded dev d ino s r → ¬ (r.pos < r.nextblockpos) → Turned r
  unfolding next_byte
  turned r format l after =
      let late : ltb r.pos r.nextblockpos ≡ false = ground (arith, after) in
      elim (Bool-cases (r.pos == r.nextextpos)) [
        | inl over ↦ record {
          next = record r { findext = true };
          result = rw (late, over, next_byte) refl;
          ready = inl refl;
          same_buffer = refl;
          same_pos = refl;
          same_count = refl;
          same_got = refl;
        }
        | inr inside ↦
            let apart : r.pos ≢ r.nextextpos = ground (arith, inside) in
            let place =
              (div_unique r.pos (extcap d) l.extno (omega (arith, l.low, l.window_low))
                (omega (arith, l.high, l.window_high, l.knows.next_ext, apart))).0 in
            record {
              next = record r { findblock = true };
              result = rw (late, inside, next_byte) refl;
              ready = inr (
                record {
                  seeks = refl;
                  knows = record {
                    no_ext = l.knows.no_ext;
                    next_ext = l.knows.next_ext ∙ ap (λ x. x * extcap d + extcap d) (sym place);
                    extent_eq = λ p e. l.knows.extent_eq p (e ∙ place);
                  };
                },
                l.knows.no_ext,
              );
              same_buffer = refl;
              same_pos = refl;
              same_count = refl;
              same_got = refl;
            }
      ]
