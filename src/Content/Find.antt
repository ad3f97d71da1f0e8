-- ===== src/Content/Find.antt =====
-- What `cpmRead` of cpmfs.c keeps in its variables from one round of its loop to the next, and that a round
-- which looks for an entry or a block finds the bytes of the file.
use cpmtools.Base.{
  not, get_elem?, if◌then◌else◌, ℕ, ◌+◌, ◌*◌, ◌/◌, ◌%◌, ◌≤◌, ◌<◌, ◌≡◌, inl, inr, refl, sym, ap, ◌∙◌,
  true, false, List, arith, some, length, Option-cases,
}
use native.Mathlib.Nat.{div-mul-le_self, lt-div-mul-add}
use cpmtools.Entry.{Entry}
use cpmtools.Super.{Drive, Result, ok}
use cpmtools.Inode.{Inode}
use cpmtools.Block.{Device}
use cpmtools.Content.{
  extcap, extent_at, Reading, find_extent, find_block, load, fetch_block, from_buffer,
}
use cpmtools.Content.Bytes.{
  IsFormat, entry_of, entry_byte, file_byte, extent_at-window, extent_at-there,
}
use cpmtools.Content.Windows.{block-window}
use cpmtools.Content.Fetch.{IsSound, HasRoom, in_block, fetch_block-Fetched}

module _ {S : Type 0} (dev : Device S) (d : Drive) (ino : Inode) (s : S) where
  -- The entry for the positions of one window is known.
  pub record Knows (r : Reading) (extno : ℕ) : Type 0 where
    pub no_ext : r.findext ≡ false
    pub next_ext : r.nextextpos ≡ extno * extcap d + extcap d
    pub extent_eq : (p : ℕ) → p / extcap d ≡ extno → r.extent ≡ extent_at d ino p

  -- A round will look for a block.
  pub record Seeking (r : Reading) : Type 0 where
    pub seeks : r.findblock ≡ true
    pub knows : Knows r (r.pos / extcap d)

  -- A block is in the buffer, as far as the bytes from the position on are asked for.
  pub record Loaded (r : Reading) : Type 0 where
    pub found : r.findblock ≡ false
    pub extno : ℕ
    pub knows : Knows r extno
    pub blockno : ℕ
    pub next_block : r.nextblockpos ≡ blockno * d.blksiz + d.blksiz
    pub low : blockno * d.blksiz ≤ r.pos
    pub high : r.pos ≤ blockno * d.blksiz + d.blksiz
    pub window_low : extno * extcap d ≤ blockno * d.blksiz
    pub window_high : blockno * d.blksiz + d.blksiz ≤ extno * extcap d + extcap d
    pub bytes :
        (p : ℕ)
        → r.pos ≤ p
        → p < blockno * d.blksiz + d.blksiz
        → p < r.pos + r.count
        → from_buffer r.extent r.buffer (p % d.blksiz) ≡ file_byte dev d ino s p

  pub find_extent-known : (r : Reading) → r.findext ≡ false → find_extent dev d ino s r ≡ r
  unfolding find_extent
  find_extent-known r h = rw (h, find_extent) refl

  -- After `if (findext) …` the entry is known.
  pub find_extent-Seeking :
      (r : Reading)
      → IsFormat d
      → r.findext ≡ true
      → (r' : Reading) × (find_extent dev d ino s r ≡ r')
        × Seeking r'
        × (r'.pos ≡ r.pos)
        × (r'.count ≡ r.count)
        × (r'.got ≡ r.got)
        × (r'.buffer ≡ r.buffer)
  unfolding find_extent
  find_extent-Seeking r format h = (
    record r {
      extent = extent_at d ino r.pos;
      nextextpos = r.pos / extcap d * extcap d + extcap d;
      findext = false;
      findblock = true;
    },
    rw (h, find_extent) refl,
    record {
      seeks = refl;
      knows = record {
        no_ext = refl;
        next_ext = refl;
        extent_eq = λ p e. extent_at-window d ino r.pos p format (sym e);
      };
    },
    refl,
    refl,
    refl,
    refl,
  )

  -- What a round that looks for something leaves.
  pub record Found (r : Reading) (f : Result Reading) : Type 0 where
    pub next : Reading
    pub result : f ≡ ok next
    pub loaded : Loaded next
    pub room : HasRoom dev d ino s next
    pub same_pos : next.pos ≡ r.pos
    pub same_count : next.count ≡ r.count
    pub same_got : next.got ≡ r.got
    pub before : next.pos < next.nextblockpos

  -- A round with the buffer, and the positions, that are right for it.
  with_buffer :
      (r : Reading) (buffer : List ℕ)
      → IsFormat d
      → Seeking r
      → d.blksiz ≤ length buffer
      → ((p : ℕ)
          → r.pos ≤ p
          → p < r.pos / d.blksiz * d.blksiz + d.blksiz
          → p < r.pos + r.count
          → from_buffer r.extent buffer (p % d.blksiz) ≡ file_byte dev d ino s p)
      → {f : Result Reading}
      → f
        ≡ ok (record r {
          nextblockpos = r.pos / d.blksiz * d.blksiz + d.blksiz;
          findblock = false;
          buffer = buffer;
        })
      → Found r f
  with_buffer r buffer format seeking room bytes {f} e =
      let cap : 0 < extcap d = omega (arith, format.capacity, format.extents_positive) in
      let w =
        block-window (extcap d) d.blksiz format.pointers r.pos format.block_positive cap
          format.whole_blocks in
      let low = div-mul-le_self r.pos d.blksiz in
      let high = lt-div-mul-add {a = r.pos} {b = d.blksiz} format.block_positive in
      record {
        next = record r {
          nextblockpos = r.pos / d.blksiz * d.blksiz + d.blksiz;
          findblock = false;
          buffer = buffer;
        };
        result = e;
        loaded = record {
          found = refl;
          extno = r.pos / extcap d;
          knows = record {
            no_ext = seeking.knows.no_ext;
            next_ext = seeking.knows.next_ext;
            extent_eq = seeking.knows.extent_eq;
          };
          blockno = r.pos / d.blksiz;
          next_block = refl;
          low = low;
          high = omega (arith, high);
          window_low = w.0;
          window_high = w.1;
          bytes = bytes;
        };
        room = room;
        same_pos = refl;
        same_count = refl;
        same_got = refl;
        before = high;
      }

  -- Positions of one block have the entry that is known.
  same_entry :
      (r : Reading) (p : ℕ)
      → IsFormat d
      → Seeking r
      → r.pos ≤ p
      → p < r.pos / d.blksiz * d.blksiz + d.blksiz
      → r.extent ≡ extent_at d ino p
  same_entry r p format seeking h k =
      seeking.knows.extent_eq p (in_block dev d ino s r.pos p format h k).same_extent

  find_block-load :
      (r : Reading) → r.findblock ≡ true → find_block dev d ino s r ≡ load dev d ino s r r.extent
  unfolding find_block
  find_block-load r h = ap (λ b. if not b then ok r else load dev d ino s r r.extent) h

  load-some :
      (r : Reading) (x : ℕ) (e : Entry) (buffer : List ℕ)
      → get_elem? d.dir x ≡ some e
      → fetch_block dev d ino s e r ≡ (ok tt, buffer)
      → load dev d ino s r (some x)
        ≡ ok (record r {
          nextblockpos = r.pos / d.blksiz * d.blksiz + d.blksiz;
          findblock = false;
          buffer = buffer;
        })
  unfolding load
  load-some r x e buffer there fetched =
      rw (there, fetched, load)
        (ap
          (λ f. ok (record r {
            nextblockpos = r.pos / d.blksiz * d.blksiz + d.blksiz;
            findblock = false;
            buffer = f.1;
          }))
          fetched)

  pub find_block-Found :
      (sound : IsSound dev d ino s) (r : Reading)
      → Seeking r
      → HasRoom dev d ino s r
      → 0 < r.count
      → r.pos < ino.size
      → Found r (find_block dev d ino s r)
  unfolding load
  find_block-Found sound r seeking room asked inside =
      let format = sound.format in
      let own = seeking.knows.extent_eq r.pos refl in
      elim (Option-cases r.extent) [
        | inl nothing ↦
            with_buffer r r.buffer format seeking room
              (λ p h k l.
                ap (λ x. from_buffer x r.buffer (p % d.blksiz)) nothing
                ∙ ap (λ x. entry_byte dev d ino s (entry_of d x) p)
                    (sym nothing ∙ same_entry r p format seeking h k))
              (find_block-load r seeking.seeks ∙ ap (load dev d ino s r) nothing)
        | inr (x, known) ↦
            let (e, there) = extent_at-there d ino r.pos (sym own ∙ known) in
            let fetched =
              fetch_block-Fetched dev d ino s sound e r room asked
                (sound.inside r.pos x e inside (sym own ∙ known) there) in
            with_buffer r fetched.buffer format seeking (omega (arith, room, fetched.length_eq))
              (λ p h k l.
                ap (λ y. from_buffer y fetched.buffer (p % d.blksiz)) known
                ∙ fetched.bytes p h k l
                ∙ ap (λ y. entry_byte dev d ino s y p) (sym there)
                ∙ ap (λ y. entry_byte dev d ino s (entry_of d y) p)
                    (sym known ∙ same_entry r p format seeking h k))
              (find_block-load r seeking.seeks
                ∙ ap (load dev d ino s r) known
                ∙ load-some r x e fetched.buffer there fetched.result)
      ]
