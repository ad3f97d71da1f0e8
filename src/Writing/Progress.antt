-- ===== src/Writing/Progress.antt =====
-- Each step of the loop of `cpmWrite` of cpmfs.c keeps count of the bytes, and each round stores one at least.
use cpmtools.Base.{
  arith, ℕ, ◌+◌, ◌*◌, ◌/◌, ◌<◌, ◌≡◌, ◌⊎◌, inl, inr, refl, sym, ap, ◌∙◌, true, false, not, Option,
  none, some, if◌then◌else◌, get_elem?, modify, Bool-cases, Option-cases,
}
use mathlib.Core.Path.{subst}
use cpmtools.Entry.{Entry}
use cpmtools.Dir.{find_free_extent}
use cpmtools.Clock.{Clock}
use cpmtools.Block.{Device}
use cpmtools.Content.{extent_at}
use cpmtools.Writing.{
  Writing, Step, go, stop, extend_entry, new_extent, looking, find_extent, choose_block, find_block,
}
use cpmtools.Writing.Trace.{at_once}
use cpmtools.Writing.Same.{
  IsInBlock, OnStep, IsSame, IsSame-trans, IsReady, touch_created-IsSame, findblock-touch_created,
  Kept, itself, choose_block-IsSame,
}

module _ {S : Type 0} (clock : Clock S) (dev : Device S) where
  -- After `if (findext) …` there is a block to look for, or room in the one that is found.
  abbrev pub Sought : Writing S → Writing S → Type 0
  Sought w w' = IsSame clock w w' × IsReady w'

  looking-IsSame : (w : Writing S) → IsSame clock w (looking clock dev w)
  unfolding looking
  looking-IsSame w = record {
    same_left = refl;
    same_got = refl;
    same_pos = refl;
    same_blksiz = refl;
    later = at_once;
    longer = omega arith;
  }

  findblock-looking : (w : Writing S) → (looking clock dev w).findblock ≡ true
  unfolding looking
  findblock-looking w = refl

  new_extent-Sought :
      (w : Writing S)
      → w.findblock ≡ true
      → OnStep (Sought w) (IsSame clock w) (new_extent clock dev w)
  unfolding new_extent
  new_extent-Sought w seeks =
      let same : IsSame clock w w = record {
        same_left = refl;
        same_got = refl;
        same_pos = refl;
        same_blksiz = refl;
        later = at_once;
        longer = omega arith;
      } in
      elim (Option-cases (find_free_extent w.drive)) [
        | inl full ↦ rw (full, new_extent) same
        | inr (extent, free) ↦ elim (Option-cases (get_elem? w.drive.dir w.inode.ino)) [
          | inl nothing ↦ rw (free, nothing, new_extent) (same, inl seeks)
          | inr (own, there) ↦
              let w2 : Writing S = record w {
                extent = extent;
                drive = record (w.drive) {
                  dir = modify w.drive.dir extent (λ e. extend_entry (w.pos / 16384) own);
                };
              } in
              let t = touch_created-IsSame clock dev w2 in
              rw (free, there, new_extent)
                (
                  record {
                    same_left = t.same_left;
                    same_got = t.same_got;
                    same_pos = t.same_pos;
                    same_blksiz = t.same_blksiz;
                    later = t.later;
                    longer = t.longer;
                  },
                  inl (findblock-touch_created clock dev w2 ∙ seeks),
                )
        ]
      ]

  OnStep-IsSame :
      {w w' : Writing S} (st : Step (Writing S))
      → IsSame clock w w'
      → OnStep (Sought w') (IsSame clock w') st
      → OnStep (Sought w) (IsSame clock w) st
  OnStep-IsSame (go v) p q = (IsSame-trans p q.0, q.1)
  OnStep-IsSame (stop why v) p q = IsSame-trans p q

  abbrev after_search : Writing S → Option ℕ → Step (Writing S)
  after_search v o = elim o [
    | some extent ↦ go (record (looking clock dev v) { extent = extent })
    | none ↦ new_extent clock dev (looking clock dev v)
  ]

  abbrev found_extent : Writing S → Step (Writing S)
  found_extent v = after_search v (extent_at v.drive v.inode v.pos)

  pub find_extent-Sought :
      (w : Writing S)
      → (w.findext ≡ true) ⊎ IsReady w
      → OnStep (Sought w) (IsSame clock w) (find_extent clock dev w)
  unfolding find_extent
  find_extent-Sought w ready =
      let same : IsSame clock w w = record {
        same_left = refl;
        same_got = refl;
        same_pos = refl;
        same_blksiz = refl;
        later = at_once;
        longer = omega arith;
      } in
      let look = looking-IsSame w in
      elim (Bool-cases w.findext) [
        | inr known ↦
            let ready' : IsReady w = elim ready [ inl y ↦ absurd (cc (y, known)) | inr r ↦ r ] in
            subst (OnStep (Sought w) (IsSame clock w))
              (sym (ap (λ b. if not b then go w else found_extent w) known)) (same, ready')
        | inl unknown ↦
            subst (OnStep (Sought w) (IsSame clock w))
              (sym (ap (λ b. if not b then go w else found_extent w) unknown))
              (elim (Option-cases (extent_at w.drive w.inode w.pos)) [
                | inl nothing ↦
                    subst (OnStep (Sought w) (IsSame clock w)) (sym (ap (after_search w) nothing)) (
                      OnStep-IsSame (new_extent clock dev (looking clock dev w)) look
                        (new_extent-Sought (looking clock dev w) (findblock-looking w)))
                | inr (extent, found) ↦
                    subst (OnStep (Sought w) (IsSame clock w)) (sym (ap (after_search w) found)) (
                      record {
                        same_left = look.same_left;
                        same_got = look.same_got;
                        same_pos = look.same_pos;
                        same_blksiz = look.same_blksiz;
                        later = look.later;
                        longer = look.longer;
                      },
                      inl (findblock-looking w),
                    )
              ])
      ]

  -- After `if (findblock) …` the end of the block is known.
  abbrev pub HasRoom : Writing S → Writing S → Type 0
  HasRoom w w' = IsSame clock w w' × IsInBlock w'

  abbrev next_block : Writing S → ℕ
  next_block w = w.pos / w.drive.blksiz * w.drive.blksiz + w.drive.blksiz

  abbrev after_block : ℕ → Step (Writing S) → Step (Writing S)
  after_block next st = elim st [
    | stop why w' ↦ stop why w'
    | go w' ↦ go (record w' { nextblockpos = next; findblock = false })
  ]

  after_block-HasRoom :
      (w : Writing S) (st : Step (Writing S))
      → 0 < w.drive.blksiz
      → Kept clock dev w st
      → OnStep (HasRoom w) (IsSame clock w) (after_block (next_block w) st)
  after_block-HasRoom w (stop why w') h p = p
  after_block-HasRoom w (go w') h p = (
    record {
      same_left = p.same_left;
      same_got = p.same_got;
      same_pos = p.same_pos;
      same_blksiz = p.same_blksiz;
      later = p.later;
      longer = p.longer;
    },
    ap (λ (x : ℕ). x / w.drive.blksiz * w.drive.blksiz + w.drive.blksiz) (sym p.same_pos)
        ∙ ap (λ (n : ℕ). w'.pos / n * n + n) (sym p.same_blksiz),
  )

  abbrev for_entry : Writing S → Option Entry → Step (Writing S)
  for_entry w o = elim o [
    | none ↦ go (record w { nextblockpos = next_block w; findblock = false })
    | some e ↦ after_block (next_block w) (choose_block clock dev e w)
  ]

  pub find_block-HasRoom :
      (w : Writing S)
      → 0 < w.drive.blksiz
      → IsReady w
      → OnStep (HasRoom w) (IsSame clock w) (find_block clock dev w)
  unfolding find_block
  find_block-HasRoom w h ready = elim (Bool-cases w.findblock) [
    | inr known ↦
        let apart : IsInBlock w = elim ready [ inl y ↦ absurd (cc (y, known)) | inr r ↦ r ] in
        subst (OnStep (HasRoom w) (IsSame clock w))
          (sym
            (ap (λ b. if not b then go w else for_entry w (get_elem? w.drive.dir w.extent)) known))
          (itself clock dev w, apart)
    | inl seeks ↦
        subst (OnStep (HasRoom w) (IsSame clock w))
          (sym
            (ap (λ b. if not b then go w else for_entry w (get_elem? w.drive.dir w.extent)) seeks))
          (elim (Option-cases (get_elem? w.drive.dir w.extent)) [
            | inl nothing ↦
                subst (OnStep (HasRoom w) (IsSame clock w)) (sym (ap (for_entry w) nothing))
                  (after_block-HasRoom w (go w) h (itself clock dev w))
            | inr (e, there) ↦
                subst (OnStep (HasRoom w) (IsSame clock w)) (sym (ap (for_entry w) there)) (
                  after_block-HasRoom w (choose_block clock dev e w) h
                    (choose_block-IsSame clock dev e w))
          ])
  ]
