-- ===== src/File/Attributes.antt =====
-- What `cpmAttrSet` and `cpmChmod` of cpmfs.c change.
use cpmtools.Base.{
  ℕ, suc, ◌<◌, ◌≡◌, ◌≢◌, refl, sym, ap, ◌∙◌, Bool, true, false, List, ◌∷◌, arith, none, some,
  Bool-cases, ◌⊎◌, inl, inr, length, get_or, get_elem?, modify, replicate, get_elem?-modify_self,
  lt_of_get_elem?, get_elem?-modify_ne,
}
use cpmtools.Entry.{Entry, IsEntry, low7}
use cpmtools.Super.{Drive}
use cpmtools.Inode.{Attr, Inode, has_bit, attr_of}
use cpmtools.Dir.{memcpy7, is_extent_of}
use cpmtools.Dir.Match.{is_extent_of_iff, low7-memcpy7}
use cpmtools.Dir.Each.{map_from, each_extent-map_from, get_elem?-map_from}
use cpmtools.File.{name_bits, ext_bits, rename_bits, attr_set}

-- The name and the extension that `cpmAttrSet` writes.
abbrev pub new_name : Attr → Entry → List ℕ
new_name a e = name_bits a (memcpy7 (replicate 8 0) e.name)

abbrev pub new_ext : Attr → Entry → List ℕ
new_ext a e = ext_bits a (memcpy7 (replicate 3 0) e.ext)

low7-name_bits : (a : Attr) (xs : List ℕ) → low7 (name_bits a xs) ≡ low7 xs
unfolding name_bits
low7-name_bits a (c0 ∷ c1 ∷ c2 ∷ c3 ∷ cs) = ground arith
low7-name_bits a _ = refl

low7-ext_bits : (a : Attr) (xs : List ℕ) → low7 (ext_bits a xs) ≡ low7 xs
unfolding ext_bits
low7-ext_bits a (c0 ∷ c1 ∷ c2 ∷ cs) = ground arith
low7-ext_bits a _ = refl

pub low7-new_name : (a : Attr) (e : Entry) → IsEntry e → low7 (new_name a e) ≡ low7 e.name
low7-new_name a e v =
    low7-name_bits a (memcpy7 (replicate 8 0) e.name)
    ∙ low7-memcpy7 (replicate 8 0) e.name (omega (arith, v.name_length))

pub low7-new_ext : (a : Attr) (e : Entry) → IsEntry e → low7 (new_ext a e) ≡ low7 e.ext
low7-new_ext a e v =
    low7-ext_bits a (memcpy7 (replicate 3 0) e.ext)
    ∙ low7-memcpy7 (replicate 3 0) e.ext (omega (arith, v.ext_length))

-- The bits read back, from any name of enough characters that `memcpy7` put onto zeros.
read_name_bits :
    (a : Attr) (xs : List ℕ)
    → length xs ≡ 8
    → (has_bit (get_or (name_bits a (memcpy7 (replicate 8 0) xs)) 0 0) 0x80 ≡ a.f1)
      × (has_bit (get_or (name_bits a (memcpy7 (replicate 8 0) xs)) 1 0) 0x80 ≡ a.f2)
      × (has_bit (get_or (name_bits a (memcpy7 (replicate 8 0) xs)) 2 0) 0x80 ≡ a.f3)
      × (has_bit (get_or (name_bits a (memcpy7 (replicate 8 0) xs)) 3 0) 0x80 ≡ a.f4)
unfolding name_bits memcpy7 has_bit
read_name_bits a (c0 ∷ c1 ∷ c2 ∷ c3 ∷ cs) h = ground arith
read_name_bits a _ h = absurd (omega arith)

read_ext_bits :
    (a : Attr) (xs : List ℕ)
    → length xs ≡ 3
    → (has_bit (get_or (ext_bits a (memcpy7 (replicate 3 0) xs)) 0 0) 0x80 ≡ a.ro)
      × (has_bit (get_or (ext_bits a (memcpy7 (replicate 3 0) xs)) 1 0) 0x80 ≡ a.sys)
      × (has_bit (get_or (ext_bits a (memcpy7 (replicate 3 0) xs)) 2 0) 0x80 ≡ a.arcv)
unfolding ext_bits memcpy7 has_bit
read_ext_bits a (c0 ∷ c1 ∷ c2 ∷ cs) h = ground arith
read_ext_bits a _ h = absurd (omega arith)

-- What is read back from an entry that `cpmAttrSet` has written.
pub attr_of-rename_bits :
    (a : Attr) (e x : Entry) (protect_mode : ℕ)
    → IsEntry e
    → attr_of (rename_bits (new_name a e) (new_ext a e) x) protect_mode ≡ record a {
      pwdel = has_bit protect_mode 0x20;
      pwwrite = has_bit protect_mode 0x40;
      pwread = has_bit protect_mode 0x80;
    }
attr_of-rename_bits a e x protect_mode v =
    let n = read_name_bits a e.name v.name_length in
    let m = read_ext_bits a e.ext v.ext_length in
    unfold attr_of rename_bits in rw (n.0, n.1, n.2, n.3, m.0, m.1, m.2)

module _ (d : Drive) (ino : Inode) (a : Attr) {e : Entry} (v : IsEntry e)
    (at : get_elem? d.dir ino.ino ≡ some e) where
  -- The test for the extents that the loop goes on with.
  abbrev same_file : Entry → Bool
  same_file = is_extent_of d e.status (new_name a e) (new_ext a e) none

  -- It is the test for the file of the inode.
  same_file_lem :
      (x : Entry) → is_extent_of d e.status e.name e.ext none x ≡ true → same_file x ≡ true
  same_file_lem x h =
      let (low, user, name, ext) = (is_extent_of_iff d e.status e.name e.ext x).0 h in
      (is_extent_of_iff d e.status (new_name a e) (new_ext a e) x).1
        (low, user, low7-new_name a e v ∙ name, low7-new_ext a e v ∙ ext)

  same_file_not :
      (x : Entry) → is_extent_of d e.status e.name e.ext none x ≡ false → same_file x ≡ false
  same_file_not x h = elim (Bool-cases (same_file x)) [
    | inr n ↦ n
    | inl y ↦
        let (low, user, name, ext) =
          (is_extent_of_iff d e.status (new_name a e) (new_ext a e) x).0 y in
        let back =
          (is_extent_of_iff d e.status e.name e.ext x).1
            (low, user, sym (low7-new_name a e v) ∙ name, sym (low7-new_ext a e v) ∙ ext) in
        cc back
  ]

  abbrev pub write : Entry → Entry
  write = rename_bits (new_name a e) (new_ext a e)

  dir-attr_set :
      {ino' : Inode} {d' : Drive}
      → attr_set d ino a ≡ some (ino', d')
      → d'.dir ≡ map_from same_file write (suc ino.ino) (modify d.dir ino.ino write)
  unfolding attr_set
  dir-attr_set h =
      let looped =
        each_extent-map_from same_file write d.dir ino.ino (lt_of_get_elem? d.dir ino.ino at) in
      ground (arith, looped)

  -- An entry behind the inode's that belongs to the file is written, and so is the inode's own.
  pub written :
      {ino' : Inode} {d' : Drive} (j : ℕ) (x : Entry)
      → attr_set d ino a ≡ some (ino', d')
      → get_elem? d.dir j ≡ some x
      → (ino.ino ≡ j) ⊎ (ino.ino < j) × (is_extent_of d e.status e.name e.ext none x ≡ true)
      → get_elem? d'.dir j ≡ some (write x)
  written j x h there (inl same) =
      let here : get_elem? (modify d.dir ino.ino write) j ≡ some (write x) =
        rw same (get_elem?-modify_self d.dir j write there) in
      ap (λ es. get_elem? es j) (dir-attr_set h)
      ∙ get_elem?-map_from same_file write (modify d.dir ino.ino write) (suc ino.ino) j here
      ∙ ground arith
  written j x h there (inr (behind, y)) =
      let here : get_elem? (modify d.dir ino.ino write) j ≡ some x =
        get_elem?-modify_ne d.dir ino.ino j write (λ s. absurd (omega arith)) ∙ there in
      ap (λ es. get_elem? es j) (dir-attr_set h)
      ∙ get_elem?-map_from same_file write (modify d.dir ino.ino write) (suc ino.ino) j here
      ∙ ground (arith, same_file_lem x y)

  pub untouched :
      {ino' : Inode} {d' : Drive} (j : ℕ) (x : Entry)
      → attr_set d ino a ≡ some (ino', d')
      → get_elem? d.dir j ≡ some x
      → (j < ino.ino) ⊎ (ino.ino < j) × (is_extent_of d e.status e.name e.ext none x ≡ false)
      → get_elem? d'.dir j ≡ some x
  untouched j x h there other =
      let apart : ino.ino ≢ j = ground arith in
      let here : get_elem? (modify d.dir ino.ino write) j ≡ some x =
        get_elem?-modify_ne d.dir ino.ino j write apart ∙ there in
      ap (λ es. get_elem? es j) (dir-attr_set h)
      ∙ get_elem?-map_from same_file write (modify d.dir ino.ino write) (suc ino.ino) j here
      ∙ ground (arith, same_file_not x)
