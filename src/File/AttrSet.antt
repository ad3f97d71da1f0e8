-- ===== src/File/AttrSet.antt =====
-- What `cpmAttrSet` and `cpmChmod` of cpmfs.c leave in the directory.
use Prim.Native.Nat.{bit_and}
use cpmtools.Base.{ℕ, ◌<◌, ◌≡◌, ◌⊎◌, inl, refl, true, false, none, some, ◌==◌, get_elem?}
use cpmtools.Entry.{Entry, IsEntry, low7}
use cpmtools.Super.{Drive}
use cpmtools.Inode.{Attr, Inode, has_bit, attr_of}
use cpmtools.Dir.{is_extent_of}
use cpmtools.File.{rename_bits, write_bits, attr_set, chmod}
use cpmtools.File.Attributes.{
  new_name, new_ext, low7-new_name, low7-new_ext, attr_of-rename_bits, written, untouched,
}

-- After a successful `cpmAttrSet` the attributes asked for are what `cpmNamei` reads from the
-- inode's entry and from every entry of the file behind it, the password bits apart, which come
-- from the byte `protectMode`; the entry carries the same name and extension as before.
pub attr_set_reads_back :
    (d : Drive) (ino : Inode) (a : Attr) {e x : Entry} {ino' : Inode} {d' : Drive}
    (j protect_mode : ℕ)
    → IsEntry e
    → get_elem? d.dir ino.ino ≡ some e
    → attr_set d ino a ≡ some (ino', d')
    → get_elem? d.dir j ≡ some x
    → (ino.ino ≡ j) ⊎ (ino.ino < j) × (is_extent_of d e.status e.name e.ext none x ≡ true)
    → (x' : Entry) × (get_elem? d'.dir j ≡ some x')
      × (attr_of x' protect_mode ≡ record a {
        pwdel = has_bit protect_mode 0x20;
        pwwrite = has_bit protect_mode 0x40;
        pwread = has_bit protect_mode 0x80;
      })
      × (low7 x'.name ≡ low7 e.name)
      × (low7 x'.ext ≡ low7 e.ext)
attr_set_reads_back d ino a {e} {x} j protect_mode v at h there which = (
  rename_bits (new_name a e) (new_ext a e) x,
  written d ino a v at j x h there which,
  attr_of-rename_bits a e x protect_mode v,
  unfold rename_bits in low7-new_name a e v,
  unfold rename_bits in low7-new_ext a e v,
)

-- `cpmAttrSet` changes no entry that is not one of the file, and none that stands before the
-- inode's entry in the directory, even if it is one of the file.
pub attr_set_untouched :
    (d : Drive) (ino : Inode) (a : Attr) {e : Entry} {ino' : Inode} {d' : Drive} (j : ℕ) (x : Entry)
    → IsEntry e
    → get_elem? d.dir ino.ino ≡ some e
    → attr_set d ino a ≡ some (ino', d')
    → get_elem? d.dir j ≡ some x
    → (j < ino.ino) ⊎ (ino.ino < j) × (is_extent_of d e.status e.name e.ext none x ≡ false)
    → get_elem? d'.dir j ≡ some x
attr_set_untouched d ino a j x v at h there which = untouched d ino a v at j x h there which

-- After a successful `cpmChmod` the inode's entry is read-only exactly if the mode has no write
-- bit, and its other attributes are those of the inode, the password bits apart.
pub chmod_reads_back :
    (d : Drive) (ino : Inode) (mode : ℕ) {e : Entry} {ino' : Inode} {d' : Drive} (protect_mode : ℕ)
    → IsEntry e
    → get_elem? d.dir ino.ino ≡ some e
    → chmod d ino mode ≡ some (ino', d')
    → (x' : Entry) × (get_elem? d'.dir ino.ino ≡ some x')
      × (attr_of x' protect_mode ≡ record (ino.attr) {
        ro = bit_and mode write_bits == 0;
        pwdel = has_bit protect_mode 0x20;
        pwwrite = has_bit protect_mode 0x40;
        pwread = has_bit protect_mode 0x80;
      })
unfolding chmod
chmod_reads_back d ino mode {e} protect_mode v at h =
    let a : Attr = record (ino.attr) { ro = bit_and mode write_bits == 0 } in
    (
      rename_bits (new_name a e) (new_ext a e) e,
      written d ino a v at ino.ino e h at (inl refl),
      attr_of-rename_bits a e e protect_mode v,
    )
