-- ===== src/Layout.antt =====
-- src/cpmdir.h: the 32 bytes of a directory entry. The time stamps of CP/M 3 and the reading of the
-- directory address an entry by bytes, across the fields of `struct PhysDirectoryEntry`.
pub mod Views
use cpmtools.Base.{
  ℕ, zero, suc, ◌+◌, ◌≡◌, refl, ap, List, [], ◌∷◌, ◌++◌, arith, length, get_or, take, drop,
}
use cpmtools.Entry.{Entry, IsEntry}

-- The entry as an array of bytes.
abbrev pub to_bytes : Entry → List ℕ
to_bytes e = e.status ∷ (e.name ++ (e.ext ++ (e.extnol ∷ e.lrc ∷ e.extnoh ∷ e.blkcnt ∷ e.pointers)))

-- The array of bytes as an entry.
abbrev pub of_bytes : List ℕ → Entry
of_bytes b = record {
  status = get_or b 0 0;
  name = take 8 (drop 1 b);
  ext = take 3 (drop 9 b);
  extnol = get_or b 12 0;
  lrc = get_or b 13 0;
  extnoh = get_or b 14 0;
  blkcnt = get_or b 15 0;
  pointers = take 16 (drop 16 b);
}

-- The byte at an offset.
abbrev pub byte_at : Entry → ℕ → ℕ
byte_at e offset = get_or (to_bytes e) offset 0

-- The bytes `new` stored from an offset on.
abbrev pub overwrite : ℕ → List ℕ → List ℕ → List ℕ
overwrite zero [] xs = xs
overwrite zero (n ∷ new) [] = []
overwrite zero (n ∷ new) (x ∷ xs) = n ∷ overwrite 0 new xs
overwrite (suc k) new [] = []
overwrite (suc k) new (x ∷ xs) = x ∷ overwrite k new xs

unfoldable pub with_bytes : Entry → ℕ → List ℕ → Entry
with_bytes e offset new = of_bytes (overwrite offset new (to_bytes e))
