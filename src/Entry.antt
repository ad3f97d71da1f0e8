-- ===== src/Entry.antt =====
-- src/cpmdir.h: the 32-byte directory entry of a CP/M disk and the macros on its fields.
-- A byte is a number below 256, so `x & 0x7f` is `x % 128`. The arrays of the C structure are
-- lists; `IsEntry` states their lengths and that every field is a byte.
use cpmtools.Base.{
  ℕ, ◌+◌, ◌*◌, ◌/◌, ◌%◌, ◌<◌, ◌≡◌, Bool, not, ◌&&◌, ◌||◌, List, map, leb, ltb, ◌==◌, length, All,
}

-- `struct PhysDirectoryEntry`
pub record Entry : Type 0 where
  pub status : ℕ
  pub name : List ℕ
  pub ext : List ℕ
  pub extnol : ℕ
  pub lrc : ℕ
  pub extnoh : ℕ
  pub blkcnt : ℕ
  pub pointers : List ℕ

abbrev pub IsByte : ℕ → Type 0
IsByte x = x < 256

pub record IsEntry (e : Entry) : Type 0 where
  pub status_byte : IsByte e.status
  pub name_length : length e.name ≡ 8
  pub name_bytes : All IsByte e.name
  pub ext_length : length e.ext ≡ 3
  pub ext_bytes : All IsByte e.ext
  pub extnol_byte : IsByte e.extnol
  pub lrc_byte : IsByte e.lrc
  pub extnoh_byte : IsByte e.extnoh
  pub blkcnt_byte : IsByte e.blkcnt
  pub pointers_length : length e.pointers ≡ 16
  pub pointers_bytes : All IsByte e.pointers

-- A name or extension without its attribute bits, `& 0x7f` at each character.
abbrev pub low7 : List ℕ → List ℕ
low7 = map (λ c. c % 128)

-- `EXTENT(low,high)`; the two masked parts share no bit, so `|` is a sum.
unfoldable pub extent : ℕ → ℕ → ℕ
extent low high = low % 32 + high % 64 * 32

-- `EXTENTL(extent)`
unfoldable pub extentl : ℕ → ℕ
extentl e = e % 32

-- `EXTENTH(extent)`
unfoldable pub extenth : ℕ → ℕ
extenth e = e / 32 % 64

-- `ISFILECHAR(notFirst,c)`. For a character of 128 or more `c&~0x7f` is not 0 (and `c>=' '`
-- fails where `char` is signed), so the bound 127 stands for both.
unfoldable pub is_file_char : Bool → ℕ → Bool
is_file_char not_first c =
    (not_first || not (c == b' '))
    && leb b' ' c
    && ltb c 128
    && not (c == b'<')
    && not (c == b'>')
    && not (c == b'.')
    && not (c == b',')
    && not (c == b';')
    && not (c == b':')
    && not (c == b'=')
    && not (c == b'?')
    && not (c == b'*')
    && not (c == b'[')
    && not (c == b']')
