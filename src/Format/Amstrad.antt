-- ===== src/Format/Amstrad.antt =====
-- src/cpmfs.c: `amsReadSuper`, the format of a disk from its first sector, and the same format as a
-- definition. A sector that cannot be read is `none`.
use cpmtools.Base.{
  ℕ, ◌-◌, ◌*◌, ◌/◌, ◌%◌, ◌^◌, ◌≡◌, refl, ap, ◌∙◌, Bool, false, ◌&&◌, ◌||◌, List, [], ◌∷◌, ◌++◌,
  Option, none, some, arith, inl, inr, Option-cases, ◌==◌, if◌then◌else◌, get_or, take, drop,
}
use native.Mathlib.Nat.{one-le-pow}
use cpmtools.Super.{Drive}
use cpmtools.Fsck.Special.{dr3}
use cpmtools.Format.{
  Line, diskdef, end_word, set_seclen, set_tracks, set_sectrk, set_blocksize, set_maxdir,
  set_boottrk, set_os, os_3, Format, defaults, setting, complete, extents_of,
}
use cpmtools.Format.Diskdef.{is_end, same_name, diskdef_read_super, read_lines, fill, start}
use cpmtools.Format.Read.{IsBody, settings, and_set, defined, diskdef_read_super-definition}

-- the texts that `memcmp` looks for
abbrev pub cpm_text : List ℕ
cpm_text = b'C' ∷ b'P' ∷ b'/' ∷ b'M' ∷ []

abbrev pub dsk_text : List ℕ
dsk_text = b'D' ∷ b'S' ∷ b'K' ∷ []

-- `boot_spec`
unfoldable pub boot_spec : List ℕ → Option (List ℕ)
unfolding same_name
boot_spec sector =
    let first = get_or sector 0 0 in
    if (first == 0xe9 || first == 0xeb)
      && same_name (take 4 (drop 0x2b sector)) cpm_text
      && same_name (take 3 (drop 0x33 sector)) dsk_text
      && same_name (take 4 (drop 0x7c sector)) cpm_text
    then some (drop 128 sector)
    else if first == 0 || first == 3
    then some sector
    else none

-- `128 << shift`
abbrev pub shifted : ℕ → ℕ
shifted shift = 128 * 2 ^ shift

abbrev pub ams_tracks : List ℕ → ℕ
ams_tracks spec = if get_or spec 1 0 % 4 == 0 then get_or spec 2 0 else get_or spec 2 0 * 2

abbrev pub ams_size : List ℕ → ℕ
ams_size spec =
    shifted (get_or spec 4 0)
    * get_or spec 3 0
    * (ams_tracks spec - get_or spec 5 0)
    / shifted (get_or spec 6 0)

-- The assignments. With fewer tracks than system tracks the size is not positive, which is 0 here.
unfoldable pub ams_fill : List ℕ → Drive → Drive
unfolding extents_of
ams_fill spec d = record d {
  type = dr3;
  sec_length = shifted (get_or spec 4 0);
  tracks = ams_tracks spec;
  sectrk = get_or spec 3 0;
  blksiz = shifted (get_or spec 6 0);
  maxdir = shifted (get_or spec 6 0) / 32 * get_or spec 7 0;
  dirblks = 0;
  skew = 1;
  skewtab = [];
  boottrk = get_or spec 5 0;
  offset = 0;
  size = ams_size spec;
  extents = extents_of (ams_size spec) (shifted (get_or spec 6 0));
}

-- `amsReadSuper`
unfoldable pub ams_read_super : Option (List ℕ) → Drive → Option Drive
unfolding boot_spec ams_fill
ams_read_super none d = none
ams_read_super (some sector) d = elim (boot_spec sector) [
  | none ↦ none
  | some spec ↦ some (ams_fill spec d)
]

-- The parameters of an Amstrad disk as the lines of a definition.
abbrev pub body : List ℕ → List Line
body spec =
    set_seclen (some (shifted (get_or spec 4 0)))
    ∷ set_tracks (some (ams_tracks spec))
    ∷ set_sectrk (some (get_or spec 3 0))
    ∷ set_blocksize (some (shifted (get_or spec 6 0)))
    ∷ set_maxdir (some (shifted (get_or spec 6 0) / 32 * get_or spec 7 0))
    ∷ set_boottrk (some (get_or spec 5 0))
    ∷ set_os os_3
    ∷ []

abbrev pub definition : List ℕ → List ℕ → List Line
definition name spec = diskdef name ∷ (body spec ++ end_word ∷ [])

-- what these lines set
abbrev set_up : List ℕ → ℕ → Format
set_up spec size = record (defaults size) {
  sec_length = some (shifted (get_or spec 4 0));
  tracks = some (ams_tracks spec);
  sectrk = some (get_or spec 3 0);
  blksiz = some (shifted (get_or spec 6 0));
  maxdir = some (shifted (get_or spec 6 0) / 32 * get_or spec 7 0);
  boottrk = some (get_or spec 5 0);
  type = dr3;
}

shifted_ne : (n : ℕ) → (shifted n == 0) ≡ false
shifted_ne n = let positive = one-le-pow n 2 (omega arith) in ground (arith, positive)

body-IsBody : (spec : List ℕ) → IsBody (body spec)
unfolding is_end
body-IsBody spec = (refl, (refl, (refl, (refl, (refl, (refl, (refl, tt)))))))

settings-body :
    (spec : List ℕ) (size : ℕ) → settings (body spec) (defaults size) ≡ some (set_up spec size)
unfolding settings setting
settings-body spec size =
    let numbers : Format = record (defaults size) {
      sec_length = some (shifted (get_or spec 4 0));
      tracks = some (ams_tracks spec);
      sectrk = some (get_or spec 3 0);
      blksiz = some (shifted (get_or spec 6 0));
    } in
    let rest : List Line =
      set_maxdir (some (shifted (get_or spec 6 0) / 32 * get_or spec 7 0))
      ∷ set_boottrk (some (get_or spec 5 0))
      ∷ set_os os_3
      ∷ [] in
    ap (λ (b : Bool). and_set (if b then none else some numbers) (settings rest))
      (shifted_ne (get_or spec 6 0))

-- `if (d->extents == 0) d->extents = 1`, which `amsReadSuper` does not have
abbrev pub at_least_one : ℕ → ℕ
at_least_one extents = if extents == 0 then 1 else extents

abbrev pub with_one : Drive → Drive
with_one a = record a { extents = at_least_one a.extents }

-- A disk that `amsReadSuper` accepts has the format that `diskdefReadSuper` makes of the definition
-- with the same parameters, but that the extents of an entry may be 0, where the definition has 1.
pub ams_read_super-diskdef :
    (name sector : List ℕ) (d a : Drive)
    → ams_read_super (some sector) d ≡ some a
    → (spec : List ℕ) × (boot_spec sector ≡ some spec)
      × (diskdef_read_super name (definition name spec) d ≡ some (with_one a))
unfolding ams_read_super ams_fill complete fill read_lines
ams_read_super-diskdef name sector d a h = elim (Option-cases (boot_spec sector)) [
  | inl nothing ↦ absurd (ground (arith, nothing))
  | inr (spec, e) ↦
      let same : ams_fill spec d ≡ a = ground (arith, e) in
      (
        spec,
        e,
        diskdef_read_super-definition name [] (body spec) [] d (start d) refl refl refl
              (body-IsBody spec)
            ∙ ap (λ o. defined o d) (settings-body spec d.size)
            ∙ ap (λ (k : Drive). some (with_one k)) same,
      )
]
