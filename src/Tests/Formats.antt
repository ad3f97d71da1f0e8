-- ===== src/Tests/Formats.antt =====
-- A diskdefs file of two definitions, and the first sector of an Amstrad disk.
use cpmtools.Base.{ℕ, ◌*◌, ◌≡◌, refl, false, List, [], ◌∷◌, ◌++◌, none, some}
use cpmtools.Super.{Drive}
use cpmtools.Format.{
  Line, diskdef, end_word, set_seclen, set_tracks, set_sectrk, set_blocksize, set_maxdir,
  set_boottrk, set_os, set_skew, set_offset, os_22, os_other, one_word, blank, other_pair,
  whole_tracks, defaults,
}
use cpmtools.Format.Diskdef.{Reader, diskdef_read_super, read_lines, start, step}
use cpmtools.Format.Read.{settings, defined, diskdef_read_super-definition}
use cpmtools.Format.Amstrad.{
  ams_read_super, boot_spec, definition, with_one, ams_read_super-diskdef,
}
use cpmtools.Tests.Sample.{codes, disk}

abbrev before : List Line
before =
    blank ∷ one_word ∷ diskdef (codes "other") ∷ set_tracks (some 77) ∷ other_pair ∷ end_word ∷ []

abbrev lines : List Line
lines =
    set_seclen (some 128)
    ∷ set_tracks (some 77)
    ∷ set_sectrk (some 26)
    ∷ set_blocksize (some 1024)
    ∷ set_maxdir (some 64)
    ∷ set_skew 6
    ∷ set_boottrk (some 2)
    ∷ set_offset (some 2) whole_tracks
    ∷ set_os os_22
    ∷ []

-- what the lines before leave
abbrev reached : Reader
reached = record {
  inside = false;
  found = false;
  format = record (defaults disk.size) { tracks = some 77; extents = 1; size = 0 };
}

before-reached : read_lines (codes "ibm-3740") before (start disk) ≡ some reached
unfolding read_lines step
before-reached = refl

abbrev ibm : Drive
ibm = record disk {
  boottrk = 2;
  sec_length = 128;
  sectrk = 26;
  tracks = 77;
  blksiz = 1024;
  maxdir = 64;
  dirblks = 0;
  skew = 6;
  skewtab = [];
  offset = 2 * 26 * 128;
  extents = 1;
  type = 1;
  size = 243;
}

diskdef-ibm :
    diskdef_read_super
      (codes "ibm-3740")
      (before ++ diskdef (codes "ibm-3740") ∷ (lines ++ end_word ∷ []))
      disk
    ≡ some ibm
unfolding diskdef_read_super
diskdef-ibm = refl

-- An unknown operating system, and a format that is not there.
diskdef-wrong :
    diskdef_read_super (codes "a") (diskdef (codes "a") ∷ set_os os_other ∷ end_word ∷ []) disk
    ≡ none
unfolding diskdef_read_super
diskdef-wrong = refl

diskdef-unknown : diskdef_read_super (codes "a") before disk ≡ none
unfolding diskdef_read_super
diskdef-unknown = refl

diskdef_read_super-definition_example :
    diskdef_read_super
      (codes "ibm-3740")
      (before ++ diskdef (codes "ibm-3740") ∷ (lines ++ end_word ∷ one_word ∷ []))
      disk
    ≡ defined (settings lines (defaults 0)) disk
unfolding diskdef_read_super
diskdef_read_super-definition_example =
    diskdef_read_super-definition (codes "ibm-3740") before lines (one_word ∷ []) disk reached
      before-reached refl refl
      (refl, (refl, (refl, (refl, (refl, (refl, (refl, (refl, (refl, tt)))))))))

abbrev sector : List ℕ
sector = 0 ∷ 0 ∷ 40 ∷ 9 ∷ 2 ∷ 1 ∷ 3 ∷ 2 ∷ []

abbrev ams : Drive
ams = record disk {
  type = 71;
  sec_length = 512;
  tracks = 40;
  sectrk = 9;
  blksiz = 1024;
  maxdir = 64;
  dirblks = 0;
  skew = 1;
  skewtab = [];
  boottrk = 1;
  offset = 0;
  size = 175;
  extents = 1;
}

ams-read : ams_read_super (some sector) disk ≡ some ams
unfolding ams_read_super
ams-read = refl

ams_read_super-diskdef_example :
    (spec : List ℕ) × (boot_spec sector ≡ some spec)
    × (diskdef_read_super (codes "pcw180") (definition (codes "pcw180") spec) disk
        ≡ some (with_one ams))
ams_read_super-diskdef_example = ams_read_super-diskdef (codes "pcw180") sector disk ams ams-read
