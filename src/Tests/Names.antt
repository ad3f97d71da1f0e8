-- ===== src/Tests/Names.antt =====
-- The name conversions on small texts.
use cpmtools.Base.{◌<◌, ◌≡◌, inl, refl, false, arith, none, some}
use cpmtools.Entry.{low7, is_file_char}
use cpmtools.Super.{has_flag}
use cpmtools.Name.{to_upper, split_fields, split_filename, print_name}
use cpmtools.Name.Split.{IsField, split_filename-IsField}
use cpmtools.Name.RoundTrip.{Padded, blanks, char, split_filename-print_name}
use cpmtools.Tests.Sample.{codes, bar}

split_plain : split_filename (codes "00foo.txt") 1 ≡ some (0, codes "FOO     ", codes "TXT")
unfolding split_filename split_fields has_flag
split_plain = refl

split_user_too_high : split_filename (codes "31foo.txt") 0 ≡ none
unfolding split_filename split_fields has_flag
split_user_too_high = refl

split_dot_alone : split_filename (codes "00.") 0 ≡ none
unfolding split_filename split_fields has_flag
split_dot_alone = refl

split_long_name :
    split_filename (codes "00longfilename.txt") 0 ≡ some (0, codes "LONGFILE", codes "   ")
unfolding split_filename split_fields has_flag
split_long_name = refl

split_filename-IsField_example : (0 < 32) × IsField 8 (codes "FOO     ") × IsField 3 (codes "TXT")
unfolding split_filename split_fields has_flag
split_filename-IsField_example = split_filename-IsField (codes "00foo.txt") 1 refl

bar-Padded : Padded 8 (low7 bar.name)
unfolding is_file_char to_upper
bar-Padded =
    char (omega arith) (refl, refl)
      (char (omega arith) (refl, refl) (char (omega arith) (refl, refl) (blanks refl)))

com-Padded : Padded 3 (low7 bar.ext)
unfolding is_file_char to_upper
com-Padded =
    char (omega arith) (refl, refl)
      (char (omega arith) (refl, refl) (char (omega arith) (refl, refl) (blanks refl)))

split_filename-print_name_example :
    split_filename (print_name false bar) 1 ≡ some (0, codes "BAR     ", codes "COM")
unfolding has_flag
split_filename-print_name_example =
    split_filename-print_name false 1 bar (omega arith) bar-Padded com-Padded (inl (omega arith))
