-- ===== src/Fsck/Special.antt =====
-- src/fsck.cpm.c, phase 1: the checks of the disc label and of the entries with passwords.
use Prim.Native.Nat.{bit_xor}
use cpmtools.Base.{
  ℕ, ◌+◌, ◌-◌, ◌%◌, Bool, true, not, ◌&&◌, ◌||◌, List, [], ◌∷◌, ◌++◌, Option, none, some, ◌==◌, ltb,
  leb, if◌then◌else◌, take, drop, test_bit,
}
use cpmtools.Entry.{Entry}
use cpmtools.Super.{Drive}
use cpmtools.Fsck.Ask.{Case, ask, act, repair_each, ◌>>=◌, ◌and_then◌}
use cpmtools.Fsck.Fields.{check_name, check_ext}

abbrev pub p2dos : ℕ
p2dos = 3

abbrev pub dr3 : ℕ
dr3 = 71

abbrev pub mpm : ℕ
mpm = 101

-- `pwdCheck`: whether each of the eight characters is printable
unfoldable pub pwd_check : List ℕ → ℕ → Bool
pwd_check [] decode = true
pwd_check (p ∷ ps) decode =
    let c = bit_xor p decode in not (ltb c b' ' || leb 128 c) && pwd_check ps decode

-- `PB`, the sum of the letters `T0` to `T7` as a byte
abbrev pub pb : ℕ
pb = (b'G' + b'E' + b'H' + b'E' + b'I' + b'M' + b' ' + b' ') % 256

-- `P0` to `P7`, the letters from the last to the first
abbrev pub default_password : List ℕ
default_password =
    bit_xor b' ' pb
    ∷ bit_xor b' ' pb
    ∷ bit_xor b'M' pb
    ∷ bit_xor b'I' pb
    ∷ bit_xor b'E' pb
    ∷ bit_xor b'H' pb
    ∷ bit_xor b'E' pb
    ∷ bit_xor b'G' pb
    ∷ []

abbrev pub set_password : Entry → Entry
set_password e = record e { pointers = default_password ++ drop 8 e.pointers; lrc = pb }

unfoldable pub is_bad_password : Entry → Bool
unfolding pwd_check
is_bad_password e = not (pwd_check (take 8 e.pointers) e.lrc)

-- the bits of the label byte that stamp on access and on creation, of which one may be set
unfoldable pub is_bad_label : Drive → Entry → Bool
is_bad_label d e = d.type == dr3 && test_bit e.extnol 6 && test_bit e.extnol 4

-- `dir->extnol &= ~0x40` and `dir->extnol &= ~0x10`, where the bit is set
abbrev pub clear_access : Entry → Entry
clear_access e = record e { extnol = e.extnol - 0x40 }

abbrev pub clear_creation : Entry → Entry
clear_creation e = record e { extnol = e.extnol - 0x10 }

-- the second question is put where the first is answered by no
unfoldable pub check_exclusive : Bool → Drive → Case → Option Case
unfolding repair_each ask act
check_exclusive norepair d c =
    let second = λ (rest : List ℕ).
      repair_each norepair clear_creation (true ∷ []) (record c { input = rest }) in
    if is_bad_label d c.entry
    then elim (ask norepair c.input) [
      | none ↦ none
      | some (reply, rest) ↦ if reply then some (act clear_access c reply rest) else second rest
    ]
    else some c

-- the test of the label's password
unfoldable pub is_bad_label_password : Entry → Bool
unfolding is_bad_password
is_bad_label_password e = test_bit e.extnol 7 && is_bad_password e

unfoldable pub check_label_password : Bool → Case → Option Case
unfolding repair_each is_bad_label_password
check_label_password norepair c =
    repair_each norepair set_password (is_bad_label_password c.entry ∷ []) c

-- the disc label
unfoldable pub check_label : Bool → Drive → Case → Option Case
unfolding check_exclusive check_label_password
check_label norepair d c = check_exclusive norepair d c and_then check_label_password norepair

-- the test of an XFCB's password
unfoldable pub is_bad_xfcb_password : Entry → Bool
unfolding is_bad_password
is_bad_xfcb_password e =
    (test_bit e.extnol 7 || test_bit e.extnol 6 || test_bit e.extnol 5) && is_bad_password e

unfoldable pub check_xfcb_password : Bool → Case → Option Case
unfolding repair_each is_bad_xfcb_password
check_xfcb_password norepair c =
    repair_each norepair set_password (is_bad_xfcb_password c.entry ∷ []) c

unfoldable pub check_xfcb : Bool → Case → Option Case
unfolding check_name check_ext check_xfcb_password
check_xfcb norepair c =
    check_name norepair c >>= check_ext norepair >>= check_xfcb_password norepair
