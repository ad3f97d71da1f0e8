-- ===== src/Lib.antt =====
-- cpmtools: tools that read and write CP/M disks from UNIX.
--
-- The file system code, src/cpmfs.c, keeps a super block in memory: the format of the disk, the
-- directory as an array of 32-byte entries, and a bitmap of the blocks in use. A file is the set of
-- entries that carry its user number, name and extension; its inode number is the index of its entry
-- with the lowest extent number. The operations search the directory from an index on, change the
-- entries that they find, and write the directory back when the disk is unmounted.
--
-- - Base.antt: shared names, lists and the bits of a machine word.
-- - Entry.antt: src/cpmdir.h, `struct PhysDirectoryEntry` and the macros.
-- - Super.antt, Inode.antt: src/cpmfs.h, `struct cpmSuperBlock`, the type flags, the errors in `boo`,
--   `struct cpmInode`.
-- - Alv.antt: the allocation vector, `alvInit` and `allocBlock`.
-- - Dir.antt: `memcpy7`, `isMatching`, `findFileExtent`, `findFreeExtent`, and the loop by which
--   the operations go through the extents of a file.
-- - Name.antt: `splitFilename`, and the name that `cpmReaddir` prints.
-- - Lookup.antt: the entries of a file that `cpmNamei` looks through, and those that `cpmReaddir` lists.
-- - Listing.antt: `cpmReaddir`.
-- - Stat.antt: `cpmStatFS`.
-- - Glob.antt: file name patterns, `recmatch` and `match`.
-- - Skew.antt: the sector skew table of `cpmReadSuper`.
-- - Block.antt: `readBlock` and `writeBlock` over a device that is a parameter.
-- - File.antt: `cpmUnlink`, `cpmRename`, `cpmAttrSet`, `cpmAttrGet`, `cpmChmod`.
-- - Layout.antt: the 32 bytes of a directory entry, for the stamps that the code stores across members.
-- - Clock.antt: `cpm2unix_time`, `unix2cpm_time`, `ds2unix_time`, `unix2ds_time` over a clock that is a
--   parameter.
-- - Stamp.antt: `getCpmStampField`, `setCpmStampField`, `updateTimeStamps`, `updateDsStamps`,
--   `readTimeStamps`, `readDsStamps`.
-- - Namei.antt: `cpmNamei`, `cpmStat`.
-- - Content.antt: `cpmOpen`, `cpmRead`.
-- - Writing.antt: `cpmWrite`.
-- - Sync.antt: `cpmSync`, `syncDs`, and the loops that read blocks.
-- - Mount.antt: `cpmReadSuper` after the format, `cpmCheckDs`.
-- - Create.antt: `cpmCreat`, `cpmUtime`.
-- - Expand.antt: `cpmOpendir`, `cpmglob`.
-- - Format.antt: `diskdefReadSuper` from the words of the lines on, `amsReadSuper`.
-- - Posix.antt: src/device_posix.c, the sectors of an image file.
-- - Fsck.antt: src/fsck.cpm.c, the two phases of `fsck` with its questions, `ask` and `pwdCheck`.
-- - Make.antt: src/mkfs.cpm.c, the image file that `mkfs` writes.
-- - Tests.antt: runs on a small disk, and the theorems at concrete inputs.
--
-- Conventions. A C function that changes the super block takes a `Drive` and returns its result
-- with the new one; one that returns -1 and sets `boo` returns `none`, or `err` with the reason.
-- A byte is a number below 256, `x & 0x7f` is `x % 128`, and `int` values that the code never makes
-- negative are natural numbers.
-- The loop through the extents of a file starts each round at a higher index, so the length of
-- the directory is fuel enough (`each_extent`, `file_extents`); the search for a free sector of
-- the skew table ends within the sectors of a track (`free_slot`), since the table holds fewer;
-- `cpmReaddir` has a round for each position that is left (`readdir`). A day number takes a round of the loop over the
-- years at most for each day, and twelve of the loop over the months (`split_days`); of two rounds
-- of the loop of `cpmRead` one returns a byte (`read_file`), and each round of the loop of `cpmWrite`
-- stores one at least (`write_file`). The count of used pointers in `fsck` has a round for each of
-- the 16 bytes (`count_used`). The world beyond the program, which the clock and the device
-- read and change, is a type that is a parameter. The directory is the list
-- of its `maxdir` entries; the unused rest of its last block is apart, and only `cpmReadSuper` and
-- `cpmSync` see it.
--
-- Not modelled: the command line tools, the terminal editor, getopt, the drivers for LibDsk and Windows,
-- and of `mkfs.cpm` the file of DateStamper and `main`. Of the diskdefs file `strtok` and
-- `strtol`, which take the lines apart, and the geometry for LibDsk are left out. `cpmUmount` frees
-- memory around `cpmSync`. Of `fsck` the messages are left out, and with them the checks of dates and
-- the statistics, which change neither the directory nor the result.
pub mod Base
pub mod Entry
pub mod Super
pub mod Alv
pub mod Dir
pub mod Name
pub mod Glob
pub mod Skew
pub mod Block
pub mod Posix
pub mod Stat
pub mod Layout
pub mod Clock
pub mod Inode
pub mod Stamp
pub mod Lookup
pub mod Listing
pub mod Content
pub mod Expand
pub mod Namei
pub mod Create
pub mod Writing
pub mod Sync
pub mod Mount
pub mod Format
pub mod File
pub mod Fsck
pub mod Make
pub mod Tests
