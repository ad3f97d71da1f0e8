-- ===== src/Tests/Writes.antt =====
-- Writing to a file of the sample disk.
use cpmtools.Base.{ℕ, some, replicate}
use cpmtools.Block.{Device}

-- A device that takes what is written and holds the number of the track everywhere.
abbrev taking : Device ℕ
taking = record {
  read_sector = λ s t r. some (replicate 128 t);
  write_sector = λ s t r bytes. some s;
}
