-- ===== src/Storage/Files.antt =====
-- Files as the storage engine sees them: platform/file_posix.cpp over regular files. A file that
-- could not be opened has the handle INVALID_FILE, and reads of it fail with -1.
use fell.Base.{ℕ, Option, none, some, List, length, take, drop, ltb, if◌then◌else◌}

-- What a read handle stands for: the bytes of the file, or INVALID_FILE.
abbrev pub File : Type 0
File = Option (List ℕ)

-- What a read of `n` bytes gives: -1, fewer than `n` bytes, or all of them.
pub data Got : Type 0 where
  failed : Got
  short : Got
  full : List ℕ → Got

-- `pread_file` with the comparison of its result that both readers make.
unfoldable pub pread_file : File → ℕ → ℕ → Got
pread_file none n position = failed
pread_file (some bytes) n position =
    let got = take n (drop position bytes) in if ltb (length got) n then short else full got
