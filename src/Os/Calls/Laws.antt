-- ===== src/Os/Calls/Laws.antt =====
-- Calls that succeed.
use ovm.Base.{Bytes, ◌≡◌, arith, false, some}
use ovm.Os.Outcome.{ok}
use ovm.Os.Disk.{Disk, file, read_call}
use ovm.Os.Calls.{read_file}

pub read_file_lem :
    (p b : Bytes) (d : Disk)
    → d.entry p ≡ some (file b)
    → d.fault (read_call p) ≡ false
    → read_file p d ≡ (ok b, d)
unfolding read_file
read_file_lem p b d e h = ground arith
