-- ===== src/Cli/Target/Tasks.antt =====
-- pkg/cli/target.go: the tasks of `copyOrCreate` call by call, run side by side.
pub mod Whole
pub mod Laws
pub mod Order
use ovm.Base.{Bytes, Option, none, some, List, [], ◌∷◌, map}
use ovm.Os.Outcome.{errno, Action, raise, wrapping, ◌>>=◌}
use ovm.Os.Disk.{Disk}
use ovm.Os.Calls.{create, open_source, copy_content, truncate, sync, remove_all}
use ovm.Os.Tasks.{Calls, Task, running}
use ovm.Text.FilePath.{abs}
use ovm.Utils.Files.{stat_node, regular}
use ovm.Cli.Versions.{Key, image_data}
use ovm.Cli.Target.{SrcPath, dist_path, data_size}

-- os.Stat of the source, whose answer is examined.
unfoldable check : Bytes → Action Disk (Unit {0})
unfolding stat_node regular
check p = stat_node p >>= regular p

-- The calls of `Copy`, once the source has its absolute path.
copy_calls : Option Bytes → Bytes → Calls
unfolding check
copy_calls none dst = raise errno ∷ []
copy_calls (some p) dst = check p ∷ open_source p ∷ create dst ∷ copy_content p dst ∷ sync dst ∷ []

-- The calls of the task for the data disk, with `CreateSparseFile`.
create_calls : Bytes → Calls
create_calls dst =
    remove_all dst
    ∷ wrapping "create sparse file failed" (create dst)
    ∷ wrapping "truncate sparse file failed" (truncate dst data_size)
    ∷ wrapping "sync sparse file failed" (sync dst)
    ∷ []

pub calls_to : Option Bytes → Key → Bytes → Bytes → Calls
unfolding copy_calls create_calls abs
calls_to cwd image_data src dst = create_calls dst
calls_to cwd _ src dst = copy_calls (abs cwd src) dst

unfoldable pub calls_of : Option Bytes → Bytes → SrcPath → Calls
unfolding calls_to
calls_of cwd target src = calls_to cwd src.key src.p (dist_path target src)

-- The group that `handle` waits for.
unfoldable pub tasks_of : Option Bytes → Bytes → List SrcPath → List Task
unfolding calls_of
tasks_of cwd target srcs = map (λ src. running (calls_of cwd target src)) srcs
