-- ===== src/Lib.antt =====
-- ovm: the host side of a virtual machine for macOS. The program checks its flags (pkg/cli), ends an
-- earlier instance of itself and takes the lock (cmd/ovm, pkg/pidlock), brings the kernel and the
-- images to the wanted versions (pkg/cli), and then starts the network, the machine and its servers
-- (pkg/gvproxy, pkg/vfkit, pkg/ipc, pkg/powermonitor, pkg/sshagentsock), each with its logs
-- (pkg/logger).
--
-- Base holds what all files share: numbers, lists, bytes and Boolean tests; Go strings are lists of
-- bytes. Text is what the program uses of Go's strings, strconv and path packages, written out as
-- documented and run on examples. Os is the operating system as the program sees it: Os/Outcome has
-- Go's errors and a state passing monad in which what was changed before an error stays changed;
-- Os/Disk and Os/Calls have a disk with files, folders and sparse files, on which any call may fail
-- by the disk's `fault`; Os/Frame says which calls leave a path
-- alone, and Os/Spares which leave what stands there. Os/Tasks runs tasks call by call under a schedule, and
-- Os/View says what a call looks at.
--
--  Logger            pkg/logger/logger.go: `init` is Context.init, `new` is New and so on
--  Logger/Levels     pkg/logger/logger.go: Info, Warn, Error and Close, with what a crash would leave
--  Cli/Flags         pkg/cli/cli.go: `validate` is Validate; Cli/Args has the flags and Parse
--  Cli/Setup         pkg/cli/setup.go: the methods of Context, PreSetup and Setup; Cli/Shares is the loop of
--                    basic over --extend-share-dir, Cli/Sockets is socketPath, and Cli/Keys is ssh, with
--                    GenerateSSHKey of pkg/utils/ssh.go
--  Cli/Versions      pkg/cli/target.go: versionsJSON and parseVersions
--  Cli/Target        pkg/cli/target.go: `select` is the loop of targetContext.handle, `bring` is a
--                    task of copyOrCreate, `install` is newTarget with handle; Cli/Target/Tasks has
--                    the calls of these tasks for the schedules of Os/Tasks
--  PidLock           pkg/pidlock/pidlock.go: files are inodes, and a lock belongs to a descriptor
--  Main/SingleInstance  cmd/ovm/single_instance.go: `make_single_instance`
--  Main/Boot         cmd/ovm/main.go: `run` is init and main, `exit` is exit; the lock is that of
--                    Main/SingleInstance and PidLock
--  Main/Start        cmd/ovm/main.go: `begin` is init and main from the arguments to the set up of the events,
--                    with the functions of the packages, where Main/Boot takes the stages by their results
--  Main/BindPid      cmd/ovm/wait_bind_pid.go: `wait_bind_pid`
--  Main/Shutdown     the group of tasks behind the return of vfkit's Run, as a step relation; beside the
--                    tasks the machine may go down by itself or by a request of the API
--  Main/Network      how gvproxy and vfkit wait for each other over the channels
--  Channel           pkg/channel/channel.go
--  Utils/Files       pkg/utils/file.go; Utils/Port is pkg/utils/port.go
--  Utils/Accept      pkg/utils/net.go: AcceptTimeout, as a step relation of caller and goroutine
--  Vfkit/Mounts      pkg/vfkit/mount.go; Vfkit/KernelCmd is pkg/vfkit/kernel_cmd.go
--  Vfkit/Config      pkg/vfkit/config.go: `vm_config` is vmConfig
--  Vfkit/Run         pkg/vfkit/vfkit.go: `run` is Run with the tasks that it starts; Vfkit/Watch is the task
--                    that listens to the states, Vfkit/State is waitForVMState, requestStopVM and stopVM
--  Vfkit/Ignition    pkg/vfkit/ignition.go, and LocalTZ of pkg/utils/misc.go
--  Gvproxy           pkg/gvproxy/gvproxy.go: Run, its configuration and its forward; Gvproxy/Domains is
--                    searchDomains
--  Vfkit/Vsock       pkg/vfkit/vscok.go: connectVsocks; Vfkit/Vsock/Proxy is listenVsock
--  Restful           pkg/ipc/restful/restful.go: the routes and their handlers, and encodeSSE; Restful/Exec is
--                    exec with its writers, and Restful/Stream the loop of /exec, as a step relation of
--                    handler, goroutine and client; Restful/Session is both together; Restful/Server is
--                    New and info
--  Main/Serving      Start of pkg/ipc/restful/restful.go and httpServe of pkg/gvproxy/gvproxy.go, as a step
--                    relation of the two tasks that each starts
--  PowerMonitor      pkg/powermonitor: the reactions to the host's activities, the clock's frames, and the
--                    loop that writes them
--  PowerMonitor/Tasks  the tasks of initTimeSync with the guest and the channel, as a step relation
--  Main/PowerMode    the power save mode that a request sets and the power monitor reads
--  Event             pkg/ipc/event/event.go: the queue and the exit as a step relation, and the address
--                    of a request; Event/Setup is Setup with the calls that announce an event
--  AgentSock         pkg/sshagentsock/sshagentsock.go: FindExtendedAgent and Start
--  Tests             runs at concrete inputs
--
-- Bounds: all loops are structural. The rounds of the rotation are 4, the ports tried 100, the checks
-- of an ended process 10, as in the source. Decimal output divides a number n at most n + 1 times, and
-- that is enough for its digits. Loops that wait (for a state, for a stop, for the writes of a
-- connection, for the end of a process) run over the list of what they receive; `none` is a loop that
-- still goes on. Where a stage of main or of a Run may fail, the answers are a record, and what others
-- see of the call is a list of deeds in their order.
--
-- Parameters: encoding/json (a codec that reads back the ASCII which it writes, or what it makes of a
-- request's body), the case mapping of strings.ToLower, MD5, fmt.Sprintf of a text without arguments,
-- ssh-keygen and the parser of keys, net/url, the `Wait` of errgroup, and the answers of the kernel,
-- of ssh, of gopsutil, of launchctl, of the network and of the machine. Paths are bytes without
-- symbolic links, and two paths that name one file are the same bytes. A request's path is one that
-- ServeMux does not redirect. The tasks of a group in the setup run one after another, the copies also
-- side by side. A queue without bound, as of the events and of /exec, is a list.
--
-- Not modelled: the other tasks that only wait for the context or for one connection; the proxies' copying;
-- the serving of HTTP; the text of the usage; time stamps; and the texts that are logged.
pub mod Base
pub mod Text
pub mod Os
pub mod Utils
pub mod Logger
pub mod Cli
pub mod PidLock
pub mod Main
pub mod Vfkit
pub mod Gvproxy
pub mod Restful
pub mod PowerMonitor
pub mod AgentSock
pub mod Event
pub mod Channel
pub mod Tests
