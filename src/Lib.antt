-- ===== src/Lib.antt =====
-- Verification of xproc, a library for messages between processes over shared memory and TCP.
--
-- The program. A producer and a consumer share a segment of shared memory, whose head is a control
-- block and whose rest is a single-producer single-consumer ring of the submodule spscring, or
-- they share a TCP connection. Options are checked first; an endpoint opens the segment, formats it
-- if it created it and validates it otherwise; a channel sends and polls on the ring; a runtime
-- polls in a loop and hands the messages to an executor; an observer reads without taking part.
--
-- The parts, and the files of the repository that they model, as a POSIX build compiles them (but
-- for Windows):
--   Errors      the exceptions and include/xproc/core/layout_manager.hpp's validate_error
--   Options     include/xproc/ipc/options.hpp
--   Layout      include/xproc/core/layout_types.hpp, layout_manager.hpp, src/core/layout_manager.cpp
--   Shm         include/xproc/core/shm.hpp, shm_open_mode.hpp, src/core/shm_posix.cpp
--   Endpoint    include/xproc/ipc/endpoint.hpp
--   Socket      include/xproc/ipc/socket_channel.hpp, src/ipc/socket_channel.cpp
--   SendResult  include/xproc/ipc/send_result.hpp, message_meta.hpp
--   Ring        the calls that the library makes on spscring's readers and writers
--   Channel     include/xproc/ipc/channel.hpp
--   Observer    include/xproc/ipc/observer.hpp, inspector.hpp, diagnostics_tracker.hpp and
--               src/ipc/diagnostics_tracker.cpp
--   Runtime     include/xproc/ipc/runtime.hpp
--   Subprocess  include/xproc/platform/subprocess.hpp, src/platform/subprocess_posix.cpp
--   Builders    include/xproc/ipc/shm_builders.hpp, socket_builders.hpp, transport_factory.hpp
--   Capi        capi/xproc_c.h, capi/xproc_c.cpp, the interface for C, over the parts above
--   Windows     src/core/shm_win32.cpp, src/platform/subprocess_win32.cpp: names, command lines
--               and the views that shared_memory keeps
--   Prelude     names and lemmas on lists, options and numbers; Examples are the tests.
-- A definition has the name of the function that it models. State is passed explicitly: a function
-- takes the object and returns it with the outcome; an exception is a value (Errors.Result).
--
-- What the environment does is an argument. A system call's answer is an argument of the call
-- (Shm.Kernel, Socket.Consumer.Kernel, the attempts of connect_with_retries). How the kernel
-- splits a read or a write is a script of choices, one for each call of ::send or ::recv; a call
-- past the script's end does not return, and as many choices that move a byte as there are bytes
-- are enough. Another process may write the control block while it is checked: each read sees a
-- block of a sequence. The wait for is_ready has the source's own limit. The bounded sends take
-- fuel; one more round than the number of the first one that reads a time from the deadline on is
-- enough. The submodule is a parameter: constants (Options.Abi), init_control_block
-- (Layout.Format.InitLaw), the rings (Ring.RingLaw), and a notify word with its registration and
-- wake-up, whose values repeat only after a period (Runtime.Wake). The builders take the kernel's
-- answers to the ten opens that they try at most; the C interface takes the text of an exception's
-- what() and the printed form of a number. A child's descriptors are a table that ::dup2 and
-- ::close change as documented (Subprocess.Child.DescriptorCalls).
--
-- Not modelled: the handles and waits of a process on Windows, and the moves of its views, which
-- are calls of the kernel; the reads and writes of a child's pipes, the decoding of its exit status
-- and self_exe; the bindings for Python and Node, which forward to the parts above; the waits on
-- sockets, which are calls of ::select; the ratios, which are floating-point; the examples and
-- benchmarks.
pub mod Prelude
pub mod Examples
pub mod Errors
pub mod Options
pub mod Layout
pub mod Socket
pub mod Shm
pub mod Endpoint
pub mod SendResult
pub mod Ring
pub mod Builders
pub mod Capi
pub mod Channel
pub mod Observer
pub mod Runtime
pub mod Subprocess
pub mod Windows
