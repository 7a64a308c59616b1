-- ===== src/Lib.antt =====
-- PLCMaster: the core of a soft PLC. Tags name process values, HMI values and bits or numbers in the
-- data of fieldbus devices; a scheduler thread runs the periodic tasks between the input and the
-- output of the drivers; clients read and write tags by name through a pair of rings that the cycle
-- polls.
--
-- Parts (paths below PLCMaster/src):
--   * Prelude, and Prelude/Tests, Lists, Text and Bits: the shared names, comparisons of numbers, lists
--     with the C idioms on arrays, C strings and bits of a byte.
--   * Ring: core/ipc/spsc_ring.c. `SpscRing_t` is the record SpscRing, `spsc_ring_init`, `_push` and
--     `_pop` are init, push and pop. Ring/Inv has the invariant, Ring/Queue the bounded queue,
--     Ring/Refine the refinement.
--   * Rpc: core/ipc/tag_rpc.c, the channel of two rings. Rpc/Plc: core/ipc/tag_rpc_plc.c, where
--     `handle_read`, `handle_write` and `tag_rpc_plc_poll` are handle_read, handle_write and poll.
--   * Status: the return codes.
--   * Tag: the types of core/tag/tag_table.h and core/device/device_desc.h. Tag/Table:
--     core/tag/tag_table.c. Tag/Value, Tag/Resolve, Tag/Io and Tag/Api: core/tag/tag_api.c, from the
--     value stores and `resolve_entry` to `read_io_value`, `write_io_value`, `tag_read`, `tag_write`
--     and their typed forms.
--   * Device: core/device/device_desc.h and `DeviceConfig_t`, the descriptions of devices.
--   * Backend: core/backend/backend_iface.h and backend_config.h, the interface of a fieldbus driver, with
--     what it promises of output data (IsStaging).
--   * EtherCat: backends/ethercat/ec_backend.h and ec_backend.c, the driver for EtherCAT, whose buffers
--     and copies are in EtherCat itself. EtherCat/Soem is ec_soem_lifecycle.c, EtherCat/Setup and Mapping
--     are the calls of the system builder (`ethercat_backend_create`, `ethercat_init`,
--     `ethercat_bind_device`, `ethercat_finalize_mapping`), EtherCat/Rt is `ethercat_rt_thread`, one pass of
--     which is rt_cycle, EtherCat/Ops are the calls of the runtime, with `g_ec_ops` in Mapping (ec_ops).
--     EtherCat/Run lets the two threads take turns. EtherCat/Indices, Layout and Ready have the invariants,
--     EtherCat/Outputs, Publish, PlcCycle, Fault, Snapshot, Staging, Start and Race are about outputs, faults,
--     inputs, the promise of the interface, the start, and a cycle of the PLC in the middle of a send.
--   * Runtime: core/runtime/runtime.c. Runtime/Slots, Start (with Leaves) and Health are
--     about its driver array.
--   * Scheduler: core/plc/plc_scheduler.c but for its thread. Scheduler/Cycle: `plc_scheduler_thread`.
--     Scheduler/Cycle/CatchUp, Policy and Ends are about its loops, Scheduler/Pending and its child Queue
--     about the tasks queued at run time, Scheduler/Setup about the set-up calls.
--   * StoreInit: app/plc/store_init.c, the initial values of process and HMI variables, with the
--     descriptions of app/config/config_static.h. StoreInit/Loop is about the loop, StoreInit/Read about
--     tags read afterwards.
--   * Builder: system/builder/system_builder.c. `system_build` is system_build in Builder/System, its
--     stages are in Builder/Drivers (creation, `init`, `bind`, `finalize`), Builder/Stores (process
--     variables and HMI tags) and Builder itself (tags of devices). Builder/Registry has
--     core/backend/backend_registry.c and core/device/device_registry.c. Builder/Validate, Position and
--     Bound are about device tags and their indices, the children of Builder/System about the outcome.
--   * Tcp: services/tcp/tag_tcp_server.c. `skip_ws`, `parse_token`, `format_response` and `handle_request`
--     have their names, parse_request and await_response are parts of `handle_request`, feed is the loop of
--     `tag_tcp_server_thread` over received bytes. Tcp/Request is about request lines, Tcp/Line about the
--     gathering of lines.
--   * Tests: concrete inputs at which the theorems apply.
--
-- How they interact: a poll of Rpc/Plc pops a request from one ring, finds the tag by name in the
-- table of the runtime, reads or writes it through Tag/Api, and pushes the response to the other ring.
-- Tag/Io reaches a driver of the runtime through the operations in its table. The scheduler calls its
-- hooks, by which the application lets the runtime begin a cycle and send the outputs.
--
-- Conventions: numbers of a fixed width keep their wrap-around written out. A fallible function
-- returns an option, a status or a Boolean that is true for 0. State is passed explicitly; the storage
-- of a ring is a list of elements, the memory of a value a list of bytes, little-endian. The functions
-- of the C library that the handlers call are the fields of the record Libc, the operations of a
-- driver the fields of BackendOps, tasks and hooks functions on a state of the outside and the health
-- level. `size_t` has 64 bits; `unsigned long` has the range that Libc says.
--
-- Fuel: `resolve_entry` has the program's own bound of five levels. `drain_from` gets one round more
-- than the write index, and each round moves the read index on. `catch_up` and what calls it take the
-- number of rounds as an argument and return none where it is not enough; below 2^32 ms of monotonic
-- time a number above the present time is enough. The attempts at SAFE_OP and OPERATIONAL are the 10 and 20
-- of the source.
--
-- Not modelled: NULL pointers to the objects themselves, interleavings of threads within one call or
-- within one pass of the real-time thread, the printing of messages, the thread handles, what a
-- driver does while it is destroyed, the sockets, clients and thread of the TCP server, the Modbus driver,
-- the platform layer, and the configuration of one controller. The SOEM library is the record Soem of
-- functions, memory and thread creation are the record Host, `isspace` is an argument.
pub mod Prelude
pub mod Ring
pub mod Status
pub mod Rpc
pub mod Tag
pub mod Device
pub mod Backend
pub mod EtherCat
pub mod Runtime
pub mod Scheduler
pub mod StoreInit
pub mod Builder
pub mod Tcp
pub mod Tests
