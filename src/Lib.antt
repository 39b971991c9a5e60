-- ===== src/Lib.antt =====
-- The firmware of esp32-berry-lang: the Berry language on an ESP32, with a file system, a network
-- file server and a console.
--
-- The parts of the program, and the files that model them. Paths are those of the repository.
--
-- The TFTP server, components/internals/esp32/tftp_server.c, keeps its socket, its buffer, the client
-- of the transfer and the open file in globals. `TFTP_task` calls `TFTP_run` for ever; that takes one
-- datagram and hands it to `TFTP_parse_rq`, which parses a request, opens the file and runs
-- `TFTP_process_write` or `TFTP_process_read`. Those take further datagrams themselves.
--   Tftp/Wire: the commands and error codes, and the 16-bit numbers of a packet.
--   Tftp/Machine: the globals as the record Server, `recvfrom`, `sendto`, and `TFTP_send_ack`,
--     `TFTP_send_error`, `TFTP_wait_for_ack`.
--   Tftp/Data: `TFTP_on_read`, `TFTP_on_write`, `TFTP_on_read_data`, `TFTP_on_write_data`,
--     `TFTP_on_close`, on the streams of Stdio.
--   Tftp/Write, Tftp/Read: `TFTP_process_write` and `TFTP_process_read`. Tftp/Write/Upload and
--     Tftp/Write/Steps, a round on one packet; Tftp/Write/Repeats, a client that sends a file, and
--     packets again;
--     Tftp/Read/Download, one that reads a file; Tftp/Read/Stale, one that acknowledges other
--     numbers too.
--   Tftp/Request: `TFTP_parse_wrq`, `TFTP_parse_rrq`, `TFTP_parse_rq`.
--   Tftp/Task: `TFTP_init`, `TFTP_start`, `TFTP_stop`, `TFTP_run`, `TFTP_task`; its parts Kept and
--     Polls, what a round of the loop leaves as it was.
--   Tftp/Service: `TFTP_task_start` and `TFTP_task_stop`, and the steps of the server with its tasks.
--   Tftp/Session: a request and its transfer in one call of `TFTP_run`, an upload, and a download in
--     Tftp/Session/Download; Tftp/Session/Silent, a client that falls silent. Tftp/RoundTrip: an
--     upload and then a download of the same file.
-- The network is the list of what the calls of `recvfrom` return, in their order: a datagram or a
-- failure. What `sendto` is given is kept in order. Functions take the state and return it, and the
-- result codes -1, 0 and 1 are the type Code. The opening of files, sockets and `malloc` are
-- parameters.
--
-- The binary searches in sorted tables of names, `be_map_bin_search` of
-- components/berry/berry_mapping/src/be_mapping_utils.c and `bin_search_ctypes` of
-- components/berry/berry_ctypes/src/be_ctypes.c.
--   BinSearch: the searches; their parts Order (`strcmp`), Answer, Own, and Sorted, a test that a
--     table is one the searches can be used on.
--
-- The callbacks, components/berry/berry_mapping/src/be_cb_module.c: twenty C functions that each call
-- the Berry function of their slot, and the handlers that are asked to make one.
--   Callbacks: the globals as the record Callbacks, `gen_cb`, `get_cb_list`, `call_berry_cb`,
--     `add_handler`, `list_handlers`, `make_cb`; its parts Slots, Handlers and Made, of one call, and
--     History and Calls, of sequences of calls. What the interpreter does when it calls a Berry
--     function is a parameter, the record Berry.
--
-- The constants of a Berry module or class, components/berry/berry_mapping/src/be_const_members.c,
-- which are found by `be_map_bin_search`.
--   ConstMembers: `be_const_member_dual` and the functions that call it; its part Lookup. The native and
--     C functions that a constant calls are a parameter.
--
-- C structures seen from Berry, components/berry/berry_ctypes/src/be_ctypes.c. The members of a
-- structure are found by `bin_search_ctypes` and read and written by the methods of `bytes`.
--   Ctypes: `be_ctypes_member`, `be_ctypes_setmember`, `be_ctypes_tomap`; its parts Lookup, Members,
--     Roundtrip and Tomap. The methods of `bytes`, constructors and conversions are a parameter, the
--     record Interpreter, and what the interpreter documents of them, for sizes that are not 0, is Laws
--     of Ctypes/Roundtrip.
--   Ctypes/Objects: `be_ctypes_init`, `be_ctypes_copy`, `be_ctypes_dyn_init`; Ctypes/Copy, the copies,
--     with Laws for the objects.
--
-- Calls of Berry code from the firmware, components/berry/port/be_portutils.c.
--   Events: the Berry stack, `checkBeTop`, `be_error_pop_all`, `callBerryEventDispatcher`,
--     `callBerryFastLoop`, `BrLoad`, of a machine that is not NULL; its parts Balance, Loop and Run.
--     What the interpreter finds and what a protected call returns is a parameter.
--   Events/Init: `callBerryGC` and `BerryInit`; the changing machine is the record Boot.
--   Events/Observability: `be_dumpstack`, `BerryObservability`, with the lines of the log.
--
-- What native functions use, components/berry/berry_mapping/src/be_raisef.c and the insertions of
-- components/berry/berry_mapping/src/be_mapping_utils.c.
--   Mapping/Raise: `be_raisef`. Mapping/Insert: `be_map_insert_…`, on the stack of Events;
--     Mapping/Inserted, what a map then holds, for maps and lists that keep its Laws.
--
-- Calls of C functions from Berry, components/berry/berry_mapping/src/be_class_wrapper.c, with
-- arguments converted as a string of types says. `cb.make_cb`, which it calls for a closure, is that
-- of Callbacks.
--   ClassWrapper/Machine: the values, the interpreter as the record Interpreter, the outcomes.
--   ClassWrapper/Find: `be_find_global_or_module_member`, `be_create_class_wrapper`.
--   ClassWrapper/Convert: `be_convert_single_elt`; ClassWrapper/Letters, what it accepts.
--   ClassWrapper/Args: `be_check_arg_type`; ClassWrapper/Bounds, how much it stores.
--   ClassWrapper/Signature, ClassWrapper/ReadBack: type strings as lists of types.
--   ClassWrapper/Call: `be_set_ctor_ptr`, `be_call_c_func`.
--   ClassWrapper/Callback: a closure that becomes a C function; how the interpreter reaches the
--     module `cb` is the record HasCb.
--   ClassWrapper/Ends: what holds of results.
--
-- The files, components/internals/esp32/littlefs.c and components/berry/port/be_port.c. The TFTP
-- server and Berry open files through the wrapper.
--   Files/LittleFs: the functions `littlefs_…` on the record Mount; the file system is the record Vfs.
--   Files/Streams: the functions `be_f…` on an open file. Files/Port: files and directories by name.
--   Files/Mounted: the wrapper over sequences of calls. Files/Open, Files/Served: `F_OPEN` for the
--     requests of the TFTP server.
--
-- The console, main/main.c, which hands the lines typed to the interpreter.
--   Console: `repl_line` and what it calls, and the loop of `repl_task`, on the stack of Events; the
--     compiler and the calls are the record Machine.
--   Console/Session: sessions, which are what the stack stands for; Console/Refines.
--   Console/Task: `repl_task`, from `BerryInit` on; Console/Start, the whole of it, with the file system,
--     the terminal and the history.
--
-- The network, components/internals/esp32/wifi.c.
--   Wifi: `wifi_event_handler`, `wifi_init_sta`, `wifi_stop` on the globals as the record Wifi, with
--     the list of the driver's calls; its parts Scan (`wifi_scan` and its log), Outcome, the wait for
--     the bits, and Waits, the whole call. The events are a list. Whether a call succeeds and whether
--     the event loop hands an event on are parameters; Documented has what ESP-IDF documents of them.
--
-- The native modules that the interpreter finds, components/berry/port/be_modtab.c.
--   Modules: the tables, for the switches of berry_conf.h.
--
-- Base has the names that the files share: tests on numbers, lists measured by native numbers, the
-- integers.
--
-- Fuel and bounds. The rounds of `TFTP_process_write` and `TFTP_task` are recursion on the list of
-- datagrams. Those of `TFTP_process_read` are on fuel of one more than the bytes left in the file,
-- since every round but the last takes more than 512 bytes, and those of `TFTP_parse_rq` on a fuel
-- that is given. The conversion of an instance that holds an instance is on a depth that is given, that
-- of the C stack. The binary searches have fuel of one more than the length of the table. A byte is a
-- number, with no bound but where a statement names one; block numbers of packets are taken modulo
-- 65536. Berry's integers and pointers are integers, and a statement says which of them fit a member.
--
-- Not modelled: the Berry interpreter and LittleFS, which are copies of other projects, and
-- components/berry/generate, which the build generates. Of the program itself: logging but for the
-- lines named above, and esp_littlefs, the port of LittleFS.
pub mod Base
pub mod BinSearch
pub mod Callbacks
pub mod ClassWrapper
pub mod Console
pub mod ConstMembers
pub mod Ctypes
pub mod Events
pub mod Files
pub mod Mapping
pub mod Modules
pub mod Stdio
pub mod Tftp
pub mod Wifi
mod Tests
