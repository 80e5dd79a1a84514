-- ===== src/Lib.antt =====
-- The verification library of psvemmc: a server on a PS Vita that gives a client on the network the
-- sectors and clusters of the internal storage, the memory card and the game card.
--
-- The program has three parts. server/src/main.c is a user process on the device: it accepts one
-- client at a time, receives commands, and answers each by a handler. driver/psvemmc.c is a kernel
-- module, whose functions the handlers call and which reads the devices. Both keep a pool for one
-- cluster. client/psvemmc is the program on the PC, which asks the server for the table of partitions
-- of a device, and for the clusters and sectors of one of them, and writes these to a file.
--
-- Pool.antt: the pool, which both files have with the same globals (g_bytesPerSector,
--   g_sectorsPerCluster, g_clusterPoolInitialized, g_clusterPool, g_clusterPoolPtr, the fields of
--   `Pool`) and the same two functions (initializePool and psvemmcInitialize are `initialize`,
--   deinitializePool and psvemmcDeinitialize are `deinitialize`). Pool/Lifecycle is about its life.
-- Driver.antt: the globals of the driver (g_emmcCtx and so on, the fields of `Driver`) and its
--   functions, readSector as `read_sector`, readClusterMs as `read_cluster_ms` and so on;
--   Driver/Devices has initialize_emmc_globals and its like, Driver/Module module_start and
--   module_stop, Driver/Reads, Reading and Correct what reads and writes do; Driver/Hooks has the hooks of
--   driver/hooks_vfs_ops.c that only log their argument, vfs_func1 and its like, with the function that is
--   hooked as a parameter; Driver/Nodes print_vfs_node and what it calls, Driver/Nodes/Hooks vfs_func12 and
--   13 and vfs_node_func1, 4, 5, 6, 7 and 9, which log members of their argument, nodes of the file system,
--   or count; Printed, Logged, Finished, Guarded and Index prove what they do.
-- Log.antt: the log files of driver/glog.c and driver/sdstor_log.c, which have the same code;
--   Log/Reached what any calls of threads lead to, Log/Lines the code around each line.
-- Mtable.antt: of driver/mtable.c the lookup of an address and the comparison of segments;
--   Mtable/Construct: construct_module_range_table, with the calls of the kernel in `Modules`, and
--   sort_segment_table, with qsort_imp as an argument; Constructed, Loaded, Stale and Sorted prove what
--   they do.
-- Netlog.antt: of driver/net.c the messages to the debug client (send_message and
--   send_message_to_client); Netlog/Listener: the thread that listens (accept_single_connection, whose
--   rounds are `accept_round`, and ConnListenThread as `conn_listen_thread`); Netlog/Lifecycle: init_net and
--   deinit_net, which gets what the thread still does. Frames, Delivery, Streams, Pinged, Connected, Sockets
--   and Released prove what they do.
-- Dump.antt: of driver/dump.c the functions that write memory blocks and data segments of modules to
--   files; Dump/Written proves what they do.
-- Stacktrace.antt: driver/stacktrace.c and driver/thread_test.c; Stacktrace/Traced proves which words of
--   the stack a trace shows.
-- Server/State: the globals of the server and its calls of sockets; Server/Protocol: the codes
--   PSVEMMC_COMMAND_* and the packed responses; Server/Handlers: handle_command_0 to 15, where the
--   handlers that differ only in the device are one definition with the driver's function as an
--   argument; Server/Loop: receive_commands; Server/Connections: init_net, deinit_net,
--   accept_single_connection and main. Transfer, Receive, Steps, Sectors, Clusters, Session,
--   Safety, Ready, Setup, Teardown, Answers, Sockets and Wire prove what they do.
-- Client/State: the sockets of client/psvemmc and the loop that receives a whole buffer;
--   Client/Commands: emmc_ping, emmc_read_sector and its like, where the functions that differ only in
--   the device are one definition with the code of the command as an argument; Client/Dump:
--   dump_partition; Client/Mbr: the table of partitions of SceMbr.h and SceMbr.cpp, parse_sce_mbr,
--   dump_device and parseArgs as `parse_args`; Client/Connect: EmmcClient.cpp and main. Receive,
--   Buffers, Exchange, Reads, Refusals, Headers, Closing and Outside prove what they do by themselves,
--   Service, Served, Image, Partition, Device and Program what they do with a server that answers, and
--   Link the way of a sector from the medium through driver/psvemmc.c and server/src/main.c to the
--   client.
-- Base.antt: effects, words and lists that all share. Tests.antt: a concrete world and examples in it.
--
-- Memory is explicit: a C function is `Exec S A`, a function of the state that returns, or makes an
-- access outside of the memory that it has (`invalid_access`), or runs out of the fuel of the model.
-- `Returns` says that a call returns, so that it never stands for a call that may fail to end. A
-- pointer to memory that was not allocated or was freed is `none` and reaches no bytes. An int is a
-- number below 2^32, negative from 2^31 on, and sums and products are taken modulo 2^32. Numbers on
-- the network are four bytes, the lowest first.
--
-- What is not under the repository is a parameter: the calls of the kernel (`Kernel`, `MemBlocks`) and
-- of the sockets (`Net`) and files (`Io`) get the number of the call, so that each may answer anything
-- at any time.
-- `IsKernel`, `ReadsFrom`, `IsSized` and `IsNet` state what their documentation promises: a block has
-- the size that was asked for, a copy or a read of a device fails or is complete, a call of a socket
-- fails or moves no more bytes than it was given. The sockets of the client are `Peer`, with what the
-- server sends for a request, and `Winsock`; boost::lexical_cast is an argument of `parse_args`.
-- `Kernel` of Netlog has the calls of driver/net.c, and its `IsKernel` states that a call of ksceNetSend
-- fails or takes at least one byte; `held`, `sent` and `closed` of a `Link` record what calls did.
-- `Memory` of Driver/Nodes is what pointers lead to, where the null pointer leads to nothing; the
-- `files` and `open_files` of `Dumps` record what calls did.
-- Of a `Hooked` and a `World` the `guards` record what the variable <name>_entered was when a hook
-- wrote to the log. ksceIoWrite of a line of a log is taken to store all of its bytes. The threads that use
-- the network log are taken to run only during the delay of the listening thread, and to send one
-- whole message after another, which the mutex is there for. qsort_imp is a copy of the BSD function,
-- and a parameter.
-- `IsPeer` is to `Peer` what `IsNet` is to `Net`, and `IsServed` states that a server answers as
-- server/src/main.c does where the driver gives the result 0. `sent`, `received` and `closed` of a server, and
-- `written` and `open_files` of a log, are not in the code: they record what the calls did; and so do
-- `sent`, `incoming`, `file` and `closes` of a client and the fields of `Sockets`.
--
-- Fuel: a loop that sends or receives n bytes has fuel n + 1, which is enough since each round moves a
-- byte or ends it; the loop of receive_commands runs as long as the client sends, and the loop of
-- accept_single_connection as long as clients come, and the loop of the driver's listening thread for
-- as many rounds as it is given: all have as much fuel as their callers give, and
-- the theorems on them say how much is enough. The client's loop has fuel n + 1 for n bytes too, which
-- is enough while bytes come.
--
-- Not modelled: the texts on the debug screen and what the client prints, the stack switch of
-- system calls (ENTER_SYSCALL), the other hooks and the printing of tables of the driver and its
-- qsort (driver/hooks_misc.c, hooks_vfs_funcs.c, debug.c, the rest of dump.c, qsort.c), and the second module error_logger.
pub mod Base
pub mod Pool
pub mod Driver
pub mod Log
pub mod Mtable
pub mod Netlog
pub mod Dump
pub mod Stacktrace
pub mod Server
pub mod Client
pub mod Tests
