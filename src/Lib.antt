-- ===== src/Lib.antt =====
-- mixsim connects a real network (UDP), a network of NIP sockets and a simulation (ndnSIM): the
-- adaptor with its name table, its queue and the coroutines that move buffers between the
-- sockets; the applications inside the simulation; and the demo programs.
--
-- The parts, with paths from the repository's root:
--
-- - adaptor/name_udp_table.c, name_udp_table.h: NutEntry (struct nut_entry, nut_entry_namematch,
--   nut_entry_fdmatch) and Nut (struct nut, nut_create, nut_set, nut_get, nut_del, nut_grow). The
--   loop of nut_set is nut_scan, what follows it is end_scan, with add_addr for a name that is
--   found and new_slot and fill_entry for a new one. Nut/Tests runs adaptor/nut_test.c.
-- - adaptor/lfq.c, lfq.h: LfqMem (the nodes on a heap, struct lfq_ctx), LfqPool (inHP as in_hp,
--   enpool, free_pool, safe_free) and Lfq (alloc_tid, free_tid, lfq_init, lfg_count_freelist,
--   lfq_clean, lfq_enqueue, lfq_dequeue_tid, lfq_dequeue). LfqThreads has lfq_enqueue and
--   lfq_dequeue cut at their accesses to shared memory, enqueue_step and dequeue_step, and any
--   order of the steps of several threads.
-- - adaptor/adaptor.h, adaptor.c: Buffer (struct simple_name_data), World (the globals and what
--   every coroutine does with a buffer) and Adaptor (init_adaptor and the steps of the scheduler).
-- - adaptor/udp_adaptor.c: UdpAdaptor (udp_data_in, udp_interest_out, udp_interest_in,
--   udp_data_out). adaptor/nip_adaptor.c: NipAdaptor (nip_interest_in, nip_data_out,
--   nip_interest_out, nip_data_in). The functions of both that open a socket, the calls of them in
--   init_adaptor, and which coroutine gets which socket: Sockets.
-- - adaptor/nip_pkt_tools.c: PktTools (get_pkt_type, get_pkt_name, whose loop is name_loop, and
--   decap_pkt).
-- - ndnSIM/apps/ndn-app-mixsim.cpp, ndn-app-mixsim.hpp: AppMixSim (StartApplication as
--   start_application, registerFib, ScheduleNextTick, SendNDNInterest as send_ndn_interest,
--   SendUDPData as send_udp_data and so on; OnInterest, OnData and OnNack are on_packet). CText has
--   the C strings that it prints and reads, Ndn what it uses of ndn-cxx, and AppMixSim/Create the
--   attributes and the constructor.
-- - ndnSIM/apps/ndn-provider-virtual.cpp, ndn-provider-virtual.hpp: ProducerVirtual.
-- - ndnSIM/examples/ndn-simple.cpp: app_scenario in AppMixSim/Create and provider_scenario in
--   ProducerVirtual, the attributes that it sets.
-- - demo/mix-request/time_server.c, consumer.c and adaptor/testprovider.c: Server.
--
-- A request of a client arrives in udp_interest_in, which notes the client in the name table and
-- puts the buffer in a queue; nip_interest_out sends it into the NIP network. The data comes back
-- through nip_data_in, and udp_data_out sends it to every client that the table shows for the
-- name. The other four coroutines do the same for requests of the network, with no table. A client
-- is the application of a simulation: it sends each packet of the simulation as a datagram, and
-- makes a packet of each datagram, in ticks that follow the clock of the machine. Adaptor/Answer
-- follows a request through four coroutines, AppMixSim/Trip a packet from one simulation to
-- another; what the NIP network does between irecv and isend is a hypothesis there.
--
-- State is passed explicitly. A result `none` (Run.fault for the queue) is an access that C leaves
-- undefined: outside an object, to freed memory, or through NULL; in the applications also an
-- exception of ndn-cxx or exit. An array of a struct is a function of the index, read under a bound
-- test; a malloc'ed array is a list; the unsigned fields keep their wrap-around. What malloc,
-- calloc, the sockets and the clocks return is an argument, and so is an array that is not
-- initialised. The names of ndn-cxx and the decoders of TLV are parameters.
--
-- The queue runs on one thread, as in the adaptor, whose coroutines switch only inside of calls of
-- the dyco library; LfqThreads has threads, of which one at a time may be in lfq_dequeue, as in a
-- queue that lfq_init makes for one consumer, with memory that is sequentially consistent. The
-- adaptor is stated over the record Fifo of a queue, which Lfq/Provides fills. A loop of the queue
-- runs on fuel: one round is enough for lfq_dequeue, 151 for a free_pool that is bounded by
-- MAXFREE, and for lfq_clean one more than the queue has nodes. The loop of get_pkt_name has enough
-- fuel with one round more than the packet has bytes. Ten rounds print an unsigned int.
--
-- Not modelled: several threads in lfq_dequeue at once; the waits and stacks of dyco, printf and
-- the log; the encap functions of adaptor/nip_pkt_tools.c and the wrappers in isockethdr.h, which
-- only call the library or the system; StopApplication of the applications, and the links and nodes of
-- ndnSIM/examples/ndn-simple.cpp, which are calls of ns-3; the macros of adaptor/cross-platform.h,
-- whose effects the queue's model has.
pub mod Prelude
pub mod CText
pub mod NutEntry
pub mod Nut
pub mod LfqMem
pub mod LfqPool
pub mod Lfq
pub mod LfqThreads
pub mod Fifo
pub mod Buffer
pub mod World
pub mod UdpAdaptor
pub mod NipAdaptor
pub mod Adaptor
pub mod Ndn
pub mod AppMixSim
pub mod ProducerVirtual
pub mod Server
pub mod Sockets
pub mod PktTools
