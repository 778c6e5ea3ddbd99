-- ===== src/Lib.antt =====
-- A verification library for PSImple, the multi-party private set intersection in simple/.
--
-- The program. Each party hashes its items into a Bloom filter and takes part in an exchange (an
-- approximate OT) with each other party; P0 ends with a garbled Bloom filter in which the cells of an
-- item add up to zero if every party has the item, and prints such items. simple/frontend/main.cpp
-- runs the steps: the agreement on a seed (2), the OTs and their check (3, 4), the secret sharing (5),
-- the Bloom filter (6), the receiver's function and the exclusive ors (7, 10), the codewords and the
-- fresh filter (8, 9), the sum at P0 (11) and the output (12).
--
-- The files and the code that they are about:
--   Base       arrays, loops, rearrangements and ascending sets, with Option for faults
--   Block      the block of cryptoTools, a parameter with the laws of exclusive or
--   Random     crypto of ENCRYPTO_utils, a parameter: bytes from a state
--   Bitstring  simple/src/Bitstring.cpp: set_bit, get_bit and the constructors
--   Bloom      bf_thread, create_BF_threads, get_seeds in simple/src/Functions.cpp
--   SubGroup   get_sub_group
--   Choose     compute_R_r (compute_big_r here), compute_r, if_disjoint_sets
--   Arrange    shuffling, get_zeros_ones, arrange_the_indexes
--   Gbf        the class synchGBF of simple/src/Functions.h
--   Codeword   get_Y, check_the_item, get_intersection, re_randomization and its variant
--   Collect    comulative_gbf_pi, get_gbf, compute_gbf
--   Transfer   the write and read loops of simple/src/Party.cpp
--   Segments   the queues of segments and run_xoring
--   Semaphore  the class semaphore, and a queue with its producers and its worker, as a step relation
--   Exchange   set_ports, the addresses of the OTs, the choice of a socket in simple/src/Pi.cpp, the
--              seeds agreement, also over the sockets (Exchange/Messages), and the secret sharing
--   Approt     the two sides of an exchange, with the checks of simple/src/Party.cpp
--   Wire       the messages of an exchange as bytes, in simple/src/Party.cpp
--   Config     set_ips, read_protocol_parameters, get_values
--   Sockets    init_sender, init_receiver in simple/src/Party.cpp, over the system calls
--   Party      the attributes and constructors in simple/src/Party.cpp, P0.cpp and Pi.cpp
--   Setup      the order in which the parties open their sockets, as a step relation
--   Memory     what the operations of a Party allocate, use and delete
--   Ote        TwoChooseOne in simple/src/kos.cpp, over libOTe, a parameter
--   Start      the start of simple/frontend/main.cpp: parameters, seeds, creation of the parties
--   Protocol   simple/frontend/main.cpp after the offline OTs: a party's steps, composed, and
--              run_online_apport; Protocol/Offline is about the offline phase that comes before
--   Samples    four-bit blocks and a counting source; Tests, evaluations over them
--
-- How the code is read. An array is a list, and an access outside it, a remainder by 0 or a read of
-- a stream that has ended is none. A theorem that a call returns says Gives, which none does not
-- satisfy. exit(1) is a value. Integers are natural numbers: the sizes and indices are far below the
-- bounds of int, and places that the code lets reach -1 are kept plus 1 and checked. A 32-bit
-- conversion in get_sub_group and get_seeds is a remainder by 2 ^ 32. Loops recurse on their rounds;
-- the while loop of get_sub_group runs on fuel, one more than twice the number of ciphertexts, each
-- of which gives two candidates. The write and read loops run on as much fuel as they have bytes, which
-- is enough if each system call makes progress; their 64-bit arithmetic is written out.
--
-- Threads. Those of one step write different cells, or one mutex or queue orders them, so the model
-- runs them one after the other. The order of the jobs within a queue is arbitrary. Semaphore has the
-- interleavings of one queue: each operation under a mutex is a step, and a spurious wake-up is one that is
-- counted. The threads of TwoChooseOne write to one array element by element, in any order.
--
-- A session opens its sockets in Setup: a thread that blocks in accept or repeats connect makes a step
-- when the other side allows it. Memory has the interleavings of the receiving and the sending thread
-- of a party. The calls of connect are on fuel, one for each call.
--
-- How the parts fit. Start reads the parameters and makes the parties of Party over Sockets; Ote gives
-- two of them the strings of their OTs, in the form IsOt that Approt and Protocol/Offline start from,
-- and opens the sockets of the offline phase between P0 and a party;
-- Protocol composes what follows.
--
-- Not modelled: the OTs themselves (libOTe, the parameter LibOte), logs, times and the latency
-- measurements of simple/src/util.cpp, a copy from libOTe, the memory of threads and queues, the unused class Lock,
-- and the first argument of main, which is a parameter here.
pub mod Base
pub mod Block
pub mod Random
pub mod Bitstring
pub mod Bloom
pub mod SubGroup
pub mod Choose
pub mod Arrange
pub mod Gbf
pub mod Codeword
pub mod Collect
pub mod Protocol
pub mod Transfer
pub mod Segments
pub mod Sockets
pub mod Party
pub mod Memory
pub mod Ote
pub mod Start
pub mod Setup
pub mod Semaphore
pub mod Wire
pub mod Config
pub mod Exchange
pub mod Approt
pub mod Samples
pub mod Tests
