-- ===== src/Lib.antt =====
-- tproxy2ss2022 is a transparent proxy that sends TCP and UDP connections through Shadowsocks
-- 2022 servers. This library models its fake DNS pool, its memory pool, its bounded session tables,
-- its server selector, its TCP and UDP proxies and its command line. Paths of the sources are
-- from the repository's root.
--
-- How the parts work together. The fake DNS thread answers queries (`fakedns_process_query` in
-- src/fakedns.c): an A query for a domain takes an address of the configured network from the
-- pool (`fakedns_lookup_domain`). When a client connects to such an address, a worker turns it
-- back into the domain (`fakedns_reverse_lookup`), through a cache of its own. UDP sessions live
-- in tables over uthash, bounded by src/lrucache.h, with nodes from the pools of src/mempool.c;
-- a timer in src/udp_proxy.c sweeps the idle ones. The server that a connection uses is the best
-- index that src/server_selector.c keeps from the samples of its probes and from the workers'
-- reports. A TCP session of src/tcp_proxy.c waits for the client's first bytes, connects to that
-- server and sends a request header with them, and turns to the next best server when that fails;
-- then its relay carries bytes in both directions through the Shadowsocks client.
--
-- Base: names, lists and tests on native numbers, masks, 32-bit words, bytes of text, and
-- `strtol` and `strtoul`.
--
-- FakeDns, for src/fakedns.c: Defs holds the globals as a record, a slot of the array being an
-- optional entry; Lookup the probe loop and the branches of `fakedns_lookup_domain`; Reverse the
-- cache and the two lookups from addresses; Init the set-up; Name and Ptr the forms of names;
-- Query the responses, byte by byte; File `fakedns_save` and `fakedns_load`. Valid is the
-- invariant of the pool. Probe, Outcome, Keeps, Stable, Mapping, Coherent, RoundTrip and Reload
-- hold proofs, and so do Query/Walk, Query/Bounds, Query/Echo, Query/Resolved and Query/State,
-- where a step relation has queries and reverse lookups in any order. Server, for
-- src/fakedns_server.c, is the loop over a batch of queries.
--
-- Mempool, for src/mempool.c: Defs has the pool, with addresses as numbers and the block headers
-- as a memory; Chain the invariant, where the free list is a segment of that memory. Free, Alloc,
-- Blocks, Grow, Outcome and Run are proofs, and Run has the relation of all sequences of
-- allocations and frees.
--
-- Lru, for src/lrucache.h, src/udp_lrucache.c and the sweeps of src/udp_proxy.c: Defs has the
-- macros over a record of the operations and laws of uthash, Tables the three tables and the
-- sweep; Victim, Bound and Sweep are proofs, and Listed is a table as a list, for concrete runs.
--
-- Selector, for src/server_selector.c: Score has the windows and the score, over a record of the
-- operations on doubles; Defs the selector of one protocol and its operations; Candidate, Best,
-- Stale and Reach are proofs.
--
-- Tcp, for src/tcp_proxy.c: Client has the Shadowsocks client as a record of functions and laws,
-- and the sizes of the buffers; Target has `tcp_proxy_resolve_target`. Tcp/Relay: Defs has the
-- relay's state, `tcp_relay_drain` and the loop over the server's chunks, Event the handlers
-- from `tcp_relay_update_watchers` to `tcp_session_enter_relay`. Sound is the invariant, against
-- a description of the two streams; Rounds, Opened, Chunks, Loop, Drains, Writes, Reads, Inputs,
-- Run, Reached and Integrity are proofs, and Reached has the relation of all runs of a relay.
-- Tcp/Handshake: Dial has `tcp_connect` of src/netutils.c and `tcp_handshake_connect_server`,
-- Defs the request header and the retries, Begin the creation of a session and the wait for the
-- first payload; Servers, Valid, Tries, Choice, Retry, Begun and Run are proofs, with the
-- selector of Selector, and Run has the relation of all handshakes. What a system call answers
-- is an argument of the function that makes it, and a run leaves every answer free. The bytes on
-- the wire, and the lists of the servers that were chosen, were reported or got a whole request,
-- are recorded in fields that the code does not have and no function reads.
--
-- Udp, for src/udp_proxy.c: Endpoint has the keys of the tables; Ingress `udp_ingress_parse`,
-- with the fake DNS pool; Session the sessions of a table, `udp_session_get_or_create` and what
-- it calls, with the selector; Proxy `udp_proxy_handle_ingress` over both tables and the loop of
-- `udp_proxy_on_recvmsg`; Collect the sweeps with the sessions that they close; Replies
-- `udp_relay_on_server_reply` with `udp_tproxy_entry_get_or_create`; Flush
-- `udp_tproxy_flush_client_sends`, with a message as the number of its slot in the batch. The
-- blocks that are held are lists of addresses, in Held, and a free of a block that is not held
-- is `none`. A flush takes the answers of `sendmmsg` as a function of the place where a group
-- begins. Flush/Arrange, Flush/Gather, Flush/Groups, Replies/Owned, Replies/Balance, Replies/Safe,
-- Session/Linked, Session/Freed, Session/Made, Session/Given, Proxy/Keeps and Collect/Linked are
-- proofs. Listed is a table as a list, for the runs of the tests.
--
-- Options, for the command line of src/main.c with the globals of src/ctx.c: Numbers has the
-- validators and the helpers of src/netutils.c that they call, Server `parse_server_group_arg`,
-- Parse the options and `parse_command_args` on the options that `getopt_long` finds. Grammar is
-- the documented form of a server group as a relation; Accepted, Usable, Sound and Complete are
-- proofs.
--
-- The modules Tests apply the theorems at concrete inputs.
--
-- Bounds and fuel. A `uint32_t` is a number below 2^32 with its wrap-around written out;
-- `size_t` has 64 bits, and the stride of a memory pool wraps as it does in the code, while
-- addresses and block counts, which memory and the limit bound, are plain numbers; memory is little-endian, which fixes `htonl` and the bytes of a stored
-- word. The probe loop runs on `g_max_probes` as the code's does. The walk through QNAME has 128
-- rounds: a round that goes on adds a byte to a name of at most 243 and a dot between labels, so
-- no more can happen. `fakedns_encode_dns_name` runs on the length of its input, of which each
-- round takes a byte or more. The loop over candidates runs on the number of servers. The loop
-- over the server's chunks runs on the length of the input and one more, since a round that goes
-- on takes a byte off the input or ends the loop by its output. The loops of the handshake run
-- on the list of the answers that their rounds find, one for each server being enough. The loop
-- over the groups of a flush runs on the number of messages, of which each round sends one or
-- more. `recv` never answers EINTR, behind which the code calls it again.
--
-- Parameters: the Shadowsocks client, what sockets answer and bring, the hash of xxHash, the clock,
-- `inet_pton`, the options that `getopt_long` finds, the keys that the client accepts, the
-- success and the addresses of allocations, the success of file operations, the table of uthash,
-- timestamps and doubles.
--
-- Not modelled: locks and memory order (every operation is one step; in src/fakedns.c one thread
-- writes), log lines, the counters of the build option FAKEDNS_MRU_STATS, the payload of blocks,
-- the accept loop and the list of sessions of src/tcp_proxy.c, the bytes of datagrams, the
-- contexts of servers, the set-up and the timer of src/udp_proxy.c, the rest of src/netutils.c,
-- the signals, sockets and threads of src/main.c, and the probes of src/server_selector.c: what
-- they do is mostly calls of the system and of libev. The libraries under deps and the Shadowsocks
-- client are not modelled.
pub mod Base
pub mod FakeDns
pub mod Mempool
pub mod Lru
pub mod Selector
pub mod Tcp
pub mod Udp
pub mod Options
