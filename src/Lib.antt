-- ===== src/Lib.antt =====
-- nfsdump records NFS traffic: it captures packets, takes their headers apart, matches replies
-- with calls, and prints one line for each message. This development models the parts of nfsdump2
-- that follow: the two hash tables that carry state from packet to packet, the parsers of headers,
-- the packet decoder with its reassembly of TCP messages, the printers of the payloads of versions
-- 2 and 3, the reports of the counters, the command line and the set-up, the capture loop with its
-- log files, and the decoder of the second program, which traces headers.
--
-- The parts and their files:
-- nfsdump2/nfsrecord.c, the table of outstanding calls: `hashInsertXid` when a call is seen,
-- `hashLookupXid` when a reply is. nfsdump2/tcp_reassembly.c, the table of messages that wait for
-- their next segment: `tcpInsert` and `tcpLookup`. The two are one algorithm, so that Table.antt
-- models it once, over the interface `Keying`; XidTable.antt and TcpTable.antt give the entries, the
-- keys and the hash macros. `Table` holds the buckets, the count, and the static `CullIndex`.
-- `insert` is the whole insertion, its push, the culling loop with its calls of `lookup`, and the
-- step of the index; `none` is a failed assertion. Table/Chain.antt has the search loop,
-- Table/View.antt the abstract view, a stack of entries for each key, Table/Keep.antt and
-- Table/Cull.antt the well-formedness and the loop, Table/Find.antt what a later lookup finds, and
-- Table/Refines.antt any run of the table beside the same run of its stacks.
--
-- nfsdump2/nfsrecord.c, the headers of a packet: Frame.antt models `getEtherHeader`, `getIpHeader`,
-- `getTcpHeader` and `getUdpHeader`, over the bytes of a header, and Rpc.antt `getRpcHeader` and
-- `get_auth`, over the words of a message, in the layout of `rpc_msg`.
--
-- nfsdump2/nfsrecord.c, the decoder: `processPacket` is `process_packet` of Packet/Loop.antt, a
-- function of the captured bytes, their number, and the `World` of Packet/Record.antt, which holds
-- the two tables and the counters. Packet.antt has its part before the loop,
-- Packet/Reassembly.antt the TCP part of the loop (`feed`), which looks a segment up in the table
-- of unfinished messages and inserts it there, and Packet/Message.antt the rest, which inserts
-- calls, looks their replies up, and prints records by `printRecord` of Packet/Record.antt. A
-- result of `processPacket`, the death of the process, and the end of the fuel are values of
-- `Ran`. Their lemmas are in the modules below them: Reassembly/Fits.antt for the table,
-- Reassembly/Holds.antt, Reassembly/Whole.antt and Reassembly/Many.antt for the bytes,
-- Message/Runs.antt for a message, Message/Faults.antt for when one has no fault,
-- Message/Matches.antt for a call and its reply, Loop/Ends.antt for the whole, Loop/Udp.antt and
-- Loop/Pair.antt for a call and its reply as packets, and Loop/Segments.antt and Loop/Stream.antt
-- for two segments and for any number of them as packets.
--
-- nfsdump2/nfs_v3.c, the printers. Print.antt has what they share: a pointer into the payload, or
-- NULL, the text written, and how far it is read. Text.antt models `print_string` and
-- `print_path_segment`, Nfs3/Wire.antt the scalars, handles and names, Nfs3/Attr.antt the
-- attributes, Nfs3/Args.antt the decoded arguments, Nfs3/Call.antt `nfs_v3_print_call` and
-- Nfs3/Resp.antt `nfs_v3_print_resp`. nfsdump2/nfs_v2.c is modelled by Nfs2.antt, the
-- printers, Nfs2/Call.antt, `nfs_v2_print_call`, and Nfs2/Resp.antt, `nfs_v2_print_resp`; it calls
-- `print_uint32` and `print_fn3` of nfs_v3.c. A message printer is given the operation and the
-- transaction that the packet decoder found, prints, and updates the counters of
-- nfsdump2/nfsrecord.h, which Stats.antt models. A definition has the name of its C function, in
-- snake case, except where its comment says which piece of a function it is. How far a whole message
-- reads is in Nfs2/Reads.antt and Nfs3/Resp/Reads.antt, by the lemmas of Print/Near.antt on printers
-- in sequence; Nfs2/Returns.antt and Nfs3/Resp/Returns.antt are on reads through NULL, and
-- Nfs3/Call/Sums.antt and Nfs3/Resp/Sums.antt on the counters.
--
-- The reports of the counters, `nfs_v3_stat_print`, `nfs_v2_stat_print` and `compute_pct`, are in
-- Stats/Report.antt.
--
-- nfsdump2/nfsdump.c and nfsdump2/iphdump.c, the capture: Capture.antt models `updateOutFile` and
-- `printSummary`, and Capture/Loop.antt the loop of `main` that polls libpcap (`capture`). The
-- `State` is `Interval`, `OutFile` and the world of the decoder; a `Tick` is what the clocks and
-- `pcap_loop` give to a round, and an `Effect` is what leaves the program. The two files are the
-- same but for the printer of packets, which is linked in, and for `printSummary`, so that the loop
-- runs any `Program`, a record of these two: that of nfsdump.c is `nfsdump_program`, whose printer
-- is `packetPrinter` over `process_packet`, or `pcap_dump` with -w; that of iphdump.c is
-- `header_program` of Capture/Headers.antt, over the decoder of nfsdump2/iprecord.c. Lines that
-- both files have are given by those of nfsdump.c. Capture/Keeps.antt has the invariants of the loop in
-- general; Capture/Counts.antt the number of logs, over the interface `KeepsLogs` that
-- Capture/Logs.antt fills; Capture/Text.antt and Capture/Whole.antt the text and the decoder's
-- state, over `KeepsText`, which Capture/Shows.antt fills; and Capture/Headers/Bare.antt the logs
-- of iphdump.c. Capture/Main.antt is `main` from the capture on, with the last summary; it gives the
-- answer of `pcap_stats` there too, on a handle that is closed.
--
-- Before the capture: CommandLine.antt is the loop of `main` over its options (`parse`), on the
-- variables that they set (`Settings`); SetUp.antt the way from there to the loop (`set_up`), with
-- `lookup_printer` and `cleanup`, and SetUp/Start.antt the whole of `main`, for any command line in
-- SetUp/Start/Whole.antt and for -r in SetUp/Start/Prints.antt. What exits with a
-- message is a value of `Outcome`. Support.antt has the routines of nfsdump2/util.c that `main`
-- calls.
--
-- nfsdump2/iprecord.c, a second decoder, which prints headers only: IpTrace.antt, and
-- IpTrace/Agrees.antt to compare it with the first.
--
-- Bounds: the `u_int32_t` arithmetic of the sources wraps at 2 ^ 32, as do the counters, since the
-- program is built with -m32. A pointer into a payload is an index, and where a length of the payload
-- has moved it, it is compared by its address, which wraps. The signed `60 * atoi (optarg)` of the option -I is taken to wrap too.
-- The loop of `processPacket` has fuel, two more than the bytes of the packet: a round that goes
-- on moves `consumed` on by a byte at least, or to the end. The other loops run over a chain or
-- over a given number of words or bytes.
--
-- Parameters: SHA-1 of libgcrypt, whether RAWNAMES is set, and where payloads stand in memory
-- (`Host`); the XDR decoders that
-- rpcgen makes from nfsdump2/nfs_prot.x and nfsdump2/mount_prot.x (`Decoders` of responses,
-- `ArgDecoders` of calls), and the option `omitReaddirContents`; the option `vflag`; the contents
-- of memory past the captured words and of what `malloc` gives; and the variables `count` and
-- `print_it` where they are read but never assigned (`Outside`); the answers of `rename`, `fopen`,
-- `localtime_r` and `pcap_stats` (`System`), the clocks and the packets (`Tick`). Nothing is
-- assumed of them, but that a captured packet has less than 1 GB, and that a payload ends below the
-- address 2 ^ 32, where a theorem says so.
--
-- Of the command line, what `getopt` gives, with the time at which it does (`Given`), and what
-- `atoi`, `atol` and `strtol` read (`Libc`); of the set-up, the answers of libpcap (`Pcap`) and
-- what files hold (`Files`); and the texts of the program's name and versions.
--
-- Not modelled: of `main` the user ids, the handlers' registration, the test of alignment, and the
-- time zone, which nothing reads; of nfsdump2/util.c what the programs do not call; and the headers ip.h, tcp.h and
-- others, and nfsdump2/missing, which are taken from elsewhere. `malloc` does not fail, except where
-- `copy_argv` tests it, and memory that is freed is no longer looked at. A read past the payload or
-- the packet gives what memory is taken to hold there and does not end the process, however far it
-- goes: how far the printers and the RPC header are read is part of their results, and the theorems
-- that a message returns bound it. The XDR decoders are functions, and what they write past the
-- buffers for names is left out. What `get_auth` prints by `printf` for credentials that are not of
-- UNIX is taken with the text for `OutFile`, so that it is in the log where the program shows it on the
-- standard output.
pub mod Prelude
pub mod CommandLine
pub mod Support
pub mod SetUp
pub mod Table
pub mod XidTable
pub mod TcpTable
pub mod Print
pub mod Text
pub mod Nfs3
pub mod Nfs2
pub mod Stats
pub mod Rpc
pub mod Frame
pub mod Packet
mod Tests
pub mod Capture
pub mod IpTrace
