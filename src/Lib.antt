-- ===== src/Lib.antt =====
-- libpcap 1.5.3, in the copy that carries the GAP16G capture driver (libpcap-1.5.3/).
--
-- The library captures packets, filters them by a program of the BPF machine, and keeps them in
-- savefiles. A filter expression is compiled to blocks (gencode.c), the optimizer rewrites the
-- statements of a block (optimize.c), and the instructions made of them are checked by
-- `bpf_validate` and run on each packet by `bpf_filter` (bpf/net/bpf_filter.c). A savefile is
-- written by the `pcap_dump` functions and read by `pcap_check_header` and `pcap_next_packet`
-- (sf-pcap.c), or, in the pcap-ng format, by the functions of sf-pcap-ng.c;
-- pcap-common.c maps the link-layer types of the two sides to each other.
--
-- Where to find what (paths under libpcap-1.5.3/):
--   Base: lists as arrays, Boolean tests on numbers, bounds of the bit operations.
--   Bpf/Insn: pcap/bpf.h, `struct bpf_insn` and the fields of an opcode; the operations are the
--     case labels of `bpf_filter`.
--   Bpf/Packet, Bpf/Filter, Bpf/Validate: bpf/net/bpf_filter.c, the loads with EXTRACT_LONG and
--     EXTRACT_SHORT, `bpf_filter`, `bpf_validate`. A machine has the index of the next instruction,
--     A, X and the 16 scratch words; a step gives a machine, a returned value, the call of abort(),
--     or a fault, which is what C leaves undefined.
--   Bpf/Safety: runs of programs that `bpf_validate` accepts. Bpf/Install: optimize.c,
--     `install_bpf_program`.
--   Optimize/Values, Optimize/Stmt: optimize.c, the value numbers (`F`, `K`, `init_val`), and
--     `vstore`, `fold_op` and `opt_stmt`.
--   Optimize/Meaning, Optimize/Intern, Optimize/Correct: the numbers of the optimizer beside the
--     machine of Bpf/Filter, on which a statement is performed by the same `dispatch`.
--   Optimize/Block: optimize.c, `atomuse`, `atomdef`, `deadstmt`, `opt_deadstores`, and the loop of
--     `opt_blk` that calls `opt_stmt`; its children set the statements of a block beside the machine.
--   Gencode: gencode.c, the blocks with their targets and lists of unresolved exits, `new_block`,
--     `backpatch`, `merge`, `gen_and`, `gen_or`, `gen_not`, `gen_retblk`, and the end of `finish_parse`.
--   Gencode/Chains, Gencode/Joined, Gencode/And, Gencode/Or: what they do to each block.
--     Gencode/Walk: a part of a filter while it is built; Gencode/Exits, Gencode/Fields, Gencode/Join,
--     Gencode/Append, Gencode/Relink, Gencode/Parts: two parts that are joined; Gencode/Keep,
--     Gencode/Single: a part that stays, a new one, and `gen_not`.
--   Gencode/Compile: grammar.y, the actions for `and`, `or`, `not` and for a whole program, with the
--     walk of a packet through the blocks.
--   Gencode/Registers: gencode.c, `init_regs`, `alloc_reg`, `free_reg`.
--   Handle/State: pcap.c, the settings of a handle and `pcap_activate`, with the operation of a
--     capture module as an argument. Handle/Types: `pcap_list_datalinks`, `pcap_set_datalink`,
--     `pcap_list_tstamp_types`. Handle/Calls: the handles that any calls lead to. Handle/Settled,
--     Handle/Datalink: what the calls keep, and which types can be set.
--   Handle/Text, Handle/Choices, Handle/Lookup: pcap.c, `pcap_strcasecmp`, the tables `dlt_choices`
--     and `tstamp_type_choices` with the values of Linux, and the searches in them. Handle/Case,
--     Handle/Back: these together.
--   Interfaces: inet.c, `add_or_find_if`, `add_addr_to_iflist`, `pcap_add_if`, `pcap_lookupdev`.
--     Interfaces/Order: the order of the list.
--   Names: nametoaddr.c, `__pcap_atoin` (here `pcap_atoin`) and `pcap_ether_aton`, on ASCII text.
--   Optimize/Unsound: statements whose effect the optimizer changes. Optimize/Start: `init_val`.
--   Savefile/Linktype, Savefile/Usb: pcap-common.c, `dlt_to_linktype` and `linktype_to_dlt`,
--     `swap_linux_usb_header`.
--   Savefile/Header, Savefile/Packet, Savefile/Dump: sf-pcap.c, `pcap_check_header`,
--     `pcap_next_packet`, and `sf_write_header`, `pcap_dump_open`, `pcap_dump_fopen`, `pcap_dump`;
--     the start of `pcap_fopen_offline_with_tstamp_precision` (savefile.c).
--   Savefile/Fits, Savefile/Reread, Savefile/Foreign, Savefile/Roundtrip, Savefile/Usb/Bounds: these
--     functions together.
--   Savefile/Offline: `pcap_offline_read` (savefile.c) and `pcap_loop` (pcap.c) on a savefile, over
--     `pcap_next_packet` and `bpf_filter`; the callback is an argument.
--   Savefile/Ng: sf-pcap-ng.c. Block: `read_bytes`, `read_block` and the cursor. Idb:
--     `process_idb_options`. Interface: `add_interface`, and the `pcap_t` that it leaves. Open:
--     `pcap_ng_check_header`. Next: `pcap_ng_next_packet`. Formats: the loop of
--     `pcap_fopen_offline_with_tstamp_precision` (savefile.c) over both formats. Answer: the
--     failures, each with the numbers in its message.
--   Savefile/Ng/Returns: the frame for what a call gives. Savefile/Ng/Known: the invariant of the
--     `pcap_t`. Kept, Added, Grown, Steps, Sound, Opened: the calls keep it. Scaling: time stamps.
--     Written, Reread, Sequence, Second, Failed: blocks as they stand in a file, and an interface
--     whose block makes a call fail.
--   The modules Tests run the definitions on concrete inputs.
--
-- Choices. The host is little-endian Linux with 64-bit `long` and `size_t` and 32-bit `int`. A signed
-- word is its bit pattern, and arithmetic is modulo 2 ^ 32, also where C leaves the overflow of a
-- signed sum open. The filter is compiled for user land. `mem[]` is not initialised by `bpf_filter`:
-- its contents are an argument. `bpf_filter` loops until a return: the model takes the number of
-- steps, and for a program without backward jumps its length is enough. A packet is the list of bytes
-- that are there, and a read outside it is a fault. A file is the list of bytes that are still to
-- be read; what stdio and the allocator answer is the argument `Env`. The static buffer
-- of `pcap_next_packet` is kept as its size. The hash table of the optimizer is 213 lists.
--
-- A pointer to a block of a filter is its number in the order of allocation. The loops over a list of
-- exits take fuel, and one unit for each block is enough. The loops of sf-pcap-ng.c over blocks and
-- options take as fuel the bytes that are left, and each turn consumes some. The tests of a filter
-- are numbered, and which of them hold for a packet is an argument.
--
-- Not modelled: the lexer and what the terms of the filter grammar stand for, which are the
-- protocol-specific generators of gencode.c; the loads of variable header lengths and the PPI test
-- that `finish_parse` puts in front for some link types; in optimize.c the rest of `opt_blk`
-- (merging values, `opt_peep`), the data flow, the jumps, and the conversion to instructions; the
-- loads of a kernel from mbufs; the `pcap_t` after a failed call of sf-pcap-ng.c, but for
-- `add_interface`; the rest of pcap.c and of nametoaddr.c, which calls the resolver; the fad files,
-- which enumerate interfaces; the capture modules of the platforms, the GAP16G library and driver,
-- Win32/ and msdos/, which are calls of operating-system and device interfaces;
-- missing/snprintf.c, a copy of another library.
pub mod Base
pub mod Bpf
pub mod Gencode
pub mod Handle
pub mod Interfaces
pub mod Names
pub mod Optimize
pub mod Savefile
