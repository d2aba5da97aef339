-- ===== src/Lib.antt =====
-- os-workshop is an operating system workshop for RISC-V: a small IPv6 stack (net/), a network
-- bootloader (boot/, with its host side in tools/), a graphics library (libgfx/), a kernel (xos/)
-- and examples. This library models the parts of the program's own C code below and proves what
-- they do. Paths are from the root of the repository.
--
-- Base          bytes, words and memories. A memory is a function from addresses to bytes, a
--               structure a place in it; words wrap around at 2 ^ 32 and 2 ^ 16.
-- Net           net/ipv6.c and net/inc/net/ipv6.h. Net.Wire has the structures, the addresses and
--               net_init; Net.Checksum checksum and checksum_ip6; Net.Rx the receive path from
--               net_rx_eth to the callback pkt_rx_udp; Net.Tx net_tx_ip6_reply and
--               net_tx_udp_reply. What the stack uses of the program around it (the receive
--               memory, the console, eth_tx) is the record Net.Host.Host, a parameter of all of
--               them. A packet is built by the writes of the source, in their order, into a buffer
--               whose old contents are a part of the state; Net.Layout says what frame results.
-- Boot          boot/netboot.c and tools/netboot.h. Boot.Board has the state of the bootloader and
--               the Ethernet driver (eth_tx, eth_init), and fills Net.Host.Host; Boot.Netboot the
--               message handler pkt_rx_udp, eth_rx, eth_handle_rx and the loop of netboot.
--               Boot.LineEditor has console_char of boot/boot.c; Boot.Number, Boot.Console
--               and Boot.Dump have boot/console.c: the numbers, the command line, and the
--               commands dw and db. console_char and console_line meet in Boot.Console.Typed.
-- Xos           xos/src/vmm.c with the constants of xos/src/kernel.h: Xos.Vmm has the page allocator,
--               vm_map_4k and vm_map_4m on a memory of words; Xos.Vmm.Sv32 the translation of the
--               architecture manual, which the theorems are about. A panic is `none`. Xos.Kernel has
--               the mappings of xos/src/kernel.c up to the entry of user mode; Xos.Kernel.Tables
--               says which image and how much memory they need, Xos.Kernel.Isolation what the
--               program can reach. Xos.Trap has the trap entry and the system calls of
--               xos/src/entry.S as lists of instructions.
-- Gfx           libgfx/: Gfx.Surface has gfx.c, Gfx.Text the cursor of txt.c. A surface is a memory of
--               16-bit cells; the font is a parameter.
-- Tools         send_msg and send_file of tools/netboot.c: Tools.Sender, with what is behind the
--               socket as a parameter and the outcomes of the reads given; Tools.Upload an attempt
--               of its main to send all images. Tools.Link puts the bootloader of boot/netboot.c
--               behind the socket: UDP payloads in one direction, and what its driver transmits in
--               the other. A message and its answer may be lost, and an answer may be late; a
--               message does not arrive twice or late. Tools.Options has the arguments of main,
--               Tools.Search open_node, with the
--               address that each datagram comes from (a name of more than 1024 bytes overflows
--               its buffer, and is left out), and Tools.Main main with its endless loop, for the turns
--               that are given.
-- Threads       example/ex10-threads-cooperative.c and example/ex11-threads-preemptive.c:
--               Threads.Machine has the structures and the list, with context_switch of
--               hw/src/context-switch.S, Threads.Coop the calls of ex10, and Threads.Preempt those
--               of ex11 as lists of statements, between any two of which the timer interrupt may
--               arrive. A typed memory holds the threads, and in ex11 another the trap frames;
--               what is written to a stack, by alloc_stack and for the first trap frame, goes over
--               the words of the threads that stand there. Threads.Queue says what queue they
--               make, with their addresses 80 bytes apart, so that no two overlap, and
--               Threads.Stacks that they lie below the stacks. What a running thread, or a trap
--               for it, pushes onto its own stack is not modelled.
-- Example20     example/ex20-mmu.c: the page table of start in Example20.Identity, and dump_mmu
--               beside the translation of Sv32 in Example20.Dumped.
-- Example25     example/ex25-kernel.c, an earlier form of the kernel, and its tables beside those of
--               xos/src/kernel.c in Example25.SameTables.
-- DeviceTree    misc/devicetree.c: fdt_walk; DeviceTree.Format is the flattened format it
--               reads. The loop runs on fuel, one for each token. A string is looked for up to
--               the end of the address space.
-- Tests         all of them at concrete inputs.
--
-- How a call can end is the type Net.Host.Flow: it returns, it waits for ever (the driver polls
-- RD_READY without a bound), or it leaves the program for a loaded one. Register writes, console
-- output and the start of a program are events in the state; the values that registers will read
-- are given in the state, so the polling loops recurse on a list of them. netboot never ends, and
-- poll_loop is its first rounds, for any number of them. The loop of checksum that folds the
-- carries runs on fuel 3; fold-le shows that it has ended by its own test.
--
-- Reading a received packet is separate from the memory that a WRITE message stores to: the model
-- does not cover a WRITE message that overwrites the bootloader itself or its buffers.
--
-- Not modelled: gfx_printf and txt_printf, hexdump, get_time_ms and open_udp6_socket of
-- tools/netboot.c, the set-up of the machine in start, exception handlers, the assembly but for
-- context_switch and the trap entries of ex11 and xos, the C library in libc/ and the code in
-- external/, both by other authors. memcpy, memcmp, strlen, strchr, strtoul and snprintf have their
-- standard meaning.
pub mod Base
pub mod Net
pub mod Boot
pub mod Xos
pub mod Gfx
pub mod Tools
pub mod Threads
pub mod Example20
pub mod Example25
pub mod DeviceTree
mod Tests
