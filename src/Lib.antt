-- ===== src/Lib.antt =====
-- Linux for the HP Jornada 820: a model of the drivers that carry the port's own logic.
--
-- The port is a set of files over two Linux kernels, linux/kernel (2.4) and linux/kernel26 (2.6),
-- with boot loaders for Windows CE. Thirteen parts are modelled, each from one file or two:
--
-- PciPool is linux/kernel/arch/arm/mach-sa1100/pcipool.c, the pool of small blocks of DMA memory
-- that USB's host side draws from. `Pool` and `Page` are its structures, and PciPool/Defs has one
-- function for each of its functions: `pci_pool_create`, `pci_pool_destroy`, `pci_pool_alloc`,
-- `pci_pool_free`. The scan for a free block is `scan_words` and `scan_pages`. A call that sleeps
-- and starts again is a recursion over a list of rounds; what other callers do in between is an
-- argument of each round. Bitmap, Pages, Alloc, Outcomes, Valid and Size have the proofs.
--
-- Usb is linux/kernel/arch/arm/mach-sa1100/usb_ctl.c, the core of the USB device controller.
-- Machine has the table of the state machine and `usbctl_next_state_on_event`, Interrupt has
-- `udc_int_hndlr` as a function to a list of actions on the hardware and the endpoints, Client has
-- the interface of the function drivers and the initialisation. Trace and Service have the proofs.
-- The retry loops of the interrupt handler stop after 50 writes, as in the source, and this bound
-- is their fuel.
--
-- Psmouse is linux/kernel26/drivers/input/mouse/psmouse-base.c, the PS/2 mouse driver with the
-- change for the Jornada's trackpad. Packet decodes a packet, Stream is the interrupt with its
-- states, Command and Extensions are the commands and the detection, Settings the rate and the
-- resolution, Life the connecting and disconnecting of a port, each as steps on it. The handler of
-- the bytes is a property of the mouse, which the drivers of the extensions may replace. Decode,
-- Invariant, Probe, Connect and Buffer have the proofs. `ps2_command` is a parameter that takes a
-- device and gives back the answer with the device after it.
--
-- Pcmcia is linux/kernel26/drivers/pcmcia/soc_common.c, the socket driver. Socket has the status,
-- the configuration and the windows, Irqs the card interrupts, Probe the start and the removal with
-- the labels of the error path as data. Status, Speed and Unwind have the proofs.
--
-- Keyb is linux/kernel/drivers/char/j820_keyb.c, the keyboard and the PS/2 port. Keymap is the key
-- map, Aux the queue between the interrupt and the readers of /dev/psaux, Sharing its openers and
-- the writes to the mouse, Writing the loop of a write and the detection of the port, Start the
-- start of the mouse driver. Ring, Fifo, Reader and Keys have the proofs. The size of the queue,
-- which the kernel defines, is `2 ^ k` for a parameter `k`. The bytes of the port are a list; the
-- limit of 10,000 bytes of one interrupt is the source's.
--
-- Ps2 is linux/kernel26/drivers/input/serio/sa1101ps2.c, the PS/2 port of the SA-1101 under the
-- input layer. Defs has its functions, Queue the bytes that it sends, as a refinement of a short
-- queue, and Life the opening, the closing and the flush, whose limit of 100 reads is the source's.
--
-- Ucb is linux/kernel26/drivers/misc/ucb1x00-core.c, the core driver of the codec. Defs has the
-- functions of a running chip; what they do to it is a list of accesses, which Shadow replays into
-- registers and the count of users of the clock. Irqs has the table of handlers, Start the waits
-- for a conversion and the probe. A wait is a recursion over what the data register shows.
--
-- Fb is linux/kernel26/drivers/video/sa1100fb.c, the frame buffer; its structures are those of the
-- header of the 2.4 driver, linux/kernel/drivers/video/sa1100fb.h. Defs has the states of the
-- controller, with `set_ctrlr_state` and the task that serves the requests, Mode the modes, the
-- colours, blanking and the probe. Control, Modes, Colour and Blank have the proofs. The semaphore
-- makes each change of the state one step; the macros that place a value in a register are
-- parameters.
--
-- Sa1101 is linux/kernel26/arch/arm/common/sa1101.c, the companion chip. Defs has the chained
-- interrupt handler, the two interrupt chips and the children of the bus. Dispatch has the proofs
-- on the handler: its loop is a recursion over what the status registers show, and a scan of one
-- word has 32 steps as its fuel, which is the width of the word. Chips has the proofs on the chips.
--
-- Clock is linux/kernel26/arch/arm/mach-sa1100/cpu-sa1100.c with the frequencies of generic.c
-- beside it. Defs gives a change of the clock as the list of its actions, none for a panic; Safety
-- and Table have the proofs. Screen composes it with Fb, whose functions take the notifications of
-- the change.
--
-- Script is haret-j820gnu/src/script.cpp, the script language of the boot loader HaRET, with the
-- variables of include/script.h beside it. Text has the characters, the tokens and the keywords,
-- for the Windows CE before version 3, where the file brings its own character classes and numbers;
-- Number is its `strtoul`, for a token that begins with a digit; Vars has the variables and the bit
-- sets; Expression is `get_expression` with `GetVar` and `get_args`; its outcome `wild` is the
-- complaint about a malformed number, which takes a character for the address of a text. A text is
-- a list of bytes, and every routine gives back the text that is left, with the token in the
-- storage of `get_token`. `get_expression` recurses on fuel, `2 * length + 2` for the length of the
-- text: each turn of its loop takes a byte, and each operand at least one, as Total shows. Chain
-- has a theorem on its priorities, Keywords one on `IsToken`. The variables are fixed during an
-- evaluation. SET, which evaluates into a variable that the expression may read, is not modelled.
--
-- Ohci is linux/kernel/drivers/usb/host/usb-ohci.c with usb-ohci.h beside it, the USB host
-- controller. Submit is `sohci_submit_urb` as steps on what it holds, with every error, Transfer
-- the count of a request's transfer descriptors (TDs) and how `td_submit_urb` fills them, Lists the
-- lists of control and bulk endpoints, whose code is the same over other registers, Schedule the
-- balance of the interrupt branches, Branches the loops over one branch, which enter an endpoint
-- and take it out, Done the done list, Length the length that is reported, Endpoints `ep_add_ed`,
-- Deletion one turn of `dl_del_list`. An address is a number, 0 the null pointer. Whether a TD can
-- be had is an argument; the code draws TDs from the pools of PciPool. The loop over a bulk request
-- recurses on its length, those over the done list, over the queue of an endpoint and over a branch
-- on fuel above the number of the elements. The number of the TDs of a request, 16 bits in the
-- source, is not bounded here: it is below `2 ^ 16` for a request under 256 MB. The toggle that a
-- submission sets, the start of a list and the delays are left out. Submitted, Counts, Pieces,
-- Transferred, Loads, Order, Removal, Fifo, Cleared, Entering and Leaving have the proofs.
--
-- Apm is linux/kernel/arch/arm/mach-sa1100/apm.c, the emulation of the APM device. Defs has its
-- users with their queues and the calls of the device, Events the calls one after another with the
-- proof. The kernel's numbers of the events are parameters, and what others do to a user while its
-- reader sleeps is an argument.
--
-- The other parts do not call each other; Keyb and Ps2 share the ring of Common/Ring, and all share
-- the helpers of Common: Boolean tests, lists by index, bits of words, and integers. Numbers are
-- natural numbers; a word's wrap-around is written as a remainder, `u8`, `u16` and `u32`. A
-- function that changes state takes the old state and gives the new one, as one step; where the
-- code sleeps, what others do meanwhile is an argument. Errors are values.
--
-- Calls of the kernel outside the repository are arguments: what they answer is given to the model,
-- and of what they do to the kernel's own state only what a driver takes and gives back is
-- modelled. Each component's Tests module runs its theorems on concrete data.
--
-- Not modelled: register access, the timing of delays, text output and /proc; the attributes of a
-- mouse and the descriptors of USB; sound, flash and serial drivers, the older frame buffers; the
-- strides over the branches of the tree of interrupt endpoints, which share their ends, the call
-- that asks for the removal of a request and the root hub of the host controller; the boot loader
-- of j820boot, and what HaRET does with memory, registers and windows; assembly, configuration, and
-- the copies of kernel files that the port changes in a few lines only.
pub mod Common
pub mod PciPool
pub mod Usb
pub mod Psmouse
pub mod Pcmcia
pub mod Keyb
pub mod Ps2
pub mod Ucb
pub mod Fb
pub mod Sa1101
pub mod Clock
pub mod Script
pub mod Ohci
pub mod Apm
