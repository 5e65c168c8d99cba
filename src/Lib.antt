-- ===== src/Lib.antt =====
-- A model of LWIS, the light-weight imaging subsystem: a Linux driver that lets user space run lists
-- of register accesses (transactions) on camera devices when events of those devices occur. Paths are
-- from the repository's root.
--
-- The parts and how they interact. A client of a device submits transactions (lwis_transaction.c).
-- A transaction waits for an event, or runs at once; the emission of an event (lwis_event.c) hands
-- those that are due to the client's process queues, or executes them on the spot. Executing one goes
-- through its I/O entries with the register operations of the device (lwis_util.c; for the top
-- device lwis_device_top.c), fills a response buffer, and leaves an event pending that carries it.
-- Clients enable events by flags; a device counts them and arms its timer or its interrupt lines
-- (lwis_interrupt.c) when the count leaves or reaches 0.
--
-- Files.
--   Prelude: tests on native numbers, lists, and C integers as bit patterns of 32 or 64 bits.
--   Kernel: errno values, and what the driver asks of the kernel. Allocations and the clock are
--     functions of the number of calls made so far; a `World` holds the registers, that number and
--     the time slept.
--   Io: lwis_commands.h (struct lwis_io_entry) and the operations of lwis_device.h. Io/Access:
--     lwis_util.c. Io/Poll: lwis_entry_read_assert and lwis_entry_poll of lwis_transaction.c.
--     Io/Scratch: lwis_top_register_io of lwis_device_top.c.
--   Event: the ids and flags of lwis_commands.h. Event/Queue: the pending queues of lwis_event.c.
--     Event/States: its two tables of event states.
--   Interrupt: the mask register and the enabled events of a line, of lwis_interrupt.c.
--     Interrupt/Events: lwis_interrupt_set_event_info. Interrupt/Handler: lwis_interrupt_event_isr.
--   Device: lwis_device_event_enable and lwis_device_event_flags_updated of lwis_event.c; Device/Flags is
--     about the counters and, in Device/Flags/Heartbeat, the timer.
--   Transaction: the state that a client keeps. Its children follow lwis_transaction.c: Process for
--     process_transaction and the queue loop, Response for prepare_response_locked, Trigger for
--     lwis_transaction_event_trigger, Submit for check, submit, cancel and replace, Cleanup for
--     lwis_transaction_client_cleanup. Valid states the invariant of that state.
--   Client: struct lwis_client. Client/Emit: lwis_device_event_emit_impl and
--     lwis_device_error_event_emit of lwis_event.c, and lwis_top_event_notify of lwis_device_top.c.
--     Client/Pending: lwis_device_event_emit, lwis_pending_events_emit and
--     lwis_device_external_event_emit of lwis_event.c. Client/Work: the tasklet and the work item of
--     lwis_transaction.c, process_transactions_in_queue.
--   I2c: lwis_i2c.c and the register operation of lwis_device_i2c.c, over the bytes of I2c/Bytes;
--     I2c/RoundTrip: a chip that keeps registers. Ioreg: the same for lwis_ioreg.c and
--     lwis_device_ioreg.c, with the loops over words in Ioreg/Words and the list of blocks in
--     Ioreg/Blocks.
--   Subscription: the subscriptions of lwis_device_top.c, with lwis_find_dev_by_id of lwis_device.c
--     and lwis_device_event_update_subscriber of lwis_event.c. Subscription/Control: the control of a
--     client's events by lwis_event.c, from lwis_client_event_control_set down.
--   Periodic: the periodic I/O of lwis_periodic_io.h. Its children follow lwis_periodic_io.c:
--     Periodic/Process for process_io_entries, Periodic/Timer for the timers, submission, the work
--     item, cancelling and flushing. Where another thread may cancel or flush while entries run, when
--     it does is an argument.
--   Supply: the lists of clocks (lwis_clock.c), of voltage regulators (lwis_regulator.c), of pins
--     (lwis_gpio.c) and of PHYs (lwis_phy.c), and the state of the pin control (lwis_pinctrl.c).
--   Power: powering a device up and down by lwis_device.c. Power/Up and Power/Down follow
--     lwis_dev_power_up_by_default and lwis_dev_power_down_by_default, Power/Sequence those by
--     sequences, Power/Locked lwis_dev_power_up_locked and lwis_dev_power_down_locked. Power/Balance
--     follows the lists of pins through a cycle.
--   Lifecycle: lwis_open and lwis_release of lwis_device.c, and enabling and disabling by lwis_ioctl.c,
--     over any functions that power the device. Lifecycle/Runs: what clients do to a device, one after
--     another. Lifecycle/Pins puts those of Power in their place.
--   Slc: the partitions of lwis_device_slc.c. Dpm: the requests of lwis_device_dpm.c.
--   Buffer: the two tables of a client in lwis_buffer.c, in Buffer/Enroll and Buffer/Alloc.
--   Ioctl: requests of lwis_ioctl.c, with the copies from and to the user as arguments. Ioctl/Buffers:
--     those about buffers. Ioctl/Entries: copying in the entries of transactions and periodic I/Os.
--     Ioctl/Registers: accesses that the client waits for. Ioctl/Events: the events that it enables and
--     takes, with lwis_poll of lwis_device.c. Ioctl/Requests: submitting and cancelling. Ioctl/Settings:
--     clocks, bandwidth, what a device is, and resetting it. Ioctl/Handler: the dispatch, over any
--     functions that answer the requests.
--   Tests: small concrete inputs, and the theorems applied to them.
-- A name of the source keeps its name here. A function of the source takes the parts of the state it
-- reads and returns those it changes, after its result; an error is the bit pattern of its negative
-- errno. A NULL pointer is `none`. A hash table is the list of its entries, newest first.
--
-- Bounds and fuel. The loop of lwis_entry_poll runs on fuel of its limit in milliseconds plus 2:
-- each round sleeps for at least one millisecond, so the time limit ends it before the fuel does;
-- running out of it would give 2 ^ 32, which is the bit pattern of no int. The loop of
-- lwis_pending_events_emit runs on fuel that is an argument, and has no result without it: nothing
-- in the code bounds its rounds. All other loops follow a list or a count. The numbers 2048
-- (pending events), 16 (scratch memory), 8 and 16 (histories of transactions and events) are those
-- of the source; sizes of structures are for 8-byte pointers.
--
-- Not modelled. Locks, interrupts between steps and the order of deferred work: a function is one
-- step. Freeing memory and log output. What the kernel provides is a parameter: i2c_transfer, the
-- accessors of memory mapped registers, mapping them, the buckets of a hash table, and what
-- uninitialised memory holds. Transactions run over any `register_io` and `register_io_barrier`, of
-- which a batch read is assumed, where said, to store no more bytes than asked for. Of the buffers, the
-- DMA mappings are the kernel's, and counted. Requesting interrupt lines, probing and removing devices
-- and registering the driver are left out, and so are device tree parsing, debugfs and the platforms,
-- which are calls of the kernel.
pub mod Prelude
pub mod Kernel
pub mod Io
pub mod Event
pub mod Interrupt
pub mod Device
pub mod Transaction
pub mod Client
pub mod I2c
pub mod Ioreg
pub mod Subscription
pub mod Periodic
pub mod Supply
pub mod Power
pub mod Slc
pub mod Buffer
pub mod Ioctl
pub mod Lifecycle
pub mod Dpm
pub mod Tests
