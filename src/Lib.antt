-- ===== src/Lib.antt =====
-- BinBook turns documents into books of finished page images for an e-paper reader. The host tool
-- compiles a book and sends it over a serial line; the firmware stores it on a card and draws its
-- pages. This library models the parts that a lost or a wrong byte would go through: the transfer of
-- a book, the frames of the serial line, checksums and compression, and the readers and writers of its
-- records; the owner of the card, through which every task reads and writes; and the states that
-- decide what the reader shows: the keys, the saved reading state and the menu.
--
-- Transfer (firmware/crates/binbook-fw/src). A chunk in flight has one of four slots.
--   Transfer/Slots: `BulkSlotPool` of bulk_slots.rs and bulk_slot_types.rs. `claim` is the common
--     text of `claim_upload` and `reserve_read`, `move` that of the methods that take a slot from a
--     state to another. Children: Invariant (well-formedness and its preservation), Count, Run
--     (sequences of operations), Stale (descriptors of old sessions), Holds and Lifecycle (one slot
--     through its life).
--   Transfer/Upload: `BulkUploadPipeline` of bulk_upload_pipeline.rs and bulk_upload_types.rs, on the
--     slot pool and the checksum. `admit` and `complete_storage` are cut into their tests
--     (`admit_check`, `complete_in`) and their effects (`admit_in`, `store_in`, `give_credit`).
--     Children: Invariant, Admit and Complete (one call), Run (sequences of calls), Errors, Stored
--     (an account of the bytes that the calls have stored and fed to the checksum).
--   Transfer/Readback: `BulkReadbackPipeline` of bulk_readback_pipeline.rs and bulk_readback_types.rs;
--     Acknowledge is about its `apply_credit`, Reserve about its `reserve_next`.
--   Transfer/Leases: `BulkLeasePool` of bulk_lease_pool.rs, the buffers behind the slots.
--   Transfer/Timeout: `BulkIdleTimeout` of bulk_idle_timeout.rs.
-- A method on `&mut self` takes the state and returns its result and the new state, also where it
-- fails; a reference to bytes is a list of bytes. Types of the messages come from
-- firmware/crates/binbook-diagnostic-protocol/src.
--
-- Checksum/Crc32: firmware/crates/binbook-fw/src/crc32.rs, the table included.
--
-- Packbits: crates/binbook-compress/src/packbits.rs (Packbits/Encode) and
-- crates/binbook-decompress/src/packbits.rs (Packbits/Decode), whose state goes on from call to call.
-- RoundTrip and Exact join the two.
--
-- Format (crates/binbook-core/src). Wire: the fields of records, from encode.rs. Types: error.rs, the
-- enums of types.rs and the field readers of header.rs. Strings: strings.rs. Header: header.rs and
-- `FileHeader` of encode.rs. Sections: section.rs and `SectionTableEntry` of encode.rs, with
-- Sections/Accepted on what `parse` accepts. Page: page.rs.
-- Chunk, Transition, Navigation: the files of those names, with their records of index_encode.rs.
--
-- Protocol (firmware/crates/binbook-diagnostic-protocol/src). Types: types.rs. Crc16 and Cobs: cobs.rs;
-- Cobs/Encode, Cobs/Decode and Cobs/InPlace are its three functions, Blocks and Layout what the encoder
-- writes, RoundTrip what the decoder makes of it, InPlace/Same the two decoders. A write out of
-- bounds, which panics, is `none`. Frame: frame.rs, the frames on top of these.
-- Limits: transfer_limits.rs.
--
-- Reader (firmware/crates/binbook-fw/src). Power: power.rs; `after` is a new `PowerHold` after readings
-- of the key, Power/Hold when it asks for sleep. State: reader_state.rs, with the list of records in
-- State/Records and State/Lookup, the mode in State/Mode, and the operations in State/Invariant,
-- State/Commit and State/Reachable. State/Wire is `encode` and `decode`, with the sorting of the core
-- library as a parameter: Order and Fields are lemmas, Saved joins the two. Menu: menu.rs.
-- Input: input.rs, with Input/Debounce on the presses that it answers.
--
-- Storage (firmware/crates/binbook-fw/src). Types: the requests, answers and envelopes of
-- storage_owner.rs, and `MountFileToken` of library.rs. Mailbox: the three bounded queues, with the
-- request that is chosen in Mailbox/Priority and Mailbox/OfClient. Tokens: `StorageOwnerProtocol`.
-- Owner: `StorageOwner` over a card behind `OwnerBackend`, which is a parameter. A handler is a small
-- program that stops at the first error (`Exec`); Owner/Execute has the handlers and `execute_owned`,
-- Owner/Pump the pump. Owner/Uploads and Owner/Exclusive are about the one upload that may be open,
-- Owner/Refused about refusals, Owner/Service about who is answered. Mounted: the uploads of
-- `MountedStorageOwnerBackend`, whose other calls are parameters, with Mounted/Stuck and
-- Mounted/Blocked on what follows a commit that the card refused. Scan: the records of a scan.
-- StateOwner: state_owner.rs, which keeps the reading state of Reader/State in two slots through the
-- owner. StateOwner/Save and StateOwner/Load are its two clients, each a machine that is moved by
-- answers (`accept`); `panics` stands for an `expect` that fails. Save/Slots and Save/Requests are
-- about what a save changes and asks for, Load/Ends about the end of a load, Load/Reads and
-- Load/Selects about the files that it reads and what it selects of them, Load/Newest about which of
-- two slots it takes. A buffer is sliced as `take` does: the tasks of the source pass the same buffer
-- with every answer, and its length is tested before; a shorter one later on would panic.
--
-- Numbers are natural numbers. An operation of the source that wraps, saturates or is checked is
-- written out with the bound of its type. Loops are structural recursion on what they consume; the
-- encoder and the decoder of PackBits recurse on fuel. The encoder's fuel is the length of its input,
-- of which each run takes at least a byte. The decoder's fuel counts the input and the output that
-- are left, of which each turn takes at least one; that it is enough is a theorem. The decoders of COBS
-- recurse on fuel, the length of their input, of which each turn takes a code at least; Cobs/Fuel is
-- about more fuel.
--
-- Not modelled: the reading and validation of whole books (book.rs, validate.rs and what they
-- use), of the protocol the in-place decoding of frames and most message layouts, the tasks that
-- drive the pipelines (the bulk runtimes), of the mounted card its read sessions and scans and the
-- file system below it, the catalogue of books, the runtime events and the displays of the firmware, the compiler from documents to books, and the drivers,
-- which act on hardware.
pub mod Prelude
pub mod Transfer
pub mod Checksum
pub mod Packbits
pub mod Format
pub mod Protocol
pub mod Reader
pub mod Storage
