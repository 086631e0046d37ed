-- ===== src/Lib.antt =====
-- A model of message_transport: publish and subscribe over shared memory between processes on one
-- machine. A message is serialized into a block of a Boost managed segment and read from there.
--
-- Common: Boolean tests, lists and the memory that the other modules share.
--
-- Serialization (include/message_transport/serialization/): a stream is a cursor into a memory of
-- bytes with an end; a call returns or throws the overrun exception. `Stream` has the streams,
-- `Scalars`, `Strings`, `Vectors` and `Arrays` the serializers of serialization.h, `Interface` the
-- free functions and the length stream, `Message` the raw messages of message_types.h. `Puts`,
-- `Elements`, `VectorCodecs`, `MemoryCodecs` and `Buffers` carry the proofs: every serializer emits chunks of
-- bytes, one for each call of `advance`, and reads them back. Pointers are offsets. The allocator of a
-- message's buffer is a parameter. `Fields` has the types that the framework serialises by itself, with
-- the serializer that the traits of message_transport_traits.h select, `FieldCodecs` their wire format;
-- containers of containers and the reading of a vector of bool do not compile in the source.
--
-- Sharedmem (src/sharedmem/, include/message_transport/sharedmem/): `Names` has the C strings,
-- `Segment` what is assumed of Boost's managed_shared_memory, `Descriptor` the entries of
-- SharedMemoryBlockDescriptor, `Block` the manager SharedMemoryBlock with the table of 100 entries.
-- `Block/State` has the state, `Block/Operations` findHandle, allocateBlock, resetBlock,
-- resetAllBlocks and reallocateBlock, `Block/Transfer` serialize, deserialize and wait_data. A lock
-- that is held for a whole call is not shown; a wait on a condition applies a function that is a
-- parameter, which stands for all that other processes do meanwhile. `Block/Validity` says when table
-- and segment agree. The loops of the source run over the table, by recursion on the number of
-- entries left, not on fuel.
--
-- The names of the segment's objects are those of blocks: a topic called "Manager", whose block would be
-- the manager's own object, and topics of more than 255 characters, whose copies have no terminator, are
-- outside the model.
--
-- `Session` takes calls of all clients that return one after the other, as a step relation. `Session/Directory`
-- has the abstract view, a map from names to sizes, and what each call is to change in it.
--
-- `Clients` opens the calls up: many threads that use one block, between them its mutex, its counter
-- of clients and its two conditions, and the mutex, counter and condition of the manager
-- (SharedMemoryBlockDescriptor.h, SharedMemoryBlock.h). A move of `Clients/Phases` is what one thread
-- does between taking a mutex and waiting for another or letting go; `notify_all` moves those that
-- wait. Spurious wake-ups, exceptions and processes that die are left out; other blocks show only in the
-- manager's counter.
--
-- Publisher (src/sharedmem/sharedmem_publisher.cpp, include/message_transport/common/publisher*.h):
-- `Sender` has SharedmemPublisherImpl and SharedmemPublisher, `Plugins` PublisherImpl and Publisher,
-- `Advertise` what include/message_transport/common/publisher.inl defines of Publisher.
-- How the segment opens and whether the manager is in it are parameters.
--
-- Subscriber (include/message_transport/sharedmem/sharedmem_subscriber.h,
-- include/message_transport/common/subscriber*.h): `Receiver` has SharedmemSubscriber with its plugin
-- base class, `Loop` the loop of its thread, on fuel, one for each pass: it is enough to exceed the pass
-- before which shutdown is called. `Handle` has SubscriberImpl and Subscriber, with null pointers as
-- values.
--
-- Channel puts a publisher and the subscribers of one topic side by side: `First` has the first call of
-- `publish`, which connects, and the subscribers that come then; `Delivers` a call of `publish` and then
-- one pass of the receive loop of each subscriber, for each message of a list.
--
-- Manager (src/sharedmem/sharedmem_manager.cpp): the program that owns the segment. The parsing of its
-- options, the machine's shared memory objects, whether the manager object fits into the segment, and
-- what clients do meanwhile are parameters.
--
-- Pool (include/message_transport/common/timer.h, include/message_transport/sharedmem/release_pool.h):
-- the timer counts its pending calls; an object of the pool is a number, and its owners outside the
-- pool are a function, which the destructors of dropped objects, a parameter, change during the sweep.
--
-- Clock (src/message_transport_util.cpp): `Time` has sleep, now and the numbers of the short time
-- string, as built for unix, `Sync` the filter TimestampSync, over an arbitrary arithmetic for double,
-- `Windows` the branch of now for Windows, `Strings` the time strings over the C library's calendar.
--
-- Machine integers wrap where the source has them wrap: uint32_t lengths and counts modulo 2^32, time
-- stamps modulo 2^64. The counters of clients do not wrap.
--
-- Not modelled: logging and tracing, the comparison operators on pointers, the overloads that only wrap
-- a callback or a pointer, the interruption of the receiving thread by its destructor, and the
-- example programs.
pub mod Channel
pub mod Clock
pub mod Common
pub mod Manager
pub mod Pool
pub mod Publisher
pub mod Serialization
pub mod Sharedmem
pub mod Subscriber
