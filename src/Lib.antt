-- ===== src/Lib.antt =====
-- Project-E: an engine with an entity component system (libs/lib_ecs) and a network library
-- (libs/lib_net). This library models the two and states what makes them correct.
--
-- The entity component system. Values stand in chunks, a field of a component is a pool of chunks,
-- a component is a list of such pools, an archetype is a list of components with a list of free
-- positions, and the manager holds an archetype pool for each kind of entity and one for handles.
--   Ecs/Pos         libs/lib_ecs/Chunks/ChunkPos.hpp, ChunkPos.cpp: positions and their order
--   Ecs/Chunks      libs/lib_ecs/Chunks/StandardChunk.hpp, AChunkPool.hpp, StandardChunkPool.hpp
--   Ecs/Components  libs/lib_ecs/Components/ComponentPool.hpp; Components/Fields and
--                   Components/Rows have what goes field by field
--   Ecs/Archetypes  libs/lib_ecs/Entities/ArchetypePool.hpp, Aspect.hpp; Archetypes/Widths and
--                   Archetypes/Access have the shape of an archetype and what its operations keep
--   Ecs/Systems     libs/lib_ecs/Systems/SystemTree.hpp, SystemTree.cpp: the tree of system groups
--                   and its runs
--   Ecs/Queries     libs/lib_ecs/Systems/Query.hpp, AMonoSystem.hpp, ADualSystem.hpp: queries;
--                   Queries/Runs has the systems, Queries/Names the pools that a query finds,
--                   Queries/Visits and Queries/Cross what it visits
--   Ecs/Manager     libs/lib_ecs/EntityManager.hpp, EntityManager.cpp: createEntity and
--                   destroyEntity. Its child modules hold a new manager (Start), sequences of calls
--                   (Reach), the invariant (Links), what claiming and giving back a position do
--                   (Pools, Claims, Releases, Extend, Carry), what a second destruction does
--                   (Again) and the two results (Create, Destroy). Manager/Batch is createEntities:
--                   Batch/Writes, Grow, Fill, Pops and Outcome have its parts and Batch/Made the
--                   result; Manager/Mass is the destruction of many entities, with Mass/Destroyed
--   Ecs/Registry    libs/lib_ecs/AEntityManager.hpp, AEntityManager.cpp and registerEntityPool of
--                   Systems/SystemTree.cpp: the registration of systems, groups and pools;
--                   Registry/Runs has sequences of them
--   Ecs/Timer       libs/lib_ecs/AEntityManager.hpp, AEntityManager.cpp: addTime; Timer/Frames has
--                   sequences of calls
-- The network library. Packets are bytes with a header; a reader's buffer holds the bytes that came
-- in over TCP; the server cuts them into packets and takes clients through a handshake that ties a
-- UDP address to a TCP connection.
--   Net/Result      libs/lib_net/result/Result.hpp
--   Net/Packet      libs/lib_net/Packet.hpp, Packet.cpp; Packet/Wire has the round trips
--   Net/Queue       libs/lib_net/super/TSQueue.hpp; Queue/Fifo has the interleavings of threads
--   Net/Io          libs/lib_net/io/Read.cpp, io/Write.cpp: the loops over read and write; Io/Exact
--                   shows that they end
--   Net/Buffer      libs/lib_net/io/buffered/Buffer.hpp
--   Net/Writer      libs/lib_net/io/buffered/BufWriter.hpp; Writer/Order has the order of the
--                   bytes, Writer/Vectored the writes of several spans, write_cold and flush
--   Net/Addr        libs/lib_net/net/IpAddr.hpp, net/SocketAddr.hpp; Addr/Fields has their parts,
--                   Addr/Text the texts with net/IpAddr.cpp, net/SocketAddr.cpp and
--                   net/AddrParseError.hpp, and Text/Printed and Text/Brackets what the parsers
--                   make of what the printers write
--   Net/Uuid        libs/lib_net/uuid/Uuid.hpp, uuid/UuidGenerator.hpp; Uuid/Fresh and Uuid/Supply
--                   have what the generator gives, Uuid/Text the texts, Uuid/Hex that they are read
--                   again
--   Net/Sockets     libs/lib_net/net/Socket.cpp, TcpListener.cpp, TcpStream.cpp, UdpSocket.cpp and
--                   _base.hpp; Sockets/Open has what makes a socket, Sockets/Address the addresses,
--                   Sockets/Descriptors and Leaks what stays open
--   Net/Base        libs/lib_net/super/BaseServer.hpp, BaseServer.cpp: the sockets, queues and
--                   threads under the server. Base/Handlers, Base/Dispatch and Base/Loop are the
--                   context thread, Base itself and Base/Events the main thread; Base/Invariant,
--                   Keeps, Handled, Steps and Reach have the invariant, Base/Hosting a socket that
--                   is hosted later, Base/Watch the poll, Base/Turn a turn of the loop, Base/Supply
--                   and Base/SameIds the identifiers that it takes, Base/Setup the connection and
--                   Base/Closing the destructor
--   Net/Server      libs/lib_net/super/Server.hpp, super/Server.cpp and the sends of
--                   super/BaseServer.cpp; Server/Receive and Server/Stream are on_tcp_data,
--                   Server/Accepted, Server/Handshake and Server/Sessions the handshake,
--                   Server/Send the packets to one client and to all
-- Common holds lists over the native numbers, Boolean tests and 64-bit arithmetic.
--
-- State is passed explicitly: an operation takes the state and gives the new one. An access out of
-- range, a null pointer that is used and an iterator past the end are `none`. Operations under a
-- lock are atomic, so that threads are a list of operations. Positions in a buffer wrap at 2 ^ 64,
-- a pool id is narrowed to 8 bits and the size of a packet to 16 as in the source; counters of
-- chunks and elements do not wrap, as they are bounded by memory. The random engine is the list of
-- the numbers that it will give. The loop of `on_tcp_data` has fuel, the number of bytes in the
-- buffer: each packet has eight bytes or more, and the theorem on it shows that this is enough. The
-- loops of Net/Io have the number of bytes to move as fuel, which is enough where each turn moves
-- one. The loop that adds chunks in createEntities has the number of entities as fuel, since a
-- chunk has one position at least. The loop of addTime has fuel, and a time is of any type with the
-- operations of `double` that the code uses; the theorem takes exact times, as numbers of ticks,
-- for which the time to pass is enough fuel. `getaddrinfo` is a function from texts to words, the
-- bytes of an address read as a little-endian machine does.
--
-- Not modelled: system calls, which have no text to model and whose answers are arguments; the
-- sockets for Windows; logging, which is output; the compile-time construction of types; the
-- modules of the engine, which are glue, and rendering.
pub mod Common
pub mod Net
pub mod Ecs
