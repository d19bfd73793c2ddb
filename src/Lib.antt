-- ===== src/Lib.antt =====
-- A multiplayer game server: clients connect over TCP, send length-prefixed frames, join rooms and
-- play on a board; a client that drops out may come back with a token; the server's state is kept in
-- checkpoints. This library models the layers from the byte stream up to the service that joins rooms
-- and sessions, and the format of the checkpoints.
--
-- Parts, and where they are modelled:
--   Buffer (src/buffer.cpp): the bytes that arrive, with the two positions of the class.
--   Codec (src/codec.cpp): frames; `decode` runs on a Buffer and hands each frame to a callback, a
--     function on a state of its own. Codec/Stream is a reference decoder on lists of bytes.
--   Bytes and Protocol (src/protocol.cpp, include/protocol.h): the payloads of the messages.
--   StateMachine (src/room_state_machine.cpp): waiting, running, finished.
--   Game (src/game_state.cpp): players on the board.
--   Room (src/room.cpp), with Room/Binding (connections) and Room/Persist (checkpoints): members,
--     the game, and the commands that wait for the next tick. Room uses StateMachine and Game.
--     Room/Lifetime lists the operations that change a room, restored checkpoints among them.
--   Checkpoint (include/checkpoint.h): what is stored.
--   SessionManager (src/session_manager.cpp), with SessionManager/Handle (src/session.cpp): tokens,
--     sessions and connections.
--   RoomManager (src/room_manager.cpp): the rooms by their numbers. RoomManager/Attach has the
--     connections of members, RoomManager/Recovery the checkpoints; RoomManager/Seats says who sits
--     in which room and through which connection, which is what the service needs to know of rooms.
--   RoomService (src/room_service.cpp): RoomService/Handlers has joining, resuming and leaving,
--     RoomService/Dispatch the other handlers and the way of a frame to its handler,
--     RoomService/Sending the frames that go out, RoomService/Recovery the server's checkpoint. A
--     handler returns the new state and the calls that it makes of connections and of the event loop
--     in their order (`Effect`); what it finds outside is its argument (`World`): the threads, the
--     clock, the random bytes, what connections answer. All frames of one call of `handle_message`
--     share one `World`; frames that are taken up one by one have each its own. RoomService/Linked and
--     RoomService/Invariant say how seats and sessions belong together, RoomService/Runs is about
--     sequences of events, from the bytes in a connection's buffer on, and RoomService/Stored about
--     the checkpoints.
--   CheckpointCodec (src/checkpoint_codec.cpp): the bytes of a checkpoint file, with
--     CheckpointCodec/Writing and CheckpointCodec/Reading for the anonymous namespace of that file.
--     Its early returns are the error of a result type (CheckpointCodec/Outcomes).
--   Map, Sort, Int, Pointers, Base: hash tables, `std::sort`, signed integers, references to
--     connections, and shared names.
--
-- Definitions keep the names of the functions and return the new state with the result; where the
-- code returns false and leaves its argument alone, the result is `none`. A `std::string` is the list
-- of its bytes. Unsigned integers are native numbers with the wrap-around written out where the code
-- can reach it (room ids and ticks count modulo 2^64); coordinates and health are integers that the
-- invariant keeps far within 32 bits. A hash table is an association list, whose order stands for an
-- order of iteration that is not specified: results about tables are stated by lookups. A connection
-- is the number of its object; which objects still exist when a weak reference is locked is an
-- argument (`alive`), as are the random bytes of a token and the points of time, which are numbers
-- without an upper bound.
--
-- The decoder's loop runs on fuel, one more than the bytes that wait; each round takes at least six
-- bytes off, so that it never runs out.
--
-- A size of the codec is checked where the code checks it: each append against the limit of 64 MiB
-- less the header, which is why the lengths and counts that are written fit into their fields. The
-- loops of the codec run on the counts that were read, each compared with the bytes that are left.
--
-- A function that the code hands to `run_in_loop` runs at once in the loop's own thread; in another
-- thread it becomes an effect, and the function is a definition of its own (`handle_frame_in_loop`,
-- `close_in_loop`), so that a run may take it up at any later point.
--
-- Not modelled: sockets, epoll, threads, timers, files and logging (the event loops, the connections,
-- the TCP server, the checkpoint store, the persistence service), the HTTP demo, and the wiring in
-- main/. Allocation failures are not modelled.
pub mod Base
pub mod Int
pub mod Bytes
pub mod Buffer
pub mod Codec
pub mod Map
pub mod Sort
pub mod StateMachine
pub mod Game
pub mod Checkpoint
pub mod Pointers
pub mod Room
pub mod RoomManager
pub mod RoomService
pub mod CheckpointCodec
pub mod Protocol
pub mod SessionManager
