-- ===== src/Lib.antt =====
-- linuxStudyNotes: models of the small servers of the repository, with proofs of what they do.
--
-- tinyhttpd/httpd.c is a web server that handles one connection after the other. Httpd.Line is
-- `get_line`; Httpd.Request is the parser of the request line in `accept_request`; Httpd.Conn is
-- a connection and what the host gives (`stat`, `fopen`, `pipe`, `fork`, the scripts);
-- Httpd.Reply holds the fixed replies; Httpd.File is `serve_file` and `cat`; Httpd.Cgi is
-- `execute_cgi`; Httpd.Server is `accept_request` as a whole. A read behind an array, an overflow
-- of an array and `fclose(NULL)` are faults of Httpd.Fault. Httpd.Server.Reference says what
-- every request is answered, with no loop over a socket. A child that writes behind an array is
-- left undefined, and the server goes on; a child keeps its end of the pipe open while a body is
-- written to it, since the signal of a write with no reader is not modelled. Uninitialised arrays
-- are parameters.
--
-- epoll_simple_chat_server is a server that pairs clients by the numbers of their descriptors.
-- Chat.Network is `read_all` and `send_all` of network.c over what the kernel returns,
-- Chat.Process is `fork_process` of process.c, and Chat.Loop is `io_loop` and `process_request`
-- of main.c over the events that `epoll_wait` reports; Chat.Loop.Conversation follows two clients
-- through it.
--
-- Libc holds what the programs take from the C library: `isspace`, `strcmp`, `strcasecmp`,
-- `atoi`, `sprintf` of an `int`; `atoi` is that of glibc, with a `long` of 64 bits. A byte is a
-- number, and a C string is the part of an array in front of its first NUL.
--
-- Loops over a socket run on fuel: the length of what the client has sent and one or two, since
-- each round but the last takes a byte. The loops over an array run on the room that is left in
-- it.
--
-- bytebuffer/mangosByteBuffer is a byte buffer and two programs that exchange packets.
-- Bytes.Buffer is the storage with its two positions (`append`, `read`, `put`); a failed
-- assertion and an access outside the storage are values of its Access. Bytes.Value holds the
-- operators `<<` and `>>`, Bytes.Message the message of NetDefine.h. A `size_t` has 32 bits, as
-- in the programs that are kept beside the code. Bytes.Parcel is the two kinds of packet, and
-- Bytes.Packet is `SendData` of server.cpp and `run` of client.cpp: Bytes.Packet.Wire is about
-- one packet, Bytes.Packet.Cut takes it off the client's array, Bytes.Packet.Loop is about its
-- inner loop, Bytes.Packet.Stream about the whole stream, and Bytes.Packet.Setup about the
-- sockets. The inner loop runs on eleven rounds, since it counts a packet in each and stops at
-- ten.
--
-- thread/producerAndConsumer holds two programs in which a producer and a consumer share a
-- buffer. Threads.Semaphore is semaphoreSolution.cpp, with its `main` in Threads.Semaphore.Main,
-- and Threads.Condition is conditionSolution.cpp, with its `main` in Threads.Condition.Main. A
-- move is the next library call of one thread, or its work on the buffer; a schedule is a list of
-- moves. Signals are sent to conditions that one thread waits for.
--
-- protobufTest is a login over two servers. Auth.Packet is PacketHandler.cpp over the messages of
-- packet.proto, Auth.Database is AuthDatabaseHandler.cpp, Auth.Server and Auth.Game are what
-- AuthServer.cpp and GameServer.cpp do with a message in a round of the loop that is Auth.Round,
-- Auth.Client is GameClient.cpp, Auth.Session is the client with both servers, with proofs in
-- Auth.Session.Steps and Auth.Session.Whole, Auth.Users is what the auth server promises for a
-- table whose order is forgotten, Auth.World is the auth server with all its connections and one
-- database, and Auth.Startup sets up the sockets of all three. The protobuf library and SQLite
-- are parameters; Auth.Toy is one of each. A call of `recv` is taken with flags 0.
--
-- libevent has an echo server and its client. Echo.Evbuffer says what is used and documented of
-- the buffers of libevent, Echo.Server is originEchoServer.cpp, Echo.Client is
-- originEchoClient.cpp, Echo.Lines is a reference that reads byte by byte, Echo.Serve compares
-- `readcb` with it, Echo.Clients is about many clients at a time, Echo.Limits about what the
-- server keeps for them, Echo.Client.Order about all that the client may meet,
-- Echo.Client.Answers about what it takes of the answers, Echo.Talk about client and server
-- together, and Echo.Startup sets up their sockets. The event loops of libevent run over lists of
-- what they report; the loops of `readcb` run on the length of the input.
--
-- Sockets is what the programs use of the kernel to set up a socket: Sockets.Kernel is a
-- parameter, Sockets.Laws says what is documented of it, Sockets.Toy is one. Httpd.Startup is
-- `startup` and `main` of tinyhttpd/httpd.c, Httpd.Startup.Guests its loop over clients of all
-- kinds and Httpd.Startup.Visitors over those that ask for files, and Chat.Setup is the rest of
-- epoll_simple_chat_server/network.c with `main` of main.c.
--
-- Not modelled: printing, the code that protoc generates, and the sample scripts of tinyhttpd.

pub mod Prelude
pub mod Libc
pub mod Httpd
pub mod Chat
pub mod Bytes
pub mod Threads
pub mod Auth
pub mod Echo
pub mod Sockets
