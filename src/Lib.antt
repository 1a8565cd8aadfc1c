-- ===== src/Lib.antt =====
-- A model of the four-in-a-row game that two users play over a network, whom a server brings
-- together. A client connects to the server, makes itself known, asks for the list of the users and
-- challenges one of them; the server passes the challenge on, and when it is accepted, gives each
-- player the address and the certificate of the other. The players then play against each other.
--
-- The files, and the code that each models:
--   Board       src/client/connect4.cpp: the class Connect4. A board is a record with the fields of
--               the class; play, countNexts, checkWin and checkFullTopRow are play with drop_token
--               and place, count_nexts with count_loop, check_win and check_full_top_row. An access
--               outside the array is the result none.
--   Wire        src/utils/buffer_io.cpp, writeSockAddrIn and readSockAddrIn of
--               src/network/inet_utils.cpp, the four functions on buffers of
--               src/security/crypto_utils.cpp, and src/network/messages.cpp with
--               include/network/messages.h. A message is a value of one data type with a
--               constructor for each class, write is a function to bytes, readMessage is
--               read_message on the memory and the length that the caller names. The results tell
--               an error code, a thrown string and an access outside the memory apart.
--   Server      src/server/user.h, src/server/user_list.cpp and src/server/server.cpp. A User* is a
--               place on a heap of users, and the two maps of UserList are association lists. The
--               handlers change a world of users, calls of their sockets, and events of their
--               locks; handle_message and worker_round are handleMessage and the body of worker.
--               Server/Main is the loop of main: poll_round is one round of it, on the users, the
--               queue and the set of the descriptors, while nothing else happens. In Step and Steps
--               the workers come in between any two descriptors that a round looks at.
--               Server/Duel follows two users through a challenge.
--   Queue       include/utils/message_queue.h: the methods of MessageQueue and the steps of the
--               threads between them, with the waits on the condition.
--   Socket      src/network/socket_wrapper.cpp: readPartMsg is read_part_msg on the bytes received so
--               far and those that a call of read adds, and frame is the packet of sendMsg. The calls
--               that block, sendMsg, receiveAnyMsg and receiveMsg, are in Socket/Blocking, and
--               bind_random_port of src/network/inet_utils.cpp is in Socket/Ports.
--   Secure      src/security/secure_socket_wrapper.cpp, and hkdf of src/security/crypto.cpp. A wrapper
--               is a record Channel with the fields of the class; its methods take it and return it,
--               with the message that goes out and whether the result is 0. Secure/Handshake has
--               the methods of the handshake, and handshake of Secure/Agreement is handshakeClient
--               on one side and handshakeServer on the other. Secure/Crypto is
--               src/security/crypto.cpp: each function is the sequence of its calls of OpenSSL.
--   Client      playWithPlayer of src/client/multi_player.cpp, and parseLine of src/utils/args.cpp.
--               Client/Peers is waitForPeer and connectToPeer, on the wrapper of Secure/Peers, and
--               Client/Main has promptChooseConnection and the loops of main of src/client/client.cpp
--               and of serverLobby, with what the other parts end with as inputs. A
--               round of the loop is own_turn or peer_turn; rounds lets two such loops play against
--               each other, with every move delivered. A line of input is none at its end.
--               Client/Lobby has the class Server of src/client/server.cpp and the handlers of
--               src/client/server_lobby.cpp; what the user types and what sendMsg and receiveMsg
--               answer are their arguments. Client/Single has the game against the
--               computer, src/client/single_player.cpp, with the numbers of rand as a list.
--   Base        the lists, tests and integers that the others share.
-- The parts meet in worker_round: a thread takes a message from the queue, looks its user up and
-- handles the message, whose bytes the functions of Wire read and write, and those of Socket put
-- into frames and find there.
--
-- Parameters: OpenSSL's encodings of certificates and keys (the record Ssl; SslLaws says that a DER
-- value is read back whatever follows it), and in the record Env the results of the calls of the
-- sockets, the certificates and the addresses. The record Suite has what the secure channel uses of
-- src/security/crypto.cpp, whose own calls of OpenSSL are the records Cipher, Pkeys, Digests and
-- Stores; with_aes puts the two functions of AES into a Suite, and Documented is what OpenSSL
-- documents of their calls, for Aead, the authenticated encryption. Gcm says that AES in GCM gives
-- a text back under its key, initial value and additional data, and nothing else, Signer that a
-- certificate verifies what its key signs, and Encodes that a key has an encoding of at most 256 bytes.
--
-- Bounds: countNexts runs on the fuel line_fuel, rows + columns + 4, since a line leaves the board
-- before that; the reference count wraps at 2 ^ 32, a size_t at 2 ^ 64, and the offset of a list is
-- a signed number of 32 bits. The other numbers of the code are small and have no bound here.
--
-- Not modelled: the set-up of sockets, an accept that fails, the inside of the ciphers, and what
-- the client loads and prints around its loops. The memory of the machine holds a number with its
-- lowest byte first. A method of the handshake in which a call throws gives only raised, since
-- connectToPeer and waitForPeer then return no wrapper. What it leaves in the wrapper, where
-- handleServerHello may already have marked the peer, is in Secure/Thrown, and Secure/Trust goes on
-- from there. When readMessage throws in readPartMsg the buffer is unread.
-- A visit of a descriptor and a handler of the server run as one step each, without what other
-- threads do while it waits for a lock, and a call of a socket returns a result, it does not throw.
pub mod Base
pub mod Board
pub mod Wire
pub mod Server
pub mod Queue
pub mod Socket
pub mod Secure
pub mod Client
