-- ===== src/Lib.antt =====
-- A model of coalago, a CoAP library in Go with block transfer, secured sessions and TCP frames.
--
-- Parts and files (paths from the repository's root):
--   Constants    constants.go: codes, options, limits, errors; CodeText: the methods of CoapCode.
--   Options      options.go: an option and the readings of its value.
--   Message      message.go, options.go: the message, its payload and its option list (AddOption,
--                RemoveOptions, CloneOptions, GetOption, Clone).
--   Uri          message.go: scheme, path and query of a message.
--   Block        block.go: ToInt and FromInt of a block option.
--   Wire         common.go: encodeInt and decodeInt; Wire/Frame: connections_tcp.go, the frames of a
--                TCP connection.
--   Sort         sort.Sort of the Go library with the calls of Less and Swap that it makes: insertion
--                sort, heapsort and the pattern-defeating quicksort.
--   Codec        message.go, common.go: Serialize; Codec/Deserialize: deserialize.
--   Arq          common.go, transport.go: how a large payload is cut into packets, and the answers to
--                them; Arq/Window: the window of packets that are sent, acknowledged and sent again, as
--                steps; Arq/Receive: localstate.go and storage.go, the receiver of the blocks of a
--                request; Arq/Receive/Download: receiveARQBlock2, that of a response.
--   Session      session/: the curve, the keys, the ciphers and the secured session, over a record of
--                the primitives that the code calls.
--   Encryption   encryption.go: the payload and the URI of a message under a session.
--   Transport    transport.go, security.go, connections.go: a state that is passed on, with sessions,
--                time, draws, what the connection gives and what was written; Transport/Output: the
--                security layer of what goes out, and the writes; Transport/Input: that of what comes
--                in, with the server's side of the handshake, and receiveMessage; Transport/Exchange:
--                sendCON, Send and the client's side of the handshake; Transport/Blocks: the transfers of
--                large payloads; Transport/Silence and Transport/Sound: theorems.
--   Checksum     message.go: applyChecksum, verifyChecksum and Deserialize; crc32 is written out.
--   Storage      storage.go: the sharded cache with the time as an argument, and the sessions and TCP
--                connections in it.
--   Requests     layerRequest.go, resource.go, server.go: the answers to requests and the resources.
--   Server       server.go, backward_storage.go: the server's state; Server/Relay: what listenLoop and
--                HandleTCPConn do with what they read, and forwarding; Server/Sending: its Send;
--                Server/Processing: localstate.go, what a local state and its handler do with a
--                message.
--   Client       client.go: a request made of a URI, and Send, GET, POST and DELETE over a connection
--                that its pool dials.
--   Handling     server.go, localstate.go: messages of one sender and token, and the runs of the
--                handler, as steps; the caches' times are left open.
--   Results      values, errors and panics as the results of a function.
--   Base         names that all files share, bits, integers, and the functions of Go's strings and
--                strconv that the code calls.
--
-- How they meet: the sender cuts a payload (Arq), each packet is serialized (Codec) with its options
-- in order (Sort over Codec.less and Codec.swap), and goes out as a datagram or as a frame (Wire). The
-- receiver takes the datagram apart (Codec/Deserialize), reads the Block1 option (Block) and keeps
-- the blocks in a map until all are there (Arq/Receive).
--
-- State: a function that changes a message takes it and returns the changed one; the map of blocks is
-- a list of entries with distinct keys; a stream is the list of the bytes that are left. A token, the
-- next message id and the result of a socket's write are arguments, and in Transport parts of the state
-- or of its Endpoint and Chance. A Go panic is a value: deserialize
-- recovers from it, so its model returns the zero values; receive_arq_block1 answers none.
--
-- Integers: bytes and words are natural numbers, with the wrap of the Go type written out; Go's int is
-- Base.Int.ℤ, without a bound, and the values that the code computes with it stay far from 2 ^ 63.
--
-- Fuel: parse_options runs for at most one round more than there are bytes, and each round takes a
-- byte; construct_blocks for one block more than there are bytes of the payload, and each block but
-- the last takes 1024.
-- download_loop and block1_loop run for one round more than there are readings, and each takes one.
--
-- Parameters: the primitives of cryptography (Session.Primitives, with Session.Agreement.Lawful for
-- what is documented of them), url.Parse and url.ParseQuery (Encryption.UrlParser, Client.Locator), the
-- dialing of a connection (Client.Dialed), and go-cache
-- (Server.NoteCache, with Server.Relay.Answered.Keeps). In Transport/Exchange the transfers of large
-- payloads are arguments, which Transport/Blocks fills with sendARQBlock1CON and sendARQBlock2ACK.
--
-- Not modelled: sockets, timers and goroutines; Refresh of a server, and who waits in a
-- channel; metrics, the command line and the examples; JSON encoding, whose result is part of a
-- payload.
pub mod Base
pub mod Constants
pub mod Results
pub mod Options
pub mod Message
pub mod Wire
pub mod Sort
pub mod Codec
pub mod Checksum
pub mod Session
pub mod Encryption
pub mod Storage
pub mod Block
pub mod Uri
pub mod Transport
pub mod Requests
pub mod Server
pub mod Client
pub mod Handling
pub mod Arq
pub mod Examples
