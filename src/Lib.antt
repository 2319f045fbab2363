-- ===== src/Lib.antt =====
-- Verification library of ecstoolkit, a client of AWS ECS and of the session protocol of AWS SSM.
--
-- The program's core is a data channel over a web socket: client messages in a binary format go out with
-- a sequence number, stay in a buffer until they are acknowledged, and are sent again when a timeout has
-- passed; messages that come in are put in order, acknowledged, and handed to the handlers of a session, after a
-- handshake that chooses the session's type and may turn on encryption.
--
-- Around it: the communicator holds the web socket; a session opens the channel and is what a plugin sees of it;
-- the plugins are a shell session, which passes the keyboard, the signals and the size of the terminal on, and
-- three kinds of port session, which pass sockets or the standard streams on; the executor starts a
-- session for a target, and the cluster finds, runs, scales and deploys the services that have the targets.
--
-- The files, and the code that each is about:
--   Base         numbers, lists, 64-bit integers and results that the other parts share.
--   Buffer       byte slices of Go: slicing, copying, encoding/binary, and the trimming of package strings.
--   Util         util/safe.go: SafeUint32, SafeInt32 and SafeInt64. Util/Bounds says when they are exact.
--   Method       the methods of an object over its state, for the parts below but DataChannel.
--   Log          log/: the levels of Slogger.
--   Json         jsonutil/jsonutil.go.
--   Retry        retry/retry.go: Retry, with its calls and delays. Retry/Repeatable for retry/retryer.go.
--   Communicator communicator/websocketchannel.go and websocketutil/websocketutil.go.
--   Encryption   encryption/encrypter.go and encryption/kmsservice.go.
--   Version      version/versionutil.go and version/versionvalidator.go: NewVersion, compare, and the features
--                of an agent's version.
--   Message      message/: Types and PayloadType for types.go, Readers for readers.go, Writers for writers.go,
--                Codec for clientmessage.go, Handshake for handshakemessage.go. Codec/Layout is the wire format
--                as one list of bytes; Codec/RoundTrip, Safety, Errors and Validation compare the code with it.
--   DataChannel  datachannel/: ListBuffer and MapBuffer for the two buffers, State for the struct DataChannel and
--                what it uses of the outside, Sending, Handlers, Handshake and Receiving for the
--                methods in datachannel.go. A method is a function of the same name in snake case. Lifecycle is
--                Open, Close, listen, reconnect and establishSessionType; open is open_socket there, and
--                the part of Open before its goroutines is start. Sending/Race is two goroutines that send.
--                Sending/Replay and Receiving/Reference are what the two directions promise, on sequence numbers
--                alone; Sending/Replay/Faithful and Receiving/Reliable compare the methods with them, the latter by way
--                of Receiving/Working (everything outside works), Aside (the buffer as numbers), Delivery (a channel
--                in step with the reference), TakenUp and Arrival. Receiving/Peer is a peer that writes the wire
--                format. Encrypters is encryption.go, with the encrypters of package encryption in a channel.
--                Handshake/Response is the answer to a handshake request, Asked the session type that its
--                actions ask for.
--   Session      session/session.go and the interfaces of the package. Session/Shell for session/shellsession/;
--                Session/Port for session/portsession/portsession.go, with the kinds Basic, Mux and Stdio; Locking
--                is the goroutines that want the mutex of Basic, Early what a message meets before there is a client.
--   Executor     executor/executor.go: PortForwardSession, ShellSession, newSession, initSession, buildTargetID.
--   Cluster      cluster/: Chunk and Images for the helpers of cluster.go, Lookup and Tasks for its tasks and task
--                definitions, Pages for DescribeAllServices, Attach for its sessions, Scaling for scale.go and autoscale.go.
--   Tests        the code at concrete inputs.
--
-- How the code is modelled. An integer of Go is the integer that it stands for, with its wrap-around written
-- out where the code converts or adds; `int` has 64 bits, and sums of slice bounds are exact, which they are for
-- slices that fit in memory. A call comes to a value, an error, a panic or a wait that nothing ends
-- (Base/Outcome); an error is the sentinel that errors.Is finds, without the wrapping text. A method of
-- the data channel is a function of the state of the channel and of the world outside, and the state that
-- it leaves is kept whatever it returns. A mutex makes the method that holds it one step,
-- except ReadStream of Session/Port/Locking, which is a step for each of its rounds. The mutex of Session/Port/Basic
-- is part of its state too: a method that never returns keeps it, and the next one waits. Logging is
-- left out of the other parts than Log.
--
-- What the repository does not contain is a parameter: the UUID and SHA-256 packages (Libraries, with
-- their documented behaviour in Documented), gorilla/websocket, package net, smux, AES-GCM, the AWS clients, the
-- terminal, the clock, encoding/json at the types that the source uses,
-- log/slog, the handlers of other packages, the arithmetic of float64 and strconv.Atoi. A channel takes its encrypters
-- as a parameter too, which Encrypters fills.
--
-- The loop of ProcessIncomingMessageBufferItems runs on fuel, one round more than the buffer has messages, and
-- each successful round takes one message out; Receiving/Buffered/Termination compares it with the loop without fuel. The loop of the resend scheduler runs for a given
-- number of rounds, and so do the loops of listen, of a terminal's size and of a reader of a port. The loops that
-- end by a count, of ReadMessage and of RepeatableExponentialRetryer, run on that count. DescribeAllServices has
-- fuel for the number of pages, which the API decides. Receiving/Reference has fuel for the numbers aside, of which
-- each round takes one, and for the sum of the numbers that come, which none of them exceeds. Everything else is structural recursion.
--
-- Not modelled: contexts and their cancellation, and the channels between goroutines; where two goroutines meet in
-- a property, their steps are a relation. Nor are the getters and the constructors that only pass a field on or
-- store their arguments. What the operations on a task definition only copy is one field.
pub mod Base
pub mod Buffer
pub mod Util
pub mod Method
pub mod Log
pub mod Json
pub mod Retry
pub mod Version
pub mod Message
pub mod Communicator
pub mod Encryption
pub mod DataChannel
pub mod Session
pub mod Executor
pub mod Cluster
pub mod Tests
