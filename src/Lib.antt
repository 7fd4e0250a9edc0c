-- ===== src/Lib.antt =====
-- A model of nz, a virtual private network of one server and its nodes, and what holds of it.
--
-- The program. The server keeps users, machines and grants in a state file (internal/state), speaks a
-- UDP protocol (internal/protocol) with machines that hold a signing and an exchange key
-- (internal/identity), decides who may call whom (internal/server/policy.go), and relays data between
-- machines (internal/server/data.go). An administrator approves, blocks and connects them through
-- management commands (internal/server/server.go). Configuration comes from one file (internal/config).
-- The commands of the program (cmd/nz) talk to the running daemon (internal/daemon) over a local socket
-- (internal/ipc); a node sends its packets through a network device (internal/tun), and the daemon is
-- started by the system (internal/service).
--
-- The files, and the code that each models:
--   Base       the shared names: Boolean tests, lists over the native numbers, first-match search and
--              update, lists without repetition, association lists, texts
--   Netip      what the program uses of net/netip, for IPv4
--   Base64     what it uses of encoding/base64, the standard encoding
--   State      internal/state/state.go. Model is the record and the writing of the file, Target is
--              ParseTarget, Roster is Allow, Deny, Block, Unblock, Trust and Untrust, Grants is Grant to
--              IsGranted, Join is RegisterJoin to EnsureAdmin, Alloc is AllocateIP. Entries and Step
--              are the tables as an abstract transition system with the guards of each call, and Calls
--              the operations as answers to calls.
--   Protocol   internal/protocol. Envelope and Proof are protocol.go; Signed, Sealed and Answer are
--              signed.go; MsgType holds the values of the type byte.
--   Identity   internal/identity/identity.go. Stored is an identity as it is kept in the state file.
--   Config     internal/config/config.go: the record and Validate; File is Load, Parse and ValidateFile.
--   Server     internal/server. Model is the Server record, Policy is policy.go, Sending is what goes out
--              on the socket, Admin is AdminCommand, Joining is the join handshake, Relay is
--              verifyMachine to relayData, Local is the traffic with the server itself, Queries is
--              discovery and the machine list, Views is UsersView, Handling is the dispatch. History and the
--              modules Store say what a datagram does to the store.
--   Node       internal/node. Packets is packets.go. Model is the Node record, Waiting the channels and the
--              check of the server's signature, Peers the peers and their queries, Outgoing sendTo,
--              Incoming readFromUDP and its handlers, Upkeep the keep-alives and the goroutines, Joining the
--              join (node.go), Requests AdminCommand and QueryMachines. Sound is an invariant, and Runs
--              everything that can happen to a node.
--   Daemon     handleReload and checkReloadable of internal/daemon/daemon.go
--   Control    New and the requests of the control socket, of the same file; Socket is their answers as
--              they stand on the socket.
--   Ipc        internal/ipc/ipc.go: the lines of JSON on the control socket, and a call over it
--   Command    cmd/nz. Args is parseTargetArgs, Usage the table of commands and the help, Client the
--              commands that ask the daemon, Main the choice of the command and the other commands, Text
--              the parts of a line, Table and Users the tables of output.go.
--   Logx       internal/logx/logx.go: the log file; the form of a log line is in Command.Text.
--   Service    internal/service/service.go and service_other.go: install and uninstall
--   Tun        internal/tun/tun_linux.go: Create, Cleanup, and the loops of Read and Write
--   Journey    sendTo, the relay of the server and handleData together
--   Handshake  tryJoin, handleJoinRequest and handleJoinProof together
--   Examples   the theorems applied to concrete states and messages
--
-- How state is modelled. Each method of State is a function from the state to the state and Go's error:
-- the mutex makes a method atomic. The handlers of Server are functions from the server to the server;
-- one goroutine reads the socket, so a datagram is handled to its end before the next one. What is
-- written to the socket and to the local device is a list in the server record. The clock and the
-- random bytes are arguments. The result of each write of the state file comes from a list in the state,
-- so every order of failing and succeeding writes is covered.
--
-- A node has several goroutines. A handler of the node is a function from the node to the node as well,
-- but a wait on a channel takes an argument that says what the others do to the node before it ends
-- (Node.Waiting.Pause), so a theorem about an operation holds for whatever happens during its waits, as
-- far as its hypotheses allow. Between its waits an operation runs without interleaving: the writes to one
-- peer through its pointer, which the code does not lock, are not split. The goroutines that a handler
-- starts are entries of a list, and run_task is one of them from its start to its end. A map is an
-- association list, and the order in which Go visits it is that of the list.
--
-- The system calls of Tun, the commands of Service and the bytes on the control socket are explicit
-- sequences. What the kernel or the system answers to a call is an arbitrary function of all the calls
-- before it, so every order of failures is covered. What a command prints is a list of lines.
--
-- What is a parameter. JSON, ed25519, X25519 with HKDF, HMAC-SHA256, XChaCha20-Poly1305 and the
-- fingerprint are functions in the records Json and Crypto of Server.Model and of Node.Model, or arguments of the
-- definitions that use them; Argon2id is an argument of the reload, and a field of Crypto for a node. The
-- resolver of names and the creation of the device are arguments of the node, and the host of the command
-- line (Command.Main.Host) holds package flag, the file system, the terminal, and the daemon that run
-- starts. No property of them is assumed but in the theorems on sealing, on the signed form, on the way of a
-- packet, on the join and on a call over the control socket, which say so.
--
-- Bounds. Addresses are IPv4 and stand for a number below 2 ^ 32; a byte is a number below 256. The loop
-- of AllocateIP over the addresses has fuel 2 ^ 32, one round for each address, and the results
-- on allocation show that it does not run out while an address of the prefix is free. Times are numbers
-- of nanoseconds, and a time difference below zero reads as zero; the code compares such a difference
-- only with positive bounds.
--
-- What is not modelled: IPv6 and IPv4-mapped addresses, the goroutine that reads the local device beyond
-- one packet, the calls of logx outside cmd/nz, the loops that read the node's socket and device beyond one
-- round, Run and serve of the node, which start its goroutines, the sleeps and the lengths of the timeouts,
-- Serve and Stop of the daemon, requests of several connections to the control socket that interleave, the
-- Windows files (internal/tun, internal/service, internal/ipc), and the mobile client. Nor is the panic of
-- Go where a node writes to a socket or a device that it does not have yet: the model writes to the list.
-- A channel of a node loses an answer that comes after the receiver has taken one, which Go's channel can
-- keep for the next query; what such an answer does is Node.Peers.Stale. A node that a reload in node mode
-- leaves running is not in Daemon, which counts the starts.
pub mod Base
pub mod Netip
pub mod Base64
pub mod State
pub mod Protocol
pub mod Identity
pub mod Config
pub mod Server
pub mod Node
pub mod Daemon
pub mod Control
pub mod Ipc
pub mod Logx
pub mod Service
pub mod Tun
pub mod Command
pub mod Journey
pub mod Handshake
pub mod Examples
