-- ===== src/Lib.antt =====
-- scanner-button listens to a Canon scanner over the BJNP protocol and runs a command when its
-- button is pressed. The crate bjnp (bjnp/src) is the protocol: packets with a header of sixteen
-- bytes and a payload. The binary (src) sends and receives packets over UDP.
--
-- The files, and the code that each is about:
--   Prelude            names and lemmas that the other files share
--   Rust               what the sources use of Rust: Outcome has results with a panic as a third
--                      outcome, Run methods on `&mut self`, Triples what they leave behind, Slice
--                      slices, Word words in big-endian order, Bits bit tests, Float f32, Text and
--                      Splits strings, Format and Net texts for people,
--                      ParseFloat decimal numbers, Rounding the order of f32
--   Serdes             bjnp/src/serdes.rs: the traits, the errors and their offsets, the macros for
--                      enums with a wire value. Error has the errors, Field the macros, Traits the
--                      traits, Raw the blanket implementations for packed structs
--   Header             bjnp/src/header.rs: the sixteen bytes; Types the two enums, Wire the header
--   Packet             bjnp/src/packet.rs: Builder writes packets, Parse reads them
--   Poll.Command       bjnp/src/poll/command.rs: the four commands and CommandBuilder
--   Poll.Host          bjnp/src/poll/command.rs: the host name, Host::new and Host::into_buf
--   Poll.Response      bjnp/src/poll/response.rs: Interrupt and Response
--   Channel            src/channel.rs: Wire has send and recv over a socket, Sockets Channel::new
--   Listener           src/poll.rs and src/utils.rs: the state machine of `listen`; Launch has the
--                      environment of the command, Handlers the handlers and the rounds, Listen
--                      the whole
--   Scan               src/scan.rs: Broadcast has the task of an interface, Decode what it makes of
--                      a datagram, Inquire the conversation with a scanner, Sort the order of the
--                      entries, Select the loop over answers, ended tasks and the deadline
--   Main               src/main.rs: Args has the command line and what main starts, Program the
--                      proofs about the whole, from the command line to the rounds
--   Identity           bjnp/src/identity.rs: Response; Rust.Text has the validation of UTF-8
--   Discover           bjnp/src/discover.rs: the addresses and Response
--
-- The implementations of Display are in the modules Shown of their parts; bjnp/src/lib.rs has the
-- macro write_nested!, which is in Serdes.Shown. A text is the list of its characters.
--
-- Functions of the source keep their names: PacketHeaderOnly::parse is Packet.Parse.parse,
-- `TryFrom<&RawHeader> for Header` is header_try_from, `Serialize for Command` is
-- command_serialize. The traits are records of operations that are taken as instance arguments; a
-- type with both directions fills the record IsCodec, and Packet is generic in it.
--
-- Bytes are numbers, and every theorem that needs them below 256 says so. A result is ok, err or
-- panic, and an unwrap or a slice out of range is a panic. Words are written with their wrap-
-- around. Host::new has two loops: the first is structural in the characters; the second runs on
-- fuel 5, which is enough since the overflowing character and three more free the three units.
--
-- Methods on `&mut self` that return a Result are functions from the object to a result and the
-- object as they leave it, also on an error (Rust.Run). send and recv begin with
-- `peer_addr().unwrap()`, a panic where the network does not name a peer (Channel.HasPeer): on
-- Linux a UDP socket that was connected to port 0 has none. The outside is a record of answers to
-- the events so far: the socket (Channel.Network), the clock and the start of a program
-- (Listener.Machine), the kernel's sockets (Channel.Kernel), the terminal (Scan.Terminal). The
-- timeout that a caller wraps around a call is an argument of the call. The loop of listen never
-- ends, so it is modelled by its first n rounds. So is the loop of broadcast_scan. The loop of scan
-- runs over any list of events, since select! picks any that is ready; that the answers among them
-- were delivered by the tasks of the interfaces is the hypothesis Streamed (Scan.Sources); its
-- deadline is the clock and the waiting time in seconds, whose sum panics from 2 ^ 63 on
-- (Scan.Select.instant_add); an inquiry has no timeout, and its limit is the time up to the end of
-- the scan. The factor of the back off is an f32, and its arithmetic is exact (Rust.Float), with
-- fuel 600 for the digits of a number, which has fewer than 400. A number below 2 ^ 64 is written
-- with fuel for its twenty decimal or sixteen hexadecimal digits (Rust.Format).
--
-- Parameters: the crate `time` (Poll.Command.Time), with what its documentation says of a date
-- with a four-digit year as the hypothesis HasText; what clap finds on the command line, and what
-- the system answers to the resolver and to gethostname (Main.Args); the styles of owo_colors
-- (Scan.Terminal).
--
-- Not modelled: logging and the set-up of the runtime, which change no state of the program; the
-- runtime tokio itself, whose tasks are sequences of steps; of the StreamMap of src/scan.rs only
-- that an answer has the name and the address of its interface; accessors, which are the fields
-- of the records; the conversions from Infallible, of which there is no value.
mod Prelude
pub mod Rust
pub mod Serdes
pub mod Header
pub mod Packet
pub mod Poll
pub mod Discover
pub mod Identity
pub mod Channel
pub mod Listener
pub mod Scan
pub mod Main
