-- ===== src/Lib.antt =====
-- Clift moves a screenshot or a file from a laptop to a coding agent on another machine. This library
-- models the parts of it that decide something, and proves what makes them correct.
--
-- The parts, by crate, and the modules that model them:
--
-- Universal (crates/clift-core/src): Universal Mode, in which an attachment is sealed, handed to a relay
-- and fetched with a token that the user pastes.
--   Universal/Media, Bundle, Token, Crypto, Settings: the files of universal/. A bundle is a frame of
--   up to twenty entries, each checked against the table of media types; an envelope is a header and
--   a ciphertext; a token is the id at the relay and the key.
--   Universal/Publish: usecase/publish.rs, and usecase/fetch.rs up to the entries that it writes to
--   disk. Both run over `Port.Relay`, the trait of ports.rs; `Port.SingleUse` is what the trait's
--   documentation promises.
-- RelayClient (crates/clift-relay/src/lib.rs): the client of the relay, as functions of an answer.
--   RelayClient/Served puts it in front of Relayd/Server, and shows that the two keep the promises of
--   the port.
-- Relayd (crates/clift-relayd/src): the relay, an in-memory store of ciphertexts behind four HTTP routes.
--   Relayd/RateLimit: ratelimit.rs. `allow` is the method of that name, with the reading of the clock
--   as an argument; `Alone` is the abstract view, one address with a counter of its own.
--   Relayd/Store: store.rs. `Store.put`, `take`, `restore`, `remove`, `sweep`, `usage`; `Op` and
--   `apply` make a call a value, so that a sequence of them is what threads do under the lock.
--   Relayd/Server: server.rs. `handle` is `Relay::handle`; a request carries what was read of it and
--   whether the answer reaches the client, and the answer is returned. A request is one step: the calls
--   of the store that a delivery makes one after another are not interleaved with those of other
--   requests (Relayd/Store is, call by call).
-- Domain (crates/clift-core/src/domain): safe_name.rs, the file names that a bundle carries and (in
--   BatchNames) how those of one batch are told apart, over the lower case of Unicode; limits.rs,
--   the ceilings of a batch; remote_path.rs, the paths on the remote host and which of them lie below
--   a root. Each type is the text or the numbers that it holds.
--   BatchId is the identifier of a batch, made of random bytes that are an argument.
-- Calendar (crates/clift-core/src/calendar.rs): dates in UTC over the signed integers of Base/Int.
-- Format/Instruction (crates/clift-core/src/format/instruction.rs): the text that names the files of a
--   batch; Reader reads it the way a shell reads words.
-- Remote: the traits `RemoteFs` and `RemoteUpload` of crates/clift-core/src/ports.rs as a record of calls, each
--   a function from a state of the host to a state and an answer. What the SSH side does to a
--   host is stated of any such record.
-- Staging (crates/clift-core/src/staging): Inbox and Locate are inbox.rs, the choice of the directory and the
--   questions to the host; Batch is batch.rs, Atomic is atomic.rs, the upload of all files or none;
--   Clean is clean.rs, the removal of old batches.
-- Send (crates/clift-core/src/usecase/send.rs): `perform` is the function of that name, from the limits to the text;
--   `tidy_after` is the sweep that may follow.
-- Sftp (crates/clift-transport/src): Upload is upload.rs, over a session that is a record of calls; Errors is errmap.rs;
--   Wire is wire.rs, the packets, with the requests in Wire/Build and the replies in Wire. Served and
--   Asked are the other side of the connection, written after the protocol's draft.
-- Config/Units (crates/clift-core/src/config/units.rs): the parsers of sizes and durations.
-- Error: error.rs and exit.rs of crates/clift-core/src, without the texts.
--
-- How the code is rendered. Numbers are unbounded naturals; where the code wraps, saturates or
-- checks, that is written out; `usize` has 64 bits. A `str` is the list of its characters (Base/Utf8 gives
-- its bytes and reads them back), a `HashMap` is an association list (Base/Dict), `Instant` and
-- `Duration` are nanoseconds, and so is a `SystemTime`, which may be before the epoch. A reader over bytes is a function from the bytes to a result and the
-- bytes that are left (Base/Reader). A reading of the clock, random bytes and what an outside library
-- does are arguments. Three libraries are interfaces: Base64, of which Base64/Engine is a function
-- that meets it; `Aead` in Universal/Crypto, whose law is that what was encrypted decrypts and is
-- sixteen bytes longer; and the printer of JSON documents in RelayClient/Served, of which nothing is
-- asked. Recursion is structural, and the search for a boundary of characters walks down from its
-- limit. Fuel is used for the digits of a number (Base/Decimal): twenty, as many as a number below
-- 2 ^ 64 can have; and for the counter of BatchNames: as many rounds as the code's 32-bit counter has
-- before it overflows; and for the extension pairs of a greeting: as many rounds as there are bytes.
--
-- Not modelled: processes, terminals, the operating systems' clipboards and hotkeys, and sockets; the
-- ciphers; the rest of the SSH side (the session and its processes, configuration, setup); the relay for
-- Cloudflare; the text of messages, except where a caller sees it.
pub mod Base
pub mod Base64
pub mod Domain
pub mod Calendar
pub mod Config
pub mod Error
pub mod Format
pub mod RelayClient
pub mod Relayd
pub mod Remote
pub mod Send
pub mod Sftp
pub mod Staging
pub mod Universal
