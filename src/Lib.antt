-- ===== src/Lib.antt =====
-- A model of the parts of PortaPixel that decide: what plays now, who may log in, what a device
-- remembers, which release it installs, what a playlist may name, which screens its server lets in
-- and what it sends them.
--
-- Config/Clock.antt models the clock format HH:MM of internal/config/validate.go (ParseClock), and
-- Config.antt the tables of internal/config/config.go that the scheduler reads.
-- Schedule.antt models internal/device/scheduler/scheduler.go. The state is the record Scheduler of
-- that file; a channel of capacity one is an Option. Each method returns the new state, its answer
-- and the lines of the ops log. The readings of the configuration, of the wall clock and of Synced
-- are arguments, so the time zone database is outside the model. One lock holds each evaluation in
-- the code, so an evaluation is one step. The rules of the fleet manifest and of the configuration
-- have the same fields and share one record.
-- Guard/Limiter.antt models internal/httpguard/limiter.go. A map from addresses is an association
-- list (Prelude/Assoc.antt), a time a number of nanoseconds, and each operation reads the clock
-- once. The key of an address is an argument: parsing IP addresses is not modelled.
-- Guard/Sessions.antt models internal/httpguard/sessions.go in the same way; a new token is an
-- argument, and the cookie that is written is not modelled.
-- Manifest/Name.antt models the display name of internal/manifest/manifest.go (CleanName).
-- Device/Identity.antt models internal/device/identity/state.go: the memory of commands and reboots
-- and what a boot does with the hardware identity (Resolve). The file is a value that a write
-- replaces or leaves, as the write is atomic.
-- Device/Commands.antt models internal/device/syncer/commands.go: the commands of the fleet server,
-- with the memory of Device/Identity.antt and the names of Manifest/Name.antt. What the code asks of
-- the world is a list of events, and whether a call succeeds is a function of all events before it.
-- Device/Syncer.antt models the state, the waits and the faults of internal/device/syncer/syncer.go,
-- Device/Syncer/Enrolling.antt and Device/Syncer/Ending.antt
-- internal/device/syncer/pair.go, and Device/Syncer/Rounds.antt the passes
-- (Once, and pollRound of internal/device/syncer/poll.go), with events and answers as for the
-- commands. A flow and a pass are one step each; CheckServerURL and applyManifest are answers.
-- Updater/Version.antt models internal/updater/version.go and internal/version/version.go: the order
-- of release names and the names that become directories, over the code points of a name.
-- Updater/Install.antt models the release root of internal/updater/apply.go (install, prune): its
-- releases, the two links and the pending marker. Each call is one step on the disk that may fail,
-- and the disks between the calls are what a power cut can leave. Updater/Apply.antt models Apply
-- with its refusals; what the download, the signature and the staged binary say are answers that it
-- takes. The staging directory and the files inside a release are not modelled.
-- Updater/Offers.antt models internal/updater/check.go: what a source answers and what is offered;
-- fleet.ResolveURL is an argument. Updater/Loop.antt models internal/updater/loop.go with Sideload of
-- internal/updater/sideload.go: one pass of the loop is one step. No file of the updater models the
-- lines of the ops log.
-- Playlist.antt models internal/playlist: the validation of a playlist and of its items
-- (playlist.go), what an item is (kind.go) and its media type (mime.go). The TOML decoder in front of
-- it is a library. Playlist/Paths.antt has the rules of a file reference, with path.Clean for a
-- relative path, and Playlist/Quote.antt the strings that render.go writes, with a reader after the
-- TOML specification; the lines of the written file are not modelled. Texts are code points here.
-- Store.antt models the names of internal/store/store.go; the file hash is I/O.
-- Server holds the database of the server. A table is the list of its rows (Server/Table.antt has
-- the statements), and a transaction one step that an error takes back as a whole.
-- Server/Commands.antt models the queue of commands of internal/server/db/commands.go and the
-- acknowledgements of internal/server/db/heartbeat.go; the commands that it sends are those of
-- Device/Commands.antt. Server/Rows.antt has the tables of enrolment, with the columns that it
-- touches. Server/Enroll.antt models the statements of internal/server/db/enroll.go and
-- Server/Enroll/Rules.antt the transaction Enroll; Server/Admin.antt models what the admin does
-- (ApprovePending, RejectPending, internal/server/db/tokens.go, the moves and deletions of
-- internal/server/db/devices.go), and Server/Calls.antt any sequence of these calls. The UNIQUE and
-- foreign keys that a statement can break are refusals. SHA-256 is an argument, and what the random
-- source gives comes with a request. A group is never made or deleted here.
-- Server/Heartbeat.antt models internal/server/db/heartbeat.go: the identity rules and the queue.
--
-- Recursion is structural throughout, with fuel in two places: the tries of freeCode, which the source
-- bounds by 20 as well, and the loop of keepSafe, which takes a character away in each turn and gets
-- as many turns as there are characters.
mod Prelude
pub mod Config
pub mod Schedule
pub mod Guard
pub mod Manifest
pub mod Playlist
pub mod Store
pub mod Device
pub mod Updater
pub mod Server
