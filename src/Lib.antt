-- ===== src/Lib.antt =====
-- Verification of the mini-control server (server/), which rents out virtual machines on Mac minis.
--
-- Members log in through the browser, claim a workstation (a VM in a slot of a worker's pool), visit
-- it, and say whether it shall run, stop or go. Workers, agents on the Macs, poll for the states that
-- their workstations shall have and report the states that these have. The server keeps all of this
-- in Postgres, and pairs the WebSockets of browsers and workers into proxy sessions in memory.
--
-- The parts, each with its files:
--   Model         server/internal/model: Worker, Workstation, Member and the enums.
--   Db            the tables and the errors of server/internal/db, and transactions as functions from
--                 tables to a result and tables. An error carries no tables: it is the rollback.
--   Slots         selectWorkstationCandidate, firstAvailableSlot and listAllocatedSlots of
--                 server/internal/db/workstations.go. Slots/Least, Slots/Balance and Slots/Preferred
--                 say what they choose, Slots/Allocation that the map of slots is that of the rows.
--   Workstations  the lookups of that file, and a member's visit, which makes the machine run
--                 (EnsureWorkstationRunningByIDForMember, claimExistingWorkstation).
--   Power         a member's wish (UpdateWorkstationDesiredPowerStateByID) and a worker's report
--                 (UpdateWorkstationStatus).
--   Claim         ClaimWorkstation, listSchedulableWorkers, insertWorkstation and the VM's name.
--   Traffic       histories of claims, visits, wishes and reports. The abstract view of the table is
--                 a map from an ID to its row (Traffic/View); each call changes it at one ID.
--   Proxy         server/internal/proxy/session.go: the session manager. Proxy/Close and
--                 Proxy/Invariant are about single calls, Proxy/History about all sequences of calls,
--                 and Proxy/Race about SetConn with a Close between its two locks.
--   Terminal      server/internal/api/rest/terminal_sessions.go: the ring that keeps the latest output
--                 of a terminal session (publishBinary, appendFrameLocked, snapshotFramesAfter).
--                 Terminal/Window and Terminal/Recent are about the frames that it holds.
--   Attach        the same file: Attach, its replay, and the queue of a browser connection. The schedule
--                 of the connection's goroutine and of the output is an argument. Attach/Outcome is about what a
--                 call leaves, Attach/Gapless about what a replay sends, Attach/Ends about its end.
--   TerminalSessions
--                 the same file: the life of a session. TerminalSessions/Events lists what happens to one,
--                 /Kept and /Sound are about sequences of that, /Later and /Expiry about a session that is
--                 left alone, /Input about what reaches the shell, /Closing and /Managed about the steps of
--                 close and what comes between them.
--   BrowserTerminal
--                 server/internal/api/rest/terminal.go: the handler that recovers or opens a terminal session
--                 (BrowserTerminal/Joined), its own WebSocket to the server, and the start of SSH.
--   Relay         server/internal/proxy/relay.go: the frames between client and worker (Relay/Copied).
--   Routes        the table of routes of server/internal/api/rest/handler.go (Routes/Picked).
--   Startup       server/internal/config/config.go, the settings and files that
--                 server/cmd/minicontrol-server/main.go finds, and two handlers of handler.go.
--   WorkerTokens  server/internal/db/worker_auth.go: the tokens of workers, and who is authenticated by
--                 them (WorkerTokens/Issued). SHA-256 is a parameter.
--   Members       server/internal/db/members.go: logins, and what they leave (Members/Upsert).
--   Vms           server/internal/db/postgres.go: UpsertWorker, heartbeats, and the VMs that workers
--                 report.
--   Releases      server/internal/db/releases.go: the table of releases of the worker.
--   Host          server/internal/api/rest/host.go: the host names that requests are matched by.
--   Http          server/internal/api/rest/handler.go: replies, bodies, bearer tokens and numbers in
--                 queries (Http/Tokens).
--   Access        server/internal/api/rest/access.go: the access tokens of the browser. Access/Claims
--                 says which claims are accepted, Access/Keys models the cache of keys, Access/Verified
--                 the check of a whole token, Access/Setup the verifier that the settings make.
--   MyWorkstations
--                 server/internal/api/rest/workstation.go: the members' API over an interface of
--                 database operations. MyWorkstations/Owned is about what replies show,
--                 MyWorkstations/Filled fills the interface with the model of the database.
--   Hostnames     AssignHostname of server/internal/db/postgres.go and GenerateWorkerID of
--                 server/internal/model/worker.go (Hostnames/Fresh).
--   Workers       server/internal/api/rest/workers.go: registration (Workers/Registration who may,
--                 Workers/Registered what it leaves), heartbeats (Workers/Reports), state reports, and
--                 the list of workers (Workers/Listing).
--   ProxySessions server/internal/api/rest/proxy_sessions.go: opening sessions (ProxySessions/Opened),
--                 polling for them, and the checks before a WebSocket joins one.
--   Guards        server/internal/api/rest/auth.go and the guards of host.go and handler.go. Guards/Login
--                 puts the access token and the table of members together.
--   StaticFiles   server/internal/api/rest/static.go: the files of the front end (StaticFiles/Served).
--   ReleaseStore  server/internal/release/store.go: uploads on their own (ReleaseStore/Stored) and two at
--                 once (ReleaseStore/Race).
--   Codesign      server/internal/release/codesign.go: the identity that a binary is signed with. Codesign/Leaf
--                 is about the certificate that counts, Codesign/Signer about the name that is read, and
--                 Codesign/Required puts the check into the upload of a release.
--   ReleaseApi    server/internal/api/rest/releases.go: the handlers over that store (ReleaseApi/Served).
--   Prelude, Text, Strings, Decimal: lists as tables, texts, decimal numbers, and what the source uses of package strings.
--   Examples      the operations on concrete tables, sessions and names.
--
-- How the code is modelled:
--   - A text is the list of its code points. Go compares strings by their UTF-8 bytes, which is the
--     order of the code points. Postgres is taken to sort by the C collation.
--   - A time is a number of nanoseconds, counted from a moment before all of them. The database's
--     now(), the server's time.Now(), the new UUID and the random bytes are arguments.
--   - A table is a list of rows; UPDATE and DELETE work on all rows that a condition selects, and
--     ORDER BY is a stable insertion sort. A constraint or an enum that a statement violates is the
--     error `failure`. A connection that fails is the same error; it is modelled for
--     the members' handlers (outage_store) and for new tokens (Issuing), and nowhere else.
--   - The row locks, and the advisory lock of ClaimWorkstation, make calls on one row and claims run
--     one after the other, so a history is a list of calls.
--   - A negative pool size acts as 0. `best.slot == -1` in the scheduler is `none`. The map that
--     listAllocatedSlots fills holds only entries `true`, so it is a list of slots for each worker.
--   - The name of a VM is cut to 12 code points, where the source cuts bytes; UUIDs are ASCII.
--   - A proxy session that leaves the map stays in the list `gone`, for the handlers that hold a
--     pointer to it. A connection is a number, and `shut` lists those that CloseNow was called on.
--   - container/ring is a list of cells with the pointer at its head. Sequence numbers wrap at 2^64.
--   - unicode.ToLower beyond ASCII and the host of url.Parse are parameters of Host.
--   - A release upload is cut at the points where another may run: its checks, the move of its file
--     with the insertion of its row. Files are a list of paths with contents; filepath.Join and
--     filepath.Rel are parameters, and errors of the disk are not modelled.
--   - The digits that Postgres reads in a host name mac-N are taken to be those of ASCII.
--   - What happens to a terminal session is a list of events, or an endless schedule of them. Each is
--     what the source does in one critical section, one call of closeOnce or one round of a loop; in
--     TerminalSessions/Managed the steps of a call of closeOnce are taken apart. Attach up to its
--     reading is one event: output that arrives meanwhile is in it, and the reader of the attachment
--     that gives way, which may set the idle timer again; a close in the middle of it is not. A timer that ran out may do so again, which has no effect.
--   - Dialing, SSH, net.SplitHostPort, net.JoinHostPort and url.QueryEscape are parameters of
--     BrowserTerminal. A round of the relay is what its four calls come to: a frame, or an error.
--   - path.Clean is written out for paths from the root; the file server of net/http is a reply.
--   - What go-macho, asn1 and x509 read of a binary are parameters, in one record.
--   - Of an access token, base64, JSON, certificates, SHA-256 and the RSA check are parameters.
--   - A handler gives a reply and the state behind it; a message is a constructor, and a panic, which
--     net/http recovers from, is a reply of its own. JSON bodies come decoded, or as not decodable.
-- Each loop goes through a list or the slots of a pool, and the replay of Attach through the rounds of
-- output that come while it runs. The one function on fuel prints a number, with the number as fuel.
--
-- Not modelled: the start and the end of the HTTP server's goroutine. The worker (Swift), the front end
-- (TypeScript) and the installation scripts are in other languages.
pub mod Prelude
pub mod Text
pub mod Model
pub mod Slots
pub mod Db
pub mod Workstations
pub mod Power
pub mod Claim
pub mod Traffic
pub mod Proxy
pub mod Strings
pub mod Host
pub mod Terminal
pub mod TerminalSessions
pub mod Attach
pub mod WorkerTokens
pub mod Members
pub mod Vms
pub mod Releases
pub mod Decimal
pub mod Http
pub mod MyWorkstations
pub mod Hostnames
pub mod Workers
pub mod ProxySessions
pub mod Guards
pub mod StaticFiles
pub mod Routes
pub mod Startup
pub mod Relay
pub mod BrowserTerminal
pub mod Codesign
pub mod ReleaseStore
pub mod ReleaseApi
pub mod Access
mod Examples
