-- ===== src/Lib.antt =====
-- kvm-switcher: a model of the Go server, which gives browsers the consoles of servers through
-- their management boards, and what it guarantees.
--
-- The parts and how they interact. A request passes the login check (Oidc), which gives a user whose
-- roles decide about servers (Oidc.Roles, over the role mappings that Config has validated). The
-- session handlers (Api) create a session in a store (Store, by the interface in Session), start it
-- on the server's board beside the handlers, and clean it up when it is idle. The viewers of a
-- session are kept in a registry of which one has control (Viewers); only that viewer's input is
-- passed on to the board (Ikvm.Input, Vnc), as packets of the board's protocol (Ikvm.Protocol, Ikvm.Hid),
-- while the reading loop takes the board's messages and puts video frames together (Ikvm.Client), which
-- a bridge decodes for all viewers (Ikvm.Bridge, Ikvm.Decoder). A connection of a viewer registers it
-- and finds or makes the bridge (Api.Connect, Api.Wss). The server also keeps web sessions on the
-- boards (Api.Ipmi), polls their status, where a board that keeps failing is left alone for a while
-- (Status, CircuitBreaker), and has a library of images that boards can mount (Iso).
--
-- Files and what they model, paths from the repository's root:
--   Prelude: tests, lists, maps and integers that the parts share. A Go map is an association list
--     with each key once; a Go int is an integer, a byte or a word a natural number in its range.
--   Models, Config: internal/models/models.go and internal/config/config.go (validate, setDefaults,
--     applyEnvOverrides, Load). The file, the YAML parser and the environment are arguments.
--   CircuitBreaker: internal/circuitbreaker/breaker.go, with the clock as an argument.
--   Viewers: internal/api/viewers.go; the timer of a request for control is part of the state, and
--     its firing is a call like the others.
--   Oidc: internal/oidc/oidc.go (HandleCallback, HandleLogout, HandleMe, Middleware,
--     UserCanAccessServer). The provider's answers and the random names are arguments.
--   Session, Store: internal/models/models.go (SessionStore) and internal/store/sessions.go. The SQL
--     table is a map that changes as the statements say, and the database is up or down.
--   Api: internal/api/handlers.go (ListServers, CreateSession, startSession, GetSession,
--     KeepAliveSession, DeleteSession, CleanupStaleBMCCreds, in Api.Viewing the requests for control and
--     in Api.Commands the commands from KVMPowerControl to KVMIPMICommand and the screenshot), the
--     stopping of connections in internal/api/websocket.go, and in Api.Cleanup sessionCleanup of
--     cmd/server/main.go. Api.Connect and Api.Wss are internal/api/websocket.go: HandleKVMWebSocket
--     with the registration of its viewer and ensureIKVMBridge, and the proxies of proxyWSS, of which
--     a session may have had several. Api.Ipmi is ensureBMCSession and
--     CreateIPMISession of internal/api/handlers.go. A handler runs at one
--     moment, from its start to its end; Api.Limits makes steps of them in any order. What a board
--     answers is an argument, one reply for each attempt.
--   Ikvm: internal/ikvm/protocol.go, client.go, hid.go and vnc.go. The connection is the list of the
--     bytes that the board sends; Ikvm.Frames is what a viewer is sent.
--   Ikvm.Bridge: internal/ikvm/bridge.go without the serving of one viewer; each method, tick and frame is
--     a step on the bridge.
--   Ikvm.Decoder: internal/ikvm/decoder.go, decompress.go, bitstream.go and tables.go. A fixed array is a
--     function of its index, the framebuffer is kept by the pixel; Reader has the registers of the
--     bits, Frame the loop over the blocks. BitString, Shifts, Reads and Coded are about the bits, Lengths,
--     Progress, Parsing, Showing and Ends about how far a frame is read, Shape, Restored, Drawing,
--     Undone and TakenBack about the pixels that a frame changes.
--   Iso: internal/api/iso_handlers.go and internal/store/isos.go. The table and the directory are maps by
--     the file's name; a download is a state machine whose goroutine steps between other handlers
--     (Iso.Downloads). Iso.Kept is their invariant. Iso.Media is the virtual media handlers
--     of internal/api/handlers.go, with MountLocalISO in Iso.Media.Local.
--   Status: internal/api/status.go (PollStatuses, fetchDeviceStatus, the ticks of StartStatusPoller).
--   Vnc: internal/vnc/bridge.go, the bridge to boards that speak VNC themselves: the gating of input and
--     the handshake, with DES as an argument.
--
-- Bounds and fuel. The retries of a board are counted down from the code's limit of three attempts.
-- The reading loop runs on fuel; each message takes at least the eight bytes of its header, so more
-- fuel than bytes is enough. The loop over the blocks of a frame runs on fuel too; each block takes four
-- bits at least, so eight rounds for every word of a whole frame are enough. The wait for the tunnel's response is counted
-- down from the code's 4096 bytes. Everything else is recursion on a list. 16-bit and 32-bit fields
-- are written with their wrap-around.
--
-- Not modelled: the sockets, HTTP and TLS, the pages and requests of the boards, the reverse proxy,
-- the audit log's queries, CORS and rate limits, metrics, and the web client; interleavings within one
-- handler other than those of Api.Connect, Api.Wss and Iso.Downloads, and
-- errors of writing to a connection. The float32 product of a quantizer with its scales is an argument of
-- the decoder, and its panics at an index beyond an array, which the code recovers, do not occur in
-- the model. The times of a session are nanoseconds since an origin, without
-- the limit of 64 bits.
pub mod Prelude
pub mod CircuitBreaker
pub mod Viewers
pub mod Models
pub mod Config
pub mod Oidc
pub mod Session
pub mod Store
pub mod Api
pub mod Ikvm
pub mod Vnc
pub mod Iso
pub mod Status
