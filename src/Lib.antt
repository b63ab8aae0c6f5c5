-- ===== src/Lib.antt =====
-- Family Messenger (E2E): the web client.
--
-- An end-to-end encrypted messenger. The server stores envelopes in numbered order for each
-- conversation and sees no plaintext; the client under web/src seals and signs what it sends, and
-- verifies, decrypts and files what it receives. The crypto layer turns payloads into envelopes
-- and back. The sync engine follows the server: it takes over conversations and members, pins the
-- keys of every account on first use, fetches the entries that are missing, and applies each to
-- the local database and to the signals that the screen draws. The messaging module seals, signs
-- and sends, and lets the user confirm changed keys.
--
-- What models what:
--   Base         strings, lists, maps in insertion order, errors as values, sorting
--   Crypto       web/src/crypto: Bytes (concat, equal, hex, base64), Ids (UUIDs), Primitives (the
--                wrappers over @noble and hash-wasm), Seal (sealed keys), Envelope (encryptWith,
--                verifyEnvelope, parse, decrypt), Files, Fingerprint and
--                Account (key bundles, derived keys, password change)
--   Model        Payload (web/src/api/types.ts), Database (web/src/store/db.ts), Client and Views
--                (web/src/state/model.ts and what else an action reads or leaves behind), Task (an
--                asynchronous function as an action on the client that may throw)
--   Sync         web/src/state/sync.ts: Contacts (observeKeys, applyRoster), Conversations
--                (upsertFromServer, refreshConversationInline), Previews (previewOf, applyEdit,
--                setMessageBody, removeLocalMessage, advanceSilently, effectiveRetention), Stored
--                (applyStored, maybeNotify), Incoming (handleIncoming), Backfill (backfill,
--                onLiveMessage, refreshConversation), Events (onEvent, fullSync, purgeExpired,
--                loadAllHistory, loadLocalState), Steps (what may happen to a running client)
--   Sync/Kept    an interface for invariants of contacts and conversations, the proof that every
--                operation keeps what the interface's laws keep, and its instances; Complete,
--                Authentic, Edited, Removed and Purged hold the other theorems on the sync engine
--   Messaging    web/src/state/messaging.ts: Recipients (sealingMembers, recipientsFor), Send
--                (sendPayload), Edit (editText, deleteMessage), Trust (acceptNewKeys, markRead,
--                setRetention), Groups (createDirect to renameGroup); Sealed and Rollback hold its
--                theorems
--   Calls        web/src/state/calls.ts: State (the signal and the module's variables), Engine
--                (the signals of the peer and of our own devices, endCall), Lifecycle (startCall,
--                acceptCall, hangup, the timers, camera and screen; what follows an await is an
--                operation of its own), Steps (all of these in any order); Phases, Moves and
--                Progress hold its theorem
--   Voice        web/src/state/voice.ts: State, Rooms (the lists of participants), Mesh (connections,
--                maybeConnect, offers and answers), Channel (joinVoice, leaveVoice, the heartbeat,
--                microphone, camera, screen), Signals (handleVoiceSignal), Steps (all of these in any
--                order); Frame, Quiet (with Media: what leaving stops), Orderly, Reconnect, Glare,
--                Listed and Left hold its theorems
--   Ws           web/src/api/ws.ts: Connection (the class WsClient and its callbacks), Steps (all of
--                them in any order); Alive and Handlers hold its theorems
--   Session      web/src/state/session.ts: Credentials (what registration, login and password change
--                compute and ask), App (establish, restoreSession, logout, refreshMe, and startSync
--                and stopSync over the client and its socket); Unlocked and Left hold its theorems
--   Search       web/src/state/search.ts: Matching (matchChats, matchMessages, matchPeople, highlight),
--                Running (run before and after its await, what the directory's answer writes in
--                between, reset, and all of these in any order); Latest holds its theorem
--   Attachments  web/src/state/attachments.ts: sendFile, and Opened (fileUrl) with its theorem
--   Invites      web/src/state/invite.ts; Characters and Parsed hold its theorem
--   ChatPrefs    web/src/state/chatPrefs.ts
--   Examples     a toy library, a client and a server for concrete runs
--
-- How state and time are modelled. All signals and the database are one record, Client. The sync
-- engine serialises its work on a conversation with a lock, so one callback is one step from a
-- client to the next. What runs outside the lock (taking over conversations, events, purges) is
-- one step as well: another callback in the middle of it is not modelled. The database and the
-- signals that a callback writes in between are written in the source's order. Requests are
-- answered by the World, whose answers may differ at each request: they are indexed by the number
-- of requests made so far, and nothing is assumed of them unless a theorem says so. Requests whose
-- answer is not awaited, notifications, and signals for calls and voice rooms are recorded as
-- effects. The voice module and the WebSocket client are records of their own, and their callbacks
-- come in any order. Numbers of the source are natural numbers; a subtraction that could go below
-- zero is guarded there or compares the same when it stops at zero.
--
-- Fuel. The loop of backfill runs on fuel, one unit for each request; an attempt that runs out
-- ends with an error of its own. For a server that pages through its history, k requests are
-- enough for 200 k missing entries.
--
-- Not modelled. The primitives of @noble and hash-wasm are fields of the record Library, with the
-- laws that their documentation states in IsStandard. JSON and UTF-8, translations, random bytes,
-- the clock and the coding of a component of an address are parameters. Of a voice connection the
-- transceivers are two slots that are there or not, and of a call's connection only its number,
-- whether it has a remote description and its candidates are kept. The field reply of a text, which
-- the client never reads, is left out, as are the text of an error that is only shown and the
-- thumbnails of pictures. The requests of web/src/api/http.ts are the answers that the actions get,
-- and themes (web/src/state/appearance.ts) and translations (web/src/i18n) only show. The user
-- interface (web/src/ui), the mobile application (app), the server (internal, cmd) and the Go
-- library (pkg/e2e) are not part of this development.
pub mod Attachments
pub mod Invites
pub mod Base
pub mod Calls
pub mod ChatPrefs
pub mod Crypto
pub mod Examples
pub mod Messaging
pub mod Model
pub mod Search
pub mod Session
pub mod Sync
pub mod Voice
pub mod Ws
