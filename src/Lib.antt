-- ===== src/Lib.antt =====
-- SealHub keeps documents, some of them encrypted, in a git repository and serves them over HTTP.
-- A document is an envelope of metadata and a body (pkg/document); the body of a secret is encrypted
-- under a key ring (pkg/crypto). The store (pkg/store) writes envelopes to a worktree, commits and
-- pushes them, and keeps an index of the documents of the commit that it serves; when the index is
-- refreshed it publishes events to a broker (pkg/changes), to which clients that watch subscribe. The
-- engine (pkg/auth) says who a request comes from and what it may do. The server (pkg/api) puts these
-- together behind HTTP routes. The client (pkg/client) calls them, for the command hub, for the backup
-- of a Pocket ID instance (internal/cli/pocket) and for the operator, which keeps a document in a
-- Secret or a ConfigMap of a cluster.
--
-- The files and the code that they model:
--   Base       shared notation: lists and text over the native numbers (a text is the list of its
--              bytes), Go's results and 64-bit integers, path/filepath, and methods that change a
--              state (Base/Action)
--   Document   pkg/document/envelope.go: ParseEnvelope, Marshal, GitPath, DefaultEncryptForPath
--   Changes    pkg/changes/broker.go: Publish, Subscribe, Unsubscribe, Since. Publish is split where it
--              releases the lock, into record_event and send_all
--   Crypto     pkg/crypto/keyring.go: LoadKeyRing, Encrypt, Decrypt
--   Auth       pkg/auth/auth.go (Auth/Pattern: pathMatch; Auth/Engine: the engine, its loading and
--              Authorize; Auth/Bearer: tokens and the middleware) and pkg/auth/oidc.go (Auth/Oidc)
--   Store      pkg/store/index.go (Store/Index) and pkg/store/gitstore.go (Store/Git: the state and the
--              refresh of the index; Store/Documents: Poll, GetDocument, Apply, Delete;
--              Store/Opening: OpenOrClone). Store/Spec is what the store promises, a map from files to
--              versions, Store/Serving what it serves, and Store/Stable what all methods keep
--   Config     pkg/config/config.go: Load with applyDefaults and validate, CloneURL
--   Backup     internal/cli/pocket/backup_doc.go and paths.go: encodeBackup and decodeBackup
--   Api        pkg/api/server.go (Api/System: providers, tokens and ReloadSystemAuth; Api/Documents: list,
--              get, put and delete; Api/Events: handleChanges; Api/Forwarded: the loop of a stream;
--              Api/Routes: the routes and the handler;
--              Api/Confined, Api/Asks, Api/Stable: lemmas on each handler for the theorems on the whole)
--   Daemon     cmd/hubd/main.go: the start, and the run as steps of requests, ticks of the poll and
--              streams (Daemon/Run)
--   Client     pkg/client/client.go (Client/Calls: Get, List, Apply, Delete, ExchangeIDToken;
--              Client/Watch: Watch; Client/Served: the client against the server)
--   Hub        cmd/hub: main.go and pocket.go (Hub/Command: main and its commands), token.go (Hub/Token:
--              runTokenCreate), and internal/cli/auth/credentials.go (Hub/Credentials)
--   Pocket     internal/cli/pocket: compose.go, sqlite.go and the options (Pocket/Machine), Backup and
--              Restore of pocket.go (Pocket/Transfer)
--   Operator   operator/internal/controller: hubpull_controller.go (Operator/Reconcile: Reconcile) and
--              watch_manager.go (Operator/Watches: Sync and the table of streams)
--   Base/Fields is the format in which the runs write records as text
-- The modules below each of these hold the proofs, under the name of what they are about, and a
-- module Tests with runs at concrete inputs.
--
-- State and errors. A method that changes a state takes it and returns it beside its result, also
-- beside an error; `none` stands for a panic. Code outside of this repository is a parameter:
-- yaml.v3, bcrypt, golang-jwt, AES-GCM and base64, the file system, the git command and go-git.
-- What is relied on of them is a record of hypotheses (IsCodec, IsSound, IsAuthenticated,
-- IsWorktree, IsFaithful, IsFramed, IsAppendOnly, IsHash, IsTokensCodec, IsCredCodec, IsDisk,
-- Reaches), each with an instance among the runs (the modules Tests, and
-- Auth/ClearTokens).
--
-- Bounds. Integers are the 64-bit patterns of Go's int and int64 and wrap around. Every loop is
-- over a list, but the loop over the frames of the client's buffer runs on fuel: one more than the
-- length of the buffer, which is enough since each frame shortens it (Client/Drained). The order
-- in which Go visits a map is the order of a list, which is left open. Locks are modelled by
-- running the locked part as a whole; the count of a broker's revision, just before its lock, and
-- the Since and Subscribe of a stream's start are each one step with it, and a run of hubd has no
-- end of a stream between the release of the broker's lock and the sends (Changes/Interleaving
-- has). A handler is run as a whole; of the stream of events, what is sent at its start and the
-- loop over what its channel gives are two definitions. A body that is read is the list of what
-- each Read gives.
--
-- Not modelled. White space is trimmed of the ASCII characters only. readBlobAtCommit, which nothing
-- calls, the layout of JSON on the terminal, the listening and shutdown of hubd, the types of the
-- operator with their generated copies and its start are left out; what runs other programs or waits
-- on the network stays a parameter, as are net/http, net/url, encoding/json, flag and strconv. A panic
-- ends the model's run; net/http would go on with other requests.
pub mod Base
pub mod Document
pub mod Changes
pub mod Auth
pub mod Crypto
pub mod Daemon
pub mod Store
pub mod Config
pub mod Backup
pub mod Api
pub mod Client
pub mod Hub
pub mod Pocket
pub mod Operator
