-- ===== src/Lib.antt =====
-- Dumb Ways to Die is a coding coach: a VS Code extension (packages/extension) sends a question with
-- context from the editor, through a loopback relay (packages/relay), to whatever answers, a chat tab in
-- a browser (packages/browser-adapter) or a test provider, and the answer and the tool calls of the
-- chat come back the same way. packages/protocol has the messages that all of them exchange.
--
-- The parts that are modelled, and their files:
--   Protocol        packages/protocol/src: the context items of context.ts (Protocol/Context) and the
--                   messages of wire.ts, messages.ts and tools.ts (Protocol/Wire).
--   Diff            packages/extension/src/context/diff.ts. Diff has the table and the walk of
--                   `operations`, Diff/Hunks has `diffLines` and `renderUnifiedDiff`; Diff/Lcs and
--                   Diff/Minimal are about the length of the script, and Diff/Patch describes a reader
--                   of a unified diff.
--   Ledger          packages/extension/src/context/ledger.ts: `startSession`, `plan`, `remember`,
--                   `coverageOf`. Ledger/Reader describes the copies that a reader of the planned items
--                   holds, and Ledger/Plan compares them with what the ledger records.
--   Permissions     packages/extension/src/permissions/PermissionManager.ts: the policies and `resolve`,
--                   split at the prompt into `decide` and `conclude`; Permissions/Log has runs in which
--                   several prompts are open at once.
--   Session         packages/extension/src/session/SessionStore.ts and persistence.ts: the conversation,
--                   its storage, and each operation of the store.
--   Secrets         packages/extension/src/security/secretFilter.ts: which paths hold secrets, by name.
--                   Secrets/Paths is about folders and separators.
--   Context         packages/extension/src/context/ContextEngine.ts: what of the editor a request carries.
--                   Context/Budget is about its size, Context/Withheld about what is kept back;
--                   Protocol/Size has the size of an item. Context/Markdown is serialize.ts, the text of
--                   a request, and Context/Markdown/Fence describes a reader of its fenced blocks.
--   Search          packages/extension/src/workspace/search.ts: `findMatchesInText` and the preview of a
--                   line; Search/Matches is about what is found.
--   Panel           packages/extension/src/state/ExtensionState.ts: what the coach panel shows, and the
--                   changes of it; Panel/Choice is about staged attachments and the chosen chat.
--   Coach           packages/extension/src/coach/CoachController.ts: the request in flight, its timeout,
--                   replies, tool calls and cancellation, over the store of Session.
--   Tools           packages/extension/src/tools/ToolRegistry.ts: `execute` in three steps, its cache of
--                   results (Tools/Cache), registration and capabilities (Tools/Registry).
--   Relay           packages/relay/src: credentials of auth.ts (Relay/Auth), and the hub of hub.ts: its
--                   state and sockets (Relay/Hub), `route` (Relay/Hub/Route), the life of a connection
--                   (Relay/Hub/Session) and what the HTTP server asks (Relay/Hub/Service).
--                   Relay/Origin has the tests of auth.ts on the headers of an HTTP request.
--                   Relay/Client is the client half, client.ts: Relay/Client/Link has the states that its
--                   user may rely on, Relay/Client/Retries, Lifetime and Final are about reconnecting
--                   and the end of a connection.
--                   Relay/Hub/Events puts them together as a step relation, and Relay/Hub/Asking has the
--                   questions of HTTP callers.
--   Transport       packages/extension/src/transport/RelayCoachProvider.ts, over Relay/Client: the state
--                   and what arrives (Transport), the connection (Transport/Relayed), chats and models to
--                   open (Transport/Openings), requests (Transport/Requests). Transport/Events has its
--                   runs, and Transport/Settled follows the promises of `openSurface`.
--   Media           packages/extension/src/media/MediaRegistry.ts: registration, removal and clean-up of
--                   attached files, and the index on disk. Media/Index is about ids, Media/Held about
--                   registry and index, Media/Reload about a new window, Media/Register about what a
--                   registration gives.
--   Furniture       packages/browser-adapter/src/surfaces/cleanReply.ts: a reply without what the page
--                   draws around it; Furniture/Echo is about a reply that is there
--                   twice, Furniture/Kept about what is left out.
--   Quiescence      packages/browser-adapter/src/surfaces/quiescence.ts: when a streaming reply is over.
--                   Quiescence/Accepted is about what is accepted, and about the loop that counts.
-- Prelude has what they share: tests on numbers, equality tests, lists, maps, texts and integers.
--
-- A class is a record of its fields, and a method is a function on that record. A callback that waits
-- (a timer, a prompt, a promise) is an operation of its own, which may come at any time, so that an
-- interleaving is a sequence of operations. Clocks and new ids are arguments. A text is the list of its
-- UTF-16 code units, as JavaScript has it, and a `Map` is an association list in insertion order.
-- Line counts, lengths and times are natural numbers: none of the code comes near 2^53.
--
-- Parameters: SHA-256 and HMAC of node:crypto are any functions, and so is `toLowerCase` on a
-- character that is not ASCII. The functions of node:path are a record of `Media`. Transport/Requests takes `buildChatPrimer`
-- and `renderRequest` as functions. Ledger.Plan.read_file-current asks that
-- the digest tells the file's texts apart.
--
-- Two functions have fuel: `decimal`, whose fuel is the number and one more, while each round takes a
-- digit, and `count_closed` of Quiescence, whose fuel is the length of the text, while each round goes on
-- with a shorter one. The other loops are by structural recursion.
--
-- In Media a method is one step from its call to its end, so that calls which overlap are left out.
--
-- Not modelled: log output, the id and time of an envelope, timers that only call back, and the
-- parse of JSON into a message (packages/protocol/src/validate.ts and `parseWireMessage`), which
-- Relay/Hub/Session takes as the cases of a `Frame`. A regular expression is a matcher of its own, and the globs
-- of search.ts, which become regular expressions, are left out. The add-on, the drivers of the chat
-- pages, the walk of the workspace, the shell, the launchers and the views are not modelled: most of it
-- is input and output through an interface of VS Code, node or the browser.
mod Prelude
pub mod Protocol
pub mod Diff
pub mod Furniture
pub mod Ledger
pub mod Permissions
pub mod Session
pub mod Secrets
pub mod Context
pub mod Search
pub mod Media
pub mod Panel
pub mod Quiescence
pub mod Coach
pub mod Tools
pub mod Relay
pub mod Transport
