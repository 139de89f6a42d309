-- ===== src/Lib.antt =====
-- The browser client of NatsUI, a control plane for NATS: what it keeps, and how messages of the
-- backend reach the views.
--
-- The parts and how they interact. One WebSocket client (frontend/src/lib/ws.ts) receives frames of
-- events from the backend and calls the callbacks that are subscribed. The bridge
-- (frontend/src/hooks/useWebSocket.ts) subscribes one callback for each type of event: it writes to
-- the two Zustand stores (frontend/src/store/index.ts), tailed messages through a buffer that an
-- animation frame commits. The publisher (frontend/src/components/publisher/MessagePublisher.tsx)
-- substitutes placeholders in subjects and payloads, and sends messages through the REST client
-- (frontend/src/lib/api.ts), which ends the session in the store where the backend answers 401. The
-- health panel and the message browser read what the same client fetches, and write to the view
-- state of the store. The shell (frontend/src/App.tsx, frontend/src/components/layout) shows the login, the
-- setup or the views from the store, and the other views fetch and change what they manage through
-- the same client.
--
-- The files:
--   Prelude     lists, texts and dictionaries over the native numbers; lemmas that the parts share
--   Types       the records and enumerations of frontend/src/types/index.ts
--   Slices      cutting a list at a position
--   Socket      `NatsUIWebSocket`; Socket/Listeners is its callbacks and frames
--   Store       `useUIStore` (Ui), `useDataStore` (Data), the state of the views (Views), and
--               frontend/src/lib/auth.ts
--   Bridge      `useWebSocketBridge`, `useTail` and `useTailSubject`
--   Publisher   the message publisher: Placeholders, Tabs, Fields, Templates and Send
--   Api         frontend/src/lib/api.ts: the endpoints, and what a response does
--   Format      frontend/src/lib/format.ts
--   Health      frontend/src/components/health/HealthPanel.tsx: alerts
--   Browser     frontend/src/components/tail/MessageBrowser.tsx: paging
--   Tail        frontend/src/components/tail/MessageTail.tsx: filter, mode, sum of sizes
--   Dlq         frontend/src/components/dlq/DeadLetterQueue.tsx: filter and counts
--   Replay      frontend/src/components/replay/ReplayStudio.tsx: starting and stopping replays
--   Shell       frontend/src/App.tsx, frontend/src/components/layout and the forms of
--               frontend/src/components/auth: screens, navigation, connecting
--   Kv          frontend/src/components/kv/KVManager.tsx: the browser of key-value buckets
--   Objects     frontend/src/components/objects/ObjectStore.tsx: the browser of object buckets
--   Streams     frontend/src/components/streams/StreamExplorer.tsx: the streams and their forms
--   Export      frontend/src/components/export/ConfigExport.tsx: configurations as code
--   Inspector   frontend/src/components/consumers/ConsumerInspector.tsx: the selection
--   Lab         frontend/src/components/debug/ConsumerLab.tsx: answering messages one by one
--   Console     frontend/src/components/request/RequestReplyConsole.tsx: requests and replies
--   Backup      frontend/src/components/backup/StreamBackupRestore.tsx: files of streams
--   Topology    frontend/src/components/cluster/ClusterTopology.tsx: gateways by remote cluster
--   Payload     frontend/src/components/tail/PayloadViewer.tsx: the dump of bytes
--   Widgets     the stepper of frontend/src/components/ui/index.tsx
--   NatsAuth    frontend/src/components/auth/NatsAuthFields.tsx: credentials of a connection
-- A method or an action is a function from the state to the next one, together with the calls of the
-- browser that it makes where it makes any. Names are those of the source in snake case: `_onOpen`
-- is `on_open`, `batchPushTailMessages` is `batch_push_tail_messages`.
--
-- Conventions. JavaScript numbers that count are natural numbers, and limits that may be -1 are
-- integers; the delay of the WebSocket counts
-- 1/32 ms, so that each of its values below the maximum is whole. A `Record` or a `Map` is a list of
-- pairs in the order of insertion. A text is a sequence of characters. `JSON.parse`, the browser,
-- the clock and random numbers are parameters. Reading a text into pieces goes by fuel, one round
-- for each character, which is enough since every round takes at least one.
--
-- Not modelled: the Go backend, JSX and styles, three-dimensional scenes and animations, floating
-- point, `console` output, and callbacks that subscribe or unsubscribe during a dispatch.
pub mod Api
pub mod Backup
pub mod Bridge
pub mod Browser
pub mod Console
pub mod Dlq
pub mod Export
pub mod Format
pub mod Health
pub mod Inspector
pub mod Kv
pub mod Lab
pub mod NatsAuth
pub mod Objects
pub mod Payload
pub mod Prelude
pub mod Publisher
pub mod Replay
pub mod Shell
pub mod Slices
pub mod Socket
pub mod Store
pub mod Streams
pub mod Tail
pub mod Topology
pub mod Types
pub mod Widgets
