-- ===== src/Lib.antt =====
-- IronMan: the logic of the apps of the doorstep pressing service, with the theorems that make it
-- correct.
--
-- The program is three apps over one server. The field app (apps/field) is a rider's day, which must
-- survive hours without a network: every action goes into a queue on the phone and a sync run sends
-- the queue. The customer app (apps/mobile) books an order and shows its progress. The console
-- (apps/web) is the staff's, and has an older queue for riders in the browser. The phone apps send
-- every request through packages/api-client. The server (apps/api) is Python; but for two
-- of its state machines it is the network here, which may answer anything.
--
-- The files:
--   Prelude, with Tests, Lists, Any, Sets and Int under it: Boolean tests, array methods and
--     their lemmas, and whole numbers.
--   Exec: asynchronous code that may throw, as functions of a state (Promise, try and catch).
--   Json: values that the apps pass on unread.
--   Field/Types: the records of apps/field/lib/types.ts.
--   Field/Rules: apps/field/lib/offline/rules.ts; Transitions, Effective, Comparator and Day prove.
--   Field/Store: apps/field/lib/kv.ts and apps/field/lib/offline/store.ts. Each operation is one step,
--     as the store's lock makes it; a key that is unreadable gives the fallback, as kv.get does.
--   Field/Sync: apps/field/lib/offline/sync.ts. Sync holds the environment and the state of a run, in
--     which the rider's own actions arrive before any access to the store, and in which any read of the
--     run may fail; Sync/Steps the steps of
--     sendBatch, Sync/Flush the whole of flush. The other files under it are proofs: Kept, Steady,
--     Settling and Safety about what stays on the phone, Waiting, Drains and Completes about a run that
--     is answered, View about the jobs shown during it.
--   Field/Engine: apps/field/lib/offline/engine.tsx; Queue for taking an action, over the environment
--     and the state of Field/Sync, with other taps between the reads and the write; Passes for syncNow
--     as a state machine whose steps are an indexed type.
--   Field/JobScreen: apps/field/app/job/[id].tsx, the cards that complete a job and report a problem,
--     with apps/field/components/camera.tsx and apps/field/lib/bags.ts; Scanned and Counted prove, both
--     up to the queue of Field/Engine; the job may be refreshed under an open card.
--   Api: packages/api-client/src/index.ts; Requests proves what each answer leads to. Api/Flight is its
--     refreshOnce as a state machine, whose steps are a request that asks for the renewal and a renewal
--     that settles; Shared proves.
--   Api/Session: apps/field/lib/auth-store.ts and apps/field/lib/api.ts, and the same files of
--     apps/mobile; Renewal joins them with the client.
--   Booking: apps/mobile/lib/booking/state.ts, the reducer, and how context.tsx there and
--     apps/mobile/app/book/_layout.tsx start it; Booking/Request, the request of it;
--     Booking/Phone and Booking/Prefs, phone.ts and prefs.ts of apps/mobile/lib; Booking/Placing,
--     placeOrder of apps/mobile/app/book/confirm.tsx, of which Once proves for one visit of the screen.
--   Orders: apps/mobile/lib/order-rules.ts, timeline.ts and status.ts.
--   Web/Permissions: apps/web/lib/permissions.ts.
--   Web/Offline: apps/web/lib/offline/db.ts and apps/web/lib/offline/sync.ts; Queue has an instance of
--     the database for runs.
--   Web/Middleware: apps/web/middleware.ts. Web/Client: apps/web/lib/api/client.ts.
--   Web/FieldActions: a rider's actions in the browser, from apps/web/lib/api/hooks.ts, and in Captures
--     the proofs; Outcomes and Queued prove, the latter together with a flush of Web/Offline.
--   Web/Endpoints, with Operations, Money, Areas and Growth under it: apps/web/lib/api/endpoints.ts.
--   Web/Hooks: the mutations and queries of apps/web/lib/api/hooks.ts, in Orders, Custody, Money,
--     Areas, Growth and Sync; Fresh, Fresh/Money and Fresh/Scans prove.
--   Web/OrderPage: the buttons of apps/web/app/console/(auth)/orders/[id]/page.tsx and the sections of
--     apps/web/components/billing/invoice-section.tsx and custody/custody-section.tsx that depend on a
--     status, with the table of apps/api/ordering/state_machine.py; Moves and Cancelling prove.
--   Web/Bags: apps/web/components/custody/custody-section.tsx, the batch scan of
--     apps/web/app/console/(auth)/production/page.tsx and apps/api/custody/state_machine.py; Conveyor,
--     Scans and Runs prove.
--   Web/Supplies: consumption-rules-editor.tsx and adjust-stock-dialog.tsx of
--     apps/web/components/supplies; Saved proves.
--   Web/Wizard: apps/web/app/book/page.tsx, its state and request; Acts its controls, and
--     Guards and Requests prove.
--   Web/Dates: addDaysIso of apps/web/lib/format.ts, mondayOf and periodRange of
--     apps/web/components/analytics; Numbers and Spans prove.
--   Push: apps/mobile/lib/push.ts and the sign-out of apps/mobile/lib/auth.tsx, over the stored session
--     of Api/Session; Registering, Leaving and Routes prove.
--   A module Tests holds concrete runs of the part that it stands under.
--
-- Names are the source's in another case: flushOfflineQueue is flush_offline_queue. A mutated local
-- object is part of the state or a value passed on, null and undefined are none, and an await is a
-- step of the state. Times, ids and coordinates are texts, but for the
-- times of the camera's reports, which are numbers.
--
-- Loops are recursion on lists. The one with fuel is send_rounds in Field/Sync/Flush, the batches of
-- fifty: its fuel is the number of queued actions, and each round takes at least one of them.
--
-- Web/Dates counts a span day by day, and goes back before the first day of year 0 to no other day.
--
-- Parameters stand for the runtime and the network: storage, IndexedDB's put, fetch, files, the clock, random ids,
-- localeCompare, upper and lower case, numbers from texts and back, the phone system's permissions, the
-- push service, the query library's test of a key against a filter, of which it is taken that it
-- compares the beginning of the key, and the server's answers for a pincode, which are taken to stay
-- the same during a visit. Not modelled: React state that mirrors the store, timers and
-- listeners; Intl's dates; the names of the storage keys, and so the separation of riders on one phone;
-- the order of JSON keys; the dismissal of an issue during a run; when the query library makes a call,
-- tries it again or fetches by itself; the hooks of sign-in, the catalogue, customers, analytics and
-- the team; the rest of the screens.
pub mod Prelude
pub mod Json
pub mod Exec
pub mod Api
pub mod Field
pub mod Booking
pub mod Orders
pub mod Web
pub mod Push
