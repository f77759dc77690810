-- ===== src/Lib.antt =====
-- Verification of the backend of the SoftLogic smart board (TypeScript, Express, Prisma): the services
-- under src/modules and the shared helpers under src/shared, each as functions on the tables that it
-- reads and writes.
--
-- The program is a set of services over one database. A request reaches a service with the
-- authenticated user; the service checks the user's role and organizations through
-- src/shared/utils/access-control.ts, reads and writes tables, throws an AppError or returns.
-- Modelled are access control, authentication, the AI module, licensing, the releases of the client apps
-- and the core of live sessions:
--
-- - Base: what the parts share. Base.Exec is the type of a service method, a function from the state to
--   a result and a state, where the state comes back beside an error too: what was written before a
--   throw stays written, and `transaction`, which stands for prisma.$transaction, undoes the writes of
--   a body that throws. Base.Failure lists the errors with their HTTP status, Base.Keeps the rules for
--   invariants of methods, Base.Table tables with a primary key, Base.Int the integers that stand for
--   bigint, Base.Text trim and the comparison of texts.
-- - Access (src/shared/utils/access-control.ts): Access.Roles the tests on roles, Access.Directory the
--   tables and plain queries, Access.Managed getManagedOrganizationIds and ensureOrganizationManaged,
--   Access.Canvas the clauses for boards and canvasAccessMetadata. The while loop over the levels of
--   the hierarchy of organizations runs on fuel, two more than there are organizations; each round
--   but the last finds an organization that was not found before, so this is enough.
-- - Ai (src/modules/ai): Ai.Pricing is ai.pricing.ts. Of ai.service.ts, Ai.Store has the tables of
--   accounts and ledger entries, Ai.Accounts the balances (accountAvailable and its kin) and the resolution of
--   accounts (ensure..., resolve..., getManagedAccount), Ai.Credits the transactions (topUp, allocate,
--   setAllocation, reserveTokens, commitUsage, refundReservation,
--   reconcileOverdrawnUsageAccounts), Ai.Attempts the limited attempts at a feature, Ai.Gemini
--   proxyGeminiGenerate. Ai.Json has numbers as doubles and parsed JSON.
-- - AppUpdates (src/modules/app-updates): AppUpdates.Channels is app-update.mapper.ts, AppUpdates the
--   methods checkForUpdate, publishFullRelease and updateRelease.
-- - LiveSessions (src/modules/live-sessions): ensureSessionAccess, ensureHostAccess, startSession,
--   endSession, the codes of sessions and joinByCode. hashCode is a parameter.
-- - Licensing (src/modules/licensing/licensing.service.ts): Licensing.Store has the tables,
--   Licensing.Seats the active subscription, the usage of seats and its warnings, Licensing.Admission
--   assertOrganizationCanLogin, assertCanActivateUserRole and assertSubscriptionSeatCapacity,
--   Licensing.Keys the creation (also in bulk), revocation and replacement of activation keys,
--   Licensing.Devices bindHardwareActivation, Licensing.Verification verifyHardwareActivation and
--   resetHardwareActivation, Licensing.Renewal renewals and offline payments, Licensing.Sweep
--   sweepSubscriptions. hashSecret, encryptSecret, toLowerCase and whether a mail goes out are
--   parameters.
-- - Auth (src/modules/auth): Auth.Store has the tables, the settings and the queries on users;
--   Auth.Sessions the repository's methods on sessions and touchOwnSession; Auth.OwnSessions the list, the
--   heartbeat, the revocation and the logout of sessions and assertClientSessionActive of
--   src/shared/middleware/auth.middleware.ts; Auth.Login passwordLogin and refreshToken; Auth.Otps sendOtp
--   and verifyOtp; Auth.Passwords changePassword, changePasswordWithCurrent and the codes for a new
--   password; Auth.Setup the links for one; Auth.Google googleSignIn; Auth.Desktop its attempts on a
--   desktop. The functions of bcrypt and jsonwebtoken, the calls of Google, toLowerCase and the time to
--   live of a session are parameters. Each write of a session checks the indexes of the table.
--
-- A new activation key is refused by the unique index on its hash and by the foreign keys to the user it
-- is assigned to and to its creator. The partial unique index on the current releases of a channel is
-- left out: both methods that write a current release retire the channel's other ones before.
--
-- Ids and times that the database or the clock supply are arguments. A findFirst without an order
-- returns the first row of the table. Credits are bigints in the source and unbounded integers here;
-- the counts of tokens are numbers of the source below 2 ^ 53 and natural numbers here. The conversion
-- by `Number` of texts, arrays and objects, the decryption of the stored API key and the call of Gemini
-- are parameters. The validators of a route have passed before a service runs, so that an id that is
-- given is not the empty text.
--
-- Not modelled: two transactions that overlap (each runs alone here, as under serializable isolation),
-- audit log, socket events, logging, the free texts and JSON metadata of ledger entries, and the fields
-- of an answer that only restate a row. Of the page that answers a callback from Google only the status
-- is kept. The other services (classroom, administration, sockets, integrations, export) are not
-- modelled.
pub mod Access
pub mod Ai
pub mod AppUpdates
pub mod Auth
pub mod Base
pub mod Licensing
pub mod LiveSessions
