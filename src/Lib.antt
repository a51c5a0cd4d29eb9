-- ===== src/Lib.antt =====
-- School van tracking: a verification library for the backend under services/api.
--
-- The backend lets schools plan trips of their vans, drivers run the trips and send positions, and
-- parents follow them. A service method is an action on a state (Prelude/Actions): it returns a
-- result or the exception that it throws, and the state that it leaves in either case.
--
-- - Prelude: Boolean tests on numbers, tables as lists of rows, actions, exceptions, and the
--   database client as an interface with its documented behaviour (Prelude/Client).
-- - Schema: the enumerations and rows of services/api/prisma/schema.prisma, and the tables. A row
--   has the columns that the modelled services read or write.
-- - Redis: the keys, their texts as segments (Redis/Templates), and the Redis client as an interface
--   with its documented behaviour.
-- - Tenant: services/api/src/common/tenant, common/middleware/tenant.middleware.ts and
--   auth/guards/tenant.guard.ts. Which school a request works on, who may join the rooms of a trip,
--   and (Store) the tenant that the Prisma client sees.
-- - Fleet: services/api/src/fleet. Assignments of vans, students, parents and drivers, which the
--   trips call for their checks, and the pairing of drivers and vans in Redis.
-- - Trips: services/api/src/trips, common/trips and tracking/services/trip-session.service.ts.
--   Service and Schedule hold the handlers of TripsService, Session those of TripSessionService;
--   each is split into the checks, which only read, and the write. Evolution, Checks, Updates,
--   History, Reach, Exclusive, Orderly and Daily hold what is proved of them.
-- - Tracking: services/api/src/tracking. Cache holds the keys of positions and active trips,
--   Integrity the checks of a position, Batch the queue that stores positions, and Service the
--   handlers of a position, of the marks on students and of an emergency; Positions and Drain
--   have what is proved of them.
-- - Auth: services/api/src/auth. Tokens holds refresh tokens, Sessions device sessions and the
--   logouts, LoginProtection the count of failed logins, Permissions the role map and two guards,
--   Accounts the users with their queries, Grants the permissions of a user, Login the logins,
--   Renewal refresh and the check of an access token, Passwords their changes; Families, Replay,
--   Closing, Lockout, GuardRules, SignIn, RoundTrip and Recovery hold what is proved of them.
-- - Routes: services/api/src/routes. Rows has the conditions and writes on routes and stops,
--   Service the handlers; Stops, Views, Effects and Coherence what is proved of positions and of
--   the cached details.
-- - Vans: services/api/src/vans. Service has the handlers; Capacity and Limits what is proved of
--   seats and of the plan's bound.
-- - Staff: services/api/src/drivers and parents. Office is the state that they share and the account
--   that both create, Drivers and Parents the handlers; Departure and Creation what is proved of
--   them, Departure together with the check of access tokens of Auth.
-- - Students: services/api/src/students. Service has the handlers, which call the limits of the
--   plan and the assignments of the fleet; Import and Counts what is proved of them.
-- - Subscription: services/api/src/schools/services/subscription.service.ts and
--   common/tenant/tenant-cache.service.ts. The status and the limits of a school's plan; Kept says
--   what the checks leave alone.
-- - Notifications: services/api/src/notifications. Throttle holds the rate limit and the
--   deduplication, Dispatcher the queueing of a notification, Geofence the alerts of a van that
--   comes near; Limits, Once, Nearby and Quiet hold what is proved of them. They count by the
--   interface of Redis/Counters, as the count of failed logins does.
-- - Tests: a database client and a Redis client as concrete functions, a small school, and runs.
--
-- The repository extends its Prisma client (services/api/prisma/extensions). What the extension adds
-- to a look-up, that the row is not deleted, is written into the conditions of the look-ups. It also
-- adds the school of a tenant store, which the tenant middleware sets from the user of the request;
-- but that middleware runs before the guards that set the user, so that no HTTP request has a store.
-- The marks on students take the store as a parameter; the other services are modelled without one.
--
-- Identifiers are natural numbers; the empty text of a request is 0, which is no identifier. An instant is a number of milliseconds, a time of Redis a number
-- of seconds, a calendar date a number. Identifiers that the database makes up are parameters of
-- the creating operations. There is no recursion that needs fuel: the loop of scheduleDaily goes
-- over two legs, and all other loops go over lists. Interleavings of the handlers are sequences of
-- whole calls (Trips/Reach); those of the batch service are steps of a relation (Tracking/Batch),
-- since a flush awaits its end. Hashes, random texts and great-circle distances are parameters.
--
-- Not modelled: the web console and the apps, controllers and input decorators, the texts
-- of notifications and their delivery, the spatial query of a geofence and arrival times, and
-- services that only map rows to responses.
pub mod Prelude
pub mod Schema
pub mod Redis
pub mod Tenant
pub mod Fleet
pub mod Trips
pub mod Tracking
pub mod Auth
pub mod Subscription
pub mod Routes
pub mod Staff
pub mod Students
pub mod Vans
pub mod Notifications
pub mod Tests
