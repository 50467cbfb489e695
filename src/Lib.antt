-- ===== src/Lib.antt =====
-- Verification library of bookingConcurrent, the ticketing API: holds on cinema seats, payments
-- and bookings.
--
-- The parts and how they meet. A buyer holds a seat (a hold store decides), pays (a payment store
-- records what a gateway did, told by the client or by a signed webhook), and confirms (a booking
-- store decides the sale). The services make these steps through ports, one call at a time; between
-- two calls of one request the calls of others may run.
--
-- - Domain.Booking, Domain.Movie, Domain.Payment, Domain.User: internal/domain. Structs are records,
--   typed strings are data types, methods are functions of the same name.
-- - Memory.SeatKey, HoldStore, BookingStore, PaymentStore, RefreshTokenStore, UserStore:
--   internal/adapters/memory. A store is a record of association lists; each method, which runs
--   under the store's mutex, is one function from the store to the result and the store. The
--   clock's reading and a minted identity are arguments. SeatKey also has parseSeatKey of
--   internal/adapters/redis/holdstore.go.
-- - Application.Ports: the ports of internal/application/booking and internal/application/payment,
--   as operations with reply types. Application.Booking and Application.Payment are the services: a
--   use case is a tree of port calls, written by do blocks in the order of the source, with a
--   function for each place where the source goes on after a reply.
--   Application.Auth is internal/application/auth/service.go in the same way.
-- - Memory.Catalog, Application.Catalog, Http.Catalog: the movie and screening stores,
--   internal/application/catalog, and internal/adapters/http/catalog.go with health.go.
-- - Application.Licence: what a request must have read before it may write, over any replies.
-- - Gateway: internal/adapters/payment/fakegateway.go.
-- - World: the stores, the gateway and one clock, and what each port call does to them.
--   World.Threads: any number of requests in flight as a step relation (a request arrives, the clock
--   moves on, one request makes its next call) with reachability. World.Run: one request on its own.
-- - Http, Http.Payments, Http.Accounts: the handlers, the cookies and the error writers of
--   internal/adapters/http.
-- - Redis.Server: the commands of a Redis server as a record of operations and laws.
--   Redis.HoldStore: internal/adapters/redis/holdstore.go over any such server. A method takes the
--   readings of its clocks, the process's and the server's. SCAN is documented of a pattern that is
--   a literal text and a star; what any other pattern matches is left open.
-- - Postgres.Sql, Bookings, Payments, Tokens, Users: the repositories of
--   internal/adapters/postgres/repos_booking.go, repos_payment.go and repos_auth.go, with the
--   statements of internal/adapters/postgres/sqlcgen as functions on lists of rows and the
--   constraints of migrations. Their child modules set them beside the stores in memory.
-- - Config: internal/platform/config/config.go. A reading goes on after a problem and collects it.
-- - Middleware: the request identity and the bearer credential of internal/platform/middleware.
-- - Common: lists, text, integers, maps, decimal and hexadecimal text, Go's errors, and the trees of
--   calls. Tests: each property at a concrete input, most of them in one run from hold to booking.
--
-- Conventions. A string is its bytes. What the Unicode tables do to a string with a byte above 127
-- is a parameter. An instant is a number of nanoseconds since the zero time. An int is an integer
-- without overflow; the text of a number is read as a 64-bit one, as strconv does. A map is an
-- association list, so that the order of a Go range over it is one of the possible ones. An error
-- message is its format string. A payment status is one of the six known ones. HMAC, SHA-256, JSON,
-- argon2id, JWT and UUIDs are parameters or calls with any reply. Loops are structural
-- recursion; only the digits of a number n run on fuel, n + 1 of it.
--
-- A server or a database may be out of reach. A call that has an effect says which way it failed:
-- not sent, or done with the answer lost (Common.Trip). What the server does beyond the standard
-- meaning of a command is a parameter: which of two violated indexes it names, how it sorts text,
-- what its lower() does, how a UUID column reads a text, and what a TIMESTAMPTZ column keeps of an
-- instant (Postgres.Sql.Columns). time.ParseDuration and url.Parse are parameters too.
--
-- Not modelled: the repositories of the catalog (internal/adapters/postgres/repos.go), migrations as
-- code, the recovery of panics, logging and wiring; argon2id and JWT are third-party code.
pub mod Common
pub mod Domain
pub mod Memory
pub mod Application
pub mod Gateway
pub mod World
pub mod Http
pub mod Redis
pub mod Postgres
pub mod Config
pub mod Middleware
pub mod Tests
