-- ===== src/Lib.antt =====
-- A model of the car rental backend: the services that book cars, move rentals, take payments, write
-- invoices, plan maintenance, sign users in and notify them, with the repositories below them, the
-- database as these use it, the handlers and routes in front, and the settings it starts with.
--
-- The parts, and the files that model them:
--   Base        tests, lists, keys and results that the other files share
--   AppError    pkg/apperror/errors.go and internal/repository/errors.go
--   Models      internal/models: enumerations (Models/Status, Models/Texts) and records
--               (Models/Rows)
--   Text        trimming, the case of letters, the pattern of ILIKE and decimal numbers
--   Dates       the dates of package `time`, as days since 0000-01-01, and their texts (Dates/Civil)
--   Store       the tables, and how a repository reads and writes them: Store/Schema the tables,
--               Store/Exec calls and transactions, Store/Constraints and Store/Statements what
--               the files of migrations/ and the SQL of several repositories say
--   Rentals     internal/repository/rental_repository.go (Rentals/Repository, Rentals/Lifecycle for
--               SyncLifecycle, Rentals/Listings, Rentals/Filtered for ListAll) and
--               internal/service/rental_service.go (Rentals/Service, Rentals/Calendar for
--               AvailabilityCalendar)
--   Cars        internal/repository/car_repository.go (Cars/Repository, Cars/Listing) and
--               internal/service/car_service.go (Cars/Service)
--   Listing     the paging that the repositories share
--   Maintenance internal/repository/maintenance_repository.go, internal/service/maintenance_service.go
--   Payments    internal/repository/payment_repository.go and internal/service/payment_service.go
--   Invoices    internal/repository/invoice_repository.go and internal/service/invoice_service.go
--   Users       internal/repository/user_repository.go (Users/Repository, Users/Listing),
--               internal/repository/auth_token_repository.go (Users/Tokens), internal/auth
--               (Users/Platform) and internal/service/user_service.go (Users/Inputs,
--               Users/Service, Users/Profiles)
--   Notices     the notifications and the audit log, with their services
--   Middleware  internal/middleware: the rate limiter, who may pass, and the origins of CORS; the
--               guards of the administration in internal/router/router.go (Middleware/Routes)
--   Redis       internal/cache/redis_rate_store.go
--   Reports     internal/repository/report_repository.go and internal/service/report_service.go
--   Config      internal/config/config.go, with the parsers of numbers and durations (Config/Parsing)
--   Mail        internal/service/email_sender.go
--   Web         internal/handler, a file for each of its files, with pkg/response/response.go
--               (Web/Replies), pkg/validator/validator.go (Web/Validator), the audit log's metadata of
--               internal/handler/audit_helpers.go (Web/Trail, over Web/Json and Web/Encoded), and the
--               routes of internal/router/router.go with the worker of internal/app/app.go
--               (Web/Serving)
--   Coherence   the invariant that joins rentals and payments, and who keeps it
--   Tests       concrete tables and requests
--
-- A method of a repository is a function of the same name in snake case that takes a world and
-- returns a result or an error, and the world after it; a method of a service is the chain of calls
-- that it makes. A world has the tables, the time, a list of faults and a list of other requests. Each
-- call of the driver takes the head of the list of faults, and fails where there is one: a lost
-- connection, a text that is too long, a commit that fails. Each call of a repository by a service
-- first takes the head of the other requests, which changes the tables: a request that commits in
-- between; so does the second query of a method that sends two outside a transaction, the paged lists
-- and the report. A transaction is one step: nothing is in between, and one that fails gives the tables
-- back as they were, which is what the model takes `Begin`, `Commit` and the deferred `Rollback` for. This
-- is an assumption where a transaction reads rows that it does not lock: CreateWithAvailability locks the
-- row of the car, so that bookings of one car follow each other, but not the rows that its two EXISTS
-- look for, and a maintenance that is planned, or a rental that is approved again, between them and the
-- insertion is not modelled.
--
-- Identifiers, dates, amounts (in cents) and times (in nanoseconds) are natural numbers; a page or a
-- page size below 1 is 0. A table lists its rows by falling identifier: a new row is put in front.
-- Enumerations are data types with a constructor for a text that is no constant of the source. The
-- offset of a page wraps at 64 bits, and the span of a rental stops at the longest `time.Duration`.
-- A handler is a chain of calls that ends in a reply or an error; an event of a run is a request with
-- the faults of its calls, or a tick of the worker, and events follow each other. An identifier in a
-- request that is below 0 is 0, which no row has. A time in JSON is in UTC with a year of four digits. Numbers in
-- JSON are compared as texts, where the source compares them as float64: they agree below 2 ^ 53.
--
-- All loops are structural recursion, but for five on fuel: the printing of numbers has one more step
-- than the number and the width count, the days of a calendar one more than the days of a range, and the
-- search for the year and the month of a day as many as years of 365 days and the other 11 months. The
-- parts of a duration are read with the length of its text, of which each part takes a letter.
--
-- Code that is not in the repository is a parameter: Users/Platform has bcrypt, the JWT library,
-- HMAC-SHA256, SHA256, random numbers, the sending of emails, the tables of package `unicode` beyond
-- ASCII and how the database compares letters; what is asked of them is named by IsCaseTable
-- (Text/Laws) and VerifiesSigned (Middleware/Bearer). Notices/Audits takes how the database reads
-- JSON. The rate limiter's map is a function from addresses; a connection to Redis is the list of the
-- commands that were written and the text that the server sends.
-- How gin binds and validates a body, how `strconv.ParseFloat` reads a rate, the environment of the
-- process and the order in which Go walks a map are arguments of the functions that use them.
--
-- Not modelled: the upload of images, whose steps are calls of MinIO and of the detection of a file's
-- type; the conversation of the SMTP library with its server, but for the order of the calls; the
-- address of the Redis server; fixed headers, logs and the limit of a body's size; the start of the
-- process, and the programs of cmd/.
pub mod Base
pub mod AppError
pub mod Text
pub mod Models
pub mod Dates
pub mod Store
pub mod Rentals
pub mod Cars
pub mod Listing
pub mod Maintenance
pub mod Payments
pub mod Invoices
pub mod Users
pub mod Middleware
pub mod Redis
pub mod Notices
pub mod Reports
pub mod Config
pub mod Mail
pub mod Web
pub mod Coherence
pub mod Tests
