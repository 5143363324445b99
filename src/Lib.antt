-- ===== src/Lib.antt =====
-- RailBook: a railway ticket service (FastAPI over PostgreSQL, Redis and a mock payment gateway).
--
-- A request takes one session, reads and changes the tables in one transaction, and commits at its
-- end. The development models the tables, the booking services, the payment gateway, the cleanup
-- task, accounts and tokens, the seat availability with its cache, the statistics, a race of two
-- attempts on a seat, the rate limits, the seeding, the initial migration, and the script that checks
-- the tables after a load test.
--
-- Which file models what (paths from the repository's root):
--   Models.antt, Models/                  backend/app/models.py: the tables, and what they refuse
--   Migration.antt, Migration/            backend/migrations/versions/: the initial schema, up and down
--   Audit.antt                            backend/app/audit/service.py: log_audit
--   Payments.antt, Payments/              backend/app/payments/gateway.py: charge and refund; and the routes of
--                                         backend/app/demo/router.py for the gateway's settings
--   Bookings.antt, Bookings/              backend/app/bookings/service.py and cleanup.py: create_booking,
--                                         pay_booking, refund_booking, the reading functions with their
--                                         routes, cleanup_expired_reservations
--   Auth.antt, Auth/                      backend/app/auth/: registration, signing in, tokens, guards
--   Trains.antt, Trains/                  backend/app/trains/: the seat availability and the lists; and the
--                                         invalidation of its cache in backend/app/bookings/service.py
--   Redis.antt, Redis/                    what is relied on of Redis and json, as interfaces
--   Ratelimit.antt, Ratelimit/            backend/app/ratelimit/: the sliding window and its three guards
--   Seed.antt, Seed/                      backend/app/seed.py: seed_database
--   Demo.antt, Demo/                      backend/app/demo/: two concurrent attempts on a seat, and
--                                         the route that starts them
--   Routes.antt, Routes/                  backend/app/bookings/router.py: the routes that change the tables,
--                                         with their answers and the seat cache
--   Admin.antt, Admin/                    backend/app/admin/: the statistics, the occupancy, and the lists of
--                                         all bookings and audit entries, behind the check of the role
--   System.antt, System/                  starts, requests that change state and cleanup passes, as one
--                                         sequence over one database and one gateway
--   Api.antt, Api/                        the user's token and the rate limit in front of those routes, and of
--                                         the account routes of backend/app/auth/router.py
--   Interleavings.antt, Interleavings/    payments split at the call of the gateway, in any order with the
--                                         other requests and the passes of the cleanup
--   Loadtest.antt                         loadtest/verify_integrity.py
--   Loadgen.antt, Loadgen/                loadtest/helpers.py and the users of loadtest/locustfile.py, as
--                                         clients of a record of HTTP operations, and the guarded
--                                         routes as that record
--   Integrity.antt, Integrity/            the validity of the tables, the state machine of a booking,
--                                         and that every operation keeps them
--   Guarantees.antt, Guarantees/          what each handler promises
--   Base.antt, Base/                      shared types, tests, table queries and their laws
--   Tests.antt, Tests/                    runs by evaluation, and the theorems at concrete inputs
--
-- How the code is read. A UUID, a time (in microseconds) and an amount (in hundredths) is a natural
-- number; a column that holds one of a few words is a data type. A table is the list of its rows; a
-- query of the source is the corresponding filter, and scalar_one_or_none raises on two rows. An
-- INSERT is refused where it breaks a primary key, a unique constraint or a foreign key of models.py,
-- and a DELETE where a row still refers to the booking: no relationship has a cascade, and booking_id
-- is not nullable, so the ORM cannot detach the children. An exception that leaves a service ends the
-- session without a commit, so a service returns the new database or an error. What a request reads
-- from outside (the clock, the transaction's time, generated UUIDs, the random draw, the client's
-- address) is an argument; the clock readings of a handler are numbered in the order in which they
-- stand in it. A float is counted in units of 2^-1074. The state of the gateway is outside the
-- transaction. The cleanup loop is a list of passes; the rows that FOR UPDATE SKIP LOCKED leaves out
-- are given by a predicate. No model needs fuel: every loop is over a list.
--
-- Requests are served one after another, except in two places. In Demo.antt the reads of one attempt
-- may come before the writes of the other. In Interleavings.antt a payment reads and locks its booking
-- in one step, is charged in another, and writes and commits in a third; in between come the steps of
-- other payments, passes of the cleanup that skip the locked rows, and the other requests, each of
-- them one step. A refund or a new booking that would wait for a locked row is refused by its status
-- check there, and so is one order more than there are. A task of the load test runs whole before the
-- next one, with passes of the cleanup in between; a body that lacks what a client reads has no value,
-- and reading it ends the task. An audit id is given at the commit, and one that a rollback loses is
-- not modelled. Redis and the backend read one clock, and no two attempts that a rate limit counts
-- have the same time. Logging, the latency of the gateway and the HTTP layer are left out, since they
-- change no table. A text is taken to fit its column: the limits of String(n) columns are not
-- modelled. Start-up and the settings, which call the database's driver, and the frontend are
-- not modelled. Redis, json, bcrypt, jwt, the rounding of floats and the collation of ORDER BY are
-- parameters with the laws that the theorems use.
pub mod Admin
pub mod Api
pub mod Audit
pub mod Auth
pub mod Base
pub mod Bookings
pub mod Demo
pub mod Guarantees
pub mod Integrity
pub mod Interleavings
pub mod Loadgen
pub mod Loadtest
pub mod Migration
pub mod Models
pub mod Payments
pub mod Ratelimit
pub mod Redis
pub mod Routes
pub mod Seed
pub mod System
pub mod Tests
pub mod Trains
