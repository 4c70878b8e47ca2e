-- ===== src/Lib.antt =====
-- The unified service scheduler: booking a technician and a service bay for a car's service.
--
-- The program has three servers that keep state, each with a database of its own. The technician
-- allocator (backend/services/technician) and the bay allocator (backend/services/bay) keep claims
-- of intervals, with a status HELD, CONFIRMED or RELEASED, and answer Reserve, Confirm and Release
-- over gRPC. The booking service (backend/services/booking) keeps the appointments. Its CreateHold
-- reads a snapshot of the Catalog, checks the opening hours, reserves a technician, then a bay for
-- the technician's duration, and stores the appointment HELD; Confirm confirms both claims and
-- promotes the row, or does all of this at once; Cancel and a sweeper set rows to CANCELLED and
-- release their claims. A reaper deletes the expired holds of an allocator every half minute. The
-- Catalog (backend/services/catalog) lists dealerships with their opening hours, service types and
-- vehicles, and the gateway (backend/services/gateway) passes requests on to it and to the booking
-- service.
--
-- Where each part is:
--   Occupancy              the tables tech_occupation and bay_occupation: one model, since the
--                          two servers send the same statements to tables of one shape
--   Occupancy/Handlers     Confirm and Release; Bay has its own, of the same text
--   Occupancy/Claim        the attempts of `reserve` in both reserve.go files, over any query
--   Occupancy/Steps, History   the interleavings of statements, and of whole calls
--   Technician, Bay        the roster, the query that picks, `reserve`; in Server the handler
--                          Reserve; in Client the server as the booking service sees it
--   Reaper                 backend/shared/pkg/reaper/reaper.go
--   Booking/Types, Fingerprint, Service, Confirm, Recovery
--                          booking.go and service.go
--   Booking/Hours, Saga    saga.go
--   Booking/Store          store.go with the schema of its migrations
--   Booking/CatalogClient  catalog_client.go
--   Booking/Http           http.go
--   Booking/Clients, Laws  the interfaces between the booking service and what it calls, as
--                          records of operations, and the laws that it relies on
--   Booking/Http/Server    the routes of http.go
--   Catalog                backend/services/catalog/catalog.go with its tables; in Wire and Served
--                          the server behind the booking service's client
--   Gateway                backend/services/gateway/main.go
--   System                 CreateHold with the Catalog, the allocators and the store behind it
--   System/Edge            POST /holds from the gateway to that composition
--   Uuid                   NewUUID of store.go and newRequestID of the gateway
--   Occupancy/Calendar     what an occupation table promises, without its rows
--   Migrate                backend/shared/migrate/main.go; in Databases its main
--   Common, Rpc, Mux       helpers, the gRPC status codes, and what is used of net/http
-- Examples and Fixture modules hold concrete data, runs and applications of the theorems.
--
-- How the code is read. A table is a list of rows, a statement a function on it; a read-committed
-- INSERT…SELECT is read in two parts, with whatever other servers commit between the snapshot and
-- the check of the constraints (the record Turn). Instants and durations are microseconds on ℕ: what
-- timestamptz cuts off a finer start, and the RFC 3339 text of an appointment's instants, are not
-- modelled.
-- Ids and keys are texts; SQL's casts to uuid, which refuse other texts, are not modelled: such an
-- error is one of the errors that the driver may report. An error of a driver is a flag on the
-- statement, which has then changed nothing. The booking service runs in a state of three parts,
-- the two allocators and the store, each of a type of its own, so that what is said of it is
-- about any servers that keep the laws; the modules Client treat the servers of the repository.
--
-- Bounds. `reserve` makes three attempts, as in the source, and the model recurs on the attempts
-- left. The read loop of the Catalog client, in Booking/CatalogClient/Reading, runs on fuel: one
-- read more than the body has bytes is enough. No other function needs fuel.
--
-- Parameters, for code that is not the repository's: Postgres's hashtext and its local time, Go's
-- zone database, time.Parse, SHA-256, the HTTP transport, the writing and reading of JSON, random
-- bytes, what a migration's script does.
--
-- Not modelled: the reverse proxy behind the gateway's routes, the entry points, the generated
-- protocol code and the tests; logging and tracing metadata; answers of gRPC that are lost after
-- the server has acted; ties of hashtext and of a listing's order, where SQL leaves the order open
-- and the model takes the first.
pub mod Common
pub mod Rpc
pub mod Mux
pub mod Uuid
pub mod Occupancy
pub mod Reaper
pub mod Technician
pub mod Bay
pub mod Booking
pub mod Catalog
pub mod Gateway
pub mod System
pub mod Migrate
