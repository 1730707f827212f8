-- ===== src/Lib.antt =====
-- Online collaborative documents: the services of the Go backend over their database, their object
-- store and the memory of the collaboration rooms.
--
-- The program. A document is a row of `documents` with numbered versions, whose bytes are objects of
-- a bucket. Its owner grants other accounts a role at it and makes share links to it; Markdown
-- documents are read and saved as a whole, or edited together in a room that sends every update to
-- its clients and stores it. Office documents are edited in an editor of their own, which comes back
-- with a signed token. Accounts log in with a password or through an OpenID provider and hold
-- sessions; an audit log keeps who did what. Each service calls the others through small interfaces:
-- documents, share links, rooms and office documents ask the permission service, share links, rooms
-- and office documents use the document repository and the object store.
--
-- The state. `World` (World.antt) is all that an operation reads and writes: the tables (`Db`, from
-- backend/migrations), the objects of the bucket, the flags of the bucket check, and the hub of rooms
-- and clients. `M A` is a function from a world to a result and a world, so an error path keeps
-- what was written before it. `Env` is what lies outside: outside calls are numbered, and it says of
-- each whether it fails, what the clock then shows and which random bytes it gives; the digests, the
-- JSON of a token's claims, the database's collation, `http.DetectContentType` and
-- `mime.ParseMediaType` are functions of it. No theorem assumes
-- anything of these but what its own hypotheses say.
--
-- The files.
--   Base (Tests, Tables, Int, Rows, Ranges, Pages): tests, rows of tables as lists, and their laws.
--     `order_by` is a stable insertion sort, for `ORDER BY`.
--   Model (User, Document, Permission, Share, Collab, Audit, Office): the packages' structs.
--   Text, Uuid: Go's string functions, and `newUUID` with the tokens.
--   Encoding (Bytes, Base64, Split, Url, RoundTrip): UTF-8, base64, `strings.Split` and
--     `url.QueryEscape`, and that decoding undoes encoding.
--   Storage: backend/internal/storage/minio.go. Laws: what each operation does to the objects.
--   Permission: backend/internal/permission. Repository and Service are repository.go and
--     service.go; Access reads the role that the tables give, Upsert, Grant and Revoke what changes
--     it.
--   Document: backend/internal/document. File and Filename are the checks of an upload, the titles
--     and the storage keys of service.go; Repository and Service the rest. Versions, Store and Saving
--     follow a save from the transaction up; Accessible, Deletion and Authority are about who may.
--   Share: backend/internal/share. Access is about `validLink`, Links and Disabling about the links
--     themselves, Saving about reading and writing through one.
--   Collab: backend/internal/markdown/collab. Room holds the clients' channels and the broadcasts,
--     Service the rest of service.go. Broadcast and Readonly bound what a message changes; Recovery,
--     Persist, Synced and Updates are about the stored updates and the content that they give;
--     Closing is about a `Leave` in the middle of a broadcast.
--   Local: backend/internal/auth/local. Email holds the address pattern; Login, Sessions and Admin
--     are about the accounts; Password is password.go, with PBKDF2 over the HMAC of `Env`.
--   Oidc: backend/internal/auth/oidc/service.go. Accounts is about the account that a login through
--     the provider ends at, Callback about the login as a whole; Handler is handler.go, and Routes
--     about its answer.
--   Office: backend/internal/office/service.go. Token holds the signed tokens, Editor the addresses
--     of the editors, Service the rest; Signed is about the tokens, Live about the permission that
--     each use of a token asks for, Saving about what is saved and read, Limited is the limited reader.
--   User: backend/internal/user, the searches and their pages.
--   Audit: backend/internal/audit, the log; Entries is about its rows, Paging about the route that
--     lists them.
--   Http: backend/internal/api and backend/internal/middleware: a handler is a function from a world
--     to an answer and a world; Gate is about the routes for administrators.
--   Permission.Handler, Document.Handler, Share.Handler, Office.Handler: the handler.go of the
--     packages; Document.Routes and Office.Routes are about the answers.
--   Wiring: backend/internal/server/server.go, which service each service is given.
--   Tests: a small installation, runs on it, and the theorems at it.
--
-- Choices. A statement of SQL is one step on the tables and its unique keys are tests of it; a
-- transaction works on a copy that its commit installs; constraints that refer to other tables and
-- are not written out are faults of the environment. Times and sizes are natural numbers, sizes
-- that a caller gives are integers; the sum of the editors' limit and one is an int64, which wraps
-- around. Where a token names seconds, times are in nanoseconds. Ids are texts in the form that the
-- database shows, with small letters; the id by which an administrator names an account is a text
-- of any form, which the database first turns into that one (`uuid_text`), while the code compares
-- it as it is. Text is ASCII to `strings.ToLower`. A reader of the object store is its key, read
-- when the code reads it. Each service call runs as one sequence; two calls that interleave are
-- modelled only where Closing says so. A client's channel is the list of its messages, and the
-- `select` of a send looks at how many it holds. Go's map of a room's clients is listed in the
-- order of joining. The JSON of a stored update is its value, or bytes that do not decode. The
-- OpenID provider is an argument that answers by the number of the call. Every loop is a recursion
-- on a list, a text or a number that is counted down, but for `io.ReadAll`, which takes fuel: one
-- call more than bytes are to be read is enough.
--
-- Not modelled: the HTTP handlers of the other packages, the table of routes, the web socket and
-- the proxies of the editors; the client of the OpenID provider; the configuration, the migrations'
-- execution, the front end and the deployment.
pub mod Base
pub mod Model
pub mod World
pub mod Text
pub mod Uuid
pub mod Encoding
pub mod Storage
pub mod Permission
pub mod Document
pub mod Share
pub mod Collab
pub mod Local
pub mod Oidc
pub mod User
pub mod Audit
pub mod Http
pub mod Office
pub mod Wiring
mod Tests
