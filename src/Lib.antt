-- ===== src/Lib.antt =====
-- The SCIM 2.0 server of this repository: users and groups of a workspace, changed by requests.
--
-- The parts and how they interact. A PATCH of a user reaches `ApplyPatchOperations`
-- (internal/scim/patch.go), which changes a `ScimUser` (internal/model/model.go) by one operation
-- after the other, with the canonical forms of internal/scim/canonicalize.go, the reference parsing
-- of internal/scim/mapper.go and the hashing of internal/scim/password.go. A bulk request
-- (internal/handler/bulk.go) is first put in an order in which an operation runs behind those that
-- create what it refers to. A list request (internal/handler/pagination.go) asks for a page by an index
-- or by a cursor, a token that an earlier response carried (internal/scim/cursor.go), and selects
-- resources by a filter, which internal/scim/filter.go turns into a SQL condition with arguments. A
-- response shows the attributes that the request selects (internal/handler/base.go).
-- Before all that, a request is let in by the bearer token of its workspace
-- (internal/middleware/auth.go).
--
-- Files and the code they model:
--   Base, Base/*        Boolean tests, native lists, results, arrays of a fixed length as functions
--   Text, Text/*        Go's strings as lists of code points, with the library calls that are used
--   Value               JSON values as `encoding/json` decodes them into `any`
--   Model               internal/model/model.go: `ScimUser` and its collections
--   External            the packages that are called: a record of functions, a parameter everywhere
--   Canonicalize        internal/scim/canonicalize.go, password.go, `ExtractUUIDFromRef` of mapper.go
--   Patch/*             internal/scim/patch.go: Strict (strict conversions), Items (build...), Setters
--                       (set...SubAttribute), Filter (paths with a filter), Multi (collections),
--                       Single (single attributes), Enterprise (the extension), Apply (the
--                       operations), Dedup (Deduplicate...)
--   Patch/Kept/*        what no PATCH changes; Patch/Multi/Primary, Patch/Dedup/*: the collections
--   Bulk/*              internal/handler/bulk.go: Path (bulk paths), Refs (bulkId references), Graph
--                       (the dependency graph), Schedule (the order), Deferred (references that wait)
--   Filter, Filter/*    internal/scim/filter.go: Tokens (the tokenizer), Attributes (names and columns),
--                       Conditions, Elements, Comparison, ValuePath (what one comparison becomes),
--                       Parser (the recursive descent), Sort (columns to sort by); Filter/Sound/*
--                       (what every SQL text is like), Filter/Like (the patterns of `LIKE`)
--   Cursor              internal/scim/cursor.go: cursor tokens; Cursor/Laws (what an issued token is
--                       worth), Cursor/Message (the signed text)
--   Pagination          internal/handler/pagination.go; Pagination/Bounds (the range of a request),
--                       Pagination/Pages (from page to page)
--   Response, Response/* internal/handler/base.go: Projection (attributes and excludedAttributes),
--                       Narrows and Kept (what a projection shows and keeps), Etag (If-Match)
--   Group, Group/*      internal/handler/group.go: members as requests name them, and their comparison;
--                       Group/Keys (the counters of the keys), Group/Equal (members and types)
--   Async, Async/*      internal/handler/async_event.go: the `Prefer` header, and the paths of a PATCH;
--                       Async/Steps, Async/Paths and Async/Listed (the list of paths)
--   Auth, Auth/*        internal/middleware/auth.go: the check of a bearer token, with the query of
--                       internal/repository/workspace.go that reads its row; Auth/Tokens (the row and the
--                       hash), Auth/Bearer and Auth/Admits (who passes)
--   Tests/*             concrete runs, and the theorems at inputs that meet their hypotheses
--
-- The model. A function that mutates a user through a pointer is a function to a `Result User`; a
-- returned error is `err`, with the status and the scimType, without the text of the message. A Go
-- map decoded from JSON is a list of fields; where the code ranges over such a map, the order is that
-- of the list, so a theorem for all lists holds for all orders. Texts are well-formed: a list of code
-- points, with the bytes of UTF-8 counted where the code measures or cuts bytes; upper and lower case
-- are those of ASCII and of the few letters outside it that fold to ASCII. A number of JSON is a
-- whole part with a fraction flag. A UUID is its canonical text.
-- The table of tokens is a list of rows, of which a query gives the first that its `WHERE` selects, or
-- fails; SHA-256 and the finder of a workspace are parameters. The SQL of a filter is a list of
-- pieces: constants, texts of the request and placeholders.
--
-- Bounds and fuel. `count_certificates` has as fuel the number of bytes, since each round takes one
-- at least. `search_from`, the loop over a queue of operations, has one round more than there are
-- operations: no operation enters the queue twice. The loop of `computeBulkExecutionOrder` adds one
-- index to the order in each round, so it runs as many rounds as there are operations. `digits` has
-- as fuel the number that it writes. `chain`, the loops of `parseOrExpression` and
-- `parseAndExpression`, and the nesting of parentheses have one round more than there are tokens: each
-- round and each parenthesis takes one.
--
-- Not modelled: the database, HTTP, configuration, logging, metrics and the start of the server,
-- which call drivers and frameworks; the handlers of users, groups and asynchronous events around the
-- database; the execution of bulk operations; the texts of messages.
pub mod Base
pub mod Text
pub mod Value
pub mod Model
pub mod External
pub mod Canonicalize
pub mod Patch
pub mod Bulk
pub mod Filter
pub mod Cursor
pub mod Pagination
pub mod Response
pub mod Group
pub mod Async
pub mod Auth
pub mod Tests
