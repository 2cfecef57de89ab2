-- ===== src/Lib.antt =====
-- The backend of the Kayan marketplace (NestJS over PostgreSQL): its shop service with products,
-- carts, orders, fault reports, service orders, follow-ups, ratings and the gallery; its
-- authentication; and the older services for users, their administration, ratings and files, and the
-- chat.
--
-- Parts, and the file that models each:
--   Database        src/database/database.service.ts: a statement is a function of the tables that
--                   returns a value or raises an error (`Exec`, `Outcome`); `with_transaction` rolls
--                   back on an error. Sequences are not rolled back, as in PostgreSQL.
--   Helpers         src/common/helpers/pagination.helpers.ts
--   Kayan.Dto       src/kayan/kayan.dto.ts
--   Kayan.Tables    the rows of the tables in db/migrations, and the whole state `Db`
--   Kayan.*         src/kayan/kayan.service.ts: Products, Orders, OrderViews, Cart, Faults, Services,
--                   Ownership, Steps, Conversations, Ratings and Gallery have one function per
--                   method, under the method's name in snake case; Assets has the attach and sync
--                   methods.
--   Kayan.Listings  the listings of that service: filter, order, page and total
--   Kayan.Lifecycle any sequence of requests
--   Auth.Tables     the tables and settings of authentication, and what it takes from libraries
--   Auth.Store      src/auth/auth-state.store.ts
--   Auth.Otp        src/auth/otp-sender/: the console sender, and the mail sender around it
--   Auth.Service    src/auth/auth.service.ts, with Auth.Registration; Tokens, Attempts and Sessions
--                   are about these
--   Kayan.Samples   a small shop on which Kayan.Tests runs the service
--   Market.Tables   the tables of the older services, around the state of authentication (`MarketDb`)
--   Market.Access   src/auth/jwt.strategy.ts, src/common/guards/admin.guard.ts and the helpers of
--                   src/common/helpers/
--   Market.Views    src/common/mappers/app-user.mapper.ts
--   Market.Admin    src/admin/admin.service.ts, the listings in Market.Admin.Lists
--   Market.Users    src/users/users.service.ts, the profiles in Market.Users.Profiles
--   Market.Ratings  src/ratings/ratings.service.ts
--   Market.Files    src/files/files.service.ts; Market.ReadUrl is src/files/file-read-url.service.ts
--   Market.Catalogue  src/products/products.service.ts, its writes in Market.Catalogue.Writes, and
--                   product-taxonomy.ts beside it
--   Market.Chat     src/chat/chat.service.ts with its selections in Market.Chat.Views; Registry, Gateway
--                   and Errors are chat-socket-registry.service.ts, chat.gateway.ts (with
--                   createConversation of chat.controller.ts) and chat-ws-exception.filter.ts beside it
--   Market.Effects, Versions, Growth, Calls, Revocation and Rights are about users and tokens: Calls has
--   the sequences of calls that write users, and Calls.Rows is about them; Market.Catalogue.Owners is
--   about listings; Market.Chat.Steps, Sends, Opens, Refines, Tidy, Invariant, Opening, Rooms, Seats,
--   Delivery and Refusals are about the chat.
--   Logging         src/common/logging/logging.utils.ts; Logging.Keys, Limits and Plain are about it
-- The older services share the users with authentication: `on_auth` runs a handler of
-- authentication on the whole state, and `on_db` a method of the chat under the sockets. Each
-- method takes the user of the request and its DTO, reads and writes `Db`, and returns the rows
-- that the response is built from. PostgreSQL's ILIKE and LOWER, bcrypt, JWT, HMAC and random
-- values are parameters (`ilike`, `Library`), as are the uploader of the storage (`Keys`) and how
-- the driver gives a BIGINT column to `===` (`column_is`), `toLowerCase` and how a number is
-- written. The mail service's answer is a Boolean. A socket of socket.io is the number of its
-- connection, and a room the set of the sockets that joined it.
--
-- Numbers: ids, amounts and times are natural numbers. Prices are in the smallest unit that the
-- column stores. An overflow of an INTEGER column raises an error where the source can reach it. `clock` is
-- NOW(). A statement's row order is that of its ORDER BY, which sorts stably; ids break ties.
--
-- Not modelled: HTTP and its validation (class-validator), the expansion of foreign keys in answers,
-- the search of the older listings of users, the cleanup of expired codes, the seeders and scripts,
-- which requests are logged, and concurrent requests (each request runs as a whole). Every function
-- here is structural recursion; none needs fuel.
mod Prelude
pub mod Database
pub mod Helpers
pub mod Kayan
pub mod Auth
pub mod Market
pub mod Logging
