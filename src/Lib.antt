-- ===== src/Lib.antt =====
-- The signalling server of VoiceCall, server-rust: accounts, contacts and WebSocket signalling.
--
-- Parts, with paths under server-rust/src:
--   Errors         errors.rs: AppError, its texts and responses
--   Services       what the server calls and does not implement: the Redis server (Keyspace), the
--                  crates uuid, serde_json, jsonwebtoken, aes-gcm, hex, argon2, regex (Crates), and
--                  the keys of the keyspace (Keys)
--   World          the state behind AppState (main.rs), the monad of handlers, the rows of the
--                  PostgreSQL schema (Tables) and the JSON messages (Events)
--   Config         config.rs; Startup is about what from_env lets the server start with
--   RedisStore     db/redis_store.rs
--   Jwt            auth/jwt.rs
--   Database       db/mod.rs
--   Auth           routes/auth.rs
--   Middleware     auth/middleware.rs
--   Crypto         crypto/mod.rs
--   Hub            signaling/hub.rs
--   Contacts       routes/contacts.rs; Statements has one function for each SQL statement, Listing the
--                  three lists, Refinement a specification on how users stand to each other
--   Routes         routes/mod.rs
--   Api            main.rs, the routes: Endpoint is a route with its arguments, serve its handler behind
--                  its layer, and Paths goes from a method and a path to it
--   Signaling      signaling/server.rs: Socket is handle_socket, Calls and Rooms the branches of
--                  dispatch_message
--   System         the server as a whole: Steps is its step relation, Stable and Invariant carry a
--                  property of the tables and connections from the SQL statements to every request
--                  (Accounts, Requests, Serving), frame (Signals, Sockets) and step
--   Tasks          routes/auth.rs and routes/contacts.rs step by step: Accounts and ContactSteps have
--                  the handlers with each call of Redis and PostgreSQL as a step, Requests the route
--                  to them, and Pool the runtime that takes the steps of all requests in any order
--                  between those of System; Alone ties them to Auth and Contacts
--   Startup        main.rs up to the listener, with metrics/mod.rs: Ready is about what it does, in
--                  which order and when it panics, Cors about the CORS layer
--   Relay          signaling/sfu_relay.rs, which no other module of the server calls
--   Prelude        shared library names, Boolean tests, lists and association lists
--   Witness        a small concrete outside world, and runs of the code on it
--
-- A handler is a function from the state to a result and the state after it, whatever the result. The
-- state carries two lists of outcomes, which say of each coming call of Redis or PostgreSQL whether it
-- is carried out, refused, or carried out with its reply lost, so a theorem about all states is about
-- all patterns of failure. Random values are the functions of a counter that goes up by one at each
-- draw. Redis is a parameter with laws for each command; a text at a key may vanish only by a command
-- or by passing time. PostgreSQL statements are functions on lists of rows, since the SQL text is part
-- of the source; a violated constraint answers an error and changes nothing.
--
-- Keys of Redis are values in place of texts, and RedisStore.Keys shows that the texts differ when the
-- values do. User ids are numbers; the text of one is read back below the bound of 128 bits. Times are
-- numbers of milliseconds and do not wrap. Recursion is on lists only, so nothing takes fuel.
--
-- In System one handler runs at a time, so that a request and a frame are one step each, with the
-- exception that use_invite_link is also given as its two halves, between which another handler may
-- run. In Tasks the handlers of accounts, and those of contacts that write, are split at every call that
-- they wait for, and the steps of any number of them fall between each other's and between the steps of System. Between steps time passes,
-- messages of other instances arrive, and the outcomes of the coming calls are set to anything. What
-- the framework extracts from a request is an argument of Endpoint; none stands for what it could not
-- extract and answers itself.
--
-- The start of the server is a function of the environment and of what the crates and the machine
-- answer to each call; it gives the actions done so far, and a state, an error or a panic.
--
-- Where the machine's numbers end: life times of tokens are those that chrono and Redis take, the uses
-- of an invite link do not pass the ends of a 32-bit INTEGER, and the row numbers of users count the
-- INSERTs that succeed. A message on the Redis channel stands for its JSON text, so that the texts of
-- serde and the name of the channel are no part of its delivery.
--
-- Not modelled: the values of counters and gauges, the wait for the end of the process, the layers that
-- all routes share (time limit, body size, compression, traces; CORS has its part in Startup), the
-- answer to a path that has a route with another method, and the log. Nothing reads the rate limits of
-- the settings. The relay's messages reach no handler of the server, so they are no steps of System.
pub mod Prelude
pub mod Errors
pub mod Services
pub mod World
pub mod RedisStore
pub mod Config
pub mod Jwt
pub mod Database
pub mod Auth
pub mod Middleware
pub mod Crypto
pub mod Hub
pub mod Contacts
pub mod Signaling
pub mod Relay
pub mod Routes
pub mod Api
pub mod System
pub mod Tasks
pub mod Startup
pub mod Witness
