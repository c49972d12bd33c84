-- ===== src/Lib.antt =====
-- The gateway: agents call tools of many providers through one daemon, which resolves a tool's
-- path, gates the call by policies, pauses it for an approval where they ask for one, and charges
-- calls of the shared catalog to a prepaid ledger.
--
-- The parts and their files:
--   Prelude      what the others share: bytes as texts, integers with 64-bit wrap-around, ordered
--                maps, sorting, operations that fail and keep their state, JSON values, trimming, and
--                in Chars the classes of characters.
--   Core         crates/executor-core/src. Owner is owner.rs. Policy is policy.rs (`match_pattern`,
--                `resolve_tool_policy`, `effective_policy`, and in Policy/Flat
--                `effective_policy_from_sorted`). Position is position.rs. Id and Address are id.rs and
--                address.rs. Tool, Connection and Execution are the data of tool.rs, connection.rs,
--                integration.rs, auth.rs and execution.rs. Secret is secret.rs. Store is the
--                `MemoryCatalog` of store.rs: each map a field, each method an operation on the record.
--                Search is search.rs, JsonSchema is json_schema.rs, Limits is limits.rs, and ToolPath
--                is path.rs: tool paths are built, browsed and resolved, and a call is written.
--                Challenge is the parser of www_authenticate.rs, Scope is scope.rs.
--   Codemode     crates/executor-codemode/src, the small language in which an agent writes calls.
--                Token and Lex are lex.rs, Ast is ast.rs, Parse is parse.rs, Eval is eval.rs, Run is
--                `native` of lib.rs, and Host is its trait `CodeHost`. Compiled follows the calls that
--                `compile_call` writes through lexer, parser and evaluator.
--   Catalog      crates/executor-catalog/src. Money is money.rs: the ledger's state under its lock, one
--                operation per method. Service, Call, Call/Ladder and Call/Query are call.rs and the
--                types of lib.rs: `call` opens a meter on the ledger, awaits an answer, closes or
--                cancels the meter, and may try a relay once.
--   Engine       crates/executor-engine/src. Lookup is lookup.rs. Execute is execute.rs: the state is
--                the store and a world in which tools act; `execute_gated`, `dispatch`, `gate`,
--                `pause_for_approval`, `resume_gated` and the idempotency operations keep their names.
--                Permits is the count of running executions around `execute` and `resume`: each task is
--                at a stage, and a step relation moves one task by one atomic operation at a time.
--   Host         crates/executor-host/src. Guard is guard.rs: which requests reach the routes.
--                Auth is the device login of auth.rs: grants are issued, approved and redeemed.
--
-- The host guards requests to the engine; the engine reads policies, tools and executions in the
-- store; the code mode hands the calls of a source to a host; the catalog service is called beside
-- the engine, with a ledger of its own.
--
-- Texts are lists of UTF-8 bytes; in Codemode and Core/Search, which work on characters, lists of
-- code points. A lock is held for the whole of an operation, so that an interleaving is a sequence
-- of operations. What is awaited, an HTTP answer, a plugin, a built-in tool or a sleep, is a
-- parameter that may change the state; a theorem that needs it not to says so.
--
-- Fuel: `call` follows at most as many routes as its fuel says and ends in `endless` beyond; how
-- much is enough is the subject of Call/Routes. `outcome_from_execution` has the fifty rounds of
-- the source. The lexer's main loop has one round for each character and one more. The parser has
-- `6 * tokens + 6` rounds for an expression, since at most six calls pass between two tokens, and
-- one for a statement; Parse/Ends is about these. The parser of challenges has one round for each
-- byte and one more; Challenge/Rounds is about these. Every other loop is by structural recursion.
--
-- Not modelled: metrics of the engine, the static tools and OAuth, the routes of the daemon but for
-- the device login, the JavaScript engine (quickjs.rs) and the repair and stripping of sources in
-- code mode (recover.rs, strip.rs), the plugins, the SQLite storage, secret providers, the command
-- line, the console and the worker. They are glue to the network, to files or to other libraries,
-- or come after the core. Arithmetic is that of a release build, where it wraps.
pub mod Prelude
pub mod Core
pub mod Catalog
pub mod Engine
pub mod Codemode
pub mod Host
