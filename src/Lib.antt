-- ===== src/Lib.antt =====
-- LiveQuiz: a quiz platform with live matches, after the Python code under backend/app.
--
-- A host opens a room for a quiz and starts a match; its questions are armed and closed by timers;
-- players submit answers over HTTP; scores go to a live leaderboard in Redis; the end of the match
-- writes the final scores. Facts are stored in PostgreSQL, each change together with an event in an
-- outbox table, in one transaction.
--
-- Floats: binary64 arithmetic, a parameter with the laws of correct rounding; Floats.Fixed is a
--   concrete instance.
-- Errors: `AuthError` of core/security.py, and results that leave the state alone on an error.
-- Ids: core/ids/snowflake.py (`next_id`, `_wait_until_next_ms`, `decode`). The clock is the list of
--   its answers.
-- Scoring: `score` of services/scoring_service.py.
-- Store: the rows of db/models and the tables. Times are microseconds since the Unix epoch.
-- Live: what is outside the tables: the keys of cache/leaderboard.py (Live.Leaderboard) and
--   cache/idempotency.py (Live.Idempotency), the `MatchScheduler` of services/match_service.py
--   (Live.Scheduler) and the messages sent.
-- Match: services/match_service.py, one module for each operation: Match.Start (`start_match`),
--   Match.Questions (`arm_question`, `close_question`), Match.Control (`pause_match`,
--   `resume_match`), Match.Finish (`end_match`), Match.Admission, Match.Grading and Match.Submit
--   (`submit_answer`), Match.Recover (`recover_running_matches`), over the queries of Match.Queries.
--   Match.Lifecycle has the operations as steps of the program. Match.Reading is
--   `read_leaderboard`. Match.Submit.Faults is `submit_answer` when a command of Redis
--   raises, as none does in the other modules; Match.Submit.Healthy relates the two.
-- Outbox: `_process_batch` of workers/outbox_publisher/app/main.py, with the broker's answers as an
--   argument. Rooms: `join_room` and `create_room` of services/room_service.py with the capacity
--   scripts of cache/redis.py; Rooms.Snapshot: the snapshot of a room, its writer and
--   `build_snapshot`; Rooms.Reconnect: what a client that connects then sees.
-- Quizzes: services/quiz_service.py and repositories/quiz_repo.py. Quizzes.Slots is the order of a
--   quiz as its clients mean it, Quizzes.Unique an UPDATE under a unique constraint,
--   Quizzes.Positions the statements that renumber questions, Quizzes.Edit the operations on
--   questions, Quizzes.Catalog quiz sets and who sees them, Quizzes.Publish the publication. The
--   other modules have the laws: Quizzes.TwoPhase, Shift, Parked and Move of the statements,
--   Quizzes.Adding, Removing and Updating of the operations, Quizzes.Publishable and Visible of
--   publication and reading.
-- Moderation: services/moderation_service.py: the scan and the reports, and the decisions in
--   Moderation.Decide. Moderation.Hidden and Moderation.Muted say what a decision means to the
--   quizzes, the rooms and the matches.
-- Auth: `refresh` and `logout` of services/auth_service.py with core/security.py. Auth.Tokens is what
--   the server signs and the dependencies of api/deps.py, Auth.Accounts registration and login. The
--   laws are in Auth.Rotation, Separation, Entering and Admitted; Moderation.Banned is about a ban.
-- RateLimit: the token bucket of cache/rate_limit.py.
-- Sockets: ws/connection_manager.py, the registry of the connections of one replica.
--   Sockets.PubSub is the fan-out across replicas of ws/redis_pubsub.py, Sockets.Messages the
--   protocol of ws/messages.py; Sockets.Handshake, Sockets.Dispatch and Sockets.Receive are
--   ws/router.py. The laws are in Sockets.Registry, Fanout and Kicked, of who is connected and what
--   reaches whom, and in Sockets.Attempts, Own and Endpoint, of the answers that pass a socket.
-- Stream: workers/stream_worker/app: the buffers of clickhouse_client.py, the handlers and the
--   dedupe claim in Stream.Messages, the consumer loop of main.py in Stream.Consumer.
-- Tests: concrete inputs.
--
-- A transaction is a function from tables to a result with tables: an error leaves the tables as
-- they were. The steps after a commit are a function on the world. A transaction is one step: the
-- row locks of PostgreSQL and the transactions that could overlap are left out. The code does not
-- force all of them apart: `submit_answer` locks the question and reads the match with no lock,
-- while `end_match` locks the match and the room. The ids that
-- the generator gives and the time of the server are arguments. A task is known by a number; a
-- task that cancels itself stops at its next query. No definition needs fuel.
--
-- In quizzes, positions are naturals below the sentinel; the ids of new options are fresh; an
-- IntegrityError that is not caught is an answer with a 500. The text functions of Python and the
-- compiled patterns of the policy of moderation are parameters.
--
-- The sends of a socket succeed or fail by a parameter, JSON and pydantic are parameters, and so is
-- the arithmetic of Lua. The clocks of a replica and of Redis agree.
--
-- Not modelled: HTTP routing and schemas, the rate limits of the HTTP routes but for logins (a join
-- takes the answer of the limiter as an argument), analytics, the loading of the
-- policy of moderation, the order and paging of listings, the snapshot queries of the stream
-- worker, telemetry, what a match writes to the room snapshot beyond its status, and that keys of
-- the live state in Redis expire. ZREVRANGE of Redis is a parameter.
mod Prelude
pub mod Floats
pub mod Errors
pub mod Ids
pub mod Scoring
pub mod Store
pub mod Live
pub mod Match
pub mod Outbox
pub mod Rooms
pub mod Quizzes
pub mod Moderation
pub mod Auth
pub mod RateLimit
pub mod Sockets
pub mod Stream
pub mod Tests
