-- ===== src/Lib.antt =====
-- pulseFM plays one song after another, generated from what its listeners vote for. This library
-- models the part of it that keeps the station and the votes, and proves what makes it correct.
--
-- The parts, and the files that model them:
--   * packages/pulsefm-redis/pulsefm_redis/client.py, the shared state of a poll in Redis: Redis.antt
--     (the server as an interface with the laws of its commands), Redis/Keys (the names of the keys),
--     Redis/Playback (the snapshot of what is playing), Redis/Poll (tallies, voters, and the two Lua
--     scripts that open a poll and record a vote). Redis/Memory is a store that meets the laws.
--   * packages/pulsefm-pubsub and packages/pulsefm-tasks: Outbox/PubSub and Outbox/Tasks, which add
--     what they send to an Outbox.
--   * packages/pulsefm-descriptors/pulsefm_descriptors/data.py: Descriptors.
--   * services/vote-api/pulsefm_vote_api/main.py, POST /vote: Voting/Api.
--   * functions/tally-function/main.py, which counts a vote: Voting/Tally. Its own copies of the key
--     names, of the snapshot's reader and of the vote script are word for word those of
--     packages/pulsefm-redis and are modelled there. Voting/Delivery joins the two through Cloud Tasks.
--   * services/playback-service/pulsefm_playback_service/main.py: Playback (the Firestore documents,
--     the environment), Playback/Ids (utilities), Playback/Votes (opening and closing a vote),
--     Playback/Rotation (the changeover transaction), Playback/Refresh (POST /next/refresh),
--     Playback/Tick (POST /tick, POST /vote/close, the tick that the start schedules).
--     Playback/Collection is a collection of songs that meets the laws. Playback/Votes/Window joins the
--     poll in Redis and the vote that is closed, Playback/Tick/Windows the tick that opens both.
--   * scripts/seed_firestore.py, which writes the first station: Playback/Seed.
--   * services/modal-dispatch-service/pulsefm_modal_dispatch_service/main.py: Dispatch (a close event, with
--     the lock and the marks in Redis and the calls of Modal) and Dispatch/Events (POST /events/vote with
--     the open event, POST /warmup).
--   * functions/next-song-updater/main.py, which asks for a refresh when a song is finished: Updater and
--     Updater/Names.
--   * functions/heartbeat-ingress/main.py and functions/heartbeat-receiver/main.py, which keep the mark
--     that listeners are there: Heartbeat and Heartbeat/Keys. modal-dispatch-service reads the mark.
--   * services/playback-stream/pulsefm_playback_stream/main.py, which serves the state and the event stream
--     of the listeners: Stream (the state of the process), Stream/Cache (CachedValue), Stream/State (the
--     methods of StreamState), Stream/Scan (the loop over SCAN), Stream/Fetch (reads through the caches),
--     Stream/Events (POST /events/tally, /events/playback, /events/vote), Stream/Status (GET /state, GET
--     /health), Stream/Sse (the events as text), Stream/Deltas (TALLY_DELTA, with the listener's addition
--     from client/hooks/useStreamPlayer.ts), Stream/Listener (one round of checks) and Stream/Connection
--     (GET /stream). It reads what Redis/Playback, Redis/Poll and Playback write.
--   * services/worker/pulsefm_worker/app.py, which generates a song on a GPU: Worker (MusicGenerator.generate),
--     Worker/Prompt (build_prompt) and Worker/Names (the bucket and the name of its upload).
--     Worker/Dispatched joins it and the dispatch service.
--   * services/encoder/pulsefm_encoder/main.py and config.py, which encode an uploaded song: Encoder (POST /),
--     Encoder/Events (which uploads it encodes) and Encoder/Names. Encoder/Pipeline joins
--     the worker, the encoder and next-song-updater.
--
-- How the code is read:
--   * A handler is an Action: a function of the state to a result and the state, which comes back after
--     an exception too (Base/Action). `Exception` keeps what the handlers tell apart.
--   * Redis, Firestore, Pub/Sub and Cloud Tasks are parameters: Redis and the songs collection by their
--     operations with laws, every other call by a Boolean that tells whether it succeeds. A Firestore
--     transaction that raises writes nothing. Cloud Tasks keeps the list of the tasks that it
--     took, and Pub/Sub that of the messages: for heartbeat-ingress those whose Future succeeds, for the
--     other senders, which do not look at the Future either, those that the publisher's client took.
--   * Clock readings, random choices and new ids are fields of the environment, one for each reading.
--     Instants and durations are natural numbers of microseconds or milliseconds, as their names say.
--   * playback-stream reads its clocks any number of times in a request, so its world holds the sequence of
--     the readings. Its handlers run one after the other; what other handlers do while a connection sleeps,
--     sends HELLO, reads the snapshot for SONG_CHANGED or sends an announcement are functions of the world,
--     given to the connection.
--   * A document has typed fields, and Option stands for a member that may be missing. Request payloads
--     are JSON values as Python sees them (Base/Value), with the conversions `int` and `bool`.
--   * A call of the GPU's pipeline, of the codec or of the bucket is a Boolean that tells whether it succeeds;
--     one that fails leaves nothing behind. The body of a request to the encoder is a JSON object.
--   * Nothing recurses except on lists and texts, so no fuel is needed: the loop of modal-dispatch-service
--     that retries until a deadline recurses on the outcomes of the attempts before the deadline, a
--     connection of playback-stream on its rounds until the listener leaves, and the loop over SCAN on the
--     promise that an iteration ends.
--
-- Not modelled: the time at which keys in Redis expire; commands on a key of the wrong type; that
-- `int` limits a text to 4300 digits and reads digits outside ASCII; Firestore documents whose fields
-- have other types than the code writes; logging, but for the KeyError of next-song-updater; a
-- publication that fails after the client has taken the message, for the senders other than
-- heartbeat-ingress; the interleaving of handlers of playback-stream at other awaits than those named
-- above; how the worker loads its model, its smoke test and its entry point; and the packages for sessions
-- and request models, the client and the deployment.
pub mod Base
pub mod Outbox
pub mod Snapshot
pub mod Redis
pub mod Voting
pub mod Descriptors
pub mod Playback
pub mod Dispatch
pub mod Updater
pub mod Heartbeat
pub mod Stream
pub mod Worker
pub mod Encoder
