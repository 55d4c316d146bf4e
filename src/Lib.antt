-- ===== src/Lib.antt =====
-- UAAgro voice agent: a verification library for the parts of the system that decide. The agent
-- answers and places phone calls to farmers in Hindi. Its voice worker drives a call through
-- vendors (speech recognition, a language model, speech synthesis, telephony), and its background
-- worker dials campaigns. What follows is modelled from the Python sources at this commit.
--
-- The parts and their files:
--
-- Prelude (Prelude.antt, Prelude/Tests, Lists, Texts, Keys): Boolean tests on the native numbers,
-- lists measured by them, texts as code points, an equality interface and Python's dict over it.
--
-- AudioCache: apps/voice-worker/src/voice_worker/runtime/audio_cache.py. AudioCache/Defs has `get`,
-- `put` and invalidate_local over the local layer and MemoryAudioStore, each call of the store given
-- with whether it returns; AudioCache/Abstract compares a run of them with one map. The hash that
-- makes a key is left out.
--
-- Auth: apps/api/src/api/routers/auth.py with apps/api/src/api/security/tokens.py and deps.py.
-- Auth/Store has the rows of packages/db/src/uaagro_db/models/org.py, Auth/Tokens the refresh
-- tokens, Auth/Signin the handlers, Auth/Requests a handler in the transaction of unscoped_db,
-- which is rolled back where the handler raises. Auth/Spent and Kept follow rows that are spent,
-- Auth/Once and Rollback are about sequences of requests, Auth/Guarded and Guesses about the first
-- step behind its rate limits. What hashes, signs and encrypts is a parameter.
--
-- Breaker: apps/voice-worker/src/voice_worker/adapters/resilience.py. Breaker/Defs has
-- CircuitBreaker (a record of failures, opened_at and probing with the two settings), `state`,
-- `retry_in` (retry_in_s), `admit` (_admit), `succeeded` (_succeeded), `record_exc` (_record),
-- `call` (one that no other call overlaps) and the registry of breaker_for. Breaker/Probe has
-- overlapping calls as sequences of admissions and records, by the calls' numbers where it
-- matters whose they are. Breaker/Streaming models the `start` of adapters/stt/soniox.py, which
-- uses the breaker around a connection, with attempts that overlap.
--
-- CallFlow: apps/voice-worker/src/voice_worker/flow/state.py. CallFlow/States has the states and
-- the TRANSITIONS graph, CallFlow/Defs has CallFlow with `can`, `to`, `record_turn` and
-- `silence_action`, the search _reachable_from with its clients, and outcome_for; intents and
-- outcomes are those of packages/domain/src/uaagro_domain/enums.py. The search runs on 64 units
-- of fuel: each turn takes one, the graph has 13 states and 18 edges, and the theorem on it shows
-- that the result is there.
--
-- Compliance: packages/domain/src/uaagro_domain/compliance.py. Compliance/Defs has the checks of
-- one contact, `first_failure` and `next_retry`; Compliance/Gate has the checks of a campaign,
-- `evaluate` and the report. The conversion to the clock in India (`ist`, milliseconds since
-- midnight) and str.isdigit (`is_digit`) are parameters.
--
-- Dialer: apps/worker/src/worker/dialer.py and apps/worker/src/worker/campaign.py. Dialer/Defs
-- has the loop of Dialer.run over the contacts, with what it awaits as one Tick for each
-- contact, and _apply_control; it is generic in the world that `recheck` reads and `dial`
-- writes. Dialer/Campaign instantiates it with the campaign's rows: _reload_contact,
-- _record_attempt, _attempt_failed and run_campaign around them. The dialer calls the gate of
-- Compliance twice, before the run and before each dial. visit_later has the recheck and the
-- dial at two moments, with the wait for the semaphore between them; in the runs that are built
-- of `visit` they are one moment, and a dial ends before the next one begins. Dialer/Overlap has
-- the loop with its tasks instead, as a step function: contacts that wait for the semaphore,
-- dials under way and answers in any order; there the check is a function of the contact and the
-- moment, and the rows are left out.
--
-- Numbers: apps/voice-worker/src/voice_worker/text/numbers.py. Numbers/Tables has the words, the
-- scale words and the dictionary that _build_word_values makes; Numbers/Defs has to_hindi_words,
-- to_hindi_price_words, digits_to_words, _accumulate, extract_numbers and parse_phone_number over
-- lists of words. Python's Decimal is a record of operations that are exact on whole numbers
-- within the precision, an instance argument; the texts that the regular expressions recognise as
-- literals are a parameter. to_hindi_words runs on the value as fuel: a count is smaller than the
-- value that it was divided from. parse_number's fractions and rupees_to_words are not modelled.
--
-- Playback: apps/voice-worker/src/voice_worker/runtime/playback.py with the framing of
-- runtime/audio.py. Playback/Tracker has iter_frames and PlaybackTracker, Playback/Defs
-- PacedSender, BargeInPolicy and handle_barge_in, with bytes as lists of numbers and what
-- happens between two frames as one flag for each frame. What other tasks do with the sender
-- while a barge-in awaits is given with it. The pacing clock is left out; a proportion of a
-- sentence is an exact quotient where the code uses a float.
--
-- Outbound: apps/voice-worker/src/voice_worker/outbound. Outbound/Reply has classify_reply and
-- dtmf_of, with `re` and `str.strip` as parameters; Outbound/Responder the OutboundResponder of
-- responder.py turn by turn, a turn given with what its callbacks come to and answered by the list
-- of what was said and done, in order (Outbound/Deeds, Honest, Verdict, Outcome, Turns and Questions
-- are about it); Outbound/Flow the flow and handlers of conversation.py (Outbound/Handlers);
-- Outbound/Script the script of packages/domain/src/uaagro_domain/script.py (Outbound/Stored). A
-- turn's generator runs to its end; one that the pipeline closes in between says a part of the same.
--
-- Escalation: apps/voice-worker/src/voice_worker/flow/escalation.py and tools/escalation.py.
-- Escalation/Engine has EscalationEngine, Escalation/Transfer TransferToHuman on the rows that the
-- database answers with, Escalation/Handed the agent's call of the tool with the engine's decision
-- (flow/agent.py); Escalation/Covered, Windows and Reached are about them. Readings are thousandths.
--
-- Limits: apps/api/src/api/security/ratelimit.py. Limits/Defs has `check` over a Redis that is
-- given with the laws of INCR and EXPIRE, and sequences of checks; Limits/Counts follows the count
-- of a key while its window lasts, Limits/Ceiling what passes in a window, Limits/Retry the delay;
-- Limits/Memory has a Redis that fails on demand, for the tests.
--
-- LiveFeed: packages/domain/src/uaagro_domain/livefeed.py. LiveFeed/Defs has RedisLiveFeed with
-- asyncio's bounded queue as a list; LiveFeed/Delivery follows it through publishes, turns of
-- `_drain` and closes in any order. A close that cancels the task in the middle of a publish is
-- a step of its own, given with whether Redis got the event.
--
-- Mulaw: apps/voice-worker/src/voice_worker/adapters/telephony/mulaw.py. Mulaw/Defs has the two
-- directions on 16-bit words and on bytes, bit operations written as arithmetic; Mulaw/Codec
-- compares them, by tables of 256 bytes, 128 codes and 8,160 sizes that are evaluated.
--
-- Validator: apps/voice-worker/src/voice_worker/flow/validator.py. Validator/Figures has the
-- numbers of a text and `_fold` on code points, Validator/Results the tree of a tool's result
-- with to_dict of tools/base.py, Validator/Check OutputValidator and ValidatedGeneration, whose
-- loop counts its attempts down. Validator/Readings has what the numbers of a text are, apart
-- from the search for them, Validator/Kept that none of them folds to nothing, and
-- Validator/Grounds what figures and advice rest on. The regular expressions besides that of
-- numbers are parameters.
--
-- Voice: apps/voice-worker/src/voice_worker/runtime/vad.py and turn/base.py. Voice/Gate has
-- VoiceGate with levels in hundredths of a decibel, the numpy measures of a frame and the clock as
-- parameters; Voice/Events, Onset and Feeding are about it. Voice/Turn has the silence detector,
-- with exact tenths where the code multiplies floats, and Voice/Silence is about it.
--
-- Phone: packages/domain/src/uaagro_domain/phone.py and
-- apps/voice-worker/src/voice_worker/runtime/direction.py. Phone/Defs has the normalisation on code
-- points, Phone/Direction classify_direction with the references that the start frame carries given
-- as found. Phone/Digits and Canonical are about the first, Phone/Parties about the second.
--
-- Tools: apps/voice-worker/src/voice_worker/tools/base.py. Tools/Schema has
-- validate_against_schema over a type of numbers that is a parameter, Tools/Registry the
-- registry, execute with its attempts (a call is given with what its runs come to, one after
-- another) and execute_many; Tools/Accepted has what a schema accepts, and Tools/Valid,
-- Execution and Allowed are about them. An execute that retries counts its attempts down, so it
-- needs no fuel.
--
-- Wer: packages/evals/src/uaagro_evals/wer.py. Wer/Defs has `align` on tokens as it fills its two
-- rows, with the four counts of a cell; Wer/Cells has the same table by recursion, and
-- Wer/Scripts the edit scripts that it is compared with. The Unicode normalisation that makes the
-- tokens is left out.
--
-- Times are natural numbers of milliseconds throughout.
--
-- Not modelled: the HTTP API but for sign-in and rate limits, the database layer (SQL over a
-- server), vendor adapters other than the part named above, prompts and the language model's
-- answers, the floating-point analysis of audio, the admin panel (TypeScript), logging, and the
-- demo site.
pub mod Prelude
pub mod AudioCache
pub mod Auth
pub mod Breaker
pub mod CallFlow
pub mod Compliance
pub mod Dialer
pub mod Escalation
pub mod Limits
pub mod LiveFeed
pub mod Mulaw
pub mod Numbers
pub mod Outbound
pub mod Phone
pub mod Playback
pub mod Tools
pub mod Validator
pub mod Voice
pub mod Wer
