-- ===== src/Lib.antt =====
-- A verification library of LLM vs Zombies: the parts of the Python package (src/llm_vs_zombies) and
-- of its examples that carry state of their own, as executable definitions with theorems.
--
-- The program drives a game tick by tick and keeps evidence of what happened. Its parts that are
-- modelled here, and their files:
--   * Audio (src/llm_vs_zombies/virtual_audio.py), the audio model that runs on ticks alone. Its data
--     are Audio/Types, and the checks of a soundscape Audio/Checked.
--     `TickMixer` is Audio/Mixer (queries, stop, pause) and Audio/Writes (play, resume, the setters),
--     one function per method on a record of the mixer's fields; a voice object is the entry of
--     `voices` at its id, and its segments stand newest first. `pitch_rate` is Audio/Pitch. The two
--     devices are Audio/Device, values of one record of methods over the device's state, which is what
--     `FoleyMachine` sees of them. `MixerObserver` is Audio/Observer. `FoleyMachine` is Audio/Foley
--     (slots, the random numbers, the sweeps over every slot) and Audio/Entry (play, stop, game_pause,
--     is_foley_playing), and `run_stream` is Audio/Stream. `compare_traces` is Audio/Compare, over the
--     equality of its dictionaries, which Audio/Equality gives field by field; `voice_end_tick` and
--     `union_frames` are Audio/Intervals. Floats are a parameter: the comparisons, products and the
--     pitch power that the code uses, with no laws assumed of them.
--   * Video (src/llm_vs_zombies/video.py), the streaming video on a tick grid: `__init__` is
--     Video/Opening, the methods are Video/Frames. A method returns the object that it leaves with the
--     exception that it raises, if any. The encoder is a parameter that says which writes fail; the
--     sidecar is the list of its lines and the manifest a value.
--   * Recorder (src/llm_vs_zombies/recording.py), `TickRecorder`, which drives a Video with frames of a
--     provider; the provider's answer, a frame, a reason or an exception, is an argument.
--   * Lease (src/llm_vs_zombies/branch_workers.py), the journal of device leases: the open records, the
--     parent's sealing of a window, and the verification of a journal.
--   * Trace (src/llm_vs_zombies/session.py), the append-only audit file and its lock.
--   * Scenario (examples/liangyi_gargantuar_a.py and liangyi_gargantuar_b.py), the forked strategies.
--   * Json has JSON values and what the readers of evidence do with them: `same` of
--     src/llm_vs_zombies/sound_effects.py is Json/Same, Python's `==` Json/Equal, and of
--     src/llm_vs_zombies/audit_compare.py `first_difference` is Json/Difference, `_parse_tokens` and
--     `_index` are Json/Pointer, and `patch` is Json/Patch. A dictionary is the list of its fields in
--     insertion order, a float the bits of its binary64 value.
--   * Actions (src/llm_vs_zombies/action_compare.py), the comparison of two runs' actions, which
--     normalizes their steps and takes their first difference by Json/Difference.
--   * Codec (src/llm_vs_zombies/evidence_codec.py): a directory is Codec/Directory, `compress_evidence`
--     Codec/Compress and `EvidenceStore` Codec/Store. gzip and SHA-256 are parameters, and a table says
--     at which step the operating system raises for which name, and whether it raises after the loop, where
--     no handler is.
--   * Client (src/llm_vs_zombies/client.py): `FramedTransport` is Client/Framing, over a stream that is
--     the list of the answers it will give; `_version` and `_completed_step` are Client/Step, and the
--     scope of a branch, with `_adopt_branch_scope`, is Client/Branch.
--   * Workers (src/llm_vs_zombies/cold_workers.py), `schedule`: what a poll of a worker, a start and a
--     wait answer is a parameter, and a worker's age counts its polls.
--   * Lifecycle (src/llm_vs_zombies/lifecycle_events.py), the order of a session's records and the
--     nesting of its invocations.
--   * Coverage (src/llm_vs_zombies/b0_coverage.py), the leaves of a captured state, the patterns that
--     claim them, and `_type_at`.
--   * Base has what they share: tests on numbers, lists, integers, results of code that raises, texts
--     and dictionaries.
-- A module of proofs is named for what it proves (Audio/Resume, Video/Timeline, Lease/Windows); the
-- modules named Tests hold the theorems at concrete inputs.
--
-- Numbers are Python's, which have no bound; the one wrap-around, of the random numbers' state, is
-- written out. Loops are recursions on their lists; some run on fuel. The loop of `_fill_gap` has the
-- ticks to the stamp as fuel, and a pass moves on by a stride of at least one tick. A scenario's run
-- has the budget and two more, since a decision that does not advance acts, which happens twice.
-- The loops of `schedule` have rounds as fuel: every round takes a poll from a running worker or starts
-- a pending task, so that a worker's bound of polls and two more for each task are enough. `str(n)` has
-- `n + 1` rounds, each of which divides by ten. `math.gcd` recurses on accessibility.
--
-- Not modelled: input and output, JSON text, hashing, gzip, threads, processes and windows; in
-- virtual_audio.py the reading of soundscapes and the mixing of samples; an observer that mirrors
-- into the very mixer that the device plays on; the fields of reports that label and do not decide.
-- The rest of the package, the tools and the native code are listed as not modelled in the manifest.
pub mod Base
pub mod Json
pub mod Actions
pub mod Codec
pub mod Client
pub mod Workers
pub mod Lifecycle
pub mod Coverage
pub mod Audio
pub mod Video
pub mod Lease
pub mod Scenario
pub mod Trace
pub mod Recorder
