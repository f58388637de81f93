-- ===== src/Lib.antt =====
-- A verification library for the Python tools of KVL, a runtime for the Kimi-VL model that streams
-- its routed experts from disk.
--
-- Parts and files:
--
-- The Q8 expert store (tools/compact_expert_store.py, tools/verify_compact_expert_store.py). A
-- store is a data file and an index of it. `compact_store` copies the records that a mask does not
-- disable into a new store and writes the mask beside it; `verify_compaction` checks the new store
-- against the old.
--   ExpertStore: the index file, `read_index`, and what `compact_store` writes as an index.
--   ExpertStore/Mask: `read_mask`, and the text `write_mask_sidecar` writes.
--   ExpertStore/Files: paths, the file store, `mask_sidecar_path`.
--   ExpertStore/Compact: `copy_exact` and `compact_store`.
--   ExpertStore/Verify: `_records_by_id` and `verify_compaction`.
--   ExpertStore/Index, RoundTrip, Reader, Checked, Strict: the index, written and read.
--   ExpertStore/KeySets, MaskRoundTrip, MaskReader, Sidecar: sets of experts, the mask read back.
--   ExpertStore/Copy, Compacted, Outcome, Compaction: the loops of `compact_store`, then the whole of
--   it.
--   ExpertStore/Chunks, Lookup, Verified, Verification, EndToEnd: the loops of
--   `verify_compaction`, then the whole of it, and the two tools together.
--   ExpertStore/Tests: a store of two experts.
--
-- The merging of experts (tools/merge_expert_store.py).
--   Merge: `read_index`, and `main` from the contents of its files on, which are four different files.
--   Merge/Manifest: `load_mapping` and the lookup of a prototype. Merge/Placed, Shared, Index,
--   Whole: the payloads, the records that share them, the index read back, and the whole run.
--   Merge/Tests: two experts.
--
-- The RAM plan (tools/kvl_memory_plan.py, and `KimiRuntime._plan` of tools/kvl_api.py, its client).
--   MemoryPlan: the plan and the request. MemoryPlan/Budget: the automatic budget. MemoryPlan/Grants:
--   which requests are accepted, in numbers of bytes. MemoryPlan/Request: requests as text.
--   MemoryPlan/Tests: a request of a small machine.
--
-- The local HTTP adapter (tools/kvl_api.py). It turns the requests of two chat protocols into prompts,
-- runs the generator's process for each, and answers with JSON or a stream of events.
--   Api: what it raises, and what it takes of Python. Json: the values of requests and replies.
--   Api/Content, Dialogue: `_flatten_text_content`, `_flatten_system`, `_tool_note` and
--   `_format_dialogue`. Api/Supported, Turns: which contents are taken, and the prompt read back.
--   Api/World: what is sent to the client, which may leave before any write, and what is done to the
--   host. Api/Backend, Process: `KimiRuntime`, its `generate` apart.
--   Api/Replies, Requests, Server: the JSON of the replies, and `KimiRequestHandler`.
--   Api/Outcomes: a logic of what an action returns and sends. Api/Reference, Streams, Generation:
--   `generate` against a generation that only computes. Api/Events, Answers, Routes, Posts: the streams
--   and what every request is answered. Api/Cleanup, Hosts: files and processes that are left.
--   Api/Tests: a generator that says `Hi`.
--   A `Backend` is the tokenizer, the incremental decoder and the process; a `Python` is `str`,
--   `float`, `json` and the texts of exceptions; ids and the time are given with the server. The
--   status and the headers of a response count as one write. A run of the generator is the lines it
--   prints and its exit code.
--
-- The novelty of masks (tools/analyze_kimi_mask_novelty.py).
--   MaskNovelty: `read_direct_hits` and `analyze`, from the contents of the evidence on, its
--   directories in the order of their names. MaskNovelty/Totals: what the report counts.
--   MaskNovelty/Tests: a mask of two experts.
--
-- The samples of activations (tools/kimi_expert_reservoir.py).
--   Reservoir: `build_reservoir`, from the text of its trace on. Reservoir/Bounds: what is kept and
--   what is counted. Reservoir/Tests: three records. The record `Libraries` stands for numpy, json
--   and random.
--
-- The planner of expert bit widths (tools/kimi_mixed_bit_plan.py, `optimize`).
--   MixedBit: the table, its rounds and the plan. MixedBit/Table, Optimal, Sound: what the table
--   dominates, and what its items stand for. MixedBit/Tests: two experts.
--   Python's floats are a record of operations there, with named laws of `<` and `+`: NaN is out.
--
-- The index of a GGUF file (tools/index_kimi_gguf_q8.py).
--   GgufIndex: `part_info`, the slot of an expert and the loops of `main`. GgufIndex/Layout: where
--   the bytes of an expert land. GgufIndex/Order: which entry stands where. GgufIndex/Tests: two
--   experts. A tensor is a record of what the package `gguf` reads; the tensors of a layer are
--   looked up before.
--
-- The simulator of dynamic expert skips (tools/simulate_kimi_dynskip.py).
--   Dynskip: `classify_prompt`, a machine of six states, and `apply_policy`, whose floats are a record
--   of operations, the built-in `sum` among them. Dynskip/Traces: `load_policy`, `parse_trace` and
--   the ids of a prompt. Dynskip/Simulate: `simulate`, from the texts of its files on.
--   Dynskip/Classes: the turns of a dialogue. Dynskip/Policy: the number of skipped routes.
--   Dynskip/Totals: what a simulation counts. Dynskip/Tests: a short dialogue, and a trace of three
--   rows.
--
-- Python's own: Text (strings as lists of code points: strip, split, splitlines, int), Text/Utf8,
-- Text/Print (decimal numbers) and Text/Pieces; Struct (the module `struct`, little-endian).
-- Prelude: lists, tests, the result type and integers.
--
-- How the model corresponds to the code. A file is `some` list of bytes, or `none` where it is
-- missing. A map from numbers to contents is the disk, and `resolve` says which paths are the same
-- file; it is a parameter. A Python exception is `err` of a constructor that names the `raise`;
-- its message is left out. A set of pairs is a list without duplicates. `sha256` is a parameter,
-- and no theorem assumes anything of it. Python's integers are unbounded, and so are the model's:
-- ℕ where the code has read an unsigned field or tested the sign, ℤ elsewhere; `struct.pack` on a
-- number that its field cannot hold is an `err`.
--
-- Fuel: `copy_chunks` and `verify_chunks` take the number of remaining bytes as fuel, which is
-- enough since each chunk has at least one; `fill` takes the number of routes, of which each round
-- keeps one more; `show` takes the number and one more.
--
-- Not modelled: of the adapter the lock between its threads, the log, the limit on recursion, faults
-- that are not named in Api, lone surrogates in the texts of a stream, headers that the package
-- `http.server` adds, and the start of the server; the directories that are made and the tests that
-- they exist, errors of the operating system but for a missing file, the quotient and the constant
-- entries of the reports, the command lines and the JSON they write, decimal digits beyond ASCII in
-- `int`, the newlines of Windows in what is written, and the characters beyond ASCII in `lower`.
-- The runtime in C, the scripts that run experiments, and the arithmetic of numpy and torch on
-- floats are outside this library.
pub mod Prelude
pub mod Text
pub mod Struct
pub mod Json
pub mod MemoryPlan
pub mod Api
pub mod ExpertStore
pub mod Merge
pub mod MaskNovelty
pub mod Reservoir
pub mod MixedBit
pub mod GgufIndex
pub mod Dynskip
