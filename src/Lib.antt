-- ===== src/Lib.antt =====
-- The Argus kernel: a verification library for argus/crates/argus-kernel and for the native adapter
-- ex_argus/native/argus_nif.
--
-- The kernel governs agents that invoke tools. Agents form a tree below one root; a child holds
-- capabilities that its parent holds. Each agent has a set of confidentiality levels (its taint) and a
-- set of integrity levels. An invocation begins through a gate that compares these labels, and the
-- frozen outputs of the agent's pending invocations, with a policy snapshot and with per-egress
-- ceilings; it is then pending, or waits for an inspection, or is refused. Settlement absorbs the
-- frozen outputs into the labels or puts the record into quarantine. Outputs cross from agent to agent
-- by evidence and a counted grant, by releasing the source's labels, or not at all. The driver appends
-- an event for each accepted command before it commits the new state.
--
-- The adapter holds instances: a kernel state, a sequence number, and the head of a chain of digests.
-- A live instance checks a command against capacity limits, converts it to the kernel's types, applies
-- it, and answers an envelope whose digest is that of the canonical transcript of predecessor, sequence
-- number, command and action. A recovery instance replays recorded envelopes, each checked against what
-- applying its command yields, and hands over a live instance once the final anchor agrees.
--
-- Files, and the code that they model (paths under argus/crates/argus-kernel/src unless they are whole):
--   Prelude           shared names: Boolean tests, lists over the native numbers, equality, results
--   Collections       collections.rs: VecMap and VecSet, with the loops of their callers
--   Capability        capability.rs: CapKind and its catalog names
--   Types, Orders     types.rs: identifiers, levels and their orders, the structs
--   Background        background.rs: BackgroundTheory and its builder
--   Error, Event      error.rs, event.rs
--   State             state.rs: KernelState, its initial value, its views and bulk updates
--   Transitions       transitions.rs, one child module for each group of transitions: Registry, Agents,
--                     Holds, Ingest, Settle, Checks, Begin, Authorize, Cross
--   Invariants        the invariants of tzimtzum/Tzimtzum/Invariants.lean over KernelState
--   Gates             what the holds and the checks decide
--   Outcomes          what an accepted transition required and what it left
--   Preservation      the invariants across each transition
--   Command           ex_argus/native/argus_nif/src/command.rs: CommandN and CommandN::apply, over the
--                     kernel's types; the runs of accepted commands
--   History           the consumed identifiers
--   Safety            containment, label growth, revocation, and the root agent
--   Kernel            kernel.rs and traits.rs: the driver; its authorizer and event store are
--                     interfaces that the driver takes as instances
--   Nif               ex_argus/native/argus_nif/src, one child module for each file:
--     Text            the bytes of a String, as the language defines them
--     Enums           enums.rs: the wire enumerations and their conversions
--     Wire            wire.rs: the structs, the commands, the actions, BackgroundN, EnvelopeN, ChainN
--     Event           event.rs: ActionN, KernelErrorN, ErrorN
--     Command         command.rs: CommandN, its tags, and CommandN::apply with its conversions
--     Chain           chain.rs: the transcript's writers, genesis and link; Cancel reads a transcript
--                     back, Sets and Links say what two equal transcripts share
--     Limits          limits.rs: the bounds, the text budget, check_command, preflight; Fits, Answers
--                     and Crossings say what preflight lets through
--     Instance        instance.rs: Resource has the live and the recovery instance; the others are
--                     about what replay accepts, what sessions reach, what a refusal leaves, and
--                     what an anchor tells of a log
--   Tests             a run of the kernel, and the properties at concrete inputs
--
-- Correspondence. A Rust function that takes the state by value and returns a result is a function from
-- the state to `Result KernelError (KernelState × KernelAction)`, its guards in order as a do block.
-- The part behind the guards is a definition of its own (`delegated`, `ingested`, `settled`, `resolved`,
-- `crossed`). An index loop over a collection is `for_entries` or `for_items` with the loop's body, which
-- is structural recursion, so no fuel is needed. `VecMap` keeps the first position of a key, and
-- its lookups return the last entry with the key, as the source's loops do. Equality on identifiers is
-- string equality. `u32` counts and the `u64` sequence are native numbers with their wrap-around written
-- out where the source computes on them; an argument of either type is any number. The
-- `EventStore` and the `AuthorizerOracle` pass their own states on, because `append` and `allows` may
-- change them behind a shared reference.
-- The arguments of `begin_invocation` are one record, `BeginInput`.
--
-- In Nif, a writer takes the bytes that follow: `w v rest` is what the source writes for `v`, then
-- `rest`; the two sinks of the source, a vector and a hasher, are this one list. SHA-256 is the parameter
-- `Sha256` of the definitions that use it, any function from
-- bytes to digests; a digest is a list of 32 numbers below 256. A `HashMap` is the
-- function that reads it. A `Mutex` is free with its value, or busy, or poisoned; a call that takes a
-- free lock and returns leaves it free. `usize` and `u64` have 64 bits, and their checked sums are
-- written out, as are the casts of lengths to `u32`. The library's unstable sort by tag is an
-- insertion sort: members with one tag are equal, so that every sort by tag gives this list. The cases
-- of a `match` with code of some length are definitions of their own.
--
-- Not modelled: Display, iterators and conversions of the collections that the kernel does not call;
-- the term encoder and decoder of rustler and the NIF entry points, which wrap the calls modelled here;
-- the projection StateN of a state for a reader (state.rs, LiveInstance::state); MAX_REPLAY_CONTENT_BYTES,
-- which no code uses; the Elixir side; and the Lean developments, from which the invariants are read.
pub mod Prelude
pub mod Collections
pub mod Capability
pub mod Types
pub mod Nif
pub mod Orders
pub mod Error
pub mod Event
pub mod Background
pub mod State
pub mod Transitions
pub mod Invariants
pub mod Gates
pub mod Outcomes
pub mod Preservation
pub mod Command
pub mod History
pub mod Kernel
pub mod Safety
pub mod Tests
