-- ===== src/Lib.antt =====
-- ResidualEngineAudio: the voice engine, modelled and verified.
--
-- The program is a voice-chat engine in C. A host captures sound and hands frames to the engine
-- (src/voice.c), which encodes them with Opus (src/rv_opus.c), wraps each in a VOICE packet
-- (src/rv_netproto.c) and queues it for the host's transport. Packets that come back from the network
-- are parsed, put into the jitter buffer of their speaker (src/rv_opus_jitter.c), decoded once a
-- round, and announced as events (src/rv_event_queue.h) that the host polls; the host may also ask
-- for one mixed frame. Every entry point is a function from the state of the engine to its result
-- and the new state, so a host is a list of calls (Voice.Invariant.Reach).
--
-- Which file models what:
--   Base               shared helpers: C integers as native numbers, arrays as lists, bit operations.
--   Netproto           src/rv_netproto.h and src/rv_netproto.c: flags, byte order, the images of the
--                      packed structs, the builders and the parsers. A negative C result -k is err k.
--   Ring, Queue        what the three queues share, and the bounded queue that each promises to be.
--   Event, EventQueue  the events of include/residual_voice/voice.h, and src/rv_event_queue.h.
--   OutQueue           out_push and out_pop of src/voice.c.
--   CaptureRing        rv_spsc_pcm_ring_t of src/voice.c. Threads is a push and a pop as the accesses that
--                      they make to shared memory, a relation between the states of both threads.
--   OpusJitter         src/rv_opus_jitter.h and src/rv_opus_jitter.c. View is the buffer as a partial
--                      map from sequence numbers to payloads, on which the other theorems are stated.
--   PcmJitter          src/rv_pcm_jitter.h and src/rv_pcm_jitter.c.
--   Opus               src/rv_opus.h and src/rv_opus.c. libopus is a parameter, the record Codec; what
--                      its documentation promises of sizes is the record Documented. Lifetime is what
--                      the coders take and give back.
--   Voice              src/voice.c: State and Create the struct and rv_voice_create,
--                      Lifetime the blocks that it takes and rv_voice_destroy, Emit the log and
--                      error events, Capture the way out, Ingest and Tick the way in, Session the
--                      connection, Events what the host polls, Mix the mixed output. Invariant says
--                      which states are valid, and that every call keeps them so.
--   Relay              src/rv_relay.h and src/rv_relay.c, the table of a server that forwards packets
--                      between the members of a session. What it sends is a list of addresses.
--   RelayMain          src/rv_relay_main.c, the server: its loop is a function of the list of what its
--                      socket gives in turn.
--   Transport          src/rv_transport.h and src/rv_shim_transport.c, the pumps between an engine and a
--                      host's transport; the transport is a record of functions on a state of its own.
--   Udp                src/rv_udp_win32.c, src/rv_transport_udp.c and src/rv_shim_udp.c. The socket library
--                      and the allocator are the record Winsock; Accounts and Families are what their
--                      documentation says of resources and of addresses.
--   Network            an engine, the relay and a second engine together.
--
-- Bounds and fuel. Counters and sequence numbers wrap at the width that C gives them. The loop of
-- rv_voice_tick over the capture queue takes as an argument what the audio thread submits before each
-- of its pops, and has fuel for 17 rounds more than that list has, as the queue holds at most 16 frames
-- (Voice.Tick.Drain). A thread that never stops submitting keeps the loop of the code going too. An
-- outgoing pump has fuel for 257 rounds, and the queue holds at most 256 packets (Transport.Outgoing).
-- An incoming pump runs for as long as its transport has packets, so its fuel is an argument. All other
-- loops are over lists or counts.
--
-- What is not modelled. A handle is never null, and an allocation of the engine fails where the records
-- Memory (Voice.Create) and Alloc (Voice.Lifetime) say so. The two threads of the capture queue see each
-- other's accesses in one order, as the acquire and release orders of the code ensure; CaptureRing.Threads
-- interleaves their accesses, and in Voice.Tick a submit falls between two rounds of the loop. There is
-- one allocator: voice.c chooses between the host's functions and malloc and free at each call, and a
-- host that gives only one of the two is not represented. Products of two C ints (frame_samples in
-- rv_opus.c) and casts of sizes to int are unbounded, except for the result of rv_voice_mix_output. A
-- payload is the list of its bytes, not a pointer into the buffer that was parsed. A packet that the
-- relay sends is a call of its send function, whose failure it ignores. The packed structs have the
-- layout of a little-endian host. The functions of the socket library, of libopus and strtol are
-- parameters. What the relay prints, and its sleeps, have no effect on its state.
pub mod Base
pub mod Netproto
pub mod Ring
pub mod Queue
pub mod Event
pub mod EventQueue
pub mod OutQueue
pub mod CaptureRing
pub mod OpusJitter
pub mod PcmJitter
pub mod Opus
pub mod Voice
pub mod Relay
pub mod RelayMain
pub mod Transport
pub mod Udp
pub mod Network
