-- ===== src/Transport.antt =====
-- The pumps between the engine and a host's transport: src/rv_transport.h and
-- src/rv_shim_transport.c. The two structs of function pointers have the same two members, and
-- the `user` pointer is the state that the functions read and change.
pub mod Outgoing
pub mod Incoming
mod Examples
use residual_engine_audio.Base.{
  ℕ, zero, suc, ◌+◌, ◌==◌, Bool, true, false, Option, some, none, List, length, Result, ok, err,
}
use residual_engine_audio.OutQueue.{max_pkt_size}
use residual_engine_audio.Voice.State.{Voice}
use residual_engine_audio.Voice.Events.{poll_outgoing}
use residual_engine_audio.Voice.Ingest.{ingest_packet}

-- `send` gives the bytes sent or an error, `recv` the packet received, which is empty if there is
-- none, or an error. A null pointer is `none`.
pub record Transport (User : Type 0) : Type 0 where
  pub send : Option (User → List ℕ → Result ℕ × User)
  pub recv : Option (User → ℕ → Result (List ℕ) × User)

-- What a pump returns, `none` if the fuel ran out, and the two states that it leaves.
abbrev pub Pumped : Type 0 → Type 0 → Type 0 → Type 0
Pumped User Encoder Decoder = Option (Result ℕ) × User × Voice Encoder Decoder

module _ {User Encoder Decoder : Type 0} where
  -- The loop of an outgoing pump: poll, send, count.
  unfoldable pub send_loop :
      (User → List ℕ → Result ℕ × User)
      → ℕ
      → User
      → Voice Encoder Decoder
      → ℕ
      → Pumped User Encoder Decoder
  send_loop send zero u v sent = (none, u, v)
  send_loop send (suc fuel) u v sent =
      let (polled, v') = poll_outgoing v max_pkt_size in
      elim polled [
        | err k ↦ (some (err 2), u, v')
        | ok pkt? ↦ elim pkt? [
          | none ↦ (some (ok sent), u, v')
          | some pkt ↦
              let (s, u') = send u pkt in
              elim s [
                | err k ↦ (some (err 3), u', v')
                | ok n ↦ send_loop send fuel u' v' (sent + 1)
              ]
        ]
      ]

  -- The loop of an incoming pump: receive, hand over, count.
  unfoldable pub recv_loop :
      (User → ℕ → Result (List ℕ) × User)
      → ℕ
      → User
      → Voice Encoder Decoder
      → ℕ
      → ℕ
      → Pumped User Encoder Decoder
  recv_loop recv zero u v now_ms ingested = (none, u, v)
  recv_loop recv (suc fuel) u v now_ms ingested =
      let (r, u') = recv u max_pkt_size in
      elim r [
        | err k ↦ (some (err 2), u', v)
        | ok bytes ↦ elim (length bytes == 0) [
          | true ↦ (some (ok ingested), u', v)
          | false ↦
              recv_loop recv fuel u' (ingest_packet v (some bytes) now_ms).1 now_ms (ingested + 1)
        ]
      ]

  -- `rv_transport_pump_outgoing`. The queue of a valid engine holds at most 256 packets.
  unfoldable pub transport_pump_outgoing :
      Transport User → User → Voice Encoder Decoder → Pumped User Encoder Decoder
  unfolding send_loop
  transport_pump_outgoing t u v = elim t.send [
    | none ↦ (some (err 1), u, v)
    | some send ↦ send_loop send 257 u v 0
  ]

  -- `rv_transport_pump_incoming`, with fuel.
  unfoldable pub transport_pump_incoming :
      Transport User → ℕ → User → Voice Encoder Decoder → ℕ → Pumped User Encoder Decoder
  unfolding recv_loop
  transport_pump_incoming t fuel u v now_ms = elim t.recv [
    | none ↦ (some (err 1), u, v)
    | some recv ↦ recv_loop recv fuel u v now_ms 0
  ]

  -- `rv_shim_pump_outgoing` and `rv_shim_pump_incoming`.
  unfoldable pub shim_pump_outgoing :
      Transport User → User → Voice Encoder Decoder → Pumped User Encoder Decoder
  unfolding send_loop
  shim_pump_outgoing t u v = elim t.send [
    | none ↦ (some (err 1), u, v)
    | some send ↦ send_loop send 257 u v 0
  ]

  unfoldable pub shim_pump_incoming :
      Transport User → ℕ → User → Voice Encoder Decoder → ℕ → Pumped User Encoder Decoder
  unfolding recv_loop
  shim_pump_incoming t fuel u v now_ms = elim t.recv [
    | none ↦ (some (err 1), u, v)
    | some recv ↦ recv_loop recv fuel u v now_ms 0
  ]
