-- ===== src/Voice/Capture/Examples.antt =====
-- A frame of the sample engine on its way out.
use residual_engine_audio.Base.{
  ℕ, ◌+◌, ◌≡◌, refl, arith, true, List, [], ◌∷◌, ◌++◌, length, replicate, ok, u16,
}
use residual_engine_audio.Base.Int.{ℤ, pos}
use residual_engine_audio.Netproto.{parse_voice_packet}
use residual_engine_audio.Event.{voice_ok}
use residual_engine_audio.Ring.Laws
use residual_engine_audio.Opus.{rv_opus_encode}
use residual_engine_audio.OutQueue.{out_init}
use residual_engine_audio.OutQueue.Refine.{contents}
use residual_engine_audio.Voice.Emit.{emit_log}
use residual_engine_audio.Voice.Capture.{
  get_tx_flags, capture_should_transmit, encode_and_queue_voice,
}
use residual_engine_audio.Voice.Capture.Packets.{encode_and_queue_voice-queues}
use residual_engine_audio.Voice.Samples.{codec, codec-Documented, engine, engine-IsValid}

abbrev samples : List ℤ
samples = replicate 8 (pos 3)

open_mic : capture_should_transmit engine ≡ true
unfolding capture_should_transmit emit_log
open_mic = refl

encoded : (rv_opus_encode codec engine.enc samples 600).0 ≡ ok (7 ∷ 8 ∷ [])
unfolding rv_opus_encode emit_log
encoded = refl

player : engine.player_id ≡ 0
unfolding emit_log
player = refl

engine_empty : length (contents engine.out_q) ≡ 0
unfolding emit_log out_init Laws.contents
engine_empty = refl

encode_and_queue_voice-queues_example :
    let (r, v') = encode_and_queue_voice codec engine samples in
    (r ≡ voice_ok)
    × (v'.seq ≡ u16 (engine.seq + 1))
    × ((pkt : List ℕ) × (contents v'.out_q ≡ contents engine.out_q ++ (pkt ∷ []))
        × (parse_voice_packet pkt
            ≡ ok (record {
              speaker_id = engine.player_id;
              seq = engine.seq;
              flags = (get_tx_flags engine).flags;
              payload = 7 ∷ 8 ∷ [];
            })))
encode_and_queue_voice-queues_example =
    encode_and_queue_voice-queues codec codec-Documented engine samples (7 ∷ 8 ∷ []) engine-IsValid
      open_mic encoded (omega arith) (omega (arith, player)) (omega (arith, engine_empty))
