-- ===== src/Network/Examples.antt =====
-- Player 1 speaks, and player 2 hears it.
use mathlib.Core.List.{Memᴰ}
use residual_engine_audio.Base.{
  ℕ, ◌≡◌, refl, arith, true, some, List, [], ◌∷◌, ◌++◌, length, replicate, get_elem?, ok,
}
use residual_engine_audio.Base.Int.{ℤ, pos}
use residual_engine_audio.Ring.Laws
use residual_engine_audio.Opus.{rv_opus_encode}
use residual_engine_audio.OutQueue.{out_init}
use residual_engine_audio.OutQueue.Refine.{contents}
use residual_engine_audio.OpusJitter.View.{held}
use residual_engine_audio.Relay.{
  SockAddr, RelayClient, RelaySession, relay_init, relay_join, join_clients, update_first,
}
use residual_engine_audio.Relay.Forward.{clients_of}
use residual_engine_audio.RelayMain.{serve, serve_all}
use residual_engine_audio.Voice.State.{Voice, Speaker}
use residual_engine_audio.Voice.Emit.{emit_log}
use residual_engine_audio.Voice.Capture.{capture_should_transmit, encode_and_queue_voice}
use residual_engine_audio.Voice.Ingest.{ingest_packet}
use residual_engine_audio.Voice.Invariant.State.{IsValid}
use residual_engine_audio.Voice.Samples.{codec, codec-Documented, engine, engine-IsValid, speaker}
use residual_engine_audio.Network.{frame-reaches}

abbrev talker : Voice ℕ ℕ
talker = record engine { player_id = 1 }

talker-IsValid : IsValid talker
talker-IsValid = record {
  out_ok = engine-IsValid.out_ok;
  cap_ok = engine-IsValid.cap_ok;
  evq_ok = engine-IsValid.evq_ok;
  speakers_ok = engine-IsValid.speakers_ok;
  count = engine-IsValid.count;
  seq_fits = engine-IsValid.seq_fits;
  msg_0_fits = engine-IsValid.msg_0_fits;
  msg_1_fits = engine-IsValid.msg_1_fits;
}

abbrev samples : List ℤ
samples = replicate 8 (pos 3)

open_mic : capture_should_transmit talker ≡ true
unfolding capture_should_transmit emit_log
open_mic = refl

encoded : (rv_opus_encode codec talker.enc samples 600).0 ≡ ok (7 ∷ 8 ∷ [])
unfolding rv_opus_encode emit_log
encoded = refl

talker_empty : length (contents talker.out_q) ≡ 0
unfolding emit_log out_init Laws.contents
talker_empty = refl

engine_on : engine.initialized ≡ true
unfolding emit_log
engine_on = refl

players : engine.cfg.max_players ≡ 2
unfolding emit_log
players = refl

first : get_elem? engine.speakers 0 ≡ some speaker
unfolding emit_log
first = refl

abbrev talker_addr : SockAddr
talker_addr = record { ver = 6; port = 1000; ip = replicate 16 1 }

abbrev listener_addr : SockAddr
listener_addr = record { ver = 6; port = 1001; ip = replicate 16 1 }

abbrev listener : RelayClient
listener = record { in_use = true; player_id = 2; addr = listener_addr }

abbrev joined : List RelaySession
joined = relay_join relay_init 1234 2 listener_addr

is_listener : Memᴰ listener (clients_of joined 1234)
unfolding clients_of relay_join update_first join_clients
is_listener = Memᴰ.head refl

frame-reaches_example :
    let (r, a') = encode_and_queue_voice codec talker samples in
    (pkt : List ℕ) × (contents a'.out_q ≡ contents talker.out_q ++ (pkt ∷ []))
    × Memᴰ (listener_addr, pkt) (serve (serve_all joined []).0 talker_addr (ok pkt)).1
    × ((sp' : Speaker ℕ) × (get_elem? (ingest_packet engine (some pkt) 40).1.speakers 0 ≡ some sp')
        × (held sp'.jb talker.seq ≡ some (7 ∷ 8 ∷ []))
        × (sp'.speaking ≡ true))
frame-reaches_example =
    frame-reaches codec codec-Documented talker engine samples (7 ∷ 8 ∷ []) joined [] talker_addr
      listener 40 speaker talker-IsValid open_mic encoded (omega arith)
      (omega (arith, talker_empty)) is_listener refl tt refl engine-IsValid engine_on (omega arith)
      (omega arith) (omega (arith, players)) first
