-- ===== src/Voice/Session/Connect.antt =====
-- What `rv_voice_connect` queues.
use mathlib.Core.List.{append-nil}
use residual_engine_audio.Voice.Emit.Messages.{emit_error-kept}
use residual_engine_audio.Base.{
  ℕ, ◌^◌, ◌≤◌, ◌<◌, ◌≡◌, refl, ap, sym, ◌∙◌, true, false, some, List, [], ◌∷◌, ◌++◌, arith, length,
  lt→ltb, le→ltb, ok,
}
use residual_engine_audio.Queue
use residual_engine_audio.Netproto.{build_join_packet, parse_join_payload}
use residual_engine_audio.Netproto.Join.{parse-build_join}
use residual_engine_audio.Event.{voice_ok, internal}
use residual_engine_audio.OutQueue.{out_push, max_out_pkts}
use residual_engine_audio.OutQueue.Refine.{contents, out_push_refines, push_spec, is_sized}
use residual_engine_audio.Voice.State.{Voice, ConnectInfo, codes}
use residual_engine_audio.Voice.Emit.{push_event}
use residual_engine_audio.Voice.Session.{queue_join, connect}
use residual_engine_audio.Voice.Invariant.State.{IsValid}

-- A push of a packet that the queue takes, with room and without.
pub push_spec-room :
    (q : List (List ℕ)) (p : List ℕ)
    → is_sized p ≡ true
    → length q < max_out_pkts
    → push_spec q p ≡ (q ++ (p ∷ []), true)
unfolding push_spec Queue.push
push_spec-room q p s room = rw (s, lt→ltb (length q) max_out_pkts room)

push_spec-full :
    (q : List (List ℕ)) (p : List ℕ) → max_out_pkts ≤ length q → (push_spec q p) ≡ (q, false)
unfolding push_spec Queue.push
push_spec-full q p full = ground (arith, le→ltb (length q) max_out_pkts full)

module _ {Encoder Decoder : Type 0} where
  -- The two outcomes of queueing a packet.
  pub queued :
      (v : Voice Encoder Decoder) (p : List ℕ)
      → IsValid v
      → is_sized p ≡ true
      → length (contents v.out_q) < max_out_pkts
      → ((out_push v.out_q p).1 ≡ true)
        × (contents (out_push v.out_q p).0 ≡ contents v.out_q ++ (p ∷ []))
  queued v p h s room =
      let e =
        (out_push_refines v.out_q p h.out_ok).0 ∙ push_spec-room (contents v.out_q) p s room in
      (ap (λ r. r.1) e, ap (λ r. r.0) e)

  pub refused :
      (v : Voice Encoder Decoder) (p : List ℕ)
      → IsValid v
      → max_out_pkts ≤ length (contents v.out_q)
      → (out_push v.out_q p).1 ≡ false
  refused v p h full =
      ap (λ r. r.1)
        ((out_push_refines v.out_q p h.out_ok).0 ∙ push_spec-full (contents v.out_q) p full)

  connecting :
      (v : Voice Encoder Decoder) (info : ConnectInfo)
      → v.initialized ≡ true
      → connect v (some info)
        ≡ queue_join
            (record v { session_id = info.session_id; player_id = info.player_id })
            (build_join_packet 64 info.session_id info.player_id)
  unfolding connect
  connecting v info on = rw on refl

  -- With room in the outgoing queue, a valid, initialized engine that connects queues one packet
  -- behind the others, which the parser reads as a JOIN of that session and player, and is
  -- connected.
  pub connect-joins :
      (v : Voice Encoder Decoder) (info : ConnectInfo)
      → IsValid v
      → v.initialized ≡ true
      → info.session_id < 2 ^ 64
      → info.player_id < 2 ^ 16
      → length (contents v.out_q) < max_out_pkts
      → let (r, v') = connect v (some info) in
        (r ≡ voice_ok)
        × (v'.connected ≡ true)
        × ((pkt : List ℕ) × (contents v'.out_q ≡ contents v.out_q ++ (pkt ∷ []))
            × (parse_join_payload pkt
                ≡ ok (record { session_id = info.session_id; player_id = info.player_id })))
  unfolding queue_join push_event
  connect-joins v info h on s p room =
      let (pkt, built, size, read) =
        parse-build_join 64 info.session_id info.player_id [] (omega arith) s p in
      let (done, is) = queued v pkt h (ground arith) room in
      let start = connecting v info on in
      (
        rw (start, built, done) refl,
        rw (start, built, done) refl,
        (pkt, rw (start, built, done) is, ap parse_join_payload (sym (append-nil pkt)) ∙ read),
      )

  -- With the outgoing queue full, a valid, initialized engine fails to connect: it is as
  -- connected as it was, and its queue is unchanged.
  pub connect-full :
      (v : Voice Encoder Decoder) (info : ConnectInfo)
      → IsValid v
      → v.initialized ≡ true
      → info.session_id < 2 ^ 64
      → info.player_id < 2 ^ 16
      → max_out_pkts ≤ length (contents v.out_q)
      → let (r, v') = connect v (some info) in
        (r ≡ internal) × (v'.connected ≡ v.connected) × (v'.out_q ≡ v.out_q)
  unfolding queue_join
  connect-full v info h on s p full =
      let (pkt, built, size, read) =
        parse-build_join 64 info.session_id info.player_id [] (omega arith) s p in
      let no = refused v pkt h full in
      let told = record v { session_id = info.session_id; player_id = info.player_id } in
      let kept = emit_error-kept told internal (codes "rv_voice_connect: outgoing queue full") in
      let start = connecting v info on in
      (rw (start, built, no) refl, rw (start, built, no) kept.0, rw (start, built, no) kept.1)
