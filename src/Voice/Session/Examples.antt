-- ===== src/Voice/Session/Examples.antt =====
-- Connecting the sample engine.
use residual_engine_audio.Base.{
  ℕ, zero, suc, ◌≡◌, ap, ◌∙◌, length-append, ◌≤◌, refl, arith, true, some, List, [], ◌∷◌, ◌++◌,
  length, ok,
}
use residual_engine_audio.Netproto.{parse_join_payload}
use residual_engine_audio.Event.{voice_ok, internal}
use residual_engine_audio.Ring.Laws
use residual_engine_audio.Ring.Laws.{length-contents}
use residual_engine_audio.OutQueue.{OutQueue, out_init, out_push, max_out_pkts}
use residual_engine_audio.OutQueue.Refine.{contents, out_init-IsValid, out_push_refines}
use residual_engine_audio.OutQueue.Refine as OutQueueRefine
use residual_engine_audio.Voice.Invariant.State.{IsValid}
use residual_engine_audio.Voice.State.{Voice, ConnectInfo}
use residual_engine_audio.Voice.Emit.{emit_log}
use residual_engine_audio.Voice.Session.{connect}
use residual_engine_audio.Voice.Session.Connect.{push_spec-room, connect-joins, connect-full}
use residual_engine_audio.Voice.Samples.{engine, engine-IsValid}

abbrev info : ConnectInfo
info = record { session_id = 1234; player_id = 7 }

engine_on : engine.initialized ≡ true
unfolding emit_log
engine_on = refl

engine_empty : contents engine.out_q ≡ []
unfolding emit_log out_init Laws.contents
engine_empty = refl

connect-joins_example :
    ((connect engine (some info)).0 ≡ voice_ok)
    × ((connect engine (some info)).1.connected ≡ true)
    × ((pkt : List ℕ) × (contents (connect engine (some info)).1.out_q
          ≡ contents engine.out_q ++ (pkt ∷ []))
        × (parse_join_payload pkt ≡ ok (record { session_id = 1234; player_id = 7 })))
connect-joins_example =
    connect-joins engine info engine-IsValid engine_on (omega arith) (omega arith)
      (omega (arith, engine_small))
  where
    engine_small : length (contents engine.out_q) ≡ 0
    engine_small = rw engine_empty

-- So many packets of one byte.
fill : ℕ → OutQueue
fill zero = out_init
fill (suc n) = (out_push (fill n) (0 ∷ [])).0

filled :
    (n : ℕ) → n ≤ max_out_pkts → OutQueueRefine.IsValid (fill n) × (length (contents (fill n)) ≡ n)
unfolding fill out_init Laws.contents
filled zero le = (out_init-IsValid, refl)
filled (suc n) le =
    let (valid, len) = filled n (omega arith) in
    let pushed = out_push_refines (fill n) (0 ∷ []) valid in
    let is = pushed.0 ∙ push_spec-room (contents (fill n)) (0 ∷ []) refl (omega (arith, len)) in
    (
      pushed.1,
      ap (λ r. length r.0) is
          ∙ length-append (contents (fill n)) ((0 ∷ []) ∷ [])
          ∙ omega (arith, len),
    )

abbrev full_engine : Voice ℕ ℕ
full_engine = record engine { out_q = fill 256 }

full_engine-IsValid : IsValid full_engine
full_engine-IsValid = record {
  out_ok = (filled 256 (omega arith)).0;
  cap_ok = engine-IsValid.cap_ok;
  evq_ok = engine-IsValid.evq_ok;
  speakers_ok = engine-IsValid.speakers_ok;
  count = engine-IsValid.count;
  seq_fits = engine-IsValid.seq_fits;
  msg_0_fits = engine-IsValid.msg_0_fits;
  msg_1_fits = engine-IsValid.msg_1_fits;
}

connect-full_example :
    ((connect full_engine (some info)).0 ≡ internal)
    × ((connect full_engine (some info)).1.connected ≡ full_engine.connected)
    × ((connect full_engine (some info)).1.out_q ≡ full_engine.out_q)
connect-full_example =
    connect-full full_engine info full_engine-IsValid engine_on (omega arith) (omega arith)
      (omega (arith, (filled 256 (omega arith)).1))
