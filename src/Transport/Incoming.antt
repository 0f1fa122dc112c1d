-- ===== src/Transport/Incoming.antt =====
-- What the incoming pumps hand over to the engine.
use mathlib.Core.Path.{subst}
use residual_engine_audio.Base.{
  ℕ, zero, suc, ◌+◌, ◌<◌, ◌≡◌, ◌∙◌, refl, ap, sym, arith, Bool, true, false, Option, some, none,
  List, [], ◌∷◌, length, ◌==◌, Result, ok, err,
}
use residual_engine_audio.OutQueue.{max_pkt_size}
use residual_engine_audio.Voice.State.{Voice}
use residual_engine_audio.Voice.Ingest.{ingest_packet}
use residual_engine_audio.Voice.Invariant.State.{IsValid}
use residual_engine_audio.Voice.Invariant.Receive.{ingest_packet-IsValid}
use residual_engine_audio.Transport.{
  Pumped, Transport, recv_loop, transport_pump_incoming, shim_pump_incoming,
}

module _ {User : Type 0} (recv : User → ℕ → Result (List ℕ) × User) where
  -- From a state of the transport, these packets come, each not empty, and then none; this is the
  -- state that is left.
  abbrev pub Arrive : User → List (List ℕ) → User → Type 0
  Arrive u [] u' = recv u max_pkt_size ≡ (ok [], u')
  Arrive u (p ∷ ps) u' =
      (0 < length p) × ((next : User) × (recv u max_pkt_size ≡ (ok p, next)) × Arrive next ps u')

module _ {Encoder Decoder : Type 0} where
  -- The packets handed to the engine, one after the other.
  unfoldable pub ingest_all : Voice Encoder Decoder → List (List ℕ) → ℕ → Voice Encoder Decoder
  ingest_all v [] now_ms = v
  ingest_all v (p ∷ ps) now_ms = ingest_all (ingest_packet v (some p) now_ms).1 ps now_ms

module _ {User Encoder Decoder : Type 0} (recv : User → ℕ → Result (List ℕ) × User) where
  -- One round, by what came.
  after_recv :
      ℕ → Voice Encoder Decoder → ℕ → ℕ → Result (List ℕ) × User → Pumped User Encoder Decoder
  after_recv fuel v now_ms n (err k, u') = (some (err 2), u', v)
  after_recv fuel v now_ms n (ok bytes, u') = elim (length bytes == 0) [
    | true ↦ (some (ok n), u', v)
    | false ↦ recv_loop recv fuel u' (ingest_packet v (some bytes) now_ms).1 now_ms (n + 1)
  ]

  recv_loop-suc :
      (fuel : ℕ) (u : User) (v : Voice Encoder Decoder) (now_ms n : ℕ)
      → recv_loop recv (suc fuel) u v now_ms n ≡ after_recv fuel v now_ms n (recv u max_pkt_size)
  unfolding recv_loop after_recv
  recv_loop-suc fuel u v now_ms n = by_reply (recv u max_pkt_size).0
    where
      by_reply :
          (r : Result (List ℕ))
          → (elim r as (λ r. Pumped User Encoder Decoder) [
            | err k ↦ (some (err 2), (recv u max_pkt_size).1, v)
            | ok bytes ↦ elim (length bytes == 0) [
              | true ↦ (some (ok n), (recv u max_pkt_size).1, v)
              | false ↦
                  recv_loop recv fuel
                    (recv u max_pkt_size).1
                    (ingest_packet v (some bytes) now_ms).1
                    now_ms
                    (n + 1)
            ]
          ])
            ≡ after_recv fuel v now_ms n (r, (recv u max_pkt_size).1)
      by_reply (err k) = refl
      by_reply (ok bytes) = refl

  after_recv-err :
      (fuel : ℕ) (v : Voice Encoder Decoder) (now_ms n k : ℕ) (u' : User)
      → after_recv fuel v now_ms n (err k, u') ≡ (some (err 2), u', v)
  unfolding after_recv
  after_recv-err fuel v now_ms n k u' = refl

  after_recv-none :
      (fuel : ℕ) (v : Voice Encoder Decoder) (now_ms n : ℕ) (u' : User)
      → after_recv fuel v now_ms n (ok [], u') ≡ (some (ok n), u', v)
  unfolding after_recv
  after_recv-none fuel v now_ms n u' = refl

  after_recv-some :
      (fuel : ℕ) (v : Voice Encoder Decoder) (now_ms n : ℕ) (bytes : List ℕ) (u' : User)
      → 0 < length bytes
      → after_recv fuel v now_ms n (ok bytes, u')
        ≡ recv_loop recv fuel u' (ingest_packet v (some bytes) now_ms).1 now_ms (n + 1)
  unfolding after_recv
  after_recv-some fuel v now_ms n [] u' lt = absurd (omega arith)
  after_recv-some fuel v now_ms n (b ∷ bytes) u' lt =
      let full : (length (b ∷ bytes) == 0) ≡ false = ground arith in ap after full
    where
      after : Bool → Pumped User Encoder Decoder
      after t = elim t [
        | true ↦ (some (ok n), u', v)
        | false ↦
            recv_loop recv fuel u' (ingest_packet v (some (b ∷ bytes)) now_ms).1 now_ms (n + 1)
      ]

  recv_loop_lem :
      (ps : List (List ℕ)) (fuel : ℕ) (u u' : User) (v : Voice Encoder Decoder) (now_ms n : ℕ)
      → Arrive recv u ps u'
      → length ps < fuel
      → recv_loop recv fuel u v now_ms n ≡ (some (ok (n + length ps)), u', ingest_all v ps now_ms)
  unfolding ingest_all
  recv_loop_lem ps zero u u' v now_ms n come lt = absurd (omega arith)
  recv_loop_lem [] (suc fuel) u u' v now_ms n come lt =
      let count : n ≡ n + 0 = omega arith in
      recv_loop-suc fuel u v now_ms n
      ∙ ap (after_recv fuel v now_ms n) come
      ∙ after_recv-none fuel v now_ms n u'
      ∙ ap (λ k. (some (ok k), u', v)) count
  recv_loop_lem (p ∷ ps) (suc fuel) u u' v now_ms n (pos, (next, came, rest)) lt =
      let v' = (ingest_packet v (some p) now_ms).1 in
      let count : n + 1 + length ps ≡ n + length (p ∷ ps) = omega arith in
      recv_loop-suc fuel u v now_ms n
      ∙ ap (after_recv fuel v now_ms n) came
      ∙ after_recv-some fuel v now_ms n p next pos
      ∙ recv_loop_lem ps fuel next u' v' now_ms (n + 1) rest (omega arith)
      ∙ ap (λ k. (some (ok k), u', ingest_all v' ps now_ms)) count

  recv_loop-IsValid :
      (fuel : ℕ) (u : User) (v : Voice Encoder Decoder) (now_ms n : ℕ)
      → IsValid v
      → IsValid (recv_loop recv fuel u v now_ms n).2
  unfolding recv_loop
  recv_loop-IsValid zero u v now_ms n h = h
  recv_loop-IsValid (suc fuel) u v now_ms n h =
      subst (λ r. IsValid {Encoder = Encoder} {Decoder = Decoder} r.2)
        (sym (recv_loop-suc fuel u v now_ms n))
        (by_reply (recv u max_pkt_size)
          (λ u' v' valid. recv_loop-IsValid fuel u' v' now_ms (n + 1) valid))
    where
      by_reply :
          (t : Result (List ℕ) × User)
          → ((u' : User) (v' : Voice Encoder Decoder)
              → IsValid v'
              → IsValid (recv_loop recv fuel u' v' now_ms (n + 1)).2)
          → IsValid (after_recv fuel v now_ms n t).2
      by_reply (err k, u') rest =
          subst IsValid (sym (ap (λ p. p.2) (after_recv-err fuel v now_ms n k u'))) h
      by_reply (ok [], u') rest =
          subst IsValid (sym (ap (λ p. p.2) (after_recv-none fuel v now_ms n u'))) h
      by_reply (ok (b ∷ bytes), u') rest =
          subst IsValid
            (sym (ap (λ p. p.2) (after_recv-some fuel v now_ms n (b ∷ bytes) u' (omega arith))))
            (rest u' (ingest_packet v (some (b ∷ bytes)) now_ms).1
              (ingest_packet-IsValid v (some (b ∷ bytes)) now_ms h))

module _ {User Encoder Decoder : Type 0} (t : Transport User) where
  -- Pumping a transport that receives some packets and then has none hands each of them to the
  -- engine once, in order, with the same clock; the pump ends and returns their number.
  pub pump_incoming_lem :
      (recv : User → ℕ → Result (List ℕ) × User) (ps : List (List ℕ)) (fuel : ℕ) (u u' : User)
      (v : Voice Encoder Decoder) (now_ms : ℕ)
      → t.recv ≡ some recv
      → Arrive recv u ps u'
      → length ps < fuel
      → (transport_pump_incoming t fuel u v now_ms
          ≡ (some (ok (length ps)), u', ingest_all v ps now_ms))
        × (shim_pump_incoming t fuel u v now_ms ≡ transport_pump_incoming t fuel u v now_ms)
  unfolding transport_pump_incoming shim_pump_incoming
  pump_incoming_lem recv ps fuel u u' v now_ms e come lt =
      let count : 0 + length ps ≡ length ps = omega arith in
      (
        ap after e
            ∙ recv_loop_lem recv ps fuel u u' v now_ms 0 come lt
            ∙ ap (λ k. (some (ok k), u', ingest_all v ps now_ms)) count,
        refl,
      )
    where
      after : Option (User → ℕ → Result (List ℕ) × User) → Pumped User Encoder Decoder
      after f = elim f [
        | none ↦ (some (err 1), u, v)
        | some recv ↦ recv_loop recv fuel u v now_ms 0
      ]

  -- Whatever a transport receives, errors and garbage included, an incoming pump leaves a valid
  -- engine valid, however many rounds it makes.
  pub pump_incoming-IsValid :
      (fuel : ℕ) (u : User) (v : Voice Encoder Decoder) (now_ms : ℕ)
      → IsValid v
      → IsValid (transport_pump_incoming t fuel u v now_ms).2
  unfolding transport_pump_incoming
  pump_incoming-IsValid fuel u v now_ms h = by_recv t.recv
    where
      by_recv :
          (f : Option (User → ℕ → Result (List ℕ) × User))
          → IsValid
              (elim f as (λ f. Pumped User Encoder Decoder) [
                | none ↦ (some (err 1), u, v)
                | some recv ↦ recv_loop recv fuel u v now_ms 0
              ]).2
      by_recv none = h
      by_recv (some recv) = recv_loop-IsValid recv fuel u v now_ms 0 h
