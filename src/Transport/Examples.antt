-- ===== src/Transport/Examples.antt =====
-- A transport whose state is two lists: what was sent, and what comes next.
use residual_engine_audio.Base.{ℕ, ◌≡◌, refl, arith, some, List, [], ◌∷◌, length, Result, ok, err}
use residual_engine_audio.OutQueue.Refine.{contents}
use residual_engine_audio.Voice.Samples.{engine, engine-IsValid}
use residual_engine_audio.Transport.{
  Transport, transport_pump_outgoing, shim_pump_outgoing, transport_pump_incoming,
  shim_pump_incoming,
}
use residual_engine_audio.Transport.Outgoing.{offer, IsOffered, pump_outgoing_refines}
use residual_engine_audio.Transport.Incoming.{ingest_all, pump_incoming_lem}

abbrev Wire : Type 0
Wire = List (List ℕ) × List (List ℕ)

-- The first packet is sent, the next fails.
abbrev send : Wire → List ℕ → Result ℕ × Wire
send ([], coming) p = (ok (length p), (p ∷ [], coming))
send (p ∷ sent, coming) q = (err 1, (p ∷ sent, coming))

abbrev recv : Wire → ℕ → Result (List ℕ) × Wire
recv (sent, []) size = (ok [], (sent, []))
recv (sent, p ∷ coming) size = (ok p, (sent, coming))

abbrev wire : Transport Wire
wire = record { send = some send; recv = some recv }

abbrev garbage : List ℕ
garbage = 1 ∷ 2 ∷ []

-- Of two packets on offer the second is lost.
offered : offer send ((7 ∷ []) ∷ (8 ∷ []) ∷ []) ([], []) 0 ≡ (err 3, ((7 ∷ []) ∷ [], []), [])
unfolding offer
offered = refl

pump_outgoing_refines_example :
    IsOffered send
      (offer send (contents engine.out_q) ([], []) 0)
      engine
      (transport_pump_outgoing wire ([], []) engine)
    × (shim_pump_outgoing wire ([], []) engine ≡ transport_pump_outgoing wire ([], []) engine)
pump_outgoing_refines_example = pump_outgoing_refines wire send ([], []) engine refl engine-IsValid

pump_incoming_lem_example :
    (transport_pump_incoming wire 2 ([], garbage ∷ []) engine 40
      ≡ (some (ok 1), ([], []), ingest_all engine (garbage ∷ []) 40))
    × (shim_pump_incoming wire 2 ([], garbage ∷ []) engine 40
        ≡ transport_pump_incoming wire 2 ([], garbage ∷ []) engine 40)
pump_incoming_lem_example =
    pump_incoming_lem wire recv (garbage ∷ []) 2 ([], garbage ∷ []) ([], []) engine 40 refl
      (omega arith, (([], []), refl, refl)) (omega arith)
