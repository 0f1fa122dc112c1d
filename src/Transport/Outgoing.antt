-- ===== src/Transport/Outgoing.antt =====
-- What the outgoing pumps send.
use mathlib.Core.Path.{subst}
use residual_engine_audio.Base.{
  ℕ, zero, suc, ◌+◌, ◌<◌, ◌≡◌, ◌∙◌, refl, ap, sym, arith, Option, some, none, List, [], ◌∷◌, length,
  leb, All, Result, ok, err, true,
}
use residual_engine_audio.Ring.Laws.{length-contents}
use residual_engine_audio.OutQueue.{OutQueue, max_pkt_size, max_out_pkts, out_pop}
use residual_engine_audio.OutQueue.Refine as OutQueueRefine
use residual_engine_audio.OutQueue.Refine.{contents, out_pop_refines, pop_spec, IsSized}
use residual_engine_audio.Voice.State.{Voice}
use residual_engine_audio.Voice.Events.{poll_outgoing}
use residual_engine_audio.Voice.Invariant.State.{IsValid}
use residual_engine_audio.Transport.{
  Pumped, Transport, send_loop, transport_pump_outgoing, shim_pump_outgoing,
}

module _ {User : Type 0} where
  -- What an outgoing pump promises: the packets are offered to `send` in order until one fails,
  -- which is lost; the count or the error, the transport's state, and the packets that are left.
  unfoldable pub offer :
      (User → List ℕ → Result ℕ × User) → List (List ℕ) → User → ℕ → Result ℕ × User × List (List ℕ)
  offer send [] u sent = (ok sent, u, [])
  offer send (p ∷ q) u sent =
      let (s, u') = send u p in
      elim s [ err k ↦ (err 3, u', q) | ok n ↦ offer send q u' (sent + 1) ]

module _ {User : Type 0} (send : User → List ℕ → Result ℕ × User) where
  offered : List (List ℕ) → ℕ → Result ℕ × User → Result ℕ × User × List (List ℕ)
  offered q sent (err k, u') = (err 3, u', q)
  offered q sent (ok n, u') = offer send q u' (sent + 1)

  offer-cons :
      (p : List ℕ) (q : List (List ℕ)) (u : User) (sent : ℕ)
      → offer send (p ∷ q) u sent ≡ offered q sent (send u p)
  unfolding offer offered
  offer-cons p q u sent = by_reply (send u p).0
    where
      by_reply :
          (s : Result ℕ)
          → (elim s as (λ s. Result ℕ × User × List (List ℕ)) [
            | err k ↦ (err 3, (send u p).1, q)
            | ok n ↦ offer send q (send u p).1 (sent + 1)
          ])
            ≡ offered q sent (s, (send u p).1)
      by_reply (err k) = refl
      by_reply (ok n) = refl

-- A pop with room for the largest packet, on what waits.
pop-nil :
    (q : OutQueue)
    → OutQueueRefine.IsValid q
    → contents q ≡ []
    → ((out_pop q max_pkt_size).0 ≡ ok none) × (contents (out_pop q max_pkt_size).1 ≡ [])
unfolding pop_spec
pop-nil q v e =
    let is = (out_pop_refines q max_pkt_size v).0 ∙ ap (λ l. pop_spec l max_pkt_size) e in
    (ap (λ r. r.0) is, ap (λ r. r.1) is)

pop-cons :
    (q : OutQueue) (p : List ℕ) (rest : List (List ℕ))
    → OutQueueRefine.IsValid q
    → contents q ≡ p ∷ rest
    → ((out_pop q max_pkt_size).0 ≡ ok (some p)) × (contents (out_pop q max_pkt_size).1 ≡ rest)
unfolding pop_spec
pop-cons q p rest v e =
    let sized : All IsSized (p ∷ rest) = rw e at v.packets in
    let fits : leb (length p) max_pkt_size ≡ true = ground arith in
    let is =
      (out_pop_refines q max_pkt_size v).0 ∙ ap (λ l. pop_spec l max_pkt_size) e ∙ rw fits refl in
    (ap (λ r. r.0) is, ap (λ r. r.1) is)

module _ {User Encoder Decoder : Type 0} (send : User → List ℕ → Result ℕ × User) where
  popped : Voice Encoder Decoder → Voice Encoder Decoder
  popped v = record v { out_q = (out_pop v.out_q max_pkt_size).1 }

  -- One round, by what waits and by what `send` says of it.
  after_send : ℕ → Voice Encoder Decoder → ℕ → Result ℕ × User → Pumped User Encoder Decoder
  after_send fuel v sent (err k, u') = (some (err 3), u', v)
  after_send fuel v sent (ok n, u') = send_loop send fuel u' v (sent + 1)

  send_loop-empty :
      (fuel : ℕ) (u : User) (v : Voice Encoder Decoder) (sent : ℕ)
      → (out_pop v.out_q max_pkt_size).0 ≡ ok none
      → send_loop send (suc fuel) u v sent ≡ (some (ok sent), u, popped v)
  unfolding send_loop poll_outgoing popped
  send_loop-empty fuel u v sent e = ap after e
    where
      after : Result (Option (List ℕ)) → Pumped User Encoder Decoder
      after r = elim r [
        | err k ↦ (some (err 2), u, popped v)
        | ok pkt? ↦ elim pkt? [
          | none ↦ (some (ok sent), u, popped v)
          | some pkt ↦
              let (s, u') = send u pkt in
              elim s [
                | err k ↦ (some (err 3), u', popped v)
                | ok n ↦ send_loop send fuel u' (popped v) (sent + 1)
              ]
        ]
      ]

  send_loop-held :
      (fuel : ℕ) (u : User) (v : Voice Encoder Decoder) (sent : ℕ) (p : List ℕ) (s : Result ℕ)
      (u' : User)
      → (out_pop v.out_q max_pkt_size).0 ≡ ok (some p)
      → send u p ≡ (s, u')
      → send_loop send (suc fuel) u v sent ≡ after_send fuel (popped v) sent (s, u')
  unfolding send_loop poll_outgoing popped after_send
  send_loop-held fuel u v sent p s u' e sends = ap after e ∙ ap then_sent sends ∙ cases s
    where
      then_sent : Result ℕ × User → Pumped User Encoder Decoder
      then_sent t = elim t.0 [
        | err k ↦ (some (err 3), t.1, popped v)
        | ok n ↦ send_loop send fuel t.1 (popped v) (sent + 1)
      ]

      after : Result (Option (List ℕ)) → Pumped User Encoder Decoder
      after r = elim r [
        | err k ↦ (some (err 2), u, popped v)
        | ok pkt? ↦ elim pkt? [
          | none ↦ (some (ok sent), u, popped v)
          | some pkt ↦ then_sent (send u pkt)
        ]
      ]

      cases : (s : Result ℕ) → then_sent (s, u') ≡ after_send fuel (popped v) sent (s, u')
      cases (err k) = refl
      cases (ok n) = refl

  -- What a pump returns and leaves behind, against what was to be offered: nothing but the queue
  -- of the engine has changed, and it is valid still.
  abbrev pub IsOffered :
      Result ℕ × User × List (List ℕ) → Voice Encoder Decoder → Pumped User Encoder Decoder → Type 0
  IsOffered (result, user, left) v (r, u', v') =
      (r ≡ some result)
      × (u' ≡ user)
      × (contents v'.out_q ≡ left)
      × (v' ≡ record v { out_q = v'.out_q })
      × OutQueueRefine.IsValid v'.out_q

  after_send-IsOffered :
      (fuel : ℕ) (v : Voice Encoder Decoder) (sent : ℕ) (q : List (List ℕ)) (t : Result ℕ × User)
      → ((u' : User)
          → IsOffered
              (offer send q u' (sent + 1))
              (popped v)
              (send_loop send fuel u' (popped v) (sent + 1)))
      → contents (popped v).out_q ≡ q
      → OutQueueRefine.IsValid (popped v).out_q
      → IsOffered (offered send q sent t) v (after_send fuel (popped v) sent t)
  unfolding offered popped after_send
  after_send-IsOffered fuel v sent q (err k, u') rest left kept = (refl, refl, left, refl, kept)
  after_send-IsOffered fuel v sent q (ok n, u') rest left kept =
      let (r, u, l, same, valid) = rest u' in (r, u, l, same, valid)

  pub send_loop-IsOffered :
      (q : List (List ℕ)) (fuel : ℕ) (u : User) (v : Voice Encoder Decoder) (sent : ℕ)
      → OutQueueRefine.IsValid v.out_q
      → contents v.out_q ≡ q
      → length q < fuel
      → IsOffered (offer send q u sent) v (send_loop send fuel u v sent)
  unfolding offer popped
  send_loop-IsOffered q zero u v sent h e lt = absurd (omega arith)
  send_loop-IsOffered [] (suc fuel) u v sent h e lt =
      let (is, left) = pop-nil v.out_q h e in
      rw (send_loop-empty fuel u v sent is)
        (refl, refl, left, refl, (out_pop_refines v.out_q max_pkt_size h).1)
  send_loop-IsOffered (p ∷ q) (suc fuel) u v sent h e lt =
      let (is, left) = pop-cons v.out_q p q h e in
      let kept = (out_pop_refines v.out_q max_pkt_size h).1 in
      let rest = λ (u' : User).
        send_loop-IsOffered q fuel u' (popped v) (sent + 1) kept left (omega arith) in
      subst (λ o. IsOffered o v (send_loop send (suc fuel) u v sent))
        (sym (offer-cons send p q u sent))
        (subst (λ r. IsOffered (offered send q sent (send u p)) v r)
          (sym (send_loop-held fuel u v sent p (send u p).0 (send u p).1 is refl))
          (after_send-IsOffered fuel v sent q (send u p) rest left kept))

-- The fuel of a pump is enough for the queue of a valid engine.
pub few_waiting :
    {Encoder Decoder : Type 0} (v : Voice Encoder Decoder)
    → IsValid v
    → length (contents v.out_q) < 257
few_waiting v h = omega (arith, length-contents max_out_pkts [] v.out_q, h.out_ok.ring.bounded)

module _ {User Encoder Decoder : Type 0} (t : Transport User) where
  -- Pumping a valid engine through a transport that can send offers it every queued packet in
  -- order, until it fails: the pump ends, returns the number of packets sent or the error -3,
  -- leaves in the queue the packets behind the one that failed, and changes nothing else.
  pub pump_outgoing_refines :
      (send : User → List ℕ → Result ℕ × User) (u : User) (v : Voice Encoder Decoder)
      → t.send ≡ some send
      → IsValid v
      → IsOffered send (offer send (contents v.out_q) u 0) v (transport_pump_outgoing t u v)
        × (shim_pump_outgoing t u v ≡ transport_pump_outgoing t u v)
  unfolding transport_pump_outgoing shim_pump_outgoing
  pump_outgoing_refines send u v e h = (
    subst
        (λ f.
          IsOffered send (offer send (contents v.out_q) u 0) v
            (elim f as (λ f. Pumped User Encoder Decoder) [
              | none ↦ (some (err 1), u, v)
              | some send ↦ send_loop send 257 u v 0
            ]))
        (sym e)
        (send_loop-IsOffered send (contents v.out_q) 257 u v 0 h.out_ok refl (few_waiting v h)),
    refl,
  )
