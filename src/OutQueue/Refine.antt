-- ===== src/OutQueue/Refine.antt =====
-- The queue of outgoing packets is a bounded queue of packets of 1 to 1400 bytes.
use residual_engine_audio.Base.{
  ℕ, ◌≤◌, ◌<◌, ◌≡◌, ◌≢◌, le→ltb, sym, List, [], ◌∷◌, arith, length, Bool, true, false, ◌&&◌, leb,
  ltb, ◌==◌, Bool-cases, ltb→not_leb, not_ltb→leb, Option, some, none, Result, ok, err,
  if◌then◌else◌, inl, inr, All, All-snoc,
}
use residual_engine_audio.Queue
use residual_engine_audio.Ring.{front, advance, count, is_empty}
use residual_engine_audio.Ring.Laws
use residual_engine_audio.Ring.Laws.{contents-store, push-full, push-room, pop-empty, pop-held}
use residual_engine_audio.EventQueue.Refine.{size_256}
use residual_engine_audio.OutQueue.{
  OutQueue, max_out_pkts, max_pkt_size, out_init, out_push, out_pop,
}

abbrev pub contents : OutQueue → List (List ℕ)
contents = Laws.contents max_out_pkts []

-- A packet that the queue takes.
abbrev pub IsSized : List ℕ → Type 0
IsSized p = (0 < length p) × (length p ≤ max_pkt_size)

abbrev pub is_sized : List ℕ → Bool
is_sized p = leb 1 (length p) && leb (length p) max_pkt_size

pub record IsValid (q : OutQueue) : Type 0 where
  pub ring : Laws.IsValid max_out_pkts [] q
  pub packets : All IsSized (contents q)

-- What `out_push` promises, on the list of the packets that are queued.
unfoldable pub push_spec : List (List ℕ) → List ℕ → List (List ℕ) × Bool
push_spec q p = if is_sized p then Queue.push max_out_pkts q p else (q, false)

-- What `out_pop` promises to a caller with room for that many bytes.
unfoldable pub pop_spec : List (List ℕ) → ℕ → Result (Option (List ℕ)) × List (List ℕ)
pop_spec [] room = (ok none, [])
pop_spec (p ∷ q) room = if leb (length p) room then (ok (some p), q) else (err 1, p ∷ q)

pub out_init-IsValid : IsValid out_init
unfolding out_init Laws.contents
out_init-IsValid = record { ring = Laws.init-IsValid max_out_pkts []; packets = tt }

-- On a valid queue `out_push` takes a packet of 1 to 1400 bytes while fewer than 256 are queued,
-- puts it behind the others, and keeps the invariant; it refuses any other and leaves the packets
-- that are queued.
pub out_push_refines :
    (q : OutQueue) (p : List ℕ)
    → IsValid q
    → let (q', done) = out_push q p in ((contents q', done) ≡ push_spec (contents q) p) × IsValid q'
unfolding out_push push_spec
out_push_refines q p v = elim (Bool-cases (length p == 0)) [
  | inl a ↦ (ground arith, rw a v)
  | inr a ↦ elim (Bool-cases (ltb max_pkt_size (length p))) [
    | inl b ↦ (ground arith, rw (a, b) v)
    | inr b ↦
        let (lo, hi) : (leb 1 (length p) ≡ true) × (leb (length p) max_pkt_size ≡ true) =
          (ground arith, ground arith) in
        elim (Bool-cases (leb max_out_pkts (count q))) [
          | inl c ↦ (rw (a, b, c, lo, hi) (sym (push-full max_out_pkts [] q p c)), rw (a, b, c) v)
          | inr c ↦
              let (valid, pushed) = push-room max_out_pkts [] size_256 q p v.ring c in
              (
                rw (a, b, c, lo, hi) (sym pushed),
                rw (a, b, c)
                    (record {
                      ring = valid;
                      packets =
                          rw (contents-store max_out_pkts [] size_256 q p v.ring (ground arith))
                            (All-snoc IsSized (contents q) p v.packets (ground arith));
                    }),
              )
        ]
  ]
]

-- What a queue that is not empty holds.
front-held :
    (q : OutQueue)
    → IsValid q
    → is_empty q ≡ false
    → (contents q ≡ front max_out_pkts [] q ∷ contents (advance q))
      × IsSized (front max_out_pkts [] q)
      × IsValid (advance q)
front-held q v e =
    let (ring, is) = pop-held max_out_pkts [] q v.ring e in
    let sized : All IsSized (front max_out_pkts [] q ∷ contents (advance q)) = rw is at v.packets in
    (is, sized.0, record { ring = ring; packets = sized.1 })

-- `out_pop` gives the oldest packet and removes it if the caller has room for it, fails and keeps
-- it if not, and says so if there is none; it keeps the invariant.
pub out_pop_refines :
    (q : OutQueue) (room : ℕ)
    → IsValid q
    → let (out, q') = out_pop q room in
      ((out, contents q') ≡ pop_spec (contents q) room) × IsValid q'
unfolding out_pop pop_spec
out_pop_refines q room v = elim (Bool-cases (is_empty q)) [
  | inl e ↦ (rw (e, pop-empty max_out_pkts [] q v.ring e), rw e v)
  | inr e ↦
      let (is, sized, valid) = front-held q v e in
      elim (Bool-cases (ltb room (length (front max_out_pkts [] q)))) [
        | inl big ↦ (rw (e, big, is, ltb→not_leb _ _ big), rw (e, big) v)
        | inr fits ↦ (rw (e, fits, is, not_ltb→leb _ _ fits), rw (e, fits) valid)
      ]
]

-- On a valid queue `out_pop` does not fail for a caller with room for 1400 bytes.
pub out_pop-never_fails :
    (q : OutQueue) (room k : ℕ) → IsValid q → max_pkt_size ≤ room → (out_pop q room).0 ≢ err k
unfolding out_pop
out_pop-never_fails q room k v big = elim (Bool-cases (is_empty q)) [
  | inl e ↦ rw e (λ h. cc)
  | inr e ↦
      let (is, sized, valid) = front-held q v e in
      rw (e, le→ltb room (length (front max_out_pkts [] q)) (omega arith)) (λ h. cc)
]
