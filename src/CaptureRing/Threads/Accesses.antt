-- ===== src/CaptureRing/Threads/Accesses.antt =====
-- What the accesses of the two threads do to the capture queue.
use mathlib.Core.Path.{subst}
use mathlib.Core.List.{append_assoc}
use residual_engine_audio.Base.{
  ℕ, ◌%◌, ◌<◌, ◌≡◌, ◌≢◌, ap, sym, ◌∙◌, arith, List, [], ◌∷◌, ◌++◌, get_or,
}
use residual_engine_audio.Base.Int.{ℤ}
use residual_engine_audio.Ring.{front, advance, count}
use residual_engine_audio.Ring.Laws
use residual_engine_audio.Ring.Laws.{advance-IsValid, contents-advance}
use residual_engine_audio.Ring.Writing.{
  contents-scribble, scribble-IsValid, front-scribble, contents-publish, publish-IsValid, scribble,
  publish,
}
use residual_engine_audio.CaptureRing.{CaptureRing, capture_ring_cap}
use residual_engine_audio.CaptureRing.Refine.{contents, size_16}
use residual_engine_audio.CaptureRing.Threads.{
  Producer, p_idle, p_loaded, p_writing, p_written, Consumer, c_idle, c_loaded, c_reading, c_copied,
  Threads,
}

-- What the audio thread may rely on: its `w` is the queue's, and once it has seen room there is
-- room still; what it wrote is there.
abbrev pub Producing : Producer → CaptureRing → Type 0
Producing p_idle q = Unit
Producing (p_loaded w f) q = w ≡ q.w
Producing (p_writing w f) q = (w ≡ q.w) × (count q < capture_ring_cap)
Producing (p_written w f) q =
    (w ≡ q.w) × (count q < capture_ring_cap) × (get_or q.slots (q.w % capture_ring_cap) [] ≡ f)

-- What the voice thread may rely on: its `r` is the queue's, and once it has seen a frame there is
-- a frame still; what it copied is the frame that is next.
abbrev pub Consuming : Consumer → CaptureRing → Type 0
Consuming c_idle q = Unit
Consuming (c_loaded r) q = r ≡ q.r
Consuming (c_reading r) q = (r ≡ q.r) × (0 < count q)
Consuming (c_copied r f) q = (r ≡ q.r) × (0 < count q) × (front capture_ring_cap [] q ≡ f)

pub record IsConsistent (s : Threads) : Type 0 where
  pub ring : Laws.IsValid capture_ring_cap [] s.ring
  pub producing : Producing s.producer s.ring
  pub consuming : Consuming s.consumer s.ring
  pub in_order : s.sent ≡ s.got ++ contents s.ring

-- What one thread relies on, after an access by the other.
Consuming-scribble :
    (c : Consumer) (q : CaptureRing) (x : List ℤ)
    → Laws.IsValid capture_ring_cap [] q
    → count q < capture_ring_cap
    → Consuming c q
    → Consuming c (scribble capture_ring_cap [] size_16 q x)
Consuming-scribble c_idle q x v room h = tt
Consuming-scribble (c_loaded r) q x v room h = h
Consuming-scribble (c_reading r) q x v room h = h
Consuming-scribble (c_copied r f) q x v room (at, some_held, is) =
    (at, some_held, front-scribble capture_ring_cap [] size_16 q x v some_held room ∙ is)

Consuming-publish :
    (c : Consumer) (q : CaptureRing)
    → Laws.IsValid capture_ring_cap [] q
    → count q < capture_ring_cap
    → Consuming c q
    → Consuming c (publish capture_ring_cap [] size_16 q)
unfolding front
Consuming-publish c_idle q v room h = tt
Consuming-publish (c_loaded r) q v room h = h
Consuming-publish (c_reading r) q v room (at, some_held) = (at, omega (arith, v.r_fits, v.w_fits))
Consuming-publish (c_copied r f) q v room (at, some_held, is) =
    (at, omega (arith, v.r_fits, v.w_fits), is)

Producing-advance :
    (p : Producer) (q : CaptureRing)
    → Laws.IsValid capture_ring_cap [] q
    → 0 < count q
    → Producing p q
    → Producing p (advance q)
unfolding advance
Producing-advance p_idle q v some_held h = tt
Producing-advance (p_loaded w f) q v some_held h = h
Producing-advance (p_writing w f) q v some_held (at, room) = (at, omega (arith, v.r_fits, v.w_fits))
Producing-advance (p_written w f) q v some_held (at, room, is) =
    (at, omega (arith, v.r_fits, v.w_fits), is)

module _ (s : Threads) (h : IsConsistent s) where
  pub producing : (p : Producer) → s.producer ≡ p → Producing p s.ring
  producing p e = subst (λ p. Producing p s.ring) e h.producing

  pub consuming : (c : Consumer) → s.consumer ≡ c → Consuming c s.ring
  consuming c e = subst (λ c. Consuming c s.ring) e h.consuming

  -- A thread that moves on without a change of the queue.
  pub producer_moves :
      (p : Producer) → Producing p s.ring → IsConsistent (record s { producer = p })
  producer_moves p now = record {
    ring = h.ring;
    producing = now;
    consuming = h.consuming;
    in_order = h.in_order;
  }

  pub consumer_moves :
      (c : Consumer) → Consuming c s.ring → IsConsistent (record s { consumer = c })
  consumer_moves c now = record {
    ring = h.ring;
    producing = h.producing;
    consuming = now;
    in_order = h.in_order;
  }

  -- The slot that is written.
  pub written :
      (w : ℕ) (f x : List ℤ)
      → s.producer ≡ p_writing w f
      → (p : Producer) → Producing p (scribble capture_ring_cap [] size_16 s.ring x)
      → IsConsistent
          (record s { ring = scribble capture_ring_cap [] size_16 s.ring x; producer = p })
  written w f x e p now =
      let (at, room) = producing (p_writing w f) e in
      record {
        ring = scribble-IsValid capture_ring_cap [] size_16 s.ring x h.ring;
        producing = now;
        consuming = Consuming-scribble s.consumer s.ring x h.ring room h.consuming;
        in_order =
            h.in_order
            ∙ ap (λ l. s.got ++ l)
                (sym (contents-scribble capture_ring_cap [] size_16 s.ring x h.ring room));
      }

  pub published :
      (w : ℕ) (f : List ℤ)
      → s.producer ≡ p_written w f
      → IsConsistent (record s {
        ring = publish capture_ring_cap [] size_16 s.ring;
        producer = p_idle;
        sent = s.sent ++ (f ∷ []);
      })
  published w f e =
      let (at, room, is) = producing (p_written w f) e in
      record {
        ring = publish-IsValid capture_ring_cap [] size_16 s.ring h.ring room;
        producing = tt;
        consuming = Consuming-publish s.consumer s.ring h.ring room h.consuming;
        in_order =
            ap (λ l. l ++ (f ∷ [])) h.in_order
            ∙ append_assoc s.got (contents s.ring) (f ∷ [])
            ∙ ap (λ g. s.got ++ (contents s.ring ++ (g ∷ []))) (sym is)
            ∙ ap (λ l. s.got ++ l)
                (sym (contents-publish capture_ring_cap [] size_16 s.ring h.ring room));
      }

  pub released :
      (r : ℕ) (f : List ℤ)
      → s.consumer ≡ c_copied r f
      → IsConsistent
          (record s { ring = advance s.ring; consumer = c_idle; got = s.got ++ (f ∷ []) })
  released r f e =
      let (at, some_held, is) = consuming (c_copied r f) e in
      let ne : s.ring.r ≢ s.ring.w = λ same. omega (arith, same, h.ring.r_fits, h.ring.w_fits) in
      record {
        ring = advance-IsValid capture_ring_cap [] s.ring h.ring ne;
        producing = Producing-advance s.producer s.ring h.ring some_held h.producing;
        consuming = tt;
        in_order =
            h.in_order
            ∙ ap (λ l. s.got ++ l) (contents-advance capture_ring_cap [] s.ring h.ring ne)
            ∙ ap (λ g. s.got ++ (g ∷ contents (advance s.ring))) is
            ∙ sym (append_assoc s.got (f ∷ []) (contents (advance s.ring)));
      }
