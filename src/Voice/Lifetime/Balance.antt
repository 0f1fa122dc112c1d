-- ===== src/Voice/Lifetime/Balance.antt =====
-- What is held after creating and destroying an engine.
use residual_engine_audio.Base.{
  ℕ, ◌+◌, ◌≡◌, ◌⊎◌, refl, ap, sym, ◌∙◌, arith, Bool, true, false, ◌||◌, Option, some, none, List,
  map, ltb, ◌==◌, if_both, if_cases, not, inl, inr,
}
use residual_engine_audio.CaptureRing.{capture_max_samples}
use residual_engine_audio.Voice.State.{VoiceConfig}
use residual_engine_audio.Voice.Create.{accepts, samples_per_frame}
use residual_engine_audio.Voice.Lifetime.{
  Ptr, null, owned, Heap, Alloc, Handles, ptr_of, take_block, take_blocks, release, destroy,
  unwritten_entries, Filled, fill, tables, has_tables, finish_fill, with_tables, create_handles,
}
use residual_engine_audio.Voice.Lifetime.Blocks.{
  more, total, in_table, take_blocks-more, unwritten-proper, fill-IsFilled, IsFilled, destroyed,
}

-- What is held once an engine is asked for: what was held before if there is none, and once it is
-- destroyed if there is one.
abbrev pub IsReleased : Heap → Option Handles × Heap → Type 0
IsReleased heap (none, now) = now ≡ heap
IsReleased heap (some h, now) = destroy h now ≡ heap

released : (heap : Heap) → release owned (take_block true heap) ≡ heap
released heap = ap (λ n. record heap { held = n }) (omega arith)

both_tables :
    (mem : Alloc) → has_tables mem ≡ true → (mem.dec_table ≡ true) × (mem.pcm_table ≡ true)
both_tables mem e = ground arith

module _ (mem : Alloc) where
  in_some : (got : Bool) (ps : List Ptr) → got ≡ true → in_table (ptr_of got) ps ≡ total ps
  in_some got ps e = rw e refl

  in_empty : (got : Bool) (ps : List Ptr) → total ps ≡ 0 → in_table (ptr_of got) ps ≡ total ps
  in_empty true ps e = refl
  in_empty false ps e = sym e

  -- What is held once the tables have been asked for.
  asked : Heap → Heap
  asked heap = take_blocks (tables mem) (take_block true (take_block true heap))

  asked-more : (heap : Heap) → asked heap ≡ more (total (map ptr_of (tables mem)) + 2) heap
  unfolding asked
  asked-more heap =
      take_blocks-more (tables mem) (take_block true (take_block true heap))
      ∙ ap (λ n. record heap { held = n }) (omega arith)

  finish-IsReleased :
      (f : Filled) (heap : Heap)
      → has_tables mem ≡ true
      → IsFilled (asked heap) f
      → IsReleased heap (finish_fill mem f)
  finish-IsReleased f heap all (is, d, p) =
      let (dt, pt) = both_tables mem all in
      let done =
        destroyed mem f.dec f.pcm f.heap heap d p (in_some mem.dec_table f.dec dt)
          (in_some mem.pcm_table f.pcm pt)
          (is ∙ ap (more (total f.dec + total f.pcm)) (asked-more heap)) in
      if_both (IsReleased heap) f.done done done

  with_tables-IsReleased :
      (n : ℕ) (heap : Heap)
      → (has_tables mem ≡ true) ⊎ ((i : ℕ) → mem.unwritten i ≡ null)
      → IsReleased heap (with_tables mem n (asked heap))
  unfolding with_tables
  with_tables-IsReleased n heap ok_when =
      if_cases (IsReleased heap) (has_tables mem)
        (λ all.
          finish-IsReleased (fill mem 0 n (asked heap)) heap all
            (fill-IsFilled mem 0 n (asked heap)))
        (λ missing. elim ok_when [
          | inl all ↦ absurd (cc (all, missing))
          | inr clear ↦
              let raw = unwritten_entries mem.unwritten 0 n in
              let (proper, none_held) = unwritten-proper mem.unwritten 0 n clear in
              destroyed mem raw raw (asked heap) heap proper proper
                (in_empty mem.dec_table raw none_held) (in_empty mem.pcm_table raw none_held)
                (asked-more heap ∙ ap (λ n. record heap { held = n }) (omega (arith, none_held)))
        ])

  -- If all seven tables can be had, or new memory reads as zero, then creating an engine gives back
  -- all that it took wherever it fails, and destroying the engine gives back all that creating it
  -- took; what is no block is never freed.
  pub create_handles-IsReleased :
      (cfg : VoiceConfig) (heap : Heap)
      → (has_tables mem ≡ true) ⊎ ((i : ℕ) → mem.unwritten i ≡ null)
      → IsReleased heap (create_handles mem cfg heap)
  unfolding create_handles asked
  create_handles-IsReleased cfg heap ok_when =
      let P = IsReleased heap in
      let n = samples_per_frame cfg in
      if_both P (not (accepts cfg)) refl (
        if_both P (not mem.engine) refl (
          if_both P (n == 0 || ltb capture_max_samples n) (released heap) (
            if_both P (not mem.enc) (released heap)
              (with_tables-IsReleased cfg.max_players heap ok_when))))
