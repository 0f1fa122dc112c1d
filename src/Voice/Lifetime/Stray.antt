-- ===== src/Voice/Lifetime/Stray.antt =====
-- Creating an engine when one of its tables cannot be had.
use residual_engine_audio.Base.{
  ℕ, zero, suc, ◌+◌, ◌≤◌, ◌≡◌, refl, ap, ◌∙◌, arith, Bool, true, false, ◌||◌, List, [], ◌∷◌, none,
  ltb, ◌==◌,
}
use residual_engine_audio.CaptureRing.{capture_max_samples}
use residual_engine_audio.Voice.State.{VoiceConfig}
use residual_engine_audio.Voice.Create.{accepts, samples_per_frame}
use residual_engine_audio.Voice.Lifetime.{
  Ptr, null, owned, stray, Heap, Alloc, ptr_of, take_block, take_blocks, release, release_all,
  release_entries, tables_of, destroy, unwritten_entries, tables, has_tables, handles, with_tables,
  create_handles,
}

-- Freeing never takes back a stray call.
release-grows : (p : Ptr) (heap : Heap) → heap.stray_frees ≤ (release p heap).stray_frees
release-grows null heap = omega arith
release-grows owned heap = omega arith
release-grows stray heap = omega arith

release_all-grows :
    (ps : List Ptr) (heap : Heap) → heap.stray_frees ≤ (release_all ps heap).stray_frees
release_all-grows [] heap = omega arith
release_all-grows (p ∷ ps) heap =
    omega (arith, release-grows p heap, release_all-grows ps (release p heap))

release_entries-grows :
    (table : Ptr) (ps : List Ptr) (heap : Heap)
    → heap.stray_frees ≤ (release_entries table ps heap).stray_frees
release_entries-grows null ps heap = omega arith
release_entries-grows owned ps heap = release_all-grows ps heap
release_entries-grows stray ps heap = release_all-grows ps heap

-- Every entry of a table that was not written is a stray call.
release-unwritten :
    (unwritten : ℕ → Ptr) (i left : ℕ) (heap : Heap)
    → ((i : ℕ) → unwritten i ≡ stray)
    → (release_all (unwritten_entries unwritten i left) heap).stray_frees ≡ heap.stray_frees + left
unfolding unwritten_entries
release-unwritten unwritten i zero heap junk = omega arith
release-unwritten unwritten i (suc left) heap junk =
    let first : (release (unwritten i) heap).stray_frees ≡ heap.stray_frees + 1 =
      ap (λ p. (release p heap).stray_frees) (junk i) in
    release-unwritten unwritten (i + 1) left (release (unwritten i) heap) junk
    ∙ omega (arith, first)

take_blocks-strays :
    (gots : List Bool) (heap : Heap) → (take_blocks gots heap).stray_frees ≡ heap.stray_frees
take_blocks-strays [] heap = refl
take_blocks-strays (true ∷ gots) heap = take_blocks-strays gots (take_block true heap)
take_blocks-strays (false ∷ gots) heap = take_blocks-strays gots heap

module _ (mem : Alloc) where
  -- An engine whose table of decoders was not written.
  destroy-strays :
      (n : ℕ) (heap : Heap)
      → mem.dec_table ≡ true
      → ((i : ℕ) → mem.unwritten i ≡ stray)
      → let raw = unwritten_entries mem.unwritten 0 n in
        heap.stray_frees + n ≤ (destroy (handles mem raw raw) heap).stray_frees
  unfolding destroy
  destroy-strays n heap got junk =
      let raw = unwritten_entries mem.unwritten 0 n in
      let h = handles mem raw raw in
      let h1 = release owned heap in
      let h2 = release_entries (ptr_of mem.dec_table) raw h1 in
      let h3 = release_entries (ptr_of mem.pcm_table) raw h2 in
      let in_dec : h2.stray_frees ≡ heap.stray_frees + n =
        ap (λ b. (release_entries (ptr_of b) raw h1).stray_frees) got
        ∙ release-unwritten mem.unwritten 0 n h1 junk in
      omega (
        arith,
        in_dec,
        release_entries-grows (ptr_of mem.pcm_table) raw h2,
        release_all-grows (tables_of h) h3,
      )

  -- If the table of decoders can be had but another of the seven tables cannot, and new memory
  -- holds anything but zeros, then creating an engine fails, and on the way out frees as many
  -- values that are no blocks as there are speakers, or more.
  pub create_handles-strays :
      (cfg : VoiceConfig) (heap : Heap)
      → accepts cfg ≡ true
      → (samples_per_frame cfg == 0 || ltb capture_max_samples (samples_per_frame cfg)) ≡ false
      → mem.engine ≡ true
      → mem.enc ≡ true
      → mem.dec_table ≡ true
      → has_tables mem ≡ false
      → ((i : ℕ) → mem.unwritten i ≡ stray)
      → let (made, heap') = create_handles mem cfg heap in
        (made ≡ none) × (heap.stray_frees + cfg.max_players ≤ heap'.stray_frees)
  unfolding create_handles with_tables
  create_handles-strays cfg heap good size engine enc dec missing junk =
      let now = take_blocks (tables mem) (take_block true (take_block true heap)) in
      let same = take_blocks-strays (tables mem) (take_block true (take_block true heap)) in
      let strays = destroy-strays cfg.max_players now dec junk in
      (
        rw (good, size, engine, enc, missing) refl,
        rw (good, size, engine, enc, missing) (omega (arith, same, strays)),
      )
