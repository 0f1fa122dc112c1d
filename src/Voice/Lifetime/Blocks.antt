-- ===== src/Voice/Lifetime/Blocks.antt =====
-- How many blocks the steps of creating and destroying an engine take and give back.
use residual_engine_audio.Base.{
  ℕ, zero, suc, ◌+◌, ◌≡◌, refl, ap, ◌∙◌, arith, Bool, true, false, ◌||◌, List, [], ◌∷◌, ◌++◌, map,
  if◌then◌else◌, if_both, replicate, All,
}
use residual_engine_audio.Voice.Lifetime.{
  Ptr, null, owned, stray, Heap, Alloc, Handles, is_null, ptr_of, take_block, take_blocks, release,
  release_all, release_entries, tables_of, destroy, unwritten_entries, Filled, fill, tables,
  handles,
}

-- So many blocks more.
abbrev pub more : ℕ → Heap → Heap
more k heap = record heap { held = heap.held + k }

pub more-more : (j k : ℕ) (heap : Heap) → more j (more k heap) ≡ more (j + k) heap
more-more j k heap = ap (λ n. record heap { held = n }) (omega arith)

abbrev pub weight : Ptr → ℕ
weight null = 0
weight owned = 1
weight stray = 0

abbrev pub total : List Ptr → ℕ
total [] = 0
total (p ∷ ps) = weight p + total ps

-- The pointer may be freed.
abbrev pub is_proper : Ptr → Bool
is_proper null = true
is_proper owned = true
is_proper stray = false

abbrev pub AllProper : List Ptr → Type 0
AllProper ps = All (λ p. is_proper p ≡ true) ps

release-more :
    (p : Ptr) (k : ℕ) (heap : Heap)
    → is_proper p ≡ true
    → release p (more (weight p + k) heap) ≡ more k heap
release-more null k heap e = ap (λ n. record heap { held = n }) (omega arith)
release-more owned k heap e = ap (λ n. record heap { held = n }) (omega arith)
release-more stray k heap e = absurd (cc e)

release_all-more :
    (ps : List Ptr) (k : ℕ) (heap : Heap)
    → AllProper ps
    → release_all ps (more (total ps + k) heap) ≡ more k heap
release_all-more [] k heap h = ap (λ n. record heap { held = n }) (omega arith)
release_all-more (p ∷ ps) k heap (e, h) =
    let split : weight p + total ps + k ≡ weight p + (total ps + k) = omega arith in
    ap (λ n. release_all ps (release p (more n heap))) split
    ∙ ap (release_all ps) (release-more p (total ps + k) heap e)
    ∙ release_all-more ps k heap h

-- The entries count only if there is a table.
abbrev pub in_table : Ptr → List Ptr → ℕ
in_table table entries = if is_null table then 0 else total entries

release_entries-more :
    (table : Ptr) (entries : List Ptr) (k : ℕ) (heap : Heap)
    → AllProper entries
    → release_entries table entries (more (in_table table entries + k) heap) ≡ more k heap
release_entries-more null entries k heap h = ap (λ n. record heap { held = n }) (omega arith)
release_entries-more owned entries k heap h = release_all-more entries k heap h
release_entries-more stray entries k heap h = release_all-more entries k heap h

-- All that the pointers of an engine hold.
abbrev weight_of : Handles → ℕ
weight_of h =
    weight h.enc
    + (in_table h.dec_table h.dec + (in_table h.pcm_table h.pcm + (total (tables_of h) + 0)))

destroy-more :
    (h : Handles) (heap : Heap)
    → is_proper h.enc ≡ true
    → AllProper h.dec
    → AllProper h.pcm
    → AllProper (tables_of h)
    → destroy h (more (weight_of h) heap) ≡ heap
unfolding destroy
destroy-more h heap e d p t =
    let rest = total (tables_of h) + 0 in
    let pcm = in_table h.pcm_table h.pcm + rest in
    ap
      (λ x.
        release_all (tables_of h)
          (release_entries h.pcm_table h.pcm (release_entries h.dec_table h.dec x)))
      (release-more h.enc (in_table h.dec_table h.dec + pcm) heap e)
    ∙ ap (λ x. release_all (tables_of h) (release_entries h.pcm_table h.pcm x))
        (release_entries-more h.dec_table h.dec pcm heap d)
    ∙ ap (release_all (tables_of h)) (release_entries-more h.pcm_table h.pcm rest heap p)
    ∙ release_all-more (tables_of h) 0 heap t
    ∙ ap (λ n. record heap { held = n }) (omega arith)

take_block-more : (got : Bool) (heap : Heap) → take_block got heap ≡ more (weight (ptr_of got)) heap
take_block-more true heap = refl
take_block-more false heap = ap (λ n. record heap { held = n }) (omega arith)

ptr_of-proper : (got : Bool) → is_proper (ptr_of got) ≡ true
ptr_of-proper true = refl
ptr_of-proper false = refl

pub take_blocks-more :
    (gots : List Bool) (heap : Heap) → take_blocks gots heap ≡ more (total (map ptr_of gots)) heap
take_blocks-more [] heap = ap (λ n. record heap { held = n }) (omega arith)
take_blocks-more (got ∷ gots) heap =
    take_blocks-more gots (take_block got heap)
    ∙ ap (more (total (map ptr_of gots))) (take_block-more got heap)
    ∙ more-more (total (map ptr_of gots)) (weight (ptr_of got)) heap
    ∙ ap (λ n. more n heap) (omega arith)

All-replicate_null : (n : ℕ) → AllProper (replicate n null) × (total (replicate n null) ≡ 0)
All-replicate_null zero = (tt, refl)
All-replicate_null (suc n) = let (h, e) = All-replicate_null n in ((refl, h), omega (arith, e))

-- What a loop that fills the tables holds.
abbrev pub IsFilled : Heap → Filled → Type 0
IsFilled heap f =
    (f.heap ≡ more (total f.dec + total f.pcm) heap) × AllProper f.dec × AllProper f.pcm

two_taken :
    (a b : Bool) (heap : Heap)
    → take_block b (take_block a heap) ≡ more (weight (ptr_of b) + weight (ptr_of a)) heap
two_taken a b heap =
    take_block-more b (take_block a heap)
    ∙ ap (more (weight (ptr_of b))) (take_block-more a heap)
    ∙ more-more (weight (ptr_of b)) (weight (ptr_of a)) heap

stopped-IsFilled :
    (a b : Bool) (left : ℕ) (heap : Heap)
    → IsFilled heap (record {
      done = false;
      dec = ptr_of a ∷ replicate left null;
      pcm = ptr_of b ∷ replicate left null;
      heap = take_block b (take_block a heap);
    })
stopped-IsFilled a b left heap =
    let (h, none_held) = All-replicate_null left in
    (
      two_taken a b heap ∙ ap (λ n. more n heap) (omega (arith, none_held)),
      (ptr_of-proper a, h),
      (ptr_of-proper b, h),
    )

further-IsFilled :
    (a b : Bool) (heap : Heap) (rest : Filled)
    → IsFilled (take_block b (take_block a heap)) rest
    → IsFilled heap (record {
      done = rest.done;
      dec = ptr_of a ∷ rest.dec;
      pcm = ptr_of b ∷ rest.pcm;
      heap = rest.heap;
    })
further-IsFilled a b heap rest (is, d, p) = (
  is
      ∙ ap (more (total rest.dec + total rest.pcm)) (two_taken a b heap)
      ∙ more-more (total rest.dec + total rest.pcm) (weight (ptr_of b) + weight (ptr_of a)) heap
      ∙ ap (λ n. more n heap) (omega arith),
  (ptr_of-proper a, d),
  (ptr_of-proper b, p),
)

pub unwritten-proper :
    (unwritten : ℕ → Ptr) (i left : ℕ)
    → ((i : ℕ) → unwritten i ≡ null)
    → AllProper (unwritten_entries unwritten i left)
      × (total (unwritten_entries unwritten i left) ≡ 0)
unfolding unwritten_entries
unwritten-proper unwritten i zero clear = (tt, refl)
unwritten-proper unwritten i (suc left) clear =
    let (h, e) = unwritten-proper unwritten (i + 1) left clear in
    (
      (ap is_proper (clear i), h),
      let first : weight (unwritten i) ≡ 0 = ap weight (clear i) in omega (arith, first, e),
    )

-- The tables and the engine, each there or null.
ptrs-AllProper : (gots : List Bool) → AllProper (map ptr_of gots ++ (owned ∷ []))
ptrs-AllProper [] = (refl, tt)
ptrs-AllProper (got ∷ gots) = (ptr_of-proper got, ptrs-AllProper gots)

module _ (mem : Alloc) where
  -- The loop holds what its entries hold.
  pub fill-IsFilled : (i left : ℕ) (heap : Heap) → IsFilled heap (fill mem i left heap)
  unfolding fill
  fill-IsFilled i zero heap = (ap (λ n. record heap { held = n }) (omega arith), tt, tt)
  fill-IsFilled i (suc left) heap =
      let heap' = take_block (mem.pcm i) (take_block (mem.dec i) heap) in
      if_both (IsFilled heap) (is_null (ptr_of (mem.dec i)) || is_null (ptr_of (mem.pcm i)))
        (stopped-IsFilled (mem.dec i) (mem.pcm i) left heap)
        (further-IsFilled (mem.dec i) (mem.pcm i) heap (fill mem (i + 1) left heap')
          (fill-IsFilled (i + 1) left heap'))

  -- An engine destroyed with all that it holds.
  pub destroyed :
      (dec pcm : List Ptr) (now heap : Heap)
      → AllProper dec
      → AllProper pcm
      → in_table (ptr_of mem.dec_table) dec ≡ total dec
      → in_table (ptr_of mem.pcm_table) pcm ≡ total pcm
      → now ≡ more (total dec + total pcm) (more (total (map ptr_of (tables mem)) + 2) heap)
      → destroy (handles mem dec pcm) now ≡ heap
  destroyed dec pcm now heap d p in_dec in_pcm is =
      let h = handles mem dec pcm in
      let whole : now ≡ more (weight_of h) heap =
        is
        ∙ more-more (total dec + total pcm) (total (map ptr_of (tables mem)) + 2) heap
        ∙ ap (λ n. more n heap) (omega (arith, in_dec, in_pcm)) in
      ap (destroy h) whole ∙ destroy-more h heap refl d p (ptrs-AllProper (tables mem))
