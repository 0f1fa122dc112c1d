-- ===== src/Voice/Lifetime.antt =====
-- What `rv_voice_create` allocates, and what it and `rv_voice_destroy` of src/voice.c free. The
-- values of the engine's fields are in Voice.Create; here a pointer is only null, owned, or what
-- stands in memory that was never written. A coder struct with its coder counts as one block.
-- There is one allocator: blocks are taken and given back by the same pair of functions, whether
-- they are the host's `alloc` and `free` or, if the host gives none, `malloc` and `free`. A host that
-- gives only one of its two functions is not represented.
pub mod Blocks
pub mod Balance
pub mod Stray
mod Examples
use residual_engine_audio.Base.{
  ℕ, zero, suc, ◌+◌, ◌-◌, Bool, true, false, ◌&&◌, ◌||◌, Option, some, none, List, [], ◌∷◌, map,
  ltb, ◌==◌, if◌then◌else◌, not, replicate,
}
use residual_engine_audio.CaptureRing.{capture_max_samples}
use residual_engine_audio.Voice.State.{VoiceConfig}
use residual_engine_audio.Voice.Create.{accepts, samples_per_frame}

pub data Ptr : Type 0 where
  null : Ptr
  owned : Ptr
  stray : Ptr

-- The blocks that are held, and the calls that freed what is no block.
pub record Heap : Type 0 where
  pub held : ℕ
  pub stray_frees : ℕ

-- Which allocations succeed, and what the entries of a new table hold before they are written.
pub record Alloc : Type 0 where
  pub engine : Bool
  pub enc : Bool
  pub dec_table : Bool
  pub jb : Bool
  pub pcm_table : Bool
  pub pcm_count : Bool
  pub speaking : Bool
  pub last_rx_ms : Bool
  pub last_rx_flags : Bool
  pub dec : ℕ → Bool
  pub pcm : ℕ → Bool
  pub unwritten : ℕ → Ptr

-- The pointers of the engine, with the entries of its two tables of pointers.
pub record Handles : Type 0 where
  pub enc : Ptr
  pub dec_table : Ptr
  pub dec : List Ptr
  pub jb : Ptr
  pub pcm_table : Ptr
  pub pcm : List Ptr
  pub pcm_count : Ptr
  pub speaking : Ptr
  pub last_rx_ms : Ptr
  pub last_rx_flags : Ptr

abbrev pub is_null : Ptr → Bool
is_null null = true
is_null owned = false
is_null stray = false

-- `rv_alloc_raw`: the pointer, and what is held then.
abbrev pub ptr_of : Bool → Ptr
ptr_of got = if got then owned else null

abbrev pub take_block : Bool → Heap → Heap
take_block true heap = record heap { held = heap.held + 1 }
take_block false heap = heap

abbrev pub take_blocks : List Bool → Heap → Heap
take_blocks [] heap = heap
take_blocks (got ∷ more) heap = take_blocks more (take_block got heap)

-- `rv_free_raw`, and the two functions that destroy a coder: null is passed over.
abbrev pub release : Ptr → Heap → Heap
release null heap = heap
release owned heap = record heap { held = heap.held - 1 }
release stray heap = record heap { stray_frees = heap.stray_frees + 1 }

abbrev pub release_all : List Ptr → Heap → Heap
release_all [] heap = heap
release_all (p ∷ ps) heap = release_all ps (release p heap)

-- The loop over a table of pointers, if there is a table.
abbrev pub release_entries : Ptr → List Ptr → Heap → Heap
release_entries table entries heap = if is_null table then heap else release_all entries heap

-- The blocks freed last: the tables and the engine itself.
abbrev pub tables_of : Handles → List Ptr
tables_of h =
    h.dec_table ∷ h.jb ∷ h.pcm_table ∷ h.pcm_count ∷ h.speaking ∷ h.last_rx_ms ∷ h.last_rx_flags
    ∷ owned ∷ []

-- `rv_voice_destroy`
unfoldable pub destroy : Handles → Heap → Heap
destroy h heap =
    release_all (tables_of h)
      (release_entries h.pcm_table h.pcm (release_entries h.dec_table h.dec (release h.enc heap)))

-- The entries of a table before they are written, from `i` on.
unfoldable pub unwritten_entries : (ℕ → Ptr) → ℕ → ℕ → List Ptr
unwritten_entries unwritten i zero = []
unwritten_entries unwritten i (suc left) = unwritten i ∷ unwritten_entries unwritten (i + 1) left

-- What the loop over the speakers makes, and whether it comes to its end.
pub record Filled : Type 0 where
  pub done : Bool
  pub dec : List Ptr
  pub pcm : List Ptr
  pub heap : Heap

module _ (mem : Alloc) where
  -- The loop from `i` on, with so many speakers left, over tables that were cleared.
  unfoldable pub fill : ℕ → ℕ → Heap → Filled
  fill i zero heap = record { done = true; dec = []; pcm = []; heap = heap }
  fill i (suc left) heap =
      let dec = ptr_of (mem.dec i) in
      let pcm = ptr_of (mem.pcm i) in
      let heap' = take_block (mem.pcm i) (take_block (mem.dec i) heap) in
      let rest = fill (i + 1) left heap' in
      if is_null dec || is_null pcm
      then (record {
        done = false;
        dec = dec ∷ replicate left null;
        pcm = pcm ∷ replicate left null;
        heap = heap';
      })
      else (record {
        done = rest.done;
        dec = dec ∷ rest.dec;
        pcm = pcm ∷ rest.pcm;
        heap = rest.heap;
      })

  -- The seven tables, in the order in which they are asked for.
  abbrev pub tables : List Bool
  tables =
      mem.dec_table ∷ mem.jb ∷ mem.pcm_table ∷ mem.pcm_count ∷ mem.speaking ∷ mem.last_rx_ms
      ∷ mem.last_rx_flags ∷ []

  abbrev pub has_tables : Bool
  has_tables =
      mem.dec_table && mem.jb && mem.pcm_table && mem.pcm_count && mem.speaking && mem.last_rx_ms
      && mem.last_rx_flags

  abbrev pub handles : List Ptr → List Ptr → Handles
  handles dec pcm = record {
    enc = owned;
    dec_table = ptr_of mem.dec_table;
    dec = dec;
    jb = ptr_of mem.jb;
    pcm_table = ptr_of mem.pcm_table;
    pcm = pcm;
    pcm_count = ptr_of mem.pcm_count;
    speaking = ptr_of mem.speaking;
    last_rx_ms = ptr_of mem.last_rx_ms;
    last_rx_flags = ptr_of mem.last_rx_flags;
  }

  -- The end of creation: with all speakers made, or with what was made destroyed.
  abbrev pub finish_fill : Filled → Option Handles × Heap
  finish_fill f =
      let h = handles f.dec f.pcm in if f.done then (some h, f.heap) else (none, destroy h f.heap)

  -- Creation from the tables on; `heap` is what is held once they have been asked for.
  unfoldable pub with_tables : ℕ → Heap → Option Handles × Heap
  unfolding fill destroy unwritten_entries
  with_tables n heap =
      let raw = unwritten_entries mem.unwritten 0 n in
      if has_tables then finish_fill (fill 0 n heap) else (none, destroy (handles raw raw) heap)

  -- `rv_voice_create`
  unfoldable pub create_handles : VoiceConfig → Heap → Option Handles × Heap
  unfolding with_tables
  create_handles cfg heap =
      let n = samples_per_frame cfg in
      let heap' = take_block true heap in
      if not (accepts cfg)
      then (none, heap)
      else if not mem.engine
      then (none, heap)
      else if n == 0 || ltb capture_max_samples n
      then (none, release owned heap')
      else if not mem.enc
      then (none, release owned heap')
      else with_tables cfg.max_players (take_blocks tables (take_block true heap'))
