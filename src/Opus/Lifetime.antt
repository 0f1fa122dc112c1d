-- ===== src/Opus/Lifetime.antt =====
-- What creating and destroying a coder of src/rv_opus.c takes and gives back: the blocks of the
-- wrapper's structs, and the coders of libopus.
use residual_engine_audio.Base.{
  ℕ, ◌+◌, ◌-◌, ◌≡◌, refl, ap, ap₂, arith, Bool, true, false, Option, some, none,
}

pub record CoderHeap : Type 0 where
  pub structs : ℕ
  pub coders : ℕ

-- A struct that was created; its coder is there.
pub data Coder : Type 0 where
  coder : Coder

abbrev take_struct : CoderHeap → CoderHeap
take_struct heap = record heap { structs = heap.structs + 1 }

abbrev take_coder : CoderHeap → CoderHeap
take_coder heap = record heap { coders = heap.coders + 1 }

abbrev free_struct : CoderHeap → CoderHeap
free_struct heap = record heap { structs = heap.structs - 1 }

-- `opus_encoder_destroy` and `opus_decoder_destroy`
abbrev free_coder : CoderHeap → CoderHeap
free_coder heap = record heap { coders = heap.coders - 1 }

-- `rv_opus_enc_create`: whether `malloc` gives a struct, and whether libopus gives an encoder.
unfoldable pub enc_create : Bool → Bool → CoderHeap → Option Coder × CoderHeap
enc_create false given heap = (none, heap)
enc_create true false heap = (none, free_struct (take_struct heap))
enc_create true true heap = (some coder, take_coder (take_struct heap))

unfoldable pub enc_destroy : Option Coder → CoderHeap → CoderHeap
enc_destroy none heap = heap
enc_destroy (some c) heap = free_struct (free_coder heap)

-- `rv_opus_dec_create`, so for a decoder.
unfoldable pub dec_create : Bool → Bool → CoderHeap → Option Coder × CoderHeap
dec_create false given heap = (none, heap)
dec_create true false heap = (none, free_struct (take_struct heap))
dec_create true true heap = (some coder, take_coder (take_struct heap))

unfoldable pub dec_destroy : Option Coder → CoderHeap → CoderHeap
dec_destroy none heap = heap
dec_destroy (some c) heap = free_struct (free_coder heap)

-- Creating a coder and destroying what comes of it, a null pointer included, leaves what was held.
pub enc-released :
    (block given : Bool) (heap : CoderHeap)
    → let (c, heap') = enc_create block given heap in enc_destroy c heap' ≡ heap
unfolding enc_create enc_destroy
enc-released false given heap = refl
enc-released true false heap = ap (λ n. record heap { structs = n }) (omega arith)
enc-released true true heap =
    ap₂ (λ m n. record { structs = m; coders = n }) (omega arith) (omega arith)

pub dec-released :
    (block given : Bool) (heap : CoderHeap)
    → let (c, heap') = dec_create block given heap in dec_destroy c heap' ≡ heap
unfolding dec_create dec_destroy
dec-released false given heap = refl
dec-released true false heap = ap (λ n. record heap { structs = n }) (omega arith)
dec-released true true heap =
    ap₂ (λ m n. record { structs = m; coders = n }) (omega arith) (omega arith)
