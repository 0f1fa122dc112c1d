-- ===== src/OutQueue.antt =====
-- Packets on their way to the host's transport: `out_push`, `out_pop` of src/voice.c. A slot is
-- the list of its `len` bytes; what else stands in its array is never read.
pub mod Refine
mod Examples
use residual_engine_audio.Base.{
  ℕ, Bool, true, false, Option, some, none, List, [], leb, ltb, ◌==◌, if◌then◌else◌, length, Result,
  ok, err,
}
use residual_engine_audio.Ring.{Ring, init, store, front, advance, count, is_empty}

abbrev pub max_out_pkts : ℕ
max_out_pkts = 256

abbrev pub max_pkt_size : ℕ
max_pkt_size = 1400

abbrev pub OutQueue : Type 0
OutQueue = Ring (List ℕ)

unfoldable pub out_init : OutQueue
unfolding init
out_init = init max_out_pkts []

unfoldable pub out_push : OutQueue → List ℕ → OutQueue × Bool
out_push q bytes =
    if length bytes == 0
    then (q, false)
    else if ltb max_pkt_size (length bytes)
    then (q, false)
    else if leb max_out_pkts (count q)
    then (q, false)
    else (store max_out_pkts [] q bytes, true)

-- 0 is `ok none`, 1 is `ok (some packet)`, and -1 is `err 1`.
unfoldable pub out_pop : OutQueue → ℕ → Result (Option (List ℕ)) × OutQueue
out_pop q cap =
    let p = front max_out_pkts [] q in
    if is_empty q
    then (ok none, q)
    else if ltb cap (length p)
    then (err 1, q)
    else (ok (some p), advance q)
