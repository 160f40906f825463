-- ===== src/Tlv.antt =====
-- Type-length-value lists in imcomm/snac.c: `tlv_split`, `count_tlv` and `count_tlv_pkt`.
pub mod RoundTrip
pub mod Sound
pub mod Total
pub mod Count
use bsflite_otr.Base.{
  ℕ, zero, suc, ◌+◌, ◌%◌, ◌^◌, ◌==◌, List, [], ◌∷◌, length, drop, Run, done, fault, unfinished,
  ◌>>=◌, read_mem, ltb, if◌then◌else◌,
}
use bsflite_otr.Bytes.{Machine, two_to_16}
use bsflite_otr.Packet.{Packet, size_mod, pkt_init_p, pkt_get16, pkt_skip}

-- `struct TLVList`, without the link. The value of an empty one is never set in C.
pub record Tlv : Type 0 where
  pub type : ℕ
  pub len : ℕ
  pub value : List ℕ

-- `if (newtlv->len != 0) memcpy(newtlv->value, data + x, newtlv->len)`
pub copy_value : List ℕ → ℕ → ℕ → Run (List ℕ)
copy_value mem x len = if len == 0 then done [] else read_mem mem x len

-- The loop of `tlv_split`. The position `x` is a uint16_t; it is not wrapped inside `data + x + 2`,
-- which is computed as an int.
pub split_loop : Machine → ℕ → List ℕ → ℕ → ℕ → Run (List Tlv)
unfolding copy_value
split_loop m zero mem len x = unfinished
split_loop m (suc fuel) mem len x =
    let more = (do
      type ← two_to_16 m (drop x mem)
      n ← two_to_16 m (drop (x + 2) mem)
      value ← copy_value mem ((x + 4) % 2 ^ 16) n
      rest ← split_loop m fuel mem len (((x + 4) % 2 ^ 16 + n) % 2 ^ 16)
      done (record { type = type; len = n; value = value } ∷ rest)) in
    if ltb x len then more else done []

-- `tlv_split`, on the memory from `data` on; `numtlv` is not used. In memory of less than 64 KiB a
-- round takes four bytes at least, so that the fuel is enough.
pub tlv_split : Machine → List ℕ → ℕ → ℕ → Run (List Tlv)
tlv_split m mem len numtlv = split_loop m (suc (length mem)) mem len 0

-- The loop of `count_tlv_pkt`.
pub count_loop : Machine → ℕ → Packet → ℕ → Run ℕ
count_loop m zero p num = unfinished
count_loop m (suc fuel) p num =
    let more = (do
      (type, q) ← pkt_get16 m p
      (n, r) ← pkt_get16 m q
      count_loop m fuel (pkt_skip r n) ((num + 1) % size_mod)) in
    if ltb p.offset p.len then more else done num

pub count_tlv_pkt : Machine → Packet → Run ℕ
count_tlv_pkt m p = count_loop m (suc p.len) p 0

-- `count_tlv`
pub count_tlv : Machine → List ℕ → ℕ → Run ℕ
count_tlv m mem len = count_tlv_pkt m (pkt_init_p mem len)
