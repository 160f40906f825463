-- ===== src/Packet.antt =====
-- imcomm/packet.c: a buffer with a cursor, written and read field by field.
pub mod Write
pub mod Read
pub mod Valid
use bsflite_otr.Base.{
  ℕ, ◌+◌, ◌-◌, ◌%◌, ◌^◌, Bool, true, false, List, [], ◌∷◌, ◌++◌, length, Run, done, fault, ◌>>=◌,
  read_mem, write_mem, ltb, leb, if◌then◌else◌,
}
use bsflite_otr.Bytes.{Machine, store16, store32, two_to_16, four_to_32}

-- `struct IMComm_Packet`. The list is the object that `data` points to.
pub record Packet : Type 0 where
  pub bytes : List ℕ
  pub len : ℕ
  pub offset : ℕ

-- `IMCOMM_RET_OK` and `IMCOMM_RET_ERROR`.
pub data Ret : Type 0 where
  ok error : Ret

-- `size_t` is 64 bits wide.
abbrev pub size_mod : ℕ
size_mod = 2 ^ 64

-- `pkt_init`, on the memory that `malloc(len)` returned, whose contents are not known.
pub pkt_init : List ℕ → ℕ → Packet
pkt_init fresh len = record { bytes = fresh; len = len; offset = 0 }

-- `pkt_initP`, on a buffer that exists: the length is a uint16_t.
pub pkt_init_p : List ℕ → ℕ → Packet
pkt_init_p buffer len = record { bytes = buffer; len = len % 2 ^ 16; offset = 0 }

-- `pkt_zero`
zeros : List ℕ → List ℕ
zeros [] = []
zeros (b ∷ bs) = 0 ∷ zeros bs

pkt_zero : Packet → Packet
unfolding zeros
pkt_zero p = record p { bytes = zeros p.bytes }

-- `pkt_empty`: the subtraction is of size_t, and wraps.
pub pkt_empty : Packet → ℕ
pkt_empty p = (p.len + size_mod - p.offset) % size_mod

pkt_get_offset : Packet → ℕ
pkt_get_offset p = p.offset

pub pkt_skip : Packet → ℕ → Packet
pkt_skip p skipnum = record p { offset = (p.offset + skipnum) % size_mod }

-- `pkt_setoffset`: a failed `assert` ends the program.
pkt_set_offset : Packet → ℕ → Run Packet
pkt_set_offset p offset = if ltb offset p.len then done (record p { offset = offset }) else fault

unfoldable pub pkt_end : Packet → Bool
pkt_end p = leb p.len p.offset

-- The common body of the `pkt_add` functions: a guard, a copy, and the cursor moved.
pub add_bytes : Packet → List ℕ → Run (Ret × Packet)
unfolding pkt_empty
add_bytes p bs =
    let moved = (p.offset + length bs) % size_mod in
    if ltb (pkt_empty p) (length bs) then done (error, p) else (do
      mem ← write_mem p.bytes p.offset bs
      done (ok, record p { bytes = mem; offset = moved }))

pub pkt_add8 : Packet → ℕ → Run (Ret × Packet)
pkt_add8 p b = add_bytes p (b % 256 ∷ [])

-- `pkt_addraw`: the bytes are read from the caller's object.
pub pkt_add_raw : Packet → List ℕ → ℕ → Run (Ret × Packet)
pkt_add_raw p source len =
    if ltb (pkt_empty p) len
    then done (error, p)
    else (do bs ← read_mem source 0 len; add_bytes p bs)

-- The common body of the `pkt_get` functions. Nothing is checked, and the cursor moves on.
pub get_bytes : Packet → ℕ → ℕ → Run (List ℕ × Packet)
get_bytes p n step = do
  bs ← read_mem p.bytes p.offset n
  done (bs, record p { offset = (p.offset + step) % size_mod })

first : List ℕ → Run ℕ
first [] = fault
first (b ∷ bs) = done b

pub pkt_get8 : Packet → Run (ℕ × Packet)
unfolding get_bytes first
pkt_get8 p = do (bs, q) ← get_bytes p 1 1; v ← first bs; done (v, q)

-- `pkt_getraw`: the cursor moves by the length as a uint16_t.
pub pkt_get_raw : Packet → ℕ → Run (List ℕ × Packet)
pkt_get_raw p len = get_bytes p len (len % 2 ^ 16)

-- `pkt_getstr`: the same bytes with a NUL behind them.
pub pkt_get_str : Packet → ℕ → Run (List ℕ × Packet)
pkt_get_str p len = do (bs, q) ← get_bytes p len (len % 2 ^ 16); done (bs ++ (0 ∷ []), q)

module _ (m : Machine) where
  pub pkt_add16 : Packet → ℕ → Run (Ret × Packet)
  pkt_add16 p val = add_bytes p (store16 m (val % 2 ^ 16))

  pub pkt_add32 : Packet → ℕ → Run (Ret × Packet)
  pkt_add32 p val = add_bytes p (store32 m (val % 2 ^ 32))

  pub pkt_get16 : Packet → Run (ℕ × Packet)
  unfolding get_bytes
  pkt_get16 p = do (bs, q) ← get_bytes p 2 2; v ← two_to_16 m bs; done (v, q)

  pub pkt_get32 : Packet → Run (ℕ × Packet)
  unfolding get_bytes
  pkt_get32 p = do (bs, q) ← get_bytes p 4 4; v ← four_to_32 m bs; done (v, q)

-- A field of a message, and the writer and the reader of its kind.
pub data Field : Type 0 where
  u8 u16 u32 : ℕ → Field
  raw : List ℕ → Field

module _ (m : Machine) where
  pub add_field : Packet → Field → Run (Ret × Packet)
  add_field p (u8 v) = pkt_add8 p v
  add_field p (u16 v) = pkt_add16 m p v
  add_field p (u32 v) = pkt_add32 m p v
  add_field p (raw bs) = pkt_add_raw p bs (length bs)

  -- A run of `pkt_add` calls; the program ignores what they return.
  unfoldable pub add_fields : Packet → List Field → Run Packet
  add_fields p [] = done p
  add_fields p (f ∷ fs) = do (status, q) ← add_field p f; add_fields q fs

  -- The getter of a field's kind; a raw field is read by its length.
  pub get_field : Packet → Field → Run (Field × Packet)
  get_field p (u8 v) = do (x, q) ← pkt_get8 p; done (u8 x, q)
  get_field p (u16 v) = do (x, q) ← pkt_get16 m p; done (u16 x, q)
  get_field p (u32 v) = do (x, q) ← pkt_get32 m p; done (u32 x, q)
  get_field p (raw bs) = do (x, q) ← pkt_get_raw p (length bs); done (raw x, q)

  pub get_fields : Packet → List Field → Run (List Field × Packet)
  get_fields p [] = done ([], p)
  get_fields p (f ∷ fs) = do (x, q) ← get_field p f; (xs, r) ← get_fields q fs; done (x ∷ xs, r)
