-- ===== src/Keys/Bound.antt =====
-- The room of the line: `inputbuf` has 512 bytes.
use bsflite_otr.Base.{
  if-holds, choose-holds, length-take, Run, done, fault, unfinished, ◌==◌, ◌||◌, ◌&&◌, ◌++◌, ◌∷◌,
  [], ℕ, ◌+◌, ◌≤◌, ◌<◌, ◌≡◌, refl, Bool, true, false, length, ltb, if◌then◌else◌, choose, arith,
  Bool-cases, inl, inr, ◌⊎◌, ge→ltb, le→leb, gt→leb, length-append, dec_le,
}
use bsflite_otr.Session.{Text}
use bsflite_otr.Desk.{Desk, is_nil}
use bsflite_otr.Keys.{
  Key, key_of, markup_key, control_key, add_to_inputbuf, put, put_most, drop_last, recall_line, act,
  press,
}

-- A key that writes outside of the buffer finds 506 characters at least, and is one of those that put
-- several characters into the line; after any other the line fits the buffer.
abbrev pub Edited : Desk → ℕ → Run Desk → Type 0
Edited d c (done d') = length d'.inputbuf ≤ 511
Edited d c fault = (505 < length d.inputbuf) × ((d.rawinput ≡ false) ⊎ (c ≡ 2))
Edited d c unfinished = ⊥

-- A key that only edits the line.
abbrev pub is_edit : Key → Bool
is_edit Key.enter = false
is_edit Key.complete = false
is_edit _ = true

-- What goes in place of a key has six characters at most, and only one key puts a line break.
abbrev IsShort : ℕ → Key → Type 0
IsShort c (Key.replaced most s) = length s ≤ 6
IsShort c Key.line_break = c ≡ 2
IsShort c _ = Unit {0}

control_key-IsShort : (c : ℕ) → IsShort c (control_key c)
unfolding control_key
control_key-IsShort c = ground arith

markup_key-IsShort :
    (c : ℕ) → IsShort c (choose Key.plain (λ (most, s). Key.replaced most s) (markup_key c))
unfolding markup_key
markup_key-IsShort c = ground arith

key_of-IsShort : (c : ℕ) → IsShort c (key_of c)
unfolding key_of
key_of-IsShort c = if-holds (IsShort c) (ltb c 32 || (c == 127)) _ _ (control_key-IsShort c) (
    if-holds (IsShort c) ((c == b'r') || ((c == b'I') || (c == b'L'))) _ _ tt
      (markup_key-IsShort c))

pub length-drop_last : (s : Text) → length (drop_last s) ≤ length s
unfolding drop_last
length-drop_last [] = omega arith
length-drop_last (c ∷ []) = omega arith
length-drop_last (c ∷ d ∷ s) = omega (arith, length-drop_last (d ∷ s))

module _ (d : Desk) (c : ℕ) (fits : length d.inputbuf ≤ 511) where
  put-Edited : (s : Text) → length s ≤ 6 → (d.rawinput ≡ false) ⊎ (c ≡ 2) → Edited d c (put d s)
  put-Edited s short why = elim (dec_le (length d.inputbuf + length s) 511) [
    | yes h ↦ rw (le→leb _ _ h) (omega (arith, h, length-append d.inputbuf s))
    | no h ↦ rw (gt→leb (length d.inputbuf + length s) 511 (omega arith)) (omega arith, why)
  ]

  put_most-Edited :
      (most : ℕ) (s : Text)
      → length s ≤ 6
      → (d.rawinput ≡ false) ⊎ (c ≡ 2)
      → Edited d c (put_most d most s)
  put_most-Edited most s short why = elim (Bool-cases (ltb most (length d.inputbuf))) [
    | inl e ↦ rw e fits
    | inr e ↦ rw e (put-Edited s short why)
  ]

  add_to_inputbuf-Edited : Edited d c (add_to_inputbuf d c)
  unfolding add_to_inputbuf
  add_to_inputbuf-Edited = elim (Bool-cases (length d.inputbuf == 511)) [
    | inl e ↦ rw e fits
    | inr e ↦
        let room : length d.inputbuf + 1 ≤ 511 = ground arith in
        rw (e, le→leb (length d.inputbuf + 1) 511 room)
          (omega (arith, length-append d.inputbuf (c ∷ [])))
  ]

  pub recall-Edited : length (recall_line d c).inputbuf ≤ 511
  unfolding recall_line
  recall-Edited =
      choose-holds (λ (x : Desk). length x.inputbuf ≤ 511) _ _ d.lastsn
        (if-holds (λ (x : Desk). length x.inputbuf ≤ 511) (d.single_log && (c == b'L')) _ _
          (omega arith) fits)
        (λ sn. omega (
          arith,
          length-take 511 (
              if c == b'r'
              then b'm' ∷ (sn ++ (b' ' ∷ []))
              else if c == b'I'
              then b'i' ∷ sn
              else b'l' ∷ sn),
        ))

  replaced-Edited :
      (most : ℕ) (s : Text) (raw : Bool)
      → length s ≤ 6
      → d.rawinput ≡ raw
      → Edited d c (if raw then add_to_inputbuf d c else put_most d most s)
  replaced-Edited most s true short e = add_to_inputbuf-Edited
  replaced-Edited most s false short e = put_most-Edited most s short (inl e)

  act-Edited : (k : Key) → is_edit k ≡ true → IsShort c k → Edited d c (act d c k)
  unfolding act
  act-Edited Key.enter e short = absurd (ground arith)
  act-Edited Key.complete e short = absurd (ground arith)
  act-Edited Key.toggle_raw e short = fits
  act-Edited Key.clear_line e short = omega arith
  act-Edited Key.redraw e short = fits
  act-Edited Key.erase e short =
      if-holds (λ (x : Desk). length x.inputbuf ≤ 511) (is_nil d.inputbuf) _ _ fits
        (omega (arith, length-drop_last d.inputbuf))
  act-Edited (Key.replaced most s) e short = replaced-Edited most s d.rawinput short refl
  act-Edited Key.line_break e short =
      put_most-Edited 509 (b'<' ∷ b'b' ∷ b'r' ∷ b'>' ∷ []) (omega arith) (inr short)
  act-Edited Key.recall e short =
      if-holds (Edited d c) (is_nil d.inputbuf) _ _ recall-Edited add_to_inputbuf-Edited
  act-Edited Key.plain e short = add_to_inputbuf-Edited
  act-Edited Key.ignored e short = fits

-- Every key but the return key and the tabulator, on a line that fits the buffer: the line still fits
-- it, or the key wrote outside of the buffer. This last happens only at 506 characters or more, and
-- only to a key that puts several characters into the line: one that is escaped outside of raw input,
-- or the one that puts a line break.
pub press-Edited :
    (d : Desk) (c : ℕ)
    → length d.inputbuf ≤ 511
    → is_edit (key_of c) ≡ true
    → Edited d c (press d c)
press-Edited d c fits e = act-Edited d c fits (key_of c) e (key_of-IsShort c)

-- Such a write happens: outside of raw input, a key that is escaped writes outside of the buffer when
-- the line passes the test of its length but has no room for the escape.
press_overflow :
    (d : Desk) (c most : ℕ) (s : Text)
    → d.rawinput ≡ false
    → key_of c ≡ Key.replaced most s
    → length d.inputbuf ≤ most
    → 511 < length d.inputbuf + length s
    → press d c ≡ fault
unfolding act
press_overflow d c most s cooked k low full =
    rw (k, cooked, ge→ltb most (length d.inputbuf) low, gt→leb _ _ full) refl
