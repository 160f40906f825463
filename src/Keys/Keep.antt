-- ===== src/Keys/Keep.antt =====
-- What a key does to the desk beside the line.
use bsflite_otr.Base.{
  Always, Always-chain, if-holds, choose-holds, done, ◌==◌, ◌&&◌, not, ◌++◌, ◌∷◌, [], List, ℕ, ◌+◌,
  ◌≤◌, Bool, true, false, length, ltb, if◌then◌else◌, arith, le→leb, gt→leb, length-append, dec_le,
}
use bsflite_otr.Session.{Text}
use bsflite_otr.Desk.{Desk, is_nil, parse_input}
use bsflite_otr.Keys.{
  Key, key_of, add_to_inputbuf, is_completed, blank_in, matches, put, put_most, drop_last,
  recall_line, complete_line, tab, act, press,
}
use bsflite_otr.Keys.Bound.{length-drop_last, recall-Edited}

-- A property of desks that a line which fits its buffer and the state of the keys cannot break, and
-- that a command keeps.
pub record IsStable (P : Desk → Type 0) : Type 0 where
  pub edit :
      (d : Desk) (line : Text) (typing raw : Bool) (who : List Text)
      → P d
      → P (record d { inputbuf = line; istyping = typing; rawinput = raw; waiting = who })
  pub command : (d : Desk) → length d.inputbuf ≤ 511 → P d → Always P (parse_input d)

-- The line fits, too.
abbrev pub Typed : (Desk → Type 0) → Desk → Type 0
Typed P d = P d × (length d.inputbuf ≤ 511)

module _ (P : Desk → Type 0) (stable : IsStable P) where
  put-Typed : (d : Desk) (s : Text) → Typed P d → Always (Typed P) (put d s)
  put-Typed d s (v, fits) = elim (dec_le (length d.inputbuf + length s) 511) [
    | yes h ↦ rw (le→leb _ _ h) (
      stable.edit d (d.inputbuf ++ s) d.istyping d.rawinput d.waiting v,
      omega (arith, h, length-append d.inputbuf s),
    )
    | no h ↦ rw (gt→leb (length d.inputbuf + length s) 511 (omega arith)) tt
  ]

  typing-Typed : (d : Desk) → Typed P d → (Typed P) (record d { istyping = true })
  typing-Typed d (v, fits) = (stable.edit d d.inputbuf true d.rawinput d.waiting v, fits)

  add_to_inputbuf-Typed : (d : Desk) (c : ℕ) → Typed P d → Always (Typed P) (add_to_inputbuf d c)
  unfolding add_to_inputbuf
  add_to_inputbuf-Typed d c v =
      if-holds (Always (Typed P)) (length d.inputbuf == 511) _ _ (typing-Typed d v)
        (put-Typed (record d { istyping = true }) (c ∷ []) (typing-Typed d v))

  put_most-Typed :
      (d : Desk) (most : ℕ) (s : Text) → Typed P d → Always (Typed P) (put_most d most s)
  put_most-Typed d most s v =
      if-holds (Always (Typed P)) (ltb most (length d.inputbuf)) _ _ v (put-Typed d s v)

  recall-Typed : (d : Desk) (c : ℕ) → Typed P d → (Typed P) (recall_line d c)
  unfolding recall_line
  recall-Typed d c (v, fits) = (
    choose-holds P
        (if d.single_log && (c == b'L') then record d { inputbuf = b'l' ∷ b'g' ∷ [] } else d) _
        d.lastsn
        (if-holds P (d.single_log && (c == b'L')) _ _
          (stable.edit d (b'l' ∷ b'g' ∷ []) d.istyping d.rawinput d.waiting v) v)
        (λ sn. stable.edit d _ true d.rawinput d.waiting v),
    recall-Edited d c fits,
  )

  complete-Typed :
      (d : Desk) (c : ℕ) (s : Text) (found : List Text)
      → Typed P d
      → Always (Typed P) (complete_line d c s found)
  unfolding complete_line
  complete-Typed d c s [] v = v
  complete-Typed d c s (sn ∷ []) (v, fits) =
      put-Typed (record d { inputbuf = [] }) (c ∷ (sn ++ (if c == b'm' then b' ' ∷ [] else [])))
        (stable.edit d [] d.istyping d.rawinput d.waiting v, omega arith)
  complete-Typed d c s (sn ∷ tn ∷ more) v = v

  tab-Typed : (d : Desk) (s : Text) → Typed P d → Always (Typed P) (tab d s)
  unfolding tab
  tab-Typed d [] v = v
  tab-Typed d (c ∷ s) v =
      let found = matches s d.client.buddies in
      if-holds (Always (Typed P)) (is_completed c && not (blank_in (c ∷ s)))
        (complete_line d c s found) (done d) (complete-Typed d c s found v) v

  act-Typed : (d : Desk) (c : ℕ) (k : Key) → Typed P d → Always (Typed P) (act d c k)
  unfolding act
  act-Typed d c Key.enter (v, fits) =
      Always-chain P (Typed P) (parse_input d) _ (stable.command d fits v)
        (λ d' v'. (stable.edit d' [] false false [] v', omega arith))
  act-Typed d c Key.toggle_raw (v, fits) =
      (stable.edit d d.inputbuf d.istyping (not d.rawinput) d.waiting v, fits)
  act-Typed d c Key.clear_line (v, fits) = (stable.edit d [] false false d.waiting v, omega arith)
  act-Typed d c Key.redraw v = v
  act-Typed d c Key.complete v = tab-Typed d d.inputbuf v
  act-Typed d c Key.erase (v, fits) =
      if-holds (Typed P) (is_nil d.inputbuf) _ _
        (stable.edit d d.inputbuf false d.rawinput d.waiting v, fits)
        (
          stable.edit d (drop_last d.inputbuf) d.istyping d.rawinput d.waiting v,
          omega (arith, length-drop_last d.inputbuf),
        )
  act-Typed d c (Key.replaced most s) v =
      if-holds (Always (Typed P)) d.rawinput _ _ (add_to_inputbuf-Typed d c v)
        (put_most-Typed d most s v)
  act-Typed d c Key.line_break v = put_most-Typed d 509 (b'<' ∷ b'b' ∷ b'r' ∷ b'>' ∷ []) v
  act-Typed d c Key.recall v =
      if-holds (Always (Typed P)) (is_nil d.inputbuf) _ _ (recall-Typed d c v)
        (add_to_inputbuf-Typed d c v)
  act-Typed d c Key.plain v = add_to_inputbuf-Typed d c v
  act-Typed d c Key.ignored v = v

  pub press-Typed : (d : Desk) (c : ℕ) → Typed P d → Always (Typed P) (press d c)
  press-Typed d c v = act-Typed d c (key_of c) v
