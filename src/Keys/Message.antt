-- ===== src/Keys/Message.antt =====
-- A message from the keyboard to the connection.
use bsflite_otr.Base.{
  ◌>>=◌, done, ◌++◌, ◌∷◌, [], ℕ, ◌+◌, ◌≤◌, ◌≡◌, refl, sym, ap, ◌∙◌, true, false, none, some, length,
  All, arith, length-append, append_assoc, append-nil, All-append,
}
use bsflite_otr.Session.{Text}
use bsflite_otr.Desk.{Desk, send, said, logged, call, is_nil, parse_input}
use bsflite_otr.Desk.Send.{NoBlank, parse_input-message, send_to-plain}
use bsflite_otr.Keys.{key_of, markup_key, add_to_inputbuf, act, press, press_all, control_key}
use bsflite_otr.Keys.Typed.{typed, typed_all, Printable, press-typed, strip_html-typed_all}

-- A character of a screen name.
abbrev pub NameChar : ℕ → Type 0
NameChar c = Printable c × NoBlank c × (markup_key c ≡ none)

typed_all-append : (s t : Text) → typed_all (s ++ t) ≡ typed_all s ++ typed_all t
typed_all-append [] t = refl
typed_all-append (c ∷ s) t =
    ap (λ r. typed c ++ r) (typed_all-append s t)
    ∙ sym (append_assoc (typed c) (typed_all s) (typed_all t))

typed_all-name : (sn : Text) → All NameChar sn → typed_all sn ≡ sn
typed_all-name [] v = refl
typed_all-name (c ∷ sn) ((p, b, m), vs) = rw (m, typed_all-name sn vs) refl

name-Printable : (sn : Text) → All NameChar sn → All Printable sn
name-Printable [] v = tt
name-Printable (c ∷ sn) ((p, b, m), vs) = (p, name-Printable sn vs)

name-NoBlank : (sn : Text) → All NameChar sn → All NoBlank sn
name-NoBlank [] v = tt
name-NoBlank (c ∷ sn) ((p, b, m), vs) = (b, name-NoBlank sn vs)

typed_all-more : (s : Text) → is_nil s ≡ false → is_nil (typed_all s) ≡ false
unfolding markup_key
typed_all-more [] e = e
typed_all-more (c ∷ s) e = ground arith

is_nil-append : (s t : Text) → is_nil s ≡ false → is_nil (s ++ t) ≡ false
is_nil-append [] t e = absurd (ground arith)
is_nil-append (c ∷ s) t e = refl

-- Keys behind the first of a line.
press_all-typed :
    (d : Desk) (s keys : Text)
    → d.rawinput ≡ false
    → d.istyping ≡ true
    → is_nil d.inputbuf ≡ false
    → All Printable s
    → length d.inputbuf + length (typed_all s) ≤ 511
    → press_all d (s ++ keys) ≡ press_all (record d { inputbuf = d.inputbuf ++ typed_all s }) keys
press_all-typed d [] keys cooked typing more v room =
    ap (λ l. press_all (record d { inputbuf = l }) keys) (sym (append-nil d.inputbuf))
press_all-typed d (c ∷ s) keys cooked typing more (v, vs) room =
    let d' = record d { inputbuf = d.inputbuf ++ typed c } in
    ap (λ r. r >>= λ (x : Desk). press_all x (s ++ keys))
      (press-typed d cooked typing c more v
        (omega (arith, room, length-append (typed c) (typed_all s))))
    ∙ press_all-typed d' s keys cooked typing (is_nil-append d.inputbuf (typed c) more) vs
        (omega (arith, length-append d.inputbuf (typed c), length-append (typed c) (typed_all s)))
    ∙ ap (λ l. press_all (record d { inputbuf = l }) keys)
        (append_assoc d.inputbuf (typed c) (typed_all s))

press-m :
    (d : Desk)
    → d.inputbuf ≡ []
    → press d b'm' ≡ done (record d { istyping = true; inputbuf = b'm' ∷ [] })
unfolding key_of markup_key act add_to_inputbuf
press-m d empty = rw empty refl

press_enter :
    (d d' : Desk)
    → parse_input d ≡ done d'
    → press_all d (10 ∷ [])
      ≡ done (record d' { inputbuf = []; istyping = false; rawinput = false; waiting = [] })
unfolding key_of control_key act
press_enter d d' e = rw e refl

-- On a connection, on an empty line, outside of raw input and without the filter of abbreviations:
-- `m`, a name of characters that are no blank, no markup and no control characters, a blank, a message
-- of printable characters and the return key, if the line has room for the message with its escapes.
-- The message is sent, escaped, to that name; what is printed of it is the message as it was typed; it
-- is logged as it was sent; the name is the last one; and the line is empty again.
pub press_all-message :
    (d : Desk) (c : ℕ) (sn msg : Text)
    → d.inputbuf ≡ []
    → d.connected ≡ true
    → d.rawinput ≡ false
    → d.netspeak_filter ≡ false
    → All NameChar (c ∷ sn)
    → All Printable msg
    → is_nil msg ≡ false
    → length (c ∷ sn) + length (typed_all msg) ≤ 509
    → press_all d (b'm' ∷ ((c ∷ sn) ++ (b' ' ∷ (msg ++ (10 ∷ [])))))
      ≡ done (
          call
            (record d {
              inputbuf = [];
              istyping = false;
              rawinput = false;
              waiting = [];
              lastsn = some (c ∷ sn);
            })
            (send (c ∷ sn) (typed_all msg)
              ∷ said (c ∷ sn) msg
              ∷ logged (c ∷ sn) (typed_all msg)
              ∷ []))
unfolding markup_key
press_all-message d c sn msg empty on cooked off names prints more room =
    let name = c ∷ sn in
    let word =
      typed_all-append name (b' ' ∷ msg)
      ∙ ap (λ r. r ++ (b' ' ∷ typed_all msg)) (typed_all-name name names) in
    let typing = record d { istyping = true; inputbuf = b'm' ∷ [] } in
    let line = b'm' ∷ (name ++ (b' ' ∷ typed_all msg)) in
    let d' = record d { istyping = true; inputbuf = line } in
    ap (λ r. r >>= λ (x : Desk). press_all x (name ++ (b' ' ∷ (msg ++ (10 ∷ [])))))
      (press-m d empty)
    ∙ ap (press_all typing) (sym (append_assoc name (b' ' ∷ msg) (10 ∷ [])))
    ∙ press_all-typed typing (name ++ (b' ' ∷ msg)) (10 ∷ []) cooked refl refl
        (All-append Printable name (b' ' ∷ msg) (name-Printable name names) (refl, prints))
        (omega (arith, ap length word, length-append name (b' ' ∷ typed_all msg)))
    ∙ ap (λ l. press_all (record d { istyping = true; inputbuf = b'm' ∷ l }) (10 ∷ [])) word
    ∙ press_enter d' _ (
        parse_input-message d' c sn (typed_all msg) on (name-NoBlank name names)
          (typed_all-more msg more)
        ∙ send_to-plain d' name (typed_all msg) msg off (strip_html-typed_all msg prints))
