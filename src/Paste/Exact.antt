-- ===== src/Paste/Exact.antt =====
-- What is pasted is sent, in messages that are not too long.
use bsflite_otr.Base.{
  done, ◌==◌, ◌||◌, ◌++◌, ◌∷◌, [], List, ℕ, ◌+◌, ◌<◌, ◌≡◌, refl, ap, ◌∙◌, false, length, All, arith,
  lt→ltb, length-append, append_assoc, append-nil, Run, fault, ◌>>=◌, zero, suc, ◌-◌, ◌≤◌, sym,
  true, ltb, if◌then◌else◌, Bool-cases, inl, inr, ge→ltb, ltb_false→le, All-append,
}
use bsflite_otr.Session.{Text}
use bsflite_otr.Desk.{is_nil}
use bsflite_otr.Paste.{line, getline, br, is_dot, add_line, paste_loop, input_paste}

-- A key that goes into the line.
abbrev pub IsCharacter : ℕ → Type 0
IsCharacter k =
    (k == 0) ≡ false
    × ((k == 10) || (k == 13)) ≡ false
    × (k == 24) ≡ false
    × ((k == 8) || ((k == 127) || (k == 4))) ≡ false

getline-typed :
    (room : ℕ) (s t : Text) (keys : List ℕ)
    → All IsCharacter t
    → length s + length t < room
    → getline room s (t ++ (10 ∷ keys)) ≡ done (line (s ++ t) keys)
unfolding getline
getline-typed room s [] keys v fits = rw (lt→ltb (length s) room (omega arith), append-nil s) refl
getline-typed room s (k ∷ t) keys ((z, e, c, b), v) fits =
    rw (lt→ltb (length s) room (omega arith), e, c, b)
      (getline-typed room (s ++ (k ∷ [])) t keys v (omega (arith, fits, length-append s (k ∷ [])))
        ∙ ap (λ l. done (line l keys)) (append_assoc s (k ∷ []) t))

-- A line of a text that is pasted, for messages of at most so many characters.
abbrev pub IsLine : ℕ → Text → Type 0
IsLine most s = All IsCharacter s × (is_nil s ≡ false) × (is_dot s ≡ false) × (length s + 6 < most)

-- The keys of the lines, and of the dot that ends them.
abbrev pub keys_of : List Text → List ℕ
keys_of [] = b'.' ∷ 10 ∷ []
keys_of (s ∷ ss) = s ++ (10 ∷ keys_of ss)

-- Texts, each behind a line break of HTML.
abbrev pub broken : List Text → Text
broken [] = []
broken (s ∷ ss) = br ++ (s ++ broken ss)

abbrev put_before : Text → List Text → List Text
put_before [] ss = ss
put_before (c ∷ s) ss = (c ∷ s) ∷ ss

put_before-more : (s : Text) (ss : List Text) → is_nil s ≡ false → put_before s ss ≡ s ∷ ss
put_before-more [] ss e = absurd (ground arith)
put_before-more (c ∷ s) ss e = refl

-- The messages that a paste sends: the lines are in them, and none is too long.
abbrev Pasted : ℕ → Text → List Text → Run (List Text) → Type 0
Pasted most buf ss r =
    (out : List Text) × (r ≡ done out)
    × (broken out ≡ broken (put_before buf ss))
    × All (λ m. length m ≤ most) out

-- One line more.
add_line-Pasted :
    (most : ℕ) (buf s : Text) (ss : List Text)
    → IsLine most s
    → length buf ≤ most
    → let (out, buf') = add_line most buf s in
      (length buf' ≤ most)
      × (broken out ++ broken (put_before buf' ss) ≡ broken (put_before buf (s ∷ ss)))
      × All (λ m. length m ≤ most) out
unfolding add_line
add_line-Pasted most [] s ss (v, more, d, short) fits =
    let room : ltb most (0 + length s + 4) ≡ false = ge→ltb most _ (omega (arith, short)) in
    rw room (omega (arith, short), ap broken (put_before-more s ss more), tt)
add_line-Pasted most (c ∷ buf) s ss (v, more, d, short) fits =
    elim (Bool-cases (ltb most (length (c ∷ buf) + length s + 4))) [
      | inl full ↦ rw full (
        omega (arith, short),
        ap (λ (r : Text). br ++ (r ++ broken (put_before s ss))) (append-nil (c ∷ buf))
            ∙ ap (λ (l : List Text). br ++ ((c ∷ buf) ++ broken l)) (put_before-more s ss more),
        (fits, tt),
      )
      | inr room ↦ rw room (
        omega (
          arith,
          ltb_false→le most (length (c ∷ buf) + length s + 4) room,
          length-append (c ∷ buf) (br ++ s),
        ),
        ap (λ (r : Text). br ++ r) (append_assoc (c ∷ buf) (br ++ s) (broken ss)),
        tt,
      )
    ]

broken-append : (ss ts : List Text) → broken (ss ++ ts) ≡ broken ss ++ broken ts
broken-append [] ts = refl
broken-append (s ∷ ss) ts =
    ap (λ r. br ++ r)
      (ap (λ r. s ++ r) (broken-append ss ts) ∙ sym (append_assoc s (broken ss) (broken ts)))

paste_loop-line :
    (fuel most : ℕ) (buf s : Text) (keys : List ℕ)
    → IsLine most s
    → paste_loop (suc fuel) most buf (s ++ (10 ∷ keys)) ≡ (
        let (out, buf') = add_line most buf s in
        paste_loop fuel most buf' keys >>= λ (ms : List Text). done (out ++ ms))
unfolding paste_loop
paste_loop-line fuel most buf s keys (v, more, d, short) =
    rw (getline-typed (most - 6) [] s keys v (omega (arith, short)), d) refl

paste_loop-dot :
    (fuel most : ℕ) (buf : Text)
    → 7 < most
    → paste_loop (suc fuel) most buf (keys_of []) ≡ done (if is_nil buf then [] else buf ∷ [])
unfolding paste_loop
paste_loop-dot fuel most buf room =
    rw
      (getline-typed (most - 6) [] (b'.' ∷ []) [] ((refl, refl, refl, refl), tt)
        (omega (arith, room)))
      refl

paste_loop-Pasted :
    (fuel most : ℕ) (buf : Text) (ss : List Text)
    → 7 < most
    → All (IsLine most) ss
    → length buf ≤ most
    → length ss < fuel
    → Pasted most buf ss (paste_loop fuel most buf (keys_of ss))
paste_loop-Pasted zero most buf ss room vs fits enough = absurd (omega arith)
paste_loop-Pasted (suc fuel) most [] [] room vs fits enough =
    ([], paste_loop-dot fuel most [] room, refl, tt)
paste_loop-Pasted (suc fuel) most (c ∷ buf) [] room vs fits enough =
    ((c ∷ buf) ∷ [], paste_loop-dot fuel most (c ∷ buf) room, refl, (fits, tt))
paste_loop-Pasted (suc fuel) most buf (s ∷ ss) room (v, vs) fits enough =
    let (out, buf') = add_line most buf s in
    let (fits', same, short) = add_line-Pasted most buf s ss v fits in
    let (ms, e, rest, all_short) =
      paste_loop-Pasted fuel most buf' ss room vs fits' (omega arith) in
    (
      out ++ ms,
      paste_loop-line fuel most buf s (keys_of ss) v
          ∙ ap (λ r. r >>= λ (ms : List Text). done (out ++ ms)) e,
      broken-append out ms ∙ ap (λ r. broken out ++ r) rest ∙ same,
      All-append (λ m. length m ≤ most) out ms short all_short,
    )

length-keys_of : (ss : List Text) → length ss < length (keys_of ss)
length-keys_of [] = omega arith
length-keys_of (s ∷ ss) = omega (arith, length-keys_of ss, length-append s (10 ∷ keys_of ss))

-- `p` with a recipient, on a connection: lines of characters, none empty, none a dot by itself and none
-- with more than the limit less seven, each ended by return, and then a dot by itself. Messages are
-- sent that are not longer than the limit; each behind a line break, they are the lines, each behind
-- a line break.
pub input_paste_lem :
    (most : ℕ) (sn : Text) (ss : List Text)
    → 7 < most
    → is_nil sn ≡ false
    → All (IsLine most) ss
    → (out : List Text) × (input_paste true most sn (keys_of ss) ≡ done out)
      × (broken out ≡ broken ss)
      × All (λ m. length m ≤ most) out
unfolding input_paste
input_paste_lem most sn ss room to vs =
    let (out, e, same, short) =
      paste_loop-Pasted (suc (length (keys_of ss))) most [] ss room vs (omega arith)
        (omega (arith, length-keys_of ss)) in
    (out, rw to e, same, short)

-- A backspace as the first key of a line, while there is room: the NUL is written before the buffer.
getline_erase :
    (room k : ℕ) (keys : List ℕ)
    → 0 < room
    → ((k == 8) || ((k == 127) || (k == 4))) ≡ true
    → getline room [] (k ∷ keys) ≡ fault
unfolding getline
getline_erase room k keys some_room e =
    let return : ((k == 10) || (k == 13)) ≡ false = ground arith in
    let cancel : (k == 24) ≡ false = ground arith in
    rw (lt→ltb 0 room some_room, return, cancel, e) refl
