-- ===== src/Wrap/Exact.antt =====
-- The lines of a text that is wrapped.
use bsflite_otr.Base.{
  if-holds, ◌==◌, ◌||◌, ◌&&◌, ◌++◌, ◌∷◌, [], List, ℕ, suc, ◌+◌, ◌-◌, ◌≤◌, ◌≡◌, refl, sym, ap, ◌∙◌,
  Bool, true, false, length, All, ltb, if◌then◌else◌, arith, Bool-cases, inl, inr, ◌⊎◌,
  length-append, append_assoc, append-nil,
}
use bsflite_otr.Session.{Text}
use bsflite_otr.Wrap.{
  newline, ends_word, word, wrap_loop, wordwrap_print, wordwrap_print_echostr, each, no_newline,
  indented,
}

-- A line of one word, and a line of more that fits.
abbrev pub has_blank : Text → Bool
has_blank [] = false
has_blank (c ∷ s) = (c == b' ') || has_blank s

abbrev pub Fits : ℕ → Text → Type 0
Fits room line = (has_blank line ≡ false) ⊎ (length line ≤ room)

-- The lines, joined by blanks.
abbrev pub join : List Text → Text
join [] = []
join (l ∷ []) = l
join (l ∷ m ∷ ls) = l ++ (b' ' ∷ join (m ∷ ls))

abbrev pub blanks : (ℕ → Bool) → Text → Text
blanks hard [] = []
blanks hard (c ∷ s) = (if hard c then b' ' else c) ∷ blanks hard s

has_blank-append :
    (s : Text) (c : ℕ)
    → has_blank s ≡ false
    → (c == b' ') ≡ false
    → has_blank (s ++ (c ∷ [])) ≡ false
has_blank-append [] c e f = rw f refl
has_blank-append (d ∷ s) c e f = ground (arith, has_blank-append s c)

module _ (hard : ℕ → Bool) (room : ℕ) where
  abbrev Pending : Text → Text → Type 0
  Pending line s = (has_blank line ≡ false) ⊎ (length line + word hard s ≤ room)

  in_word :
      (line : Text) (c : ℕ) (s : Text)
      → ends_word hard c ≡ false
      → Pending line (c ∷ s)
      → Pending (line ++ (c ∷ [])) s
  in_word line c s inside (inl e) = inl (has_blank-append line c e (ground arith))
  in_word line c s inside (inr h) =
      let h' : length line + suc (word hard s) ≤ room = rw inside at h in
      inr (omega (arith, h', length-append line (c ∷ [])))

  at_end :
      (line : Text) (c : ℕ) (s : Text)
      → ends_word hard c ≡ true
      → Pending line (c ∷ s)
      → Fits room line
  at_end line c s ends (inl e) = inl e
  at_end line c s ends (inr h) =
      let h' : length line + 0 ≤ room = rw ends at h in inr (omega (arith, h'))

  next_word :
      (line : Text) (c : ℕ) (s : Text)
      → (hard c || ltb room (length line + 1 + word hard s)) ≡ false
      → Pending (line ++ (c ∷ [])) s
  next_word line c s on =
      let fits : length line + 1 + word hard s ≤ room = ground arith in
      inr (omega (arith, fits, length-append line (c ∷ [])))

  wrap_loop-Fits : (line s : Text) → Pending line s → All (Fits room) (wrap_loop hard room line s)
  unfolding wrap_loop
  wrap_loop-Fits line [] (inl e) = (inl e, tt)
  wrap_loop-Fits line [] (inr e) = (inr (omega arith), tt)
  wrap_loop-Fits line (c ∷ s) p = elim (Bool-cases (ends_word hard c)) [
    | inr inside ↦ rw inside (wrap_loop-Fits (line ++ (c ∷ [])) s (in_word line c s inside p))
    | inl ends ↦ elim (Bool-cases (hard c || ltb room (length line + 1 + word hard s))) [
      | inl cut ↦ rw (ends, cut) (at_end line c s ends p, wrap_loop-Fits [] s (inl refl))
      | inr on ↦ rw (ends, on) (wrap_loop-Fits (line ++ (c ∷ [])) s (next_word line c s on))
    ]
  ]

  join_more :
      (l line s : Text)
      → join (l ∷ wrap_loop hard room line s) ≡ l ++ (b' ' ∷ join (wrap_loop hard room line s))
  unfolding wrap_loop
  join_more l line [] = refl
  join_more l line (c ∷ s) =
      if-holds (λ ls. join (l ∷ ls) ≡ l ++ (b' ' ∷ join ls))
        (ends_word hard c && (hard c || ltb room (length line + 1 + word hard s))) _ _ refl
        (join_more l (line ++ (c ∷ [])) s)

  join-wrap_loop : (line s : Text) → join (wrap_loop hard room line s) ≡ line ++ blanks hard s
  unfolding wrap_loop
  join-wrap_loop line [] = sym (append-nil line)
  join-wrap_loop line (c ∷ s) =
      let on = join-wrap_loop (line ++ (c ∷ [])) s ∙ append_assoc line (c ∷ []) (blanks hard s) in
      let cut = join_more line [] s ∙ ap (λ r. line ++ (b' ' ∷ r)) (join-wrap_loop [] s) in
      elim (Bool-cases (ends_word hard c && (hard c || ltb room (length line + 1 + word hard s)))) [
        | inl yes_cut ↦
            let blank : (if hard c then b' ' else c) ≡ b' ' = ground arith in
            rw (yes_cut, blank) cut
        | inr no_cut ↦
            let plain : (if hard c then b' ' else c) ≡ c = ground arith in rw (no_cut, plain) on
      ]

blanks_none : (s : Text) → blanks no_newline s ≡ s
blanks_none [] = refl
blanks_none (c ∷ s) = ap (λ r. c ∷ r) (blanks_none s)

-- `wordwrap_print` prints lines that, joined by blanks, are the text with its line breaks made blanks;
-- each line fits the width between the indentation and the last four columns, or is a single word. The
-- first line is printed where the cursor is, and the others behind as many blanks as the indentation.
pub wordwrap_print_lem :
    (cols offset : ℕ) (s : Text)
    → (ls : List Text) × (wordwrap_print cols offset s ≡ indented offset ls)
      × (join ls ≡ blanks newline s)
      × All (Fits (cols - offset - 4)) ls
unfolding wordwrap_print
wordwrap_print_lem cols offset s =
    let room = cols - offset - 4 in
    (
      wrap_loop newline room [] s,
      refl,
      join-wrap_loop newline room [] s,
      wrap_loop-Fits newline room [] s (inl refl),
    )

-- Likewise `wordwrap_print_echostr`, which keeps line breaks and prints its mark before each line.
wordwrap_print_echostr_lem :
    (cols : ℕ) (echostr s : Text)
    → (ls : List Text) × (wordwrap_print_echostr cols echostr s ≡ each (echostr ++ (b' ' ∷ [])) ls)
      × (join ls ≡ s)
      × All (Fits (cols - (length echostr + 1) - 3)) ls
unfolding wordwrap_print_echostr
wordwrap_print_echostr_lem cols echostr s =
    let room = cols - (length echostr + 1) - 3 in
    (
      wrap_loop no_newline room [] s,
      refl,
      join-wrap_loop no_newline room [] s ∙ blanks_none s,
      wrap_loop-Fits no_newline room [] s (inl refl),
    )
