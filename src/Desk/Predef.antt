-- ===== src/Desk/Predef.antt =====
-- Which message `G` takes.
use bsflite_otr.Base.{
  ◌==◌, not, ◌++◌, ◌∷◌, [], List, ℕ, ◌+◌, ◌≡◌, refl, ap, ◌∙◌, true, false, some, length,
  if◌then◌else◌, arith,
}
use bsflite_otr.Session.{Text}
use bsflite_otr.Numerals.{atoi}
use bsflite_otr.Desk.{Desk, away, call, is_nil, predef_loop, input_set_predefaway}

predef_loop-at :
    (d : Desk) (n count : ℕ) (ms ns : List Text) (m : Text)
    → n ≡ count + length ms
    → predef_loop d n count (ms ++ (m ∷ ns))
      ≡ call (record d { isaway = true; awaymsg = some m }) (away m ∷ [])
unfolding predef_loop
predef_loop-at d n count [] ns m e = let here : (count == n) ≡ true = ground arith in rw here refl
predef_loop-at d n count (k ∷ ms) ns m e =
    let later : (count == n) ≡ false = ground arith in
    rw later (predef_loop-at d n (count + 1) ms ns m (omega (arith, e)))

-- The message of that number, counted from 0.
pub input_set_predefaway-at :
    (d : Desk) (arg m : Text) (ms ns : List Text)
    → d.awaymsgs ≡ ms ++ (m ∷ ns)
    → d.connected ≡ true
    → is_nil arg ≡ false
    → atoi arg ≡ length ms
    → input_set_predefaway d arg ≡ call (record d { isaway = true; awaymsg = some m }) (away m ∷ [])
unfolding input_set_predefaway
input_set_predefaway-at d arg m ms ns all on given e =
    ap (λ b. if not b then d else if is_nil arg then d else predef_loop d (atoi arg) 0 d.awaymsgs)
      on
    ∙ ap (λ b. if b then d else predef_loop d (atoi arg) 0 d.awaymsgs) given
    ∙ ap (predef_loop d (atoi arg) 0) all
    ∙ predef_loop-at d (atoi arg) 0 ms ns m (omega (arith, e))
