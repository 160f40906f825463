-- ===== src/Arrive/Once.antt =====
-- A name is answered once, however many messages it sends.
use bsflite_otr.Base.{
  ◌>>=◌, Run, done, fault, unfinished, ◌∷◌, [], List, ◌+◌, ◌≤◌, ◌<◌, ◌≡◌, refl, Bool, true, false,
  length, All, if◌then◌else◌, arith, inl, inr,
}
use bsflite_otr.Session.{Text}
use bsflite_otr.Packet.{size_mod}
use bsflite_otr.Desk.{Desk}
use bsflite_otr.Desk.Server.{IsTold}
use bsflite_otr.Arrive.{Libotr, is_waiting, getmessage, getmessages}
use bsflite_otr.Arrive.Keep.{replies, Once, Handled, same-Once, IsSmall, getmessage-Handled}

-- A sender, whether the message is an answer itself, and the message.
abbrev pub IsMessage : Text × Bool × Text → Type 0
IsMessage m = length m.2 < size_mod

true_or_false : {b : Bool} → b ≡ true → b ≡ false → ⊥
true_or_false t f = cc

Once-trans : (nick : Text) (a b c : Desk) → Once nick a b → Once nick b c → Once nick a c
Once-trans nick a b c (inl (e, inl f)) (inl (e', w')) = inl (omega arith, inl f)
Once-trans nick a b c (inl (e, inr t)) (inl (e', inl f)) = absurd (true_or_false t f)
Once-trans nick a b c (inl (e, inr t)) (inl (e', inr t')) = inl (omega arith, inr t')
Once-trans nick a b c (inl (e, inl f)) (inr (e', f', t')) = inr (omega arith, f, t')
Once-trans nick a b c (inl (e, inr t)) (inr (e', f', t')) = absurd (true_or_false t f')
Once-trans nick a b c (inr (e, f, t)) (inl (e', inl f')) = absurd (true_or_false t f')
Once-trans nick a b c (inr (e, f, t)) (inl (e', inr t')) = inr (omega arith, f, t')
Once-trans nick a b c (inr (e, f, t)) (inr (e', f', t')) = absurd (true_or_false t f')

getmessages-Handled :
    (libotr : Libotr) (nick : Text) (d : Desk) (ms : List (Text × Bool × Text))
    → IsSmall libotr
    → All IsMessage ms
    → IsTold d
    → Handled nick d (getmessages libotr d ms)
getmessages-Handled libotr nick d [] small vs v = (v, same-Once nick d)
getmessages-Handled libotr nick d ((who, automessage, message) ∷ ms) small (fits, vs) v =
    more (getmessage libotr d who automessage message)
      (getmessage-Handled libotr nick d who automessage message small fits v)
      (λ d' v'. getmessages-Handled libotr nick d' ms small vs v')
  where
    later : (d' : Desk) (r : Run Desk) → Once nick d d' → Handled nick d' r → Handled nick d r
    later d' (done d'') once (told, once') = (told, Once-trans nick d d' d'' once once')
    later d' fault once h = h
    later d' unfinished once h = h

    more :
        (r : Run Desk)
        → Handled nick d r
        → ((d' : Desk) → IsTold d' → Handled nick d' (getmessages libotr d' ms))
        → Handled nick d (r >>= λ (d' : Desk). getmessages libotr d' ms)
    more (done d') (told, once) next = later d' (getmessages libotr d' ms) once (next d' told)
    more fault h next = h
    more unfinished h next = h

-- Messages of any senders, whatever libotr makes of them, arrive one after the other at a desk where
-- the server was told the away message: all are handled, the desk stays such a desk, and in the meantime
-- a name is sent one answer at most, and none if it was in the list of those who wait.
pub getmessages_lem :
    (libotr : Libotr) (nick : Text) (d : Desk) (ms : List (Text × Bool × Text))
    → IsSmall libotr
    → All IsMessage ms
    → IsTold d
    → (d' : Desk) × (getmessages libotr d ms ≡ done d')
      × IsTold d'
      × (replies nick d'.calls
          ≤ replies nick d.calls + (if is_waiting nick d.waiting then 0 else 1))
getmessages_lem libotr nick d ms small vs v =
    ends (getmessages libotr d ms) (getmessages-Handled libotr nick d ms small vs v)
  where
    ends :
        (r : Run Desk)
        → Handled nick d r
        → (d' : Desk) × (r ≡ done d')
          × IsTold d'
          × (replies nick d'.calls
              ≤ replies nick d.calls + (if is_waiting nick d.waiting then 0 else 1))
    ends (done d') (told, inl (e, w)) = (d', refl, told, ground arith)
    ends (done d') (told, inr (e, f, t)) = (d', refl, told, rw f (omega arith))
    ends fault h = absurd h
    ends unfinished h = absurd h
