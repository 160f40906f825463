-- ===== src/Tests/Sending.antt =====
-- Frames and contacts at one input each.
use bsflite_otr.Base.{
  if◌then◌else◌, none, ℕ, ◌<◌, ◌+◌, ◌^◌, ◌≡◌, refl, false, [], ◌∷◌, length, done, arith, List,
}
use bsflite_otr.Packet.{ok}
use bsflite_otr.Session.{Handle, Online, Text}
use bsflite_otr.Tests.Lists.{session-IsRoster}
use bsflite_otr.Roster.View.{find}
use bsflite_otr.Names.{text_eq, simplify_sn, to_lower}
use bsflite_otr.Flap.{Part, flap_send_multi}
use bsflite_otr.Flap.Batch.{send_each, stream, flap_send_multi-send_each}
use bsflite_otr.Contacts.{is_saved, im_add_buddy, im_remove_buddy}
use bsflite_otr.Contacts.Ids.{IsLeastFree}
use bsflite_otr.Contacts.Keep.{changed, im_add_buddy_lem, im_remove_buddy_lem}
use bsflite_otr.Tests.Samples.{world, session, ann, bob_styled, saved_ann}

abbrev first : Part
first = record { channel = 2; packet = 1 ∷ 2 ∷ []; updateidle = false }

abbrev second : Part
second = record { channel = 2; packet = 3 ∷ []; updateidle = false }

flap_send_multi-send_each_example :
    (h1 h2 : Handle) × (flap_send_multi world session (first ∷ second ∷ []) ≡ done (ok, h1))
    × (send_each world session (first ∷ second ∷ []) ≡ done h2)
    × (h1.seqnum ≡ h2.seqnum)
    × (stream h1.trace ≡ stream h2.trace)
flap_send_multi-send_each_example =
    flap_send_multi-send_each world (λ tr bs. refl) first (second ∷ []) session (refl, (refl, tt))
      (omega arith)

bob_unsaved : is_saved (simplify_sn bob_styled) session.buddylist ≡ false
unfolding is_saved simplify_sn to_lower text_eq
bob_unsaved = refl

bob_short : 10 + length (simplify_sn bob_styled) < 2 ^ 16
unfolding simplify_sn to_lower
bob_short = omega arith

im_add_buddy_lem_example :
    (id : ℕ) × IsLeastFree session.buddylist id
    × (im_add_buddy world 77 session bob_styled
        ≡ done (
            changed
              (record session {
                buddylist =
                    saved_ann
                    ∷ record {
                      sn = simplify_sn bob_styled;
                      formatted = simplify_sn bob_styled;
                      ssi_id = id;
                      group_id = 77;
                    }
                    ∷ [];
              })
              0x08
              (simplify_sn bob_styled)
              1
              id))
im_add_buddy_lem_example =
    im_add_buddy_lem world (λ tr bs. refl) 77 session bob_styled bob_short (omega arith) bob_unsaved

ann_simple : ann ≡ simplify_sn ann
unfolding simplify_sn to_lower
ann_simple = refl

nobody_saved : is_saved (simplify_sn ann) [] ≡ false
unfolding is_saved
nobody_saved = refl

im_remove_buddy_lem_example :
    (online : List Online) × ((k : Text)
      → find k online
        ≡ (if text_eq k (simplify_sn ann) then none else find k session.buddies_online))
    × (im_remove_buddy world session ann
        ≡ done (changed (record session { buddylist = []; buddies_online = online }) 0x0a ann 1 1))
im_remove_buddy_lem_example =
    im_remove_buddy_lem world (λ tr bs. refl) session ann [] saved_ann [] refl nobody_saved
      ann_simple (omega arith) session-IsRoster
