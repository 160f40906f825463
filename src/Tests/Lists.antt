-- ===== src/Tests/Lists.antt =====
-- The two buddy lists and the stored list at one input each.
use bsflite_otr.Base.{ℕ, ◌≡◌, refl, Option, none, some, List, [], ◌∷◌, done, arith}
use bsflite_otr.Session.{Text}
use bsflite_otr.Names.{text_eq, simplify_sn, to_lower}
use bsflite_otr.Roster.View.{find, IsRoster}
use bsflite_otr.Screen.{find_sn, find_buddy, buddy_online, buddy_offline}
use bsflite_otr.Screen.Change.{buddy_offline-online}
use bsflite_otr.Screen.Order.{IsClient, Callback, run_callbacks, run_callbacks-IsClient}
use bsflite_otr.Contacts.{get_next_id}
use bsflite_otr.Contacts.Ids.{IsLeastFree, get_next_id-IsLeastFree}
use bsflite_otr.Tests.Samples.{session, client, ann, bob, bob_styled, buddy_ann}

pub session-IsRoster : IsRoster session.buddies_online
unfolding IsRoster find simplify_sn to_lower
session-IsRoster = (refl, refl, tt)

client-IsClient : IsClient client
client-IsClient = record { sorted = (tt, tt); counted = refl }

abbrev no_context : Text → Option ℕ
no_context sn = none

get_next_id-IsLeastFree_example :
    (id : ℕ) × (get_next_id session ≡ done id) × IsLeastFree session.buddylist id
get_next_id-IsLeastFree_example = get_next_id-IsLeastFree session (omega arith)

bob_absent : find_buddy client bob_styled ≡ none
unfolding find_buddy find_sn simplify_sn to_lower text_eq
bob_absent = refl

bob_same : simplify_sn bob ≡ simplify_sn bob_styled
unfolding simplify_sn to_lower
bob_same = refl

ann_present : find_buddy client ann ≡ some buddy_ann
unfolding find_buddy find_sn simplify_sn to_lower text_eq
ann_present = refl

-- Bob comes and goes, and is idle in between.
abbrev visit : List Callback
visit = Callback.online bob_styled ∷ Callback.idle_for bob 12 ∷ Callback.offline bob ∷ []

run_callbacks-IsClient_example : IsClient (run_callbacks no_context client visit)
run_callbacks-IsClient_example = run_callbacks-IsClient no_context client visit client-IsClient

buddy_offline-online_example :
    let c' = buddy_offline (buddy_online no_context client bob_styled) bob in
    (c'.buddies ≡ client.buddies) × (c'.buddiesonline ≡ 1)
buddy_offline-online_example =
    buddy_offline-online no_context client bob_styled bob bob_absent bob_same
