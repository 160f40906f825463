-- ===== src/Tests/Typing.antt =====
-- The keyboard, the commands and the screen at one input each.
use bsflite_otr.Base.{
  done, unfinished, ◌++◌, ◌∷◌, [], List, ℕ, ◌≤◌, ◌≡◌, refl, true, false, none, some, length, All,
  arith, map,
}
use mathlib.Core.List.{Perm}
use bsflite_otr.Session.{Text}
use bsflite_otr.Tests.Samples.{client, bob, buddy_ann}
use bsflite_otr.Tests.Texts.{defaults}
use bsflite_otr.Desk.{Desk, call, send, said, logged, away, parse_input, input_set_predefaway}
use bsflite_otr.Desk.Told.{After, parse_input-After}
use bsflite_otr.Numerals.{atoi, signed, digits_from}
use bsflite_otr.Keys.{markup_key, key_of, press, press_all}
use bsflite_otr.Keys.Bound.{Edited, press-Edited}
use bsflite_otr.Keys.Message.{press_all-message}
use bsflite_otr.Wrap.{wordwrap_print, indented, newline}
use bsflite_otr.Wrap.Exact.{join, blanks, Fits, wordwrap_print_lem}
use bsflite_otr.Listing.{Mark, columns, display_buddylist_sorted}
use bsflite_otr.Listing.Exact.{concat, cells, shown_as, IsRow, display_buddylist_sorted_lem}
use bsflite_otr.Links.{Link, Links, unlink}
use bsflite_otr.Links.Exact.{unlink-never_ends}
use bsflite_otr.Away.{read_away_messages}
use bsflite_otr.Away.Exact.{lines, read_away_messages_lem}
use bsflite_otr.Paste.{input_paste}
use bsflite_otr.Paste.Exact.{keys_of, broken, input_paste_lem}

abbrev pub desk : Desk
desk = record {
  inputbuf = [];
  istyping = false;
  rawinput = false;
  waiting = [];
  lastsn = none;
  single_log = false;
  netspeak_filter = false;
  connected = true;
  isaway = false;
  awaymsg = none;
  awaymsgs = [];
  isidle = false;
  respond_idle_only = false;
  otr = false;
  isinvisible = false;
  client = client;
  calls = [];
}

-- "a<b"
abbrev pub formula : Text
formula = b'a' ∷ b'<' ∷ b'b' ∷ []

abbrev pub escaped : Text
escaped = b'a' ∷ b'&' ∷ b'l' ∷ b't' ∷ b';' ∷ b'b' ∷ []

press_all-message_example :
    press_all desk (b'm' ∷ b'b' ∷ b' ' ∷ b'a' ∷ b'<' ∷ b'b' ∷ 10 ∷ [])
    ≡ done (
        call
          (record desk { lastsn = some (b'b' ∷ []) })
          (send (b'b' ∷ []) escaped ∷ said (b'b' ∷ []) formula ∷ logged (b'b' ∷ []) escaped ∷ []))
unfolding markup_key
press_all-message_example =
    press_all-message desk b'b' [] formula refl refl refl refl ((refl, refl, refl), tt)
      (refl, (refl, (refl, tt))) refl (omega arith)

press-Edited_example : Edited desk 34 (press desk 34)
unfolding key_of markup_key
press-Edited_example = press-Edited desk 34 (omega arith) refl

-- "ghi", while not away.
abbrev going : Desk
going = record desk { inputbuf = b'g' ∷ b'h' ∷ b'i' ∷ [] }

parse_input-After_example : After going (parse_input going)
parse_input-After_example =
    parse_input-After going (omega arith)
      (record { flag = refl; message = refl; visibility = refl })

wordwrap_print_lem_example :
    (ls : List Text) × (wordwrap_print 10 2 (b'h' ∷ b'i' ∷ b' ' ∷ b'y' ∷ b'o' ∷ b'u' ∷ [])
      ≡ indented 2 ls)
    × (join ls ≡ blanks newline (b'h' ∷ b'i' ∷ b' ' ∷ b'y' ∷ b'o' ∷ b'u' ∷ []))
    × All (Fits 4) ls
wordwrap_print_lem_example = wordwrap_print_lem 10 2 (b'h' ∷ b'i' ∷ b' ' ∷ b'y' ∷ b'o' ∷ b'u' ∷ [])

display_buddylist_sorted_lem_example :
    let rows = display_buddylist_sorted 80 (buddy_ann ∷ buddy_ann ∷ []) in
    let bs = buddy_ann ∷ buddy_ann ∷ [] in
    (concat rows
      ≡ cells Mark.online bs ++ (cells Mark.idle bs ++ (cells Mark.away bs ++ cells Mark.gone bs)))
    × Perm (concat rows) (map shown_as bs)
    × All (IsRow (columns 80)) rows
display_buddylist_sorted_lem_example = display_buddylist_sorted_lem 80 (buddy_ann ∷ buddy_ann ∷ [])

abbrev link_at : ℕ → Link
link_at h = record { conn = h; username = none }

unlink-never_ends_example : unlink 9 3 (link_at 1 ∷ link_at 2 ∷ link_at 3 ∷ []) ≡ unfinished
unlink-never_ends_example = unlink-never_ends 9 3 (link_at 1) (link_at 2) (link_at 3 ∷ []) refl refl

-- One connection, at an address, of a client that reconnects.
abbrev links : Links
links = record {
  clist = link_at 1 ∷ [];
  conn = some 1;
  settings = record defaults { auto_reconnect = 5 };
  isaway = false;
  awaymsg = none;
  client = client;
  calls = [];
}

abbrev out_for_lunch : List Text
out_for_lunch = (b'o' ∷ b'u' ∷ b't' ∷ []) ∷ (b'e' ∷ b'a' ∷ b't' ∷ []) ∷ []

read_away_messages_lem_example :
    (d' : Desk) × (read_away_messages desk (some (lines out_for_lunch)) ≡ done d')
    × (d'.awaymsgs ≡ out_for_lunch)
    × (input_set_predefaway d' (b'1' ∷ []) ≡ record d' {
      isaway = true;
      awaymsg = some (b'e' ∷ b'a' ∷ b't' ∷ []);
      calls = away (b'e' ∷ b'a' ∷ b't' ∷ []) ∷ [];
    })
unfolding atoi signed digits_from
read_away_messages_lem_example =
    read_away_messages_lem desk ((b'o' ∷ b'u' ∷ b't' ∷ []) ∷ []) [] (b'e' ∷ b'a' ∷ b't' ∷ [])
      (b'1' ∷ [])
      (
        (((refl, refl, refl), ((refl, refl, refl), ((refl, refl, refl), tt))), refl, omega arith),
        (
          (((refl, refl, refl), ((refl, refl, refl), ((refl, refl, refl), tt))), refl, omega arith),
          tt,
        ),
      )
      refl refl refl

input_paste_lem_example :
    (out : List Text) × (input_paste true 20 bob (keys_of out_for_lunch) ≡ done out)
    × (broken out ≡ broken out_for_lunch)
    × All (λ m. length m ≤ 20) out
input_paste_lem_example = input_paste_lem 20 bob out_for_lunch (omega arith) refl (
  (
    ((refl, refl, refl, refl), ((refl, refl, refl, refl), ((refl, refl, refl, refl), tt))),
    refl,
    refl,
    omega arith,
  ),
  (
    (
      ((refl, refl, refl, refl), ((refl, refl, refl, refl), ((refl, refl, refl, refl), tt))),
      refl,
      refl,
      omega arith,
    ),
    tt,
  ),
)
