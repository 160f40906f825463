-- ===== src/Lib.antt =====
-- bsflite is a terminal client of the OSCAR messaging protocol; imcomm/ is the protocol library it
-- stands on. This library models the part of both that is computation: bytes, packets, TLV lists,
-- frames and SNACs sent and received, the login, the list of connections and the loop that polls
-- them, the buddy lists of the library, and the buddy list that the client shows.
--
-- Files, from the bottom:
-- - Base: shared names, Boolean tests, list and bit lemmas. `Run` is what a piece of C does: `done`,
--   `fault` (it touched memory outside an object, or an assertion failed) or `unfinished` (a loop
--   has used up its fuel).
-- - Bytes: imcomm/byteswap.h, `getbyteorder` of imcomm/misc.c, `two_to_16` and `four_to_32` of
--   imcomm/snac.c. `Machine` is the host's byte order and the global `endianness`; `Calibrated` says
--   that the global was set by `getbyteorder`, as `imcomm_create_handle` does.
-- - Packet: imcomm/packet.c. `pkt_addX` and `pkt_getX` are `pkt_add*` and `pkt_get*`; `Field` stands
--   for one call of a writer or a reader. The list `bytes` is the object that `data` points to.
-- - Tlv: `tlv_split`, `count_tlv_pkt` and `count_tlv` of imcomm/snac.c.
-- - Session: `struct IMComm` of imcomm/imcomm.h as the record `Handle`, whose `trace` holds what was
--   sent and which callbacks were made, and `Env`, the world: fresh memory, the socket, the clock.
-- - Flap: imcomm/flap.c as compiled without SEND_QUEUES, and the senders it works with: `flap_send`
--   (`flap_transmit` up to the sequence number), `flap_send_multi` (`flap_sendMulti`), `snac_send`,
--   `snac_add_to_multi` (`snac_addToMulti`) and `set_idle_time` (`imcomm_set_idle_time`).
-- - Names: `imcomm_simplify_sn` and `imcomm_compare_nicks` of imcomm/imcomm.c, `simplify_sn` of util.c.
-- - Roster: `buddies_online` of imcomm/imcomm.c, with `add_buddy` (`imcomm_internal_add_buddy`),
--   `update_buddy_times`, `update_buddy_away` and `delete_buddy` (`imcomm_internal_delete_buddy`).
-- - Contacts: the stored list of imcomm/snac.c, with `add_to_buddylist` (`imcomm_addtobuddylist`),
--   `get_next_id`, `im_add_buddy` and `im_remove_buddy`, which send their changes through Flap and
--   use Names and Roster.
-- - Incoming: the handlers of imcomm/snac.c for SNACs that arrive, `get_signon` (`snac_get_signon`),
--   `get_signoff`, `get_incoming_im` and `get_user_info`, which split their TLVs with Tlv and change
--   the Roster, and `im_send_message` (`imcomm_im_send_message`).
-- - Requests: the functions of imcomm/snac.c that send one SNAC or a batch (`request` is a packet built
--   and handed to `snac_sendpkt`), and `imcomm_set_profile`, `imcomm_set_away` and their like.
-- - Numerals: `atoi` and `%d` of the C library, as the two modules below use them.
-- - Dial: `connect_socks5` and `connect_https` of imcomm/proxy.c and `connect_ssl` of imcomm/ssl.c.
-- - Login: imcomm/bos_signon.c, with `im_signon` (`imcomm_im_signon`), `signon_phase2`
--   (`bos_signon_phase2`), `md5snac` (`bos_md5snac`) and `srv_migration` (`handle_srv_migration`). It
--   connects through Dial and sends through Flap and Requests.
-- - Handles: the list of connections of imcomm/imcomm.c, with `create_handle`, `child_handle`
--   (`imcomm_create_child_handle`), `delete_handle` and `remove_deleted` (`remove_deleted_handles`).
-- - Dispatch: `snac_decode` (in Dispatch/Decode) and the handlers that it alone calls; it hands the
--   other SNACs to Incoming, Login and Requests. Its `Answer` says which handle it leaves, which child
--   it has made, and whether handles are to be removed.
-- - Receive: the reading of a frame in `imcomm_select`, and `flap_decode` of imcomm/flap.c.
-- - Poll: `imcomm_select`, which removes the marked handles, reads a frame from each connection that is
--   readable, decodes it and keeps the connection alive. Poll/Runs is the step relation of a client
--   that also asks its connections for something.
-- - Settings: `read_conf` and `bl_get_confopt` of config.c, over the text of the file.
-- - Desk: the commands of input.c, `parse_input` and what it calls, on what they use of `struct Conn`;
--   what they ask of imcomm and of the log is a list of calls. It uses Netspeak, Markup and Screen.
-- - Keys: the keys of the main loop of bsf.c, on `inputbuf`; the return key runs `parse_input`.
-- - Idle: a round of the loop of `main` in bsf.c, with `last_keystroke_time` and the report of an idle
--   user; it hands the key to Keys.
-- - Arrive: `getmessage` of aim.c, on the same desk.
-- - Perform: what the desk asks of imcomm, carried out on a connection, with
--   `otr_imcomm_im_send_message` of otr.c. It joins Desk to Incoming, Contacts and Requests.
-- - Runs: the client as a whole, keys and callbacks in any order, as a step relation; `deliver` makes
--   the callback that create_new_connection of conn.c registers for an event.
-- - Paste: `bsf_getline` and `input_paste` of input.c, on a list of keys.
-- - Away: `read_away_messages` of away.c, over the text of the file.
-- - Wrap: `wordwrap_print`, `prettyprint` and their forms with a mark, of out.c.
-- - Listing: `display_buddylist_sorted` of out.c, on the buddies of Screen.
-- - Links: `clist`, with `create_new_connection` of conn.c, `handle_deleted` of bsf.c and
--   `input_reconnect` of input.c.
-- - Screen: the callbacks of aim.c, from `buddy_online` to `buddy_offline`, on the client's list.
-- - Netspeak: `undo_netspeak` of cleaner.c, with its word table.
-- - Markup: `strip_html` of util.c.
-- - Tests: the inputs on which the theorems are applied.
--
-- Numbers are natural numbers with the wrap-around of their C type written out; `size_t` has 64 bits.
-- Memory that `malloc` returns is a parameter, whose contents are not known. Loops that C bounds by
-- data run on fuel: `tlv_split` on the length of the memory, since a round takes four bytes at least;
-- `count_tlv_pkt` on the length of the packet; `imcomm_get_next_id` on the length of the list plus
-- one, since a list of n entries uses n numbers at most; `undo_netspeak` and `strip_html` on the length
-- of the text, since a round takes a character at least, and so does the reader of the
-- configuration and of the away messages, and a paste takes a key; a frame is read on the number of its bytes,
-- since a read gives a byte at least. The families of a server are read on the length of the SNAC. The
-- loops without a bound (the answer of an HTTPS proxy, a connection that is closed inside
-- a frame, `remove_deleted_handles`, the unlinking of a connection) run on fuel that is an
-- argument.
--
-- What comes from outside is a field of `Env`: memory, the clock, the resolver, the sockets, and the
-- digest of MD5. A read takes the handle's trace, so that it may answer differently each time. The
-- memory and the address of a new handle are arguments, and so are what libotr makes of a message that
-- arrives or is sent, and, in Idle, the readings of the clock and what the variable `nchr` holds.
--
-- Not modelled: terminal and file I/O, the calls of OpenSSL, encryption (libotr) with its callbacks and
-- its files of keys, MD5 (a copy of another library), freeing of memory and with it
-- `imcomm_delete_handle_now`, calls of imcomm from inside a callback (Desk records them, and Perform
-- carries them out afterwards), the connection that handle_deleted makes by itself (in Runs) and the one
-- that `R!` makes (in Perform and Idle), the loop of `p` and the files of `z!` (in Desk), the code for
-- Mac OS, for SEND_QUEUES and for MESSAGE_QUEUE, the drawing of the line and of the prompt, and the
-- commands of libotr.
pub mod Base
pub mod Bytes
pub mod Packet
pub mod Tlv
pub mod Session
pub mod Flap
pub mod Names
pub mod Roster
pub mod Contacts
pub mod Incoming
pub mod Netspeak
pub mod Markup
pub mod Requests
pub mod Numerals
pub mod Dial
pub mod Login
pub mod Handles
pub mod Dispatch
pub mod Receive
pub mod Poll
pub mod Desk
pub mod Keys
pub mod Wrap
pub mod Listing
pub mod Links
pub mod Away
pub mod Paste
pub mod Arrive
pub mod Perform
pub mod Runs
pub mod Idle
pub mod Settings
pub mod Screen
pub mod Tests
