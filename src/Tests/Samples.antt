-- ===== src/Tests/Samples.antt =====
-- A little-endian host, a socket that takes everything, and a connection with one buddy.
use bsflite_otr.Base.{
  ℕ, zero, suc, ◌≡◌, refl, sym, ap, true, false, none, List, [], ◌∷◌, length, some, ◌≢◌,
}
use bsflite_otr.Bytes.{Machine, Calibrated, little}
use bsflite_otr.Bytes.Big.{get_byte_order_lem}
use bsflite_otr.Session.{Text, Handle, Saved, Online, Limits, Env, Socket, positive, Read, Proxy}
use bsflite_otr.Screen.{Buddy, Client, Otr}

abbrev pub host : Machine
host = record { host = little; endianness = little }

pub host-Calibrated : Calibrated host
host-Calibrated = sym (get_byte_order_lem little)

-- Memory as `malloc` may hand it out.
abbrev stale : ℕ → List ℕ
stale zero = []
stale (suc n) = 0xCC ∷ stale n

pub length-stale : (n : ℕ) → length (stale n) ≡ n
length-stale zero = refl
length-stale (suc n) = ap suc (length-stale n)

pub broken_ne_got : (bs : List ℕ) → Read.broken ≢ Read.got bs
broken_ne_got bs e = cc

abbrev pub world : Env
world = record {
  machine = host;
  calibrated = host-Calibrated;
  fresh = stale;
  length-fresh = length-stale;
  write = λ tr bs. positive;
  now = λ tr. 1000;
  resolve = λ name. true;
  open_socket = λ tr. some 5;
  connect_to = λ tr name port. true;
  receive = λ tr n. Read.broken;
  md5 = λ bs. stale 16;
  length-md5 = λ bs. refl;
  receive-le = λ tr n bs e. absurd (broken_ne_got bs e);
}

abbrev pub limits : Limits
limits = record {
  profile_len = 1024;
  capabilities = 16;
  buddylist_size = 200;
  num_watchers = 2000;
  online_notifications = 5;
  message_size = 8000;
  sender_warning = 999;
  receiver_warning = 999;
  message_interval = 0;
  visible_list_size = 0;
  invisible_list_size = 0;
}

abbrev pub ann : Text
ann = b'a' ∷ b'n' ∷ b'n' ∷ []

abbrev pub bob : Text
bob = b'b' ∷ b'o' ∷ b'b' ∷ []

-- "B ob", which is bob's name as he writes it.
abbrev pub bob_styled : Text
bob_styled = b'B' ∷ b' ' ∷ b'o' ∷ b'b' ∷ []

abbrev pub saved_ann : Saved
saved_ann = record { sn = ann; formatted = ann; ssi_id = 1; group_id = 1 }

abbrev online_ann : Online
online_ann = record { sn = ann; idletime = 0; onlinetime = 60; isaway = false }

abbrev pub session : Handle
session = record {
  socket = Socket.fd 4;
  use_ssl = false;
  is_child = false;
  to_delete = false;
  connected = true;
  srv_pause = false;
  seqnum = 0xFFFF;
  snacreq = 7;
  limits = limits;
  registered = λ k. true;
  families = [];
  num_families = 0;
  buddylist = saved_ann ∷ [];
  buddies_online = online_ann ∷ [];
  isidle = false;
  isaway = false;
  isinvisible = false;
  last_operation_time = 0;
  profile_str = none;
  away_msg = none;
  id = 1;
  parent = none;
  sn = none;
  pw = none;
  proxymode = Proxy.direct;
  proxyserver = none;
  proxyport = 0;
  oscarport = 5190;
  icon = [];
  last_keepalive_time = 0;
  trace = [];
}

abbrev pub buddy_ann : Buddy
buddy_ann = record {
  sn = ann;
  formatted = ann;
  idle = false;
  away = false;
  otr = Otr.plain;
  otr_context = none;
  idletime = 0;
}

abbrev pub client : Client
client = record {
  buddies = buddy_ann ∷ [];
  buddiesonline = 1;
  squelchconnect = false;
  squelchidle = false;
  squelchaway = false;
  shown = [];
}
