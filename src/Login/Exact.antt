-- ===== src/Login/Exact.antt =====
-- The packets of a login, and the address of the second phase.
use bsflite_otr.Base.{
  append_assoc, false, ℕ, ◌+◌, ◌%◌, ◌^◌, ◌<◌, ◌≡◌, refl, sym, ap, ◌∙◌, some, List, [], ◌∷◌, ◌++◌,
  All, length, drop, done, fault, ◌>>=◌, arith, length-append, ◌==◌, choose, read_mem,
  read_mem-middle, drop-append_more,
}
use bsflite_otr.Bytes.{two_to_16}
use bsflite_otr.Bytes.Big.{be16}
use bsflite_otr.Packet.{ok, size_mod, u32}
use bsflite_otr.Packet.Write.{wire_all}
use bsflite_otr.Session.{Text, Handle, Env}
use bsflite_otr.Flap.{flap_send, snac_send}
use bsflite_otr.Incoming.{byte_at}
use bsflite_otr.Incoming.Frames.{two_to_16-be16, byte_at-middle}
use bsflite_otr.Requests.{request}
use bsflite_otr.Requests.Exact.{build-exact, request-exact}
use bsflite_otr.Numerals.{decimal, atoi}
use bsflite_otr.Numerals.RoundTrip.{atoi-decimal}
use bsflite_otr.Dial.{after}
use bsflite_otr.Login.{
  host_of, name_fields, answer_fields, answer_size, cookie_fields, login_host, dial, signon_start,
  im_signon, send_cookie, signon_phase2, answer_challenge, challenge, md5snac, md5_string,
}

length-name : (sn : Text) → 12 + length sn ≡ length (wire_all (name_fields sn))
length-name sn = omega (arith, length-append sn (wire_all (drop 3 (name_fields sn))))

length-answer :
    (sn : Text) (hash : List ℕ)
    → length hash ≡ 16
    → answer_size sn ≡ length (wire_all (answer_fields sn hash))
length-answer sn hash e = omega (
  arith,
  length-append sn (wire_all (drop 3 (answer_fields sn hash))),
  length-append hash (wire_all (drop 6 (answer_fields sn hash))),
)

length-cookie : (cookie : List ℕ) → length cookie + 8 ≡ length (wire_all (cookie_fields cookie))
length-cookie cookie = omega (arith, length-append cookie [])

-- A name without a colon.
abbrev NoColon : Text → Type 0
NoColon s = All (λ (c : ℕ). (c == b':') ≡ false) s

host_of-colon : (host rest : Text) → NoColon host → host_of (host ++ (b':' ∷ rest)) ≡ host
unfolding host_of
host_of-colon [] rest v = refl
host_of-colon (c ∷ host) rest (v, vs) = rw (v, host_of-colon host rest vs)

after-colon : (host rest : Text) → NoColon host → after b':' (host ++ (b':' ∷ rest)) ≡ some rest
unfolding after
after-colon [] rest v = refl
after-colon (c ∷ host) rest (v, vs) = rw (v, after-colon host rest vs)

module _ (env : Env) where
  -- The first phase on a connection that is made: the version, and then the name, each in a packet
  -- that holds exactly its fields.
  pub im_signon_lem :
      (fuel : ℕ) (h h' : Handle) (sn pw : Text)
      → dial env fuel h login_host h.oscarport (b's' ∷ login_host) 443 ≡ done (ok, h')
      → 12 + length sn < size_mod
      → im_signon env fuel h sn pw ≡ (
          flap_send env (record h' { pw = some pw; sn = some sn }) 0x01 (0 ∷ 0 ∷ 0 ∷ 1 ∷ []) false
          >>= λ (status, g). snac_send env g 0x17 0x06 (wire_all (name_fields sn)) false)
  unfolding im_signon signon_start
  im_signon_lem fuel h h' sn pw dialled small =
      let after_dial = build-exact env 4 (u32 0x00000001 ∷ []) refl (omega arith) in
      let named = record h' { pw = some pw; sn = some sn } in
      ap (λ r. r >>= signon_start env sn pw) dialled
      ∙ ap
          (λ q. q >>= λ q. flap_send env named 0x01 q.bytes false >>= λ (status, g).
            request env g 0x17 0x06 (12 + length sn) (name_fields sn))
          after_dial
      ∙ (λ i. flap_send env named 0x01 (0 ∷ 0 ∷ 0 ∷ 1 ∷ []) false >>= λ (status, g).
          request-exact env g 0x17 0x06 (12 + length sn) (name_fields sn) (length-name sn) small i)

  -- The second phase: the server's address is split into the host and the number of the port, the
  -- connection is made to both, and the cookie follows in a packet that holds exactly its fields.
  pub signon_phase2_lem :
      (fuel : ℕ) (h h' : Handle) (host : Text) (port : ℕ) (cookie : List ℕ)
      → NoColon host
      → port < 2 ^ 16
      → dial env fuel h host port host port ≡ done (ok, h')
      → length cookie < 2 ^ 16
      → signon_phase2 env fuel h (some (host ++ (b':' ∷ decimal port))) cookie
        ≡ flap_send env h' 0x01 (wire_all (cookie_fields cookie)) false
  unfolding signon_phase2 send_cookie
  signon_phase2_lem fuel h h' host port cookie v small dialled short =
      let server = host ++ (b':' ∷ decimal port) in
      let number : atoi (decimal port) % 2 ^ 16 ≡ port =
        ap (λ n. n % 2 ^ 16) (atoi-decimal port (omega arith)) ∙ omega arith in
      let len = length-cookie cookie in
      ap
        (λ o.
          choose fault
            (λ (s : Text).
              dial env fuel h (host_of server) (atoi s % 2 ^ 16) (host_of server) (atoi s % 2 ^ 16)
              >>= send_cookie env cookie)
            o)
        (after-colon host (decimal port) v)
      ∙ (λ i.
          dial env fuel h (host_of-colon host (decimal port) v i) (number i)
            (host_of-colon host (decimal port) v i) (number i)
          >>= send_cookie env cookie)
      ∙ ap (λ r. r >>= send_cookie env cookie) dialled
      ∙ ap (λ q. q >>= λ p. flap_send env h' 0x01 p.bytes false)
          (build-exact env (length cookie + 8) (cookie_fields cookie) len (omega (arith, len)))

  -- A challenge that is well formed: the digest of the key, the password and the fixed string goes
  -- back with the name, in a packet that holds exactly its fields.
  pub md5snac_lem :
      (fuel : ℕ) (h : Handle) (a b c : ℕ) (flags : List ℕ) (sn pw : Text) (authkey rest : List ℕ)
      (len : ℕ)
      → h.sn ≡ some sn
      → h.pw ≡ some pw
      → length flags ≡ 6
      → length authkey < 2 ^ 16
      → answer_size sn < size_mod
      → md5snac env fuel h
          (a ∷ b ∷ c ∷ 7 ∷ (flags ++ (be16 (length authkey % 2 ^ 16) ++ (authkey ++ rest))))
          len
        ≡ (snac_send env h 0x17 0x02
              (wire_all (answer_fields sn (env.md5 (authkey ++ (pw ++ md5_string)))))
              false
            >>= λ (status, g). done g)
  unfolding md5snac challenge answer_challenge
  md5snac_lem fuel h a b c flags sn pw authkey rest len named secret six short small =
      let body = flags ++ (be16 (length authkey % 2 ^ 16) ++ (authkey ++ rest)) in
      let mem = a ∷ b ∷ c ∷ 7 ∷ body in
      let hash = env.md5 (authkey ++ (pw ++ md5_string)) in
      let head = a ∷ b ∷ c ∷ 7 ∷ flags in
      let kind : byte_at mem 3 ≡ done 7 = byte_at-middle (a ∷ b ∷ c ∷ []) body 3 7 refl in
      let size : two_to_16 env.machine (drop 10 mem) ≡ done (length authkey) =
        ap (two_to_16 env.machine) (
          drop-append_more head (be16 (length authkey % 2 ^ 16) ++ (authkey ++ rest)) 0 10
            (omega (arith, six)))
        ∙ two_to_16-be16 env.machine (length authkey) (authkey ++ rest) env.calibrated short in
      let key : read_mem mem 12 (length authkey) ≡ done authkey =
        ap (λ m. read_mem m 12 (length authkey))
          (sym (append_assoc head (be16 (length authkey % 2 ^ 16)) (authkey ++ rest)))
        ∙ read_mem-middle (head ++ be16 (length authkey % 2 ^ 16)) authkey rest 12 (length authkey)
            (omega (arith, six, length-append head (be16 (length authkey % 2 ^ 16)))) refl in
      let answered =
        request-exact env h 0x17 0x02 (answer_size sn) (answer_fields sn hash)
          (length-answer sn hash (env.length-md5 (authkey ++ (pw ++ md5_string)))) small in
      let read : md5snac env fuel h mem len
          ≡ choose fault
              (λ (pw : Text).
                choose fault (λ (sn : Text). answer_challenge env h sn pw authkey) h.sn)
              h.pw =
        rw (kind, size, key) refl in
      read
      ∙ ap
          (λ o.
            choose fault
              (λ (pw : Text).
                choose fault (λ (sn : Text). answer_challenge env h sn pw authkey) h.sn)
              o)
          secret
      ∙ ap (λ o. choose fault (λ (sn : Text). answer_challenge env h sn pw authkey) o) named
      ∙ ap (λ r. r >>= λ (status, g). done g) answered
