-- ===== src/Receive/Stream.antt =====
-- Reading an object of known length from a connection that delivers a stream in pieces.
use bsflite_otr.Base.{
  ℕ, zero, suc, ◌+◌, ◌-◌, ◌≤◌, ◌<◌, ◌≡◌, refl, sym, ap, ◌∙◌, ◌⊎◌, inl, inr, false, Option, some,
  List, [], ◌∷◌, ◌++◌, length, take, drop, done, arith, ◌==◌, length-append, length-drop,
  length-take, append_assoc, append-nil, drop-add, drop_all, dec_lt, take_all, take-append-drop,
  drop-append_more, Run, if-holds, lt→ltb, ge→ltb,
}
use bsflite_otr.Session.{Handle, Env, Event, got, received, record_event}
use bsflite_otr.Dial.{recv}
use bsflite_otr.Receive.{store_at, plain_loop, ssl_loop, read_bytes}

-- How much has been read.
abbrev read_by : Event → ℕ
read_by (received bs) = length bs
read_by _ = 0

abbrev pub heard : List Event → ℕ
heard [] = 0
heard (e ∷ es) = read_by e + heard es

heard-append : (tr : List Event) (e : Event) → heard (tr ++ (e ∷ [])) ≡ heard tr + read_by e
heard-append [] e = omega arith
heard-append (d ∷ tr) e = omega (arith, heard-append tr e)

-- A blocking connection that carries a stream: a read of n bytes gives one at least, where there are
-- any, and it gives them in their order.
unfoldable pub Delivers : Env → List ℕ → Type 0
Delivers env stream =
    (tr : List Event) (n : ℕ)
    → 0 < n
    → 0 < length (drop (heard tr) stream)
    → (k : ℕ) × (0 < k)
      × (k ≤ n)
      × (k ≤ length (drop (heard tr) stream))
      × (env.receive tr n ≡ got (take k (drop (heard tr) stream)))

-- A handle that has only read.
abbrev pub reading : Handle → List Event → Handle
reading h tr = record h { trace = tr }

take-fits {ℓ} :
    {A : Type ℓ} (k : ℕ) (xs ys : List A) → k ≤ length xs → take k (xs ++ ys) ≡ take k xs
take-fits zero xs ys h = refl
take-fits (suc k) [] ys h = absurd (omega arith)
take-fits (suc k) (x ∷ xs) ys h = ap (λ l. x ∷ l) (take-fits k xs ys (omega arith))

drop-fits {ℓ} :
    {A : Type ℓ} (k : ℕ) (xs ys : List A) → k ≤ length xs → drop k (xs ++ ys) ≡ drop k xs ++ ys
drop-fits zero xs ys h = refl
drop-fits (suc k) [] ys h = absurd (omega arith)
drop-fits (suc k) (x ∷ xs) ys h = drop-fits k xs ys (omega arith)

pub ne_zero : (n : ℕ) → 0 < n → (n == 0) ≡ false
ne_zero n h = ground arith

lt-cases : (a b : ℕ) → (a < b) ⊎ (b ≤ a)
lt-cases a b = elim (dec_lt a b) [ yes l ↦ inl l | no g ↦ inr (omega arith) ]

-- Storing behind what is there.
store_at-middle :
    (pre junk bs : List ℕ)
    → store_at (pre ++ junk) (length pre) bs ≡ (pre ++ bs) ++ drop (length bs) junk
store_at-middle pre junk bs =
    let head : take (length pre) (pre ++ junk) ≡ pre =
      take-fits (length pre) pre junk (omega arith) ∙ whole pre in
    rw (head, drop-append_more pre junk (length bs) (length pre + length bs) refl)
      (sym (append_assoc pre bs (drop (length bs) junk)))
  where
    whole : (xs : List ℕ) → take (length xs) xs ≡ xs
    whole [] = refl
    whole (x ∷ xs) = ap (λ l. x ∷ l) (whole xs)

module _ (env : Env) (stream : List ℕ) (delivers : Delivers env stream) where
  -- One read in the middle of an object that is still to come.
  recv_piece :
      (h : Handle) (n : ℕ) (todo rest : List ℕ)
      → 0 < length todo
      → n ≡ length todo
      → drop (heard h.trace) stream ≡ todo ++ rest
      → (k : ℕ) × (0 < k)
        × (k ≤ length todo)
        × (env.receive h.trace n ≡ got (take k todo))
        × (drop (heard (h.trace ++ (received (take k todo) ∷ []))) stream ≡ drop k todo ++ rest)
  unfolding Delivers
  recv_piece h n todo rest some_left size at =
      let there : length (drop (heard h.trace) stream) ≡ length todo + length rest =
        ap length at ∙ length-append todo rest in
      let (k, pos, le, within, e) = delivers h.trace n (omega arith) (omega (arith, there)) in
      let fits : k ≤ length todo = omega arith in
      let piece : take k (drop (heard h.trace) stream) ≡ take k todo =
        ap (take k) at ∙ take-fits k todo rest fits in
      let count : heard (h.trace ++ (received (take k todo) ∷ [])) ≡ heard h.trace + k =
        omega (arith, heard-append h.trace (received (take k todo)), length-take k todo) in
      (
        k,
        pos,
        fits,
        e ∙ ap (λ (bs : List ℕ). got bs) piece,
        ap (λ j. drop j stream) count
            ∙ sym (drop-add (heard h.trace) k stream)
            ∙ ap (drop k) at
            ∙ drop-fits k todo rest fits,
      )

  -- What a loop that reads an object comes to.
  abbrev Filled : Handle → List ℕ → List ℕ → Run (Option (List ℕ) × Handle) → Type 0
  Filled h whole rest r =
      (tr : List Event) × (r ≡ done (some whole, reading h tr)) × (drop (heard tr) stream ≡ rest)

  recv_lem :
      (h : Handle) (n : ℕ) (bs : List ℕ)
      → env.receive h.trace n ≡ got bs
      → recv env h n ≡ (got bs, record_event h (received bs))
  unfolding recv
  recv_lem h n bs e = rw e refl

  -- One round of each loop, on a read of `bs`.
  plain_more :
      (fuel : ℕ) (h : Handle) (buf bs : List ℕ) (n pos : ℕ)
      → env.receive h.trace (n - pos) ≡ got bs
      → 0 < pos + length bs
      → pos + length bs < n
      → plain_loop env (suc fuel) h buf n pos
        ≡ plain_loop env fuel
            (record_event h (received bs))
            (store_at buf pos bs)
            n
            (pos + length bs)
  unfolding plain_loop
  plain_more fuel h buf bs n pos e some_read more =
      rw
        (
          plain_loop,
          ap (λ r. r.0) (recv_lem h (n - pos) bs e),
          ne_zero (pos + length bs) some_read,
          lt→ltb (pos + length bs) n more,
          ap (λ r. r.1) (recv_lem h (n - pos) bs e),
        )
        refl

  plain_last :
      (fuel : ℕ) (h : Handle) (buf bs : List ℕ) (n pos : ℕ)
      → env.receive h.trace (n - pos) ≡ got bs
      → 0 < pos + length bs
      → n ≤ pos + length bs
      → plain_loop env (suc fuel) h buf n pos
        ≡ done (some (store_at buf pos bs), record_event h (received bs))
  unfolding plain_loop
  plain_last fuel h buf bs n pos e some_read last =
      rw
        (
          plain_loop,
          ap (λ r. r.0) (recv_lem h (n - pos) bs e),
          ne_zero (pos + length bs) some_read,
          ge→ltb (pos + length bs) n last,
          ap (λ r. r.1) (recv_lem h (n - pos) bs e),
        )
        refl

  ssl_more :
      (fuel : ℕ) (h : Handle) (buf bs : List ℕ) (n pos : ℕ)
      → env.receive h.trace (n - pos) ≡ got bs
      → pos + length bs < n
      → ssl_loop env (suc fuel) h buf n pos
        ≡ ssl_loop env fuel (record_event h (received bs)) (store_at buf pos bs) n (pos + length bs)
  unfolding ssl_loop
  ssl_more fuel h buf bs n pos e more =
      rw
        (
          ssl_loop,
          ap (λ r. r.0) (recv_lem h (n - pos) bs e),
          lt→ltb (pos + length bs) n more,
          ap (λ r. r.1) (recv_lem h (n - pos) bs e),
        )
        refl

  ssl_last :
      (fuel : ℕ) (h : Handle) (buf bs : List ℕ) (n pos : ℕ)
      → env.receive h.trace (n - pos) ≡ got bs
      → n ≤ pos + length bs
      → ssl_loop env (suc fuel) h buf n pos
        ≡ done (some (store_at buf pos bs), record_event h (received bs))
  unfolding ssl_loop
  ssl_last fuel h buf bs n pos e last =
      rw
        (
          ssl_loop,
          ap (λ r. r.0) (recv_lem h (n - pos) bs e),
          ge→ltb (pos + length bs) n last,
          ap (λ r. r.1) (recv_lem h (n - pos) bs e),
        )
        refl

  -- A loop that goes through rounds like these fills its object.
  module _ (loop : ℕ → Handle → List ℕ → ℕ → ℕ → Run (Option (List ℕ) × Handle))
      (loop_more : (fuel : ℕ) (h : Handle) (buf bs : List ℕ) (n pos : ℕ)
        → env.receive h.trace (n - pos) ≡ got bs
        → 0 < pos + length bs
        → pos + length bs < n
        → loop (suc fuel) h buf n pos
          ≡ loop fuel (record_event h (received bs)) (store_at buf pos bs) n (pos + length bs))
      (loop_last : (fuel : ℕ) (h : Handle) (buf bs : List ℕ) (n pos : ℕ)
        → env.receive h.trace (n - pos) ≡ got bs
        → 0 < pos + length bs
        → n ≤ pos + length bs
        → loop (suc fuel) h buf n pos
          ≡ done (some (store_at buf pos bs), record_event h (received bs))) where
    loop-fills :
        (fuel : ℕ) (h : Handle) (pre junk todo rest : List ℕ) (n : ℕ)
        → length todo ≤ fuel
        → 0 < length todo
        → length junk ≡ length todo
        → n ≡ length pre + length todo
        → drop (heard h.trace) stream ≡ todo ++ rest
        → Filled h (pre ++ todo) rest (loop fuel h (pre ++ junk) n (length pre))
    loop-fills zero h pre junk todo rest n enough some_left room size at = absurd (omega arith)
    loop-fills (suc fuel) h pre junk todo rest n enough some_left room size at =
        let (k, pos, fits, e, at') =
          recv_piece h (n - length pre) todo rest some_left (omega arith) at in
        let bs = take k todo in
        let len : length bs ≡ k = omega (arith, length-take k todo) in
        let left = length-drop k todo in
        let step = store_at-middle pre junk bs in
        let same = length-append pre bs in
        elim (lt-cases k (length todo)) [
          | inl more ↦
              (let h' = record_event h (received bs) in
                let (tr, went, at'') =
                  loop-fills fuel h' (pre ++ bs) (drop (length bs) junk) (drop k todo) rest n
                    (omega (arith, left)) (omega (arith, left))
                    (omega (arith, left, length-drop (length bs) junk, len))
                    (omega (arith, left, same, len)) at' in
                (
                  tr,
                  loop_more fuel h (pre ++ junk) bs n (length pre) e (omega (arith, len))
                        (omega (arith, len))
                      ∙ (λ i. loop fuel h' (step i) n (sym same i))
                      ∙ went
                      ∙ ap (λ (l : List ℕ). done (some l, reading h tr))
                          (append_assoc pre bs (drop k todo)
                            ∙ ap (λ l. pre ++ l) (take-append-drop k todo)),
                  at'',
                ))
          | inr last ↦ (
            h.trace ++ (received bs ∷ []),
            loop_last fuel h (pre ++ junk) bs n (length pre) e (omega (arith, len))
                  (omega (arith, len))
                ∙ ap (λ (l : List ℕ). done (some l, record_event h (received bs)))
                    (step
                      ∙ ap (λ l. (pre ++ bs) ++ l) (drop_all (length bs) junk (omega (arith, len)))
                      ∙ append-nil (pre ++ bs)
                      ∙ ap (λ l. pre ++ l) (take_all k todo last)),
            at' ∙ ap (λ l. l ++ rest) (drop_all k todo last),
          )
        ]

  -- An object of a length that is not zero is read whole, with and without SSL.
  pub read_bytes_whole :
      (fuel : ℕ) (h : Handle) (todo rest : List ℕ)
      → length todo ≤ fuel
      → 0 < length todo
      → drop (heard h.trace) stream ≡ todo ++ rest
      → Filled h todo rest (read_bytes env fuel h (length todo))
  unfolding read_bytes
  read_bytes_whole fuel h todo rest enough some_left at =
      let junk = env.fresh (length todo) in
      if-holds (Filled h todo rest) h.use_ssl _ _
        (loop-fills (ssl_loop env) (λ f g b c n p e z m. ssl_more f g b c n p e m)
          (λ f g b c n p e z m. ssl_last f g b c n p e m) fuel h [] junk todo rest (length todo)
          enough some_left (env.length-fresh (length todo)) (omega arith) at)
        (loop-fills (plain_loop env) plain_more plain_last fuel h [] junk todo rest (length todo)
          enough some_left (env.length-fresh (length todo)) (omega arith) at)
