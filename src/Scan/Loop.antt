-- ===== src/Scan/Loop.antt =====
-- The whole scan: no block is lost, no unanswered publish is forgotten, and a freed node is met
-- exactly when a clean session was purged on the way.
use ryan_mqtt.Prelude.{
  Bool, Bool-cases, List, [], ap, append_assoc, arith, false, if◌then◌else◌, inl, inr, ltb, not,
  refl, sym, ℕ, ◌&&◌, ◌++◌, ◌==◌, ◌∙◌, ◌∷◌, ◌≡◌, ◌⊎◌, ◌+◌, ◌-◌,
}
use ryan_mqtt.Client.{AckHandler, MsgHandler, Timer}
use ryan_mqtt.Platform.{Env}
use ryan_mqtt.World.{World}
use ryan_mqtt.Timer.{remain_at, timer_cutdown, timer_remain}
use ryan_mqtt.Session.{get_client_state}
use ryan_mqtt.Keepalive.{is_connected}
use ryan_mqtt.Scan.{ack_list_scan, end_scan, handle_timeout, is_publish_type, scan_loop}
use ryan_mqtt.Scan.Steps.{Freed, Outcome, SameKey}
use ryan_mqtt.World.Steady.{Settled, Settled-trans}
use ryan_mqtt.Scan.Timeout.{Became, dropped, handle_timeout-Outcome, kept}

-- The publishes that wait for an answer: packet type, identifier and message handler.
abbrev pub unanswered : List AckHandler → List (ℕ × ℕ × MsgHandler)
unanswered [] = []
unanswered (h ∷ hs) =
    if is_publish_type h.packet_type
    then (h.packet_type, h.packet_id, h.msg_handler) ∷ unanswered hs
    else unanswered hs

unanswered-append :
    (xs ys : List AckHandler) → unanswered (xs ++ ys) ≡ unanswered xs ++ unanswered ys
unanswered-append [] ys = refl
unanswered-append (x ∷ xs) ys = ground (arith, unanswered-append xs ys)

unanswered-SameKey :
    (h h' : AckHandler) (rest : List AckHandler)
    → SameKey h h'
    → unanswered (h' ∷ rest) ≡ unanswered (h ∷ rest)
unanswered-SameKey h h' rest k = ground (arith, k)

unanswered-Became :
    (h : AckHandler) (before rest : List AckHandler) {before' : List AckHandler}
    → Became h before before'
    → unanswered (before' ++ rest) ≡ unanswered (before ++ h ∷ rest)
unanswered-Became h before rest (kept h' key e) =
    rw
      (
        e,
        append_assoc before (h' ∷ []) rest,
        unanswered-append before (h' ∷ rest),
        unanswered-append before (h ∷ rest),
        unanswered-SameKey h h' rest key,
      )
      refl
unanswered-Became h before rest (dropped other e) =
    rw (e, unanswered-append before rest, unanswered-append before (h ∷ rest)) (ground arith)

-- What a scan leaves behind.
pub record Retained (w v : World) : Type 0 where
  pub publishes : unanswered v.client.ack_handler_list ≡ unanswered w.client.ack_handler_list
  pub dangling : v.dangling ≡ false

abbrev pub Scanned : World → World → Type 0
Scanned w v = Settled w v × (Retained w v ⊎ Freed w v)

-- After a first part that left the node list alive.
Scanned-after :
    {u w v : World}
    → Settled u w
    → unanswered w.client.ack_handler_list ≡ unanswered u.client.ack_handler_list
    → Scanned w v
    → Scanned u v
Scanned-after a k (s, inl r) = (Settled-trans a s, inl (ground (arith, r)))
Scanned-after a k (s, inr f) = (Settled-trans a s, inr (ground (arith, f, a.config)))

ticked-Scanned : (w : World) (k : ℕ) {v : World} → Scanned (record w { tick = k }) v → Scanned w v
ticked-Scanned w k (s, r) = (ground (arith, s), ground (arith, r))

-- One node, and the rest of the loop if the node is alive.
node-Scanned :
    (h : AckHandler) (before before' rest : List AckHandler) (w v : World) (throttle : ℕ)
    (further : ℕ × World)
    → w.client.ack_handler_list ≡ before ++ h ∷ rest
    → w.dangling ≡ false
    → Became h before before'
    → Outcome (before' ++ rest) w v
    → (v.client.ack_handler_list ≡ before' ++ rest → v.dangling ≡ false → Scanned v further.1)
    → Scanned w (if v.dangling then (throttle, v) else further).1
node-Scanned h before before' rest w v throttle further place fine became (s, inl alive) go =
    let d : v.dangling ≡ false = alive.dangling ∙ fine in
    rw d (
      Scanned-after s
        (ap unanswered alive.acks
          ∙ unanswered-Became h before rest became
          ∙ sym (ap unanswered place))
        (go alive.acks d))
node-Scanned h before before' rest w v throttle further place fine became (s, inr freed) go =
    simp freed.dangling (s, inr freed)

module _ (env : Env) (wait : Bool) (window : Timer) where
  scan_loop-Scanned :
      (before rest : List AckHandler) (throttle : ℕ) (w : World)
      → w.client.ack_handler_list ≡ before ++ rest
      → w.dangling ≡ false
      → Scanned w (scan_loop env wait window before rest throttle w).1
  unfolding scan_loop timer_remain
  scan_loop-Scanned before [] throttle w place fine = (ground arith, inl (ground arith))
  scan_loop-Scanned before (h ∷ rest) throttle w place fine =
      let left = remain_at (env.uptime_ms w.tick) window in
      let ack_left = remain_at (env.uptime_ms (w.tick + 1)) h.timer in
      let throttle' = if not (ack_left == 0) && ltb ack_left throttle then ack_left else throttle in
      let w2 = record w { tick = w.tick + 1 + 1 } in
      let (before', w3) = handle_timeout env before h rest w2 in
      let moved : w.client.ack_handler_list ≡ (before ++ h ∷ []) ++ rest =
        place ∙ sym (append_assoc before (h ∷ []) rest) in
      elim (Bool-cases (not (is_connected (get_client_state w)))) [
        | inl off ↦ rw off (scan_loop-Scanned (before ++ h ∷ []) rest throttle w moved fine)
        | inr on ↦ elim (Bool-cases (left == 0)) [
          | inl over ↦ rw (on, over) (ground arith, inl (ground arith))
          | inr some_left ↦ elim (Bool-cases (not (ack_left == 0) && wait)) [
            | inl early ↦
                rw (on, some_left, early)
                  (ticked-Scanned w (w.tick + 1 + 1)
                    (scan_loop-Scanned (before ++ h ∷ []) rest throttle' w2 moved fine))
            | inr due ↦
                let (became, outcome) = handle_timeout-Outcome env before h rest w2 place in
                rw (on, some_left, due)
                  (ticked-Scanned w (w.tick + 1 + 1) (
                    node-Scanned h before before' rest w2 w3 throttle'
                      (scan_loop env wait window before' rest throttle' w3) place fine became
                      outcome (λ p d. scan_loop-Scanned before' rest throttle' w3 p d)))
          ]
        ]
      ]

end_scan-Scanned :
    (env : Env) (window : Timer) (throttle : ℕ) (w v : World)
    → Scanned w v
    → v.dangling ≡ false
    → Scanned w (end_scan env window throttle v)
unfolding end_scan timer_remain timer_cutdown
end_scan-Scanned env window throttle w v (s, inl r) fine =
    (ground (arith, s), inl (ground (arith, r)))
end_scan-Scanned env window throttle w v (s, inr f) fine = absurd (ground (arith, f))

-- A scan keeps the balance of heap blocks, the settings and the identifiers of all unanswered publishes in
-- order, and uses no freed block; or its session was a clean one, the connection was lost while a
-- publish was sent again, and the scan went on from a handler that was freed with the session.
-- This supposes that no freed block was used before, and a callback that makes no calls of the client:
-- one that discards a handler during the scan is not covered.
pub ack_list_scan-Scanned :
    (env : Env) (wait : Bool) (w : World)
    → w.dangling ≡ false
    → Scanned w (ack_list_scan env wait w)
unfolding ack_list_scan timer_remain timer_cutdown
ack_list_scan-Scanned env wait w fine =
    let (throttled, w1) = timer_remain env w.client.ack_scan_throttle_timer w in
    let recv_timeout = w1.client.config.recv_timeout in
    let (window, w2) =
      timer_cutdown env (if ltb 100 recv_timeout then recv_timeout - 100 else recv_timeout) w1 in
    let (throttle, w3) = scan_loop env wait window [] w2.client.ack_handler_list 1000 w2 in
    let loop =
      ticked-Scanned w w2.tick
        (scan_loop-Scanned env wait window [] w2.client.ack_handler_list 1000 w2 refl fine) in
    elim (Bool-cases (not (is_connected (get_client_state w)))) [
      | inl off ↦ rw off (ground arith, inl (ground arith))
      | inr on ↦ elim (Bool-cases (not (throttled == 0))) [
        | inl throttles ↦ rw (on, throttles) (ground arith, inl (ground arith))
        | inr due ↦ elim (Bool-cases w3.dangling) [
          | inl freed ↦ simp (on, due, freed) loop
          | inr alive ↦ simp (on, due, alive) (end_scan-Scanned env window throttle w w3 loop alive)
        ]
      ]
    ]
