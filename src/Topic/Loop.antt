-- ===== src/Topic/Loop.antt =====
-- The matching loop of mqttclient/RyanMqttUtileMsg.c, lines 18 to 166, and topic filters as MQTT
-- defines them.
use ryan_mqtt.Prelude.{
  List, [], arith, drop, false, if◌then◌else◌, length, ltb, refl, suc, true, zero, ℕ, ◌&&◌, ◌+◌,
  ◌<◌, ◌==◌, ◌||◌, ◌≡◌, ◌≤◌, ◌∙◌, ◌∷◌,
}
use ryan_mqtt.Topic.{char_at, is_wildcard, match_loop, match_round, match_topic}
use ryan_mqtt.Topic.Levels.{
  LevelsMatch, NoSlash, after_level-NoSlash, any, below, levels, levels-NoSlash, matches,
  matches-Sound,
}
use ryan_mqtt.Topic.Rest.{
  At-drop, at_start, drop-nil, matches-nil, matches-no_filter, matches-plus, moved, result, start,
}
use ryan_mqtt.Topic.Round.{goes_on, match_round-Rounds, rest_matches, stops}

module _ (topic filter : List ℕ) where
  match_loop-ended :
      (rounds i j : ℕ)
      → (ltb i (length topic) && ltb j (length filter)) ≡ false
      → match_loop topic filter rounds (start i j) ≡ start i j
  unfolding match_loop
  match_loop-ended zero i j e = refl
  match_loop-ended (suc rounds) i j e = rw e

  match_loop-round :
      (rounds i j : ℕ)
      → i < length topic
      → j < length filter
      → let n = match_round topic filter (start i j) in
        match_loop topic filter (suc rounds) (start i j)
        ≡ (if n.match_found || n.should_stop then n else match_loop topic filter rounds (moved n))
  unfolding match_loop
  match_loop-round rounds i j lt lf = ground arith

  -- The loop, with a round for each character that is left of the filter.
  match_loop_lem :
      (rounds i j : ℕ) (t f : List ℕ)
      → drop i topic ≡ t
      → drop j filter ≡ f
      → i ≤ length topic
      → j ≤ length filter
      → length filter ≤ j + rounds
      → result topic filter (match_loop topic filter rounds (start i j))
        ≡ rest_matches topic filter i j
  match_loop_lem rounds i j [] [] et ef lt lf enough =
      rw
        (
          match_loop-ended rounds i j (ground (arith, drop-nil filter j ef)),
          et,
          ef,
          matches-nil (at_start filter j) [],
        )
        (ground (arith, drop-nil filter j ef, drop-nil topic i et))
  match_loop_lem rounds i j (c ∷ t) [] et ef lt lf enough =
      rw
        (
          match_loop-ended rounds i j (ground (arith, drop-nil filter j ef)),
          et,
          ef,
          matches-no_filter (at_start filter j) (c ∷ t),
        )
        (ground (arith, At-drop topic i c t et))
  match_loop_lem rounds i j [] (d ∷ f) et ef lt lf enough =
      rw
        (
          match_loop-ended rounds i j (ground (arith, drop-nil topic i et)),
          et,
          ef,
          matches-nil (at_start filter j) (d ∷ f),
        )
        (ground (arith, At-drop filter j d f ef))
  match_loop_lem zero i j (c ∷ t) (d ∷ f) et ef lt lf enough =
      absurd (omega (arith, (At-drop filter j d f ef).size))
  match_loop_lem (suc rounds) i j (c ∷ t) (d ∷ f) et ef lt lf enough =
      let a = At-drop topic i c t et in
      let b = At-drop filter j d f ef in
      rw (match_loop-round rounds i j (omega (arith, a.size)) (omega (arith, b.size)))
        (elim (match_round-Rounds topic filter i j c d t f et ef) [
          | stops s r ↦ rw s r
          | goes_on i' j' n li lj le r ↦
              let p : i' + 1 ≡ suc i' = omega arith in
              let q : j' + 1 ≡ suc j' = omega arith in
              rw (n, p, q)
                (match_loop_lem rounds (suc i') (suc j') (drop (suc i') topic)
                    (drop (suc j') filter) refl refl li lj (omega arith)
                  ∙ r)
        ])

  -- The code, as the matcher on lists.
  pub match_topic_lem : match_topic topic filter ≡ (
      if char_at topic 0 == b'$' && is_wildcard (char_at filter 0)
      then false
      else matches true filter topic)
  unfolding match_topic
  match_topic_lem =
      rw
        (match_loop_lem (length filter) 0 0 topic filter refl refl (omega arith) (omega arith)
          (omega arith))
        refl

-- A topic that `RyanMqttMatchTopic` matches with a filter also matches it as MQTT 3.1.1, 4.7, says
-- level by level (`+` for any one level, `#` for the parent and all below), and is no `$` topic
-- under a filter that begins with a wildcard.
pub match_topic-LevelsMatch :
    (topic filter : List ℕ)
    → match_topic topic filter ≡ true
    → LevelsMatch (levels topic) (levels filter)
      × ((char_at topic 0 == b'$' && is_wildcard (char_at filter 0)) ≡ false)
match_topic-LevelsMatch topic filter h =
    let e = match_topic_lem topic filter in
    (matches-Sound true filter topic [] tt (λ _. refl) (ground (arith, e)), ground (arith, e))

-- A topic of one level that begins neither with a plus sign nor with `$` stands under the filter
-- `+/#`, since `#` stands for the parent level too, but `RyanMqttMatchTopic` does not match the two.
pub match_topic-plus_hash :
    (c : ℕ) (t : List ℕ)
    → NoSlash (c ∷ t)
    → (c == b'+') ≡ false
    → (c == b'$') ≡ false
    → (match_topic (c ∷ t) (b'+' ∷ b'/' ∷ b'#' ∷ []) ≡ false)
      × LevelsMatch (levels (c ∷ t)) (levels (b'+' ∷ b'/' ∷ b'#' ∷ []))
match_topic-plus_hash c t clean ne ordinary = (
  rw
      (
        match_topic_lem (c ∷ t) (b'+' ∷ b'/' ∷ b'#' ∷ []),
        matches-plus c t (b'/' ∷ b'#' ∷ []) ne,
        after_level-NoSlash (c ∷ t) clean,
      )
      (ground arith),
  rw (levels-NoSlash (c ∷ t) clean) (any (c ∷ t) (below [])),
)
