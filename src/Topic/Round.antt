-- ===== src/Topic/Round.antt =====
-- A round of the matching loop of mqttclient/RyanMqttUtileMsg.c, lines 39 to 155.
use ryan_mqtt.Prelude.{
  Bool, Bool-cases, List, Option-cases, [], ap, arith, drop, false, inl, inr, length, ltb, none,
  refl, some, suc, true, ℕ, ◌&&◌, ◌+◌, ◌-◌, ◌<◌, ◌==◌, ◌||◌, ◌≡◌, ◌≤◌, ◌∙◌, ◌∷◌,
}
use ryan_mqtt.Topic.{Matching, char_at, match_round, on_different, on_equal, on_plus}
use ryan_mqtt.Topic.Levels.{after_level, is_empty, matches}
use ryan_mqtt.Topic.Rest.{
  At-drop, at_end_lem, at_start, at_start-suc, drop-all, in_filter_lem, matches-equal, matches-nil,
  matches-plus, on_equal_lem, plus_rest, result, skip_level-none, skip_level-some, start, tail_ends,
}

module _ (topic filter : List ℕ) where
  -- The rest of the topic and of the filter is matched as the matcher on lists says.
  abbrev pub rest_matches : ℕ → ℕ → Bool
  rest_matches i j = matches (at_start filter j) (drop j filter) (drop i topic)

  -- A round ends the loop with that result, or leaves it as it is.
  pub data Rounds (i j : ℕ) (n : Matching) : Type 0 where
    stops :
        n.match_found || n.should_stop ≡ true
        → result topic filter n ≡ rest_matches i j
        → Rounds i j n
    goes_on :
        (i' j' : ℕ)
        → n ≡ start i' j'
        → i' < length topic
        → j' < length filter
        → j ≤ j'
        → rest_matches (suc i') (suc j') ≡ rest_matches i j
        → Rounds i j n

  module _ (i j c d : ℕ) (t f : List ℕ) (et : drop i topic ≡ c ∷ t)
      (ef : drop j filter ≡ d ∷ f) where
    pub on_equal-Rounds : c ≡ d → Rounds i j (on_equal topic filter (start i j))
    on_equal-Rounds e =
        let a = At-drop topic i c t et in
        let b = At-drop filter j d f ef in
        let o = on_equal_lem topic filter i j c d t f a b in
        elim (Bool-cases (is_empty t && tail_ends d f)) [
          | inl last ↦ rw o (
              stops (ground arith)
                (rw (et, ef, e, matches-equal (at_start filter j) d f t, last) refl))
          | inr more ↦
              rw (o, more)
                (goes_on i j refl (omega (arith, a.size)) (omega (arith, b.size)) (omega arith) (
                  rw
                    (
                      et,
                      ef,
                      a.next,
                      b.next,
                      e,
                      matches-equal (at_start filter j) d f t,
                      more,
                      at_start-suc filter j b,
                    )
                    refl))
        ]

    module _ (plus : d ≡ b'+') (valid : at_start filter j ≡ true) (ne : (c == b'+') ≡ false) where
      pub plus-rest_matches : rest_matches i j ≡ plus_rest f (after_level (c ∷ t))
      plus-rest_matches = rw (et, ef, valid, plus) (matches-plus c t f ne)

      -- The topic ends with this level.
      pub on_plus-last : after_level (c ∷ t) ≡ none → Rounds i j (on_plus topic filter (start i j))
      unfolding on_plus
      on_plus-last e =
          let a = At-drop topic i c t et in
          let b = At-drop filter j d f ef in
          let s =
            skip_level-none topic (length topic - i) i (c ∷ t) et (omega (arith, a.size))
              (omega arith) e in
          rw s (
            goes_on (length topic - 1) j refl (omega (arith, a.size)) (omega (arith, b.size))
              (omega arith)
              (rw
                (
                  plus-rest_matches,
                  e,
                  drop-all topic (suc (length topic - 1)) (omega arith),
                  b.next,
                  matches-nil (at_start filter (suc j)) f,
                )
                refl))

      -- It has another one, and the filter too.
      pub on_plus-deeper :
          (e : ℕ) (f' t' : List ℕ)
          → f ≡ e ∷ f'
          → e ≡ b'/'
          → after_level (c ∷ t) ≡ some t'
          → Rounds i j (on_plus topic filter (start i j))
      unfolding on_plus
      on_plus-deeper e f' t' more slash h =
          let b = At-drop filter j d (e ∷ f') (ef ∙ ap (λ x. d ∷ x) more) in
          let n = At-drop filter (suc j) e f' b.next in
          let (i', s, next, lt) =
            skip_level-some topic (length topic - i) i (c ∷ t) t' et (omega arith) h in
          rw (s, in_filter_lem filter j d e f' b, slash)
            (goes_on i' (suc j) (ground arith) lt (omega (arith, n.size)) (omega arith) (
              rw (plus-rest_matches, more, h, next, n.next, at_start-suc filter (suc j) n, slash)
                refl))

      -- It has another one, and the filter does not.
      pub on_plus-short :
          (t' : List ℕ)
          → after_level (c ∷ t) ≡ some t'
          → plus_rest f (some t') ≡ false
          → (ltb (j + 1) (length filter) && char_at filter (j + 1) == b'/') ≡ false
          → Rounds i j (on_plus topic filter (start i j))
      unfolding on_plus
      on_plus-short t' h fails last =
          let (i', s, next, lt) =
            skip_level-some topic (length topic - i) i (c ∷ t) t' et (omega arith) h in
          rw (s, last) (stops refl (rw (plus-rest_matches, h, fails) (ground arith)))

  pub on_plus-Rounds :
      (i j c d : ℕ) (t f : List ℕ)
      → drop i topic ≡ c ∷ t
      → drop j filter ≡ d ∷ f
      → d ≡ b'+'
      → at_start filter j ≡ true
      → (c == b'+') ≡ false
      → Rounds i j (on_plus topic filter (start i j))
  on_plus-Rounds i j c d t [] et ef plus valid ne = elim (Option-cases (after_level (c ∷ t))) [
    | inl e ↦ on_plus-last i j c d t [] et ef plus valid ne e
    | inr (t', e) ↦
        on_plus-short i j c d t [] et ef plus valid ne t' e refl
          (ground (arith, At-drop filter j d [] ef))
  ]
  on_plus-Rounds i j c d t (e ∷ f) et ef plus valid ne = elim (Option-cases (after_level (c ∷ t))) [
    | inl none_left ↦ on_plus-last i j c d t (e ∷ f) et ef plus valid ne none_left
    | inr (t', deeper) ↦ elim (Bool-cases (e == b'/')) [
      | inl slash ↦
          on_plus-deeper i j c d t (e ∷ f) et ef plus valid ne e f t' refl (ground arith) deeper
      | inr other ↦
          on_plus-short i j c d t (e ∷ f) et ef plus valid ne t' deeper (ground arith)
            (in_filter_lem filter j d e f (At-drop filter j d (e ∷ f) ef) ∙ other)
    ]
  ]

  -- What the matcher does at two characters that differ, when there is no `+` for the topic's.
  pub matches-different :
      (first : Bool) (c d : ℕ) (t f : List ℕ)
      → (c == d) ≡ false
      → (d == b'+' && first) ≡ false
      → matches first (d ∷ f) (c ∷ t) ≡ (d == b'#' && is_empty f && first)
  unfolding matches
  matches-different first c d t [] ne np = ground arith
  matches-different first c d t (e ∷ f) ne np = ground arith

  pub stopped : (i j : ℕ) (found : Bool) → Matching
  stopped i j found = record (start i j) { match_found = found; should_stop = true }

  pub stopped-Rounds :
      (i j : ℕ) (found : Bool)
      → i < length topic
      → rest_matches i j ≡ found
      → Rounds i j (stopped i j found)
  unfolding stopped
  stopped-Rounds i j true lt e = stops refl (rw e)
  stopped-Rounds i j false lt e = stops refl (rw e (ground arith))

  pub on_different-Rounds :
      (i j c d : ℕ) (t f : List ℕ)
      → drop i topic ≡ c ∷ t
      → drop j filter ≡ d ∷ f
      → (c == d) ≡ false
      → Rounds i j (on_different topic filter (start i j))
  unfolding on_different stopped
  on_different-Rounds i j c d t f et ef ne =
      let a = At-drop topic i c t et in
      let b = At-drop filter j d f ef in
      elim (Bool-cases (d == b'+' && at_start filter j)) [
        | inl plus ↦
            let p : d ≡ b'+' = ground arith in
            let r = on_plus-Rounds i j c d t f et ef p (ground arith) (ground arith) in
            rw (b.here, plus) r
        | inr other ↦
            let hash : Bool = d == b'#' && is_empty f && at_start filter j in
            let m =
              stopped-Rounds i j hash (omega (arith, a.size))
                (rw (et, ef) (matches-different (at_start filter j) c d t f ne other)) in
            rw (b.here, other, at_end_lem filter j d f b)
              (elim (Bool-cases hash) [ inl h ↦ rw h (rw h at m) | inr h ↦ rw h (rw h at m) ])
      ]

  pub match_round-Rounds :
      (i j c d : ℕ) (t f : List ℕ)
      → drop i topic ≡ c ∷ t
      → drop j filter ≡ d ∷ f
      → Rounds i j (match_round topic filter (start i j))
  unfolding match_round
  match_round-Rounds i j c d t f et ef =
      let a = At-drop topic i c t et in
      let b = At-drop filter j d f ef in
      elim (Bool-cases (c == d)) [
        | inl e ↦
            let e' : (char_at topic i == char_at filter j) ≡ true = ground (arith, a, b) in
            rw e' (on_equal-Rounds i j c d t f et ef (ground arith))
        | inr ne ↦
            let e' : (char_at topic i == char_at filter j) ≡ false = ground (arith, a, b) in
            rw e' (on_different-Rounds i j c d t f et ef ne)
      ]
