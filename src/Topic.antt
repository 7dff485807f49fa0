-- ===== src/Topic.antt =====
-- mqttclient/RyanMqttUtileMsg.c, lines 8 to 166: does a topic name match a topic filter?
-- The index tests are written without the subtraction: `i == len - k` on C's unsigned numbers is
-- `i + k == len`.
pub mod Levels
pub mod Rest
pub mod Round
pub mod Loop
use ryan_mqtt.Prelude.{
  ℕ, zero, suc, ◌+◌, ◌-◌, Bool, true, false, not, ◌&&◌, ◌||◌, List, ltb, leb, ◌==◌, if◌then◌else◌,
  length, get_or,
}

abbrev pub char_at : List ℕ → ℕ → ℕ
char_at xs i = get_or xs i 0

abbrev pub is_wildcard : ℕ → Bool
is_wildcard c = c == b'+' || c == b'#'

-- The variables of the loop.
pub record Matching : Type 0 where
  pub topic_index : ℕ
  pub filter_index : ℕ
  pub match_found : Bool
  pub should_stop : Bool

-- The inner loop: to the next level separator, if there is one.
unfoldable pub skip_level : List ℕ → ℕ → ℕ → ℕ × Bool
skip_level topic zero i = (i, false)
skip_level topic (suc rounds) i =
    let rest = skip_level topic rounds (i + 1) in
    if ltb i (length topic)
    then (if char_at topic i == b'/' then (i, true) else rest)
    else (i, false)

-- The two characters are equal: the ends `/#` and `/+` of a filter, behind the topic's last character.
unfoldable pub on_equal : List ℕ → List ℕ → Matching → Matching
on_equal topic filter m =
    let f = m.filter_index in
    let parent =
      if leb 3 (length filter)
        && f + 3 == length filter
        && char_at filter (f + 1) == b'/'
        && char_at filter (f + 2) == b'#'
      then true
      else m.match_found in
    let last =
      if f + 2 == length filter && char_at filter f == b'/'
      then is_wildcard (char_at filter (f + 1))
      else parent in
    if m.topic_index + 1 == length topic then record m { match_found = last } else m

-- The filter has a `+` in a legal place.
unfoldable pub on_plus : List ℕ → List ℕ → Matching → Matching
unfolding skip_level
on_plus topic filter m =
    let (i, in_topic) = skip_level topic (length topic - m.topic_index) m.topic_index in
    let in_filter =
      ltb (m.filter_index + 1) (length filter) && char_at filter (m.filter_index + 1) == b'/' in
    if in_topic && not in_filter
    then record m { topic_index = i; match_found = false; should_stop = true }
    else if in_topic
    then record m { topic_index = i; filter_index = m.filter_index + 1 }
    else record m { topic_index = i - 1 }

-- The two characters differ.
unfoldable pub on_different : List ℕ → List ℕ → Matching → Matching
unfolding on_plus
on_different topic filter m =
    let f = m.filter_index in
    let valid = f == 0 || char_at filter (f - 1) == b'/' in
    if char_at filter f == b'+' && valid
    then on_plus topic filter m
    else if char_at filter f == b'#' && f + 1 == length filter && valid
    then record m { match_found = true; should_stop = true }
    else record m { match_found = false; should_stop = true }

unfoldable pub match_round : List ℕ → List ℕ → Matching → Matching
unfolding on_equal on_different
match_round topic filter m =
    if char_at topic m.topic_index == char_at filter m.filter_index
    then on_equal topic filter m
    else on_different topic filter m

-- The outer loop. A round that goes on moves the filter's index, so there are at most as many
-- rounds as the filter has characters.
unfoldable pub match_loop : List ℕ → List ℕ → ℕ → Matching → Matching
unfolding match_round
match_loop topic filter zero m = m
match_loop topic filter (suc rounds) m =
    let n = match_round topic filter m in
    let rest =
      match_loop topic filter rounds
        (record n { topic_index = n.topic_index + 1; filter_index = n.filter_index + 1 }) in
    if ltb m.topic_index (length topic) && ltb m.filter_index (length filter)
    then (if n.match_found || n.should_stop then n else rest)
    else m

-- `RyanMqttMatchTopic`
unfoldable pub match_topic : List ℕ → List ℕ → Bool
unfolding match_loop
match_topic topic filter =
    if char_at topic 0 == b'$' && is_wildcard (char_at filter 0)
    then false
    else let m =
        match_loop topic filter (length filter) (record {
          topic_index = 0;
          filter_index = 0;
          match_found = false;
          should_stop = false;
        }) in
      m.match_found || (m.topic_index == length topic && m.filter_index == length filter)
