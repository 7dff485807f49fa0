-- ===== src/Topic/Rest.antt =====
-- What is left of the topic and of the filter at an index, and what the matcher on lists and the
-- tests of mqttclient/RyanMqttUtileMsg.c, lines 39 to 155, say of it.
use ryan_mqtt.Prelude.{
  Bool, Bool-cases, List, Option, [], ap, arith, drop, false, if◌then◌else◌, inl, inr, length,
  length-drop, ltb, none, refl, some, suc, true, zero, ℕ, ◌&&◌, ◌+◌, ◌-◌, ◌<◌, ◌==◌, ◌||◌, ◌≡◌, ◌≤◌,
  ◌∷◌,
}
use ryan_mqtt.Topic.{Matching, char_at, on_equal, skip_level}
use ryan_mqtt.Topic.Levels.{after_level, ends, is_empty, matches}

-- What a non-empty rest says of the list and of the index.
pub record At (xs : List ℕ) (i c : ℕ) (t : List ℕ) : Type 0 where
  pub here : char_at xs i ≡ c
  pub next : drop (suc i) xs ≡ t
  pub size : length xs ≡ i + 1 + length t

pub At-drop : (xs : List ℕ) (i c : ℕ) (t : List ℕ) → drop i xs ≡ c ∷ t → At xs i c t
At-drop [] zero c t e = ground arith
At-drop [] (suc i) c t e = ground arith
At-drop (x ∷ xs) zero c t e = ground arith
At-drop (x ∷ xs) (suc i) c t e =
    let a = At-drop xs i c t e in
    record { here = a.here; next = a.next; size = omega (arith, a.size) }

pub drop-nil : (xs : List ℕ) (i : ℕ) → drop i xs ≡ [] → length xs ≤ i
drop-nil xs i e = omega (arith, length-drop i xs, ap length e)

pub drop-all : (xs : List ℕ) (i : ℕ) → length xs ≤ i → drop i xs ≡ []
drop-all [] zero h = refl
drop-all [] (suc i) h = refl
drop-all (x ∷ xs) zero h = absurd (omega arith)
drop-all (x ∷ xs) (suc i) h = drop-all xs i (omega arith)

-- The inner loop finds the separator, or the end of the topic.
pub skip_level-none :
    (xs : List ℕ) (rounds i : ℕ) (t : List ℕ)
    → drop i xs ≡ t
    → i ≤ length xs
    → length xs ≤ i + rounds
    → after_level t ≡ none
    → skip_level xs rounds i ≡ (length xs, false)
unfolding skip_level
skip_level-none xs zero i t e l h a = let p : i ≡ length xs = omega arith in rw p
skip_level-none xs (suc rounds) i [] e l h a = ground (arith, drop-nil xs i e)
skip_level-none xs (suc rounds) i (c ∷ t) e l h a =
    let at = At-drop xs i c t e in
    let n : i + 1 ≡ suc i = omega arith in
    ground (arith, at, n, skip_level-none xs rounds (suc i) t at.next)

pub skip_level-some :
    (xs : List ℕ) (rounds i : ℕ) (t t' : List ℕ)
    → drop i xs ≡ t
    → length xs ≤ i + rounds
    → after_level t ≡ some t'
    → (j : ℕ) × (skip_level xs rounds i ≡ (j, true)) × (drop (suc j) xs ≡ t') × (j < length xs)
unfolding skip_level
skip_level-some xs rounds i [] t' e h a = ground arith
skip_level-some xs zero i (c ∷ t) t' e h a = absurd (omega (arith, (At-drop xs i c t e).size))
skip_level-some xs (suc rounds) i (c ∷ t) t' e h a =
    let at = At-drop xs i c t e in
    let n : i + 1 ≡ suc i = omega arith in
    elim (Bool-cases (c == b'/')) [
      | inl slash ↦ (i, ground (arith, at), ground (arith, at), ground (arith, at))
      | inr other ↦
          let (j, p, q, r) =
            skip_level-some xs rounds (suc i) t t' at.next (omega arith) (ground arith) in
          (j, ground (arith, at, n), q, r)
    ]

-- Does a level of the filter begin at an index?
abbrev pub at_start : List ℕ → ℕ → Bool
at_start filter i = i == 0 || char_at filter (i - 1) == b'/'

-- The result, from the variables behind the loop.
abbrev pub result : List ℕ → List ℕ → Matching → Bool
result topic filter m =
    m.match_found || (m.topic_index == length topic && m.filter_index == length filter)

abbrev pub moved : Matching → Matching
moved m = record m { topic_index = m.topic_index + 1; filter_index = m.filter_index + 1 }

abbrev pub start : ℕ → ℕ → Matching
start i j = record { topic_index = i; filter_index = j; match_found = false; should_stop = false }

-- Do the last characters of the filter stand for nothing, as `/#` and `/+` do?
abbrev pub tail_ends : ℕ → List ℕ → Bool
tail_ends d [] = false
tail_ends d (e ∷ f) = ends d e f

pub matches-equal :
    (first : Bool) (d : ℕ) (f t : List ℕ)
    → matches first (d ∷ f) (d ∷ t)
      ≡ (if is_empty t && tail_ends d f then true else matches (d == b'/') f t)
unfolding matches
matches-equal first d [] t = ground arith
matches-equal first d (e ∷ f) t = ground arith

pub on_equal_lem :
    (topic filter : List ℕ) (i j c d : ℕ) (t f : List ℕ)
    → At topic i c t
    → At filter j d f
    → on_equal topic filter (start i j)
      ≡ record (start i j) { match_found = is_empty t && tail_ends d f }
unfolding on_equal
on_equal_lem topic filter i j c d t [] a b = ground (arith, a, b)
on_equal_lem topic filter i j c d [] (e ∷ []) a b =
    let x = At-drop filter (suc j) e [] b.next in
    let n : j + 1 ≡ suc j = omega arith in ground (arith, a, b, x, n)
on_equal_lem topic filter i j c d (c' ∷ t) (e ∷ []) a b = ground (arith, a)
on_equal_lem topic filter i j c d [] (e ∷ g ∷ []) a b =
    let x = At-drop filter (suc j) e (g ∷ []) b.next in
    let y = At-drop filter (suc (suc j)) g [] x.next in
    let n : j + 1 ≡ suc j = omega arith in
    let m : j + 2 ≡ suc (suc j) = omega arith in ground (arith, a, b, x, y, n, m)
on_equal_lem topic filter i j c d (c' ∷ t) (e ∷ g ∷ []) a b = ground (arith, a)
on_equal_lem topic filter i j c d t (e ∷ g ∷ h ∷ f) a b = ground (arith, a, b)

pub at_start-suc :
    (filter : List ℕ) (j : ℕ) {d : ℕ} {f : List ℕ}
    → At filter j d f
    → at_start filter (suc j) ≡ (d == b'/')
at_start-suc filter j b = let n : suc j - 1 ≡ j = omega arith in ground (arith, n, b)

-- What is left behind a `+`, by whether the topic has a further level.
abbrev pub plus_rest : List ℕ → Option (List ℕ) → Bool
plus_rest f none = is_empty f
plus_rest [] (some t') = false
plus_rest (e ∷ f) (some t') = if e == b'/' then matches true f t' else false

pub matches-nil : (first : Bool) (f : List ℕ) → matches first f [] ≡ is_empty f
unfolding matches
matches-nil first [] = refl
matches-nil first (d ∷ f) = refl

pub matches-no_filter : (first : Bool) (t : List ℕ) → matches first [] t ≡ is_empty t
unfolding matches
matches-no_filter first [] = refl
matches-no_filter first (c ∷ t) = refl

pub matches-plus :
    (c : ℕ) (t f : List ℕ)
    → (c == b'+') ≡ false
    → matches true (b'+' ∷ f) (c ∷ t) ≡ plus_rest f (after_level (c ∷ t))
unfolding matches
matches-plus c t [] ne = ground arith
matches-plus c t (e ∷ f) ne = ground arith

pub in_filter_lem :
    (filter : List ℕ) (j d e : ℕ) (f : List ℕ)
    → At filter j d (e ∷ f)
    → (ltb (j + 1) (length filter) && char_at filter (j + 1) == b'/') ≡ (e == b'/')
in_filter_lem filter j d e f b =
    let x = At-drop filter (suc j) e f b.next in
    let n : j + 1 ≡ suc j = omega arith in ground (arith, b, x, n)

pub at_end_lem :
    (filter : List ℕ) (j d : ℕ) (f : List ℕ)
    → At filter j d f
    → (j + 1 == length filter) ≡ is_empty f
at_end_lem filter j d [] b = ground (arith, b)
at_end_lem filter j d (e ∷ f) b = ground (arith, b)
