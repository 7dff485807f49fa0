-- ===== src/Topic/Levels.antt =====
-- Topic filters as MQTT 3.1.1 defines them, level by level, and a matcher on characters that keeps
-- to it.
use ryan_mqtt.Prelude.{
  Option-cases, All, Bool, Bool-cases, List, Option, [], arith, false, if◌then◌else◌, inl, inr,
  none, refl, some, true, ℕ, ◌&&◌, ◌++◌, ◌==◌, ◌∷◌, ◌≡◌, sym, append_assoc,
}
use ryan_mqtt.Topic.{is_wildcard}

-- The levels of a topic: the parts between the separators.
abbrev pub onto_first : ℕ → List (List ℕ) → List (List ℕ)
onto_first c [] = (c ∷ []) ∷ []
onto_first c (l ∷ ls) = (c ∷ l) ∷ ls

abbrev pub levels : List ℕ → List (List ℕ)
levels [] = [] ∷ []
levels (c ∷ cs) = if c == b'/' then [] ∷ levels cs else onto_first c (levels cs)

-- The levels of a topic match those of a filter: `+` stands for any one level, `#` for the parent
-- and all that is below it.
pub data LevelsMatch : List (List ℕ) → List (List ℕ) → Type 0 where
  at_end : LevelsMatch [] []
  below : (ts : List (List ℕ)) → LevelsMatch ts ((b'#' ∷ []) ∷ [])
  any :
      (t : List ℕ) {ts fs : List (List ℕ)}
      → LevelsMatch ts fs
      → LevelsMatch (t ∷ ts) ((b'+' ∷ []) ∷ fs)
  same : (t : List ℕ) {ts fs : List (List ℕ)} → LevelsMatch ts fs → LevelsMatch (t ∷ ts) (t ∷ fs)

abbrev pub is_empty : List ℕ → Bool
is_empty [] = true
is_empty (c ∷ cs) = false

-- What is behind the next separator.
abbrev pub after_level : List ℕ → Option (List ℕ)
after_level [] = none
after_level (c ∷ cs) = if c == b'/' then some cs else after_level cs

-- A filter's last characters, at and behind one that is equal to the topic's last one.
abbrev pub ends : ℕ → ℕ → List ℕ → Bool
ends d e [] = d == b'/' && is_wildcard e
ends d e (g ∷ []) = e == b'/' && g == b'#'
ends d e (g ∷ h ∷ f) = false

-- The matcher; `first` says that a level of the filter begins.
unfoldable pub matches : Bool → (filter topic : List ℕ) → Bool
matches first [] topic = is_empty topic
matches first (d ∷ f) [] = false
matches first (d ∷ []) (c ∷ t) =
    if c == d
    then is_empty t
    else if d == b'+' && first
    then elim (after_level (c ∷ t)) [ none ↦ true | some t' ↦ false ]
    else d == b'#' && first
matches first (d ∷ e ∷ f) (c ∷ t) =
    let rest = matches (d == b'/') (e ∷ f) t in
    let deeper : Bool = elim (after_level (c ∷ t)) [ none ↦ false | some t' ↦ matches true f t' ] in
    if c == d
    then (if is_empty t && ends d e f then true else rest)
    else if d == b'+' && first
    then (if e == b'/' then deeper else false)
    else false

abbrev pub NoSlash : List ℕ → Type 0
NoSlash u = All (λ c. (c == b'/') ≡ false) u

pub levels-NoSlash : (u : List ℕ) → NoSlash u → levels u ≡ u ∷ []
levels-NoSlash [] h = refl
levels-NoSlash (c ∷ u) h = ground (arith, h, levels-NoSlash u h.1)

levels-append : (u xs : List ℕ) → NoSlash u → levels (u ++ b'/' ∷ xs) ≡ u ∷ levels xs
levels-append [] xs h = refl
levels-append (c ∷ u) xs h = ground (arith, h, levels-append u xs h.1)

NoSlash-snoc : (u : List ℕ) (c : ℕ) → NoSlash u → (c == b'/') ≡ false → NoSlash (u ++ c ∷ [])
NoSlash-snoc [] c h e = (e, tt)
NoSlash-snoc (x ∷ u) c h e = (h.0, NoSlash-snoc u c h.1 e)

pub after_level-none : (t : List ℕ) → after_level t ≡ none → levels t ≡ t ∷ []
after_level-none [] e = refl
after_level-none (c ∷ t) e = ground (arith, after_level-none t)

pub after_level-NoSlash : (t : List ℕ) → NoSlash t → after_level t ≡ none
after_level-NoSlash [] h = refl
after_level-NoSlash (c ∷ t) h = ground (arith, h, after_level-NoSlash t h.1)

after_level-some :
    (t : List ℕ) {t' : List ℕ} → after_level t ≡ some t' → (l : List ℕ) × (levels t ≡ l ∷ levels t')
after_level-some [] e = ground arith
after_level-some (c ∷ t) {t'} e = elim (Bool-cases (c == b'/')) [
  | inl slash ↦ ([], ground arith)
  | inr other ↦ let (l, e') = after_level-some t {t' = t'} (ground arith) in (c ∷ l, ground arith)
]

module _ (u : List ℕ) (clean : NoSlash u) where
  abbrev Sound : (filter topic : List ℕ) → Type 0
  Sound filter topic = LevelsMatch (levels (u ++ topic)) (levels (u ++ filter))

  -- Both go on behind a separator.
  same_level : (f t : List ℕ) → LevelsMatch (levels t) (levels f) → Sound (b'/' ∷ f) (b'/' ∷ t)
  same_level f t m = rw (levels-append u t clean, levels-append u f clean) (same u m)

  -- The topic's last character.
  ends-Sound : (c e : ℕ) (f : List ℕ) → ends c e f ≡ true → Sound (c ∷ e ∷ f) (c ∷ [])
  ends-Sound c e [] h = elim (Bool-cases (e == b'+')) [
    | inl plus ↦
        let p : c ≡ b'/' = ground arith in
        let q : e ≡ b'+' = ground arith in rw (p, q) (same_level (b'+' ∷ []) [] (any [] at_end))
    | inr other ↦
        let p : c ≡ b'/' = ground arith in
        let q : e ≡ b'#' = ground arith in rw (p, q) (same_level (b'#' ∷ []) [] (below ([] ∷ [])))
  ]
  ends-Sound c e (g ∷ []) h =
      let q : e ≡ b'/' = ground arith in
      let r : g ≡ b'#' = ground arith in
      elim (Bool-cases (c == b'/')) [
        | inl slash ↦
            let p : c ≡ b'/' = ground arith in
            rw (p, q, r) (same_level (b'/' ∷ b'#' ∷ []) [] (same [] (below [])))
        | inr other ↦
            let v = NoSlash-snoc u c clean other in
            rw
              (
                q,
                r,
                sym (append_assoc u (c ∷ []) (b'/' ∷ b'#' ∷ [])),
                levels-append (u ++ c ∷ []) (b'#' ∷ []) v,
                levels-NoSlash (u ++ c ∷ []) v,
              )
              (same (u ++ c ∷ []) (below []))
      ]
  ends-Sound c e (g ∷ h' ∷ f) h = ground arith

LevelsMatch-refl : (ls : List (List ℕ)) → LevelsMatch ls ls
LevelsMatch-refl [] = at_end
LevelsMatch-refl (l ∷ ls) = same l (LevelsMatch-refl ls)

-- One character further in the same level.
Sound-snoc :
    (u : List ℕ) (clean : NoSlash u) (c : ℕ) (f t : List ℕ) (other : (c == b'/') ≡ false)
    → Sound (u ++ c ∷ []) (NoSlash-snoc u c clean other) f t
    → Sound u clean (c ∷ f) (c ∷ t)
Sound-snoc u clean c f t other s = rw (← append_assoc u (c ∷ []) f, ← append_assoc u (c ∷ []) t) s

-- The last character of a filter.
last-Sound :
    (first : Bool) (d c : ℕ) (t u : List ℕ) (clean : NoSlash u)
    → (first ≡ true → u ≡ [])
    → matches first (d ∷ []) (c ∷ t) ≡ true
    → Sound u clean (d ∷ []) (c ∷ t)
unfolding matches
last-Sound first d c t u clean s h = elim (Bool-cases (c == d)) [
  | inl e ↦
      let p : c ≡ d = ground arith in
      let q : t ≡ [] = ground arith in rw (p, q) (LevelsMatch-refl (levels (u ++ d ∷ [])))
  | inr ne ↦
      let p : u ≡ [] = s (ground arith) in
      elim (Bool-cases (d == b'+')) [
        | inl plus ↦
            let q : d ≡ b'+' = ground arith in
            rw (p, q, after_level-none (c ∷ t) (ground arith)) (any (c ∷ t) at_end)
        | inr other ↦ let q : d ≡ b'#' = ground arith in rw (p, q) (below (levels (c ∷ t)))
      ]
]

-- What the matcher accepts, the levels allow: in the middle of a level, behind the characters `u`
-- that the topic and the filter share.
pub matches-Sound :
    (first : Bool) (filter topic u : List ℕ) (clean : NoSlash u)
    → (first ≡ true → u ≡ [])
    → matches first filter topic ≡ true
    → Sound u clean filter topic
unfolding matches
matches-Sound first [] [] u clean s h = LevelsMatch-refl (levels (u ++ []))
matches-Sound first [] (c ∷ t) u clean s h = ground arith
matches-Sound first (d ∷ f) [] u clean s h = ground arith
matches-Sound first (d ∷ []) (c ∷ t) u clean s h = last-Sound first d c t u clean s h
matches-Sound first (d ∷ e ∷ f) (c ∷ t) u clean s h = elim (Bool-cases (c == d)) [
  | inl same_char ↦
      let p : c ≡ d = ground arith in
      elim (Bool-cases (is_empty t && ends d e f)) [
        | inl last ↦
            let q : t ≡ [] = ground arith in rw (p, q) (ends-Sound u clean d e f (ground arith))
        | inr more ↦ elim (Bool-cases (d == b'/')) [
          | inl slash ↦
              let q : d ≡ b'/' = ground arith in
              rw (p, q)
                (same_level u clean (e ∷ f) t
                  (matches-Sound true (e ∷ f) t [] tt (λ _. refl) (ground arith)))
          | inr other ↦ rw p (
              Sound-snoc u clean d (e ∷ f) t other (
                matches-Sound false (e ∷ f) t (u ++ d ∷ []) (NoSlash-snoc u d clean other) (λ x. cc)
                  (ground arith)))
        ]
      ]
  | inr ne ↦ elim (Option-cases (after_level (c ∷ t))) [
    | inl n ↦ absurd (ground arith)
    | inr (t', e') ↦
        let (l, split) = after_level-some (c ∷ t) {t' = t'} e' in
        let p : u ≡ [] = s (ground arith) in
        let q : d ≡ b'+' = ground arith in
        let r : e ≡ b'/' = ground arith in
        rw (p, q, r, split) (any l (matches-Sound true f t' [] tt (λ _. refl) (ground arith)))
  ]
]
