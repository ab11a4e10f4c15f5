-- ===== src/Router/Streams/Matching.antt =====
-- What a subject pattern matches, and where the default streams take the system's event families.
use baran_os.Base.{
  ℕ, ◌≡◌, ◌≢◌, ◌↔◌, ◌⊎◌, inl, inr, refl, sym, ap, subst, ◌∙◌, List, [], ◌∷◌, ◌++◌, GoString, codes,
  some, true, ◌&&◌, str_eq, str_eq_sound, eq_iff, has_prefix, has_prefix_iff, split, trim_suffix,
  arith, Bool-cases, ==_iff,
}
use baran_os.Router.Streams.{
  default_stream_registry, match_tokens, ends_in_rest, match_subject, stream_for_event_type,
}

-- token by token, a star for any one token
abbrev pub TokensMatch : List GoString → List GoString → Type 0
TokensMatch [] [] = Unit
TokensMatch [] (s ∷ ss) = ⊥
TokensMatch (p ∷ ps) [] = ⊥
TokensMatch (p ∷ ps) (s ∷ ss) = ((p ≡ codes "*") ⊎ (p ≡ s)) × TokensMatch ps ss

tokens_sound : (ps ss : List GoString) → match_tokens ps ss ≡ true → TokensMatch ps ss
unfolding match_tokens
tokens_sound [] [] h = tt
tokens_sound [] (s ∷ ss) h = absurd (ground (arith, h))
tokens_sound (p ∷ ps) [] h = absurd (ground (arith, h))
tokens_sound (p ∷ ps) (s ∷ ss) h = (
  elim (Bool-cases (str_eq p (codes "*"))) [
    | inl star ↦ inl (str_eq_sound p (codes "*") star)
    | inr other ↦ inr (str_eq_sound p s (ground (arith, h, other)))
  ],
  tokens_sound ps ss (ground (arith, h)),
)

tokens_complete : (ps ss : List GoString) → TokensMatch ps ss → match_tokens ps ss ≡ true
unfolding match_tokens
tokens_complete [] [] h = refl
tokens_complete [] (s ∷ ss) h = absurd h
tokens_complete (p ∷ ps) [] h = absurd h
tokens_complete (p ∷ ps) (s ∷ ss) (inl star, h) =
    ground (arith, (eq_iff p (codes "*")).1 star, tokens_complete ps ss h)
tokens_complete (p ∷ ps) (s ∷ ss) (inr same, h) =
    ground (arith, (eq_iff p s).1 same, tokens_complete ps ss h)

-- a pattern that ends in ">" behind at least one byte, and the part before it
abbrev pub IsRest : GoString → GoString → Type 0
IsRest pattern prefix = (prefix ≢ []) × (pattern ≡ prefix ++ b'>' ∷ [])

-- What matches is the pattern itself, what begins with the part before a final ">", and what has
-- the same tokens up to stars.
abbrev pub SubjectMatches : GoString → GoString → Type 0
SubjectMatches pattern event_type =
    (pattern ≡ event_type)
    ⊎ ((prefix : GoString) × (rest : GoString) × IsRest pattern prefix
        × (event_type ≡ prefix ++ rest))
    ⊎ TokensMatch (split b'.' pattern) (split b'.' event_type)

trim_rest : (s : GoString) → trim_suffix b'>' (s ++ b'>' ∷ []) ≡ s
unfolding trim_suffix
trim_rest [] = refl
trim_rest (c ∷ []) = refl
trim_rest (c ∷ d ∷ s) = ap (λ x. c ∷ x) (trim_rest (d ∷ s))

rest_ends : (c : ℕ) (s : GoString) → ends_in_rest (c ∷ s ++ b'>' ∷ []) ≡ true
unfolding ends_in_rest
rest_ends c [] = refl
rest_ends c (d ∷ []) = refl
rest_ends c (d ∷ e ∷ s) = rest_ends d (e ∷ s)

ends-IsRest : (s : GoString) → ends_in_rest s ≡ true → (prefix : GoString) × IsRest s prefix
unfolding ends_in_rest
ends-IsRest [] h = absurd (ground (arith, h))
ends-IsRest (c ∷ []) h = absurd (ground (arith, h))
ends-IsRest (c ∷ d ∷ []) h = (c ∷ [], ((λ z. cc), ap (λ x. c ∷ x ∷ []) ((==_iff d b'>').0 h)))
ends-IsRest (c ∷ d ∷ e ∷ s) h =
    let (p, q) = ends-IsRest (d ∷ e ∷ s) h in (c ∷ p, ((λ z. cc), ap (λ x. c ∷ x) q.1))

rest_matches : (p rest : GoString) → p ≢ [] → match_subject (p ++ b'>' ∷ []) (p ++ rest) ≡ true
unfolding match_subject
rest_matches [] rest ne = absurd (ne refl)
rest_matches (c ∷ p) rest ne = ground (
  arith,
  rest_ends c p,
  trim_rest (c ∷ p),
  (has_prefix_iff (c ∷ p ++ rest) (c ∷ p)).1 (rest, refl),
)

-- `matchSubject` holds exactly when the pattern matches in one of its three ways.
pub match_subject_exact :
    (pattern event_type : GoString)
    → (match_subject pattern event_type ≡ true) ↔ SubjectMatches pattern event_type
match_subject_exact pattern event_type = (from, to)
  where
    from : match_subject pattern event_type ≡ true → SubjectMatches pattern event_type
    from h = elim (Bool-cases (str_eq pattern event_type)) [
      | inl same ↦ inl (str_eq_sound pattern event_type same)
      | inr other ↦
          elim (Bool-cases
            (ends_in_rest pattern && has_prefix event_type (trim_suffix b'>' pattern))) [
              | inl rest ↦
                  let (p, q) = ends-IsRest pattern (ground (arith, rest)) in
                  let (r, e) =
                    (has_prefix_iff event_type (trim_suffix b'>' pattern)).0
                      (ground (arith, rest)) in
                  inr
                    (inl (p, r, q, e ∙ ap (λ x. x ++ r) (ap (trim_suffix b'>') q.1 ∙ trim_rest p)))
              | inr no_rest ↦ inr (
                  inr (
                    tokens_sound (split b'.' pattern) (split b'.' event_type)
                      (unfold match_subject in ground (arith, h, other, no_rest))))
            ]
    ]

    to : SubjectMatches pattern event_type → match_subject pattern event_type ≡ true
    to (inl same) = unfold match_subject in ground (arith, (eq_iff pattern event_type).1 same)
    to (inr (inl (p, r, q, e))) =
        subst (λ x. match_subject x event_type ≡ true) (sym q.1)
          (subst (λ x. match_subject (p ++ b'>' ∷ []) x ≡ true) (sym e) (rest_matches p r q.0))
    to (inr (inr h)) =
        unfold match_subject in
        ground (arith, tokens_complete (split b'.' pattern) (split b'.' event_type) h)

-- Every event addressed to an agent belongs to the DIRECT stream, every federation event to
-- FEDERATION and every simulation event to SIMULATION, whatever follows the first dot or dots.
pub family_streams :
    (s : GoString)
    → (stream_for_event_type default_stream_registry (codes "agent.direct." ++ s)
        ≡ some (codes "DIRECT"))
      × (stream_for_event_type default_stream_registry (codes "federation." ++ s)
          ≡ some (codes "FEDERATION"))
      × (stream_for_event_type default_stream_registry (codes "simulation." ++ s)
          ≡ some (codes "SIMULATION"))
unfolding stream_for_event_type match_subject default_stream_registry str_eq has_prefix split
    trim_suffix
family_streams s = (
  elim (Bool-cases (str_eq (codes ">") s)) [
    | inl e ↦ ground (arith, e)
    | inr e ↦ ground (arith, e)
  ],
  elim (Bool-cases (str_eq (codes ">") s)) [
    | inl e ↦ ground (arith, e)
    | inr e ↦ ground (arith, e)
  ],
  elim (Bool-cases (str_eq (codes ">") s)) [
    | inl e ↦ ground (arith, e)
    | inr e ↦ ground (arith, e)
  ],
)
