-- ===== src/Proxy/Substitution/Ends.antt =====
-- When the loops of the substitution end, and when they do not.
use mathlib.Core.List.{append-nil}
use tiny_proxy.Base.{
  ==_iff, Option, Option-cases, [], ap, arith, if◌then◌else◌, inl, inr, none, refl, some, suc, zero,
  ℕ, ◌++◌, ◌+◌, ◌<◌, ◌==◌, ◌∙◌, ◌∷◌, ◌≡◌, ◌≤◌,
}
use tiny_proxy.Base.Text.{Text, codes, find_split, replace, split_once}
use tiny_proxy.Base.Text.Eq.{find_split_eq, split_once_eq, strip_prefix_append}
use tiny_proxy.Http.{Codec, Headers}
use tiny_proxy.Proxy.Substitution.{
  ◌>>=◌, Substituted, diverges, env_marker, env_value, expand, header_marker, header_value,
  process_header_substitution, replaced, unclosed,
}

-- The number of times that a character occurs.
unfoldable pub count : ℕ → Text → ℕ
count d [] = 0
count d (c ∷ s) = (if c == d then 1 else 0) + count d s

count-append : (d : ℕ) (s t : Text) → count d (s ++ t) ≡ count d s + count d t
unfolding count
count-append d [] t = omega arith
count-append d (c ∷ s) t = omega (arith, count-append d s t)

count-cons : (d : ℕ) (s : Text) → count d (d ∷ s) ≡ 1 + count d s
unfolding count
count-cons d s = ground (arith, ==_iff d d)

-- What a round takes away: the brace of the marker is gone, and the value brings none.
shrinks :
    (d : ℕ) (before rest name value marker : Text)
    → count d value ≡ 0
    → count d (before ++ (value ++ rest))
      < count d (before ++ ((d ∷ marker) ++ (name ++ (b'}' ∷ rest))))
shrinks d before rest name value marker e = omega (
  arith,
  e,
  count-append d before (value ++ rest),
  count-append d value rest,
  count-append d before ((d ∷ marker) ++ (name ++ (b'}' ∷ rest))),
  count-cons d (marker ++ (name ++ (b'}' ∷ rest))),
  count-append d marker (name ++ (b'}' ∷ rest)),
  count-append d name (b'}' ∷ rest),
  count-append d (b'}' ∷ []) rest,
)

-- A loop over a text `s` that has come to its end: no marker is left and there are not more
-- opening braces than before, or a placeholder is not closed.
pub data Settles (marker s : Text) : Substituted → Type 0 where
  settled :
      (t : Text)
      → find_split t marker ≡ none
      → count b'{' t ≤ count b'{' s
      → Settles marker s (replaced t)
  open_end : Settles marker s unclosed

Settles-mono :
    (marker s t : Text) (r : Substituted)
    → count b'{' s ≤ count b'{' t
    → Settles marker s r
    → Settles marker t r
Settles-mono marker s t _ le (settled u e f) = settled u e (omega arith)
Settles-mono marker s t _ le open_end = open_end

-- A loop whose values contain no opening brace, with fuel above the number of opening braces of
-- the text, comes to its end: no marker is left and there are not more opening braces than
-- before, or a placeholder is not closed.
pub expand-Settles :
    (value_of : Text → Text) (marker : Text) (fuel : ℕ) (s : Text)
    → ((name : Text) → count b'{' (value_of name) ≡ 0)
    → count b'{' s < fuel
    → Settles (b'{' ∷ marker) s (expand value_of (b'{' ∷ marker) fuel s)
unfolding expand
expand-Settles value_of marker zero s plain lt = absurd (omega arith)
expand-Settles value_of marker (suc fuel) s plain lt =
    elim (Option-cases (find_split s (b'{' ∷ marker))) [
      | inl over ↦ rw (over, expand) (settled s over (omega arith))
      | inr ((before, behind), found) ↦ elim (Option-cases (split_once b'}' behind)) [
        | inl missing ↦ rw (found, missing, expand) open_end
        | inr ((name, rest), at_brace) ↦
            let shape =
              find_split_eq s (b'{' ∷ marker) before behind found
              ∙ ap (λ x. before ++ ((b'{' ∷ marker) ++ x))
                  (split_once_eq b'}' behind name rest at_brace) in
            let next = before ++ (value_of name ++ rest) in
            let smaller : count b'{' next < count b'{' s =
              rw shape (shrinks b'{' before rest name (value_of name) marker (plain name)) in
            rw (found, at_brace, expand)
              (Settles-mono (b'{' ∷ marker) next s _ (omega arith)
                (expand-Settles value_of marker fuel next plain (omega arith)))
      ]
    ]

-- A substitution that has a result, or reports a placeholder that is not closed.
pub data Ends : Substituted → Type 0 where
  gives : (t : Text) → Ends (replaced t)
  stops : Ends unclosed

env_pass :
    (env : Text → Option Text) (fuel : ℕ) (k : Text → Text) (value : Text) (r : Substituted)
    → ((name : Text) → count b'{' (env_value env name) ≡ 0)
    → count b'{' value < fuel
    → Settles header_marker value r
    → Ends (r >>= λ a. expand (env_value env) env_marker fuel a >>= λ b. replaced (k b))
env_pass env fuel k value _ plain lt open_end = stops
env_pass env fuel k value _ plain lt (settled t e le) =
    last _ (expand-Settles (env_value env) (codes "env.") fuel t plain (omega arith))
  where
    last : (r : Substituted) → Settles env_marker t r → Ends (r >>= λ b. replaced (k b))
    last _ (settled u f g) = gives (k u)
    last _ open_end = stops

module _ {M : Type 0} ⦃h : Headers M⦄ ⦃c : Codec⦄ where
  -- If neither the headers of the request nor the environment contain an opening brace, and the
  -- fuel exceeds the number of opening braces of the value, then the substitution has a result or
  -- reports a placeholder that is not closed.
  pub process_header_substitution-Ends :
      (env : Text → Option Text) (uuid : Text) (fuel : ℕ) (value : Text) (m : M)
      → ((name : Text) → count b'{' (header_value m name) ≡ 0)
      → ((name : Text) → count b'{' (env_value env name) ≡ 0)
      → count b'{' value < fuel
      → Ends (process_header_substitution env uuid fuel value m)
  unfolding process_header_substitution
  process_header_substitution-Ends env uuid fuel value m no_brace no_brace_env lt =
      env_pass env fuel (λ b. replace b (codes "{uuid}") uuid) value _ no_brace_env lt
        (expand-Settles (header_value m) (codes "header.") fuel value no_brace lt)

split_once_first :
    (name : Text) → count b'}' name ≡ 0 → split_once b'}' (name ++ (b'}' ∷ [])) ≡ some (name, [])
unfolding split_once count
split_once_first [] e = refl
split_once_first (d ∷ name) e = ground (arith, split_once_first name)

find_split_first :
    (d : ℕ) (marker x : Text) → find_split ((d ∷ marker) ++ x) (d ∷ marker) ≡ some ([], x)
unfolding find_split
find_split_first d marker x = rw (strip_prefix_append (d ∷ marker) x, find_split)

-- A placeholder whose value is that placeholder.
expand-diverges :
    (value_of : Text → Text) (d : ℕ) (marker name : Text) (fuel : ℕ)
    → count b'}' name ≡ 0
    → value_of name ≡ (d ∷ marker) ++ (name ++ (b'}' ∷ []))
    → expand value_of (d ∷ marker) fuel ((d ∷ marker) ++ (name ++ (b'}' ∷ []))) ≡ diverges
unfolding expand
expand-diverges value_of d marker name zero e f = refl
expand-diverges value_of d marker name (suc fuel) e f =
    rw (find_split_first d marker (name ++ (b'}' ∷ [])), split_once_first name e, expand)
      (ap (λ x. expand value_of (d ∷ marker) fuel x) (append-nil (value_of name) ∙ f)
        ∙ expand-diverges value_of d marker name fuel e f)

module _ {M : Type 0} ⦃h : Headers M⦄ ⦃c : Codec⦄ where
  -- If a request has a header whose value is the placeholder of that header, then the substitution
  -- of this placeholder does not end, with no bound on the rounds: what is put in is read again.
  pub process_header_substitution-diverges :
      (env : Text → Option Text) (uuid : Text) (fuel : ℕ) (name : Text) (m : M)
      → count b'}' name ≡ 0
      → header_value m name ≡ header_marker ++ (name ++ (b'}' ∷ []))
      → process_header_substitution env uuid fuel (header_marker ++ (name ++ (b'}' ∷ []))) m
        ≡ diverges
  unfolding process_header_substitution
  process_header_substitution-diverges env uuid fuel name m e f =
      rw (expand-diverges (header_value m) b'{' (codes "header.") name fuel e f)
