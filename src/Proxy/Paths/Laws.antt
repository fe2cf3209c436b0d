-- ===== src/Proxy/Paths/Laws.antt =====
-- What the operations on paths compute.
use tiny_proxy.Base.{
  ◌≡◌, ◌≢◌, ◌↔◌, inl, inr, refl, ap, ◌∙◌, arith, false, ◌==◌, some, [], ◌∷◌, ◌++◌, Bool-cases,
  Option-cases,
}
use tiny_proxy.Base.Text.{Text, codes, starts_with, strip_prefix as strip_prefix_of, strip_suffix}
use tiny_proxy.Base.Text.Eq.{
  text_eq_iff, strip_prefix_iff, strip_prefix_append, strip_suffix_append, strip_suffix_eq,
}
use tiny_proxy.Proxy.Paths.{match_pattern, handle_strip_prefix, with_slash}

abbrev pub wildcard : Text
wildcard = codes "/*"

-- When a pattern matches a path and leaves `r`, as prefixes of texts.
pub data Matches (pattern path r : Text) : Type 0 where
  below :
      (prefix : Text) → pattern ≡ prefix ++ wildcard → path ≡ prefix ++ r → Matches pattern path r
  exact :
      ((prefix : Text) → pattern ≢ prefix ++ wildcard)
      → pattern ≡ path
      → r ≡ codes "/"
      → Matches pattern path r

match_pattern_wild :
    (prefix path : Text) → match_pattern (prefix ++ wildcard) path ≡ strip_prefix_of path prefix
unfolding match_pattern
match_pattern_wild prefix path = ground (arith, strip_suffix_append prefix wildcard)

match_pattern_sound :
    (pattern path r : Text) → match_pattern pattern path ≡ some r → Matches pattern path r
unfolding match_pattern
match_pattern_sound pattern path r e = elim (Option-cases (strip_suffix pattern wildcard)) [
  | inl plain ↦
      exact
        (λ prefix w.
          cc (plain, ap (λ t. strip_suffix t wildcard) w, strip_suffix_append prefix wildcard))
        (ground (arith, text_eq_iff pattern path)) (ground arith)
  | inr (prefix, wild) ↦
      below prefix (strip_suffix_eq pattern wildcard prefix wild)
        (ground (arith, strip_prefix_iff path prefix r))
]

match_pattern_complete :
    (pattern path r : Text) → Matches pattern path r → match_pattern pattern path ≡ some r
unfolding match_pattern
match_pattern_complete pattern path r (below prefix e₁ e₂) =
    rw e₁ (match_pattern_wild prefix path ∙ (strip_prefix_iff path prefix r).1 e₂)
match_pattern_complete pattern path r (exact no_wild e₁ e₂) =
    elim (Option-cases (strip_suffix pattern wildcard)) [
      | inl plain ↦ ground (arith, text_eq_iff pattern path)
      | inr (prefix, wild) ↦ absurd (no_wild prefix (strip_suffix_eq pattern wildcard prefix wild))
    ]

-- A pattern matches a path and leaves `r` exactly when it is a prefix of the path followed by `/*`,
-- with `r` the rest of the path, or has no `/*` at its end, equals the path, and `r` is `/`.
pub match_pattern_iff :
    (pattern path r : Text) → (match_pattern pattern path ≡ some r) ↔ Matches pattern path r
match_pattern_iff pattern path r =
    (match_pattern_sound pattern path r, match_pattern_complete pattern path r)

-- A wildcard matches its prefix followed by any text that does not begin with `/`, and what is
-- left for the nested directives is that text, which has no `/` in front.
pub match_pattern-not_rooted :
    (prefix r : Text)
    → starts_with r (codes "/") ≡ false
    → (match_pattern (prefix ++ wildcard) (prefix ++ r) ≡ some r) × ((t : Text) → r ≢ b'/' ∷ t)
match_pattern-not_rooted prefix r h =
    (match_pattern_wild prefix (prefix ++ r) ∙ strip_prefix_append prefix r, λ t e. not_rooted t e)
  where
    not_rooted : (t : Text) → r ≢ b'/' ∷ t
    not_rooted t e =
        ground (arith, ap (λ s. starts_with s (codes "/")) e, strip_prefix_append (codes "/") t)

abbrev pub IsRooted : Text → Type 0
IsRooted path = (t : Text) × (path ≡ b'/' ∷ t)

with_slash-IsRooted : (s : Text) → IsRooted (with_slash s)
unfolding with_slash strip_prefix_of
with_slash-IsRooted [] = ([], refl)
with_slash-IsRooted (c ∷ s) = elim (Bool-cases (c == b'/')) [
  | inl slash ↦ (s, ground arith)
  | inr other ↦ (c ∷ s, ground arith)
]

-- Stripping a prefix keeps a path rooted.
pub handle_strip_prefix-IsRooted :
    (prefix path : Text) → IsRooted path → IsRooted (handle_strip_prefix prefix path)
unfolding handle_strip_prefix
handle_strip_prefix-IsRooted prefix path (t, e) =
    elim (Option-cases (strip_prefix_of path prefix)) [
      | inl none_left ↦ (t, ground arith)
      | inr (s, left) ↦ let (u, f) = with_slash-IsRooted s in (u, ground arith)
    ]
