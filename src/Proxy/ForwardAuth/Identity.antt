-- ===== src/Proxy/ForwardAuth/Identity.antt =====
-- What the header loops of forward auth do to each name.
use tiny_proxy.Base.{Bool, List, [], any, ap, arith, if◌then◌else◌, refl, ◌∙◌, ◌∷◌, ◌≡◌}
use tiny_proxy.Base.Text.{text_eq}
use tiny_proxy.Base.Text.Eq.{text_eq_iff}
use tiny_proxy.Config.Models.{ForwardAuthConfig}
use tiny_proxy.Http.{HeaderName, HeaderValue, Headers, get, values_of}
use tiny_proxy.Http.Laws.{get_all-insert_value, value_or}
use tiny_proxy.Proxy.ForwardAuth.{
  apply_identity_headers, copy_as, copy_listed, insert_all, remove_all, scrub_identity_headers,
}

-- Whether a name stands in a list.
abbrev pub listed : HeaderName → List HeaderName → Bool
listed n ns = any (λ k. text_eq k n) ns

-- The last value alone, or the old values if there is none.
abbrev pub last_or : List HeaderValue → List HeaderValue → List HeaderValue
last_or [] old = old
last_or (v ∷ []) old = v ∷ []
last_or (v ∷ w ∷ vs) old = last_or (w ∷ vs) old

last_or_any :
    (w : HeaderValue) (vs old old' : List HeaderValue)
    → last_or (w ∷ vs) old ≡ last_or (w ∷ vs) old'
last_or_any w [] old old' = refl
last_or_any w (x ∷ vs) old old' = last_or_any x vs old old'

last_or_cons :
    (vs : List HeaderValue) (v : HeaderValue) (old : List HeaderValue)
    → last_or vs (v ∷ []) ≡ last_or (v ∷ vs) old
last_or_cons [] v old = refl
last_or_cons (w ∷ vs) v old = last_or_any w vs (v ∷ []) old

module _ {M : Type 0} ⦃h : Headers M⦄ where
  get_all-remove_all :
      (ns : List HeaderName) (m : M) (n : HeaderName)
      → h.get_all (remove_all ns m) n ≡ (if listed n ns then [] else h.get_all m n)
  unfolding remove_all
  get_all-remove_all [] m n = refl
  get_all-remove_all (k ∷ ns) m n =
      ground (arith, get_all-remove_all ns (h.remove m k) n, h.get_all-remove m k n)

  -- The scrub removes every value of each configured identity header, and nothing else.
  pub get_all-scrub_identity_headers :
      (cfg : ForwardAuthConfig) (m : M) (n : HeaderName)
      → h.get_all (scrub_identity_headers cfg m) n
        ≡ (if listed n cfg.response_headers then [] else h.get_all m n)
  unfolding scrub_identity_headers
  get_all-scrub_identity_headers cfg m n = get_all-remove_all cfg.response_headers m n

  -- What copying the listed headers gives for a name: its first value in the source if it is
  -- listed and there, and what the target had otherwise.
  pub get_all-copy_listed :
      (ns : List HeaderName) (from to : M) (n : HeaderName)
      → h.get_all (copy_listed ns from to) n
        ≡ (if listed n ns then value_or (get from n) (h.get_all to n) else h.get_all to n)
  unfolding copy_listed copy_as
  get_all-copy_listed [] from to n = refl
  get_all-copy_listed (k ∷ ns) from to n = ground (
    arith,
    get_all-copy_listed ns from (copy_as k k from to) n,
    get_all-insert_value k (get from k) to n,
    text_eq_iff k n,
  )

  get_all-insert_all :
      (es : List (HeaderName × HeaderValue)) (m : M) (n : HeaderName)
      → h.get_all (insert_all es m) n ≡ last_or (values_of n es) (h.get_all m n)
  unfolding insert_all values_of
  get_all-insert_all [] m n = refl
  get_all-insert_all ((k, v) ∷ es) m n = ground (
    arith,
    get_all-insert_all es (h.insert m k v) n,
    h.get_all-insert m k v n,
    last_or_cons (values_of n es) v (h.get_all m n),
  )

  -- Applying identity headers sets each name that they have, and leaves the others.
  pub get_all-apply_identity_headers :
      (identity m : M) (n : HeaderName)
      → h.get_all (apply_identity_headers identity m) n
        ≡ last_or (h.get_all identity n) (h.get_all m n)
  unfolding apply_identity_headers
  get_all-apply_identity_headers identity m n =
      get_all-insert_all (h.entries identity) m n
      ∙ ap (λ vs. last_or vs (h.get_all m n)) (h.get_all-entries identity n)
