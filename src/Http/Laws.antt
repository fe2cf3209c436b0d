-- ===== src/Http/Laws.antt =====
-- The laws of header maps, for the name that is asked for and for the others.
use tiny_proxy.Base.{List, arith, Option, none, some, if◌then◌else◌, ◌≡◌, false, [], ◌∷◌}
use tiny_proxy.Base.Text.{text_eq}
use tiny_proxy.Base.Text.Eq.{text_eq_refl}
use tiny_proxy.Http.{HeaderName, HeaderValue, Headers, insert_value}

module _ {M : Type 0} ⦃h : Headers M⦄ (m : M) where
  pub get_all-insert_self :
      (k : HeaderName) (v : HeaderValue) → h.get_all (h.insert m k v) k ≡ v ∷ []
  get_all-insert_self k v = rw (h.get_all-insert m k v k) (rw (text_eq_refl k))

  pub get_all-insert_ne :
      (k : HeaderName) (v : HeaderValue) (n : HeaderName)
      → text_eq k n ≡ false
      → h.get_all (h.insert m k v) n ≡ h.get_all m n
  get_all-insert_ne k v n e = rw (h.get_all-insert m k v n) (rw e)

  pub get_all-remove_self : (k : HeaderName) → h.get_all (h.remove m k) k ≡ []
  get_all-remove_self k = rw (h.get_all-remove m k k) (rw (text_eq_refl k))

-- The values of a name after an insertion: the new value, if there is one.
abbrev pub value_or : Option HeaderValue → List HeaderValue → List HeaderValue
value_or none old = old
value_or (some v) old = v ∷ []

module _ {M : Type 0} ⦃h : Headers M⦄ where
  pub get_all-insert_value :
      (k : HeaderName) (o : Option HeaderValue) (m : M) (n : HeaderName)
      → h.get_all (insert_value k o m) n
        ≡ (if text_eq k n then value_or o (h.get_all m n) else h.get_all m n)
  unfolding insert_value
  get_all-insert_value k none m n = ground arith
  get_all-insert_value k (some v) m n = h.get_all-insert m k v n
