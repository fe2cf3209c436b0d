-- ===== src/Http.antt =====
-- What the proxy takes from the crates `http` and `hyper`: header maps, the conversions of header
-- names, header values and URIs, requests and responses. Their code is not part of the repository.
-- So a header map is an abstract type with the operations that the proxy calls and the documented
-- laws of each, and a conversion is an arbitrary partial function.
-- A header name stands for its `as_str` (in lower case), a header value for its bytes, a URI for
-- its three components, and an `IpAddr` for the text that it prints as.
pub mod Laws
pub mod Sample
use tiny_proxy.Base.{
  ℕ, ◌≡◌, Bool, Option, none, some, List, [], ◌∷◌, ◌++◌, head?, if◌then◌else◌, leb, ltb, ◌&&◌,
}
use tiny_proxy.Base.Text.{Text, text_eq}

abbrev pub HeaderName : Type 0
HeaderName = Text

abbrev pub HeaderValue : Type 0
HeaderValue = List ℕ

-- The values that a list of headers has for a name.
unfoldable pub values_of : HeaderName → List (HeaderName × HeaderValue) → List HeaderValue
values_of n [] = []
values_of n ((k, v) ∷ es) = if text_eq k n then v ∷ values_of n es else values_of n es

-- `HeaderMap`: a map from names to lists of values. `entries` is its iterator, `remove` drops all
-- the values of a name, `insert` replaces them by one, and `append` adds one.
pub record Headers (M : Type 0) : Type 0 where
  pub empty : M
  pub get_all : M → HeaderName → List HeaderValue
  pub insert : M → HeaderName → HeaderValue → M
  pub append : M → HeaderName → HeaderValue → M
  pub remove : M → HeaderName → M
  pub entries : M → List (HeaderName × HeaderValue)
  pub get_all-empty : (n : HeaderName) → get_all empty n ≡ []
  pub get_all-insert :
      (m : M) (k : HeaderName) (v : HeaderValue) (n : HeaderName)
      → get_all (insert m k v) n ≡ (if text_eq k n then v ∷ [] else get_all m n)
  pub get_all-append :
      (m : M) (k : HeaderName) (v : HeaderValue) (n : HeaderName)
      → get_all (append m k v) n ≡ (if text_eq k n then get_all m n ++ v ∷ [] else get_all m n)
  pub get_all-remove :
      (m : M) (k n : HeaderName)
      → get_all (remove m k) n ≡ (if text_eq k n then [] else get_all m n)
  pub get_all-entries : (m : M) (n : HeaderName) → values_of n (entries m) ≡ get_all m n

module _ {M : Type 0} ⦃h : Headers M⦄ where
  abbrev pub get_all : M → HeaderName → List HeaderValue
  get_all = h.get_all

  -- `HeaderMap::get`: the first value.
  abbrev pub get : M → HeaderName → Option HeaderValue
  get m n = head? (h.get_all m n)

  abbrev pub insert : M → HeaderName → HeaderValue → M
  insert = h.insert

  abbrev pub append : M → HeaderName → HeaderValue → M
  append = h.append

  abbrev pub remove : M → HeaderName → M
  remove = h.remove

  abbrev pub entries : M → List (HeaderName × HeaderValue)
  entries = h.entries

module _ {M : Type 0} ⦃h : Headers M⦄ where
  -- `insert` where there is a value.
  unfoldable pub insert_value : HeaderName → Option HeaderValue → M → M
  insert_value n none m = m
  insert_value n (some v) m = insert m n v

-- `Uri`, by what `scheme_str`, `authority` and `path_and_query` return.
pub record Uri : Type 0 where
  pub scheme : Option Text
  pub authority : Option Text
  pub path_and_query : Option Text

-- The conversions: `HeaderName::from_bytes`, `HeaderValue::from_str`, `HeaderValue::to_str`, `Uri`
-- and `PathAndQuery` from a text, `Uri::from_parts`, `Uri::path`, `Uri::query`, and from the
-- standard library the grammar of socket addresses and of IP addresses; `HeaderValue` from a
-- `String` as the response builder converts it, and the methods of `StatusCode`.
pub record Codec : Type 0 where
  pub name_from_bytes : Text → Option HeaderName
  pub value_from_str : Text → Option HeaderValue
  pub to_str : HeaderValue → Option Text
  pub uri_from_str : Text → Option Uri
  pub path_and_query_from_str : Text → Option Text
  pub uri_from_parts : Uri → Option Uri
  pub uri_path : Uri → Text
  pub uri_query : Uri → Option Text
  pub socket_addr_from_str : Text → Option (Text × ℕ)
  pub ip_addr_from_str : Text → Option Text
  pub value_try_from : Text → Option HeaderValue
  pub status_from_u16 : ℕ → Option ℕ
  pub canonical_reason : ℕ → Option Text
  pub is_success : ℕ → Bool
  pub is_client_error : ℕ → Bool
  -- A value made from a text reads back as that text.
  pub to_str-value_from_str :
      (s : Text) (v : HeaderValue) → value_from_str s ≡ some v → to_str v ≡ some s
  pub status_from_u16_eq :
      (n : ℕ) → status_from_u16 n ≡ (if leb 100 n && ltb n 1000 then some n else none)
  pub is_success_eq : (n : ℕ) → is_success n ≡ (leb 200 n && ltb n 300)
  pub is_client_error_eq : (n : ℕ) → is_client_error n ≡ (leb 400 n && ltb n 500)
  -- A URI made from parts with a path has these parts.
  pub uri_from_parts_eq :
      (p : Uri) (t : Text) (u : Uri) → p.path_and_query ≡ some t → uri_from_parts p ≡ some u → u ≡ p

-- `Request`; the body is handed on as it is.
pub record Request (M Body : Type 0) : Type 0 where
  pub method : Text
  pub uri : Uri
  pub headers : M
  pub body : Body

-- The text of a header, if the header is there and its first value is a text.
abbrev pub get_str : {M : Type 0} ⦃h : Headers M⦄ ⦃c : Codec⦄ → M → HeaderName → Option Text
get_str ⦃c⦄ m n = elim (get m n) [ none ↦ none | some v ↦ c.to_str v ]
