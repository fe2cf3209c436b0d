-- ===== src/Http/Sample.antt =====
-- A header map as a list, and plain conversions: they show that the laws can hold, and the
-- examples run on them.
use tiny_proxy.Base.{
  leb, ltb, ◌&&◌, ◌≡◌, refl, sym, Option, none, some, List, [], ◌∷◌, ◌++◌, if◌then◌else◌, arith,
}
use tiny_proxy.Base.Text.{
  Text, text_eq, to_ascii_lowercase, find_split, split_first, codes, strip_prefix,
}
use tiny_proxy.Base.Text.Eq.{text_eq_iff}
use tiny_proxy.Http.{HeaderName, HeaderValue, Headers, Codec, Uri, values_of}

abbrev pub Entries : Type 0
Entries = List (HeaderName × HeaderValue)

unfoldable pub drop_name : HeaderName → Entries → Entries
drop_name k [] = []
drop_name k ((j, v) ∷ es) = if text_eq j k then drop_name k es else (j, v) ∷ drop_name k es

pub values_of-drop_name :
    (es : Entries) (k n : HeaderName)
    → values_of n (drop_name k es) ≡ (if text_eq k n then [] else values_of n es)
unfolding values_of drop_name
values_of-drop_name [] k n = ground arith
values_of-drop_name ((j, v) ∷ es) k n =
    ground (arith, values_of-drop_name es k n, text_eq_iff j k, text_eq_iff j n, text_eq_iff k n)

pub values_of-concat :
    (es : Entries) (k : HeaderName) (v : HeaderValue) (n : HeaderName)
    → values_of n (es ++ (k, v) ∷ [])
      ≡ (if text_eq k n then values_of n es ++ v ∷ [] else values_of n es)
unfolding values_of
values_of-concat [] k v n = refl
values_of-concat ((j, w) ∷ es) k v n = ground (arith, values_of-concat es k v n)

pub values_of-insert :
    (es : Entries) (k : HeaderName) (v : HeaderValue) (n : HeaderName)
    → values_of n ((k, v) ∷ drop_name k es) ≡ (if text_eq k n then v ∷ [] else values_of n es)
unfolding values_of
values_of-insert es k v n = ground (arith, values_of-drop_name es k n)

pub values_of-nil : (n : HeaderName) → values_of n [] ≡ []
unfolding values_of
values_of-nil n = refl

instance abbrev pub sample_headers : Headers Entries
sample_headers = record {
  empty = [];
  get_all = λ m n. values_of n m;
  insert = λ m k v. (k, v) ∷ drop_name k m;
  append = λ m k v. m ++ (k, v) ∷ [];
  remove = λ m k. drop_name k m;
  entries = λ m. m;
  get_all-empty = values_of-nil;
  get_all-insert = values_of-insert;
  get_all-append = values_of-concat;
  get_all-remove = values_of-drop_name;
  get_all-entries = λ m n. refl;
}

-- `scheme://authority/path`, or a path alone.
unfoldable pub sample_uri : Text → Option Uri
unfolding find_split split_first strip_prefix
sample_uri s = elim (find_split s (codes "://")) [
  | none ↦ some (record { scheme = none; authority = none; path_and_query = some s })
  | some (scheme, rest) ↦ elim (strip_prefix rest (split_first b'/' rest)) [
    | none ↦ none
    | some [] ↦
        some (record {
          scheme = some scheme;
          authority = some rest;
          path_and_query = some (codes "/");
        })
    | some (c ∷ p) ↦ some (record {
      scheme = some scheme;
      authority = some (split_first b'/' rest);
      path_and_query = some (c ∷ p);
    })
  ]
]

pub some_eq : {A : Type 0} (a b : A) → some a ≡ some b → b ≡ a
some_eq a b e = cc

instance abbrev pub sample_codec : Codec
sample_codec = record {
  name_from_bytes = λ s. some (to_ascii_lowercase s);
  value_from_str = some;
  to_str = some;
  uri_from_str = sample_uri;
  path_and_query_from_str = some;
  uri_from_parts = some;
  uri_path = λ u. elim u.path_and_query [ none ↦ [] | some p ↦ split_first b'?' p ];
  uri_query = λ u. elim u.path_and_query [
    | none ↦ none
    | some p ↦ elim (find_split p (codes "?")) [ none ↦ none | some (a, q) ↦ some q ]
  ];
  socket_addr_from_str = λ s. none;
  ip_addr_from_str = λ s. none;
  value_try_from = some;
  status_from_u16 = λ n. if leb 100 n && ltb n 1000 then some n else none;
  canonical_reason = λ n. none;
  is_success = λ n. leb 200 n && ltb n 300;
  is_client_error = λ n. leb 400 n && ltb n 500;
  status_from_u16_eq = λ n. refl;
  is_success_eq = λ n. refl;
  is_client_error_eq = λ n. refl;
  to_str-value_from_str = λ s v e. sym e;
  uri_from_parts_eq = λ p t u _ e. some_eq p u e;
}
