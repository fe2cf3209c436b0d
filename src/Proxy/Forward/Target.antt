-- ===== src/Proxy/Forward/Target.antt =====
-- Where a request is sent: the URI of a backend request, src/proxy/handler.rs.
use tiny_proxy.Base.{
  Bool-cases, Option, Option-cases, ap, arith, false, inl, inr, none, refl, some, sym, true, ◌++◌,
  ◌↔◌, ◌∙◌, ◌∷◌, ◌≡◌, ◌≢◌,
}
use tiny_proxy.Base.Result.{ok}
use tiny_proxy.Base.Text.{Text, codes, contains_char, starts_with, strip_prefix as strip_prefix_of}
use tiny_proxy.Base.Text.Eq.{strip_prefix_iff}
use tiny_proxy.Http.{Codec, Uri}
use tiny_proxy.Proxy.Forward.{backend_uri, with_protocol, with_query}

-- The text that a backend URL is read as: itself, if it begins with a scheme, or else with `http://`
-- in front.
pub data Address (url text : Text) : Type 0 where
  with_http : (rest : Text) → url ≡ codes "http://" ++ rest → text ≡ url → Address url text
  with_https : (rest : Text) → url ≡ codes "https://" ++ rest → text ≡ url → Address url text
  completed :
      ((rest : Text) → url ≢ codes "http://" ++ rest)
      → ((rest : Text) → url ≢ codes "https://" ++ rest)
      → text ≡ codes "http://" ++ url
      → Address url text

-- The text that a path and the client's query are read as. A query in the path replaces the
-- client's.
pub data Line (path : Text) (query : Option Text) (line : Text) : Type 0 where
  path_alone : query ≡ none → line ≡ path → Line path query line
  client_query :
      (q : Text)
      → query ≡ some q
      → contains_char b'?' path ≡ false
      → line ≡ path ++ (b'?' ∷ q)
      → Line path query line
  own_query :
      (q : Text)
      → query ≡ some q
      → contains_char b'?' path ≡ true
      → line ≡ path
      → Line path query line

starts_there :
    (url scheme : Text) → starts_with url scheme ≡ true → (rest : Text) × (url ≡ scheme ++ rest)
starts_there url scheme e = elim (Option-cases (strip_prefix_of url scheme)) [
  | inl missing ↦ ground (arith, missing)
  | inr (rest, found) ↦ (rest, (strip_prefix_iff url scheme rest).0 found)
]

starts_nowhere :
    (url scheme : Text) → starts_with url scheme ≡ false → (rest : Text) → url ≢ scheme ++ rest
starts_nowhere url scheme e rest same = ground (arith, (strip_prefix_iff url scheme rest).1 same)

with_protocol-Address : (url : Text) → Address url (with_protocol url)
unfolding with_protocol
with_protocol-Address url = elim (Bool-cases (starts_with url (codes "http://"))) [
  | inl begins ↦
      let (rest, same) = starts_there url (codes "http://") begins in
      with_http rest same (ground arith)
  | inr other ↦ elim (Bool-cases (starts_with url (codes "https://"))) [
    | inl begins ↦
        let (rest, same) = starts_there url (codes "https://") begins in
        with_https rest same (ground arith)
    | inr too ↦
        completed (starts_nowhere url (codes "http://") other)
          (starts_nowhere url (codes "https://") too) (ground arith)
  ]
]

Address-with_protocol : (url text : Text) → Address url text → with_protocol url ≡ text
unfolding with_protocol
Address-with_protocol url text (with_http rest begins same) =
    ground (arith, (strip_prefix_iff url (codes "http://") rest).1 begins)
Address-with_protocol url text (with_https rest begins same) =
    ground (arith, (strip_prefix_iff url (codes "https://") rest).1 begins)
Address-with_protocol url text (completed other too same) =
    elim (Bool-cases (starts_with url (codes "http://"))) [
      | inl begins ↦
          let (rest, there_it_is) = starts_there url (codes "http://") begins in
          absurd (other rest there_it_is)
      | inr no_http ↦ elim (Bool-cases (starts_with url (codes "https://"))) [
        | inl begins ↦
            let (rest, there_it_is) = starts_there url (codes "https://") begins in
            absurd (too rest there_it_is)
        | inr no_https ↦ ground arith
      ]
    ]

with_query-Line : (path : Text) (query : Option Text) → Line path query (with_query path query)
unfolding with_query
with_query-Line path none = path_alone refl refl
with_query-Line path (some q) = elim (Bool-cases (contains_char b'?' path)) [
  | inl own ↦ own_query q refl own (ground arith)
  | inr free ↦ client_query q refl free (ground arith)
]

Line-with_query :
    (path : Text) (query : Option Text) (line : Text)
    → Line path query line
    → with_query path query ≡ line
unfolding with_query
Line-with_query path none line (path_alone e same) = sym same
Line-with_query path none line (client_query q e free same) = cc
Line-with_query path none line (own_query q e own same) = cc
Line-with_query path (some q) line (path_alone e same) = cc
Line-with_query path (some q) line (client_query r e free same) = ground arith
Line-with_query path (some q) line (own_query r e own same) = ground arith

module _ ⦃c : Codec⦄ where
  -- The target `u` for a backend URL, a path and the client's URI: the parts of the backend URL, but
  -- for the path and the query, and these as they are read.
  pub data Target (url path : Text) (client u : Uri) : Type 0 where
    target :
        (text line t : Text) (base : Uri)
        → Address url text
        → Line path (c.uri_query client) line
        → c.uri_from_str text ≡ some base
        → c.path_and_query_from_str line ≡ some t
        → c.uri_from_parts (record base { path_and_query = some t }) ≡ some u
        → u ≡ record base { path_and_query = some t }
        → Target url path client u

  backend_uri-Target :
      (url path : Text) (client u : Uri)
      → backend_uri url path client ≡ ok u
      → Target url path client u
  unfolding backend_uri
  backend_uri-Target url path client u e =
      elim (Option-cases (c.uri_from_str (with_protocol url))) [
        | inl bad ↦ cc (rw (bad, backend_uri) at e)
        | inr (base, parsed) ↦
            elim (Option-cases (c.path_and_query_from_str (with_query path (c.uri_query client)))) [
              | inl bad ↦ cc (rw (parsed, bad, backend_uri) at e)
              | inr (t, read) ↦
                  let parts : Uri = record base { path_and_query = some t } in
                  elim (Option-cases (c.uri_from_parts parts)) [
                    | inl bad ↦ cc (rw (parsed, read, bad, backend_uri) at e)
                    | inr (v, made) ↦
                        let same : v ≡ u = cc (rw (parsed, read, made, backend_uri) at e) in
                        target (with_protocol url) (with_query path (c.uri_query client)) t base
                          (with_protocol-Address url) (with_query-Line path (c.uri_query client))
                          parsed read (made ∙ ap some same)
                          (sym same ∙ c.uri_from_parts_eq parts t v refl made)
                  ]
            ]
      ]

  Target-backend_uri :
      (url path : Text) (client u : Uri)
      → Target url path client u
      → backend_uri url path client ≡ ok u
  unfolding backend_uri
  Target-backend_uri url path client u
        (target text line t base addressed lined parsed read made whole) =
      let parsed_too = ap c.uri_from_str (Address-with_protocol url text addressed) ∙ parsed in
      let read_too =
        ap c.path_and_query_from_str (Line-with_query path (c.uri_query client) line lined)
        ∙ read in
      rw (parsed_too, read_too, made, backend_uri) refl

  -- The URI of a backend request is made exactly if it is this: the backend URL, with `http://` in
  -- front where it begins neither with that nor with `https://`, is a URI; the rewritten path, with
  -- `?` and the client's query behind it where the path has no `?`, is a path and query; and the URI
  -- has that path and query, all else from the backend URL, and can be made of these parts. If the
  -- path has a `?`, the client's query is not sent.
  pub backend_uri_iff :
      (url path : Text) (client u : Uri)
      → (backend_uri url path client ≡ ok u) ↔ Target url path client u
  backend_uri_iff url path client u =
      (backend_uri-Target url path client u, Target-backend_uri url path client u)
