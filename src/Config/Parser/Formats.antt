-- ===== src/Config/Parser/Formats.antt =====
-- The two formats of a `forward_auth`: a block of the text file, and a JSON object.
-- The object with the settings of a block.
use mathlib.Core.Option
use tiny_proxy.Base.{
  List, Option, Option-cases, [], arith, inl, inr, none, refl, some, ℕ, ◌↔◌, ◌∷◌, ◌≡◌,
}
use tiny_proxy.Base.Result.{
  Alike, Alike-bind, Alike-bind_more, Alike-iff, Result-cases, both_fail, both_give, collect, ok,
  ok_steps, ◌>>=◌,
}
use tiny_proxy.Base.Text.{Text, codes}
use tiny_proxy.Config.Address.{u64_bound}
use tiny_proxy.Config.Models.{
  FailureMode, ForwardAuthConfig, closed, default_auth_timeout_secs, default_request_headers,
  forward_auth, normalize_auth_endpoint,
}
use tiny_proxy.Config.Models.Ranges.{Below}
use tiny_proxy.Config.Models.Serde.{
  ForwardAuthObject, deserialize-mode_name, deserialize_auth, deserialize_mode, deserialize_names,
  deserialize_secs, deserialize_uri, mode_name, or_default,
}
use tiny_proxy.Config.Parser.{ForwardAuthBlock}
use tiny_proxy.Config.Parser.Blocks.{build_forward_auth, parse_headers}
use tiny_proxy.Http.{Codec}

unfoldable pub object_of : ForwardAuthBlock → ForwardAuthObject
object_of p = record {
  to = p.to;
  request_headers = p.request_headers;
  response_headers = p.response_headers;
  failure_mode = Option.map mode_name p.failure_mode;
  timeout_secs = p.timeout;
}

module _ ⦃c : Codec⦄ where
  names-Alike :
      (names : List Text) (what : Text) (line : ℕ)
      → Alike (parse_headers names what line) (deserialize_names names)
  unfolding parse_headers deserialize_names collect
  names-Alike [] what line = both_give []
  names-Alike (n ∷ names) what line = elim (Option-cases (c.name_from_bytes n)) [
    | inl bad ↦ rw bad (both_fail _ _)
    | inr (h, good) ↦ rw good (Alike-bind (names-Alike names what line) λ hs. both_give (h ∷ hs))
  ]

  request-Alike :
      (names : Option (List Text)) (line : ℕ)
      → Alike
          (elim names [
            | some ns ↦ parse_headers ns (codes "request_headers") line
            | none ↦ ok default_request_headers
          ])
          (or_default names deserialize_names default_request_headers)
  request-Alike none line = both_give _
  request-Alike (some ns) line = names-Alike ns (codes "request_headers") line

  response-Alike :
      (names : Option (List Text)) (line : ℕ)
      → Alike
          (elim names [ some ns ↦ parse_headers ns (codes "response_headers") line | none ↦ ok [] ])
          (or_default names deserialize_names [])
  response-Alike none line = both_give _
  response-Alike (some ns) line = names-Alike ns (codes "response_headers") line

  mode_read :
      (m : Option FailureMode)
      → or_default (Option.map mode_name m) deserialize_mode closed ≡ ok (Option.get_or m closed)
  mode_read none = refl
  mode_read (some m) = deserialize-mode_name m

  secs_read :
      (t : Option ℕ)
      → Below u64_bound t
      → or_default t deserialize_secs default_auth_timeout_secs
        ≡ ok (Option.get_or t default_auth_timeout_secs)
  unfolding deserialize_secs
  secs_read none lt = refl
  secs_read (some n) lt = ground arith

  -- What a block and its object are read as.
  forward_auth-Alike :
      (p : ForwardAuthBlock) (line : ℕ)
      → Below u64_bound p.timeout
      → Alike
          (build_forward_auth p line)
          (deserialize_auth (object_of p) >>= λ f. ok (forward_auth f))
  unfolding build_forward_auth deserialize_auth deserialize_uri object_of
  forward_auth-Alike p line lt = elim (Option-cases p.to) [
    | inl missing ↦ rw missing (both_fail _ _)
    | inr (raw, given) ↦ elim (Option-cases (c.uri_from_str raw)) [
      | inl bad ↦ rw (given, bad) (both_fail _ _)
      | inr (uri, good) ↦ elim (Result-cases (normalize_auth_endpoint uri)) [
        | inr (e, wrong) ↦ rw (given, good, wrong) (both_fail _ _)
        | inl (u, fine) ↦
            rw (given, good, fine, mode_read p.failure_mode, secs_read p.timeout lt)
              (Alike-bind_more _ _ (request-Alike p.request_headers line) λ rs.
                Alike-bind_more _ _ (response-Alike p.response_headers line) λ ss. both_give _)
      ]
    ]
  ]

  -- The two formats of a `forward_auth` enforce the same rules: a block of the text file whose
  -- timeout is below 2^64 is read as a configuration exactly if the JSON object with the same
  -- settings is.
  pub build_forward_auth_iff :
      (p : ForwardAuthBlock) (line : ℕ) (f : ForwardAuthConfig)
      → Below u64_bound p.timeout
      → (build_forward_auth p line ≡ ok (forward_auth f)) ↔ (deserialize_auth (object_of p) ≡ ok f)
  build_forward_auth_iff p line f lt =
      let (forth, back) = Alike-iff (forward_auth f) (forward_auth-Alike p line lt) in
      (
        λ e.
            let (g, made, read) =
              ok_steps (λ g. ok (forward_auth g)) (deserialize_auth (object_of p)) (forward_auth f)
                (forth e) in
            cc (read, made),
        λ e. back (rw e refl),
      )
