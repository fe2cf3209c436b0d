-- ===== src/Config/Parser/Outcome.antt =====
-- What `Config::from_str` returns.
use tiny_proxy.Base.{List, Option-cases, [], arith, false, inl, inr, refl, true, ◌∷◌, ◌≡◌}
use tiny_proxy.Base.Result.{Result-cases, err, ok, ◌>>=◌}
use tiny_proxy.Base.Text.{Text, lines}
use tiny_proxy.Config.Address.{resolve_listen_addr}
use tiny_proxy.Config.Models.{Config, SiteConfig}
use tiny_proxy.Config.Parser.{ParseError, Parsed, State, initial}
use tiny_proxy.Config.Parser.Invariant.{kept, keyed, run_lines-kept, well_formed}
use tiny_proxy.Config.Parser.Lines.{from_str, run_lines}
use tiny_proxy.Config.Parser.Posts.{is_panic, panics}
use tiny_proxy.Config.Sockets.{
  Seen, check_site, check_sites, check_sni, check_tls, tls_at, validate_listen_sockets,
}
use tiny_proxy.Config.Sockets.Agreement.{AllAgree, validate_listen_sockets_iff}
use tiny_proxy.Http.{Codec}

module _ ⦃c : Codec⦄ where
  panics-check_site : (s : SiteConfig) (seen : Seen) → panics (check_site s seen) ≡ false
  unfolding check_site check_tls check_sni
  panics-check_site s seen = elim (Option-cases (resolve_listen_addr s.address)) [
    | inl e ↦ ground arith
    | inr (a, e) ↦ elim (Option-cases (tls_at a seen.socket_tls)) [
      | inl unseen ↦ ground arith
      | inr (t, old) ↦ ground arith
    ]
  ]

  panics-check_sites :
      (sites : List (Text × SiteConfig)) (seen : Seen) → panics (check_sites sites seen) ≡ false
  unfolding check_sites
  panics-check_sites [] seen = refl
  panics-check_sites ((k, s) ∷ sites) seen = elim (Result-cases (check_site s seen)) [
    | inl (next, e) ↦ ground (arith, panics-check_sites sites next)
    | inr (x, e) ↦ ground (arith, panics-check_site s seen)
  ]

  panics-validate :
      (sites : List (Text × SiteConfig)) → panics (validate_listen_sockets sites) ≡ false
  unfolding validate_listen_sockets
  panics-validate sites = panics-check_sites sites (record { socket_tls = []; socket_sni = [] })

  -- A configuration whose sites have distinct keys, each its own address, and agree; or an error
  -- that is not a failed `expect`.
  abbrev pub Valid : Parsed Config → Type 0
  Valid (ok config) = (keyed config.sites ≡ true) × AllAgree config.sites
  Valid (err e) = is_panic e ≡ false

  checked-Valid :
      (s : State)
      → well_formed s ≡ true
      → Valid (validate_listen_sockets s.sites >>= λ _. ok (record { sites = s.sites }))
  unfolding well_formed
  checked-Valid s h = elim (Result-cases (validate_listen_sockets s.sites)) [
    | inl (seen, e) ↦ rw e (ground arith, (validate_listen_sockets_iff s.sites).0 (seen, e))
    | inr (x, e) ↦ rw e (ground (arith, panics-validate s.sites))
  ]

  runs-well_formed :
      (r : Parsed State) → kept r ≡ true → (s : State) → r ≡ ok s → well_formed s ≡ true
  unfolding kept
  runs-well_formed (ok t) h s e = cc (h, e)
  runs-well_formed (err x) h s e = cc

  stops-panic :
      (r : Parsed State) → kept r ≡ true → (x : ParseError) → r ≡ err x → is_panic x ≡ false
  unfolding kept
  stops-panic (ok t) h x e = cc
  stops-panic (err y) h x e = ground (arith, h, e)

  initial-well_formed : well_formed initial ≡ true
  unfolding well_formed keyed
  initial-well_formed = refl

  -- On every input, the parser returns a configuration whose sites have distinct keys, each its own
  -- address, have listen addresses and agree on their sockets, or it returns an error; none of its
  -- calls of `expect` fails.
  pub from_str-Valid : (content : Text) → Valid (from_str content)
  unfolding from_str
  from_str-Valid content =
      let fine = run_lines-kept (lines content) 0 initial initial-well_formed in
      elim (Result-cases (run_lines (lines content) 0 initial)) [
        | inl (s, e) ↦ rw (e, from_str) (checked-Valid s (runs-well_formed _ fine s e))
        | inr (x, e) ↦ rw (e, from_str) (stops-panic _ fine x e)
      ]
