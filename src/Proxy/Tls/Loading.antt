-- ===== src/Proxy/Tls/Loading.antt =====
-- Certificate chains and private keys, src/proxy/tls.rs. Opening a file, the PEM format, and the
-- kinds of keys that can sign are parameters.
use tiny_proxy.Base.{Bool-cases, List, Option, false, if◌then◌else◌, inl, inr, is_empty, ◌≡◌}
use tiny_proxy.Base.Result.{
  Gives, Gives-any, Gives-bind, Result, Result-cases, err, gives, map_err, ok, ok_or, stops, ◌>>=◌,
}
use tiny_proxy.Base.Text.{Text}
use tiny_proxy.Config.Models.{TlsConfig}

pub data LoadError : Type 0 where
  io_failed : Text → LoadError
  no_certificates : Text → LoadError
  no_private_key : Text → LoadError
  unsupported_key : Text → Text → Text → LoadError

module _ {File : Type 0} (open_file : Text → Result Text File) where
  unfoldable pub load_certs {ℓ} :
      {Cert : Type ℓ} → (File → Result Text (List Cert)) → Text → Result LoadError (List Cert)
  load_certs pem_certs path = do
    file ← map_err io_failed (open_file path)
    certs ← map_err io_failed (pem_certs file)
    if is_empty certs then err (no_certificates path) else ok certs

  unfoldable pub load_key {ℓ} :
      {Key : Type ℓ} → (File → Result Text (Option Key)) → Text → Result LoadError Key
  load_key pem_private_key path = do
    file ← map_err io_failed (open_file path)
    key ← map_err io_failed (pem_private_key file)
    ok_or key (no_private_key path)

  load_certs-not_empty {ℓ} :
      {Cert : Type ℓ} (pem_certs : File → Result Text (List Cert)) (path : Text)
      → Gives (λ certs. is_empty certs ≡ false) (load_certs pem_certs path)
  unfolding load_certs
  load_certs-not_empty pem_certs path = elim (Result-cases (open_file path)) [
    | inr (e, shut) ↦ rw shut (stops _)
    | inl (file, opens) ↦ elim (Result-cases (pem_certs file)) [
      | inr (e, bad) ↦ rw (opens, bad) (stops _)
      | inl (certs, good) ↦ elim (Bool-cases (is_empty certs)) [
        | inl nothing ↦ rw (opens, good, nothing) (stops _)
        | inr has ↦ rw (opens, good, has) (gives certs has)
      ]
    ]
  ]

  module _ {Cert Key Signing : Type 0} (pem_certs : File → Result Text (List Cert))
      (pem_private_key : File → Result Text (Option Key))
      (any_supported_type : Key → Result Text Signing) where
    -- The `CertifiedKey` of a site, as the loop of `build_tls_acceptor` makes it.
    unfoldable pub load_pair : Text → TlsConfig → Result LoadError (List Cert × Signing)
    load_pair hostname cfg = do
      certs ← load_certs pem_certs cfg.cert_path
      key ← load_key pem_private_key cfg.key_path
      signing ← map_err (unsupported_key cfg.key_path hostname) (any_supported_type key)
      ok (certs, signing)

    -- A key pair that is loaded has a certificate.
    pub load_pair-not_empty :
        (hostname : Text) (cfg : TlsConfig)
        → Gives (λ pair. is_empty pair.0 ≡ false) (load_pair hostname cfg)
    unfolding load_pair
    load_pair-not_empty hostname cfg =
        Gives-bind (load_certs-not_empty pem_certs cfg.cert_path) λ certs has.
          Gives-bind (Gives-any (load_key pem_private_key cfg.key_path)) λ key _.
            Gives-bind
              (Gives-any (map_err (unsupported_key cfg.key_path hostname) (any_supported_type key)))
              λ signing _. gives (certs, signing) has
