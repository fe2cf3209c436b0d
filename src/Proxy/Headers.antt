-- ===== src/Proxy/Headers.antt =====
-- `handle_header`, `apply_header_up` and `handle_method` of src/proxy/directives.rs.
use tiny_proxy.Base.{ℕ, ◌+◌, Bool, Option, none, some, List, [], ◌∷◌, any}
use tiny_proxy.Base.Text.{Text, eq_ignore_ascii_case}
use tiny_proxy.Http.{insert_value, HeaderName, Headers, Codec, remove}
use tiny_proxy.Config.Models.{HeaderDirective}
use tiny_proxy.Proxy.Substitution.{
  Substituted, replaced, unclosed, diverges, process_header_substitution,
  process_upstream_substitution,
}
use tiny_proxy.Proxy.State.{World}

module _ {M : Type 0} ⦃h : Headers M⦄ ⦃c : Codec⦄ where
  -- The value for a substituted text, put into the headers; an invalid value changes nothing.
  unfoldable pub put : M → HeaderName → Text → M
  put m n s = insert_value n (c.value_from_str s) m

  unfoldable pub put_substituted : M → HeaderName → Substituted → Option M
  put_substituted m n (replaced s) = some (put m n s)
  put_substituted m n unclosed = some m
  put_substituted m n diverges = none

  -- `handle_header` as `process_directives` calls it, where an error is logged and leaves the
  -- request as it is. `none` if the substitution does not end.
  unfoldable pub handle_header : World M → ℕ → Text → Option Text → M → Option M
  handle_header w k name value m = elim (c.name_from_bytes name) [
    | none ↦ some m
    | some n ↦ elim value [
      | none ↦ some (remove m n)
      | some val ↦ put_substituted m n (process_header_substitution w.env (w.uuid k) w.fuel val m)
    ]
  ]

  -- One round of `apply_header_up`.
  unfoldable pub header_up_step : World M → ℕ → HeaderDirective → Text → Text → Text → M → Option M
  header_up_step w k d upstream_host request_uri remote_ip m = elim (c.name_from_bytes d.name) [
    | none ↦ some m
    | some n ↦ elim d.value [
      | none ↦ some (remove m n)
      | some val ↦ put_substituted m n (
          process_upstream_substitution w.env (w.uuid k) w.fuel val m upstream_host request_uri
            remote_ip)
    ]
  ]

  unfoldable pub apply_header_up :
      World M → ℕ → List HeaderDirective → Text → Text → Text → M → Option M
  apply_header_up w k [] upstream_host request_uri remote_ip m = some m
  apply_header_up w k (d ∷ ds) upstream_host request_uri remote_ip m =
      elim (header_up_step w k d upstream_host request_uri remote_ip m) [
        | none ↦ none
        | some m' ↦ apply_header_up w (k + 1) ds upstream_host request_uri remote_ip m'
      ]

unfoldable pub handle_method : List Text → Text → Bool
handle_method methods name = any (λ m. eq_ignore_ascii_case m name) methods
