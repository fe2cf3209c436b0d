-- ===== src/Proxy/RequestId.antt =====
-- Request IDs, src/proxy/access_log.rs.
use mathlib.Core.Option
use tiny_proxy.Base.{none, some}
use tiny_proxy.Base.Text.{Text, codes}
use tiny_proxy.Http.{HeaderName, Headers, Codec, insert, get_str}

abbrev pub request_id_name : HeaderName
request_id_name = codes "x-request-id"

module _ {M : Type 0} ⦃h : Headers M⦄ ⦃c : Codec⦄ where
  -- The ID, and the headers with it. The first argument is the UUID made if there is none.
  unfoldable pub ensure_request_id : Text → M → Text × M
  ensure_request_id uuid m = elim (get_str m request_id_name) [
    | some id ↦ (id, m)
    | none ↦ (uuid, elim (c.value_from_str uuid) [ none ↦ m | some v ↦ insert m request_id_name v ])
  ]

  unfoldable pub final_request_id : M → Text → Text
  final_request_id m fallback = Option.get_or (get_str m request_id_name) fallback
