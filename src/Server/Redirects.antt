-- ===== src/Server/Redirects.antt =====
-- The redirects from HTTP to HTTPS that `start_all` runs.
use mathlib.Core.List.{Memᴰ}
use mathlib.Core.List.Memᴰ.{
  append_cases, append_left, append_right, cases_cons, eq_of_singleton, not-nil,
}
use mathlib.Core.Path.{subst}
use tiny_proxy.Base.{
  ==_iff, Bool, Bool-cases, List, Option, [], and_parts, inl, inr, refl, sym, ℕ, ◌&&◌, ◌==◌, ◌↔◌,
  ◌∷◌, ◌≡◌, ◌⊎◌,
}
use tiny_proxy.Base.Result.{ok}
use tiny_proxy.Config.Address.{SocketAddr}
use tiny_proxy.Config.Models.{Config, TlsConfig}
use tiny_proxy.Config.Sockets.{addr_eq}
use tiny_proxy.Config.Sockets.Steps.{addr_eq_iff}
use tiny_proxy.Http.{Codec}
use tiny_proxy.Proxy.Tls.{SniCertResolver}
use tiny_proxy.Server.{
  Groups, Listener, Started, http, http_redirect, https, insert_redirect, redirect_of_port,
  redirect_tasks, spawn, start_all, start_groups,
}
use tiny_proxy.Server.Coverage.{start_group_shape}
use tiny_proxy.Server.Steps.{start_all_steps, start_groups_steps}

insert_redirect-cases :
    (q r : SocketAddr × ℕ) (redirects : List (SocketAddr × ℕ))
    → Memᴰ q (insert_redirect r redirects)
    → (q ≡ r) ⊎ Memᴰ q redirects
unfolding insert_redirect
insert_redirect-cases q r [] m = inl (eq_of_singleton m)
insert_redirect-cases q r (p ∷ more) m = elim (Bool-cases (addr_eq p.0 r.0 && p.1 == r.1)) [
  | inl same ↦ inr (rw (same, insert_redirect) at m)
  | inr other ↦ elim (cases_cons (rw (other, insert_redirect) at m)) [
    | inl e ↦ inr (Memᴰ.head e)
    | inr t ↦ elim (insert_redirect-cases q r more t) [ inl e ↦ inl e | inr u ↦ inr (Memᴰ.tail u) ]
  ]
]

insert_redirect-kept :
    (q r : SocketAddr × ℕ) (redirects : List (SocketAddr × ℕ))
    → (q ≡ r) ⊎ Memᴰ q redirects
    → Memᴰ q (insert_redirect r redirects)
unfolding insert_redirect
insert_redirect-kept q r [] (inl e) = Memᴰ.head e
insert_redirect-kept q r (p ∷ more) h = elim (Bool-cases (addr_eq p.0 r.0 && p.1 == r.1)) [
  | inl same ↦
      let (ip, port) = and_parts (addr_eq p.0 r.0) (p.1 == r.1) same in
      rw same (elim h [
        | inl e ↦ Memᴰ.head (cc (e, (addr_eq_iff p.0 r.0).0 ip, (==_iff p.1 r.1).0 port))
        | inr m ↦ m
      ])
  | inr other ↦ rw other (elim h [
    | inl e ↦ Memᴰ.tail (insert_redirect-kept q r more (inl e))
    | inr m ↦ elim (cases_cons m) [
      | inl e ↦ Memᴰ.head e
      | inr t ↦ Memᴰ.tail (insert_redirect-kept q r more (inr t))
    ]
  ])
]
insert_redirect-kept q r [] (inr m) = Memᴰ.tail m

-- A listener for TLS stands in a list, with this redirect.
abbrev pub HasSource : {K : Type 0} → SocketAddr × ℕ → List (Listener K) → Type 0
HasSource {K} q listeners =
    (a : SocketAddr) × (r : SniCertResolver K) × Memᴰ (https a r) listeners
    × (q ≡ redirect_of_port a)

-- The variables of the second loop: the redirects are those of the listeners.
abbrev pub Matched : {K : Type 0} → Started K → Type 0
Matched s = (q : SocketAddr × ℕ) → Memᴰ q s.tls_redirects ↔ HasSource q s.handles

plain-source :
    {K : Type 0} (q : SocketAddr × ℕ) (b : SocketAddr) (listeners : List (Listener K))
    → HasSource q (http b ∷ listeners)
    → HasSource q listeners
plain-source q b listeners (a, r, m, e) = elim (cases_cons m) [
  | inl same ↦ cc
  | inr t ↦ (a, r, t, e)
]

spawn-Matched-https :
    {K : Type 0} (a : SocketAddr) (r : SniCertResolver K) (s : Started K)
    → Matched s
    → Matched (spawn (https a r) s)
unfolding spawn
spawn-Matched-https a r s h q = (
  λ m. elim (insert_redirect-cases q (redirect_of_port a) s.tls_redirects m) [
    | inl e ↦ (a, r, Memᴰ.head refl, e)
    | inr t ↦ let (b, k, found, e) = (h q).0 t in (b, k, Memᴰ.tail found, e)
  ],
  λ (b, k, m, e).
      insert_redirect-kept q (redirect_of_port a) s.tls_redirects (elim (cases_cons m) [
        | inl same ↦ inl (cc (e, same))
        | inr t ↦ inr ((h q).1 (b, k, t, e))
      ]),
)

spawn-Matched-http :
    {K : Type 0} (a : SocketAddr) (s : Started K) → Matched s → Matched (spawn (http a) s)
unfolding spawn
spawn-Matched-http a s h q = (
  λ m. let (b, k, found, e) = (h q).0 m in (b, k, Memᴰ.tail found, e),
  λ source. (h q).1 (plain-source q a s.handles source),
)

-- The listeners of the second loop are no redirects.
abbrev pub NoRedirect : {K : Type 0} → List (Listener K) → Type 0
NoRedirect listeners = (b : SocketAddr) (p : ℕ) → ¬ Memᴰ (http_redirect b p) listeners

redirect_tasks-of :
    {K : Type 0} (b : SocketAddr) (p : ℕ) (redirects : List (SocketAddr × ℕ))
    → Memᴰ {A = Listener K} (http_redirect b p) (redirect_tasks redirects) ↔ Memᴰ (b, p) redirects
unfolding redirect_tasks
redirect_tasks-of b p [] = (λ m. absurd (not-nil m), λ m. absurd (not-nil m))
redirect_tasks-of {K = K} b p ((a, port) ∷ more) =
    let rest = redirect_tasks-of {K = K} b p more in
    (
      λ m. elim (cases_cons m) [ inl e ↦ Memᴰ.head (cc e) | inr t ↦ Memᴰ.tail (rest.0 t) ],
      λ m. elim (cases_cons m) [ inl e ↦ Memᴰ.head (cc e) | inr t ↦ Memᴰ.tail (rest.1 t) ],
    )

no_https_task :
    {K : Type 0} (a : SocketAddr) (r : SniCertResolver K) (redirects : List (SocketAddr × ℕ))
    → ¬ Memᴰ (https a r) (redirect_tasks redirects)
unfolding redirect_tasks
no_https_task a r [] m = not-nil m
no_https_task a r ((b, p) ∷ more) m = elim (cases_cons m) [
  | inl e ↦ cc
  | inr t ↦ no_https_task a r more t
]

http-NoRedirect :
    {K : Type 0} (a : SocketAddr) (s : Started K)
    → NoRedirect s.handles
    → NoRedirect (spawn (http a) s).handles
unfolding spawn
http-NoRedirect a s h b p m = elim (cases_cons m) [ inl e ↦ cc | inr t ↦ h b p t ]

https-NoRedirect :
    {K : Type 0} (a : SocketAddr) (r : SniCertResolver K) (s : Started K)
    → NoRedirect s.handles
    → NoRedirect (spawn (https a r) s).handles
unfolding spawn
https-NoRedirect a r s h b p m = elim (cases_cons m) [ inl e ↦ cc | inr t ↦ h b p t ]

module _ {K : Type 0} (load : TlsConfig → Option K) (tls_feature : Bool) where
  start_groups-Matched :
      (groups : Groups) (started : Started K)
      → start_groups load tls_feature groups ≡ ok started
      → Matched started × NoRedirect started.handles
  unfolding start_groups
  start_groups-Matched [] started e =
      let same : record { handles = []; tls_redirects = [] } ≡ started = cc e in
      subst (λ (x : Started K). Matched x × NoRedirect x.handles) same
        (λ q. (λ m. absurd (not-nil m), λ (a, r, m, e). absurd (not-nil m)), λ b p m. not-nil m)
  start_groups-Matched ((a, sites) ∷ groups) started e =
      let (l, rest, up, rest_up, same) =
        start_groups_steps load tls_feature a sites groups started e in
      let (matched, real) = start_groups-Matched groups rest rest_up in
      subst (λ (x : Started K). Matched x × NoRedirect x.handles) same
        (elim (start_group_shape load tls_feature a sites l up) [
          | inl (plain, _) ↦
              subst (λ x. Matched (spawn x rest) × NoRedirect (spawn x rest).handles) (sym plain)
                (spawn-Matched-http a rest matched, http-NoRedirect a rest real)
          | inr (r, secure, _) ↦
              subst (λ x. Matched (spawn x rest) × NoRedirect (spawn x rest).handles) (sym secure)
                (spawn-Matched-https a r rest matched, https-NoRedirect a r rest real)
        ])

  module _ ⦃c : Codec⦄ where
    -- Whenever `start_all` succeeds, it runs a redirect exactly for each listener with TLS: on the
    -- same IP address, at the port that belongs to the port of the listener, to that port.
    pub start_all-redirect_iff :
        (config : Config) (tasks : List (Listener K)) (b : SocketAddr) (p : ℕ)
        → start_all load tls_feature config ≡ ok tasks
        → Memᴰ (http_redirect b p) tasks ↔ HasSource (b, p) tasks
    unfolding start_all
    start_all-redirect_iff config tasks b p e =
        let (groups, started, grouped, up, same) =
          start_all_steps load tls_feature config tasks e in
        let (matched, real) = start_groups-Matched groups started up in
        let rows = redirect_tasks-of b p started.tls_redirects in
        subst (λ x. Memᴰ (http_redirect b p) x ↔ HasSource (b, p) x) same
          (
            λ m. elim (append_cases started.handles m) [
              | inl t ↦ absurd (real b p t)
              | inr t ↦
                  let (a, r, found, f) = (matched (b, p)).0 (rows.0 t) in
                  (a, r, append_left _ found, f)
            ],
            λ (a, r, m, f). elim (append_cases started.handles m) [
              | inl t ↦ append_right started.handles (rows.1 ((matched (b, p)).1 (a, r, t, f)))
              | inr t ↦ absurd (no_https_task a r started.tls_redirects t)
            ],
          )
