-- ===== src/Proxy/Sites/Hosts.antt =====
-- The port of a `Host` header, as src/proxy/handler.rs finds it.
use mathlib.Core.List.{append_assoc, reverse-append, reverse-reverse}
use mathlib.Core.Path.{subst}
use tiny_proxy.Base.{
  ==_iff, Bool-cases, [], ap, arith, false, inl, inr, none, refl, reverse, some, sym, true, ℕ, ◌++◌,
  ◌==◌, ◌||◌, ◌∙◌, ◌∷◌, ◌≡◌,
}
use tiny_proxy.Base.Text.{
  Text, codes, contains_char, rsplit_once, split_once, starts_with, strip_prefix as strip_prefix_of,
}
use tiny_proxy.Proxy.Sites.{has_port, strip_port}

-- What a host with a port is made of. Without brackets, the name ends at the last colon; with a
-- bracket in front, it is what stands before the first closing one, and a colon comes behind that.
pub data Ported (host name : Text) : Type 0 where
  plain :
      (port : Text)
      → starts_with host (codes "[") ≡ false
      → contains_char b':' port ≡ false
      → host ≡ name ++ (b':' ∷ port)
      → Ported host name
  bracketed :
      (rest : Text)
      → contains_char b']' name ≡ false
      → contains_char b':' rest ≡ true
      → host ≡ b'[' ∷ (name ++ (b']' ∷ rest))
      → Ported host name

contains_char-append :
    (d : ℕ) (x y : Text) → contains_char d (x ++ y) ≡ (contains_char d x || contains_char d y)
contains_char-append d [] y = refl
contains_char-append d (c ∷ x) y = ground (arith, contains_char-append d x y)

reverse_cons : (c : ℕ) (s : Text) → reverse (c ∷ s) ≡ reverse s ++ (c ∷ [])
reverse_cons c s = reverse-append (c ∷ []) s

contains_char-reverse : (d : ℕ) (s : Text) → contains_char d (reverse s) ≡ contains_char d s
contains_char-reverse d [] = refl
contains_char-reverse d (c ∷ s) =
    ap (contains_char d) (reverse_cons c s)
    ∙ contains_char-append d (reverse s) (c ∷ [])
    ∙ ground (arith, contains_char-reverse d s)

split_once_at :
    (d : ℕ) (x y : Text) → contains_char d x ≡ false → split_once d (x ++ (d ∷ y)) ≡ some (x, y)
unfolding split_once
split_once_at d [] y e = ground (arith, ==_iff d d)
split_once_at d (c ∷ x) y e = ground (arith, split_once_at d x y)

-- Where a character is there, a text is split at the first.
split_once_there :
    (d : ℕ) (s : Text)
    → contains_char d s ≡ true
    → (x : Text) × (y : Text) × (contains_char d x ≡ false) × (s ≡ x ++ (d ∷ y))
split_once_there d [] e = cc
split_once_there d (c ∷ s) e = elim (Bool-cases (c == d)) [
  | inl hit ↦ ([], s, refl, ground (arith, ==_iff c d))
  | inr miss ↦
      let (x, y, free, whole) = split_once_there d s (ground arith) in
      (c ∷ x, y, ground arith, ap (λ t. c ∷ t) whole)
]

reverse_around : (d : ℕ) (x y : Text) → reverse (x ++ (d ∷ y)) ≡ reverse y ++ (d ∷ reverse x)
reverse_around d x y =
    reverse-append x (d ∷ y)
    ∙ ap (λ t. t ++ reverse x) (reverse_cons d y)
    ∙ append_assoc (reverse y) (d ∷ []) (reverse x)

rsplit_once_at :
    (d : ℕ) (x y : Text) → contains_char d y ≡ false → rsplit_once d (x ++ (d ∷ y)) ≡ some (x, y)
unfolding rsplit_once
rsplit_once_at d x y e =
    rw
      (
        reverse_around d x y,
        split_once_at d (reverse y) (reverse x) (contains_char-reverse d y ∙ e),
        reverse-reverse x,
        reverse-reverse y,
      )
      refl

-- Where a character is there, a text has a last one.
rsplit_once_there :
    (d : ℕ) (s : Text)
    → contains_char d s ≡ true
    → (x : Text) × (y : Text) × (contains_char d y ≡ false) × (s ≡ x ++ (d ∷ y))
rsplit_once_there d s e =
    let (x, y, free, whole) = split_once_there d (reverse s) (contains_char-reverse d s ∙ e) in
    (
      reverse y,
      reverse x,
      contains_char-reverse d x ∙ free,
      sym (reverse-reverse s) ∙ ap reverse whole ∙ reverse_around d x y,
    )

split_once_absent : (d : ℕ) (s : Text) → contains_char d s ≡ false → split_once d s ≡ none
unfolding split_once
split_once_absent d [] e = refl
split_once_absent d (c ∷ s) e = ground (arith, split_once_absent d s)

has_port_closed :
    (x y : Text)
    → contains_char b']' x ≡ false
    → has_port (b'[' ∷ (x ++ (b']' ∷ y))) ≡ contains_char b':' y
unfolding has_port strip_prefix_of
has_port_closed x y e = rw (split_once_at b']' (b'[' ∷ x) y e) refl

has_port_open : (s : Text) → contains_char b']' s ≡ false → has_port (b'[' ∷ s) ≡ false
unfolding has_port strip_prefix_of
has_port_open s e = rw (split_once_absent b']' (b'[' ∷ s) e) refl

strip_port_closed :
    (x y : Text) → contains_char b']' x ≡ false → strip_port (b'[' ∷ (x ++ (b']' ∷ y))) ≡ x
unfolding strip_port strip_prefix_of
strip_port_closed x y e = rw (split_once_at b']' x y e) refl

has_port_plain :
    (host : Text) → starts_with host (codes "[") ≡ false → has_port host ≡ contains_char b':' host
unfolding has_port
has_port_plain host e = rw e refl

strip_port_plain :
    (host name port : Text)
    → starts_with host (codes "[") ≡ false
    → contains_char b':' port ≡ false
    → host ≡ name ++ (b':' ∷ port)
    → strip_port host ≡ name
unfolding strip_port
strip_port_plain [] name port e f g =
    ground (arith, ap (contains_char b':') g, contains_char-append b':' name (b':' ∷ port))
strip_port_plain (c ∷ host) name port e f g =
    let cut = ap (rsplit_once b':') g ∙ rsplit_once_at b':' name port f in rw (e, cut) refl

bracket_in_front :
    (host : Text) → starts_with host (codes "[") ≡ true → (s : Text) × (host ≡ b'[' ∷ s)
unfolding strip_prefix_of
bracket_in_front [] e = cc
bracket_in_front (c ∷ s) e = (s, ground (arith, ==_iff c b'['))

-- The test of the code says that a host has a port, and then its name is the one that is found.
pub has_port-Ported : (host : Text) → has_port host ≡ true → Ported host (strip_port host)
has_port-Ported host e = elim (Bool-cases (starts_with host (codes "["))) [
  | inr free ↦
      let (name, port, bare, whole) =
        rsplit_once_there b':' host (sym (has_port_plain host free) ∙ e) in
      plain port free bare (
        whole
        ∙ ap (λ t. t ++ (b':' ∷ port)) (sym (strip_port_plain host name port free bare whole)))
  | inl front ↦
      let (s, same) = bracket_in_front host front in
      elim (Bool-cases (contains_char b']' s)) [
        | inr no_end ↦ cc (ap has_port same, has_port_open s no_end)
        | inl closes ↦
            let (x, y, bare, whole) = split_once_there b']' s closes in
            let all_of = same ∙ ap (λ t. b'[' ∷ t) whole in
            let named = ap strip_port all_of ∙ strip_port_closed x y bare in
            subst (Ported host) (sym named)
              (bracketed y bare (sym (ap has_port all_of ∙ has_port_closed x y bare) ∙ e) all_of)
      ]
]

-- A host with a port is seen as one, with its name.
pub Ported-has_port :
    (host name : Text) → Ported host name → (has_port host ≡ true) × (strip_port host ≡ name)
Ported-has_port host name (plain port free bare whole) = (
  has_port_plain host free
      ∙ ap (contains_char b':') whole
      ∙ contains_char-append b':' name (b':' ∷ port)
      ∙ ground arith,
  strip_port_plain host name port free bare whole,
)
Ported-has_port host name (bracketed rest bare colon whole) = (
  ap has_port whole ∙ has_port_closed name rest bare ∙ colon,
  ap strip_port whole ∙ strip_port_closed name rest bare,
)
