-- ===== src/Wasm/Host/Urls.antt =====
-- Which addresses a skill may fetch.
use mathlib.Core.Path.{subst}
use athena_voice.Base.{
  sym, ◌≡◌, refl, ◌∙◌, ◌⊎◌, inl, inr, Bool, true, ◌||◌, Option, none, some, List, [], ◌∷◌, Result,
  ok, err, Bool-cases, any, ◌↔◌, arith,
}
use athena_voice.Text.{Text, codes, text_eq}
use athena_voice.Text.Split.{text_eq_iff, text_eq_refl, eq_of_text_eq}
use athena_voice.Wasm.Host.{
  UrlLib, HostFnError, http_bad_scheme, http_host_not_allowed, http_url_allowed, url_allowed,
  host_allowed,
}

abbrev pub IsListed : List Text → Text → Type 0
IsListed [] host = ⊥
IsListed (h ∷ hs) host = (h ≡ host) ⊎ IsListed hs host

IsListed-of_any :
    (hs : List Text) (host : Text) → any (λ h. text_eq h host) hs ≡ true → IsListed hs host
IsListed-of_any [] host e = cc
IsListed-of_any (h ∷ hs) host e = elim (Bool-cases (text_eq h host)) [
  | inl hit ↦ inl (eq_of_text_eq h host hit)
  | inr miss ↦ inr (IsListed-of_any hs host (ground arith))
]

any_of_IsListed :
    (hs : List Text) (host : Text) → IsListed hs host → any (λ h. text_eq h host) hs ≡ true
any_of_IsListed [] host l = elim l [ ]
any_of_IsListed (h ∷ hs) host (inl e) =
    let hit : text_eq h host ≡ true = (text_eq_iff h host).1 e in rw hit refl
any_of_IsListed (h ∷ hs) host (inr l) = let rest = any_of_IsListed hs host l in ground arith

module _ (lib : UrlLib) where
  -- What lets an address pass.
  abbrev pub IsReachable : List Text → Text → lib.Url → Type 0
  IsReachable allowlist text url =
      (lib.parse text ≡ some url)
      × (((lib.scheme url ≡ codes "http") ⊎ (lib.scheme url ≡ codes "https"))
          × ((host : Text) × ((lib.host_str url ≡ some host) × IsListed allowlist host)))

  abbrev allowed_url : lib.Url → Result lib.Url HostFnError
  allowed_url url = ok url

  abbrev refused_url : HostFnError → Result lib.Url HostFnError
  refused_url e = err e

  host_allowed-ok :
      (allowlist : List Text) (url url' : lib.Url) (o : Option Text)
      → lib.host_str url ≡ o
      → host_allowed lib allowlist url o ≡ ok url'
      → (url ≡ url') × ((host : Text) × ((lib.host_str url ≡ some host) × IsListed allowlist host))
  unfolding host_allowed
  host_allowed-ok allowlist url url' none at h = cc
  host_allowed-ok allowlist url url' (some host) at h =
      elim (Bool-cases (any (λ x. text_eq x host) allowlist)) [
        | inl listed ↦
            let same : allowed_url url ≡ ok url' = sym (rw listed refl) ∙ h in
            (cc, (host, (at, IsListed-of_any allowlist host listed)))
        | inr foreign ↦
            let other : refused_url (http_host_not_allowed host) ≡ ok url' =
              sym (rw foreign refl) ∙ h in
            cc
      ]

  host_allowed-listed :
      (allowlist : List Text) (url : lib.Url) (host : Text)
      → lib.host_str url ≡ some host
      → IsListed allowlist host
      → host_allowed lib allowlist url (lib.host_str url) ≡ ok url
  unfolding host_allowed
  host_allowed-listed allowlist url host at l = rw (at, any_of_IsListed allowlist host l) refl

  abbrev speaks_http : lib.Url → Bool
  speaks_http url =
      text_eq (lib.scheme url) (codes "http") || text_eq (lib.scheme url) (codes "https")

  scheme_of_speaks :
      (url : lib.Url)
      → speaks_http url ≡ true
      → (lib.scheme url ≡ codes "http") ⊎ (lib.scheme url ≡ codes "https")
  scheme_of_speaks url h = elim (Bool-cases (text_eq (lib.scheme url) (codes "http"))) [
    | inl hit ↦ inl (eq_of_text_eq (lib.scheme url) (codes "http") hit)
    | inr miss ↦ inr (eq_of_text_eq (lib.scheme url) (codes "https") (ground arith))
  ]

  speaks_of_scheme :
      (url : lib.Url)
      → (lib.scheme url ≡ codes "http") ⊎ (lib.scheme url ≡ codes "https")
      → speaks_http url ≡ true
  speaks_of_scheme url (inl e) = rw (e, text_eq_refl (codes "http")) refl
  speaks_of_scheme url (inr e) =
      let hit : text_eq (lib.scheme url) (codes "https") ≡ true =
        (text_eq_iff (lib.scheme url) (codes "https")).1 e in
      ground arith

  -- An address passes the check exactly if it parses, its scheme is `http` or `https`, and its host is, letter
  -- for letter, on the list of the skill; and then the check gives the address that was parsed. The request, and
  -- where it is redirected to, are outside of it.
  pub http_url_allowed_iff :
      (allowlist : List Text) (text : Text) (url : lib.Url)
      → (http_url_allowed lib allowlist text ≡ ok url) ↔ IsReachable allowlist text url
  unfolding http_url_allowed url_allowed
  http_url_allowed_iff allowlist text url = (passes (lib.parse text) refl, reachable)
    where
      passes :
          (o : Option lib.Url)
          → lib.parse text ≡ o
          → url_allowed lib allowlist o ≡ ok url
          → IsReachable allowlist text url
      passes none at h = cc
      passes (some url') at h = elim (Bool-cases (speaks_http url')) [
        | inr other ↦
            let refused : refused_url (http_bad_scheme (lib.scheme url')) ≡ ok url =
              sym (rw other refl) ∙ h in
            cc
        | inl fine ↦
            let (same, hosted) =
              host_allowed-ok allowlist url' url (lib.host_str url') refl
                (sym (rw fine refl) ∙ h) in
            subst (IsReachable allowlist text) same (at, (scheme_of_speaks url' fine, hosted))
      ]

      reachable :
          IsReachable allowlist text url → url_allowed lib allowlist (lib.parse text) ≡ ok url
      reachable (parsed, (scheme, (host, (at, l)))) =
          rw (parsed, speaks_of_scheme url scheme) (host_allowed-listed allowlist url host at l)
