-- ===== src/TagWatch/Credentials.antt =====
-- Where the stored credentials of a service are sent.
use kubwave.Common.{
  Bool, true, false, not, ◌≡◌, refl, ◌&&◌, ◌||◌, Option, none, some, [], ◌++◌, ◌==◌, inl, inr,
  arith, All, Bool-cases, or_else,
}
use mathlib.Core.Option
use kubwave.Common.Units.{Units, units, same_units}
use kubwave.GitPoll.RefLines.{same_units_refl}
use kubwave.TagWatch.Client.{
  ParsedImageRef, RegistryAuth, basic, bearer, Request, Response, Url, ClientTexts, attribute,
  is_https, is_trusted, Fetched, response, failure, Sent, filled_value,
}
use kubwave.TagWatch.Fetch.{
  is_ok, is_server_of, credentials_for, token_query, send, with_token, on_token, ask_token,
  on_realm, on_first, fetch_with_registry_auth, manifest_url, resolve_requests,
}

abbrev pub has_password : Request → Bool
has_password r = elim r.authorization [
  | none ↦ false
  | some a ↦ elim a [ basic c ↦ true | bearer t ↦ false ]
]

-- From a registry to the host of a request that can be sent: its own or a token host that it has, and
-- not from https to anything else.
abbrev pub reaches : Option Url → Option Url → Bool
reaches none v = false
reaches (some u) none = true
reaches (some u) (some v) = is_trusted u v && (not (is_https u) || is_https v)

abbrev pub is_meant_for : ClientTexts → Units → Option RegistryAuth → Bool
is_meant_for texts host none = false
is_meant_for texts host (some auth) = is_server_of texts host auth

-- A request with a password is for the server that it was stored for.
abbrev pub is_allowed : ClientTexts → ParsedImageRef → Option RegistryAuth → Request → Bool
is_allowed texts ref auth r =
    let url = manifest_url texts ref in
    not (has_password r)
    || is_meant_for texts ref.host auth
      && (same_units r.url url || reaches (texts.parse_url url) (texts.parse_url r.url))

-- A query leaves the protocol and the host of a URL as they are, where the URL still parses.
abbrev pub KeepsHost : ClientTexts → Type 0
KeepsHost texts =
    (realm query : Units) (u v : Url)
    → texts.parse_url realm ≡ some u
    → texts.parse_url (realm ++ (units "?service=" ++ query)) ≡ some v
    → (v.protocol ≡ u.protocol) × (v.hostname ≡ u.hostname)

module _ (texts : ClientTexts) (server : Request → Option Response) (ref : ParsedImageRef)
    (auth : Option RegistryAuth) (keeps : KeepsHost texts) where
  abbrev AllAllowed : Sent → Type 0
  AllAllowed sent = All (λ r. is_allowed texts ref auth r ≡ true) sent.0

  abbrev first : Request
  first = record {
    url = manifest_url texts ref;
    authorization = Option.map basic (credentials_for texts ref.host auth);
  }

  -- A request under the first one's authorization.
  same_password :
      (o : Option RegistryAuth) (url : Units)
      → same_units url (manifest_url texts ref)
          || reaches (texts.parse_url (manifest_url texts ref)) (texts.parse_url url)
        ≡ true
      → (not (
            has_password (record {
              url = url;
              authorization = Option.map basic (credentials_for texts ref.host o);
            }))
          || is_meant_for texts ref.host o
            && (same_units url (manifest_url texts ref)
                || reaches (texts.parse_url (manifest_url texts ref)) (texts.parse_url url)))
        ≡ true
  same_password none url h = refl
  same_password (some a) url h = elim (Bool-cases (is_server_of texts ref.host a)) [
    | inl e ↦ rw (e, h) refl
    | inr e ↦ rw e refl
  ]

  first-allowed : is_allowed texts ref auth first ≡ true
  first-allowed =
      same_password auth (manifest_url texts ref)
        (rw (same_units_refl (manifest_url texts ref)) refl)

  bearer-allowed :
      (url token : Units)
      → is_allowed texts ref auth (record { url = url; authorization = some (bearer token) }) ≡ true
  bearer-allowed url token = refl

  token_sent :
      (token_request : Request) (res : Response) (o : Option Units)
      → is_allowed texts ref auth token_request ≡ true
      → AllAllowed (with_token texts server first token_request res o)
  token_sent token_request res none h = (first-allowed, (h, tt))
  token_sent token_request res (some token) h = (first-allowed, (h, (refl, tt)))

  token_asked :
      (token_request : Request) (f : Fetched)
      → is_allowed texts ref auth token_request ≡ true
      → AllAllowed (on_token texts server first token_request f)
  token_asked token_request failure h = (first-allowed, (h, tt))
  token_asked token_request (response res) h = elim (Bool-cases (is_ok res)) [
    | inl e ↦ rw e (token_sent token_request res (filled_value res.token) h)
    | inr e ↦ rw e (first-allowed, (h, tt))
  ]

  -- The token request stays with the host of the realm, which was checked.
  realm_reached :
      (realm query : Units) (u v : Url) (o : Option Url)
      → texts.parse_url realm ≡ some v
      → texts.parse_url (realm ++ (units "?service=" ++ query)) ≡ o
      → (not (is_trusted u v) || is_https u && not (is_https v)) ≡ false
      → reaches (some u) o ≡ true
  realm_reached realm query u v none e f h = refl
  realm_reached realm query u v (some w) e f h =
      let (protocol, hostname) = keeps realm query v w e f in
      rw (protocol, hostname) (ground (arith, h))

  realm_asked :
      (realm query : Units) (o p : Option Url)
      → texts.parse_url (manifest_url texts ref) ≡ o
      → texts.parse_url realm ≡ p
      → AllAllowed (ask_token texts server first realm query o p)
  realm_asked realm query none p e f = (first-allowed, tt)
  realm_asked realm query (some u) none e f = (first-allowed, tt)
  realm_asked realm query (some u) (some v) e f =
      elim (Bool-cases (not (is_trusted u v) || is_https u && not (is_https v))) [
        | inl refused ↦ rw refused (first-allowed, tt)
        | inr checked ↦
            let url = realm ++ (units "?service=" ++ query) in
            let reached : reaches (texts.parse_url (manifest_url texts ref)) (texts.parse_url url)
                ≡ true =
              rw e (realm_reached realm query u v (texts.parse_url url) f refl checked) in
            rw checked (
              token_asked (record first { url = url })
                (send texts server (record first { url = url }))
                (same_password auth url (ground (arith, reached))))
      ]

  first_asked : (f : Fetched) → AllAllowed (on_first texts server first ref.repo f)
  first_asked failure = (first-allowed, tt)
  first_asked (response res) = elim (Bool-cases (res.status == 401)) [
    | inl e ↦ rw e (challenged (attribute (units "realm=\"") (or_else res.challenge [])))
    | inr e ↦ rw e (first-allowed, tt)
  ]
    where
      challenged : (o : Option Units) → AllAllowed (on_realm texts server first ref.repo res o)
      challenged none = (first-allowed, tt)
      challenged (some realm) =
          realm_asked realm (token_query texts ref.repo (or_else res.challenge []))
            (texts.parse_url (manifest_url texts ref)) (texts.parse_url realm) refl refl

-- Whatever the registry and the hosts that it names answer, a request with the stored password of a
-- service is sent only where the password was stored for the image's registry, and then only to the
-- address of the tag, or to a URL on the registry's own host or a token host that it is known to have,
-- by https if the registry is asked by https; where a query leaves the protocol and the host of a URL
-- as they are.
pub resolve_requests-allowed :
    (texts : ClientTexts) (server : Request → Option Response) (ref : ParsedImageRef)
    (auth : Option RegistryAuth)
    → KeepsHost texts
    → All (λ r. is_allowed texts ref auth r ≡ true) (resolve_requests texts server ref auth).0
unfolding resolve_requests fetch_with_registry_auth
resolve_requests-allowed texts server ref auth keeps =
    first_asked texts server ref auth keeps (send texts server (first texts server ref auth keeps))
