-- ===== src/TagWatch/Fetch.antt =====
-- The exchange with a registry that asks for a token, and the digest of a tag
-- (credentialsFor, fetchWithRegistryAuth and resolveTagDigest of
-- apps/backend/src/modules/worker/jobs/registry-tag-watch/registry.ts). `server` gives the response to a
-- request, or none if it fails.
use kubwave.Common.{
  Bool, true, false, not, ◌&&◌, ◌||◌, Option, none, some, [], ◌∷◌, ◌++◌, ◌==◌, leb, if◌then◌else◌,
  or_else,
}
use mathlib.Core.Option
use kubwave.Common.Units.{Units, units, is_blank, same_units, after_word}
use kubwave.Domains.Hosts.{is_digit}
use kubwave.TagWatch.Client.{
  ParsedImageRef, hub_host, Credentials, RegistryAuth, basic, bearer, Request, Response, Url,
  ClientTexts, filled_value, attribute, is_https, is_trusted, Fetched, response, failure, Sent,
  scheme_for, normalize_registry_server,
}

-- `replace(/^https?:\/\//, '')`
abbrev pub strip_scheme : Units → Units
strip_scheme s = elim (after_word (units "https://") s) [
  | some rest ↦ rest
  | none ↦ or_else (after_word (units "http://") s) s
]

-- `\d+\/?$`, after the first digit.
abbrev pub is_version_end : Units → Bool
is_version_end [] = true
is_version_end (c ∷ s) = c == 47 && is_blank s || is_digit c && is_version_end s

abbrev pub is_version : Option Units → Bool
is_version none = false
is_version (some []) = false
is_version (some (c ∷ s)) = is_digit c && is_version_end s

-- `replace(/\/v\d+\/?$/, '')`
abbrev pub strip_version : Units → Units
strip_version [] = []
strip_version (c ∷ s) =
    let rest = c ∷ strip_version s in
    if is_version (after_word (units "/v") (c ∷ s)) then [] else rest

abbrev pub is_ok : Response → Bool
is_ok res = leb 200 res.status && leb res.status 299

module _ (texts : ClientTexts) where
  unfoldable pub is_server_of : Units → RegistryAuth → Bool
  unfolding normalize_registry_server
  is_server_of host auth =
      let server =
        strip_version (strip_scheme (texts.lower (normalize_registry_server texts auth.server))) in
      same_units server (texts.lower host)
      || same_units server (units "index.docker.io") && same_units host hub_host
      || same_units server (units "docker.io") && same_units host hub_host

  abbrev pub credentials_for : Units → Option RegistryAuth → Option Credentials
  credentials_for host none = none
  credentials_for host (some auth) =
      if is_server_of host auth
      then some (record { username = auth.username; password = texts.decrypt auth.password })
      else none

  abbrev pub token_query : Units → Units → Units
  token_query repo challenge =
      let service = or_else (attribute (units "service=\"") challenge) [] in
      let scope =
        or_else (attribute (units "scope=\"") challenge)
          (units "repository:" ++ (repo ++ units ":pull")) in
      texts.encode service ++ (units "&scope=" ++ texts.encode scope)

  abbrev pub manifest_url : ParsedImageRef → Units
  manifest_url ref =
      scheme_for texts ref.host
      ++ (units "://"
          ++ (ref.host ++ (units "/v2/" ++ (ref.repo ++ (units "/manifests/" ++ ref.tag)))))

  module _ (server : Request → Option Response) where
    abbrev pub send : Request → Fetched
    send r = elim (server r) [ none ↦ failure | some res ↦ response res ]

    -- With the token, once more.
    abbrev pub with_token : Request → Request → Response → Option Units → Sent
    with_token first token_request res none = (first ∷ token_request ∷ [], response res)
    with_token first token_request res (some token) =
        let last : Request = record { url = first.url; authorization = some (bearer token) } in
        (first ∷ token_request ∷ last ∷ [], send last)

    abbrev pub on_token : Request → Request → Fetched → Sent
    on_token first token_request failure = (first ∷ token_request ∷ [], failure)
    on_token first token_request (response res) =
        if is_ok res
        then with_token first token_request res (filled_value res.token)
        else (first ∷ token_request ∷ [], response res)

    abbrev pub ask_token : Request → Units → Units → Option Url → Option Url → Sent
    ask_token first realm query none v = (first ∷ [], failure)
    ask_token first realm query (some u) none = (first ∷ [], failure)
    ask_token first realm query (some u) (some v) =
        let token_request = record first { url = realm ++ (units "?service=" ++ query) } in
        if not (is_trusted u v) || is_https u && not (is_https v)
        then (first ∷ [], failure)
        else on_token first token_request (send token_request)

    abbrev pub on_realm : Request → Units → Response → Option Units → Sent
    on_realm first repo res none = (first ∷ [], response res)
    on_realm first repo res (some realm) =
        ask_token first realm (token_query repo (or_else res.challenge []))
          (texts.parse_url first.url) (texts.parse_url realm)

    abbrev pub on_first : Request → Units → Fetched → Sent
    on_first first repo failure = (first ∷ [], failure)
    on_first first repo (response res) =
        if res.status == 401
        then on_realm first repo res (attribute (units "realm=\"") (or_else res.challenge []))
        else (first ∷ [], response res)

    unfoldable pub fetch_with_registry_auth : Units → Units → Option Credentials → Sent
    fetch_with_registry_auth url repo credentials =
        let first : Request = record { url = url; authorization = Option.map basic credentials } in
        on_first first repo (send first)

    unfoldable pub resolve_requests : ParsedImageRef → Option RegistryAuth → Sent
    unfolding fetch_with_registry_auth
    resolve_requests ref auth =
        fetch_with_registry_auth (manifest_url ref) ref.repo (credentials_for ref.host auth)

    abbrev pub answered_digest : Response → Option (Option Units)
    answered_digest res =
        if res.status == 404
        then some none
        else if is_ok res
        then Option.map some (filled_value res.digest)
        else none

    -- None where it throws; no digest where the tag does not exist.
    unfoldable pub resolve_tag_digest : ParsedImageRef → Option RegistryAuth → Option (Option Units)
    unfolding resolve_requests
    resolve_tag_digest ref auth = elim (resolve_requests ref auth).1 [
      | failure ↦ none
      | response res ↦ answered_digest res
    ]
