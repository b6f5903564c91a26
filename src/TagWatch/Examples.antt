-- ===== src/TagWatch/Examples.antt =====
-- A registry that asks for a token.
use kubwave.Common.{
  ◌≡◌, ◌∙◌, refl, sym, ap, ℕ, Bool, true, false, Option, none, some, [], ◌∷◌, ◌++◌, ◌==◌, inl, inr,
  if◌then◌else◌, All, Bool-cases, length, arith,
}
use kubwave.Common.Units.{Units, units, after_word, starts_with, trim}
use kubwave.TagWatch.Client.{
  ParsedImageRef, parse_image_ref, RegistryAuth, Request, Response, Url, ClientTexts, attribute,
  normalize_registry_server, scheme_for,
}
use kubwave.TagWatch.Fetch.{resolve_requests, fetch_with_registry_auth, is_server_of}
use kubwave.TagWatch.Credentials.{KeepsHost, is_allowed, resolve_requests-allowed}

-- What comes before the first unit of a kind.
abbrev before : ℕ → Units → Units
before d [] = []
before d (c ∷ s) = let rest = c ∷ before d s in if c == d then [] else rest

before-append : (s t : Units) → before 63 (s ++ 63 ∷ t) ≡ before 63 s
before-append [] t = refl
before-append (c ∷ s) t = elim (Bool-cases (c == 63)) [
  | inl e ↦ rw e refl
  | inr e ↦ rw e (ap (λ r. c ∷ r) (before-append s t))
]

-- Only https.
abbrev url_of : Option Units → Option Url
url_of none = none
url_of (some rest) = some (record { protocol = units "https:"; hostname = before 47 rest })

abbrev texts : Bool → ClientTexts
texts insecure = record {
  lower = λ s. s;
  decrypt = λ s. s;
  encode = λ s. s;
  parse_url = λ s. url_of (after_word (units "https://") (before 63 s));
  registry_insecure = insecure;
  registry_endpoint = units "registry:5000";
}

texts-KeepsHost : KeepsHost (texts false)
texts-KeepsHost realm query u v e f =
    let same : some v ≡ some u =
      sym f
      ∙ ap (λ s. url_of (after_word (units "https://") s))
          (before-append realm (units "service=" ++ query))
      ∙ e in
    (ground (arith, same), ground (arith, same))

hub_image :
    (parse_image_ref (units " nginx ") (units "1.27 ") ≡ record {
      host = units "registry-1.docker.io";
      repo = units "library/nginx";
      tag = units "1.27";
    })
    × (parse_image_ref (units "ghcr.io/acme/web") (units "2")
        ≡ record { host = units "ghcr.io"; repo = units "acme/web"; tag = units "2" })
unfolding parse_image_ref trim
hub_image = (refl, refl)

abbrev image : ParsedImageRef
image = record { host = units "ghcr.io"; repo = units "acme/web"; tag = units "2" }

abbrev stored : RegistryAuth
stored = record {
  server = units "https://ghcr.io/v2/";
  username = units "me";
  password = units "secret";
}

abbrev challenge_to : Units → Request → Option Response
challenge_to realm r = some (
    if starts_with r.url (units "https://ghcr.io/v2/")
    then record {
      status = 401;
      challenge = some (units "Bearer realm=\"" ++ (realm ++ units "\",service=\"ghcr.io\""));
      token = none;
      digest = none;
    }
    else record { status = 200; challenge = none; token = some (units "t"); digest = none })

-- The token host is the registry's, and then it is not.
exchanges :
    (length
        (resolve_requests
          (texts false)
          (challenge_to (units "https://ghcr.io/token"))
          image
          (some stored)).0
      ≡ 3)
    × (length
          (resolve_requests
            (texts false)
            (challenge_to (units "https://evil.example/token"))
            image
            (some stored)).0
        ≡ 1)
unfolding resolve_requests fetch_with_registry_auth is_server_of normalize_registry_server trim
    scheme_for attribute
exchanges = (refl, refl)

resolve_requests-allowed_example :
    All
      (λ r. is_allowed (texts false) image (some stored) r ≡ true)
      (resolve_requests
        (texts false)
        (challenge_to (units "https://ghcr.io/token"))
        image
        (some stored)).0
resolve_requests-allowed_example =
    resolve_requests-allowed (texts false) (challenge_to (units "https://ghcr.io/token")) image
      (some stored) texts-KeepsHost
