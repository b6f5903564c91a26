-- ===== src/TagWatch/Client.antt =====
-- The client of image registries (apps/backend/src/modules/worker/jobs/registry-tag-watch/registry.ts):
-- the requests that it sends to learn the digest of a tag, in order. How a URL is parsed, how a query
-- is encoded, what lower case is and how a stored password is read are parameters; `server` answers.
use kubwave.Common.{
  ℕ, Bool, true, false, ◌&&◌, ◌||◌, Option, none, some, List, [], ◌∷◌, ◌++◌, ◌==◌, if◌then◌else◌,
  any,
}
use mathlib.Core.Option
use kubwave.Common.Units.{Units, units, is_blank, trim, same_units, starts_with, after_word}

pub record ParsedImageRef : Type 0 where
  pub host : Units
  pub repo : Units
  pub tag : Units

abbrev pub hub_host : Units
hub_host = units "registry-1.docker.io"

abbrev pub has_unit : ℕ → Units → Bool
has_unit c s = any (λ d. d == c) s

abbrev pub split_slash : Units → Option (Units × Units)
split_slash [] = none
split_slash (c ∷ s) =
    let rest = Option.map (λ p. (c ∷ p.0, p.1)) (split_slash s) in
    if c == 47 then some ([], s) else rest

abbrev pub is_host_segment : Units → Bool
is_host_segment s = has_unit 46 s || has_unit 58 s || same_units s (units "localhost")

abbrev pub is_hub : Units → Bool
is_hub host =
    same_units host (units "docker.io")
    || same_units host (units "index.docker.io")
    || same_units host (units "registry.hub.docker.com")
    || same_units host hub_host

abbrev pub hub_repo : Units → Units
hub_repo repo = if has_unit 47 repo then repo else units "library/" ++ repo

abbrev pub host_and_repo : Units → Option (Units × Units) → Units × Units
host_and_repo image none = (hub_host, image)
host_and_repo image (some (first, rest)) =
    if is_host_segment first then (first, rest) else (hub_host, image)

unfoldable pub parse_image_ref : Units → Units → ParsedImageRef
unfolding trim
parse_image_ref image tag =
    let (host, repo) = host_and_repo (trim image) (split_slash (trim image)) in
    if is_hub host
    then record { host = hub_host; repo = hub_repo repo; tag = trim tag }
    else record { host = host; repo = repo; tag = trim tag }

-- `s.includes(word)`
abbrev pub has_word_in : Units → Units → Bool
has_word_in s [] = true
has_word_in [] (w ∷ ws) = false
has_word_in (c ∷ s) (w ∷ ws) = starts_with (c ∷ s) (w ∷ ws) || has_word_in s (w ∷ ws)

pub record Credentials : Type 0 where
  pub username : Units
  pub password : Units

-- The stored credentials of a service, for one server.
pub record RegistryAuth : Type 0 where
  pub server : Units
  pub username : Units
  pub password : Units

pub data Authorization : Type 0 where
  basic : Credentials → Authorization
  bearer : Units → Authorization

pub record Request : Type 0 where
  pub url : Units
  pub authorization : Option Authorization

pub record Response : Type 0 where
  pub status : ℕ
  pub challenge : Option Units
  pub token : Option Units
  pub digest : Option Units

pub record Url : Type 0 where
  pub protocol : Units
  pub hostname : Units

pub record ClientTexts : Type 0 where
  pub lower : Units → Units
  pub decrypt : Units → Units
  pub encode : Units → Units
  pub parse_url : Units → Option Url
  pub registry_insecure : Bool
  pub registry_endpoint : Units

-- The attribute's value in a challenge: the first place where it is quoted and not empty.
abbrev pub quoted_value : Units → Option Units
quoted_value [] = none
quoted_value (c ∷ s) =
    let rest = Option.map (λ v. c ∷ v) (quoted_value s) in if c == 34 then some [] else rest

abbrev pub filled_value : Option Units → Option Units
filled_value none = none
filled_value (some v) = if is_blank v then none else some v

abbrev pub first_of : Option Units → Option Units → Option Units
first_of (some v) rest = some v
first_of none rest = rest

abbrev pub value_after : Option Units → Option Units
value_after none = none
value_after (some rest) = filled_value (quoted_value rest)

unfoldable pub attribute : Units → Units → Option Units
attribute word [] = none
attribute word (c ∷ s) = first_of (value_after (after_word word (c ∷ s))) (attribute word s)

abbrev pub trusted_token_hosts : Units → List Units
trusted_token_hosts host =
    if same_units host hub_host
      || same_units host (units "index.docker.io")
      || same_units host (units "docker.io")
    then units "auth.docker.io" ∷ []
    else if same_units host (units "registry.gitlab.com")
    then units "gitlab.com" ∷ []
    else []

abbrev pub is_https : Url → Bool
is_https u = same_units u.protocol (units "https:")

abbrev pub is_trusted : Url → Url → Bool
is_trusted registry realm =
    same_units realm.hostname registry.hostname
    || any (λ h. same_units h realm.hostname) (trusted_token_hosts registry.hostname)

pub data Fetched : Type 0 where
  response : Response → Fetched
  failure : Fetched

abbrev pub Sent : Type 0
Sent = List Request × Fetched

module _ (texts : ClientTexts) where
  unfoldable pub scheme_for : Units → Units
  scheme_for host =
      let name = texts.lower host in
      if texts.registry_insecure && same_units name (texts.lower texts.registry_endpoint)
      then units "http"
      else if same_units name (units "localhost")
          || starts_with name (units "localhost:")
          || starts_with name (units "127.0.0.1")
          || has_word_in name (units ".k3d.")
          || starts_with name (units "k3d-")
      then units "http"
      else units "https"

  unfoldable pub normalize_registry_server : Units → Units
  unfolding trim
  normalize_registry_server server =
      let host = texts.lower (trim server) in
      if same_units host (units "docker.io")
        || same_units host (units "index.docker.io")
        || same_units host (units "registry.hub.docker.com")
      then units "https://index.docker.io/v1/"
      else host
