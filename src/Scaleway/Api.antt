-- ===== src/Scaleway/Api.antt =====
-- provider/defangscaleway/build.go: the client of the Scaleway API, its requests and its errors.
-- The world answers a request by all that was sent before, and the context may be done.
pub mod Keeps
pub mod Clock
use pulumi_defang.Prelude.{
  Text, codes, Map, List, [], ◌∷◌, ◌++◌, Bool, true, false, Option, none, some, Result, ok, err, ℤ,
  ℕ, ◌+◌, ◌==◌, leb, is_empty, if◌then◌else◌, decimal, quote, to_lower,
}

-- The JSON object that createServer sends, with its one volume.
pub record NewServer : Type 0 where
  pub name : Text
  pub commercial_type : Text
  pub image : Text
  pub project : Text
  pub dynamic_ip_required : Bool
  pub volume_type : Text
  pub size : ℤ

pub data Body : Type 0 where
  no_body : Body
  script : Text → Body
  action : Text → Body
  new_server : NewServer → Body

pub record Request : Type 0 where
  pub verb : Text
  pub url : Text
  pub body : Body

-- A query_range request to Loki, with the two times in nanoseconds.
pub record LokiQuery : Type 0 where
  pub endpoint : Text
  pub token : Text
  pub selector : Text
  pub start : ℕ
  pub end : ℕ
  pub direction : Text
  pub limit : ℕ

pub record Volume : Type 0 where
  pub id : Text
  pub volume_type : Text

-- The server object of a response, as encoding/json decodes it.
pub record ServerObject : Type 0 where
  pub id : Text
  pub volumes : Map Volume
  pub public_ip : Option Text
  pub public_ips : List Text

-- A response: its status, its body, and the body as JSON where it decodes.
pub record Response : Type 0 where
  pub status : ℕ
  pub text : Text
  pub server : Option ServerObject
  pub streams : Option (List (List (List Text)))

-- The HTTP client fails, or there is a response.
pub data Reply : Type 0 where
  failed : Text → Reply
  answered : Response → Reply

-- What the program did to the world: a request and its reply, a request that the HTTP client did not
-- send because the context was done, a query of the log store, a sleep in nanoseconds.
pub data Event : Type 0 where
  sent : Request → Reply → Event
  withheld : Request → Event
  queried : LokiQuery → Event
  slept : ℕ → Event

-- The last event comes first.
abbrev pub History : Type 0
History = List Event

-- The API, the log store, the clock in nanoseconds since 1970, whether the context is done when a
-- history has passed, the environment, and the first eight hexadecimal digits of SHA-256.
pub record World : Type 0 where
  pub reply : History → Request → Reply
  pub logs : History → LokiQuery → Reply
  pub now : History → ℕ
  pub context_done : History → Bool
  pub getenv : Text → Text
  pub hash : Text → Text

-- Errors as the code wraps them; `out_of_fuel` is the model's own.
pub data Error : Type 0 where
  api : ℕ → Text → Error
  transport : Text → Error
  undecodable : Text → Error
  context_error : Error
  build_failed build_timeout missing_aws_credentials : Error
  invalid_source : Text → Error
  wrapped : Text → Error → Text → Error
  wrapped_both : Text → Error → Text → Error → Error
  joined : Error → Error → Error
  out_of_fuel : Error

unfoldable pub message : Error → Text
message (api status body) =
    codes "scaleway API error: status " ++ decimal status ++ codes ": " ++ body
message (transport what) = what
message (undecodable what) = what
message context_error = codes "context canceled"
message build_failed = codes "build failed"
message build_timeout = codes "build timed out"
message missing_aws_credentials = codes "AWS_ACCESS_KEY_ID/AWS_SECRET_ACCESS_KEY not set"
message (invalid_source what) = codes "invalid build context source: " ++ what
message (wrapped before e behind) = before ++ message e ++ behind
message (wrapped_both before e between e') = before ++ message e ++ between ++ message e'
message (joined e e') = message e ++ b'\n' ∷ message e'
message out_of_fuel = []

first_of {ℓ} : {A : Type ℓ} → Option A → Option A → Option A
first_of none o = o
first_of (some a) o = some a

-- errors.As for *scwAPIError: the first one of the tree.
unfoldable pub as_api : Error → Option (ℕ × Text)
unfolding first_of
as_api (api status body) = some (status, body)
as_api (transport what) = none
as_api (undecodable what) = none
as_api context_error = none
as_api build_failed = none
as_api build_timeout = none
as_api missing_aws_credentials = none
as_api (invalid_source what) = none
as_api (wrapped before e behind) = as_api e
as_api (wrapped_both before e between e') = first_of (as_api e) (as_api e')
as_api (joined e e') = first_of (as_api e) (as_api e')
as_api out_of_fuel = none

-- http.StatusNotFound
unfoldable pub is_not_found : Error → Bool
unfolding as_api
is_not_found e = elim (as_api e) [ none ↦ false | some (status, body) ↦ status == 404 ]

-- Whether a call without a value has failed.
abbrev pub Done : Type 0
Done = Result Error (Unit {0})

-- What a call ends with: its result, and all that was done until then.
abbrev pub Outcome : Type 0 → Type 0
Outcome A = Result Error A × History

abbrev pub Call : Type 0 → Type 0
Call A = History → Outcome A

module _ {A B : Type 0} where
  unfoldable pub continue : (A → Call B) → Outcome A → Outcome B
  continue next (err e, h) = (err e, h)
  continue next (ok a, h) = next a h

infixl 5 ◌>>=◌
abbrev pub ◌>>=◌ : {A B : Type 0} (first : Call A) (next : A → Call B) → Call B
◌>>=◌ first next h = continue next (first h)

module _ {A : Type 0} where
  abbrev pub return : A → Call A
  return a h = (ok a, h)

  abbrev pub fail : Error → Call A
  fail e h = (err e, h)

  abbrev pub wrap_result : Text → Text → Outcome A → Outcome A
  wrap_result before behind (err e, h) = (err (wrapped before e behind), h)
  wrap_result before behind (ok a, h) = (ok a, h)

  -- fmt.Errorf with one %w, where the call fails.
  abbrev pub wrap : Text → Call A → Text → Call A
  wrap before call behind h = wrap_result before behind (call h)

unfoldable pub check_status : Reply → Result Error Response
check_status (failed what) = err (transport what)
check_status (answered r) = if leb 400 r.status then err (api r.status r.text) else ok r

-- The verb as a *url.Error spells it: its first letter, and the others in lower case.
url_error_op : Text → Text
url_error_op [] = codes "Get"
url_error_op (c ∷ verb) = c ∷ to_lower verb

-- The *url.Error of a context that is done.
unfoldable pub not_sent : (verb url : Text) → Error
unfolding url_error_op
not_sent verb url =
    wrapped (url_error_op verb ++ codes " " ++ quote url ++ codes ": ") context_error []

module _ (w : World) where
  -- net/http sends nothing once the context is done.
  unfoldable pub do_request : Text → Text → Body → Call Response
  unfolding check_status not_sent
  do_request verb url body h =
      let request : Request = record { verb = verb; url = url; body = body } in
      let reply = w.reply h request in
      if w.context_done h
      then (err (not_sent verb url), withheld request ∷ h)
      else (check_status reply, sent request reply ∷ h)

  -- common.SleepWithContext
  unfoldable pub sleep : ℕ → Call Unit
  sleep d h =
      let h' : History = slept d ∷ h in (if w.context_done h' then err context_error else ok tt, h')

-- The client's own apiURL, which only tests set, is left empty.
abbrev pub base_url : Text
base_url = codes "https://api.scaleway.com"

unfoldable pub instance_base_url : Text → Text
instance_base_url zone = base_url ++ codes "/instance/v1/zones/" ++ zone

unfoldable pub block_base_url : Text → Text
block_base_url zone = base_url ++ codes "/block/v1alpha1/zones/" ++ zone
