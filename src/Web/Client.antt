-- ===== src/Web/Client.antt =====
-- apps/web/lib/api.ts, `rtkErrorMessages` of apps/web/store/api.ts, and the proxy routes of
-- apps/web/app/api/orders. `J` is the type of JSON values.
use logistics_order_fulfillm.Prelude.{
  ◌<>◌, ℕ, String, Bool, Option, none, some, List, [], ◌∷◌, Result, ok, err, ◌==◌, eqb, decimal,
  if◌then◌else◌,
}

-- The `message` of an error body: a text, a list of texts, or neither.
pub data ErrorMessage : Type 0 where
  one_text : String → ErrorMessage
  texts : List String → ErrorMessage
  no_text : ErrorMessage

pub record ApiErrorBody : Type 0 where
  pub message : ErrorMessage

-- A response of `fetch`: `value` and `error_body` are its JSON, read as either type, and `none` where
-- it is no JSON.
pub record FetchResponse (A : Type 0) : Type 0 where
  pub is_ok : Bool
  pub status : ℕ
  pub value : Option A
  pub error_body : Option ApiErrorBody

-- A thrown `ApiError`, or the error of a body that is no JSON.
pub data ClientError : Type 0 where
  api_error : String → ℕ → Option ApiErrorBody → ClientError
  syntax_error : ClientError

unfoldable pub join : String → List String → String
join sep [] = ""
join sep (s ∷ []) = s
join sep (s ∷ t ∷ ts) = s <> sep <> join sep (t ∷ ts)

message_or : String → ErrorMessage → String
unfolding join
message_or fallback (one_text s) = s
message_or fallback (texts ts) = join ", " ts
message_or fallback no_text = fallback

unfoldable pub error_text : ℕ → Option ApiErrorBody → String
unfolding message_or
error_text status none = "Request failed with status " <> decimal status
error_text status (some body) =
    message_or ("Request failed with status " <> decimal status) body.message

parsed_or_throw : {A : Type 0} → Option A → Result ClientError A
parsed_or_throw none = err syntax_error
parsed_or_throw (some a) = ok a

unfoldable pub json_or_throw : {A : Type 0} → FetchResponse A → Result ClientError A
unfolding error_text parsed_or_throw
json_or_throw res =
    if res.is_ok
    then parsed_or_throw res.value
    else err (api_error (error_text res.status res.error_body) res.status res.error_body)

some_of : {E A : Type 0} → Result E A → Result E (Option A)
some_of (ok a) = ok (some a)
some_of (err e) = err e

-- `fetchOrder`: a missing order is `null`.
unfoldable pub fetch_order : {A : Type 0} → FetchResponse A → Result ClientError (Option A)
unfolding some_of
fetch_order res = if eqb res.status 404 then ok none else some_of (json_or_throw res)

-- `fetchFlagsByOrder`: a missing order has no flags.
unfoldable pub fetch_flags_by_order :
    {A : Type 0} → FetchResponse (List A) → Result ClientError (List A)
fetch_flags_by_order res = if eqb res.status 404 then ok [] else json_or_throw res

-- An error of RTK Query: a status that is a number, and the data.
pub record FetchBaseQueryError : Type 0 where
  pub status : Option ℕ
  pub body : Option ApiErrorBody

by_status : Option ℕ → List String
by_status none = "Could not reach the order service. Please try again." ∷ []
by_status (some status) = ("Request failed with status " <> decimal status <> ".") ∷ []

-- An empty text is falsy, an empty list is not.
by_message : Option ApiErrorBody → List String → List String
by_message none rest = rest
by_message (some body) rest = elim body.message [
  | one_text s ↦ if s == "" then rest else s ∷ []
  | texts ts ↦ ts
  | no_text ↦ rest
]

unfoldable pub rtk_error_messages : Option FetchBaseQueryError → List String
unfolding by_status by_message
rtk_error_messages none = by_status none
rtk_error_messages (some e) = by_message e.body (by_status e.status)

-- The answer of a proxy: its status, and the JSON of the upstream or a message of its own.
pub data ProxyBody (J : Type 0) : Type 0 where
  upstream : J → ProxyBody J
  own_message : String → ProxyBody J

pub record ProxyAnswer (J : Type 0) : Type 0 where
  pub status : ℕ
  pub body : ProxyBody J

or_null : {J : Type 0} → J → Option J → J
or_null null none = null
or_null null (some j) = j

answer_of : {J : Type 0} → J → Option (ℕ × Option J) → ProxyAnswer J
unfolding or_null
answer_of null none = record {
  status = 502;
  body = own_message "Could not reach the order service.";
}
answer_of null (some (status, json)) = record {
  status = status;
  body = upstream (or_null null json);
}

-- `POST` of the orders' route: `body` is the request's JSON, `send` is the fetch of the order API
-- with `none` where it fails, and the upstream's JSON is `null` where there is none.
unfoldable pub post_order :
    {J : Type 0} → J → (J → Option (ℕ × Option J)) → Option J → ProxyAnswer J
unfolding answer_of
post_order null send none = record { status = 400; body = own_message "Invalid JSON body." }
post_order null send (some body) = answer_of null (send body)

-- `PATCH` of the transition's route.
unfoldable pub patch_transition :
    {J : Type 0} → J → (String → J → Option (ℕ × Option J)) → String → Option J → ProxyAnswer J
unfolding answer_of
patch_transition null send id none = record {
  status = 400;
  body = own_message "Invalid JSON body.";
}
patch_transition null send id (some body) = answer_of null (send id body)
