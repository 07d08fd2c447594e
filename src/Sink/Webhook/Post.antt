-- ===== src/Sink/Webhook/Post.antt =====
-- internal/webhooksink/poster.go: NewHTTPPoster, Post and Reachable, and Classify.
use evm_tools.Base.{
  ℕ, ◌≤◌, ◌<◌, ◌≡◌, ◌⊎◌, inl, inr, refl, arith, Bool, false, not, ◌&&◌, ◌||◌, Option, none, some,
  List, [], ◌∷◌, Text, codes, if◌then◌else◌, leb, ltb, text_eq, has_prefix, to_upper, if_cases,
  Bool-cases, signed_lt, ◌*◌,
}
use evm_tools.Base.Exec.{Outcome, done, failed}
use evm_tools.Stream.Run.Start.{trim_space}
use evm_tools.Sink.Loop.{Answered, confirmed, transient, permanent}
use evm_tools.Sink.Loop.Options.{second}
use evm_tools.Sink.Remote.{Protocol}

pub record PosterConfig : Type 0 where
  pub url : Text
  pub method : Text
  pub headers : List (Text × Text)
  pub auth_header : Text
  pub auth_value : Text
  pub timeout : ℕ
  pub health_url : Text

pub record Poster : Type 0 where
  pub target : Text
  pub verb : Text
  pub sent_headers : List (Text × Text)
  pub time_limit : ℕ
  pub probed : Text

unfoldable pub is_http : Text → Bool
is_http url = has_prefix url (codes "http://") || has_prefix url (codes "https://")

abbrev pub is_blank : Text → Bool
is_blank s = text_eq (trim_space s) []

abbrev pub or_post : Text → Text
or_post [] = codes "POST"
or_post (c ∷ s) = c ∷ s

unfoldable pub is_method : Text → Bool
is_method m = text_eq m (codes "POST") || text_eq m (codes "PUT") || text_eq m (codes "PATCH")

-- `headers[k] = v`
unfoldable pub set_header : Text → Text → List (Text × Text) → List (Text × Text)
set_header k v [] = (k, v) ∷ []
set_header k v ((j, w) ∷ headers) =
    let rest = set_header k v headers in if text_eq j k then (j, v) ∷ headers else (j, w) ∷ rest

unfoldable pub named_headers : List (Text × Text) → List (Text × Text)
named_headers [] = []
named_headers ((k, v) ∷ headers) =
    let rest = named_headers headers in if is_blank k then rest else (k, v) ∷ rest

unfoldable pub headers_of : PosterConfig → List (Text × Text)
headers_of c =
    let headers = named_headers c.headers in
    if not (is_blank c.auth_header) && not (text_eq c.auth_value [])
    then set_header c.auth_header c.auth_value headers
    else headers

-- NewHTTPPoster
unfoldable pub new_http_poster : PosterConfig → Outcome Text Poster
unfolding is_http is_method headers_of
new_http_poster c =
    let url = trim_space c.url in
    let method = or_post (to_upper (trim_space c.method)) in
    let health_url = trim_space c.health_url in
    if text_eq url []
    then failed (codes "webhooksink: a webhook url is required")
    else if not (is_http url)
    then failed (codes "webhooksink: webhook url must be http(s)")
    else if not (is_method method)
    then failed (codes "webhooksink: unsupported webhook method")
    else if not (text_eq health_url []) && not (is_http health_url)
    then failed (codes "webhooksink: webhook health_url must be http(s)")
    else done (record {
      target = url;
      verb = method;
      sent_headers = headers_of c;
      time_limit = if signed_lt 0 c.timeout then c.timeout else 10 * second;
      probed = health_url;
    })

-- What a POST comes to: a status, with whether the endpoint has accepted the payload although the
-- status is no success; a transport error; or a request that cannot be built.
pub data Response : Type 0 where
  status : ℕ → Bool → Response
  transport_error : Bool → Response
  bad_request : Response

-- The errors of Post.
pub data PostError : Type 0 where
  permanent_error : Text → PostError
  transient_http_error : ℕ → PostError
  transport : PostError

abbrev pub in_range : ℕ → ℕ → ℕ → Bool
in_range lo hi n = leb lo n && ltb n hi

-- Post, from the status on
unfoldable pub post_status : ℕ → Option PostError
post_status n =
    if in_range 200 300 n
    then none
    else if in_range 300 400 n
    then some (permanent_error (codes "redirect not followed"))
    else if in_range 400 500 n
    then some (permanent_error (codes "client error"))
    else some (transient_http_error n)

-- Post
unfoldable pub post : Response → Option PostError
unfolding post_status
post (status n kept) = post_status n
post (transport_error kept) = some transport
post bad_request = some (permanent_error (codes "build request"))

-- Reachable: whether there is no error.
unfoldable pub reachable : Poster → Response → Bool
reachable p (status n kept) = text_eq p.probed [] || in_range 200 300 n
reachable p (transport_error kept) = text_eq p.probed []
reachable p bad_request = text_eq p.probed []

-- Classify
unfoldable pub classify_post : PostError → Answered
classify_post (permanent_error reason) = permanent
classify_post (transient_http_error n) = transient
classify_post transport = transient

abbrev pub answered_by : Option PostError → Answered
answered_by none = confirmed
answered_by (some e) = classify_post e

abbrev pub is_accepted : Response → Bool
is_accepted (status n kept) = in_range 200 300 n || kept
is_accepted (transport_error kept) = kept
is_accepted bad_request = false

abbrev pub webhook : Protocol Response
webhook = record { answer = λ r. answered_by (post r); taken = is_accepted }

-- A payload is confirmed exactly by a 2xx status, given up exactly for a 3xx or a 4xx status or a
-- request that cannot be built, and else retried.
abbrev pub IsPosted : Response → Answered → Type 0
IsPosted r confirmed = (n : ℕ) × (k : Bool) × (r ≡ status n k) × (200 ≤ n) × (n < 300)
IsPosted r permanent =
    ((n : ℕ) × (k : Bool) × (r ≡ status n k) × (300 ≤ n) × (n < 500)) ⊎ (r ≡ bad_request)
IsPosted r transient =
    ((n : ℕ) × (k : Bool) × (r ≡ status n k) × ((n < 200) ⊎ (500 ≤ n)))
    ⊎ ((k : Bool) × (r ≡ transport_error k))

far_off :
    (n : ℕ)
    → in_range 200 300 n ≡ false
    → in_range 300 400 n ≡ false
    → in_range 400 500 n ≡ false
    → (n < 200) ⊎ (500 ≤ n)
far_off n a b c = elim (Bool-cases (ltb n 200)) [
  | inl e ↦ inl (ground arith)
  | inr e ↦ inr (ground arith)
]

pub post-IsPosted : (r : Response) → IsPosted r (answered_by (post r))
unfolding post classify_post
post-IsPosted (status n kept) =
    if_cases By (in_range 200 300 n) (λ e. (n, kept, refl, ground arith, ground arith))
      (λ a.
        if_cases By (in_range 300 400 n) (λ e. inl (n, kept, refl, ground arith, ground arith))
          (λ b.
            if_cases By (in_range 400 500 n) (λ e. inl (n, kept, refl, ground arith, ground arith))
              (λ c. inl (n, kept, refl, far_off n a b c))))
  where
    By : Option PostError → Type 0
    By o = IsPosted (status n kept) (answered_by o)
post-IsPosted (transport_error kept) = inr (kept, refl)
post-IsPosted bad_request = inr refl
